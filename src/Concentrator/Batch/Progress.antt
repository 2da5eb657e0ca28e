-- ===== src/Concentrator/Batch/Progress.antt =====
-- The main loop keeps the window full, and a job can always come to its end.
use mathlib.Core.Path.{subst}
use zzt_self.Base.{
  ℕ, zero, suc, ◌+◌, ◌-◌, ◌≡◌, refl, sym, ap, ◌∙◌, ◌≢◌, ◌⊎◌, inl, inr, Bool, true, false, ◌||◌,
  some, List, [], ◌∷◌, ◌++◌, arith, Bool-cases, length, get_elem?, All, if-holds, elim-holds,
}
use Prim.Native.String.{String}
use zzt_self.Concentrator.Batch.{
  Mode, BatchReadJob, JobEvent, without, measure, launch, launch_one, expire_worker, finish, is_nil,
  run_event, measures, launches, finishes, stops, polls, fails, expires,
}
use zzt_self.Concentrator.Batch.Counts.{count, count_rows}
use zzt_self.Concentrator.Batch.Window.{
  Reachable, ran, Accounted, Reachable-Accounted, run_event-Accounted, finished-rows,
}

-- The passes of one `for` loop.
unfoldable pub launch_times : ℕ → BatchReadJob → BatchReadJob
launch_times zero job = job
launch_times (suc n) job = launch_times n (launch job)

abbrev pub one_round : BatchReadJob → BatchReadJob
one_round job = launch_times (measure job).slots (measure job)

abbrev pub Full : BatchReadJob → Type 0
Full job = (job.in_flight ≡ job.max_concurrent) ⊎ (job.queue ≡ [])

slots-cases : (n : ℕ) → (n ≡ 0) ⊎ ((left : ℕ) × (n ≡ suc left))
slots-cases zero = inl refl
slots-cases (suc left) = inr (left, refl)

launch-nil : (job : BatchReadJob) → job.queue ≡ [] → (launch job).queue ≡ []
unfolding launch
launch-nil job e = elim (slots-cases job.slots) [ inl h ↦ rw h e | inr (left, h) ↦ rw (h, e) refl ]

-- What a pass does with a free slot and a meter waiting.
launch-cons :
    (job : BatchReadJob) (left : ℕ) (m : String) (ms : List String)
    → job.slots ≡ suc left
    → job.queue ≡ m ∷ ms
    → job.stopped ≡ false
    → launch job ≡ record job {
      slots = left;
      queue = ms;
      queued = length ms;
      in_flight = suc job.in_flight;
      active = job.active ++ (m ∷ []);
    }
unfolding launch
launch-cons job left m ms e f on = rw (e, f, on) refl

launch_times-nil : (n : ℕ) (job : BatchReadJob) → job.queue ≡ [] → (launch_times n job).queue ≡ []
unfolding launch_times
launch_times-nil zero job e = e
launch_times-nil (suc n) job e = launch_times-nil n (launch job) (launch-nil job e)

List-cases : (xs : List String) → (xs ≡ []) ⊎ ((y : String) × (ys : List String) × (xs ≡ y ∷ ys))
List-cases [] = inl refl
List-cases (x ∷ xs) = inr (x, xs, refl)

launch_times-Full :
    (n : ℕ) (job : BatchReadJob)
    → job.slots ≡ n
    → job.stopped ≡ false
    → job.in_flight + n ≡ job.max_concurrent
    → Full (launch_times n job)
unfolding launch_times
launch_times-Full zero job e on h = inl (omega (arith, h))
launch_times-Full (suc n) job e on h = elim (List-cases job.queue) [
  | inl none_left ↦ inr (launch_times-nil n (launch job) (launch-nil job none_left))
  | inr (m, ms, f) ↦
      let next = record job {
        slots = n;
        queue = ms;
        queued = length ms;
        in_flight = suc job.in_flight;
        active = job.active ++ (m ∷ []);
      } in
      subst (λ j. Full (launch_times n j)) (sym (launch-cons job n m ms e f on))
        (launch_times-Full n next refl on (omega (arith, h)))
]

-- After a round of the main loop of a job that is not stopped, as many reads are in flight as
-- `max_concurrent` allows, or no meter is left waiting.
pub one_round-Full :
    (most : ℕ) (mode : Mode) (meters : List String) (job : BatchReadJob)
    → Reachable most mode meters job
    → job.stopped ≡ false
    → Full (one_round job)
unfolding measure
one_round-Full most mode meters job r on =
    let a = Reachable-Accounted most mode meters job r in
    launch_times-Full (job.max_concurrent - job.in_flight) (measure job) refl on
      (omega (arith, a.window))

-- The events of `es`, the first one first.
unfoldable pub run_events : List JobEvent → BatchReadJob → BatchReadJob
run_events [] job = job
run_events (e ∷ es) job = run_events es (run_event e job)

-- The steps of the main loop and a worker at its deadline: no call of `stop`, no answer and no
-- failure.
abbrev pub goes_on : JobEvent → Bool
goes_on measures = true
goes_on launches = true
goes_on finishes = true
goes_on (expires k) = true
goes_on _ = false

abbrev pub GoesOn : List JobEvent → Type 0
GoesOn es = All (λ e. goes_on e ≡ true) es

abbrev CanEnd : BatchReadJob → Type 0
CanEnd job = (es : List JobEvent) × GoesOn es × ((run_events es job).finished ≡ true)

step_first :
    (e : JobEvent) (job : BatchReadJob) → goes_on e ≡ true → CanEnd (run_event e job) → CanEnd job
unfolding run_events
step_first e job on (es, ons, done) = (e ∷ es, (on, ons), done)

can_finish :
    (job : BatchReadJob) → job.active ≡ [] → (job.queue ≡ []) ⊎ (job.stopped ≡ true) → CanEnd job
unfolding run_events run_event finish
can_finish job idle ended = (finishes ∷ [], (refl, tt), finished)
  where
    ready : (is_nil job.queue || job.stopped) ≡ true
    ready = elim ended [
      | inl e ↦ ap (λ q. is_nil q || job.stopped) e
      | inr off ↦ rw off (ground arith)
    ]

    finished : (run_event finishes job).finished ≡ true
    finished = rw (ready, idle) refl

-- What a worker past its deadline leaves as it was.
abbrev Leaves : BatchReadJob → List String → BatchReadJob → Type 0
Leaves job xs after =
    (after.active ≡ xs) × (after.queue ≡ job.queue) × (after.stopped ≡ job.stopped)

expire-first :
    (job : BatchReadJob) (x : String) (xs : List String)
    → job.active ≡ x ∷ xs
    → Leaves job xs (run_event (expires 0) job)
unfolding run_event expire_worker
expire-first job x xs e =
    let left : without 0 job.active ≡ xs = ap (without 0) e in
    let there : get_elem? job.active 0 ≡ some x = ap (λ ys. get_elem? ys 0) e in
    elim-holds (Leaves job xs) (get_elem? job.active 0) _ _ (λ h. cc)
      (λ m h.
        if-holds (Leaves job xs) job.stopped _ _ (λ _. (left, refl, refl))
          (λ _. (left, refl, refl)))

length-nil : (xs : List String) → length xs ≡ 0 → xs ≡ []
length-nil [] h = refl
length-nil (x ∷ xs) h = absurd (omega arith)

module _ (most : ℕ) (meters : List String) where
  -- All workers past their deadline, the first one first.
  clear :
      (n : ℕ) (job : BatchReadJob)
      → length job.active ≡ n
      → Accounted most meters job
      → ((after : BatchReadJob) → Leaves job [] after → Accounted most meters after → CanEnd after)
      → CanEnd job
  clear zero job size a later = elim (List-cases job.active) [
    | inl idle ↦ later job (idle, refl, refl) a
    | inr (x, xs, e) ↦ absurd (omega (arith, ap length e, size))
  ]
  clear (suc k) job size a later = elim (List-cases job.active) [
    | inl idle ↦ later job (idle, refl, refl) a
    | inr (x, xs, e) ↦
        let (left, waiting, off) = expire-first job x xs e in
        step_first (expires 0) job refl (
          clear k (run_event (expires 0) job) (omega (arith, ap length e, size, ap length left))
            (run_event-Accounted most meters (expires 0) job a)
            (λ after (idle, queue, stopped) b.
              later after (idle, queue ∙ waiting, stopped ∙ off) b))
  ]

  drain :
      (n : ℕ) (job : BatchReadJob)
      → length job.queue ≡ n
      → job.active ≡ []
      → Accounted most meters job
      → CanEnd job
  unfolding run_event measure
  drain zero job size idle a = can_finish job idle (inl (length-nil job.queue size))
  drain (suc n) job size idle a = elim (Bool-cases job.stopped) [
    | inl off ↦ can_finish job idle (inr off)
    | inr on ↦ elim (List-cases job.queue) [
      | inl none_left ↦ can_finish job idle (inl none_left)
      | inr (m, ms, e) ↦
          let measured = run_event measures job in
          let launched = run_event launches measured in
          let free : measured.slots ≡ suc (job.max_concurrent - 1) =
            omega (arith, a.limit, a.flying, ap length idle, ap length (a.kept on)) in
          let queue : launched.queue ≡ ms =
            ap (λ j. j.queue) (launch-cons measured (job.max_concurrent - 1) m ms free e on) in
          let b =
            run_event-Accounted most meters launches measured
              (run_event-Accounted most meters measures job a) in
          step_first measures job refl (
            step_first launches measured refl (
              clear (length launched.active) launched refl b (λ after (gone, left, _) c.
                drain n after (omega (arith, ap length left, ap length queue, ap length e, size))
                  gone c)))
    ]
  ]

apart : false ≢ true
apart h = cc

launch_one-stopped :
    (left : ℕ) (ms : List String) (job : BatchReadJob)
    → (launch_one left ms job).stopped ≡ job.stopped
launch_one-stopped left [] job = refl
launch_one-stopped left (m ∷ ms) job =
    if-holds (λ (j : BatchReadJob). j.stopped ≡ job.stopped) job.stopped _ _ (λ _. refl) (λ _. refl)

by_slots-stopped :
    (n : ℕ) (job : BatchReadJob)
    → let after : BatchReadJob = elim n [ zero ↦ job | suc left ↦ launch_one left job.queue job ] in
      after.stopped ≡ job.stopped
by_slots-stopped zero job = refl
by_slots-stopped (suc left) job = launch_one-stopped left job.queue job

launch-stopped : (job : BatchReadJob) → (launch job).stopped ≡ job.stopped
unfolding launch
launch-stopped job = by_slots-stopped job.slots job

expire_worker-stopped : (k : ℕ) (job : BatchReadJob) → (expire_worker k job).stopped ≡ job.stopped
unfolding expire_worker
expire_worker-stopped k job =
    elim-holds (λ (j : BatchReadJob). j.stopped ≡ job.stopped) (get_elem? job.active k) _ _
      (λ _. refl)
      (λ m _.
        if-holds (λ (j : BatchReadJob). j.stopped ≡ job.stopped) job.stopped _ _ (λ _. refl)
          (λ _. refl))

run_event-stopped :
    (e : JobEvent) (job : BatchReadJob) → goes_on e ≡ true → (run_event e job).stopped ≡ job.stopped
unfolding run_event measure finish
run_event-stopped measures job on = refl
run_event-stopped launches job on = launch-stopped job
run_event-stopped finishes job on = ground arith
run_event-stopped (expires k) job on = expire_worker-stopped k job
run_event-stopped stops job on = absurd (apart on)
run_event-stopped (polls k frames) job on = absurd (apart on)
run_event-stopped (fails k) job on = absurd (apart on)

run_events-stopped :
    (es : List JobEvent) (job : BatchReadJob)
    → GoesOn es
    → (run_events es job).stopped ≡ job.stopped
unfolding run_events
run_events-stopped [] job on = refl
run_events-stopped (e ∷ es) job (on, ons) =
    run_events-stopped es (run_event e job) ons ∙ run_event-stopped e job on

run_events-Reachable :
    (most : ℕ) (mode : Mode) (meters : List String) (es : List JobEvent) (job : BatchReadJob)
    → Reachable most mode meters job
    → Reachable most mode meters (run_events es job)
unfolding run_events
run_events-Reachable most mode meters [] job r = r
run_events-Reachable most mode meters (e ∷ es) job r =
    run_events-Reachable most mode meters es (run_event e job) (ran e job r)

-- No reachable state is a dead end: from each one some further steps bring the job to its end, in
-- which workers run into their deadline and the main loop goes on, and nothing calls `stop`. If the
-- job was not stopped before, each meter then has its rows, one for every time it stands in the
-- list.
pub Reachable-CanEnd :
    (most : ℕ) (mode : Mode) (meters : List String) (job : BatchReadJob)
    → Reachable most mode meters job
    → (es : List JobEvent) × GoesOn es
      × ((run_events es job).finished ≡ true)
      × (job.stopped ≡ false
          → (m : String) → count_rows m (run_events es job).rows ≡ count m meters)
Reachable-CanEnd most mode meters job r =
    let a = Reachable-Accounted most mode meters job r in
    let (es, ons, over) =
      clear most meters (length job.active) job refl a
        (λ after (gone, _, _) b. drain most meters (length after.queue) after refl gone b) in
    (
      es,
      ons,
      over,
      λ on.
          finished-rows most mode meters (run_events es job)
            (run_events-Reachable most mode meters es job r) over
            (run_events-stopped es job ons ∙ on),
    )
