-- ===== src/Concentrator/Batch/Window.antt =====
-- The window and the accounts of a job, after any steps of its threads in any order.
use mathlib.Core.Option.{some-injective}
use zzt_self.Base.{
  ℕ, zero, suc, ◌+◌, ◌≤◌, max, ◌≡◌, refl, sym, ap, ◌∙◌, ◌⊎◌, inl, inr, Bool, true, false, not, ◌&&◌,
  ◌||◌, Option, none, some, List, [], ◌∷◌, arith, ◌==◌, if◌then◌else◌, length, get_elem?,
  length-append, if-holds, elim-holds, has_text,
}
use Prim.Native.String.{String}
use zzt_self.Concentrator.Batch.{
  Mode, RowStatus, success, deny, mode_afn, names_other, Row, BatchReadJob, Reply, JobEvent,
  new_job, add_row, bump, breakdown_key, is_success, is_nil, first_answer, row_of, without,
  launch_one, leave, poll, fail, expire_worker, measure, launch, finish, stop, run_event, measures,
  launches, finishes, stops, polls, fails, expires,
}
use zzt_self.Concentrator.Batch.Counts.{
  count, count_rows, count-append, count_rows-append, count-without, length-without, total,
  total-bump,
}

-- A job as made, and after one more step.
pub data Reachable (most : ℕ) (mode : Mode) (meters : List String) : BatchReadJob → Type 0 where
  made : Reachable most mode meters (new_job most mode meters)
  ran :
      (e : JobEvent) (job : BatchReadJob)
      → Reachable most mode meters job
      → Reachable most mode meters (run_event e job)

pub record Accounted (most : ℕ) (meters : List String) (job : BatchReadJob) : Type 0 where
  pub limit : job.max_concurrent ≡ max 1 most
  pub listed : job.meters ≡ meters
  pub window : job.in_flight + job.slots ≤ job.max_concurrent
  pub flying : job.in_flight ≡ length job.active + length job.abandoned
  pub counted : job.done ≡ length job.rows
  pub outcomes : job.done ≡ job.succeeded + job.failed
  pub breakdown : total job.deny_breakdown ≡ job.failed
  pub each :
      (m : String)
      → count_rows m job.rows + count m job.active + count m job.abandoned + count m job.queue
        ≡ count m meters
  pub kept : job.stopped ≡ false → job.abandoned ≡ []
  pub over : job.finished ≡ true → (job.active ≡ []) × ((job.queue ≡ []) ⊎ (job.stopped ≡ true))

new_job-Accounted :
    (most : ℕ) (mode : Mode) (meters : List String)
    → Accounted most meters (new_job most mode meters)
new_job-Accounted most mode meters = record {
  limit = refl;
  listed = refl;
  window = omega arith;
  flying = refl;
  counted = refl;
  outcomes = refl;
  breakdown = refl;
  each = λ m. omega arith;
  kept = λ h. refl;
  over = λ h. cc;
}

-- The row is for the meter that was asked about.
abbrev ForMeter : String → Option Row × List String → Type 0
ForMeter meter res = (r : Row) → res.0 ≡ some r → r.meter ≡ meter

row_of-ForMeter :
    (meter : String) (st : RowStatus) (code : Option String) (f : Reply) (cs : List String)
    → ForMeter meter (some (row_of meter st code f), cs)
row_of-ForMeter meter st code f cs r h =
    sym (ap (λ x. x.meter) (some-injective (row_of meter st code f) r h))

first_answer-ForMeter :
    (mode : Mode) (meters : List String) (meter : String) (frames : List (Option Reply))
    (claimed : List String)
    → ForMeter meter (first_answer mode meters meter frames claimed)
unfolding first_answer
first_answer-ForMeter mode meters meter [] claimed = λ r h. cc
first_answer-ForMeter mode meters meter (none ∷ rest) claimed =
    first_answer-ForMeter mode meters meter rest claimed
first_answer-ForMeter mode meters meter (some f ∷ rest) claimed =
    let later = first_answer-ForMeter mode meters meter rest claimed in
    if-holds (ForMeter meter) (not f.uplink) _ _ (λ _. later)
      (λ _.
        if-holds (ForMeter meter) (f.afn == 0 && f.fn == 2) _ _
          (λ _.
            elim-holds (ForMeter meter) f.deny_code _ _ (λ _. later)
              (λ code _.
                if-holds (ForMeter meter) (f.names meter) _ _
                  (λ _. row_of-ForMeter meter deny (some code) f claimed)
                  (λ _.
                    if-holds (ForMeter meter) (names_other f meter meters) _ _ (λ _. later)
                      (λ _.
                        if-holds (ForMeter meter) (has_text f.hexs claimed) _ _ (λ _. later)
                          (λ _. row_of-ForMeter meter deny (some code) f (f.hexs ∷ claimed))))))
          (λ _.
            if-holds (ForMeter meter) (f.afn == mode_afn mode && f.fn == 1 && f.names meter) _ _
              (λ _. row_of-ForMeter meter success none f claimed) (λ _. later)))

module _ (most : ℕ) (meters : List String) where
  abbrev Sound : BatchReadJob → Type 0
  Sound job = Accounted most meters job

  -- A worker writes its row and returns.
  row_written :
      (r : Row) (k : ℕ) (job : BatchReadJob)
      → get_elem? job.active k ≡ some r.meter
      → Sound job
      → Sound (leave k (add_row r job))
  row_written r k job at a =
      let gone : length job.active ≡ suc (length (without k job.active)) =
        length-without r.meter k job.active at in
      record {
        limit = a.limit;
        listed = a.listed;
        window = omega (arith, a.window, a.flying, gone);
        flying = omega (arith, a.flying, gone);
        counted = omega (arith, a.counted, length-append job.rows (r ∷ []));
        outcomes = by_status (is_success r.status);
        breakdown = by_breakdown (is_success r.status);
        each = λ m. omega (
          arith,
          a.each m,
          count_rows-append m job.rows (r ∷ []),
          count-without m r.meter k job.active at,
        );
        kept = a.kept;
        over = λ h. absurd (omega (arith, gone, ap length (a.over h).0));
      }
    where
      by_status :
          (good : Bool)
          → suc job.done
            ≡ (if good then suc job.succeeded else job.succeeded)
              + (if good then job.failed else suc job.failed)
      by_status true = omega (arith, a.outcomes)
      by_status false = omega (arith, a.outcomes)

      by_breakdown :
          (good : Bool)
          → total (if good then job.deny_breakdown else bump (breakdown_key r) job.deny_breakdown)
            ≡ (if good then job.failed else suc job.failed)
      by_breakdown true = a.breakdown
      by_breakdown false = total-bump (breakdown_key r) job.deny_breakdown ∙ ap suc a.breakdown

  claimed-Accounted :
      (cs : List String) (job : BatchReadJob) → Sound job → Sound (record job { claimed = cs })
  claimed-Accounted cs job a = record {
    limit = a.limit;
    listed = a.listed;
    window = a.window;
    flying = a.flying;
    counted = a.counted;
    outcomes = a.outcomes;
    breakdown = a.breakdown;
    each = a.each;
    kept = a.kept;
    over = a.over;
  }

  poll-Accounted :
      (k : ℕ) (frames : List (Option Reply)) (job : BatchReadJob)
      → Sound job
      → Sound (poll k frames job)
  unfolding poll
  poll-Accounted k frames job a =
      elim-holds Sound (get_elem? job.active k) job _ (λ _. a)
        (λ meter at.
          let answer = first_answer job.mode job.meters meter frames job.claimed in
          let seen = claimed-Accounted answer.1 job a in
          elim-holds Sound answer.0 _ _ (λ _. seen)
            (λ r e.
              row_written r k (record job { claimed = answer.1 })
                (at
                  ∙ ap some (
                      sym (first_answer-ForMeter job.mode job.meters meter frames job.claimed r e)))
                seen))

  fail-Accounted : (k : ℕ) (job : BatchReadJob) → Sound job → Sound (fail k job)
  unfolding fail
  fail-Accounted k job a =
      elim-holds Sound (get_elem? job.active k) job _ (λ _. a)
        (λ meter at. row_written _ k job at a)

  expire_worker-Accounted : (k : ℕ) (job : BatchReadJob) → Sound job → Sound (expire_worker k job)
  unfolding expire_worker
  expire_worker-Accounted k job a =
      elim-holds Sound (get_elem? job.active k) job _ (λ _. a)
        (λ meter at.
          if-holds Sound job.stopped _ _
            (λ off.
              let gone : length job.active ≡ suc (length (without k job.active)) =
                length-without meter k job.active at in
              record {
                limit = a.limit;
                listed = a.listed;
                window = a.window;
                flying = omega (arith, a.flying, gone);
                counted = a.counted;
                outcomes = a.outcomes;
                breakdown = a.breakdown;
                each = λ m. omega (arith, a.each m, count-without m meter k job.active at);
                kept = λ on. cc;
                over = λ h. absurd (omega (arith, gone, ap length (a.over h).0));
              })
            (λ _. row_written _ k job at a))

  measure-Accounted : (job : BatchReadJob) → Sound job → Sound (measure job)
  unfolding measure
  measure-Accounted job a = record {
    limit = a.limit;
    listed = a.listed;
    window = omega (arith, a.window);
    flying = a.flying;
    counted = a.counted;
    outcomes = a.outcomes;
    breakdown = a.breakdown;
    each = a.each;
    kept = a.kept;
    over = a.over;
  }

  slots-Accounted :
      (n : ℕ) (job : BatchReadJob) → n ≤ job.slots → Sound job → Sound (record job { slots = n })
  slots-Accounted n job le a = record {
    limit = a.limit;
    listed = a.listed;
    window = omega (arith, a.window);
    flying = a.flying;
    counted = a.counted;
    outcomes = a.outcomes;
    breakdown = a.breakdown;
    each = a.each;
    kept = a.kept;
    over = a.over;
  }

  finish-Accounted : (job : BatchReadJob) → Sound job → Sound (finish job)
  unfolding finish
  finish-Accounted job a =
      if-holds Sound ((is_nil job.queue || job.stopped) && is_nil job.active) _ _
        (λ h. record {
          limit = a.limit;
          listed = a.listed;
          window = a.window;
          flying = a.flying;
          counted = a.counted;
          outcomes = a.outcomes;
          breakdown = a.breakdown;
          each = a.each;
          kept = a.kept;
          over = λ _. ended job.queue job.active job.stopped h;
        })
        (λ _. a)
    where
      ended :
          (queue active : List String) (off : Bool)
          → ((is_nil queue || off) && is_nil active) ≡ true
          → (active ≡ []) × ((queue ≡ []) ⊎ (off ≡ true))
      ended [] [] off h = (refl, inl refl)
      ended (q ∷ qs) [] true h = (refl, inr refl)
      ended (q ∷ qs) [] false h = cc
      ended [] (x ∷ xs) off h = cc
      ended (q ∷ qs) (x ∷ xs) true h = cc
      ended (q ∷ qs) (x ∷ xs) false h = cc

  stop-Accounted : (job : BatchReadJob) → Sound job → Sound (stop job)
  stop-Accounted job a = record {
    limit = a.limit;
    listed = a.listed;
    window = a.window;
    flying = a.flying;
    counted = a.counted;
    outcomes = a.outcomes;
    breakdown = a.breakdown;
    each = a.each;
    kept = λ h. cc;
    over = λ h. ((a.over h).0, inr refl);
  }

  launch-Accounted : (job : BatchReadJob) → Sound job → Sound (launch job)
  unfolding launch
  launch-Accounted job a = by_slots job.slots refl
    where
      by_queue :
          (left : ℕ) (queue : List String)
          → suc left ≤ job.slots
          → job.queue ≡ queue
          → Sound (launch_one left queue job)
      by_queue left [] le e = slots-Accounted 0 job (omega arith) a
      by_queue left (m ∷ ms) le e =
          if-holds Sound job.stopped _ _ (λ _. slots-Accounted 0 job (omega arith) a)
            (λ on. record {
              limit = a.limit;
              listed = a.listed;
              window = omega (arith, a.window, le);
              flying = omega (arith, a.flying, length-append job.active (m ∷ []));
              counted = a.counted;
              outcomes = a.outcomes;
              breakdown = a.breakdown;
              each =
                  λ n. omega (arith, a.each n, ap (count n) e, count-append n job.active (m ∷ []));
              kept = a.kept;
              over = λ h. elim (a.over h).1 [ inl none_left ↦ cc | inr off ↦ cc ];
            })

      by_slots :
          (n : ℕ)
          → job.slots ≡ n
          → Sound (elim n [ zero ↦ job | suc left ↦ launch_one left job.queue job ])
      by_slots zero e = a
      by_slots (suc left) e = by_queue left job.queue (omega (arith, e)) refl

  pub run_event-Accounted :
      (e : JobEvent) (job : BatchReadJob) → Sound job → Sound (run_event e job)
  unfolding run_event
  run_event-Accounted measures job a = measure-Accounted job a
  run_event-Accounted launches job a = launch-Accounted job a
  run_event-Accounted finishes job a = finish-Accounted job a
  run_event-Accounted stops job a = stop-Accounted job a
  run_event-Accounted (polls k frames) job a = poll-Accounted k frames job a
  run_event-Accounted (fails k) job a = fail-Accounted k job a
  run_event-Accounted (expires k) job a = expire_worker-Accounted k job a

-- In every reachable state no more reads are in flight than `max_concurrent`; the rows, the
-- successes and the failures add up, `deny_breakdown` to the failures; and each meter of the job
-- stands as often in the rows, the running workers, those that a stop ended and the queue together
-- as in the list it was made with.
pub Reachable-Accounted :
    (most : ℕ) (mode : Mode) (meters : List String) (job : BatchReadJob)
    → Reachable most mode meters job
    → Accounted most meters job
Reachable-Accounted most mode meters _ made = new_job-Accounted most mode meters
Reachable-Accounted most mode meters _ (ran e job r) =
    run_event-Accounted most meters e job (Reachable-Accounted most mode meters job r)

-- When a job that was never stopped has finished, each of its meters has its rows: one for every
-- time it stands in the list.
pub finished-rows :
    (most : ℕ) (mode : Mode) (meters : List String) (job : BatchReadJob)
    → Reachable most mode meters job
    → job.finished ≡ true
    → job.stopped ≡ false
    → (m : String) → count_rows m job.rows ≡ count m meters
finished-rows most mode meters job r over on m =
    let a = Reachable-Accounted most mode meters job r in
    let (idle, ended) = a.over over in
    let drained : job.queue ≡ [] = elim ended [ inl e ↦ e | inr off ↦ cc ] in
    omega (arith, a.each m, ap (count m) idle, ap (count m) drained, ap (count m) (a.kept on))
