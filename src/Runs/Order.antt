-- ===== src/Runs/Order.antt =====
-- The stages that a run records, and its lease.
use zzt_self.Base.{
  ℕ, ◌≡◌, refl, sym, ap, ◌∙◌, Bool, true, false, ◌&&◌, Option, none, some, List, [], ◌∷◌, map,
  arith, ◌==◌, if◌then◌else◌, length, take,
}
use Prim.Native.String.{String}
use mathlib.Core.Path.{subst}
use zzt_self.Flow.Steps.{Event}
use zzt_self.Base.Dict.{pair_key}
use zzt_self.Leases.{
  DeviceSpec, Leases, Lease, Answer, granted, conflict, key_of, lease_for, leases_at, ResourceKey,
  acquire, release,
}
use zzt_self.Leases.Effects.{release-acquire}
use zzt_self.Runs.Outcome.{
  Simcon, no_payload, Ending, reported, run_cancelled, port_error, other_error,
}
use zzt_self.Runs.Stages.{
  Stage, flash, monitor, stimulus, compare, feedback, StepStatus, Plan, Trace, serial_port,
  last_stages, stimulus_stage, run_steps, skip_or, ok, skipped, stimulus_status,
}

abbrev pub all_stages : List Stage
all_stages = flash ∷ monitor ∷ stimulus ∷ compare ∷ feedback ∷ []

abbrev pub stages : Trace → List Stage
stages t = map (λ s. s.0) t.steps

abbrev pub is_reported : Ending → Bool
is_reported (reported v) = true
is_reported run_cancelled = false
is_reported port_error = false
is_reported other_error = false

-- The stages in order, and a report exactly where all of them are recorded and what follows them
-- succeeds.
abbrev pub InOrder : Bool → Trace → Type 0
InOrder assembled t =
    (stages t ≡ take (length t.steps) all_stages)
    × (is_reported t.ending ≡ (length t.steps == 5 && assembled))

abbrev stopped : List (Stage × StepStatus) → Leases → Ending → Trace
stopped steps leases e = record { steps = steps; leases = leases; ending = e }

if-keeps : (P : Trace → Type 0) (b : Bool) (x y : Trace) → P x → P y → P (if b then x else y)
if-keeps P true x y h k = h
if-keeps P false x y h k = k

option-keeps :
    {A : Type 0} (P : Trace → Type 0) (o : Option A) (x : Trace) (f : A → Trace)
    → P x
    → ((a : A) → P (f a))
    → P (elim o [ none ↦ x | some a ↦ f a ])
option-keeps P none x f h k = h
option-keeps P (some a) x f h k = k a

answer-keeps :
    (P : Trace → Type 0) (r : Answer) (x : Lease → Trace) (y : String → Trace)
    → ((l : Lease) → P (x l))
    → ((s : String) → P (y s))
    → P (elim r [ granted l ↦ x l | conflict s ↦ y s ])
answer-keeps P (granted l) x y h k = h l
answer-keeps P (conflict s) x y h k = k s

module _ (cancelled : ℕ → Bool) (plan : Plan) (P : Trace → Type 0) where
  -- What holds at every way out holds of the run.
  run_steps-keeps :
      ((steps : List (Stage × StepStatus))
        → InOrder plan.assembled (stopped steps [] run_cancelled)
        → P (stopped steps [] run_cancelled))
      → ((a : StepStatus) → P (stopped ((flash, a) ∷ []) [] port_error))
      → ((a b : StepStatus) (events : List Event) (drift : Bool)
          → P (stimulus_stage cancelled plan ((flash, a) ∷ (monitor, b) ∷ []) [] events drift))
      → P (run_steps cancelled plan)
  unfolding run_steps
  run_steps-keeps stop broken later =
      let a = skip_or plan.skip_flash ok in
      let monitored : (b : StepStatus) (events : List Event) (drift : Bool)
          → P (
              if cancelled 2
              then stopped ((flash, a) ∷ (monitor, b) ∷ []) [] run_cancelled
              else stimulus_stage cancelled plan ((flash, a) ∷ (monitor, b) ∷ []) [] events drift) =
        λ b events drift.
          if-keeps P (cancelled 2) _ _ (stop ((flash, a) ∷ (monitor, b) ∷ []) (refl, refl))
            (later a b events drift) in
      if-keeps P (cancelled 0) _ _ (stop [] (refl, refl)) (
        if-keeps P (cancelled 1) _ _ (stop ((flash, a) ∷ []) (refl, refl)) (
          if-keeps P plan.request.skip_monitor _ _ (monitored skipped [] false)
            (option-keeps P plan.scan _ _ (broken a) (λ x. monitored ok x.0 x.1))))

granted-keeps :
    (P : Trace → Type 0) (r : Answer) (l : Lease) (x : Lease → Trace) (y : String → Trace)
    → r ≡ granted l
    → P (x l)
    → P (elim r [ granted m ↦ x m | conflict s ↦ y s ])
granted-keeps P r l x y e h =
    subst (λ q. P (elim q [ granted m ↦ x m | conflict s ↦ y s ])) (sym e) h

acquire-new :
    (spec : DeviceSpec) (holder : String)
    → (acquire spec holder []).0 ≡ granted (lease_for spec holder)
unfolding acquire
acquire-new spec holder = refl

-- No lease is left.
abbrev pub Free : Trace → Type 0
Free t = (j : ResourceKey) → leases_at j t.leases ≡ []

module _ (cancelled : ℕ → Bool) (plan : Plan) where
  last_stages-InOrder :
      (a b c : StepStatus) (leases : Leases) (events : List Event) (drift : Bool) (simcon : Simcon)
      → InOrder plan.assembled (
          last_stages cancelled plan
            ((flash, a) ∷ (monitor, b) ∷ (stimulus, c) ∷ [])
            leases
            events
            drift
            simcon)
  unfolding last_stages
  last_stages-InOrder a b c leases events drift simcon = ground arith

  stimulus_stage-InOrder :
      (a b : StepStatus) (leases : Leases) (events : List Event) (drift : Bool)
      → InOrder plan.assembled
          (stimulus_stage cancelled plan ((flash, a) ∷ (monitor, b) ∷ []) leases events drift)
  unfolding stimulus_stage
  stimulus_stage-InOrder a b leases events drift =
      let taken : Answer × Leases = acquire (serial_port plan) plan.run_id leases in
      let free : Leases = release (key_of (serial_port plan)) plan.run_id taken.1 in
      let two : List (Stage × StepStatus) = (flash, a) ∷ (monitor, b) ∷ [] in
      if-keeps (InOrder plan.assembled) plan.request.skip_stimulus _ _
        (last_stages-InOrder a b skipped leases events drift no_payload)
        (answer-keeps (InOrder plan.assembled) taken.0 _ _
          (λ l.
            option-keeps (InOrder plan.assembled) plan.execute _ _ (refl, refl)
              (λ x. last_stages-InOrder a b (stimulus_status x) free events drift x))
          (λ holder. (refl, refl)))

  -- Whenever the run is cancelled and whatever the ports do, the stages recorded are the first of
  -- the five, in order, and the run comes to a report exactly if they are all five and the code that
  -- follows the stages does not raise.
  pub run_steps-InOrder : InOrder plan.assembled (run_steps cancelled plan)
  unfolding run_steps
  run_steps-InOrder =
      run_steps-keeps cancelled plan (InOrder plan.assembled) (λ steps h. h) (λ a. (refl, refl))
        (λ a b events drift. stimulus_stage-InOrder a b [] events drift)

  last_stages-leases :
      (steps : List (Stage × StepStatus)) (leases : Leases) (events : List Event) (drift : Bool)
      (simcon : Simcon)
      → (last_stages cancelled plan steps leases events drift simcon).leases ≡ leases
  unfolding last_stages
  last_stages-leases steps leases events drift simcon = ground arith

  last_stages-Free :
      (steps : List (Stage × StepStatus)) (leases : Leases) (events : List Event) (drift : Bool)
      (simcon : Simcon)
      → ((j : ResourceKey) → leases_at j leases ≡ [])
      → Free (last_stages cancelled plan steps leases events drift simcon)
  last_stages-Free steps leases events drift simcon h j =
      ap (leases_at j) (last_stages-leases steps leases events drift simcon) ∙ h j

  -- The lease on the port is given back on every way out.
  given_back :
      (j : ResourceKey)
      → leases_at j (
          release
            (key_of (serial_port plan))
            plan.run_id
            (acquire (serial_port plan) plan.run_id []).1)
        ≡ []
  unfolding leases_at
  given_back j = release-acquire (serial_port plan) plan.run_id [] j tt

  stimulus_stage-Free :
      (steps : List (Stage × StepStatus)) (events : List Event) (drift : Bool)
      → Free (stimulus_stage cancelled plan steps [] events drift)
  unfolding stimulus_stage leases_at
  stimulus_stage-Free steps events drift =
      if-keeps Free plan.request.skip_stimulus _ _
        (last_stages-Free _ [] events drift no_payload (λ j. refl))
        (granted-keeps Free (acquire (serial_port plan) plan.run_id []).0
          (lease_for (serial_port plan) plan.run_id) _ _
          (acquire-new (serial_port plan) plan.run_id)
          (option-keeps Free plan.execute _ _ given_back
            (λ x. last_stages-Free _ _ events drift x given_back)))

  run_steps-Free : Free (run_steps cancelled plan)
  unfolding leases_at
  run_steps-Free =
      run_steps-keeps cancelled plan Free (λ steps h j. refl) (λ a j. refl)
        (λ a b events drift. stimulus_stage-Free _ events drift)

  -- However a run ends, its manager holds no lease afterwards.
  pub leases_at-run_steps : (j : ResourceKey) → leases_at j (run_steps cancelled plan).leases ≡ []
  leases_at-run_steps j = run_steps-Free j
