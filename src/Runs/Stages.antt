-- ===== src/Runs/Stages.antt =====
-- `_run_steps`: the five stages of a run, with the looks at the cancel event between them.
use zzt_self.Base.{
  ℕ, Bool, false, ◌&&◌, Option, none, some, List, [], ◌∷◌, ◌++◌, if◌then◌else◌, length, text_or,
}
use Prim.Native.String.{String}
use zzt_self.Flow.Steps.{Event, Step, FlowCompare}
use zzt_self.Flow.Compare.{compare_flow}
use zzt_self.Feedback.{build_feedback, default_rules, verdict_passes}
use zzt_self.Leases.{DeviceSpec, Leases, granted, conflict, key_of, acquire, release}
use zzt_self.Runs.Outcome.{
  RunRequest, Simcon, no_payload, summary, Ending, reported, run_cancelled, port_error, other_error,
  stimulus_failed, run_verdict, has_summary,
}

pub data Stage : Type 0 where
  flash monitor stimulus compare feedback : Stage

pub data StepStatus : Type 0 where
  ok error skipped : StepStatus

-- The request, the scenario's expected flow, and what the two ports do when they are called, where
-- `none` is a `PortError`. `assembled` says whether the code behind the feedback stage, which puts
-- assertions, evidence and artifacts together, gets to its end without an exception.
pub record Plan : Type 0 where
  pub run_id : String
  pub request : RunRequest
  pub skip_flash : Bool
  pub skip_compare : Bool
  pub resource_id : String
  pub expected_flow : List Step
  pub scan : Option (List Event × Bool)
  pub execute : Option Simcon
  pub listener_frames : ℕ
  pub assembled : Bool

-- `run.steps`, the leases of the run's manager, and the end.
pub record Trace : Type 0 where
  pub steps : List (Stage × StepStatus)
  pub leases : Leases
  pub ending : Ending

abbrev pub serial_port : Plan → DeviceSpec
serial_port plan = record {
  resource_type = "serial_port";
  resource_id = text_or plan.resource_id "serial/COM19";
  shared = false;
}

abbrev pub skip_or : Bool → StepStatus → StepStatus
skip_or skip status = if skip then skipped else status

-- The comparison's step, and the feedback's.
abbrev pub compare_status : Option FlowCompare → StepStatus
compare_status none = skipped
compare_status (some flow) = if verdict_passes flow.verdict then ok else error

abbrev pub summary_fails : Simcon → Bool
summary_fails s = has_summary s && stimulus_failed s

abbrev pub feedback_status : Option FlowCompare → Simcon → Bool → StepStatus
feedback_status flow simcon drift =
    elim (build_feedback default_rules flow (summary_fails simcon) drift) [
      | [] ↦ ok
      | s ∷ ss ↦ error
    ]

abbrev pub stimulus_status : Simcon → StepStatus
stimulus_status simcon = elim simcon [
  | no_payload ↦ skipped
  | summary passes ↦ if passes then ok else error
  | _ ↦ error
]

-- The first stages are done and the leases are free; `cancelled` says whether the event is set at
-- each look, counted from 0.
unfoldable pub last_stages :
    (ℕ → Bool) → Plan → List (Stage × StepStatus) → Leases → List Event → Bool → Simcon → Trace
last_stages cancelled plan steps leases events drift simcon =
    let flow = if plan.skip_compare then none else some (compare_flow plan.expected_flow events) in
    let compared = steps ++ ((compare, compare_status flow) ∷ []) in
    let done = compared ++ ((feedback, feedback_status flow simcon drift) ∷ []) in
    let verdict = run_verdict plan.request (length events) simcon plan.listener_frames flow in
    if cancelled 3
    then record { steps = steps; leases = leases; ending = run_cancelled }
    else if cancelled 4
    then record { steps = compared; leases = leases; ending = run_cancelled }
    else if plan.assembled
    then record { steps = done; leases = leases; ending = reported verdict }
    else record { steps = done; leases = leases; ending = other_error }

-- The stimulus, under a lease that `finally` gives back; a conflict is no `PortError`.
unfoldable pub stimulus_stage :
    (ℕ → Bool) → Plan → List (Stage × StepStatus) → Leases → List Event → Bool → Trace
unfolding last_stages
stimulus_stage cancelled plan steps leases events drift =
    let spec = serial_port plan in
    let (answer, held) = acquire spec plan.run_id leases in
    let free = release (key_of spec) plan.run_id held in
    if plan.request.skip_stimulus
    then last_stages cancelled plan (steps ++ ((stimulus, skipped) ∷ [])) leases events drift
        no_payload
    else elim answer [
      | conflict holder ↦ record { steps = steps; leases = held; ending = other_error }
      | granted lease ↦ elim plan.execute [
        | none ↦ record { steps = steps; leases = free; ending = port_error }
        | some simcon ↦
            last_stages cancelled plan (steps ++ ((stimulus, stimulus_status simcon) ∷ [])) free
              events drift simcon
      ]
    ]

unfoldable pub run_steps : (ℕ → Bool) → Plan → Trace
unfolding stimulus_stage
run_steps cancelled plan =
    let flashed = (flash, skip_or plan.skip_flash ok) ∷ [] in
    let stop : List (Stage × StepStatus) → Ending → Trace =
      λ steps e. record { steps = steps; leases = []; ending = e } in
    if cancelled 0
    then stop [] run_cancelled
    else if cancelled 1
    then stop flashed run_cancelled
    else if plan.request.skip_monitor
    then (let monitored = flashed ++ ((monitor, skipped) ∷ []) in
        if cancelled 2
        then stop monitored run_cancelled
        else stimulus_stage cancelled plan monitored [] [] false)
    else elim plan.scan [
      | none ↦ stop flashed port_error
      | some (events, drift) ↦
          let monitored = flashed ++ ((monitor, ok) ∷ []) in
          if cancelled 2
          then stop monitored run_cancelled
          else stimulus_stage cancelled plan monitored [] events drift
    ]
