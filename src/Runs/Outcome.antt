-- ===== src/Runs/Outcome.antt =====
-- How `_run_steps` judges a run, and the status that `execute` and `submit` make of it.
use zzt_self.Base.{
  ℕ, Bool, true, false, not, ◌&&◌, Option, none, some, List, [], ◌∷◌, ◌++◌, ◌==◌, if◌then◌else◌,
}
use zzt_self.Flow.Steps.{FlowCompare}
use zzt_self.Flow.Compare.{is_empty}

-- `RunStatus` (libs/test_automation/models.py)
pub data RunStatus : Type 0 where
  created queued running cancelling cancelled passed failed inconclusive error : RunStatus

-- `TERMINAL_STATUSES`
abbrev pub is_terminal : RunStatus → Bool
is_terminal s = elim s [
  | cancelled ↦ true
  | passed ↦ true
  | failed ↦ true
  | inconclusive ↦ true
  | error ↦ true
  | _ ↦ false
]

-- The `verdict` of a report's summary.
pub data RunVerdict : Type 0 where
  verdict_pass verdict_fail verdict_inconclusive : RunVerdict

pub data Reason : Type 0 where
  monitor_missing stimulus_missing listener_missing : Reason

-- The switches of a `RunRequest`, and what its `extras` have for the listener.
pub record RunRequest : Type 0 where
  pub skip_monitor : Bool
  pub skip_stimulus : Bool
  pub listener_index : Bool

-- `simcon`: what the stimulus port returned, `None`, an empty dictionary or another, with its summary, if it is not empty, and whether the
-- summary's verdict is "pass".
pub data Simcon : Type 0 where
  no_payload empty_payload no_summary : Simcon
  summary : Bool → Simcon

abbrev pub when_list : Bool → Reason → List Reason
when_list true r = r ∷ []
when_list false r = []

abbrev pub has_summary : Simcon → Bool
has_summary (summary passes) = true
has_summary no_payload = false
has_summary empty_payload = false
has_summary no_summary = false

-- `_verdict_inconclusive_reasons`, from the numbers of events and of listener frames.
unfoldable pub inconclusive_reasons : RunRequest → ℕ → Simcon → ℕ → List Reason
inconclusive_reasons q events simcon frames =
    when_list (not q.skip_monitor && events == 0) monitor_missing
    ++ (when_list (not q.skip_stimulus && not (has_summary simcon)) stimulus_missing
        ++ when_list (q.listener_index && frames == 0) listener_missing)

-- `simcon and (simcon.get("summary") or {}).get("verdict") != "pass"`
abbrev pub stimulus_failed : Simcon → Bool
stimulus_failed no_payload = false
stimulus_failed empty_payload = false
stimulus_failed no_summary = true
stimulus_failed (summary passes) = not passes

-- `any(compare_data.get(key) for key in ("missing", "timeouts", "negated", "out_of_order"))`
abbrev pub any_listed : Option FlowCompare → Bool
any_listed none = false
any_listed (some flow) = not (
    is_empty flow.missing
    && is_empty flow.timeouts
    && is_empty flow.negated
    && is_empty flow.out_of_order)

unfoldable pub run_verdict : RunRequest → ℕ → Simcon → ℕ → Option FlowCompare → RunVerdict
unfolding inconclusive_reasons
run_verdict q events simcon frames compare =
    if stimulus_failed simcon
    then verdict_fail
    else elim (inconclusive_reasons q events simcon frames) [
      | r ∷ rs ↦ verdict_inconclusive
      | [] ↦ if any_listed compare then verdict_fail else verdict_pass
    ]

-- How a call of `_run_steps` ends.
pub data Ending : Type 0 where
  reported : RunVerdict → Ending
  run_cancelled port_error other_error : Ending

abbrev pub status_of_verdict : RunVerdict → RunStatus
status_of_verdict verdict_pass = passed
status_of_verdict verdict_inconclusive = inconclusive
status_of_verdict verdict_fail = failed

-- The status after `execute`.
unfoldable pub execute_status : Ending → RunStatus
execute_status (reported v) = status_of_verdict v
execute_status run_cancelled = cancelled
execute_status port_error = failed
execute_status other_error = failed

-- The status that the thread of `submit` sets, before it looks at the cancel event again.
unfoldable pub submit_status : Ending → RunStatus
submit_status (reported v) = status_of_verdict v
submit_status run_cancelled = cancelled
submit_status port_error = failed
submit_status other_error = error
