-- ===== src/Tests/RunTests.antt =====
-- Runs (apps/workbench/orchestration/runner.py).
use zzt_self.Base.{ℕ, ◌≡◌, refl, Bool, true, false, none, some, List, [], ◌∷◌, leb, digits}
use zzt_self.Flow.Steps.{Step, pass}
use zzt_self.Flow.Compare.{compare_flow}
use zzt_self.Runs.Outcome.{
  failed, error, is_terminal, RunRequest, no_payload, verdict_pass, verdict_fail, reported,
  other_error, execute_status, submit_status, run_verdict,
}
use zzt_self.Runs.Lifecycle.{
  World, gone, written, submitted, end_steps, look_again, ends, looks, writes, leaves, Reachable,
  start, turn,
}
use zzt_self.Runs.Cancel.{stored-Reachable}
use zzt_self.Base.Dict.{pair_key}
use zzt_self.Feedback.{build_feedback}
use zzt_self.Leases.{acquire}
use zzt_self.Runs.Outcome.{summary, run_cancelled}
use zzt_self.Runs.Stages
use zzt_self.Runs.Stages.{Plan, run_steps}
use zzt_self.Runs.Order.{InOrder, run_steps-InOrder}

abbrev scan_only : RunRequest
scan_only = record { skip_monitor = false; skip_stimulus = true; listener_index = false }

-- One optional step that is not seen.
abbrev optional_step : List Step
optional_step =
    record {
      step = "beacon";
      event_type = "beacon";
      negate = false;
      within_ms = 60000;
      optional = true;
    }
    ∷ []

comparison_passes : (compare_flow optional_step []).verdict ≡ pass
unfolding compare_flow digits
comparison_passes = refl

-- The comparison passes, and the run fails.
run_fails :
    run_verdict scan_only 4 no_payload 0 (some (compare_flow optional_step [])) ≡ verdict_fail
unfolding compare_flow digits run_verdict
run_fails = refl

-- The same exception is a failure in `execute` and an error in `submit`.
same_exception : (execute_status other_error ≡ failed) × (submit_status other_error ≡ error)
unfolding execute_status submit_status
same_exception = (refl, refl)

abbrev reported_pass : World
reported_pass = end_steps (reported verdict_pass) submitted

abbrev looked : World
looked = look_again reported_pass

abbrev stored : World
stored = record looked { stored = looked.status; target = written }

abbrev over : World
over = record stored { active = false; target = gone }

over-Reachable : Reachable over
unfolding submit_status
over-Reachable =
    turn stored over
      (turn looked stored
        (turn reported_pass looked
          (turn submitted reported_pass start
            (ends (reported verdict_pass) submitted refl (λ e. cc)))
          (looks reported_pass refl))
        (writes looked refl))
      (leaves stored refl)

stored-Reachable_example : is_terminal over.stored ≡ true
stored-Reachable_example = stored-Reachable over over-Reachable refl refl

abbrev plan : Plan
plan = record {
  run_id = "run-1";
  request = record { skip_monitor = false; skip_stimulus = false; listener_index = false };
  skip_flash = true;
  skip_compare = false;
  resource_id = "";
  expected_flow = optional_step;
  scan = some (record { kind = some "beacon"; label = none; time = 5 } ∷ [], false);
  execute = some (summary true);
  listener_frames = 0;
  assembled = true;
}

-- Cancelled at a look and at every later one.
abbrev cancelled_from : ℕ → ℕ → Bool
cancelled_from n k = leb n k

whole_run :
    (run_steps (cancelled_from 5) plan).steps
    ≡ (Stages.flash, Stages.skipped)
      ∷ (Stages.monitor, Stages.ok)
      ∷ (Stages.stimulus, Stages.ok)
      ∷ (Stages.compare, Stages.ok)
      ∷ (Stages.feedback, Stages.ok)
      ∷ []
unfolding run_steps acquire pair_key compare_flow build_feedback digits
whole_run = refl

cancelled_run : run_steps (cancelled_from 2) plan ≡ record {
  steps = (Stages.flash, Stages.skipped) ∷ (Stages.monitor, Stages.ok) ∷ [];
  leases = [];
  ending = run_cancelled;
}
unfolding run_steps
cancelled_run = refl

run_steps-InOrder_example : InOrder true (run_steps (cancelled_from 3) plan)
run_steps-InOrder_example = run_steps-InOrder (cancelled_from 3) plan
