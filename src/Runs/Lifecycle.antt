-- ===== src/Runs/Lifecycle.antt =====
-- A submitted run and a call of `cancel`, as two threads that take turns. A turn is one statement
-- that reads or writes what both share: the run's status, its row in the store, the cancel event
-- and the tables `_cancel_events` and `_active_runs`, from which a run is dropped at once.
use zzt_self.Base.{◌≡◌, Bool, true, false, if◌then◌else◌}
use zzt_self.Runs.Outcome.{
  RunStatus, running, cancelling, cancelled, Ending, reported, run_cancelled, submit_status,
}

-- Where the thread of `submit` is: in `_run_steps`, before the second look at the event, before the
-- last write to the store, before it leaves the tables, and after.
pub data Target : Type 0 where
  in_steps judged closing written gone : Target

-- Where the call of `cancel` is: outside, after it found the run, after `event.set()`, and after it
-- set the status.
pub data Caller : Type 0 where
  outside found signalled marked : Caller

pub record World : Type 0 where
  pub status : RunStatus
  pub stored : RunStatus
  pub event_set : Bool
  pub active : Bool
  pub target : Target
  pub caller : Caller

-- `submit` up to the start of the thread.
abbrev pub submitted : World
submitted = record {
  status = running;
  stored = running;
  event_set = false;
  active = true;
  target = in_steps;
  caller = outside;
}

-- Behind the steps: a report is judged, and an exception goes to `finally` with its status.
abbrev pub after_steps : Ending → Target
after_steps e = elim e [ reported v ↦ judged | _ ↦ closing ]

abbrev pub end_steps : Ending → World → World
end_steps e w = record w { status = submit_status e; target = after_steps e }

abbrev pub look_again : World → World
look_again w = record w { status = if w.event_set then cancelled else w.status; target = closing }

pub data Turn : World → World → Type 0 where
  -- `_record_step`
  records : (w : World) → w.target ≡ in_steps → Turn w (record w { stored = w.status })
  -- `RunCancelled` is raised only where the event is set.
  ends :
      (e : Ending) (w : World)
      → w.target ≡ in_steps
      → (e ≡ run_cancelled → w.event_set ≡ true)
      → Turn w (end_steps e w)
  looks : (w : World) → w.target ≡ judged → Turn w (look_again w)
  writes :
      (w : World) → w.target ≡ closing → Turn w (record w { stored = w.status; target = written })
  leaves : (w : World) → w.target ≡ written → Turn w (record w { active = false; target = gone })
  finds : (w : World) → w.caller ≡ outside → w.active ≡ true → Turn w (record w { caller = found })
  signals :
      (w : World) → w.caller ≡ found → Turn w (record w { event_set = true; caller = signalled })
  marks :
      (w : World)
      → w.caller ≡ signalled
      → Turn w (record w { status = cancelling; caller = marked })
  stores :
      (w : World) → w.caller ≡ marked → Turn w (record w { stored = w.status; caller = outside })

pub data Reachable : World → Type 0 where
  start : Reachable submitted
  turn : (v w : World) → Reachable v → Turn v w → Reachable w
