-- ===== src/Tests/FlowTests.antt =====
-- The comparison of flows (apps/workbench/orchestration/compare.py).
use zzt_self.Base.{ℕ, ◌≡◌, refl, ◌↔◌, true, false, none, some, List, [], ◌∷◌, digits}
use Prim.Native.String.{String}
use zzt_self.Flow.Steps
use zzt_self.Flow.Steps.{
  Event, Step, FlowCompare, hit, missing, timeout, negate_triggered, pass, fail, sort_events,
  insert_event, find_match, find_negated, check_step, record_outcome, flow_loop,
}
use zzt_self.Flow.Compare.{compare_flow}
use zzt_self.Flow.Greedy.{Embeds, missing-Embeds}

abbrev seen : String → ℕ → Event
seen kind time = record { kind = some kind; label = none; time = time }

abbrev expect : String → Step
expect ty = record {
  step = "";
  event_type = ty;
  negate = false;
  within_ms = 60000;
  optional = false;
}

abbrev forbid : String → Step
forbid ty = record {
  step = "";
  event_type = ty;
  negate = true;
  within_ms = 60000;
  optional = false;
}

-- Joined, then reported, and no reset; the events come unsorted.
abbrev joined_reported : List Step
joined_reported = expect "join" ∷ expect "report" ∷ forbid "reset" ∷ []

abbrev seen_twice : List Event
seen_twice = seen "report" 90000 ∷ seen "join" 1000 ∷ seen "reset" 500 ∷ []

late_report : compare_flow joined_reported seen_twice ≡ record {
  steps =
      record { step = "join"; status = hit; actual_time = some 1000 }
      ∷ record { step = "report"; status = timeout; actual_time = some 90000 }
      ∷ record { step = "reset"; status = Steps.negate_ok; actual_time = none }
      ∷ [];
  missing = [];
  timeouts = "report" ∷ [];
  out_of_order = [];
  negated = [];
  verdict = fail;
}
unfolding compare_flow digits
late_report = refl

-- A flow that joins twice is seen exactly as expected, every step is a hit, and it fails: the
-- second join is looked up from the first event again.
abbrev join_again : List Step
join_again = expect "join" ∷ expect "leave" ∷ expect "join" ∷ []

abbrev joined_again : List Event
joined_again = seen "join" 0 ∷ seen "leave" 1000 ∷ seen "join" 2000 ∷ []

repeated_step_fails : compare_flow join_again joined_again ≡ record {
  steps =
      record { step = "join"; status = hit; actual_time = some 0 }
      ∷ record { step = "leave"; status = hit; actual_time = some 1000 }
      ∷ record { step = "join"; status = hit; actual_time = some 2000 }
      ∷ [];
  missing = [];
  timeouts = [];
  out_of_order = "join" ∷ [];
  negated = [];
  verdict = fail;
}
unfolding compare_flow digits
repeated_step_fails = refl

missing-Embeds_example :
    ((compare_flow join_again joined_again).missing ≡ [])
    ↔ Embeds ("join" ∷ "leave" ∷ "join" ∷ []) (sort_events joined_again)
missing-Embeds_example = missing-Embeds join_again joined_again (refl, (refl, (refl, tt)))
