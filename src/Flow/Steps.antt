-- ===== src/Flow/Steps.antt =====
-- The loop of `compare_flow` over the expected steps, and what it works on. An event has the time that `_ev_time` reads from it, in milliseconds.
use zzt_self.Base.{
  ℕ, suc, ◌+◌, ◌-◌, Bool, false, not, ◌&&◌, ◌||◌, Option, none, some, List, [], ◌∷◌, ◌++◌, ltb, leb,
  if◌then◌else◌, drop, text_or, is_text, numbered,
}
use Prim.Native.String.{String}

pub record Event : Type 0 where
  pub kind : Option String
  pub label : Option String
  pub time : ℕ

-- One dictionary of `expected_flow`; a missing text is empty.
pub record Step : Type 0 where
  pub step : String
  pub event_type : String
  pub negate : Bool
  pub within_ms : ℕ
  pub optional : Bool

pub data Status : Type 0 where
  hit missing timeout negate_triggered negate_ok : Status

-- One dictionary of `FlowCompare.steps`, with the time of the event it names.
pub record Outcome : Type 0 where
  pub step : String
  pub status : Status
  pub actual_time : Option ℕ

pub data Verdict : Type 0 where
  pass fail : Verdict

pub record FlowCompare : Type 0 where
  pub steps : List Outcome
  pub missing : List String
  pub timeouts : List String
  pub out_of_order : List String
  pub negated : List String
  pub verdict : Verdict

abbrev pub new_flow : FlowCompare
new_flow = record {
  steps = [];
  missing = [];
  timeouts = [];
  out_of_order = [];
  negated = [];
  verdict = pass;
}

-- `_matches`
abbrev pub matches : Event → String → Bool
matches ev ty = is_text ev.kind ty || is_text ev.label ty

-- `sorted(actual_events, key=_ev_time)`, which keeps the order of equal times.
unfoldable pub insert_event : Event → List Event → List Event
insert_event e [] = e ∷ []
insert_event e (x ∷ xs) = if leb e.time x.time then e ∷ (x ∷ xs) else x ∷ insert_event e xs

unfoldable pub sort_events : List Event → List Event
unfolding insert_event
sort_events [] = []
sort_events (e ∷ es) = insert_event e (sort_events es)

-- The first event that matches, and its index.
unfoldable pub find_match : String → List Event → Option (ℕ × Event)
find_match ty [] = none
find_match ty (e ∷ es) =
    if matches e ty
    then some (0, e)
    else elim (find_match ty es) [ none ↦ none | some (i, f) ↦ some (suc i, f) ]

-- `last_time is not None and ev_t < last_time`
abbrev pub before : Option ℕ → ℕ → Bool
before none t = false
before (some last) t = ltb t last

-- The scan of a negated step.
unfoldable pub find_negated : Option ℕ → String → List Event → Option Event
find_negated last ty [] = none
find_negated last ty (e ∷ es) =
    if not (before last e.time) && matches e ty then some e else find_negated last ty es

-- `last_time is not None and (t_now - last_time) * 1000 > within_ms`
abbrev pub late : Option ℕ → ℕ → ℕ → Bool
late none t within = false
late (some last) t within = ltb within (t - last)

abbrev pub step_name : ℕ → Step → String
step_name idx s = text_or s.step (text_or s.event_type (numbered "step" idx))

-- `cursor` and `last_time`.
pub record Cursor : Type 0 where
  pub cursor : ℕ
  pub last_time : Option ℕ

-- What one round of the loop finds, and where it leaves the loop's variables.
unfoldable pub check_step : List Event → ℕ → Step → Cursor → Outcome × Cursor
unfolding find_match find_negated
check_step events idx s at =
    let name = step_name idx s in
    if s.negate
    then elim (find_negated at.last_time s.event_type events) [
      | some ev ↦
          (record { step = name; status = negate_triggered; actual_time = some ev.time }, at)
      | none ↦ (record { step = name; status = negate_ok; actual_time = none }, at)
    ]
    else elim (find_match s.event_type (drop at.cursor events)) [
      | none ↦ (record { step = name; status = missing; actual_time = none }, at)
      | some (i, ev) ↦ (
        record {
          step = name;
          status = if late at.last_time ev.time s.within_ms then timeout else hit;
          actual_time = some ev.time;
        },
        record { cursor = suc (at.cursor + i); last_time = some ev.time },
      )
    ]

-- The appends to the lists, and the verdict, of one round.
unfoldable pub record_outcome : Bool → Outcome → FlowCompare → FlowCompare
record_outcome optional r flow =
    let steps = flow.steps ++ (r ∷ []) in
    let verdict = if optional then flow.verdict else fail in
    elim r.status [
      | hit ↦ record flow { steps = steps }
      | negate_ok ↦ record flow { steps = steps }
      | negate_triggered ↦ record flow {
        steps = steps;
        negated = flow.negated ++ (r.step ∷ []);
        verdict = fail;
      }
      | missing ↦ record flow {
        steps = steps;
        missing = flow.missing ++ (r.step ∷ []);
        verdict = verdict;
      }
      | timeout ↦ record flow {
        steps = steps;
        timeouts = flow.timeouts ++ (r.step ∷ []);
        verdict = verdict;
      }
    ]

unfoldable pub flow_loop : List Event → ℕ → List Step → Cursor → FlowCompare → FlowCompare
unfolding check_step record_outcome
flow_loop events idx [] at flow = flow
flow_loop events idx (s ∷ ss) at flow =
    let (r, at') = check_step events idx s at in
    flow_loop events (suc idx) ss at' (record_outcome s.optional r flow)
