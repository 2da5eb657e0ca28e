-- ===== src/Sequence.antt =====
-- `SequenceMachine` and `SequenceTracker`, libs/loghooks/sequence.py: log lines put together to one event.
-- The regular expressions are a parameter, as is the parsing of time stamps: a step is what
-- `_try_match_step` answers for a line, and a line has its time as text and in milliseconds.
pub mod Machines
pub mod Isolation
pub mod Progress
use zzt_self.Base.{
  ℕ, zero, suc, ◌+◌, ◌-◌, ◌*◌, ◌/◌, ◌%◌, ◌^◌, ◌≤◌, ◌<◌, min, max, ◌≡◌, refl, sym, ap, ◌∙◌, ◌≢◌, ◌↔◌,
  ◌⊎◌, inl, inr, Bool, true, false, not, ◌&&◌, ◌||◌, Option, none, some, List, [], ◌∷◌, ◌++◌, map,
  append-nil, append_assoc, arith, ltb, leb, ◌==◌, if◌then◌else◌, ltb→lt, lt→ltb, leb→le, le→leb,
  ==_iff, ==_refl, Bool-cases, Option-cases, take_front, drop_front, &&_true, not-eq-true, Bytes,
  length, get_elem?, take, drop, replicate, All, length-append, take-append-drop,
  take-length-append, drop-length-append, length-take, length-drop, length-replicate, All-append,
  sum, mem, sum-append, when, and_then, when-eq-some, and_then-eq-some, holds_under, holds_under_at,
  get_elem?-lt, take-length, get_elem?-append, drop-length, same, same_refl, drop-drop, take_all,
  same_text, same_text_iff, text_or, is_text, digit, digits, decimal, has_text, join, numbered,
}
use Prim.Native.String.{String}
use zzt_self.Base.Dict.{lookup, insert, erase, text_key}

abbrev pub Captures : Type 0
Captures = List (String × String)

pub record Line : Type 0 where
  pub time : Option String
  pub stamp : Option ℕ
  pub text : String

-- `SequenceDef`, with the presence of `on_complete` and `on_timeout`, and `_bucket_for`. A window that
-- is not positive is 0.
pub record SequenceDef : Type 0 where
  pub steps : List (Line → Option Captures)
  pub window_ms : ℕ
  pub on_complete : Bool
  pub on_timeout : Bool
  pub bucket_for : Line → String

pub data Kind : Type 0 where
  complete timed_out : Kind

-- The texts of a `SequenceEvent` that the rule alone decides are left out.
pub record SequenceEvent : Type 0 where
  pub kind : Kind
  pub time : String
  pub bucket : String
  pub captures : Captures

pub record SequenceMachine : Type 0 where
  pub start_time : String
  pub start_ms : Option ℕ
  pub current_step : ℕ
  pub step_times : List (Option String)
  pub captures : Captures

pub record Tracker : Type 0 where
  pub machines : List (String × SequenceMachine)
  pub events : List SequenceEvent

-- `x or ""`
abbrev pub or_empty : Option String → String
or_empty none = ""
or_empty (some s) = s

-- `xs[i] = x`
abbrev pub set_at {ℓ} : {A : Type ℓ} → ℕ → A → List A → List A
set_at i a [] = []
set_at zero a (x ∷ xs) = a ∷ xs
set_at (suc i) a (x ∷ xs) = x ∷ set_at i a xs

-- `dict.update`
abbrev pub update : Captures → Captures → Captures
update d [] = d
update d ((k, v) ∷ new) = update (insert k v d) new

-- `advance`
abbrev pub advance : ℕ → Line → Captures → SequenceMachine → SequenceMachine
advance i line caps m = record m {
  step_times = set_at i line.time m.step_times;
  captures = update m.captures caps;
  current_step = suc i;
}

unfoldable pub is_expired : SequenceDef → Option ℕ → SequenceMachine → Bool
is_expired seq now m = ltb 0 seq.window_ms && elim now [
  | none ↦ false
  | some t ↦ elim m.start_ms [ none ↦ false | some start ↦ ltb (start + seq.window_ms) t ]
]

-- `next((t for t in reversed(step_times) if t), "")`
unfoldable pub last_time : List (Option String) → String
last_time [] = ""
last_time (t ∷ ts) = let later = last_time ts in text_or later (or_empty t)

unfoldable pub complete_event : SequenceDef → String → SequenceMachine → List SequenceEvent
unfolding last_time
complete_event seq bucket m =
    if seq.on_complete
    then record {
      kind = complete;
      time = last_time m.step_times;
      bucket = bucket;
      captures = m.captures;
    }
      ∷ []
    else []

unfoldable pub timeout_event : SequenceDef → String → SequenceMachine → List SequenceEvent
timeout_event seq bucket m =
    if seq.on_timeout
    then record { kind = timed_out; time = m.start_time; bucket = bucket; captures = m.captures }
      ∷ []
    else []

-- The loop of `_cleanup`: the machines that stay, and the events of those that expired.
unfoldable pub expire :
    SequenceDef → Option ℕ → List (String × SequenceMachine) → List (String × SequenceMachine)
unfolding is_expired
expire seq now [] = []
expire seq now ((b, m) ∷ ms) =
    if is_expired seq now m then expire seq now ms else (b, m) ∷ expire seq now ms

unfoldable pub expiry_events :
    SequenceDef → Option ℕ → List (String × SequenceMachine) → List SequenceEvent
unfolding is_expired timeout_event
expiry_events seq now [] = []
expiry_events seq now ((b, m) ∷ ms) =
    (if is_expired seq now m then timeout_event seq b m else []) ++ expiry_events seq now ms

abbrev pub cleanup : SequenceDef → Option ℕ → Tracker → Tracker
cleanup seq now t = record {
  machines = expire seq now t.machines;
  events = t.events ++ expiry_events seq now t.machines;
}

-- `_current_step_for`
abbrev pub current_step_for : String → List (String × SequenceMachine) → ℕ
current_step_for bucket ms = elim (lookup bucket ms) [ none ↦ 0 | some m ↦ m.current_step ]

-- The loop over the steps, from the index `i`: the first at `current` or later that matches.
unfoldable pub find_step : ℕ → ℕ → List (Line → Option Captures) → Line → Option (ℕ × Captures)
find_step current i [] line = none
find_step current i (step ∷ steps) line =
    let rest = find_step current (suc i) steps line in
    if ltb i current then rest else elim (step line) [ none ↦ rest | some caps ↦ some (i, caps) ]

abbrev pub new_machine : SequenceDef → Line → SequenceMachine
new_machine seq line = record {
  start_time = or_empty line.time;
  start_ms = line.stamp;
  current_step = 0;
  step_times = replicate (length seq.steps) none;
  captures = [];
}

-- `_reset_to`, where the step is beyond the next one.
abbrev pub reset_before :
    ℕ → String → List (String × SequenceMachine) → List (String × SequenceMachine)
reset_before i bucket ms = if ltb (current_step_for bucket ms) i then erase bucket ms else ms

-- The machine of `_get_or_create`, after `_reset_to`.
abbrev pub machine_for :
    SequenceDef → String → ℕ → Line → List (String × SequenceMachine) → SequenceMachine
machine_for seq bucket i line ms =
    if ltb (current_step_for bucket ms) i
    then new_machine seq line
    else elim (lookup bucket ms) [ none ↦ new_machine seq line | some m ↦ m ]

-- The bucket's machine advanced, and its completion.
unfoldable pub take_step : SequenceDef → String → ℕ → Captures → Line → Tracker → Tracker
unfolding complete_event
take_step seq bucket i caps line t =
    let m = advance i line caps (machine_for seq bucket i line t.machines) in
    if leb (length seq.steps) m.current_step
    then record {
      machines = erase bucket t.machines;
      events = t.events ++ complete_event seq bucket m;
    }
    else record t { machines = insert bucket m (reset_before i bucket t.machines) }

-- What is returned, with `_events` cleared.
abbrev pub drain : Tracker → List SequenceEvent × Tracker
drain t = (t.events, record t { events = [] })

unfoldable pub feed : SequenceDef → Line → Tracker → List SequenceEvent × Tracker
unfolding expire expiry_events find_step take_step
feed seq line t =
    let t' = cleanup seq line.stamp t in
    let bucket = seq.bucket_for line in
    elim (find_step (current_step_for bucket t'.machines) 0 seq.steps line) [
      | none ↦ drain t'
      | some (i, caps) ↦ drain (take_step seq bucket i caps line t')
    ]

-- `flush` at the end of a log.
unfoldable pub open_events : SequenceDef → List (String × SequenceMachine) → List SequenceEvent
unfolding timeout_event
open_events seq [] = []
open_events seq ((b, m) ∷ ms) =
    (if ltb m.current_step (length seq.steps) then timeout_event seq b m else [])
    ++ open_events seq ms

unfoldable pub flush : SequenceDef → Tracker → List SequenceEvent × Tracker
unfolding open_events
flush seq t = drain (record { machines = []; events = t.events ++ open_events seq t.machines })
