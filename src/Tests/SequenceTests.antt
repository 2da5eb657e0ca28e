-- ===== src/Tests/SequenceTests.antt =====
-- The sequence tracker (libs/loghooks/sequence.py).
use zzt_self.Base.{
  ℕ, ◌≡◌, refl, true, not, Option, none, some, [], ◌∷◌, arith, leb, if◌then◌else◌, same_text,
  same_text_iff,
}
use Prim.Native.String.{String}
use zzt_self.Base.Dict.{lookup, text_key, kept}
use zzt_self.Sequence
use zzt_self.Sequence.{
  Captures, Line, SequenceDef, SequenceMachine, SequenceEvent, Tracker, complete, is_expired,
  expire, expiry_events, feed, flush, current_step_for, find_step, advance, new_machine,
  complete_event,
}
use zzt_self.Sequence.Machines.{Waiting}
use zzt_self.Sequence.Isolation.{Reachable, new, fed, Reachable-Waiting, lookup-feed}
use zzt_self.Sequence.Progress.{feed-next}

-- A step that matches one text.
abbrev says : String → Line → Option Captures
says s line = if same_text line.text s then some (("step1", s) ∷ []) else none

-- Request, assign, join; the bucket is the first letter of the time.
abbrev joining : SequenceDef
joining = record {
  steps = says "request" ∷ says "assign" ∷ says "join" ∷ [];
  window_ms = 1000;
  on_complete = true;
  on_timeout = true;
  bucket_for = λ line. elim line.time [ none ↦ "_default" | some t ↦ t ];
}

abbrev line : String → String → ℕ → Line
line node text stamp = record { time = some node; stamp = some stamp; text = text }

abbrev idle : Tracker
idle = record { machines = []; events = [] }

abbrev requested : Tracker
requested = (feed joining (line "A" "request" 0) idle).1

abbrev assigned : Tracker
assigned = (feed joining (line "A" "assign" 10) requested).1

joined :
    (feed joining (line "A" "join" 20) assigned).0
    ≡ record { kind = complete; time = "A"; bucket = "A"; captures = ("step1", "join") ∷ [] } ∷ []
unfolding feed text_key
joined = refl

expired :
    (feed joining (line "B" "request" 5000) assigned).0
    ≡ record {
      kind = Sequence.timed_out;
      time = "A";
      bucket = "A";
      captures = ("step1", "assign") ∷ [];
    }
      ∷ []
unfolding feed text_key
expired = refl

-- A line that matches the last step alone.
skipped :
    (feed joining (line "A" "join" 20) idle).0
    ≡ record { kind = complete; time = "A"; bucket = "A"; captures = ("step1", "join") ∷ [] } ∷ []
unfolding feed text_key
skipped = refl

abbrev requested-Reachable : Reachable joining requested
requested-Reachable = fed (line "A" "request" 0) idle new

Reachable-Waiting_example : Waiting joining requested
Reachable-Waiting_example = Reachable-Waiting joining requested requested-Reachable

lookup-feed_example :
    lookup "A" (feed joining (line "B" "assign" 10) requested).1.machines
    ≡ kept (λ m. not (is_expired joining (some 10) m)) (lookup "A" requested.machines)
lookup-feed_example =
    lookup-feed joining (line "B" "assign" 10) requested "A" requested-Reachable
      (λ e. ground (arith, same_text_iff "B" "A", e))

feed-next_example :
    current_step_for "A" (feed joining (line "A" "assign" 10) requested).1.machines
    ≡ (if leb 3 2 then 0 else 2)
unfolding feed text_key
feed-next_example =
    feed-next joining (line "A" "assign" 10) requested (says "request" ∷ []) (says "join" ∷ [])
      (says "assign") (("step1", "assign") ∷ []) refl refl refl
