-- ===== src/Tests/AutomationTests.antt =====
-- Runs of the evidence store and of the run states, and their theorems at concrete inputs.
use zzt_self.Base.{ℕ, ◌≡◌, refl, true, none, some, List, [], ◌∷◌, map, digits}
use zzt_self.Runs.Outcome.{RunStatus, created, queued, running, cancelling, cancelled, passed}
use zzt_self.Automation.Evidence.{
  EvidenceStore, store_frozen, unknown_kind, StoreCall, appends, freezes, new_store, append,
  store_call, store_calls, Extends, store_calls-Extends,
}
use zzt_self.Automation.Transitions.{transition, transitions, runs, transitions-created}

-- Two items, then a frozen window.
abbrev window_calls : List (StoreCall ℕ)
window_calls = appends "log" "uart" 7 ∷ appends "frame" "simcon" 8 ∷ freezes ∷ []

abbrev window : EvidenceStore ℕ
window = store_calls window_calls (new_store "r1")

frozen_append : append "log" "uart" 9 window ≡ store_frozen
unfolding append store_call store_calls
frozen_append = refl

abbrev window_start : EvidenceStore ℕ
window_start = new_store "r1"

strange_kind : append "picture" "uart" 9 window_start ≡ unknown_kind
unfolding append
strange_kind = refl

window_ids : map (λ e. e.id) window.items ≡ "r1-ev-1" ∷ "r1-ev-2" ∷ []
unfolding append store_call store_calls digits
window_ids = refl

store_calls-Extends_example :
    Extends (store_calls (appends "log" "uart" 9 ∷ freezes ∷ []) window) window
store_calls-Extends_example = store_calls-Extends (appends "log" "uart" 9 ∷ freezes ∷ []) window

abbrev one_run : List RunStatus
one_run = queued ∷ running ∷ cancelling ∷ cancelled ∷ []

ran_to_cancelled : transitions created one_run ≡ some cancelled
unfolding transition transitions
ran_to_cancelled = refl

never_back : transition passed running ≡ none
unfolding transition
never_back = refl

kept_passed : transitions passed (passed ∷ passed ∷ []) ≡ some passed
unfolding transition transitions
kept_passed = refl

transitions-created_example : runs one_run ≡ true
transitions-created_example = transitions-created one_run cancelled ran_to_cancelled refl
