-- ===== src/Automation/Transitions.antt =====
-- `RUN_TRANSITIONS` and `transition`: libs/test_automation/state_machine.py.
use mathlib.Core.Option.{some-injective}
use zzt_self.Base.{
  ◌≡◌, refl, sym, ap, ◌∙◌, ◌≢◌, inl, inr, Bool, true, false, ◌||◌, Option, none, some, List, [],
  ◌∷◌, arith, if◌then◌else◌, Bool-cases, and_then, and_then-eq-some,
}
use zzt_self.Runs.Outcome.{
  RunStatus, created, queued, running, cancelling, cancelled, passed, failed, inconclusive, error,
  is_terminal,
}

-- Whether the second status is in the set of the first.
abbrev pub allowed : RunStatus → RunStatus → Bool
allowed created created = true
allowed created queued = true
allowed queued queued = true
allowed queued running = true
allowed running running = true
allowed running passed = true
allowed running failed = true
allowed running inconclusive = true
allowed running cancelling = true
allowed running error = true
allowed cancelling cancelling = true
allowed cancelling cancelled = true
allowed cancelling error = true
allowed cancelled cancelled = true
allowed passed passed = true
allowed failed failed = true
allowed inconclusive inconclusive = true
allowed error error = true
allowed _ _ = false

-- `none` is the `ValueError`. Every status is a key of the table.
unfoldable pub transition : RunStatus → RunStatus → Option RunStatus
transition current target = if allowed current target then some target else none

-- A run that asks for one status after the other, until one is refused.
unfoldable pub transitions : RunStatus → List RunStatus → Option RunStatus
transitions current [] = some current
transitions current (t ∷ ts) = and_then (transition current t) (λ s. transitions s ts)

allowed-terminal : (s t : RunStatus) → is_terminal s ≡ true → allowed s t ≡ true → t ≡ s
allowed-terminal s t h k = ground arith

abbrev is_early : RunStatus → Bool
is_early created = true
is_early queued = true
is_early _ = false

abbrev pub is_run : RunStatus → Bool
is_run running = true
is_run _ = false

allowed-early :
    (s t : RunStatus) → is_early s ≡ true → allowed s t ≡ true → (is_run t || is_early t) ≡ true
allowed-early s t h k = ground arith

transition-eq-some : (s t r : RunStatus) → transition s t ≡ some r → (allowed s t ≡ true) × (r ≡ t)
unfolding transition
transition-eq-some s t r h = elim (Bool-cases (allowed s t)) [
  | inl e ↦ (e, sym (some-injective t r (rw e at h)))
  | inr e ↦ absurd (none_here (rw e at h))
]
  where
    none_here : none ≢ some r
    none_here k = cc

-- A run that has ended stays as it ended, whatever is asked for afterwards.
pub transitions-terminal :
    (s : RunStatus) (ts : List RunStatus) (r : RunStatus)
    → is_terminal s ≡ true
    → transitions s ts ≡ some r
    → r ≡ s
unfolding transitions
transitions-terminal s [] r h e = sym (some-injective s r e)
transitions-terminal s (t ∷ ts) r h e =
    let (m, first, later) = and_then-eq-some (transition s t) _ e in
    let (ok, m_is) = transition-eq-some s t m first in
    let stays : m ≡ s = m_is ∙ allowed-terminal s t h ok in
    let ended : is_terminal m ≡ true = ap is_terminal stays ∙ h in
    transitions-terminal m ts r ended later ∙ stays

-- `running` is among the statuses asked for.
abbrev pub runs : List RunStatus → Bool
runs [] = false
runs (t ∷ ts) = is_run t || runs ts

early-runs :
    (s : RunStatus) (ts : List RunStatus) (r : RunStatus)
    → is_early s ≡ true
    → transitions s ts ≡ some r
    → is_terminal r ≡ true
    → runs ts ≡ true
unfolding transitions
early-runs s [] r h e k =
    let same_one = some-injective s r e in ground (arith, ap is_terminal same_one, h, k)
early-runs s (t ∷ ts) r h e k =
    let (m, first, later) = and_then-eq-some (transition s t) _ e in
    let (ok, m_is) = transition-eq-some s t m first in
    elim (Bool-cases (is_run t)) [
      | inl run ↦ rw run refl
      | inr other ↦
          let early : is_early m ≡ true =
            ap is_early m_is ∙ ground (arith, allowed-early s t h ok, other) in
          rw other (early-runs m ts r early later k)
    ]

-- No accepted sequence of statuses takes a new run to an end without `running`.
pub transitions-created :
    (ts : List RunStatus) (r : RunStatus)
    → transitions created ts ≡ some r
    → is_terminal r ≡ true
    → runs ts ≡ true
transitions-created ts r e k = early-runs created ts r refl e k
