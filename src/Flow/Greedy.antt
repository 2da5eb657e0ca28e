-- ===== src/Flow/Greedy.antt =====
-- The search for the steps against its specification: a subsequence of the sorted events.
use zzt_self.Base.{
  ℕ, zero, suc, ◌+◌, ◌≡◌, refl, sym, ap, ◌∙◌, ◌↔◌, inl, inr, Bool, true, false, ◌&&◌, none, some,
  List, [], ◌∷◌, map, arith, Bool-cases, Option-cases, drop, All, drop-drop,
}
use Prim.Native.String.{String}
use mathlib.Core.Path.{subst}
use zzt_self.Flow.Steps.{
  Event, Step, Outcome, missing, FlowCompare, new_flow, matches, sort_events, find_match,
  check_step, record_outcome, flow_loop, Cursor, late,
}
use zzt_self.Flow.Compare.{is_empty, compare_flow}
use zzt_self.Flow.Verdicts.{
  outcomes, check_order-preserves, looped, indices, start, compare_flow-cons,
}

-- Events of these types occur in this order, with any events between them.
pub data Embeds : List String → List Event → Type 0 where
  done : (es : List Event) → Embeds [] es
  found :
      (t : String) (ts : List String) (e : Event) (es : List Event)
      → matches e t ≡ true
      → Embeds ts es
      → Embeds (t ∷ ts) (e ∷ es)
  skipped : (ts : List String) (e : Event) (es : List Event) → Embeds ts es → Embeds ts (e ∷ es)

abbrev types : List Step → List String
types = map (λ s. s.event_type)

abbrev pub AllPositive : List Step → Type 0
AllPositive = All (λ s. s.negate ≡ false)

find_match-here :
    (t : String) (e : Event) (es : List Event)
    → matches e t ≡ true
    → find_match t (e ∷ es) ≡ some (0, e)
unfolding find_match
find_match-here t e es h = ground (arith, h)

find_match-later :
    (t : String) (e : Event) (es : List Event)
    → matches e t ≡ false
    → find_match t (e ∷ es) ≡ elim (find_match t es) [ none ↦ none | some (i, f) ↦ some (suc i, f) ]
unfolding find_match
find_match-later t e es h = ground (arith, h)

find_match-Embeds :
    (t : String) (ts : List String) (es : List Event) (i : ℕ) (ev : Event)
    → find_match t es ≡ some (i, ev)
    → Embeds ts (drop (suc i) es)
    → Embeds (t ∷ ts) es
unfolding find_match
find_match-Embeds t ts [] i ev h k = cc
find_match-Embeds t ts (e ∷ es) i ev h k = elim (Bool-cases (matches e t)) [
  | inl m ↦
      let first : i ≡ 0 = ground (arith, h, find_match-here t e es m) in
      found t ts e es m (subst (λ j. Embeds ts (drop j es)) first k)
  | inr m ↦ elim (Option-cases (find_match t es)) [
    | inl n ↦ ground (arith, h, n, find_match-later t e es m)
    | inr ((j, f), n) ↦
        let later : i ≡ suc j = ground (arith, h, n, find_match-later t e es m) in
        skipped (t ∷ ts) e es
          (find_match-Embeds t ts es j f n (subst (λ l. Embeds ts (drop l es)) later k))
  ]
]

Embeds-drop : (ts : List String) (n : ℕ) (es : List Event) → Embeds ts (drop n es) → Embeds ts es
Embeds-drop ts zero es k = k
Embeds-drop ts (suc n) [] k = k
Embeds-drop ts (suc n) (e ∷ es) k = skipped ts e es (Embeds-drop ts n es k)

Embeds-tail : (t : String) (ts : List String) (es : List Event) → Embeds (t ∷ ts) es → Embeds ts es
Embeds-tail t ts [] k = elim k [ ]
Embeds-tail t ts (e ∷ es) (found _ _ _ _ m k) = skipped ts e es k
Embeds-tail t ts (e ∷ es) (skipped _ _ _ k) = skipped ts e es (Embeds-tail t ts es k)

-- The first match is as good as any other.
Embeds-find_match :
    (t : String) (ts : List String) (es : List Event)
    → Embeds (t ∷ ts) es
    → (i : ℕ) × (ev : Event) × (find_match t es ≡ some (i, ev)) × Embeds ts (drop (suc i) es)
Embeds-find_match t ts [] k = elim k [ ]
Embeds-find_match t ts (e ∷ es) (found _ _ _ _ m k) = (0, e, find_match-here t e es m, k)
Embeds-find_match t ts (e ∷ es) (skipped _ _ _ k) = elim (Bool-cases (matches e t)) [
  | inl m ↦ (0, e, find_match-here t e es m, Embeds-tail t ts es k)
  | inr m ↦
      let (i, ev, n, rest) = Embeds-find_match t ts es k in
      (suc i, ev, rw (find_match-later t e es m) (rw n refl), rest)
]

-- No outcome is a missing step.
abbrev none_missing : List Outcome → Bool
none_missing [] = true
none_missing (r ∷ rs) = elim r.status [ missing ↦ false | _ ↦ none_missing rs ]

record_outcome-missing :
    (optional : Bool) (r : Outcome) (rs : List Outcome) (flow : FlowCompare)
    → (is_empty (record_outcome optional r flow).missing && none_missing rs)
      ≡ (is_empty flow.missing && none_missing (r ∷ rs))
unfolding record_outcome
record_outcome-missing optional r rs flow = ground arith

flow_loop-missing :
    (events : List Event) (ss : List Step) (idx : ℕ) (at : Cursor) (flow : FlowCompare)
    → is_empty (flow_loop events idx ss at flow).missing
      ≡ (is_empty flow.missing && none_missing (outcomes events idx ss at))
unfolding flow_loop outcomes
flow_loop-missing events [] idx at flow = ground arith
flow_loop-missing events (s ∷ ss) idx at flow =
    let (r, at') = check_step events idx s at in
    let flow' = record_outcome s.optional r flow in
    flow_loop-missing events ss (suc idx) at' flow'
    ∙ record_outcome-missing s.optional r (outcomes events (suc idx) ss at') flow

module _ (events : List Event) where
  next_missing :
      (idx : ℕ) (s : Step) (ss : List Step) (at : Cursor)
      → s.negate ≡ false
      → find_match s.event_type (drop at.cursor events) ≡ none
      → none_missing (outcomes events idx (s ∷ ss) at) ≡ false
  unfolding outcomes check_step
  next_missing idx s ss at p h = rw (p, h) refl

  next_found :
      (idx : ℕ) (s : Step) (ss : List Step) (at : Cursor) (i : ℕ) (ev : Event)
      → s.negate ≡ false
      → find_match s.event_type (drop at.cursor events) ≡ some (i, ev)
      → none_missing (outcomes events idx (s ∷ ss) at)
        ≡ none_missing (
            outcomes events
              (suc idx)
              ss
              (record { cursor = suc (at.cursor + i); last_time = some ev.time }))
  unfolding outcomes check_step
  next_found idx s ss at i ev p h = elim (Bool-cases (late at.last_time ev.time s.within_ms)) [
    | inl l ↦ rw (p, h, l) refl
    | inr l ↦ rw (p, h, l) refl
  ]

  drop-next : (c i : ℕ) → drop (suc (c + i)) events ≡ drop (suc i) (drop c events)
  drop-next c i =
      let later : suc (c + i) ≡ c + suc i = omega arith in
      ap (λ n. drop n events) later ∙ drop-drop c (suc i) events

  none_missing-Embeds :
      (ss : List Step) (idx : ℕ) (at : Cursor)
      → AllPositive ss
      → none_missing (outcomes events idx ss at) ≡ true
      → Embeds (types ss) (drop at.cursor events)
  none_missing-Embeds [] idx at p h = done _
  none_missing-Embeds (s ∷ ss) idx at p h =
      elim (Option-cases (find_match s.event_type (drop at.cursor events))) [
        | inl n ↦ cc (next_missing idx s ss at p.0 n, h)
        | inr ((i, ev), n) ↦
            let at' : Cursor = record { cursor = suc (at.cursor + i); last_time = some ev.time } in
            let rest =
              none_missing-Embeds ss (suc idx) at' p.1
                (sym (next_found idx s ss at i ev p.0 n) ∙ h) in
            find_match-Embeds s.event_type (types ss) (drop at.cursor events) i ev n
              (subst (Embeds (types ss)) (drop-next at.cursor i) rest)
      ]

  Embeds-none_missing :
      (ss : List Step) (idx : ℕ) (at : Cursor)
      → AllPositive ss
      → Embeds (types ss) (drop at.cursor events)
      → none_missing (outcomes events idx ss at) ≡ true
  unfolding outcomes
  Embeds-none_missing [] idx at p k = refl
  Embeds-none_missing (s ∷ ss) idx at p k =
      let (i, ev, n, rest) = Embeds-find_match s.event_type (types ss) (drop at.cursor events) k in
      let at' : Cursor = record { cursor = suc (at.cursor + i); last_time = some ev.time } in
      next_found idx s ss at i ev p.0 n
      ∙ Embeds-none_missing ss (suc idx) at' p.1
          (subst (Embeds (types ss)) (sym (drop-next at.cursor i)) rest)

is_empty_iff : (ss : List String) → (ss ≡ []) ↔ (is_empty ss ≡ true)
is_empty_iff [] = (λ h. refl, λ h. refl)
is_empty_iff (s ∷ ss) = (λ h. cc, λ h. cc)

compare_flow-missing :
    (s : Step) (ss : List Step) (actual : List Event)
    → is_empty (compare_flow (s ∷ ss) actual).missing
      ≡ none_missing (outcomes (sort_events actual) 0 (s ∷ ss) start)
compare_flow-missing s ss actual = rw (compare_flow-cons s ss actual) (
    ap is_empty (
      check_order-preserves (λ f. f.missing ≡ (looped s ss actual).missing) (λ name f h. h)
        (indices s ss actual) (looped s ss actual) refl)
    ∙ flow_loop-missing (sort_events actual) (s ∷ ss) 0 start new_flow)

-- Where no step is negated, none is missing exactly when events of the expected types occur in the
-- expected order: taking the first match each time never misses a way to fit the steps.
pub missing-Embeds :
    (expected : List Step) (actual : List Event)
    → AllPositive expected
    → ((compare_flow expected actual).missing ≡ []) ↔ Embeds (types expected) (sort_events actual)
unfolding compare_flow
missing-Embeds [] actual p = (λ h. done _, λ h. refl)
missing-Embeds (s ∷ ss) actual p =
    let events = sort_events actual in
    let (there, back) = is_empty_iff (compare_flow (s ∷ ss) actual).missing in
    let same = compare_flow-missing s ss actual in
    (
      λ h. none_missing-Embeds events (s ∷ ss) 0 start p (sym same ∙ there h),
      λ h. back (same ∙ Embeds-none_missing events (s ∷ ss) 0 start p h),
    )
