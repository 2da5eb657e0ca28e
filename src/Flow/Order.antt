-- ===== src/Flow/Order.antt =====
-- When the check of the order finds nothing.
use zzt_self.Base.{
  ℕ, zero, suc, ◌+◌, ◌≤◌, ◌≡◌, refl, sym, ap, ◌∙◌, ◌⊎◌, inl, inr, false, not, ◌&&◌, Option, none,
  some, List, [], ◌∷◌, arith, ltb, if◌then◌else◌, Bool-cases, Option-cases, drop, when, same_text,
}
use Prim.Native.String.{String}
use mathlib.Core.Path.{subst}
use zzt_self.Flow.Steps.{
  Event, Step, Outcome, FlowCompare, new_flow, matches, sort_events, find_match, find_negated,
  check_step, Cursor, step_name,
}
use zzt_self.Flow.Compare.{
  type_named, is_hit, hit_index, hit_indices, order_loop, check_order, compare_flow,
}
use zzt_self.Flow.Verdicts.{
  outcomes, looped, indices, start, compare_flow-cons, flow_loop-out_of_order, flow_loop-steps,
}

-- At most one event has the type.
abbrev pub Once : String → List Event → Type 0
Once t [] = Unit
Once t (e ∷ es) = if matches e t then find_match t es ≡ none else Once t es

-- The name of each step leads back to its own type, and that type occurs at most once.
abbrev pub Resolved : List Step → List Event → ℕ → List Step → Type 0
Resolved expected events idx [] = Unit
Resolved expected events idx (s ∷ ss) =
    (type_named (step_name idx s) expected ≡ s.event_type)
    × Once s.event_type events
    × Resolved expected events (suc idx) ss

find_match-none :
    (t : String) (e : Event) (es : List Event)
    → find_match t (e ∷ es) ≡ none
    → find_match t es ≡ none
unfolding find_match
find_match-none t e es h = ground (arith, h)

find_match-drop-none :
    (t : String) (c : ℕ) (es : List Event)
    → find_match t es ≡ none
    → find_match t (drop c es) ≡ none
find_match-drop-none t zero es h = h
find_match-drop-none t (suc c) [] h = h
find_match-drop-none t (suc c) (e ∷ es) h = find_match-drop-none t c es (find_match-none t e es h)

find_match-drop :
    (t : String) (c i : ℕ) (ev : Event) (es : List Event)
    → Once t es
    → find_match t (drop c es) ≡ some (i, ev)
    → find_match t es ≡ some (c + i, ev)
unfolding find_match
find_match-drop t zero i ev es once h = ground (arith, h)
find_match-drop t (suc c) i ev [] once h = cc
find_match-drop t (suc c) i ev (e ∷ es) once h =
    ground (arith, find_match-drop-none t c es, find_match-drop t c i ev es)

-- Indices from `c` on, each greater than the one before.
abbrev Ascending : ℕ → List ℕ → Type 0
Ascending c [] = Unit
Ascending c (h ∷ hs) = (c ≤ h) × Ascending (suc h) hs

Ascending-mono : (c d : ℕ) (hs : List ℕ) → c ≤ d → Ascending d hs → Ascending c hs
Ascending-mono c d [] l a = tt
Ascending-mono c d (h ∷ hs) l a = (omega (arith, l, a.0), a.1)

module _ (expected : List Step) (events : List Event) where
  -- An outcome whose index, if it has one, is `i`.
  Ascending-cons :
      (c i : ℕ) (r : Outcome) (rs : List Outcome)
      → c ≤ i
      → (hit_index expected events r ≡ none) ⊎ (hit_index expected events r ≡ some i)
      → Ascending (suc i) (hit_indices expected events rs)
      → Ascending c (hit_indices expected events (r ∷ rs))
  unfolding hit_indices
  Ascending-cons c i r rs l h a = elim h [
    | inl e ↦
        rw (e, Ascending)
          (Ascending-mono c (suc i) (hit_indices expected events rs) (omega (arith, l)) a)
    | inr e ↦ rw (e, Ascending) (l, a)
  ]

  -- An outcome that is no hit.
  Ascending-skip :
      (c : ℕ) (r : Outcome) (rs : List Outcome)
      → is_hit r ≡ false
      → Ascending c (hit_indices expected events rs)
      → Ascending c (hit_indices expected events (r ∷ rs))
  unfolding hit_indices hit_index
  Ascending-skip c r rs h a = rw (h, Ascending) a

  abbrev index_of : Outcome → String → Option ℕ
  index_of r ty =
      when (is_hit r && not (same_text ty ""))
        (elim (find_match ty events) [ none ↦ none | some (i, ev) ↦ some i ])

  hit_index-named :
      (r : Outcome) (ty : String)
      → type_named r.step expected ≡ ty
      → hit_index expected events r ≡ index_of r ty
  unfolding hit_index
  hit_index-named r ty named = subst (λ t. hit_index expected events r ≡ index_of r t) named refl

  hit_index-Once :
      (s : Step) (c i : ℕ) (ev : Event) (r : Outcome)
      → type_named r.step expected ≡ s.event_type
      → Once s.event_type events
      → find_match s.event_type (drop c events) ≡ some (i, ev)
      → (hit_index expected events r ≡ none) ⊎ (hit_index expected events r ≡ some (c + i))
  unfolding hit_index
  hit_index-Once s c i ev r named once h =
      elim (Bool-cases (is_hit r && not (same_text s.event_type ""))) [
        | inl b ↦ inr (
            hit_index-named r s.event_type named
            ∙ rw (b, find_match-drop s.event_type c i ev events once h) refl)
        | inr b ↦ inl (hit_index-named r s.event_type named ∙ rw b refl)
      ]

  -- Either no hit and the cursor stays, or an event was found and the cursor stands behind it.
  check_step-cases :
      (idx : ℕ) (s : Step) (at : Cursor)
      → let r = (check_step events idx s at).0 in
        let at' = (check_step events idx s at).1 in
        ((is_hit r ≡ false) × (at'.cursor ≡ at.cursor))
        ⊎ ((i : ℕ) × (ev : Event) × (find_match s.event_type (drop at.cursor events) ≡ some (i, ev))
            × (r.step ≡ step_name idx s)
            × (at'.cursor ≡ suc (at.cursor + i)))
  unfolding check_step
  check_step-cases idx s at = elim (Bool-cases s.negate) [
    | inl p ↦ elim (Option-cases (find_negated at.last_time s.event_type events)) [
      | inl n ↦ inl (rw (p, n) (refl, refl))
      | inr (ev, n) ↦ inl (rw (p, n) (refl, refl))
    ]
    | inr p ↦ elim (Option-cases (find_match s.event_type (drop at.cursor events))) [
      | inl n ↦ inl (rw (p, n) (refl, refl))
      | inr ((i, ev), n) ↦ inr (i, ev, n, rw (p, n) refl, rw (p, n) refl)
    ]
  ]

  Ascending-outcomes :
      (ss : List Step) (idx : ℕ) (at : Cursor)
      → Resolved expected events idx ss
      → Ascending at.cursor (hit_indices expected events (outcomes events idx ss at))
  unfolding outcomes hit_indices
  Ascending-outcomes [] idx at names = tt
  Ascending-outcomes (s ∷ ss) idx at names =
      let r : Outcome = (check_step events idx s at).0 in
      let at' : Cursor = (check_step events idx s at).1 in
      let rest : List Outcome = outcomes events (suc idx) ss at' in
      let later : Ascending at'.cursor (hit_indices expected events rest) =
        Ascending-outcomes ss (suc idx) at' names.2 in
      elim (check_step-cases idx s at) [
        | inl (no_hit, stays) ↦
            Ascending-skip at.cursor r rest no_hit
              (Ascending-mono at.cursor at'.cursor _ (omega (arith, stays)) later)
        | inr (i, ev, n, name, moves) ↦
            Ascending-cons at.cursor (at.cursor + i) r rest (omega arith)
              (hit_index-Once s at.cursor i ev r (ap (λ t. type_named t expected) name ∙ names.0)
                names.1 n)
              (Ascending-mono (suc (at.cursor + i)) at'.cursor _ (omega (arith, moves)) later)
      ]

order_loop-Ascending :
    (hs : List ℕ) (last i : ℕ) (flow : FlowCompare)
    → Ascending last hs
    → order_loop last i hs flow ≡ flow
unfolding order_loop
order_loop-Ascending [] last i flow a = refl
order_loop-Ascending (h ∷ hs) last i flow a =
    let kept : ltb h last ≡ false = ground (arith, a.0) in
    rw kept (order_loop-Ascending hs h (suc i) flow (Ascending-mono h (suc h) hs (omega arith) a.1))

check_order-Ascending :
    (hs : List ℕ) (c : ℕ) (flow : FlowCompare) → Ascending c hs → check_order hs flow ≡ flow
unfolding check_order
check_order-Ascending [] c flow a = refl
check_order-Ascending (h ∷ hs) c flow a =
    order_loop-Ascending hs h 1 flow (Ascending-mono h (suc h) hs (omega arith) a.1)

-- Where every name leads back to its own step and no expected type occurs twice, nothing is ever
-- reported as out of order: a step that comes too early is reported as missing.
pub out_of_order-Resolved :
    (expected : List Step) (actual : List Event)
    → Resolved expected (sort_events actual) 0 expected
    → (compare_flow expected actual).out_of_order ≡ []
unfolding compare_flow
out_of_order-Resolved [] actual h = refl
out_of_order-Resolved (s ∷ ss) actual h =
    let events = sort_events actual in
    let flow = looped s ss actual in
    let ascending : Ascending 0 (indices s ss actual) =
      subst (λ rs. Ascending 0 (hit_indices (s ∷ ss) events rs))
        (sym (flow_loop-steps events (s ∷ ss) 0 start new_flow))
        (Ascending-outcomes (s ∷ ss) events (s ∷ ss) 0 start h) in
    ap (λ f. f.out_of_order) (compare_flow-cons s ss actual)
    ∙ ap (λ f. f.out_of_order) (check_order-Ascending (indices s ss actual) 0 flow ascending)
    ∙ flow_loop-out_of_order events (s ∷ ss) 0 start new_flow
