-- ===== src/Flow/Verdicts.antt =====
-- What decides the verdict of `compare_flow`.
use zzt_self.Base.{
  has_text, ℕ, suc, ◌≡◌, refl, sym, ◌∙◌, inl, inr, Bool, true, false, not, ◌&&◌, ◌||◌, none, List,
  [], ◌∷◌, ◌++◌, append-nil, append_assoc, arith, ltb, if◌then◌else◌, Bool-cases,
}
use Prim.Native.String.{String}
use zzt_self.Flow.Steps.{
  Event, Step, Outcome, hit, missing, timeout, negate_triggered, negate_ok, Status, FlowCompare,
  fail, new_flow, sort_events, check_step, record_outcome, flow_loop, Cursor,
}
use zzt_self.Flow.Compare.{
  hit_indices, add_out_of_order, name_at, order_loop, check_order, is_fail, is_empty, settle,
  compare_flow,
}

-- An outcome that no flow passes with.
abbrev pub blocks : Bool → Status → Bool
blocks optional negate_triggered = true
blocks optional missing = not optional
blocks optional timeout = not optional
blocks optional hit = false
blocks optional negate_ok = false

abbrev pub any_blocks : List Step → List Outcome → Bool
any_blocks (s ∷ ss) (r ∷ rs) = blocks s.optional r.status || any_blocks ss rs
any_blocks _ _ = false

-- What the rounds of the loop find, in order.
unfoldable pub outcomes : List Event → ℕ → List Step → Cursor → List Outcome
unfolding check_step
outcomes events idx [] at = []
outcomes events idx (s ∷ ss) at =
    let (r, at') = check_step events idx s at in r ∷ outcomes events (suc idx) ss at'

record_outcome-steps :
    (optional : Bool) (r : Outcome) (flow : FlowCompare)
    → (record_outcome optional r flow).steps ≡ flow.steps ++ (r ∷ [])
unfolding record_outcome
record_outcome-steps optional r flow = ground arith

record_outcome-verdict :
    (optional : Bool) (r : Outcome) (flow : FlowCompare)
    → is_fail (record_outcome optional r flow).verdict
      ≡ (is_fail flow.verdict || blocks optional r.status)
unfolding record_outcome
record_outcome-verdict optional r flow = ground arith

record_outcome-out_of_order :
    (optional : Bool) (r : Outcome) (flow : FlowCompare)
    → (record_outcome optional r flow).out_of_order ≡ flow.out_of_order
unfolding record_outcome
record_outcome-out_of_order optional r flow = ground arith

-- A failed flow names what it failed on, so that the last rule leaves it alone.
abbrev Listed : FlowCompare → Type 0
Listed flow =
    flow.verdict ≡ fail
    → (is_empty flow.missing
        && is_empty flow.timeouts
        && is_empty flow.out_of_order
        && is_empty flow.negated)
      ≡ false

is_empty-snoc : (ss : List String) (s : String) → is_empty (ss ++ (s ∷ [])) ≡ false
is_empty-snoc [] s = refl
is_empty-snoc (x ∷ ss) s = refl

record_outcome-Listed :
    (optional : Bool) (r : Outcome) (flow : FlowCompare)
    → Listed flow
    → Listed (record_outcome optional r flow)
unfolding record_outcome
record_outcome-Listed optional r flow h = ground (
  arith,
  h,
  is_empty-snoc flow.missing r.step,
  is_empty-snoc flow.timeouts r.step,
  is_empty-snoc flow.negated r.step,
)

module _ (events : List Event) where
  pub flow_loop-steps :
      (ss : List Step) (idx : ℕ) (at : Cursor) (flow : FlowCompare)
      → (flow_loop events idx ss at flow).steps ≡ flow.steps ++ outcomes events idx ss at
  unfolding flow_loop outcomes
  flow_loop-steps [] idx at flow = sym (append-nil flow.steps)
  flow_loop-steps (s ∷ ss) idx at flow =
      let (r, at') = check_step events idx s at in
      flow_loop-steps ss (suc idx) at' (record_outcome s.optional r flow)
      ∙ rw (record_outcome-steps s.optional r flow) (append_assoc flow.steps (r ∷ []) _)

  flow_loop-verdict :
      (ss : List Step) (idx : ℕ) (at : Cursor) (flow : FlowCompare)
      → is_fail (flow_loop events idx ss at flow).verdict
        ≡ (is_fail flow.verdict || any_blocks ss (outcomes events idx ss at))
  unfolding flow_loop outcomes
  flow_loop-verdict [] idx at flow = ground arith
  flow_loop-verdict (s ∷ ss) idx at flow =
      let (r, at') = check_step events idx s at in
      let flow' = record_outcome s.optional r flow in
      ground
        (arith, flow_loop-verdict ss (suc idx) at' flow', record_outcome-verdict s.optional r flow)

  pub flow_loop-out_of_order :
      (ss : List Step) (idx : ℕ) (at : Cursor) (flow : FlowCompare)
      → (flow_loop events idx ss at flow).out_of_order ≡ flow.out_of_order
  unfolding flow_loop
  flow_loop-out_of_order [] idx at flow = refl
  flow_loop-out_of_order (s ∷ ss) idx at flow =
      let (r, at') = check_step events idx s at in
      flow_loop-out_of_order ss (suc idx) at' (record_outcome s.optional r flow)
      ∙ record_outcome-out_of_order s.optional r flow

  flow_loop-Listed :
      (ss : List Step) (idx : ℕ) (at : Cursor) (flow : FlowCompare)
      → Listed flow
      → Listed (flow_loop events idx ss at flow)
  unfolding flow_loop
  flow_loop-Listed [] idx at flow h = h
  flow_loop-Listed (s ∷ ss) idx at flow h =
      let (r, at') = check_step events idx s at in
      flow_loop-Listed ss (suc idx) at' (record_outcome s.optional r flow)
        (record_outcome-Listed s.optional r flow h)

-- With `base` for the verdict before the order was checked.
abbrev OrderFails : Bool → FlowCompare → Type 0
OrderFails base flow = is_fail flow.verdict ≡ (base || not (is_empty flow.out_of_order))

has_text-not_empty :
    (name : String) (ss : List String) → has_text name ss ≡ true → is_empty ss ≡ false
has_text-not_empty name [] h = cc
has_text-not_empty name (s ∷ ss) h = refl

add_out_of_order-not_empty :
    (name : String) (flow : FlowCompare)
    → is_empty (add_out_of_order name flow).out_of_order ≡ false
add_out_of_order-not_empty name flow =
    ground (arith, has_text-not_empty name flow.out_of_order, is_empty-snoc flow.out_of_order name)

-- What every addition keeps, the check of the order keeps.
module _ (P : FlowCompare → Type 0)
    (step : (name : String) (flow : FlowCompare) → P flow → P (add_out_of_order name flow)) where
  keep_or_add :
      (b : Bool) (name : String) (flow : FlowCompare)
      → P flow
      → P (if b then add_out_of_order name flow else flow)
  keep_or_add true name flow h = step name flow h
  keep_or_add false name flow h = h

  order_loop-preserves :
      (hs : List ℕ) (last i : ℕ) (flow : FlowCompare) → P flow → P (order_loop last i hs flow)
  unfolding order_loop
  order_loop-preserves [] last i flow h = h
  order_loop-preserves (k ∷ hs) last i flow h =
      order_loop-preserves hs k (suc i) _ (keep_or_add (ltb k last) (name_at flow.steps i) flow h)

  pub check_order-preserves : (hs : List ℕ) (flow : FlowCompare) → P flow → P (check_order hs flow)
  unfolding check_order
  check_order-preserves [] flow h = h
  check_order-preserves (k ∷ hs) flow h = order_loop-preserves hs k 1 flow h

add_out_of_order-Listed :
    (name : String) (flow : FlowCompare) → Listed flow → Listed (add_out_of_order name flow)
add_out_of_order-Listed name flow h v = ground (arith, add_out_of_order-not_empty name flow)

settle-Listed : (flow : FlowCompare) → Listed flow → settle flow ≡ flow
unfolding settle
settle-Listed flow h = elim (Bool-cases (is_fail flow.verdict)) [
  | inl e ↦ ground (arith, h)
  | inr e ↦ ground (arith, e)
]

abbrev pub start : Cursor
start = record { cursor = 0; last_time = none }

module _ (s : Step) (ss : List Step) (actual : List Event) where
  abbrev pub looped : FlowCompare
  looped = flow_loop (sort_events actual) 0 (s ∷ ss) start new_flow

  abbrev pub indices : List ℕ
  indices = hit_indices (s ∷ ss) (sort_events actual) looped.steps

  -- The last rule of `compare_flow` is never taken.
  pub compare_flow-cons : compare_flow (s ∷ ss) actual ≡ check_order indices looped
  unfolding compare_flow
  compare_flow-cons = settle-Listed (check_order indices looped) (
      check_order-preserves Listed add_out_of_order-Listed indices looped
        (flow_loop-Listed (sort_events actual) (s ∷ ss) 0 start new_flow (λ v. ground (arith, v))))

  pub compare_flow-steps :
      (compare_flow (s ∷ ss) actual).steps ≡ outcomes (sort_events actual) 0 (s ∷ ss) start
  compare_flow-steps = rw compare_flow-cons (
      check_order-preserves (λ f. f.steps ≡ looped.steps) (λ name flow h. h) indices looped refl
      ∙ flow_loop-steps (sort_events actual) (s ∷ ss) 0 start new_flow)

-- The verdict is a failure exactly when some step blocks the flow, which is a negated step that is
-- seen, or a step that is not optional and is missing or late, or something is out of order.
pub compare_flow-verdict :
    (expected : List Step) (actual : List Event)
    → is_fail (compare_flow expected actual).verdict ≡ (
        any_blocks expected (compare_flow expected actual).steps
        || not (is_empty (compare_flow expected actual).out_of_order))
unfolding compare_flow
compare_flow-verdict [] actual = refl
compare_flow-verdict (s ∷ ss) actual =
    let events = sort_events actual in
    let flow = looped s ss actual in
    let base = any_blocks (s ∷ ss) (outcomes events 0 (s ∷ ss) start) in
    let before : OrderFails base flow = ground (
      arith,
      flow_loop-verdict events (s ∷ ss) 0 start new_flow,
      flow_loop-out_of_order events (s ∷ ss) 0 start new_flow,
    ) in
    let after : OrderFails base (check_order (indices s ss actual) flow) =
      check_order-preserves (OrderFails base)
        (λ name f h. ground (arith, h, add_out_of_order-not_empty name f)) (indices s ss actual)
        flow before in
    rw (compare_flow-steps s ss actual) (rw (compare_flow-cons s ss actual) after)
