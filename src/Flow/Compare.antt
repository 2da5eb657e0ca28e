-- ===== src/Flow/Compare.antt =====
-- `compare_flow` as a whole: the loop, the check of the order, and the last rule on the verdict.
use zzt_self.Base.{
  has_text, ℕ, suc, Bool, true, false, not, ◌&&◌, Option, none, some, List, [], ◌∷◌, ◌++◌, ltb,
  if◌then◌else◌, get_elem?, when, same_text, text_or,
}
use Prim.Native.String.{String}
use zzt_self.Flow.Steps.{
  Event, Step, Outcome, hit, FlowCompare, Verdict, fail, pass, new_flow, sort_events, find_match,
  flow_loop,
}

-- The first step with the name of a hit, where the names of the flow are those in the scenario.
unfoldable pub type_named : String → List Step → String
type_named name [] = ""
type_named name (s ∷ ss) =
    if same_text (text_or s.step s.event_type) name then s.event_type else type_named name ss

abbrev pub is_hit : Outcome → Bool
is_hit r = elim r.status [ hit ↦ true | _ ↦ false ]

-- One round of the loop that fills `hit_indices`: `ev_type and _matches(...)` over all events.
unfoldable pub hit_index : List Step → List Event → Outcome → Option ℕ
unfolding type_named find_match
hit_index expected events r =
    let ty = type_named r.step expected in
    when (is_hit r && not (same_text ty ""))
      (elim (find_match ty events) [ none ↦ none | some (i, ev) ↦ some i ])

unfoldable pub hit_indices : List Step → List Event → List Outcome → List ℕ
unfolding hit_index
hit_indices expected events [] = []
hit_indices expected events (r ∷ rs) = elim (hit_index expected events r) [
  | none ↦ hit_indices expected events rs
  | some i ↦ i ∷ hit_indices expected events rs
]

-- `flow.steps[i]["step"] if i < len(flow.steps) else "?"`
abbrev pub name_at : List Outcome → ℕ → String
name_at steps i = elim (get_elem? steps i) [ none ↦ "?" | some r ↦ r.step ]

abbrev pub add_out_of_order : String → FlowCompare → FlowCompare
add_out_of_order name flow = record flow {
  out_of_order =
      if has_text name flow.out_of_order
      then flow.out_of_order
      else flow.out_of_order ++ (name ∷ []);
  verdict = fail;
}

-- `for i in range(1, len(hit_indices))`: the index before, `i`, and the indices from there.
unfoldable pub order_loop : ℕ → ℕ → List ℕ → FlowCompare → FlowCompare
order_loop last i [] flow = flow
order_loop last i (h ∷ hs) flow =
    order_loop h (suc i) hs
      (if ltb h last then add_out_of_order (name_at flow.steps i) flow else flow)

unfoldable pub check_order : List ℕ → FlowCompare → FlowCompare
unfolding order_loop
check_order [] flow = flow
check_order (h ∷ hs) flow = order_loop h 1 hs flow

abbrev pub is_fail : Verdict → Bool
is_fail pass = false
is_fail fail = true

abbrev pub is_empty : List String → Bool
is_empty [] = true
is_empty (s ∷ ss) = false

-- The last `if`: a failed flow that lists nothing passes.
unfoldable pub settle : FlowCompare → FlowCompare
settle flow =
    if is_fail flow.verdict
      && is_empty flow.missing
      && is_empty flow.timeouts
      && is_empty flow.out_of_order
      && is_empty flow.negated
    then record flow { verdict = pass }
    else flow

unfoldable pub compare_flow : List Step → List Event → FlowCompare
unfolding sort_events flow_loop hit_indices check_order settle
compare_flow [] actual = new_flow
compare_flow (s ∷ ss) actual =
    let expected = s ∷ ss in
    let events = sort_events actual in
    let flow = flow_loop events 0 expected (record { cursor = 0; last_time = none }) new_flow in
    settle (check_order (hit_indices expected events flow.steps) flow)
