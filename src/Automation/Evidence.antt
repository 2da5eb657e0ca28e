-- ===== src/Automation/Evidence.antt =====
-- `EvidenceStore`: libs/test_automation/evidence_store.py, with the check of `Evidence` in models.py.
-- The time of observation, payload, reference, key and metadata of
-- an item are one value `D`, which the store only keeps.
use zzt_self.Base.{
  ℕ, suc, ◌+◌, ◌≡◌, refl, sym, ap, ◌∙◌, Bool, true, false, not, List, [], ◌∷◌, ◌++◌, append-nil,
  append_assoc, arith, if◌then◌else◌, length, All, All-append, both_ways, if-holds, has_text, join,
  numbered,
}
use Prim.Native.String.{String}

pub record Evidence (D : Type 0) : Type 0 where
  pub id : String
  pub run_id : String
  pub sequence : ℕ
  pub kind : String
  pub origin : String
  pub content : D

pub record EvidenceStore (D : Type 0) : Type 0 where
  pub run_id : String
  pub items : List (Evidence D)
  pub frozen : Bool

pub data StoreCall (D : Type 0) : Type 0 where
  appends : String → String → D → StoreCall D
  freezes : StoreCall D

-- `EVIDENCE_KINDS`
abbrev pub evidence_kinds : List String
evidence_kinds = "frame" ∷ "event" ∷ "interaction" ∷ "measurement" ∷ "log" ∷ []

pub data Appended (D : Type 0) : Type 0 where
  store_frozen unknown_kind : Appended D
  appended : Evidence D → EvidenceStore D → Appended D

module _ {D : Type 0} where
  abbrev pub new_store : String → EvidenceStore D
  new_store run_id = record { run_id = run_id; items = []; frozen = false }

  abbrev pub next_item : EvidenceStore D → String → String → D → Evidence D
  next_item s kind origin content =
      let seq = length s.items + 1 in
      record {
        id = numbered (join s.run_id "-ev-") seq;
        run_id = s.run_id;
        sequence = seq;
        kind = kind;
        origin = origin;
        content = content;
      }

  -- `append`: a frozen store is a `RuntimeError`, and an unknown kind a `ValueError` of
  -- `Evidence.__post_init__`, before the store is changed.
  unfoldable pub append : String → String → D → EvidenceStore D → Appended D
  append kind origin content s =
      if s.frozen
      then store_frozen
      else if not (has_text kind evidence_kinds)
      then unknown_kind
      else (let item = next_item s kind origin content in
          appended item (record s { items = s.items ++ (item ∷ []) }))

  abbrev pub freeze : EvidenceStore D → EvidenceStore D
  freeze s = record s { frozen = true }

  -- A call that raises leaves the store as it was.
  abbrev pub kept : Appended D → EvidenceStore D → EvidenceStore D
  kept store_frozen s = s
  kept unknown_kind s = s
  kept (appended item t) s = t

  unfoldable pub store_call : StoreCall D → EvidenceStore D → EvidenceStore D
  store_call (appends kind origin content) s = kept (append kind origin content s) s
  store_call freezes s = freeze s

  unfoldable pub store_calls : List (StoreCall D) → EvidenceStore D → EvidenceStore D
  store_calls [] s = s
  store_calls (c ∷ cs) s = store_calls cs (store_call c s)

  abbrev pub KindKnown : Evidence D → Type 0
  KindKnown e = has_text e.kind evidence_kinds ≡ true

  -- The items of one store start with those of another, unchanged, and those that follow are of a
  -- known kind.
  abbrev pub Extends : EvidenceStore D → EvidenceStore D → Type 0
  Extends t s =
      (more : List (Evidence D)) × (t.items ≡ s.items ++ more)
      × All KindKnown more
      × (s.frozen ≡ true → more ≡ [])
      × (s.frozen ≡ true → t.frozen ≡ true)

  -- The ways out of `append`.
  append-keeps :
      (P : Appended D → Type 0) (kind origin : String) (content : D) (s : EvidenceStore D)
      → P store_frozen
      → P unknown_kind
      → (s.frozen ≡ false
          → has_text kind evidence_kinds ≡ true
          → P (
              appended
                (next_item s kind origin content)
                (record s { items = s.items ++ (next_item s kind origin content ∷ []) })))
      → P (append kind origin content s)
  unfolding append
  append-keeps P kind origin content s frozen_case unknown_case new_case =
      if-holds P s.frozen _ _ (λ _. frozen_case)
        (λ thawed.
          if-holds P (not (has_text kind evidence_kinds)) _ _ (λ _. unknown_case)
            (λ other. new_case thawed (ground (arith, other))))

  store_call-Extends : (c : StoreCall D) (s : EvidenceStore D) → Extends (store_call c s) s
  unfolding store_call
  store_call-Extends (appends kind origin content) s =
      let same_store : Extends s s = ([], sym (append-nil s.items), tt, λ _. refl, λ h. h) in
      append-keeps (λ r. Extends (kept r s) s) kind origin content s same_store same_store
        (λ thawed known. (
          next_item s kind origin content ∷ [],
          refl,
          (known, tt),
          λ k. absurd (both_ways thawed k),
          λ k. absurd (both_ways thawed k),
        ))
  store_call-Extends freezes s = ([], sym (append-nil s.items), tt, λ _. refl, λ _. refl)

  -- The store only grows at its end, by items of the known kinds, and a frozen store neither grows
  -- nor thaws: after any calls the items start with those there were, and nothing follows them if
  -- the store was frozen.
  pub store_calls-Extends :
      (cs : List (StoreCall D)) (s : EvidenceStore D) → Extends (store_calls cs s) s
  unfolding store_calls
  store_calls-Extends [] s = ([], sym (append-nil s.items), tt, λ _. refl, λ h. h)
  store_calls-Extends (c ∷ cs) s =
      let (first, e, known, stays, holds) = store_call-Extends c s in
      let (later, f, known', stays', holds') = store_calls-Extends cs (store_call c s) in
      (
        first ++ later,
        f ∙ ap (λ xs. xs ++ later) e ∙ append_assoc s.items first later,
        All-append KindKnown first later known known',
        λ h. ap (λ xs. xs ++ later) (stays h) ∙ stays' (holds h),
        λ h. holds' (holds h),
      )

  -- Sequence numbers from `n` on.
  abbrev pub InSequence : ℕ → List (Evidence D) → Type 0
  InSequence n [] = Unit
  InSequence n (e ∷ es) = (e.sequence ≡ n) × InSequence (suc n) es

  InSequence-append :
      (n : ℕ) (es : List (Evidence D)) (e : Evidence D)
      → e.sequence ≡ n + length es
      → InSequence n es
      → InSequence n (es ++ (e ∷ []))
  InSequence-append n [] e h k = (omega (arith, h), tt)
  InSequence-append n (x ∷ es) e h (first, rest) =
      (first, InSequence-append (suc n) es e (omega (arith, h)) rest)

  store_call-InSequence :
      (c : StoreCall D) (s : EvidenceStore D)
      → InSequence 1 s.items
      → InSequence 1 (store_call c s).items
  unfolding store_call
  store_call-InSequence (appends kind origin content) s h =
      append-keeps (λ r. InSequence 1 (kept r s).items) kind origin content s h h
        (λ _ _. InSequence-append 1 s.items (next_item s kind origin content) (omega arith) h)
  store_call-InSequence freezes s h = h

  store_calls-InSequence :
      (cs : List (StoreCall D)) (s : EvidenceStore D)
      → InSequence 1 s.items
      → InSequence 1 (store_calls cs s).items
  unfolding store_calls
  store_calls-InSequence [] s h = h
  store_calls-InSequence (c ∷ cs) s h =
      store_calls-InSequence cs (store_call c s) (store_call-InSequence c s h)

  -- A new store numbers its evidence 1, 2, 3 and so on, whatever calls are refused between.
  pub store_calls-new_store :
      (cs : List (StoreCall D)) (run_id : String)
      → InSequence 1 (store_calls cs (new_store run_id)).items
  store_calls-new_store cs run_id = store_calls-InSequence cs (new_store run_id) tt
