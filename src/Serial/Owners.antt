-- ===== src/Serial/Owners.antt =====
-- What keeps the two tables of the registry in agreement.
use zzt_self.Base.{
  ◌≡◌, refl, sym, ap, ◌∙◌, ◌⊎◌, inl, inr, false, none, some, List, arith, Bool-cases, Option-cases,
  same, same_text, same_text_iff, has_text,
}
use Prim.Native.String.{String}
use mathlib.Core.Path.{subst}
use mathlib.Core.Option.{some-injective}
use zzt_self.Base.Dict.{
  lookup, insert, erase, retain, text_key, lookup-insert, lookup-erase, lookup-retain, kept-some,
  Distinct, Distinct-retain,
}
use zzt_self.Serial.{
  Texts, Request, Reservation, Registry, reservation, keys_of, first_conflict, put_keys,
  reserve_keys, reserve, not_owned_by,
}
use zzt_self.Serial.Effects.{Table, lookup-put_keys, Distinct-put_keys, first_conflict-owner}

-- The two tables agree.
pub record WellFormed (s : Registry) : Type 0 where
  pub distinct : Distinct s.by_key
  pub named : (o : String) (r : Reservation) → lookup o s.by_owner ≡ some r → r.owner_id ≡ o
  pub known :
      (k : String) (r : Reservation)
      → lookup k s.by_key ≡ some r
      → lookup r.owner_id s.by_owner ≡ some r

abbrev granted : String → List String → Reservation → Registry → Registry
granted owner keys r s = record {
  by_key = put_keys r keys s.by_key;
  by_owner = insert owner r s.by_owner;
}

-- Nothing changes, or the owner is new and every key is free or its own.
reserve_keys-cases :
    (owner : String) (keys : List String) (r : Reservation) (s : Registry)
    → ((reserve_keys owner keys r s).1 ≡ s)
      ⊎ ((lookup owner s.by_owner ≡ none)
          × (first_conflict owner keys s.by_key ≡ none)
          × ((reserve_keys owner keys r s).1 ≡ granted owner keys r s))
unfolding reserve_keys
reserve_keys-cases owner keys r s = elim (Option-cases (lookup owner s.by_owner)) [
  | inr (previous, e) ↦ inl (ground (arith, e))
  | inl e ↦ elim (Option-cases (first_conflict owner keys s.by_key)) [
    | inr (existing, f) ↦ inl (rw (e, f, reserve_keys) refl)
    | inl f ↦ inr (e, f, rw (e, f, reserve_keys) refl)
  ]
]

-- A key that is owned does not go to a new owner.
granted-kept :
    (owner : String) (keys : List String) (r : Reservation) (s : Registry)
    → WellFormed s
    → lookup owner s.by_owner ≡ none
    → first_conflict owner keys s.by_key ≡ none
    → (k : String) (q : Reservation) → lookup k s.by_key ≡ some q
    → has_text k keys ≡ false
granted-kept owner keys r s w e f k q h = elim (Bool-cases (has_text k keys)) [
  | inr no_key ↦ no_key
  | inl m ↦
      let own : q.owner_id ≡ owner = first_conflict-owner owner keys s.by_key k q f m h in
      let there : lookup owner s.by_owner ≡ some q =
        subst (λ o. lookup o s.by_owner ≡ some q) own (w.known k q h) in
      cc (e, there)
]

by_owner-insert :
    (owner o : String) (r q : Reservation) (d : Table)
    → r.owner_id ≡ owner
    → lookup o (insert owner r d) ≡ some q
    → (q.owner_id ≡ o) ⊎ (lookup o d ≡ some q)
unfolding text_key
by_owner-insert owner o r q d own h = elim (Bool-cases (same_text owner o)) [
  | inl e ↦
      let here : r ≡ q = some-injective r q (ground (arith, h, e, lookup-insert owner o r d)) in
      inl (cc (own, (same_text_iff owner o).0 e, ap (λ x. x.owner_id) here))
  | inr e ↦ inr (ground (arith, h, e, lookup-insert owner o r d))
]

lookup-insert_self :
    (owner : String) (r : Reservation) (d : Table) → lookup owner (insert owner r d) ≡ some r
unfolding text_key
lookup-insert_self owner r d =
    ground (arith, lookup-insert owner owner r d, (same_text_iff owner owner).1 refl)

lookup-insert_other :
    (owner o : String) (r q : Reservation) (d : Table)
    → lookup owner d ≡ none
    → lookup o d ≡ some q
    → lookup o (insert owner r d) ≡ some q
unfolding text_key
lookup-insert_other owner o r q d e h = elim (Bool-cases (same_text owner o)) [
  | inl m ↦ cc (e, h, ap (λ x. lookup x d) ((same_text_iff owner o).0 m))
  | inr m ↦ ground (arith, h, m, lookup-insert owner o r d)
]

by_key-put_keys :
    (keys : List String) (k : String) (r q : Reservation) (d : Table)
    → lookup k (put_keys r keys d) ≡ some q
    → (r ≡ q) ⊎ (lookup k d ≡ some q)
by_key-put_keys keys k r q d h = elim (Bool-cases (has_text k keys)) [
  | inl m ↦ inl (some-injective r q (ground (arith, h, m, lookup-put_keys r keys d k)))
  | inr m ↦ inr (ground (arith, h, m, lookup-put_keys r keys d k))
]

granted-WellFormed :
    (owner : String) (keys : List String) (r : Reservation) (s : Registry)
    → r.owner_id ≡ owner
    → WellFormed s
    → lookup owner s.by_owner ≡ none
    → first_conflict owner keys s.by_key ≡ none
    → WellFormed (granted owner keys r s)
granted-WellFormed owner keys r s own w e f = record {
  distinct = Distinct-put_keys r keys s.by_key w.distinct;
  named = λ o q h. elim (by_owner-insert owner o r q s.by_owner own h) [
    | inl n ↦ n
    | inr old ↦ w.named o q old
  ];
  known = λ k q h. elim (by_key-put_keys keys k r q s.by_key h) [
    | inl here ↦
        subst (λ x. lookup x.owner_id (insert owner r s.by_owner) ≡ some x) here
          (ap (λ o. lookup o (insert owner r s.by_owner)) own
            ∙ lookup-insert_self owner r s.by_owner)
    | inr old ↦ lookup-insert_other owner q.owner_id r q s.by_owner e (w.known k q old)
  ];
}

pub reserve_keys-WellFormed :
    (owner : String) (keys : List String) (r : Reservation) (s : Registry)
    → r.owner_id ≡ owner
    → WellFormed s
    → WellFormed (reserve_keys owner keys r s).1
reserve_keys-WellFormed owner keys r s own w = elim (reserve_keys-cases owner keys r s) [
  | inl same ↦ subst WellFormed (sym same) w
  | inr (e, f, g) ↦ subst WellFormed (sym g) (granted-WellFormed owner keys r s own w e f)
]

pub lookup-reserve_keys :
    (owner : String) (keys : List String) (new : Reservation) (s : Registry) (k : String)
    (r : Reservation)
    → WellFormed s
    → lookup k s.by_key ≡ some r
    → lookup k (reserve_keys owner keys new s).1.by_key ≡ some r
lookup-reserve_keys owner keys new s k r w h = elim (reserve_keys-cases owner keys new s) [
  | inl same ↦ ap (λ t. lookup k t.by_key) same ∙ h
  | inr (e, f, g) ↦
      let untouched : has_text k keys ≡ false = granted-kept owner keys new s w e f k r h in
      ap (λ t. lookup k t.by_key) g
      ∙ ground (arith, h, untouched, lookup-put_keys new keys s.by_key k)
]

-- Who has no reservation owns no key.
pub no_owner-no_key :
    (owner k : String) (r : Reservation) (s : Registry)
    → WellFormed s
    → lookup owner s.by_owner ≡ none
    → lookup k s.by_key ≡ some r
    → same_text r.owner_id owner ≡ false
no_owner-no_key owner k r s w e h = elim (Bool-cases (same_text r.owner_id owner)) [
  | inr d ↦ d
  | inl m ↦
      cc (e, w.known k r h, ap (λ o. lookup o s.by_owner) ((same_text_iff r.owner_id owner).0 m))
]

abbrev pub without_owner : String → Registry → Registry
without_owner owner s = record {
  by_key = retain (not_owned_by owner) s.by_key;
  by_owner = erase owner s.by_owner;
}

lookup-kept :
    (owner k : String) (q : Reservation) (s : Registry)
    → WellFormed s
    → lookup k (retain (not_owned_by owner) s.by_key) ≡ some q
    → (lookup k s.by_key ≡ some q) × (same_text q.owner_id owner ≡ false)
lookup-kept owner k q s w h =
    let (there, pass) =
      kept-some (not_owned_by owner) (lookup k s.by_key) q
        (sym (lookup-retain (not_owned_by owner) k s.by_key w.distinct) ∙ h) in
    (there, ground (arith, pass))

lookup-erase_other :
    (owner o : String) (q : Reservation) (d : Table)
    → same_text owner o ≡ false
    → lookup o d ≡ some q
    → lookup o (erase owner d) ≡ some q
unfolding text_key
lookup-erase_other owner o q d m h = ground (arith, m, h, lookup-erase owner o d)

lookup-erase-some :
    (owner o : String) (q : Reservation) (d : Table)
    → lookup o (erase owner d) ≡ some q
    → lookup o d ≡ some q
unfolding text_key
lookup-erase-some owner o q d h = ground (arith, h, lookup-erase owner o d)

pub without_owner-WellFormed :
    (owner : String) (s : Registry) → WellFormed s → WellFormed (without_owner owner s)
without_owner-WellFormed owner s w = record {
  distinct = Distinct-retain (not_owned_by owner) s.by_key w.distinct;
  named = λ o r h. w.named o r (lookup-erase-some owner o r s.by_owner h);
  known = λ k q h.
      let (there, other) = lookup-kept owner k q s w h in
      let differ : same_text owner q.owner_id ≡ false =
        ground (arith, other, same_text_iff owner q.owner_id, same_text_iff q.owner_id owner) in
      lookup-erase_other owner q.owner_id q s.by_owner differ (w.known k q there);
}

-- `reserve` either changes nothing or is `reserve_keys`.
pub reserve-cases :
    (texts : Texts) (q : Request) (s : Registry)
    → ((reserve texts q s).1 ≡ s)
      ⊎ (reserve texts q s
          ≡ reserve_keys
              (texts.strip q.owner_id)
              (keys_of texts q.resource_id q.aliases)
              (reservation texts (texts.strip q.owner_id) q)
              s)
unfolding reserve
reserve-cases texts q s = ground arith
