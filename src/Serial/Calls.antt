-- ===== src/Serial/Calls.antt =====
-- The registry after any sequence of calls: who owns a key, and who can take it.
use zzt_self.Base.{
  ◌≡◌, refl, sym, ap, ◌∙◌, ◌⊎◌, inl, inr, some, [], arith, Bool-cases, Option-cases, same,
  same_text, same_text_iff,
}
use Prim.Native.String.{String}
use mathlib.Core.Path.{subst}
use zzt_self.Base.Dict.{lookup, text_key, lookup-retain, kept}
use zzt_self.Serial.{
  Texts, Request, Reservation, Registry, reservation, keys_of, reserve, release, not_owned_by,
}
use zzt_self.Serial.Owners.{
  WellFormed, reserve_keys-WellFormed, reserve-cases, lookup-reserve_keys, no_owner-no_key,
  without_owner, without_owner-WellFormed,
}

module _ (texts : Texts) where
  reserve-WellFormed :
      (q : Request) (s : Registry) → WellFormed s → WellFormed (reserve texts q s).1
  reserve-WellFormed q s w = elim (reserve-cases texts q s) [
    | inl same ↦ subst WellFormed (sym same) w
    | inr e ↦ subst WellFormed (ap (λ a. a.1) (sym e)) (reserve_keys-WellFormed _ _ _ s refl w)
  ]

  -- No call of `reserve`, by whomever, takes a key from its owner.
  pub lookup-reserve :
      (q : Request) (s : Registry) (k : String) (r : Reservation)
      → WellFormed s
      → lookup k s.by_key ≡ some r
      → lookup k (reserve texts q s).1.by_key ≡ some r
  lookup-reserve q s k r w h = elim (reserve-cases texts q s) [
    | inl same ↦ ap (λ t. lookup k t.by_key) same ∙ h
    | inr e ↦
        ap (λ a. lookup k a.1.by_key) e
        ∙ lookup-reserve_keys (texts.strip q.owner_id) (keys_of texts q.resource_id q.aliases)
            (reservation texts (texts.strip q.owner_id) q) s k r w h
  ]

  -- After `release` the keys of the owner are free and all others are as before, whether or not
  -- the owner had any.
  pub lookup-release :
      (owner_id : String) (s : Registry) (k : String)
      → WellFormed s
      → lookup k (release texts owner_id s).1.by_key
        ≡ kept (not_owned_by (texts.strip owner_id)) (lookup k s.by_key)
  unfolding release
  lookup-release owner_id s k w =
      let owner = texts.strip owner_id in
      elim (Option-cases (lookup owner s.by_owner)) [
        | inr (r, e) ↦ rw (e, release) (lookup-retain (not_owned_by owner) k s.by_key w.distinct)
        | inl e ↦ elim (Option-cases (lookup k s.by_key)) [
          | inl h ↦ rw (e, h, release) refl
          | inr (r, h) ↦ rw (e, h, release, no_owner-no_key owner k r s w e h) refl
        ]
      ]

  release-cases :
      (owner_id : String) (s : Registry)
      → ((release texts owner_id s).1 ≡ s)
        ⊎ ((release texts owner_id s).1 ≡ without_owner (texts.strip owner_id) s)
  unfolding release
  release-cases owner_id s = ground arith

  release-WellFormed :
      (owner_id : String) (s : Registry) → WellFormed s → WellFormed (release texts owner_id s).1
  release-WellFormed owner_id s w = elim (release-cases owner_id s) [
    | inl same ↦ subst WellFormed (sym same) w
    | inr e ↦ subst WellFormed (sym e) (without_owner-WellFormed (texts.strip owner_id) s w)
  ]

  -- The calls of the sessions, in the order in which they get the lock.
  pub data Call : Registry → Registry → Type 0 where
    reserves : (q : Request) (s : Registry) → Call s (reserve texts q s).1
    releases : (owner_id : String) (s : Registry) → Call s (release texts owner_id s).1

  pub data Reachable : Registry → Type 0 where
    new : Reachable (record { by_key = []; by_owner = [] })
    after : (s t : Registry) → Reachable s → Call s t → Reachable t

  Call-WellFormed : (s t : Registry) → Call s t → WellFormed s → WellFormed t
  Call-WellFormed s _ (reserves q _) w = reserve-WellFormed q s w
  Call-WellFormed s _ (releases owner_id _) w = release-WellFormed owner_id s w

  -- After any calls no key stands twice, every reservation is filed under its owner, and every key
  -- belongs to a reservation that is held.
  pub Reachable-WellFormed : (s : Registry) → Reachable s → WellFormed s
  Reachable-WellFormed _ new = record { distinct = tt; named = λ o r h. cc; known = λ k r h. cc }
  Reachable-WellFormed t (after s _ r c) = Call-WellFormed s t c (Reachable-WellFormed s r)

  -- A call other than its owner's release leaves an owned key with the same reservation.
  pub Call-kept :
      (s t : Registry) (k : String) (r : Reservation)
      → Reachable s
      → Call s t
      → lookup k s.by_key ≡ some r
      → (lookup k t.by_key ≡ some r)
        ⊎ ((owner_id : String) × (texts.strip owner_id ≡ r.owner_id)
            × (t ≡ (release texts owner_id s).1))
  Call-kept s _ k r reach (reserves q _) h =
      inl (lookup-reserve q s k r (Reachable-WellFormed s reach) h)
  Call-kept s _ k r reach (releases owner_id _) h =
      elim (Bool-cases (same_text r.owner_id (texts.strip owner_id))) [
        | inl m ↦ inr (owner_id, sym ((same_text_iff r.owner_id (texts.strip owner_id)).0 m), refl)
        | inr m ↦ inl (lookup-release owner_id s k (Reachable-WellFormed s reach) ∙ rw (h, m) refl)
      ]
