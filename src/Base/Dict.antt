-- ===== src/Base/Dict.antt =====
-- A Python dict in insertion order, for every type of keys whose equality can be tested.
use Prim.Native.String.{String}
use mathlib.Core.Path.{◌≡◌, refl, sym, ap, ◌∙◌}
use mathlib.Core.Logic.{◌↔◌, inl, inr}
use mathlib.Core.Bool.{Bool, true, false, ◌&&◌}
use mathlib.Core.Option.{Option, none, some, some-injective}
use mathlib.Core.List.{List, [], ◌∷◌}
use native.Mathlib.Omega.{arith}
use zzt_self.Base.Tests.{if◌then◌else◌, Bool-cases, ◌==◌, ==_iff}
use Prim.Native.Nat.{ℕ}
use zzt_self.Base.Texts.{same_text, same_text_iff}

pub record Key {ℓ} (K : Type ℓ) : Type ℓ where
  pub same_key : K → K → Bool
  pub same_key_iff : (a b : K) → (same_key a b ≡ true) ↔ (a ≡ b)

instance unfoldable pub text_key : Key String
text_key = record { same_key = same_text; same_key_iff = same_text_iff }

pub pair_iff : (a b : String × String) → ((same_text a.0 b.0 && same_text a.1 b.1) ≡ true) ↔ (a ≡ b)
pair_iff (a, x) (b, y) = ground (arith, same_text_iff a b, same_text_iff x y)

instance unfoldable pub pair_key : Key (String × String)
pair_key = record {
  same_key = λ a b. same_text a.0 b.0 && same_text a.1 b.1;
  same_key_iff = pair_iff;
}

instance unfoldable pub number_key : Key ℕ
number_key = record { same_key = λ a b. a == b; same_key_iff = ==_iff }

module _ {ℓ κ} {K : Type ℓ} {V : Type κ} ⦃key : Key K⦄ where
  -- `d.get(k)`
  abbrev pub lookup : K → List (K × V) → Option V
  lookup k [] = none
  lookup k ((j, v) ∷ d) = if key.same_key j k then some v else lookup k d

  -- `d[k] = v`
  abbrev pub insert : K → V → List (K × V) → List (K × V)
  insert k v [] = (k, v) ∷ []
  insert k v ((j, w) ∷ d) = if key.same_key j k then (j, v) ∷ d else (j, w) ∷ insert k v d

  -- `d.pop(k, None)`; no key stands twice, so that taking all is taking one.
  abbrev pub erase : K → List (K × V) → List (K × V)
  erase k [] = []
  erase k ((j, w) ∷ d) = if key.same_key j k then erase k d else (j, w) ∷ erase k d

  pub lookup-insert :
      (k j : K) (v : V) (d : List (K × V))
      → lookup j (insert k v d) ≡ (if key.same_key k j then some v else lookup j d)
  lookup-insert k j v [] = refl
  lookup-insert k j v ((i, w) ∷ d) = ground (
    arith,
    key.same_key_iff i k,
    key.same_key_iff i j,
    key.same_key_iff k j,
    lookup-insert k j v d,
  )

  pub lookup-erase :
      (k j : K) (d : List (K × V))
      → lookup j (erase k d) ≡ (if key.same_key k j then none else lookup j d)
  lookup-erase k j [] = ground arith
  lookup-erase k j ((i, w) ∷ d) =
      ground (
        arith,
        key.same_key_iff i k,
        key.same_key_iff i j,
        key.same_key_iff k j,
        lookup-erase k j d,
      )

pub same_key_refl {ℓ} : {K : Type ℓ} ⦃key : Key K⦄ (k : K) → key.same_key k k ≡ true
same_key_refl ⦃key⦄ k = (key.same_key_iff k k).1 refl

-- The value, if it passes.
abbrev pub kept {κ} : {V : Type κ} → (V → Bool) → Option V → Option V
kept p none = none
kept p (some v) = if p v then some v else none

pub kept-some {κ} :
    {V : Type κ} (p : V → Bool) (o : Option V) (v : V)
    → kept p o ≡ some v
    → (o ≡ some v) × (p v ≡ true)
kept-some p none v h = cc
kept-some p (some w) v h = elim (Bool-cases (p w)) [
  | inl e ↦
      let same : some w ≡ some v = ground (arith, e, h) in
      (same, ap p (sym (some-injective w v same)) ∙ e)
  | inr e ↦ ground (arith, e, h)
]

abbrev pub is_none {ℓ} : {A : Type ℓ} → Option A → Bool
is_none none = true
is_none (some a) = false

module _ {ℓ κ} {K : Type ℓ} {V : Type κ} ⦃key : Key K⦄ where
  -- No key stands twice.
  abbrev pub Distinct : List (K × V) → Type 0
  Distinct [] = Unit
  Distinct ((k, v) ∷ d) = (is_none (lookup k d) ≡ true) × Distinct d

  -- The entries whose value passes.
  abbrev pub retain : (V → Bool) → List (K × V) → List (K × V)
  retain p [] = []
  retain p ((k, v) ∷ d) = if p v then (k, v) ∷ retain p d else retain p d

  is_none-lookup :
      (j k : K) (d : List (K × V))
      → key.same_key j k ≡ true
      → is_none (lookup j d) ≡ is_none (lookup k d)
  is_none-lookup j k d h = ap (λ i. is_none (lookup i d)) ((key.same_key_iff j k).0 h)

  is_none-retain :
      (p : V → Bool) (j : K) (d : List (K × V))
      → is_none (lookup j d) ≡ true
      → is_none (lookup j (retain p d)) ≡ true
  is_none-retain p j [] h = refl
  is_none-retain p j ((k, v) ∷ d) h = ground (arith, h, is_none-retain p j d)

  pub Distinct-retain : (p : V → Bool) (d : List (K × V)) → Distinct d → Distinct (retain p d)
  Distinct-retain p [] h = tt
  Distinct-retain p ((k, v) ∷ d) h =
      ground (arith, h.0, is_none-retain p k d h.0, Distinct-retain p d h.1)

  pub lookup-retain :
      (p : V → Bool) (j : K) (d : List (K × V))
      → Distinct d
      → lookup j (retain p d) ≡ kept p (lookup j d)
  lookup-retain p j [] h = refl
  lookup-retain p j ((k, v) ∷ d) h = elim (Bool-cases (key.same_key k j)) [
    | inr e ↦ ground (arith, e, lookup-retain p j d h.1)
    | inl e ↦
        let gone : is_none (lookup j d) ≡ true = sym (is_none-lookup k j d e) ∙ h.0 in
        ground (arith, e, gone, lookup-retain p j d h.1)
  ]

  pub Distinct-insert : (k : K) (v : V) (d : List (K × V)) → Distinct d → Distinct (insert k v d)
  Distinct-insert k v [] h = (refl, tt)
  Distinct-insert k v ((j, w) ∷ d) h = ground (
    arith,
    h.0,
    h.1,
    key.same_key_iff j k,
    key.same_key_iff k j,
    lookup-insert k j v d,
    Distinct-insert k v d h.1,
  )

  is_none-erase :
      (k j : K) (d : List (K × V))
      → is_none (lookup j d) ≡ true
      → is_none (lookup j (erase k d)) ≡ true
  is_none-erase k j d h = ground (arith, h, lookup-erase k j d)

  pub Distinct-erase : (k : K) (d : List (K × V)) → Distinct d → Distinct (erase k d)
  Distinct-erase k [] h = tt
  Distinct-erase k ((j, v) ∷ d) h =
      ground (arith, h.0, h.1, is_none-erase k j d h.0, Distinct-erase k d h.1)

  pub lookup-head : (k : K) (v : V) (d : List (K × V)) → lookup k ((k, v) ∷ d) ≡ some v
  lookup-head k v d = rw (same_key_refl k) refl

  pub lookup-tail :
      (k j : K) (v w : V) (d : List (K × V))
      → Distinct ((k, v) ∷ d)
      → lookup j d ≡ some w
      → lookup j ((k, v) ∷ d) ≡ some w
  lookup-tail k j v w d h e = elim (Bool-cases (key.same_key k j)) [
    | inr m ↦ rw m e
    | inl m ↦ cc (is_none-lookup k j d m, h.0, ap is_none e)
  ]
