-- ===== src/Leases/Effects.antt =====
-- What `acquire` and `release` do to the leases, key by key.
use zzt_self.Base.{
  ◌≡◌, refl, ap, ◌∙◌, inl, inr, Bool, true, false, not, ◌&&◌, List, [], ◌∷◌, ◌++◌, arith,
  if◌then◌else◌, Bool-cases, All, same_text, same_text_iff,
}
use Prim.Native.String.{String}
use mathlib.Core.Path.{subst}
use zzt_self.Base.Dict.{insert, erase, pair_key, lookup-insert, lookup-erase}
use zzt_self.Leases.{
  Lease, DeviceSpec, ResourceKey, Leases, granted, leases_at, any_exclusive, key_of, lease_for,
  add_lease, acquire, without_holder, release,
}

-- A request fits beside the leases that there are.
abbrev pub fits : DeviceSpec → List Lease → Bool
fits spec [] = true
fits spec (l ∷ ls) = spec.shared && not (any_exclusive (l ∷ ls))

abbrev pub same_resource : ResourceKey → ResourceKey → Bool
same_resource = pair_key.same_key

leases_at-insert :
    (k j : ResourceKey) (ls : List Lease) (s : Leases)
    → leases_at j (insert k ls s) ≡ (if same_resource k j then ls else leases_at j s)
unfolding leases_at
leases_at-insert k j ls s = ground (arith, lookup-insert k j ls s)

leases_at-erase :
    (k j : ResourceKey) (s : Leases)
    → leases_at j (erase k s) ≡ (if same_resource k j then [] else leases_at j s)
unfolding leases_at
leases_at-erase k j s = ground (arith, lookup-erase k j s)

pub leases_at-same :
    (k j : ResourceKey) (s : Leases) → same_resource k j ≡ true → leases_at k s ≡ leases_at j s
leases_at-same k j s h = ap (λ i. leases_at i s) ((pair_key.same_key_iff k j).0 h)

pub acquire-fits :
    (spec : DeviceSpec) (holder : String) (s : Leases)
    → fits spec (leases_at (key_of spec) s) ≡ true
    → acquire spec holder s
      ≡ (granted (lease_for spec holder), add_lease (key_of spec) (lease_for spec holder) s)
unfolding acquire
acquire-fits spec holder s h = ground (arith, h)

pub acquire-refused :
    (spec : DeviceSpec) (holder : String) (s : Leases)
    → fits spec (leases_at (key_of spec) s) ≡ false
    → (acquire spec holder s).1 ≡ s
unfolding acquire
acquire-refused spec holder s h = ground (arith, h)

-- The leases at every key after `acquire`: one more at the key asked for, if the request fits, and
-- no change elsewhere.
pub leases_at-acquire :
    (spec : DeviceSpec) (holder : String) (s : Leases) (j : ResourceKey)
    → leases_at j (acquire spec holder s).1 ≡ (
        if same_resource (key_of spec) j && fits spec (leases_at (key_of spec) s)
        then leases_at j s ++ (lease_for spec holder ∷ [])
        else leases_at j s)
leases_at-acquire spec holder s j =
    let k = key_of spec in
    let lease = lease_for spec holder in
    elim (Bool-cases (fits spec (leases_at k s))) [
      | inl f ↦
          ap (λ r. leases_at j r.1) (acquire-fits spec holder s f)
          ∙ ground (
            arith,
            f,
            leases_at-insert k j (leases_at k s ++ (lease ∷ [])) s,
            leases_at-same k j s,
          )
      | inr f ↦ ap (leases_at j) (acquire-refused spec holder s f) ∙ ground (arith, f)
    ]

-- What `release` leaves, from the leases found and those kept.
abbrev pub released : ResourceKey → Leases → List Lease → List Lease → Leases
released key s [] kept = s
released key s (l ∷ ls) [] = erase key s
released key s (l ∷ ls) (k ∷ ks) = insert key (k ∷ ks) s

pub release-eq :
    (key : ResourceKey) (holder : String) (s : Leases)
    → release key holder s
      ≡ released key s (leases_at key s) (without_holder holder (leases_at key s))
unfolding release
release-eq key holder s = ground arith

leases_at-released :
    (key j : ResourceKey) (holder : String) (s : Leases) (found kept : List Lease)
    → leases_at key s ≡ found
    → without_holder holder found ≡ kept
    → leases_at j (released key s found kept)
      ≡ (if same_resource key j then kept else leases_at j s)
unfolding without_holder
leases_at-released key j holder s [] kept h k = ground (arith, h, k, leases_at-same key j s)
leases_at-released key j holder s (l ∷ ls) [] h k = leases_at-erase key j s
leases_at-released key j holder s (l ∷ ls) (m ∷ ms) h k = leases_at-insert key j (m ∷ ms) s

kept-same :
    (k j : ResourceKey) (holder : String) (s : Leases)
    → same_resource k j ≡ true
    → without_holder holder (leases_at k s) ≡ without_holder holder (leases_at j s)
kept-same k j holder s h = ap (without_holder holder) (leases_at-same k j s h)

-- The leases at every key after `release`: those of the holder are gone at the key released.
pub leases_at-release :
    (key : ResourceKey) (holder : String) (s : Leases) (j : ResourceKey)
    → leases_at j (release key holder s)
      ≡ (if same_resource key j then without_holder holder (leases_at j s) else leases_at j s)
leases_at-release key holder s j =
    ap (leases_at j) (release-eq key holder s)
    ∙ leases_at-released key j holder s (leases_at key s) (without_holder holder (leases_at key s))
        refl refl
    ∙ ground (arith, kept-same key j holder s)

without_holder_idem :
    (holder : String) (ls : List Lease)
    → without_holder holder (without_holder holder ls) ≡ without_holder holder ls
unfolding without_holder
without_holder_idem holder [] = refl
without_holder_idem holder (l ∷ ls) = ground (arith, without_holder_idem holder ls)

-- Releasing twice is releasing once, at every key.
pub release-release :
    (key : ResourceKey) (holder : String) (s : Leases) (j : ResourceKey)
    → leases_at j (release key holder (release key holder s)) ≡ leases_at j (release key holder s)
release-release key holder s j =
    leases_at-release key holder (release key holder s) j
    ∙ ground (arith, leases_at-release key holder s j, without_holder_idem holder (leases_at j s))

-- No lease of `holder`.
abbrev pub NotHeldBy : String → List Lease → Type 0
NotHeldBy holder = All (λ l. same_text l.holder holder ≡ false)

without_holder-snoc :
    (holder : String) (l : Lease) (ls : List Lease)
    → same_text l.holder holder ≡ true
    → NotHeldBy holder ls
    → without_holder holder (ls ++ (l ∷ [])) ≡ ls
unfolding without_holder
without_holder-snoc holder l [] h n = rw h refl
without_holder-snoc holder l (m ∷ ls) h n =
    ground (arith, n.0, without_holder-snoc holder l ls h n.1)

without_holder-NotHeldBy :
    (holder : String) (ls : List Lease) → NotHeldBy holder ls → without_holder holder ls ≡ ls
unfolding without_holder
without_holder-NotHeldBy holder [] n = refl
without_holder-NotHeldBy holder (m ∷ ls) n =
    ground (arith, n.0, without_holder-NotHeldBy holder ls n.1)

-- A holder that has nothing at a key and acquires it, with whatever answer, and releases it leaves
-- the leases at every key as they were.
pub release-acquire :
    (spec : DeviceSpec) (holder : String) (s : Leases) (j : ResourceKey)
    → NotHeldBy holder (leases_at (key_of spec) s)
    → leases_at j (release (key_of spec) holder (acquire spec holder s).1) ≡ leases_at j s
release-acquire spec holder s j free =
    let k = key_of spec in
    let self : same_text holder holder ≡ true = (same_text_iff holder holder).1 refl in
    leases_at-release k holder (acquire spec holder s).1 j ∙ elim (Bool-cases (same_resource k j)) [
      | inr d ↦ ground (arith, d, leases_at-acquire spec holder s j)
      | inl e ↦
          let here : NotHeldBy holder (leases_at j s) =
            subst (NotHeldBy holder) (leases_at-same k j s e) free in
          ground (
            arith,
            e,
            leases_at-acquire spec holder s j,
            without_holder-snoc holder (lease_for spec holder) (leases_at j s) self here,
            without_holder-NotHeldBy holder (leases_at j s) here,
          )
    ]
