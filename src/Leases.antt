-- ===== src/Leases.antt =====
-- `ResourceLeaseManager`, libs/test_automation/resource_lease.py: who holds which resource.
pub mod Safety
pub mod Effects
use zzt_self.Base.{
  ℕ, zero, suc, ◌+◌, ◌-◌, ◌*◌, ◌/◌, ◌%◌, ◌^◌, ◌≤◌, ◌<◌, min, max, ◌≡◌, refl, sym, ap, ◌∙◌, ◌≢◌, ◌↔◌,
  ◌⊎◌, inl, inr, Bool, true, false, not, ◌&&◌, ◌||◌, Option, none, some, List, [], ◌∷◌, ◌++◌, map,
  append-nil, append_assoc, arith, ltb, leb, ◌==◌, if◌then◌else◌, ltb→lt, lt→ltb, leb→le, le→leb,
  ==_iff, ==_refl, Bool-cases, Option-cases, take_front, drop_front, &&_true, not-eq-true, Bytes,
  length, get_elem?, take, drop, replicate, All, length-append, take-append-drop,
  take-length-append, drop-length-append, length-take, length-drop, length-replicate, All-append,
  sum, mem, sum-append, when, and_then, when-eq-some, and_then-eq-some, holds_under, holds_under_at,
  get_elem?-lt, take-length, get_elem?-append, drop-length, same, same_refl, drop-drop, take_all,
  same_text, same_text_iff, text_or, is_text, digit, digits, decimal, numbered,
}
use Prim.Native.String.{String}
use zzt_self.Base.Dict.{lookup, insert, erase, pair_key}

pub record Lease : Type 0 where
  pub resource_type : String
  pub resource_id : String
  pub holder : String
  pub shared : Bool

-- The fields of a `DeviceSpec` that `acquire` reads.
pub record DeviceSpec : Type 0 where
  pub resource_type : String
  pub resource_id : String
  pub shared : Bool

abbrev pub ResourceKey : Type 0
ResourceKey = String × String

-- `_leases`
abbrev pub Leases : Type 0
Leases = List (ResourceKey × List Lease)

-- The lease, or the holder that `ResourceConflictError` names.
pub data Answer : Type 0 where
  granted : Lease → Answer
  conflict : String → Answer

-- `_leases.get(key, [])`
unfoldable pub leases_at : ResourceKey → Leases → List Lease
leases_at key s = elim (lookup key s) [ none ↦ [] | some ls ↦ ls ]

-- `any(not lease.shared for lease in existing)`
abbrev pub any_exclusive : List Lease → Bool
any_exclusive [] = false
any_exclusive (l ∷ ls) = not l.shared || any_exclusive ls

abbrev pub key_of : DeviceSpec → ResourceKey
key_of spec = (spec.resource_type, spec.resource_id)

abbrev pub lease_for : DeviceSpec → String → Lease
lease_for spec holder = record {
  resource_type = spec.resource_type;
  resource_id = spec.resource_id;
  holder = holder;
  shared = spec.shared;
}

-- `setdefault(key, []).append(lease)`
abbrev pub add_lease : ResourceKey → Lease → Leases → Leases
add_lease key lease s = insert key (leases_at key s ++ (lease ∷ [])) s

-- `acquire`: the answer, and the leases after the call.
unfoldable pub acquire : DeviceSpec → String → Leases → Answer × Leases
unfolding leases_at
acquire spec holder s =
    let lease = lease_for spec holder in
    elim (leases_at (key_of spec) s) [
      | [] ↦ (granted lease, add_lease (key_of spec) lease s)
      | l ∷ ls ↦
          if not spec.shared
          then (conflict l.holder, s)
          else if any_exclusive (l ∷ ls)
          then (conflict l.holder, s)
          else (granted lease, add_lease (key_of spec) lease s)
    ]

-- `[lease for lease in leases if lease.holder != holder]`
unfoldable pub without_holder : String → List Lease → List Lease
without_holder holder [] = []
without_holder holder (l ∷ ls) =
    if same_text l.holder holder then without_holder holder ls else l ∷ without_holder holder ls

unfoldable pub release : ResourceKey → String → Leases → Leases
unfolding leases_at without_holder
release key holder s = elim (leases_at key s) [
  | [] ↦ s
  | l ∷ ls ↦ elim (without_holder holder (l ∷ ls)) [
    | [] ↦ erase key s
    | k ∷ ks ↦ insert key (k ∷ ks) s
  ]
]

unfoldable pub is_held : ResourceKey → Leases → Bool
is_held key s = elim (lookup key s) [ none ↦ false | some ls ↦ true ]

unfoldable pub list_leases : Leases → List Lease
list_leases [] = []
list_leases ((k, ls) ∷ s) = ls ++ list_leases s
