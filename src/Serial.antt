-- ===== src/Serial.antt =====
-- `SerialResourceRegistry`, libs/shared/serial_resources.py: which backend session owns a serial port.
-- Every call holds the registry's lock, so that the calls of all threads are one sequence. The text
-- functions `strip` and `casefold` of Python are parameters.
pub mod Owners
pub mod Calls
pub mod Effects
use zzt_self.Base.{
  ℕ, zero, suc, ◌+◌, ◌-◌, ◌*◌, ◌/◌, ◌%◌, ◌^◌, ◌≤◌, ◌<◌, min, max, ◌≡◌, refl, sym, ap, ◌∙◌, ◌≢◌, ◌↔◌,
  ◌⊎◌, inl, inr, Bool, true, false, not, ◌&&◌, ◌||◌, Option, none, some, List, [], ◌∷◌, ◌++◌, map,
  append-nil, append_assoc, arith, ltb, leb, ◌==◌, if◌then◌else◌, ltb→lt, lt→ltb, leb→le, le→leb,
  ==_iff, ==_refl, Bool-cases, Option-cases, take_front, drop_front, &&_true, not-eq-true, Bytes,
  length, get_elem?, take, drop, replicate, All, length-append, take-append-drop,
  take-length-append, drop-length-append, length-take, length-drop, length-replicate, All-append,
  sum, mem, sum-append, when, and_then, when-eq-some, and_then-eq-some, holds_under, holds_under_at,
  get_elem?-lt, take-length, get_elem?-append, drop-length, same, same_refl, drop-drop, take_all,
  same_text, same_text_iff, text_or, is_text, digit, digits, decimal, join, numbered,
}
use Prim.Native.Nat.{Ordering}
use Prim.Native.String.{String, compare, slice, len}
use text.Mathlib.Text
use zzt_self.Base.Dict.{lookup, insert, erase, retain, text_key}

-- `str.strip`, `str.casefold`, and the removal of `\\?\` by `str.replace`.
pub record Texts : Type 0 where
  pub strip : String → String
  pub without_marks : String → String
  pub casefold : String → String

pub record Reservation : Type 0 where
  pub owner_id : String
  pub owner_label : String
  pub resource_id : String
  pub aliases : List String

-- `_by_key` and `_by_owner`.
pub record Registry : Type 0 where
  pub by_key : List (String × Reservation)
  pub by_owner : List (String × Reservation)

-- The arguments of `reserve`.
pub record Request : Type 0 where
  pub owner_id : String
  pub label : String
  pub resource_id : String
  pub aliases : List String

pub data Answer : Type 0 where
  reserved : Reservation → Answer
  no_owner no_key holds_others : Answer
  conflict : Reservation → Answer

-- The prefix of a device path, `\\.\`, taken off.
abbrev pub without_prefix : String → String
without_prefix s = if Text.starts_with s "\\\\.\\" then slice s 4 (len s) else s

abbrev pub normalise_alias : Texts → String → String
normalise_alias texts s = texts.casefold (texts.without_marks (without_prefix (texts.strip s)))

-- One element of `sorted(set(...))`: texts in the order of their code points, none twice.
abbrev pub insert_text : String → List String → List String
insert_text s [] = s ∷ []
insert_text s (t ∷ ts) = elim (compare s t) [
  | Ordering.lt ↦ s ∷ (t ∷ ts)
  | Ordering.eq ↦ t ∷ ts
  | Ordering.gt ↦ t ∷ insert_text s ts
]

-- The set of the texts that are not empty, after `f`, as a sorted list.
unfoldable pub text_set : (String → String) → String → List String → List String
text_set f prefix [] = []
text_set f prefix (s ∷ ss) =
    let rest = text_set f prefix ss in
    if same_text (f s) "" then rest else insert_text (join prefix (f s)) rest

-- `_keys`; the empty list stands for the `ValueError`.
unfoldable pub keys_of : Texts → String → List String → List String
unfolding text_set
keys_of texts resource_id aliases =
    let name = normalise_alias texts resource_id in
    let ports = text_set (normalise_alias texts) "port:" aliases in
    if same_text name "" then ports else insert_text (join "mapping:" name) ports

abbrev pub reservation : Texts → String → Request → Reservation
reservation texts owner q = record {
  owner_id = owner;
  owner_label = text_or q.label owner;
  resource_id = q.resource_id;
  aliases = text_set texts.strip "" q.aliases;
}

-- `{key for key, item in self._by_key.items() if item.owner_id == owner_id}`
unfoldable pub owned_keys : String → List (String × Reservation) → List String
owned_keys owner [] = []
owned_keys owner ((k, r) ∷ d) =
    if same_text r.owner_id owner then insert_text k (owned_keys owner d) else owned_keys owner d

abbrev pub same_texts : List String → List String → Bool
same_texts [] [] = true
same_texts (s ∷ ss) (t ∷ ts) = same_text s t && same_texts ss ts
same_texts _ _ = false

-- The loop over the keys: the first that another session owns.
unfoldable pub first_conflict :
    String → List String → List (String × Reservation) → Option Reservation
first_conflict owner [] d = none
first_conflict owner (k ∷ ks) d = elim (lookup k d) [
  | none ↦ first_conflict owner ks d
  | some r ↦ if same_text r.owner_id owner then first_conflict owner ks d else some r
]

abbrev pub put_keys :
    Reservation → List String → List (String × Reservation) → List (String × Reservation)
put_keys r [] d = d
put_keys r (k ∷ ks) d = put_keys r ks (insert k r d)

-- The part of `reserve` under the lock, for an owner and its keys.
unfoldable pub reserve_keys : String → List String → Reservation → Registry → Answer × Registry
unfolding owned_keys first_conflict
reserve_keys owner keys r s = elim (lookup owner s.by_owner) [
  | some previous ↦
      if same_texts (owned_keys owner s.by_key) keys
      then (reserved previous, s)
      else (holds_others, s)
  | none ↦ elim (first_conflict owner keys s.by_key) [
    | some existing ↦ (conflict existing, s)
    | none ↦ (
      reserved r,
      record { by_key = put_keys r keys s.by_key; by_owner = insert owner r s.by_owner },
    )
  ]
]

unfoldable pub reserve : Texts → Request → Registry → Answer × Registry
unfolding reserve_keys keys_of
reserve texts q s =
    let owner = texts.strip q.owner_id in
    let keys = keys_of texts q.resource_id q.aliases in
    if same_text owner "" then (no_owner, s) else elim keys [
      | [] ↦ (no_key, s)
      | k ∷ ks ↦ reserve_keys owner (k ∷ ks) (reservation texts owner q) s
    ]

abbrev pub not_owned_by : String → Reservation → Bool
not_owned_by owner r = not (same_text r.owner_id owner)

-- `release`: whether there was a reservation, and the registry after it.
unfoldable pub release : Texts → String → Registry → Bool × Registry
release texts owner_id s =
    let owner = texts.strip owner_id in
    elim (lookup owner s.by_owner) [
      | none ↦ (false, s)
      | some r ↦ (
        true,
        record { by_key = retain (not_owned_by owner) s.by_key; by_owner = erase owner s.by_owner },
      )
    ]
