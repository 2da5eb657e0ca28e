-- ===== src/Minute/Cycle.antt =====
-- The statistics of one cycle: the buckets and the counts of `collect_task_statistics`,
-- libs/minute_assert/statistics.py.
pub mod Classes
use zzt_self.Base.{
  ℕ, zero, suc, ◌+◌, ◌-◌, ◌*◌, ◌/◌, ◌%◌, ◌^◌, ◌≤◌, ◌<◌, min, max, ◌≡◌, refl, sym, ap, ◌∙◌, ◌≢◌, ◌↔◌,
  ◌⊎◌, inl, inr, Bool, true, false, not, ◌&&◌, ◌||◌, Option, none, some, List, [], ◌∷◌, ◌++◌, map,
  append-nil, append_assoc, arith, ltb, leb, ◌==◌, if◌then◌else◌, ltb→lt, lt→ltb, leb→le, le→leb,
  ==_iff, ==_refl, Bool-cases, Option-cases, take_front, drop_front, &&_true, not-eq-true, Bytes,
  length, get_elem?, take, drop, replicate, All, length-append, take-append-drop,
  take-length-append, drop-length-append, length-take, length-drop, length-replicate, All-append,
  sum, mem, sum-append, when, and_then, when-eq-some, and_then-eq-some, holds_under, holds_under_at,
  if-holds, elim-holds, get_elem?-lt, take-length, get_elem?-append, drop-length, same, same_refl,
  drop-drop, take_all, same_text, same_text_iff, text_or, is_text, digit, digits, decimal, has_text,
  join, numbered,
}
use zzt_self.Minute.Time.{Freeze, fz_text, cycle_window_key}
use zzt_self.Minute.Parsers.{Scene, active_report, passive_report, passive_collect}

-- A set of addresses, in the order in which they came.
abbrev pub Addresses : Type 0
Addresses = List Bytes

abbrev pub contains : Bytes → Addresses → Bool
contains a [] = false
contains a (x ∷ xs) = same x a || contains a xs

abbrev pub add : Bytes → Addresses → Addresses
add a xs = if contains a xs then xs else xs ++ (a ∷ [])

abbrev pub intersection : Addresses → Addresses → Addresses
intersection [] ys = []
intersection (x ∷ xs) ys = if contains x ys then x ∷ intersection xs ys else intersection xs ys

abbrev pub difference : Addresses → Addresses → Addresses
difference [] ys = []
difference (x ∷ xs) ys = if contains x ys then difference xs ys else x ∷ difference xs ys

abbrev pub union : Addresses → Addresses → Addresses
union xs [] = xs
union xs (y ∷ ys) = union (add y xs) ys

abbrev pub is_empty {ℓ} : {A : Type ℓ} → List A → Bool
is_empty [] = true
is_empty (x ∷ xs) = false

pub record Report : Type 0 where
  pub address : Bytes
  pub fz : Freeze
  pub has_data : Bool

pub record Read : Type 0 where
  pub scene : Scene
  pub address : Bytes
  pub fz : Freeze
  pub has_data : Bool

-- The time of an event, as `fz_text`.
abbrev pub Timed : Type 0
Timed = Bytes × (ℕ × ℕ)

pub record Bucket : Type 0 where
  pub active_any : Addresses
  pub active_ok : Addresses
  pub reply_any : Addresses
  pub reply_ok : Addresses
  pub reply_empty : Addresses
  pub reply_events : List Timed
  pub requested : Addresses
  pub request_events : List Timed

abbrev pub empty_bucket : Bucket
empty_bucket = record {
  active_any = [];
  active_ok = [];
  reply_any = [];
  reply_ok = [];
  reply_empty = [];
  reply_events = [];
  requested = [];
  request_events = [];
}

abbrev pub add_report : Report → Bucket → Bucket
add_report r b = record b {
  active_any = add r.address b.active_any;
  active_ok = if r.has_data then add r.address b.active_ok else b.active_ok;
}

abbrev pub add_request : Read → Bucket → Bucket
add_request r b = record b {
  requested = add r.address b.requested;
  request_events = b.request_events ++ ((r.address, fz_text r.fz) ∷ []);
}

abbrev pub add_reply : Read → Bucket → Bucket
add_reply r b = record b {
  reply_any = add r.address b.reply_any;
  reply_ok = if r.has_data then add r.address b.reply_ok else b.reply_ok;
  reply_empty = if r.has_data then b.reply_empty else add r.address b.reply_empty;
  reply_events = b.reply_events ++ ((r.address, fz_text r.fz) ∷ []);
}

abbrev pub add_read : Read → Bucket → Bucket
add_read r b = elim r.scene [
  | active_report ↦ add_reply r b
  | passive_report ↦ add_reply r b
  | passive_collect ↦ add_request r b
]

-- `buckets.get(key, empty)` after the two loops: the events whose cycle has this key.
unfoldable pub add_reports : ℕ → ℕ → List Report → Bucket → Bucket
add_reports period key [] b = b
add_reports period key (r ∷ rs) b =
    let next = if cycle_window_key r.fz period == key then add_report r b else b in
    add_reports period key rs next

unfoldable pub add_reads : ℕ → ℕ → List Read → Bucket → Bucket
add_reads period key [] b = b
add_reads period key (r ∷ rs) b =
    let next = if cycle_window_key r.fz period == key then add_read r b else b in
    add_reads period key rs next

abbrev pub bucket_at : ℕ → List Report → List Read → ℕ → Bucket
bucket_at period reports reads key =
    add_reads period key reads (add_reports period key reports empty_bucket)

-- `sorted` on addresses.
abbrev pub precedes : Bytes → Bytes → Bool
precedes [] bs = true
precedes (a ∷ as') [] = false
precedes (a ∷ as') (b ∷ bs) = ltb a b || (a == b && precedes as' bs)

abbrev pub place : Bytes → Addresses → Addresses
place a [] = a ∷ []
place a (x ∷ xs) = if precedes a x then a ∷ x ∷ xs else x ∷ place a xs

abbrev pub sorted : Addresses → Addresses
sorted [] = []
sorted (x ∷ xs) = place x (sorted xs)

-- `next((t for a, t in events if a == address), "")`
abbrev pub time_of : Bytes → List Timed → Option (ℕ × ℕ)
time_of a [] = none
time_of a ((x, t) ∷ rest) = if same x a then some t else time_of a rest

pub data FailureReason : Type 0 where
  no_answer no_values : FailureReason

pub record Failure : Type 0 where
  pub address : Bytes
  pub time : Option (ℕ × ℕ)
  pub reason : FailureReason

abbrev pub failures : FailureReason → List Timed → Addresses → List Failure
failures why events [] = []
failures why events (a ∷ rest) =
    record { address = a; time = time_of a events; reason = why } ∷ failures why events rest

-- `configured` is the nonempty archive of the task, if it has one.
abbrev pub scope : Option Addresses → Bucket → Addresses
scope configured b = elim configured [
  | some archive ↦ archive
  | none ↦ union (union b.active_any b.reply_any) b.requested
]

abbrev pub counted_active : Option Addresses → Bucket → Addresses
counted_active configured b = intersection (scope configured b) b.active_ok

abbrev pub counted_passive : Option Addresses → Bucket → Addresses
counted_passive configured b = intersection (scope configured b) b.reply_ok

abbrev pub no_reply : Option Addresses → Bucket → Addresses
no_reply configured b =
    let in_scope = scope configured b in
    intersection in_scope (difference b.requested (intersection in_scope b.reply_any))

abbrev pub reply_no_data : Option Addresses → Bucket → Addresses
reply_no_data configured b =
    difference (intersection (scope configured b) b.reply_empty) (counted_passive configured b)

pub record TaskCycleStats : Type 0 where
  pub index : ℕ
  pub window_start : ℕ
  pub active_ok : ℕ
  pub passive_ok : ℕ
  pub passive_collect_failed : List Failure

abbrev pub cycle_stats : Option Addresses → ℕ → ℕ → Bucket → TaskCycleStats
cycle_stats configured index start b = record {
  index = index;
  window_start = start;
  active_ok = length (counted_active configured b);
  passive_ok = length (counted_passive configured b);
  passive_collect_failed =
      failures no_answer b.request_events (sorted (no_reply configured b))
      ++ failures no_values b.reply_events (sorted (reply_no_data configured b));
}
