-- ===== src/Concentrator/PeriodStats.antt =====
-- The statistics of concurrent reads by period: `aggregate` of libs/sim_concentrator/period_stats.py.
-- Times are whole numbers of one unit, in which the period is given too. The text of a bucket's start is
-- left out, and with it the exception for a time that the calendar of Python does not reach.
pub mod Accounts
pub mod Peaks
use zzt_self.Base.{
  ℕ, zero, suc, ◌+◌, ◌-◌, ◌*◌, ◌/◌, ◌%◌, ◌^◌, ◌≤◌, ◌<◌, min, max, ◌≡◌, refl, sym, ap, ◌∙◌, ◌≢◌, ◌↔◌,
  ◌⊎◌, inl, inr, Bool, true, false, not, ◌&&◌, ◌||◌, Option, none, some, List, [], ◌∷◌, ◌++◌, map,
  append-nil, append_assoc, arith, ltb, leb, ◌==◌, if◌then◌else◌, ltb→lt, lt→ltb, leb→le, le→leb,
  ==_iff, ==_refl, Bool-cases, Option-cases, take_front, drop_front, &&_true, not-eq-true, Bytes,
  length, get_elem?, take, drop, replicate, All, length-append, take-append-drop,
  take-length-append, drop-length-append, length-take, length-drop, length-replicate, All-append,
  sum, mem, sum-append, when, and_then, when-eq-some, and_then-eq-some, holds_under, holds_under_at,
  if-holds, elim-holds, get_elem?-lt, take-length, get_elem?-append, drop-length, same, same_refl,
  drop-drop, take_all, same_text, same_text_iff, text_or, is_text, digit, digits, decimal, has_text,
  join, numbered,
}
use Prim.Native.String.{String}
use zzt_self.Base.Dict.{lookup, insert, text_key, number_key}

pub record ReadAttempt : Type 0 where
  pub meter : String
  pub start : ℕ
  pub end_at : Option ℕ
  pub succeeded : Bool
  pub duplicate : Bool

pub record PeriodBucket : Type 0 where
  pub dispatch_count : ℕ
  pub success_count : ℕ
  pub failed_count : ℕ
  pub duplicate_count : ℕ

abbrev pub new_bucket : PeriodBucket
new_bucket = record { dispatch_count = 0; success_count = 0; failed_count = 0; duplicate_count = 0 }

-- `_bucket_start`.
abbrev pub bucket_start : ℕ → ℕ → ℕ
bucket_start epoch period = epoch / period * period

-- `sorted(atts, key=lambda x: x["start"])`, which keeps the order of equal starts.
abbrev pub place_attempt : ReadAttempt → List ReadAttempt → List ReadAttempt
place_attempt a [] = a ∷ []
place_attempt a (x ∷ xs) = if leb a.start x.start then a ∷ x ∷ xs else x ∷ place_attempt a xs

unfoldable pub by_start : List ReadAttempt → List ReadAttempt
by_start [] = []
by_start (a ∷ as') = place_attempt a (by_start as')

-- `a.get("duplicate") or (a["end"] is not None and open_until.get(a["meter"], 0) > a["start"])`
abbrev pub is_duplicate : List (String × ℕ) → ReadAttempt → Bool
is_duplicate open_until a = a.duplicate || elim a.end_at [
  | none ↦ false
  | some e ↦ elim (lookup a.meter open_until) [ none ↦ false | some t ↦ ltb a.start t ]
]

abbrev pub count_attempt : Bool → ReadAttempt → PeriodBucket → PeriodBucket
count_attempt again a b = record {
  dispatch_count = suc b.dispatch_count;
  success_count = if a.succeeded then suc b.success_count else b.success_count;
  failed_count = if a.succeeded then b.failed_count else suc b.failed_count;
  duplicate_count = if again then suc b.duplicate_count else b.duplicate_count;
}

-- `bucket_of` and the changes to the bucket it returns.
abbrev pub update_bucket :
    ℕ → Bool → ReadAttempt → List (ℕ × PeriodBucket) → List (ℕ × PeriodBucket)
update_bucket key again a [] = (key, count_attempt again a new_bucket) ∷ []
update_bucket key again a ((k, b) ∷ rest) =
    if k == key
    then (k, count_attempt again a b) ∷ rest
    else (k, b) ∷ update_bucket key again a rest

abbrev pub close_meter : ReadAttempt → List (String × ℕ) → List (String × ℕ)
close_meter a open_until = elim a.end_at [
  | none ↦ open_until
  | some e ↦ insert a.meter e open_until
]

-- The loop over the sorted attempts.
unfoldable pub count_attempts :
    ℕ → List ReadAttempt → List (String × ℕ) → List (ℕ × PeriodBucket) → List (ℕ × PeriodBucket)
count_attempts period [] open_until buckets = buckets
count_attempts period (a ∷ as') open_until buckets =
    count_attempts period as' (close_meter a open_until)
      (update_bucket (bucket_start a.start period) (is_duplicate open_until a) a buckets)

-- A mark of the sweep: a start or an end.
pub data Mark : Type 0 where
  ends starts : ℕ → Mark

abbrev pub time_of_mark : Mark → ℕ
time_of_mark (ends t) = t
time_of_mark (starts t) = t

-- `(x[0], x[1])` against another: an end is -1 and comes before a start, +1, of the same time.
abbrev pub mark_before : Mark → Mark → Bool
mark_before (starts t) (ends u) = ltb t u
mark_before (starts t) (starts u) = leb t u
mark_before (ends t) m = leb t (time_of_mark m)

abbrev pub place_mark : Mark → List Mark → List Mark
place_mark m [] = m ∷ []
place_mark m (x ∷ xs) = if mark_before m x then m ∷ x ∷ xs else x ∷ place_mark m xs

unfoldable pub sort_marks : List Mark → List Mark
sort_marks [] = []
sort_marks (m ∷ ms) = place_mark m (sort_marks ms)

-- The marks of the attempts that start from `lo` up to `lo + period`.
unfoldable pub sweep_marks : ℕ → ℕ → List ReadAttempt → List Mark
sweep_marks lo period [] = []
sweep_marks lo period (a ∷ as') =
    let rest = sweep_marks lo period as' in
    let own = starts a.start ∷ elim a.end_at [ none ↦ rest | some e ↦ ends e ∷ rest ] in
    if leb lo a.start && ltb a.start (lo + period) then own else rest

-- `cur` is `ups - downs`, which may be negative; `peak` is not, so that a difference that stops at
-- 0 gives the same maximum.
unfoldable pub sweep : ℕ → ℕ → ℕ → List Mark → ℕ
sweep ups downs peak [] = peak
sweep ups downs peak (starts t ∷ ms) = sweep (suc ups) downs (max peak (suc ups - downs)) ms
sweep ups downs peak (ends t ∷ ms) = sweep ups (suc downs) (max peak (ups - suc downs)) ms

abbrev pub max_concurrent_in : ℕ → ℕ → List ReadAttempt → ℕ
max_concurrent_in key period atts = sweep 0 0 0 (sort_marks (sweep_marks key period atts))

-- The buckets of `aggregate` in the order in which they came; the source sorts them by key. `none`
-- is the `ZeroDivisionError` of a period of 0, which needs an attempt.
unfoldable pub aggregate : ℕ → List ReadAttempt → Option (List (ℕ × PeriodBucket))
aggregate zero (a ∷ as') = none
aggregate period atts = some (count_attempts period (by_start atts) [] [])

-- `max_concurrent` of each bucket, beside its key.
abbrev pub peaks : ℕ → List ReadAttempt → List (ℕ × PeriodBucket) → List (ℕ × ℕ)
peaks period atts [] = []
peaks period atts ((k, b) ∷ rest) = (k, max_concurrent_in k period atts) ∷ peaks period atts rest
