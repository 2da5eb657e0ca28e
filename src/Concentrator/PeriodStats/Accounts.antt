-- ===== src/Concentrator/PeriodStats/Accounts.antt =====
-- The counts of the buckets: `update_bucket` and the loop over the attempts.
use zzt_self.Base.{
  ℕ, zero, suc, ◌+◌, ◌≤◌, ◌<◌, ◌≡◌, refl, ap, ◌∙◌, inl, inr, Bool, some, List, [], ◌∷◌, arith, leb,
  ◌==◌, Bool-cases, length, All, if-holds,
}
use Prim.Native.String.{String}
use zzt_self.Base.Dict.{number_key}
use zzt_self.Concentrator.PeriodStats.{
  ReadAttempt, PeriodBucket, new_bucket, bucket_start, place_attempt, by_start, is_duplicate,
  count_attempt, update_bucket, close_meter, count_attempts, aggregate,
}

abbrev pub dispatched : List (ℕ × PeriodBucket) → ℕ
dispatched [] = 0
dispatched ((k, b) ∷ rest) = b.dispatch_count + dispatched rest

-- What holds of every bucket.
abbrev pub Balanced : ℕ × PeriodBucket → Type 0
Balanced (k, b) =
    (b.dispatch_count ≡ b.success_count + b.failed_count) × (b.duplicate_count ≤ b.dispatch_count)

dispatched-update_bucket :
    (key : ℕ) (again : Bool) (a : ReadAttempt) (bs : List (ℕ × PeriodBucket))
    → dispatched (update_bucket key again a bs) ≡ suc (dispatched bs)
dispatched-update_bucket key again a [] = refl
dispatched-update_bucket key again a ((k, b) ∷ rest) = elim (Bool-cases (k == key)) [
  | inl h ↦ rw h (omega arith)
  | inr h ↦ rw h (omega (arith, dispatched-update_bucket key again a rest))
]

count_attempt-Balanced :
    (k : ℕ) (again : Bool) (a : ReadAttempt) (b : PeriodBucket)
    → Balanced (k, b)
    → Balanced (k, count_attempt again a b)
count_attempt-Balanced k again a b h = ground (arith, h.0, h.1)

update_bucket-Balanced :
    (key : ℕ) (again : Bool) (a : ReadAttempt) (bs : List (ℕ × PeriodBucket))
    → All Balanced bs
    → All Balanced (update_bucket key again a bs)
update_bucket-Balanced key again a [] h =
    (count_attempt-Balanced key again a new_bucket (refl, omega arith), tt)
update_bucket-Balanced key again a ((k, b) ∷ rest) (one, more) =
    if-holds (All Balanced) (k == key) _ _ (λ _. (count_attempt-Balanced k again a b one, more))
      (λ _. (one, update_bucket-Balanced key again a rest more))

length-place_attempt :
    (a : ReadAttempt) (xs : List ReadAttempt) → length (place_attempt a xs) ≡ suc (length xs)
length-place_attempt a [] = refl
length-place_attempt a (x ∷ xs) = elim (Bool-cases (leb a.start x.start)) [
  | inl h ↦ rw h refl
  | inr h ↦ rw h (ap suc (length-place_attempt a xs))
]

length-by_start : (xs : List ReadAttempt) → length (by_start xs) ≡ length xs
unfolding by_start
length-by_start [] = refl
length-by_start (a ∷ xs) = length-place_attempt a (by_start xs) ∙ ap suc (length-by_start xs)

count_attempts-accounts :
    (period : ℕ) (xs : List ReadAttempt) (open_until : List (String × ℕ))
    (bs : List (ℕ × PeriodBucket))
    → All Balanced bs
    → (dispatched (count_attempts period xs open_until bs) ≡ dispatched bs + length xs)
      × All Balanced (count_attempts period xs open_until bs)
unfolding count_attempts
count_attempts-accounts period [] open_until bs h = (omega arith, h)
count_attempts-accounts period (a ∷ xs) open_until bs h =
    let key = bucket_start a.start period in
    let again = is_duplicate open_until a in
    let (sum_is, balanced) =
      count_attempts-accounts period xs (close_meter a open_until) (update_bucket key again a bs)
        (update_bucket-Balanced key again a bs h) in
    (omega (arith, sum_is, dispatched-update_bucket key again a bs), balanced)

-- With a period there is a result, in which every attempt is counted once: the dispatches of all
-- buckets are the attempts, and in each bucket the successes and failures are its dispatches and no
-- more of them are duplicates.
pub aggregate-accounts :
    (period : ℕ) (atts : List ReadAttempt)
    → 0 < period
    → (bs : List (ℕ × PeriodBucket)) × (aggregate period atts ≡ some bs)
      × (dispatched bs ≡ length atts)
      × All Balanced bs
unfolding aggregate
aggregate-accounts zero atts h = absurd (omega (arith, h))
aggregate-accounts (suc p) atts h =
    let (sum_is, balanced) = count_attempts-accounts (suc p) (by_start atts) [] [] tt in
    (
      count_attempts (suc p) (by_start atts) [] [],
      refl,
      omega (arith, sum_is, length-by_start atts),
      balanced,
    )
