-- ===== src/Concentrator/PeriodStats/Peaks.antt =====
-- The peak of a bucket is at most the attempts that its bucket has counted.
use zzt_self.Base.{
  ℕ, zero, suc, ◌+◌, ◌-◌, ◌*◌, ◌≤◌, ◌<◌, max, ◌≡◌, refl, sym, ap, ◌∙◌, ◌≢◌, inl, inr, Bool, ◌&&◌,
  Option, none, some, List, [], ◌∷◌, arith, ltb, leb, ◌==◌, if◌then◌else◌, ==_iff, Bool-cases,
  both_ways,
}
use Prim.Native.String.{String}
use native.Mathlib.Nat.{div-mul-le_self, lt-div-mul-add, div-eq_of_lt-le}
use mathlib.Core.Option.{some-injective}
use zzt_self.Base.Dict.{number_key}
use zzt_self.Concentrator.PeriodStats.{
  ReadAttempt, PeriodBucket, bucket_start, place_attempt, by_start, is_duplicate, update_bucket,
  close_meter, count_attempts, Mark, ends, starts, mark_before, place_mark, sort_marks, sweep_marks,
  sweep, max_concurrent_in, aggregate,
}

-- The attempts that start in a bucket.
abbrev pub started : ℕ → ℕ → List ReadAttempt → ℕ
started lo period [] = 0
started lo period (a ∷ xs) =
    (if leb lo a.start && ltb a.start (lo + period) then 1 else 0) + started lo period xs

abbrev ups_of : List Mark → ℕ
ups_of [] = 0
ups_of (starts t ∷ ms) = suc (ups_of ms)
ups_of (ends t ∷ ms) = ups_of ms

ups_of-cons : (m n : Mark) (ms : List Mark) → ups_of (m ∷ n ∷ ms) ≡ ups_of (n ∷ m ∷ ms)
ups_of-cons (starts t) (starts u) ms = refl
ups_of-cons (starts t) (ends u) ms = refl
ups_of-cons (ends t) (starts u) ms = refl
ups_of-cons (ends t) (ends u) ms = refl

ups_of-under :
    (m : Mark) (xs ys : List Mark) → ups_of xs ≡ ups_of ys → ups_of (m ∷ xs) ≡ ups_of (m ∷ ys)
ups_of-under (starts t) xs ys h = ap suc h
ups_of-under (ends t) xs ys h = h

ups_of-place_mark : (m : Mark) (ms : List Mark) → ups_of (place_mark m ms) ≡ ups_of (m ∷ ms)
ups_of-place_mark m [] = refl
ups_of-place_mark m (x ∷ xs) = elim (Bool-cases (mark_before m x)) [
  | inl h ↦ rw h refl
  | inr h ↦
      rw h (ups_of-under x (place_mark m xs) (m ∷ xs) (ups_of-place_mark m xs) ∙ ups_of-cons x m xs)
]

ups_of-sort_marks : (ms : List Mark) → ups_of (sort_marks ms) ≡ ups_of ms
unfolding sort_marks
ups_of-sort_marks [] = refl
ups_of-sort_marks (m ∷ ms) =
    ups_of-place_mark m (sort_marks ms) ∙ ups_of-under m (sort_marks ms) ms (ups_of-sort_marks ms)

own_marks :
    (o : Option ℕ) (rest : List Mark)
    → suc (ups_of (elim o [ none ↦ rest | some e ↦ ends e ∷ rest ])) ≡ suc (ups_of rest)
own_marks none rest = refl
own_marks (some e) rest = refl

ups_of-sweep_marks :
    (lo period : ℕ) (xs : List ReadAttempt)
    → ups_of (sweep_marks lo period xs) ≡ started lo period xs
unfolding sweep_marks
ups_of-sweep_marks lo period [] = refl
ups_of-sweep_marks lo period (a ∷ xs) =
    elim (Bool-cases (leb lo a.start && ltb a.start (lo + period))) [
      | inl h ↦ rw h (
          own_marks a.end_at (sweep_marks lo period xs)
          ∙ omega (arith, ups_of-sweep_marks lo period xs))
      | inr h ↦ rw h (omega (arith, ups_of-sweep_marks lo period xs))
    ]

sweep-le :
    (ups downs peak bound : ℕ) (ms : List Mark)
    → ups + ups_of ms ≤ bound
    → peak ≤ bound
    → sweep ups downs peak ms ≤ bound
unfolding sweep
sweep-le ups downs peak bound [] h k = k
sweep-le ups downs peak bound (starts t ∷ ms) h k =
    sweep-le (suc ups) downs (max peak (suc ups - downs)) bound ms (omega (arith, h))
      (omega (arith, h, k))
sweep-le ups downs peak bound (ends t ∷ ms) h k =
    sweep-le ups (suc downs) (max peak (ups - suc downs)) bound ms (omega (arith, h))
      (omega (arith, h, k))

-- The dispatches of the bucket of a key, 0 if there is none.
abbrev pub dispatches_at : ℕ → List (ℕ × PeriodBucket) → ℕ
dispatches_at key [] = 0
dispatches_at key ((k, b) ∷ rest) = if k == key then b.dispatch_count else dispatches_at key rest

abbrev starts_here : ℕ → ℕ → ReadAttempt → Bool
starts_here lo period a = leb lo a.start && ltb a.start (lo + period)

same_bucket :
    (q s period : ℕ)
    → 0 < period
    → q * period ≤ s
    → s < q * period + period
    → bucket_start s period ≡ q * period
same_bucket q s period pos from under =
    ap (λ k. k * period) (div-eq_of_lt-le period from (grind (arith, under)))

starts_here-bucket_start :
    (q period : ℕ) (a : ReadAttempt)
    → 0 < period
    → starts_here (q * period) period a ≡ (bucket_start a.start period == q * period)
starts_here-bucket_start q period a pos =
    elim (Bool-cases (bucket_start a.start period == q * period)) [
      | inl h ↦
          let e = (==_iff (bucket_start a.start period) (q * period)).0 h in
          rw h (ground (arith, div-mul-le_self a.start period, lt-div-mul-add pos, e))
      | inr h ↦ elim (Bool-cases (leb (q * period) a.start && ltb a.start (q * period + period))) [
        | inl k ↦
            let e = same_bucket q a.start period pos (ground (arith, k)) (ground (arith, k)) in
            absurd (both_ways h ((==_iff (bucket_start a.start period) (q * period)).1 e))
        | inr k ↦ k ∙ sym h
      ]
    ]

other_key : (at key : ℕ) → at ≢ key → (n : ℕ) → n ≡ (if at == key then 1 else 0) + n
other_key at key ne n = elim (Bool-cases (at == key)) [
  | inl h ↦ absurd (ne ((==_iff at key).0 h))
  | inr h ↦ rw h (omega arith)
]

dispatches_at-update_bucket :
    (key at : ℕ) (again : Bool) (a : ReadAttempt) (bs : List (ℕ × PeriodBucket))
    → dispatches_at key (update_bucket at again a bs)
      ≡ (if at == key then 1 else 0) + dispatches_at key bs
dispatches_at-update_bucket key at again a [] = ground arith
dispatches_at-update_bucket key at again a ((k, b) ∷ rest) = elim (Bool-cases (k == at)) [
  | inl h ↦
      let e = (==_iff k at).0 h in
      rw h (elim (Bool-cases (k == key)) [
        | inl l ↦ rw l (rw (sym (ap (λ i. i == key) e) ∙ l) (omega arith))
        | inr l ↦ rw l (rw (sym (ap (λ i. i == key) e) ∙ l) (omega arith))
      ])
  | inr h ↦ rw h (elim (Bool-cases (k == key)) [
    | inl l ↦ rw l (
        other_key at key (λ e. both_ways h ((==_iff k at).1 ((==_iff k key).0 l ∙ sym e)))
          b.dispatch_count)
    | inr l ↦ rw l (dispatches_at-update_bucket key at again a rest)
  ])
]

started-place_attempt :
    (lo period : ℕ) (a : ReadAttempt) (xs : List ReadAttempt)
    → started lo period (place_attempt a xs) ≡ started lo period (a ∷ xs)
started-place_attempt lo period a [] = refl
started-place_attempt lo period a (x ∷ xs) = elim (Bool-cases (leb a.start x.start)) [
  | inl h ↦ rw h refl
  | inr h ↦ rw h (omega (arith, started-place_attempt lo period a xs))
]

started-by_start :
    (lo period : ℕ) (xs : List ReadAttempt) → started lo period (by_start xs) ≡ started lo period xs
unfolding by_start
started-by_start lo period [] = refl
started-by_start lo period (a ∷ xs) =
    started-place_attempt lo period a (by_start xs) ∙ omega (arith, started-by_start lo period xs)

dispatches_at-count_attempts :
    (q period : ℕ) (xs : List ReadAttempt) (open_until : List (String × ℕ))
    (bs : List (ℕ × PeriodBucket))
    → 0 < period
    → dispatches_at (q * period) (count_attempts period xs open_until bs)
      ≡ started (q * period) period xs + dispatches_at (q * period) bs
unfolding count_attempts
dispatches_at-count_attempts q period [] open_until bs pos = omega arith
dispatches_at-count_attempts q period (a ∷ xs) open_until bs pos =
    let at = bucket_start a.start period in
    let again = is_duplicate open_until a in
    dispatches_at-count_attempts q period xs (close_meter a open_until)
      (update_bucket at again a bs) pos
    ∙ omega (
      arith,
      dispatches_at-update_bucket (q * period) at again a bs,
      ap {B = ℕ} (λ b. if b then 1 else 0) (starts_here-bucket_start q period a pos),
    )

-- The peak of the bucket of each key is at most the attempts that the bucket has counted, and 0 if
-- there is none.
pub peak-aggregate :
    (q period : ℕ) (atts : List ReadAttempt) (bs : List (ℕ × PeriodBucket))
    → 0 < period
    → aggregate period atts ≡ some bs
    → max_concurrent_in (q * period) period atts ≤ dispatches_at (q * period) bs
unfolding aggregate
peak-aggregate q zero atts bs pos h = absurd (omega (arith, pos))
peak-aggregate q (suc p) atts bs pos h =
    let period = suc p in
    let key = q * period in
    let e = ap (dispatches_at key) (some-injective _ _ h) in
    sweep-le 0 0 0 (dispatches_at key bs) (sort_marks (sweep_marks key period atts))
      (omega (
        arith,
        ups_of-sort_marks (sweep_marks key period atts),
        ups_of-sweep_marks key period atts,
        dispatches_at-count_attempts q period (by_start atts) [] [] pos,
        started-by_start key period atts,
        e,
      ))
      (omega arith)
