-- ===== src/Concentrator/Batch/Counts.antt =====
-- How often a meter stands in a list.
use mathlib.Core.Option.{some-injective}
use zzt_self.Base.{
  ℕ, zero, suc, ◌+◌, ◌≡◌, refl, ap, inl, inr, some, List, [], ◌∷◌, ◌++◌, arith, if◌then◌else◌,
  Bool-cases, length, get_elem?, same_text,
}
use Prim.Native.String.{String}
use zzt_self.Concentrator.Batch.{Row, bump, without}

abbrev pub count : String → List String → ℕ
count m [] = 0
count m (x ∷ xs) = (if same_text x m then 1 else 0) + count m xs

abbrev pub count_rows : String → List Row → ℕ
count_rows m [] = 0
count_rows m (r ∷ rs) = (if same_text r.meter m then 1 else 0) + count_rows m rs

pub count-append : (m : String) (xs ys : List String) → count m (xs ++ ys) ≡ count m xs + count m ys
count-append m [] ys = omega arith
count-append m (x ∷ xs) ys = omega (arith, count-append m xs ys)

pub count_rows-append :
    (m : String) (xs ys : List Row) → count_rows m (xs ++ ys) ≡ count_rows m xs + count_rows m ys
count_rows-append m [] ys = omega arith
count_rows-append m (x ∷ xs) ys = omega (arith, count_rows-append m xs ys)

-- Taking the element at an index away.
pub count-without :
    (m x : String) (k : ℕ) (xs : List String)
    → get_elem? xs k ≡ some x
    → count m xs ≡ (if same_text x m then 1 else 0) + count m (without k xs)
count-without m x k [] h = cc
count-without m x zero (y ∷ xs) h =
    ap (λ z. (if same_text z m then 1 else 0) + count m xs) (some-injective y x h)
count-without m x (suc k) (y ∷ xs) h = omega (arith, count-without m x k xs h)

pub length-without :
    {A : Type 0} (x : A) (k : ℕ) (xs : List A)
    → get_elem? xs k ≡ some x
    → length xs ≡ suc (length (without k xs))
length-without x k [] h = cc
length-without x zero (y ∷ xs) h = refl
length-without x (suc k) (y ∷ xs) h = ap suc (length-without x k xs h)

abbrev pub total : List (String × ℕ) → ℕ
total [] = 0
total ((k, n) ∷ rest) = n + total rest

pub total-bump : (key : String) (d : List (String × ℕ)) → total (bump key d) ≡ suc (total d)
total-bump key [] = refl
total-bump key ((k, n) ∷ rest) = elim (Bool-cases (same_text k key)) [
  | inl h ↦ rw h (omega arith)
  | inr h ↦ rw h (omega (arith, total-bump key rest))
]
