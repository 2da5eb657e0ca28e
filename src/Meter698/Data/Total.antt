-- ===== src/Meter698/Data/Total.antt =====
-- The fuel of `parse_data` against the recursion of `_parse_data`.
use zzt_self.Base.{
  ℕ, zero, suc, ◌+◌, ◌-◌, ◌≤◌, ◌≡◌, refl, sym, ap, ◌∙◌, Option, none, some, [], ◌∷◌, arith, Bytes,
  length, get_elem?, and_then,
}
use zzt_self.Meter698.Data.{
  Parsed, not_enough, cons, many, empty, parse_nested, parse_items, parse_tag, parse_fuel,
  parse_data,
}

and_then-agree :
    {A B : Type 0} (o : Option A) (f g : A → Option B)
    → ((a : A) → f a ≡ g a)
    → and_then o f ≡ and_then o g
and_then-agree none f g h = refl
and_then-agree (some a) f g h = h a

elim-agree :
    {A B : Type 0} (o : Option A) (d : B) (f g : A → B)
    → ((a : A) → f a ≡ g a)
    → elim o [ none ↦ d | some a ↦ f a ] ≡ elim o [ none ↦ d | some a ↦ g a ]
elim-agree none d f g h = refl
elim-agree (some a) d f g h = h a

parse_items-agree :
    (step step' : ℕ → Parsed) (n at : ℕ)
    → ((p : ℕ) → at ≤ p → step p ≡ step' p)
    → parse_items step n at ≡ parse_items step' n at
unfolding parse_items
parse_items-agree step step' zero at h = refl
parse_items-agree step step' (suc n) at h =
    ap
      (λ o. and_then o (λ one.
        and_then (parse_items step n (at + one.1)) (λ rest. some (cons one.0 rest.0, rest.1))))
      (h at (omega arith))
    ∙ and_then-agree (step' at) _ _ (λ one.
      ap (λ o. and_then o (λ rest. some (cons one.0 rest.0, rest.1)))
        (parse_items-agree step step' n (at + one.1) (λ p le. h p (omega arith))))

-- Only the values inside an array or a structure are parsed by `step`, two bytes further on.
parse_nested-agree :
    (step step' : ℕ → Parsed) (bs : Bytes) (offset : ℕ)
    → ((p : ℕ) → offset + 2 ≤ p → step p ≡ step' p)
    → parse_nested step bs offset ≡ parse_nested step' bs offset
parse_nested-agree step step' bs offset h =
    elim-agree (get_elem? bs (offset + 1)) not_enough _ _ (λ cnt.
      ap (λ o. and_then o (λ all. some (many all.0, all.1 - offset)))
        (parse_items-agree step step' cnt (offset + 2) h))

get_elem?-past : (bs : Bytes) (i : ℕ) → length bs ≤ i → get_elem? bs i ≡ none
get_elem?-past [] i h = refl
get_elem?-past (b ∷ bs) zero h = absurd (omega arith)
get_elem?-past (b ∷ bs) (suc i) h = get_elem?-past bs i (omega arith)

parse_fuel-past :
    (fuel : ℕ) (bs : Bytes) (offset : ℕ)
    → length bs ≤ offset
    → parse_fuel fuel bs offset ≡ some (empty, 0)
unfolding parse_fuel
parse_fuel-past zero bs offset h = refl
parse_fuel-past (suc fuel) bs offset h = rw (parse_fuel, get_elem?-past bs offset h) refl

-- Fuel for the bytes left is enough.
parse_fuel-agree :
    (n m : ℕ) (bs : Bytes) (offset : ℕ)
    → length bs ≤ n + offset
    → length bs ≤ m + offset
    → parse_fuel n bs offset ≡ parse_fuel m bs offset
unfolding parse_fuel
parse_fuel-agree zero m bs offset h k = sym (parse_fuel-past m bs offset (omega arith))
parse_fuel-agree (suc n) zero bs offset h k = parse_fuel-past (suc n) bs offset (omega arith)
parse_fuel-agree (suc n) (suc m) bs offset h k =
    elim-agree (get_elem? bs offset) (some (empty, 0)) _ _ (λ tag.
      ap (λ nested. parse_tag nested bs offset tag)
        (parse_nested-agree (parse_fuel n bs) (parse_fuel m bs) bs offset
          (λ p le. parse_fuel-agree n m bs p (omega arith) (omega arith))))

-- The fuel of `parse_data` is never used up: it satisfies the equation of the source's recursion.
pub parse_data-parse_tag :
    (bs : Bytes) (offset : ℕ)
    → parse_data bs offset ≡ elim (get_elem? bs offset) [
      | none ↦ some (empty, 0)
      | some tag ↦ parse_tag (parse_nested (parse_data bs) bs offset) bs offset tag
    ]
unfolding parse_fuel
parse_data-parse_tag bs offset =
    parse_fuel-agree (length bs - offset) (suc (length bs)) bs offset (omega arith) (omega arith)
    ∙ elim-agree (get_elem? bs offset) (some (empty, 0)) _ _ (λ tag.
      ap (λ nested. parse_tag nested bs offset tag)
        (parse_nested-agree (parse_fuel (length bs) bs) (parse_data bs) bs offset
          (λ p le. parse_fuel-agree (length bs) (length bs - p) bs p (omega arith) (omega arith))))
