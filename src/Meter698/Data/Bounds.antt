-- ===== src/Meter698/Data/Bounds.antt =====
-- Where `_parse_data` returns, and how far it reads.
use mathlib.Core.Path.{subst}
use mathlib.Core.Option.{some-injective}
use zzt_self.Base.{
  ℕ, zero, suc, ◌+◌, ◌-◌, ◌≤◌, ◌<◌, ◌≡◌, refl, ◌≢◌, ◌||◌, Option, some, [], ◌∷◌, arith, ltb, ◌==◌,
  ltb→lt, ==_iff, Bytes, length, get_elem?, All, if-holds, elim-holds, get_elem?-lt,
}
use zzt_self.Meter698.Data.{
  Value, Values, Parsed, not_enough, nil, cons, many, empty, raw_mark, fixed, prefixed, parse_fixed,
  parse_prefixed, parse_nested, parse_items, parse_tag, parse_fuel, parse_data,
}

-- A result that ends inside the bytes.
abbrev pub Within : Bytes → ℕ → Parsed → Type 0
Within bs offset r = (v : Value) × (used : ℕ) × (r ≡ some (v, used)) × (offset + used ≤ length bs)

abbrev ItemsWithin : Bytes → ℕ → Option (Values × ℕ) → Type 0
ItemsWithin bs at r =
    (vs : Values) × (end : ℕ) × (r ≡ some (vs, end)) × (at ≤ end) × (end ≤ length bs)

parse_items-Within :
    (step : ℕ → Parsed) (bs : Bytes) (n at : ℕ)
    → ((p : ℕ) → p ≤ length bs → Within bs p (step p))
    → at ≤ length bs
    → ItemsWithin bs at (parse_items step n at)
unfolding parse_items
parse_items-Within step bs zero at h le = (nil, at, refl, omega arith, le)
parse_items-Within step bs (suc n) at h le =
    let (v, used, first, inside) = h at le in
    let (vs, end, rest, from, upto) = parse_items-Within step bs n (at + used) h inside in
    (cons v vs, end, rw (first, rest) refl, omega arith, upto)

raw-Within : (bs : Bytes) (offset : ℕ) → offset < length bs → Within bs offset not_enough
raw-Within bs offset lt = (raw_mark, 1, refl, omega arith)

parse_fixed-Within :
    (width : ℕ) (make : Bytes → Value) (bs : Bytes) (offset : ℕ)
    → offset < length bs
    → Within bs offset (parse_fixed width make bs offset)
parse_fixed-Within width make bs offset lt =
    if-holds (Within bs offset) (ltb (offset + width) (length bs)) _ _
      (λ h. (_, _, refl, omega (arith, ltb→lt (offset + width) (length bs) h)))
      (λ h. raw-Within bs offset lt)

parse_prefixed-Within :
    (make : Bytes → Value) (bs : Bytes) (offset : ℕ)
    → offset < length bs
    → Within bs offset (parse_prefixed make bs offset)
parse_prefixed-Within make bs offset lt =
    elim-holds (Within bs offset) (get_elem? bs (offset + 1)) not_enough _
      (λ h. raw-Within bs offset lt)
      (λ ln h.
        if-holds (Within bs offset) (ltb (offset + 1 + ln) (length bs)) _ _
          (λ k. (_, _, refl, omega (arith, ltb→lt (offset + 1 + ln) (length bs) k)))
          (λ k. raw-Within bs offset lt))

parse_nested-Within :
    (step : ℕ → Parsed) (bs : Bytes) (offset : ℕ)
    → ((p : ℕ) → p ≤ length bs → Within bs p (step p))
    → offset < length bs
    → Within bs offset (parse_nested step bs offset)
parse_nested-Within step bs offset h lt =
    elim-holds (Within bs offset) (get_elem? bs (offset + 1)) not_enough _
      (λ e. raw-Within bs offset lt)
      (λ cnt e.
        let (vs, end, found, from, upto) =
          parse_items-Within step bs cnt (offset + 2) h
            (omega (arith, get_elem?-lt bs (offset + 1) e)) in
        (many vs, end - offset, rw found refl, omega arith))

parse_tag-Within :
    (nested : Parsed) (bs : Bytes) (offset tag : ℕ)
    → tag ≢ 82
    → offset < length bs
    → Within bs offset nested
    → Within bs offset (parse_tag nested bs offset tag)
unfolding parse_tag
parse_tag-Within nested bs offset tag other lt inside =
    elim-holds (Within bs offset) (fixed tag) _ _
      (λ e.
        elim-holds (Within bs offset) (prefixed tag) _ _
          (λ k.
            if-holds (Within bs offset) (tag == 1 || tag == 2) _ _ (λ h. inside)
              (λ h.
                if-holds (Within bs offset) (tag == 82) _ _
                  (λ road. absurd (other ((==_iff tag 82).0 road)))
                  (λ h'. (_, _, refl, omega arith))))
          (λ make k. parse_prefixed-Within make bs offset lt))
      (λ found e. parse_fixed-Within found.0 found.1 bs offset lt)

get_elem?-All : (P : ℕ → Type 0) (bs : Bytes) (i b : ℕ) → All P bs → get_elem? bs i ≡ some b → P b
get_elem?-All P [] i b h e = cc
get_elem?-All P (x ∷ xs) zero b h e = subst P (some-injective x b e) h.0
get_elem?-All P (x ∷ xs) (suc i) b h e = get_elem?-All P xs i b h.1 e

parse_fuel-Within :
    (fuel : ℕ) (bs : Bytes) (offset : ℕ)
    → All (λ b. b ≢ 82) bs
    → offset ≤ length bs
    → Within bs offset (parse_fuel fuel bs offset)
unfolding parse_fuel
parse_fuel-Within zero bs offset h le = (empty, 0, refl, omega arith)
parse_fuel-Within (suc fuel) bs offset h le =
    elim-holds (Within bs offset) (get_elem? bs offset) _ _ (λ e. (empty, 0, refl, omega arith))
      (λ tag e.
        let lt = get_elem?-lt bs offset e in
        parse_tag-Within _ bs offset tag (get_elem?-All (λ b. b ≢ 82) bs offset tag h e) lt (
          parse_nested-Within (parse_fuel fuel bs) bs offset
            (λ p le'. parse_fuel-Within fuel bs p h le') lt))

-- Without a byte 82, the tag of a ROAD, `_parse_data` returns a value for every offset up to the
-- end, with no `IndexError`, and the bytes it reports as taken are all there.
pub parse_data-Within :
    (bs : Bytes) (offset : ℕ)
    → All (λ b. b ≢ 82) bs
    → offset ≤ length bs
    → Within bs offset (parse_data bs offset)
parse_data-Within bs offset h le = parse_fuel-Within (length bs - offset) bs offset h le
