-- ===== src/Meter698/Fcs/Reference.antt =====
-- The table against the shift register that it tabulates: reflected CRC-16 with polynomial 0x8408.
use Prim.Native.Nat.{bit_xor, differ}
use zzt_self.Base.{
  ℕ, zero, suc, ◌*◌, ◌/◌, ◌%◌, ◌<◌, ◌≡◌, refl, sym, ap, ◌∙◌, true, [], ◌∷◌, arith, ◌==◌, ==_iff,
  Bytes, All, holds_under, holds_under_at,
}
use zzt_self.Base.Bits.{
  bit_xor-high, bit_xor-low, bit_xor-half, bit_xor-parity, bit_xor-zero, zero-bit_xor, bit_xor_self,
  bit_xor_comm, bit_xor_assoc,
}
use zzt_self.Meter698.Fcs.{entry, fcs_from}
use zzt_self.Meter698.Fcs.Residue.{entry_low}

-- What the lowest bit shifted out feeds back into the register.
abbrev feedback : ℕ → ℕ
feedback zero = 0
feedback (suc n) = 0x8408

abbrev shift_bit : ℕ → ℕ
shift_bit x = bit_xor (x / 2) (feedback (x % 2))

unfoldable pub shift_bits : ℕ → ℕ → ℕ
shift_bits zero x = x
shift_bits (suc n) x = shift_bits n (shift_bit x)

-- The register takes a byte in its low half, then shifts eight times.
unfoldable pub shift_register : ℕ → Bytes → ℕ
shift_register c [] = c
shift_register c (b ∷ bs) = shift_register (shift_bits 8 (bit_xor c b)) bs

pub regroup :
    (a b c d : ℕ) → bit_xor (bit_xor a b) (bit_xor c d) ≡ bit_xor (bit_xor a c) (bit_xor b d)
regroup a b c d =
    bit_xor_assoc a b (bit_xor c d)
    ∙ ap (bit_xor a)
        (sym (bit_xor_assoc b c d) ∙ ap (λ x. bit_xor x d) (bit_xor_comm b c) ∙ bit_xor_assoc c b d)
    ∙ sym (bit_xor_assoc a c (bit_xor b d))

feedback-differ :
    (d e : ℕ) → d < 2 → e < 2 → feedback (differ d e) ≡ bit_xor (feedback d) (feedback e)
feedback-differ zero e p q = sym (zero-bit_xor (feedback e))
feedback-differ (suc zero) zero p q = sym (bit_xor-zero 0x8408)
feedback-differ (suc zero) (suc zero) p q = sym (bit_xor_self 0x8408)
feedback-differ (suc zero) (suc (suc e)) p q = absurd (omega arith)
feedback-differ (suc (suc d)) e p q = absurd (omega arith)

shift_bit-bit_xor : (a b : ℕ) → shift_bit (bit_xor a b) ≡ bit_xor (shift_bit a) (shift_bit b)
shift_bit-bit_xor a b =
    ap (λ x. bit_xor x (feedback (bit_xor a b % 2))) (bit_xor-half a b)
    ∙ ap (bit_xor (bit_xor (a / 2) (b / 2))) (
        ap feedback (bit_xor-parity a b)
        ∙ feedback-differ (a % 2) (b % 2) (omega arith) (omega arith))
    ∙ regroup (a / 2) (b / 2) (feedback (a % 2)) (feedback (b % 2))

shift_bits-bit_xor :
    (n a b : ℕ) → shift_bits n (bit_xor a b) ≡ bit_xor (shift_bits n a) (shift_bits n b)
unfolding shift_bits
shift_bits-bit_xor zero a b = refl
shift_bits-bit_xor (suc n) a b =
    ap (shift_bits n) (shift_bit-bit_xor a b) ∙ shift_bits-bit_xor n (shift_bit a) (shift_bit b)

abbrev doubled : ℕ → ℕ → ℕ
doubled zero h = h
doubled (suc n) h = doubled n h * 2

shift_bit_even : (y : ℕ) → shift_bit (y * 2) ≡ y
shift_bit_even y =
    let even : y * 2 % 2 ≡ 0 = omega arith in
    let half : y * 2 / 2 ≡ y = omega arith in rw (even, half, bit_xor-zero y) refl

shift_bits-doubled : (n h : ℕ) → shift_bits n (doubled n h) ≡ h
unfolding shift_bits
shift_bits-doubled zero h = refl
shift_bits-doubled (suc n) h =
    ap (shift_bits n) (shift_bit_even (doubled n h)) ∙ shift_bits-doubled n h

entries : holds_under (λ x. shift_bits 8 x == entry x) 256 ≡ true
unfolding holds_under shift_bits
entries = refl

halves_apart : (x : ℕ) → bit_xor (x / 256 * 256) (x % 256) ≡ x
halves_apart x =
    let hi = x / 256 * 256 in
    let lo = x % 256 in
    let hi_high : hi / 256 ≡ x / 256 = omega arith in
    let hi_low : hi % 256 ≡ 0 = omega arith in
    let lo_high : lo / 256 ≡ 0 = omega arith in
    let lo_low : lo % 256 ≡ lo = omega arith in
    omega (
      arith,
      bit_xor-high hi lo,
      bit_xor-low hi lo,
      ap (λ y. bit_xor y (lo / 256)) hi_high,
      ap (bit_xor (x / 256)) lo_high,
      bit_xor-zero (x / 256),
      ap (λ y. bit_xor y (lo % 256)) hi_low,
      ap (bit_xor 0) lo_low,
      zero-bit_xor lo,
    )

-- Eight shifts are one look into the table.
shift_bits-entry : (x : ℕ) → shift_bits 8 x ≡ bit_xor (x / 256) (entry x)
shift_bits-entry x =
    let high : shift_bits 8 (x / 256 * 256) ≡ x / 256 =
      ap (shift_bits 8) (omega arith) ∙ shift_bits-doubled 8 (x / 256) in
    let low : shift_bits 8 (x % 256) ≡ entry (x % 256) =
      (==_iff _ _).0
        (holds_under_at (λ x. shift_bits 8 x == entry x) 256 (x % 256) (omega arith) entries) in
    ap (shift_bits 8) (sym (halves_apart x))
    ∙ shift_bits-bit_xor 8 (x / 256 * 256) (x % 256)
    ∙ ap (λ y. bit_xor y (shift_bits 8 (x % 256))) high
    ∙ ap (bit_xor (x / 256)) (low ∙ entry_low x)

high_kept : (c b : ℕ) → b < 256 → bit_xor c b / 256 ≡ c / 256
high_kept c b h =
    let none_high : b / 256 ≡ 0 = omega arith in
    bit_xor-high c b ∙ ap (bit_xor (c / 256)) none_high ∙ bit_xor-zero (c / 256)

-- On bytes, `_crc16` is the shift register that takes one bit at a time, from any register.
pub fcs_from-shift_register :
    (c : ℕ) (bs : Bytes) → All (λ b. b < 256) bs → fcs_from c bs ≡ shift_register c bs
unfolding fcs_from shift_register
fcs_from-shift_register c [] h = refl
fcs_from-shift_register c (b ∷ bs) (lt, rest) =
    ap (λ r. fcs_from r bs)
      (ap (λ y. bit_xor y (entry (bit_xor c b))) (sym (high_kept c b lt))
        ∙ sym (shift_bits-entry (bit_xor c b)))
    ∙ fcs_from-shift_register (shift_bits 8 (bit_xor c b)) bs rest
