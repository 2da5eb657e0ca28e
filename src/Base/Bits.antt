-- ===== src/Base/Bits.antt =====
-- Laws of `^` on integers, Python's exclusive or, from its lowest digit up.
use Prim.Native.Nat.{
  ℕ, zero, suc, ◌+◌, ◌*◌, ◌/◌, ◌%◌, ◌≤◌, ◌<◌, bit_xor, digits, differ, bit_xor-bitwise,
}
use mathlib.Core.Path.{◌≡◌, refl, sym, ap, ◌∙◌}
use native.Mathlib.Omega.{arith}

abbrev xor_digits : ℕ → ℕ → ℕ → ℕ
xor_digits n a b = digits (λ b. b) differ n a b

xor_digits_fuel : (n m a b : ℕ) → a ≤ n → a ≤ m → xor_digits n a b ≡ xor_digits m a b
xor_digits_fuel zero zero a b p q = refl
xor_digits_fuel zero (suc m) zero b p q = refl
xor_digits_fuel zero (suc m) (suc a) b p q = absurd (omega arith)
xor_digits_fuel (suc n) zero zero b p q = refl
xor_digits_fuel (suc n) zero (suc a) b p q = absurd (omega arith)
xor_digits_fuel (suc n) (suc m) zero b p q = refl
xor_digits_fuel (suc n) (suc m) (suc a) b p q =
    omega (arith, xor_digits_fuel n m (suc a / 2) (b / 2) (omega arith) (omega arith))

pub zero-bit_xor : (b : ℕ) → bit_xor 0 b ≡ b
zero-bit_xor b = bit_xor-bitwise 0 b

-- The lowest digit and the others.
pub bit_xor_step : (a b : ℕ) → bit_xor a b ≡ bit_xor (a / 2) (b / 2) * 2 + differ (a % 2) (b % 2)
bit_xor_step zero b = omega (arith, zero-bit_xor b, zero-bit_xor (b / 2))
bit_xor_step (suc a) b = omega (
  arith,
  bit_xor-bitwise (suc a) b,
  bit_xor-bitwise (suc a / 2) (b / 2),
  xor_digits_fuel a (suc a / 2) (suc a / 2) (b / 2) (omega arith) (omega arith),
)

differ-lt_two : (a b : ℕ) → a < 2 → b < 2 → differ a b < 2
differ-lt_two zero b h k = k
differ-lt_two (suc zero) zero h k = omega arith
differ-lt_two (suc zero) (suc zero) h k = omega arith
differ-lt_two (suc zero) (suc (suc b)) h k = absurd (omega arith)
differ-lt_two (suc (suc a)) b h k = absurd (omega arith)

differ_zero : (a : ℕ) → differ a 0 ≡ a
differ_zero zero = refl
differ_zero (suc a) = refl

differ_self : (a : ℕ) → differ a a ≡ 0
differ_self zero = refl
differ_self (suc a) = differ_self a

differ_comm : (a b : ℕ) → differ a b ≡ differ b a
differ_comm zero b = sym (differ_zero b)
differ_comm (suc a) zero = refl
differ_comm (suc a) (suc b) = differ_comm a b

differ_assoc : (a b c : ℕ) → a < 2 → b < 2 → c < 2 → differ (differ a b) c ≡ differ a (differ b c)
differ_assoc zero b c p q r = refl
differ_assoc (suc zero) zero c p q r = refl
differ_assoc (suc zero) (suc zero) zero p q r = refl
differ_assoc (suc zero) (suc zero) (suc zero) p q r = refl
differ_assoc (suc zero) (suc zero) (suc (suc c)) p q r = absurd (omega arith)
differ_assoc (suc zero) (suc (suc b)) c p q r = absurd (omega arith)
differ_assoc (suc (suc a)) b c p q r = absurd (omega arith)

pub bit_xor-half : (a b : ℕ) → bit_xor a b / 2 ≡ bit_xor (a / 2) (b / 2)
bit_xor-half a b =
    omega (arith, bit_xor_step a b, differ-lt_two (a % 2) (b % 2) (omega arith) (omega arith))

pub bit_xor-parity : (a b : ℕ) → bit_xor a b % 2 ≡ differ (a % 2) (b % 2)
bit_xor-parity a b =
    omega (arith, bit_xor_step a b, differ-lt_two (a % 2) (b % 2) (omega arith) (omega arith))

self_fuel : (n a : ℕ) → a ≤ n → bit_xor a a ≡ 0
self_fuel n zero h = zero-bit_xor 0
self_fuel zero (suc a) h = absurd (omega arith)
self_fuel (suc n) (suc a) h = omega (
  arith,
  bit_xor_step (suc a) (suc a),
  differ_self (suc a % 2),
  self_fuel n (suc a / 2) (omega arith),
)

pub bit_xor_self : (a : ℕ) → bit_xor a a ≡ 0
bit_xor_self a = self_fuel a a (omega arith)

right_zero_fuel : (n a : ℕ) → a ≤ n → bit_xor a 0 ≡ a
right_zero_fuel n zero h = zero-bit_xor 0
right_zero_fuel zero (suc a) h = absurd (omega arith)
right_zero_fuel (suc n) (suc a) h = omega (
  arith,
  bit_xor_step (suc a) 0,
  differ_zero (suc a % 2),
  right_zero_fuel n (suc a / 2) (omega arith),
)

pub bit_xor-zero : (a : ℕ) → bit_xor a 0 ≡ a
bit_xor-zero a = right_zero_fuel a a (omega arith)

comm_fuel : (n a b : ℕ) → a ≤ n → bit_xor a b ≡ bit_xor b a
comm_fuel n zero b h = zero-bit_xor b ∙ sym (bit_xor-zero b)
comm_fuel zero (suc a) b h = absurd (omega arith)
comm_fuel (suc n) (suc a) b h = omega (
  arith,
  bit_xor_step (suc a) b,
  bit_xor_step b (suc a),
  differ_comm (suc a % 2) (b % 2),
  comm_fuel n (suc a / 2) (b / 2) (omega arith),
)

pub bit_xor_comm : (a b : ℕ) → bit_xor a b ≡ bit_xor b a
bit_xor_comm a b = comm_fuel a a b (omega arith)

assoc_fuel : (n a b c : ℕ) → a ≤ n → bit_xor (bit_xor a b) c ≡ bit_xor a (bit_xor b c)
assoc_fuel n zero b c h = ap (λ x. bit_xor x c) (zero-bit_xor b) ∙ sym (zero-bit_xor (bit_xor b c))
assoc_fuel zero (suc a) b c h = absurd (omega arith)
assoc_fuel (suc n) (suc a) b c h = omega (
  arith,
  bit_xor_step (bit_xor (suc a) b) c,
  bit_xor_step (suc a) (bit_xor b c),
  ap (λ x. bit_xor x (c / 2)) (bit_xor-half (suc a) b),
  ap (λ x. bit_xor (suc a / 2) x) (bit_xor-half b c),
  ap (λ x. differ x (c % 2)) (bit_xor-parity (suc a) b),
  ap (λ x. differ (suc a % 2) x) (bit_xor-parity b c),
  differ_assoc (suc a % 2) (b % 2) (c % 2) (omega arith) (omega arith) (omega arith),
  assoc_fuel n (suc a / 2) (b / 2) (c / 2) (omega arith),
)

pub bit_xor_assoc : (a b c : ℕ) → bit_xor (bit_xor a b) c ≡ bit_xor a (bit_xor b c)
bit_xor_assoc a b c = assoc_fuel a a b c (omega arith)

abbrev halves : ℕ → ℕ → ℕ
halves zero a = a
halves (suc n) a = halves n (a / 2)

abbrev low : ℕ → ℕ → ℕ
low zero a = 0
low (suc n) a = low n (a / 2) * 2 + a % 2

halves-bit_xor : (n a b : ℕ) → halves n (bit_xor a b) ≡ bit_xor (halves n a) (halves n b)
halves-bit_xor zero a b = refl
halves-bit_xor (suc n) a b = ap (halves n) (bit_xor-half a b) ∙ halves-bit_xor n (a / 2) (b / 2)

low-bit_xor : (n a b : ℕ) → low n (bit_xor a b) ≡ bit_xor (low n a) (low n b)
low-bit_xor zero a b = sym (zero-bit_xor 0)
low-bit_xor (suc n) a b =
    let la = low n (a / 2) in
    let lb = low n (b / 2) in
    omega (
      arith,
      ap (low n) (bit_xor-half a b),
      bit_xor-parity a b,
      low-bit_xor n (a / 2) (b / 2),
      bit_xor_step (la * 2 + a % 2) (lb * 2 + b % 2),
      ap (λ x. bit_xor x ((lb * 2 + b % 2) / 2)) (half_of la (a % 2) (omega arith)),
      ap (λ x. bit_xor la x) (half_of lb (b % 2) (omega arith)),
      ap (λ x. differ x ((lb * 2 + b % 2) % 2)) (parity_of la (a % 2) (omega arith)),
      ap (λ x. differ (a % 2) x) (parity_of lb (b % 2) (omega arith)),
    )
  where
    half_of : (x d : ℕ) → d < 2 → (x * 2 + d) / 2 ≡ x
    half_of x d h = omega arith

    parity_of : (x d : ℕ) → d < 2 → (x * 2 + d) % 2 ≡ d
    parity_of x d h = omega arith

halves_eight : (a : ℕ) → halves 8 a ≡ a / 256
halves_eight a = omega arith

low_eight : (a : ℕ) → low 8 a ≡ a % 256
low_eight a = omega arith

-- `(a ^ b) >> 8`
pub bit_xor-high : (a b : ℕ) → bit_xor a b / 256 ≡ bit_xor (a / 256) (b / 256)
bit_xor-high a b =
    sym (halves_eight (bit_xor a b))
    ∙ halves-bit_xor 8 a b
    ∙ ap (λ x. bit_xor x (halves 8 b)) (halves_eight a)
    ∙ ap (bit_xor (a / 256)) (halves_eight b)

-- `(a ^ b) & 0xFF`
pub bit_xor-low : (a b : ℕ) → bit_xor a b % 256 ≡ bit_xor (a % 256) (b % 256)
bit_xor-low a b =
    sym (low_eight (bit_xor a b))
    ∙ low-bit_xor 8 a b
    ∙ ap (λ x. bit_xor x (low 8 b)) (low_eight a)
    ∙ ap (bit_xor (a % 256)) (low_eight b)

pub bit_xor-lt_byte : (a b : ℕ) → a < 256 → b < 256 → bit_xor a b < 256
bit_xor-lt_byte a b p q =
    let no_high_a : a / 256 ≡ 0 = omega arith in
    let no_high_b : b / 256 ≡ 0 = omega arith in
    let no_high : bit_xor (a / 256) (b / 256) ≡ 0 = rw (no_high_a, no_high_b, zero-bit_xor 0) in
    omega (arith, bit_xor-high a b, no_high)

pub bit_xor-lt_word : (a b : ℕ) → a < 65536 → b < 65536 → bit_xor a b < 65536
bit_xor-lt_word a b p q =
    omega (arith, bit_xor-high a b, bit_xor-lt_byte (a / 256) (b / 256) (omega arith) (omega arith))
