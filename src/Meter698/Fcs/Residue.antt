-- ===== src/Meter698/Fcs/Residue.antt =====
-- A check sequence is accepted behind the bytes it was computed from.
use Prim.Native.Nat.{bit_xor}
use zzt_self.Base.{
  ℕ, ◌/◌, ◌%◌, ◌<◌, ◌≡◌, refl, sym, ap, ◌∙◌, true, none, some, [], ◌∷◌, ◌++◌, arith, ltb, ◌==◌,
  ltb→lt, ==_iff, Bytes, get_elem?, holds_under, holds_under_at,
}
use zzt_self.Base.Bits.{bit_xor-high, bit_xor-low, bit_xor-lt_word, bit_xor-lt_byte}
use zzt_self.Meter698.Fcs.Table.{fcs_table}
use zzt_self.Meter698.Fcs.{entry, crc_byte, fcs_from, crc16, fcs_bytes, check_fcs}

pub entry_low : (x : ℕ) → entry (x % 256) ≡ entry x
entry_low x =
    let same_index : x % 256 % 256 ≡ x % 256 = omega arith in
    ap (λ i. elim (get_elem? fcs_table i) [ none ↦ 0 | some v ↦ v ]) same_index

entries_are_words : holds_under (λ x. ltb (entry x) 65536) 256 ≡ true
unfolding holds_under
entries_are_words = refl

pub entry-lt : (x : ℕ) → entry x < 65536
entry-lt x =
    let small =
      ltb→lt (entry (x % 256)) 65536
        (holds_under_at (λ x. ltb (entry x) 65536) 256 (x % 256) (omega arith) entries_are_words) in
    omega (arith, entry_low x, small)

pub crc_byte-lt : (c b : ℕ) → c < 65536 → crc_byte c b < 65536
crc_byte-lt c b h =
    bit_xor-lt_word (c / 256) (entry (bit_xor c b)) (omega arith) (entry-lt (bit_xor c b))

pub fcs_from-lt : (c : ℕ) (bs : Bytes) → c < 65536 → fcs_from c bs < 65536
unfolding fcs_from
fcs_from-lt c [] h = h
fcs_from-lt c (b ∷ bs) h = fcs_from-lt (crc_byte c b) bs (crc_byte-lt c b h)

pub fcs_from-append : (c : ℕ) (xs ys : Bytes) → fcs_from c (xs ++ ys) ≡ fcs_from (fcs_from c xs) ys
unfolding fcs_from
fcs_from-append c [] ys = refl
fcs_from-append c (x ∷ xs) ys = fcs_from-append (crc_byte c x) xs ys

-- The low byte of the sequence takes every register to entry 255, the high byte to entry 135.
low_bytes : holds_under (λ x. bit_xor x (bit_xor x 255) == 255) 256 ≡ true
unfolding holds_under
low_bytes = refl

high_bytes : holds_under (λ h. crc_byte (bit_xor h 0x0F78) (bit_xor h 255) == 0xF0B8) 256 ≡ true
unfolding holds_under
high_bytes = refl

low_byte : (c : ℕ) → crc_byte c (bit_xor c 0xFFFF % 256) ≡ bit_xor (c / 256) 0x0F78
low_byte c =
    let lo = bit_xor c 0xFFFF % 256 in
    let self : bit_xor (c % 256) (bit_xor (c % 256) 255) ≡ 255 = (==_iff _ _).0 (
      holds_under_at (λ x. bit_xor x (bit_xor x 255) == 255) 256 (c % 256) (omega arith)
        low_bytes) in
    let lo_is : lo % 256 ≡ bit_xor (c % 256) 255 = omega (arith, bit_xor-low c 0xFFFF) in
    let index : bit_xor c lo % 256 ≡ 255 = bit_xor-low c lo ∙ ap (bit_xor (c % 256)) lo_is ∙ self in
    ap (bit_xor (c / 256)) (sym (entry_low (bit_xor c lo)) ∙ ap entry index)

high_byte : (h : ℕ) → h < 256 → crc_byte (bit_xor h 0x0F78) (bit_xor h 255) ≡ 0xF0B8
high_byte h lt = (==_iff _ _).0 (
    holds_under_at (λ h. crc_byte (bit_xor h 0x0F78) (bit_xor h 255) == 0xF0B8) 256 h lt high_bytes)

fcs_from-own :
    (c : ℕ)
    → c < 65536
    → fcs_from c (bit_xor c 0xFFFF % 256 ∷ (bit_xor c 0xFFFF / 256 % 256) ∷ []) ≡ 0xF0B8
unfolding fcs_from
fcs_from-own c lt =
    let hi_is : bit_xor c 0xFFFF / 256 % 256 ≡ bit_xor (c / 256) 255 =
      omega
        (arith, bit_xor-high c 0xFFFF, bit_xor-lt_byte (c / 256) 255 (omega arith) (omega arith)) in
    ap (λ r. crc_byte r (bit_xor c 0xFFFF / 256 % 256)) (low_byte c)
    ∙ ap (crc_byte (bit_xor (c / 256) 0x0F78)) hi_is
    ∙ high_byte (c / 256) (omega arith)

-- `_check_fcs` accepts any bytes followed by what `_fcs_bytes` computes from them.
pub check_fcs-fcs_bytes : (bs : Bytes) → check_fcs bs (fcs_bytes bs) ≡ true
unfolding check_fcs fcs_bytes
check_fcs-fcs_bytes bs = (==_iff _ _).1 (
    fcs_from-append 0xFFFF bs (fcs_bytes bs)
    ∙ fcs_from-own (crc16 bs) (fcs_from-lt 0xFFFF bs (omega arith)))
