-- ===== src/Meter698/Fcs.antt =====
-- The frame check sequence: `_FCSTAB`, `_crc16`, `_fcs_bytes` and `_check_fcs`.
pub mod Table
pub mod Residue
pub mod Reference
use Prim.Native.Nat.{bit_xor}
use zzt_self.Base.{
  ℕ, zero, suc, ◌+◌, ◌-◌, ◌*◌, ◌/◌, ◌%◌, ◌^◌, ◌≤◌, ◌<◌, min, max, ◌≡◌, refl, sym, ap, ◌∙◌, ◌≢◌, ◌↔◌,
  ◌⊎◌, inl, inr, Bool, true, false, not, ◌&&◌, ◌||◌, Option, none, some, List, [], ◌∷◌, ◌++◌, map,
  append-nil, append_assoc, arith, ltb, leb, ◌==◌, if◌then◌else◌, ltb→lt, lt→ltb, leb→le, le→leb,
  ==_iff, ==_refl, Bool-cases, Option-cases, take_front, drop_front, &&_true, not-eq-true, Bytes,
  length, get_elem?, take, drop, replicate, All, length-append, take-append-drop,
  take-length-append, drop-length-append, length-take, length-drop, length-replicate, All-append,
  sum, mem, sum-append, when, and_then, when-eq-some, and_then-eq-some, holds_under, holds_under_at,
  get_elem?-lt, take-length, get_elem?-append, drop-length, same, same_refl, drop-drop, take_all,
  same_text, same_text_iff, text_or, is_text, digit, digits, decimal, has_text, join, numbered,
}
use zzt_self.Meter698.Fcs.Table.{fcs_table}

-- `_FCSTAB[(fcs ^ b) & 0xFF]` for an integer `fcs ^ b`; the index is in the table.
abbrev pub entry : ℕ → ℕ
entry x = elim (get_elem? fcs_table (x % 256)) [ none ↦ 0 | some v ↦ v ]

abbrev pub crc_byte : ℕ → ℕ → ℕ
crc_byte fcs b = bit_xor (fcs / 256) (entry (bit_xor fcs b))

unfoldable pub fcs_from : ℕ → Bytes → ℕ
fcs_from fcs [] = fcs
fcs_from fcs (b ∷ bs) = fcs_from (crc_byte fcs b) bs

-- `_crc16`, with its default `init`.
abbrev pub crc16 : Bytes → ℕ
crc16 bs = fcs_from 0xFFFF bs

unfoldable pub fcs_bytes : Bytes → Bytes
fcs_bytes bs = let v = bit_xor (crc16 bs) 0xFFFF in (v % 256 ∷ (v / 256 % 256) ∷ [])

unfoldable pub check_fcs : Bytes → Bytes → Bool
check_fcs bs fcs = crc16 (bs ++ fcs) == 0xF0B8
