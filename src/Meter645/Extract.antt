-- ===== src/Meter645/Extract.antt =====
-- `try_extract`: first `_try_extract_escaped`, then `_try_extract_plain`.
pub mod Sound
pub mod Wire
pub mod Complete
use zzt_self.Base.{
  ℕ, zero, suc, ◌+◌, ◌-◌, ◌*◌, ◌/◌, ◌%◌, ◌^◌, ◌≤◌, ◌<◌, min, max, ◌≡◌, refl, sym, ap, ◌∙◌, ◌≢◌, ◌↔◌,
  ◌⊎◌, inl, inr, Bool, true, false, not, ◌&&◌, ◌||◌, Option, none, some, List, [], ◌∷◌, ◌++◌, map,
  append-nil, append_assoc, arith, ltb, leb, ◌==◌, if◌then◌else◌, ltb→lt, lt→ltb, leb→le, le→leb,
  ==_iff, ==_refl, Bool-cases, Option-cases, &&_true, Bytes, length, get_elem?, take, drop,
  replicate, All, length-append, take-append-drop, take-length-append, drop-length-append,
  length-take, length-drop, length-replicate, All-append, sum, mem, sum-append, when, and_then,
  when-eq-some, and_then-eq-some, get_elem?-lt,
}
use zzt_self.Base.Reader.{Reader, ◌>>=◌, ◌>>◌, pure, require, repeat}
use zzt_self.Extract.{Extract}

-- The closure `rb`: an escape pair yields its second byte; a pair cut short is an `IndexError`.
unfoldable pub read_byte : Reader ℕ
read_byte [] = none
read_byte (b ∷ []) = if b == 0x1B then none else some (b, [])
read_byte (b ∷ v ∷ r) = if b == 0x1B then some (v, r) else some (b, v ∷ r)

-- The search for an unescaped start byte, as the suffix that begins there.
unfoldable pub find_start : Bytes → Option Bytes
find_start [] = none
find_start (b ∷ []) = if b == 0x68 then some (b ∷ []) else none
find_start (b ∷ c ∷ r) = elim (b == 0x1B) [
  | true ↦ find_start r
  | false ↦ elim (b == 0x68) [ true ↦ some (b ∷ c ∷ r) | false ↦ find_start (c ∷ r) ]
]

-- The bytes of one frame behind its start byte, each read through `rb`.
unfoldable pub read_after_start : Reader (Unit {0})
unfolding read_byte repeat
read_after_start = do
  repeat read_byte 6
  second ← read_byte
  require (second == 0x68)
  read_byte
  size ← read_byte
  require (leb size 200)
  repeat read_byte size
  read_byte
  last ← read_byte
  require (last == 0x16)

unfoldable pub read_frame : Reader (Unit {0})
unfolding read_byte read_after_start
read_frame = do first ← read_byte; require (first == 0x68); read_after_start

-- What one attempt at the suffix `s` yields: the raw bytes from its start to the read position.
abbrev pub slice_read : Bytes → Option (Unit {0} × Bytes) → Option Extract
slice_read s none = none
slice_read s (some (_, r)) =
    let consumed = length s - length r in
    some (record { raw = take consumed s; consumed = consumed })

-- `n == 0 or buf[0] != 0x68`
abbrev pub starts : Bytes → Bool
starts [] = false
starts (b ∷ _) = b == 0x68

unfoldable pub extract_escaped : Bytes → Option Extract
unfolding find_start read_frame
extract_escaped buf =
    when (starts buf) (and_then (find_start buf) (λ s. slice_read s (read_frame s)))

abbrev pub plain_frame : Bytes → ℕ → Extract
plain_frame buf size = record { raw = take (12 + size) buf; consumed = 12 + size }

-- Each index is checked, since an `IndexError` is caught and gives `None`.
unfoldable pub extract_plain : Bytes → Option Extract
extract_plain buf = when (starts buf) (
    and_then (get_elem? buf 7) (λ second. when (second == 0x68) (
      and_then (get_elem? buf 9) (λ size. when (leb size 200) (
        and_then (get_elem? buf (11 + size))
          (λ last. when (last == 0x16) (some (plain_frame buf size))))))))

unfoldable pub try_extract : Bytes → Option Extract
unfolding extract_escaped extract_plain
try_extract buf = elim (extract_escaped buf) [ none ↦ extract_plain buf | some res ↦ some res ]
