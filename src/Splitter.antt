-- ===== src/Splitter.antt =====
-- `FrameSplitter`, libs/parser_lib/core/splitter.py: frames cut off a byte stream, and resynchronisation.
-- The adapters are a parameter: each is its protocol's name and its `try_extract`.
pub mod Resync
pub mod Feed
pub mod Adjacent
use zzt_self.Base.{
  ℕ, zero, suc, ◌+◌, ◌-◌, ◌*◌, ◌/◌, ◌%◌, ◌^◌, ◌≤◌, ◌<◌, min, max, ◌≡◌, refl, sym, ap, ◌∙◌, ◌≢◌, ◌↔◌,
  ◌⊎◌, inl, inr, Bool, true, false, not, ◌&&◌, ◌||◌, Option, none, some, List, [], ◌∷◌, ◌++◌, map,
  append-nil, append_assoc, arith, ltb, leb, ◌==◌, if◌then◌else◌, ltb→lt, lt→ltb, leb→le, le→leb,
  ==_iff, ==_refl, Bool-cases, Option-cases, take_front, drop_front, &&_true, Bytes, length,
  get_elem?, take, drop, replicate, All, length-append, take-append-drop, take-length-append,
  drop-length-append, length-take, length-drop, length-replicate, All-append, sum, mem, sum-append,
  when, and_then, when-eq-some, and_then-eq-some, get_elem?-lt, take-length, get_elem?-append,
}
use Prim.Native.String.{String}
use zzt_self.Extract.{Extract, IsSlice}

abbrev pub max_frame : ℕ
max_frame = 4096

abbrev pub frame_start_bytes : Bytes
frame_start_bytes = 0x68 ∷ 0x11 ∷ 0x12 ∷ 0x1A ∷ []

pub record Adapter : Type 0 where
  pub protocol : String
  pub try_extract : Bytes → Option Extract

-- One dictionary of `feed`'s result; its `complete` is always true.
pub record Frame : Type 0 where
  pub raw : Bytes
  pub protocol : String

-- `buf.find(b)`
unfoldable pub find : ℕ → Bytes → Option ℕ
find b [] = none
find b (x ∷ xs) =
    if x == b then some 0 else elim (find b xs) [ none ↦ none | some i ↦ some (suc i) ]

-- `buf.find(b, 1)`
abbrev pub find_later : ℕ → Bytes → Option ℕ
find_later b [] = none
find_later b (x ∷ xs) = elim (find b xs) [ none ↦ none | some i ↦ some (suc i) ]

-- The list `positions`, over the bytes `bs`.
abbrev pub positions : (ℕ → Option ℕ) → Bytes → List ℕ
positions at [] = []
positions at (b ∷ bs) = elim (at b) [ none ↦ positions at bs | some p ↦ p ∷ positions at bs ]

-- `min(positions)`, `none` when there is none.
unfoldable pub smallest : List ℕ → Option ℕ
smallest [] = none
smallest (p ∷ ps) = elim (smallest ps) [ none ↦ some p | some q ↦ some (min p q) ]

abbrev pub first_start : Bytes → Option ℕ
first_start buf = smallest (positions (λ b. find b buf) frame_start_bytes)

abbrev pub next_start : Bytes → Option ℕ
next_start buf = smallest (positions (λ b. find_later b buf) frame_start_bytes)

-- `del buf[:min(positions)]`, and what is done with no position.
abbrev pub cut_or_clear : Option ℕ → Bytes → Bytes
cut_or_clear none buf = []
cut_or_clear (some p) buf = drop p buf

abbrev pub cut_if_found : Option ℕ → Bytes → Option Bytes
cut_if_found none buf = none
cut_if_found (some p) buf = some (drop p buf)

abbrev pub byte_or_zero : Bytes → ℕ → ℕ
byte_or_zero bs i = elim (get_elem? bs i) [ none ↦ 0 | some b ↦ b ]

-- Bytes 1 and 2 of a buffer that has them.
abbrev pub total : Bytes → ℕ
total buf = byte_or_zero buf 1 + byte_or_zero buf 2 * 256

-- `buf[i] == 0x16`, where `i` is in range.
abbrev pub ends_at : Bytes → ℕ → Bool
ends_at buf i = byte_or_zero buf i == 0x16

-- The rules of `_resync` in order, each with the new buffer if it applies.
unfoldable pub drop_noise : Bytes → Option Bytes
drop_noise buf =
    when (not (mem (byte_or_zero buf 0) frame_start_bytes))
      (some (cut_or_clear (first_start buf) buf))

unfoldable pub skip_dualmode : Bytes → Option Bytes
skip_dualmode buf =
    when (mem (byte_or_zero buf 0) (0x11 ∷ 0x12 ∷ 0x1A ∷ []) && leb 4 (length buf))
      (cut_if_found (next_start buf) buf)

unfoldable pub skip_envelope : Bytes → Option Bytes
skip_envelope buf =
    let n = total buf in
    when
      (byte_or_zero buf 0 == 0x68
        && leb 3 (length buf)
        && leb 12 n
        && leb n max_frame
        && leb n (length buf)
        && ends_at buf (n - 1))
      (some (drop n buf))

unfoldable pub skip_truncated : Bytes → Option Bytes
skip_truncated buf =
    let n = total buf in
    when
      (byte_or_zero buf 0 == 0x68
        && leb 3 (length buf)
        && leb 12 n
        && leb n 2000
        && leb (n + 2) (length buf)
        && not (ends_at buf (n + 1)))
      (cut_if_found (next_start buf) buf)

unfoldable pub skip_oversized : Bytes → Option Bytes
skip_oversized buf = when (ltb max_frame (length buf)) (some (cut_or_clear (next_start buf) buf))

infixr 40 ◌or_else◌
abbrev pub ◌or_else◌ : Option Bytes → Option Bytes → Option Bytes
none or_else o = o
some b or_else o = some b

-- `_resync`: the new buffer, or `none` where it returns `False` and leaves the buffer alone.
unfoldable pub resync : Bytes → Option Bytes
resync [] = none
resync (b ∷ bs) =
    let buf = b ∷ bs in
    drop_noise buf
    or_else skip_dualmode buf
    or_else skip_envelope buf
    or_else skip_truncated buf
    or_else skip_oversized buf

-- The `for adp in self.adapters` loop.
unfoldable pub first_hit : List Adapter → Bytes → Option (String × Extract)
first_hit [] buf = none
first_hit (a ∷ adapters) buf = elim (a.try_extract buf) [
  | none ↦ first_hit adapters buf
  | some res ↦ some (a.protocol, res)
]

-- The `while True` loop of `feed`: the frames cut from here on, and the buffer left. `none` means
-- that the fuel ran out.
unfoldable pub feed_loop : List Adapter → ℕ → Bytes → Option (List Frame × Bytes)
feed_loop adapters zero buf = none
feed_loop adapters (suc fuel) buf = elim (first_hit adapters buf) [
  | some (protocol, res) ↦ elim (feed_loop adapters fuel (drop res.consumed buf)) [
    | none ↦ none
    | some (frames, rest) ↦ some (record { raw = res.raw; protocol = protocol } ∷ frames, rest)
  ]
  | none ↦ elim (resync buf) [ none ↦ some ([], buf) | some buf' ↦ feed_loop adapters fuel buf' ]
]

-- `feed` on the buffer `_buf`; each round takes at least one byte off, so this fuel is enough.
unfoldable pub feed : List Adapter → Bytes → Bytes → Option (List Frame × Bytes)
unfolding feed_loop
feed adapters buf chunk = let whole = buf ++ chunk in feed_loop adapters (suc (length whole)) whole

-- `reset` on the buffer.
abbrev pub reset : Bytes → Bytes
reset buf = []
