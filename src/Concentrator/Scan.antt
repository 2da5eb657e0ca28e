-- ===== src/Concentrator/Scan.antt =====
-- `scan_frame`, which looks for a 1376.2 frame in a stream with noise:
-- libs/sim_concentrator/frame_codec.py.
pub mod Sound
pub mod Complete
use zzt_self.Base.{
  ℕ, zero, suc, ◌+◌, ◌-◌, ◌*◌, ◌/◌, ◌%◌, ◌^◌, ◌≤◌, ◌<◌, min, max, ◌≡◌, refl, sym, ap, ◌∙◌, ◌≢◌, ◌↔◌,
  ◌⊎◌, inl, inr, Bool, true, false, not, ◌&&◌, ◌||◌, Option, none, some, List, [], ◌∷◌, ◌++◌, map,
  append-nil, append_assoc, arith, ltb, leb, ◌==◌, if◌then◌else◌, ltb→lt, lt→ltb, leb→le, le→leb,
  ==_iff, ==_refl, Bool-cases, Option-cases, take_front, drop_front, &&_true, not-eq-true, Bytes,
  length, get_elem?, take, drop, replicate, All, length-append, take-append-drop,
  take-length-append, drop-length-append, length-take, length-drop, length-replicate, All-append,
  sum, mem, sum-append, when, and_then, when-eq-some, and_then-eq-some, holds_under, holds_under_at,
  if-holds, elim-holds, get_elem?-lt, take-length, get_elem?-append, drop-length, same, same_refl,
  drop-drop, take_all, same_text, same_text_iff, text_or, is_text, digit, digits, decimal, has_text,
  join, numbered,
}
use zzt_self.Gw10376.Frame.{is_byte, from_end, le16}

-- The pair that is returned.
pub record Scan : Type 0 where
  pub frame : Option Bytes
  pub consumed : ℕ

-- No frame, and nothing to drop from the buffer.
abbrev pub pending : Scan
pending = record { frame = none; consumed = 0 }

-- The structure and the checksum of a candidate, `sum(candidate[3:-2])` against `candidate[-2]`.
abbrev pub is_frame : Bytes → Bool
is_frame raw =
    not (is_byte (get_elem? raw 3) 0x68)
    && is_byte (from_end raw 1) 0x16
    && is_byte (from_end raw 2) (sum (drop 3 (take (length raw - 2) raw)) % 256)

-- One round of the loop at a byte 68H, `buf` from there on, with what the next round gives.
abbrev pub at_start : ℕ → Bytes → Scan → Scan
at_start i buf next =
    let size = le16 buf 1 in
    if ltb (length buf) 4
    then pending
    else if ltb size 10
    then next
    else if ltb (length buf) size
    then pending
    else if is_frame (take size buf)
    then record { frame = some (take size buf); consumed = i + size }
    else next

-- The loop from position `i`, with the bytes from there on.
unfoldable pub scan_from : ℕ → Bytes → Scan
scan_from i [] = pending
scan_from i (b ∷ rest) =
    let next = scan_from (suc i) rest in if b == 0x68 then at_start i (b ∷ rest) next else next

abbrev pub scan_frame : Bytes → Scan
scan_frame buf = scan_from 0 buf
