-- ===== src/Meter698/Data.antt =====
-- `_parse_data`: A-XDR values at an offset of a byte sequence.
pub mod Total
pub mod Bounds
pub mod RoundTrip
use zzt_self.Base.{
  ℕ, zero, suc, ◌+◌, ◌-◌, ◌*◌, ◌/◌, ◌%◌, ◌^◌, ◌≤◌, ◌<◌, min, max, ◌≡◌, refl, sym, ap, ◌∙◌, ◌≢◌, ◌↔◌,
  ◌⊎◌, inl, inr, Bool, true, false, not, ◌&&◌, ◌||◌, Option, none, some, List, [], ◌∷◌, ◌++◌, map,
  append-nil, append_assoc, arith, ltb, leb, ◌==◌, if◌then◌else◌, ltb→lt, lt→ltb, leb→le, le→leb,
  ==_iff, ==_refl, Bool-cases, Option-cases, take_front, drop_front, &&_true, not-eq-true, Bytes,
  length, get_elem?, take, drop, replicate, All, length-append, take-append-drop,
  take-length-append, drop-length-append, length-take, length-drop, length-replicate, All-append,
  sum, mem, sum-append, when, and_then, when-eq-some, and_then-eq-some, holds_under, holds_under_at,
  get_elem?-lt, take-length, get_elem?-append, drop-length, same, same_refl, drop-drop, take_all,
  same_text, same_text_iff, text_or, is_text, digit, digits, decimal, has_text, join, numbered,
}
use zzt_self.Meter698.Frame.{slice}

pub data ℤ : Type 0 where
  pos : ℕ → ℤ
  negsuc : ℕ → ℤ

-- What the branches return first. `empty`, `raw_mark`, `float32` and `float64` are the texts
-- "<empty>", "<raw>", "<float32>" and "<float64>", and `hex` is `.hex()` of its bytes. The unit is
-- always `None`.
mutual
  pub data Value : Type 0 where
    empty : Value
    raw_mark : Value
    float32 : Value
    float64 : Value
    null : Value
    flag : Bool → Value
    number : ℤ → Value
    hex : Bytes → Value
    decoded_text : Bytes → Value
    date_time : ℕ → Bytes → Value
    many : Values → Value
    record_rows : Bytes → List Bytes → Value

  pub data Values : Type 0 where
    nil : Values
    cons : Value → Values → Values

-- `int.from_bytes(bs, 'big', signed=False)`
abbrev pub big_endian : ℕ → Bytes → ℕ
big_endian acc [] = acc
big_endian acc (b ∷ bs) = big_endian (acc * 256 + b) bs

-- `int.from_bytes(bs, 'big', signed=True)`
abbrev pub signed : Bytes → ℤ
signed bs =
    let full = 2 ^ (8 * length bs) in
    let u = big_endian 0 bs in if ltb u (full / 2) then pos u else negsuc (full - 1 - u)

abbrev pub unsigned : Bytes → Value
unsigned bs = number (pos (big_endian 0 bs))

-- `bs.decode('ascii')`, or the bytes in hex where that fails.
abbrev pub ascii : Bytes → Bool
ascii [] = true
ascii (b ∷ bs) = ltb b 128 && ascii bs

-- The bytes that may follow a lead byte of UTF-8: how many, and the range of the next one.
abbrev pub utf8_lead : ℕ → Option (ℕ × ℕ × ℕ)
utf8_lead b =
    if ltb b 0x80
    then some (0, 0, 0)
    else if leb 0xC2 b && leb b 0xDF
    then some (1, 0x80, 0xBF)
    else if b == 0xE0
    then some (2, 0xA0, 0xBF)
    else if b == 0xED
    then some (2, 0x80, 0x9F)
    else if leb 0xE1 b && leb b 0xEF
    then some (2, 0x80, 0xBF)
    else if b == 0xF0
    then some (3, 0x90, 0xBF)
    else if leb 0xF1 b && leb b 0xF3
    then some (3, 0x80, 0xBF)
    else if b == 0xF4
    then some (3, 0x80, 0x8F)
    else none

-- `bs.decode('utf-8')` is without error; `more` bytes are due, the next one from `low` to `high`.
abbrev pub utf8 : ℕ → ℕ → ℕ → Bytes → Bool
utf8 zero low high [] = true
utf8 (suc more) low high [] = false
utf8 zero low high (b ∷ bs) = elim (utf8_lead b) [ none ↦ false | some (n, l, h) ↦ utf8 n l h bs ]
utf8 (suc more) low high (b ∷ bs) = (leb low b && leb b high) && utf8 more 0x80 0xBF bs

abbrev pub text_or_hex : Bool → Bytes → Value
text_or_hex ok bs = if ok then decoded_text bs else hex bs

-- The tags with a fixed width: how many bytes follow, and what is made of them.
abbrev pub fixed : ℕ → Option (ℕ × (Bytes → Value))
fixed tag =
    if tag == 0
    then some (0, λ bs. null)
    else if tag == 3
    then some (1, λ bs. flag (big_endian 0 bs % 2 == 1))
    else if tag == 5
    then some (4, λ bs. number (signed bs))
    else if tag == 6
    then some (4, unsigned)
    else if tag == 15
    then some (1, λ bs. number (signed bs))
    else if tag == 16
    then some (2, λ bs. number (signed bs))
    else if tag == 17 || tag == 22
    then some (1, unsigned)
    else if tag == 18
    then some (2, unsigned)
    else if tag == 20
    then some (8, λ bs. number (signed bs))
    else if tag == 21
    then some (8, unsigned)
    else if tag == 23
    then some (4, λ bs. float32)
    else if tag == 24
    then some (8, λ bs. float64)
    else if tag == 25
    then some (10, hex)
    else if tag == 26
    then some (5, hex)
    else if tag == 27
    then some (3, hex)
    else if tag == 28
    then some (7, λ bs. date_time (big_endian 0 (take 2 bs)) (drop 2 bs))
    else if tag == 80
    then some (2, hex)
    else if tag == 81
    then some (4, hex)
    else none

-- The tags with a length byte: what is made of the bytes behind it.
abbrev pub prefixed : ℕ → Option (Bytes → Value)
prefixed tag =
    if tag == 9 || tag == 4
    then some hex
    else if tag == 10
    then some (λ bs. text_or_hex (ascii bs) bs)
    else if tag == 12
    then some (λ bs. text_or_hex (utf8 0 0 0 bs) bs)
    else none

-- `[data[at+4*i:at+4+4*i] for i in range(n)]`
abbrev pub quads : ℕ → Bytes → List Bytes
quads zero bs = []
quads (suc n) bs = take 4 bs ∷ quads n (drop 4 bs)

-- A value and the number of bytes it takes; `none` is an `IndexError`.
abbrev pub Parsed : Type 0
Parsed = Option (Value × ℕ)

-- `for _ in range(cnt)`, from a position on; the values and the position behind them.
unfoldable pub parse_items : (ℕ → Parsed) → ℕ → ℕ → Option (Values × ℕ)
parse_items step zero at = some (nil, at)
parse_items step (suc n) at =
    and_then (step at)
      (λ one. and_then (parse_items step n (at + one.1)) (λ rest. some (cons one.0 rest.0, rest.1)))

abbrev pub not_enough : Parsed
not_enough = some (raw_mark, 1)

abbrev pub parse_road : Bytes → ℕ → Parsed
parse_road bs offset = and_then (get_elem? bs (offset + 5)) (λ ln. some (
  record_rows (slice (offset + 1) (offset + 5) bs)
      (if ltb (offset + 5 + 4 * ln) (length bs) then quads ln (drop (offset + 6) bs) else []),
  6 + 4 * ln,
))

abbrev pub parse_fixed : ℕ → (Bytes → Value) → Bytes → ℕ → Parsed
parse_fixed width make bs offset =
    if ltb (offset + width) (length bs)
    then some (make (slice (offset + 1) (offset + 1 + width) bs), 1 + width)
    else not_enough

abbrev pub parse_prefixed : (Bytes → Value) → Bytes → ℕ → Parsed
parse_prefixed make bs offset = elim (get_elem? bs (offset + 1)) [
  | none ↦ not_enough
  | some ln ↦
      if ltb (offset + 1 + ln) (length bs)
      then some (make (slice (offset + 2) (offset + 2 + ln) bs), 2 + ln)
      else not_enough
]

-- An array or a structure.
abbrev pub parse_nested : (ℕ → Parsed) → Bytes → ℕ → Parsed
parse_nested step bs offset = elim (get_elem? bs (offset + 1)) [
  | none ↦ not_enough
  | some cnt ↦
      and_then (parse_items step cnt (offset + 2)) (λ all. some (many all.0, all.1 - offset))
]

-- The branches for the tag at `offset`, with the outcome for an array or a structure.
unfoldable pub parse_tag : Parsed → Bytes → ℕ → ℕ → Parsed
parse_tag nested bs offset tag = elim (fixed tag) [
  | some (width, make) ↦ parse_fixed width make bs offset
  | none ↦ elim (prefixed tag) [
    | some make ↦ parse_prefixed make bs offset
    | none ↦
        if tag == 1 || tag == 2
        then nested
        else if tag == 82
        then if leb (length bs) (offset + 1) then not_enough else parse_road bs offset
        else some (hex (drop (offset + 1) bs), length bs - offset)
  ]
]

unfoldable pub parse_fuel : ℕ → Bytes → ℕ → Parsed
parse_fuel zero bs offset = some (empty, 0)
parse_fuel (suc fuel) bs offset = elim (get_elem? bs offset) [
  | none ↦ some (empty, 0)
  | some tag ↦ parse_tag (parse_nested (parse_fuel fuel bs) bs offset) bs offset tag
]

-- Every byte from `offset` on is one level of nesting at most; the limit that Python puts on recursion
-- is not modelled.
abbrev pub parse_data : Bytes → ℕ → Parsed
parse_data bs offset = parse_fuel (length bs - offset) bs offset
