-- ===== src/Meter698/Frame.antt =====
-- `build_frame`, `try_extract`, `confidence` and the fields that `decode` reads before the APDU.
pub mod RoundTrip
pub mod Laws
use zzt_self.Base.{
  ℕ, zero, suc, ◌+◌, ◌-◌, ◌*◌, ◌/◌, ◌%◌, ◌^◌, ◌≤◌, ◌<◌, min, max, ◌≡◌, refl, sym, ap, ◌∙◌, ◌≢◌, ◌↔◌,
  ◌⊎◌, inl, inr, Bool, true, false, not, ◌&&◌, ◌||◌, Option, none, some, List, [], ◌∷◌, ◌++◌, map,
  append-nil, append_assoc, arith, ltb, leb, ◌==◌, if◌then◌else◌, ltb→lt, lt→ltb, leb→le, le→leb,
  ==_iff, ==_refl, Bool-cases, Option-cases, take_front, drop_front, &&_true, not-eq-true, Bytes,
  length, get_elem?, take, drop, replicate, All, length-append, take-append-drop,
  take-length-append, drop-length-append, length-take, length-drop, length-replicate, All-append,
  sum, mem, sum-append, when, and_then, when-eq-some, and_then-eq-some, holds_under, holds_under_at,
  get_elem?-lt, take-length, get_elem?-append, drop-length, same, same_refl, drop-drop, take_all,
  same_text, same_text_iff, text_or, is_text, digit, digits, decimal, has_text, join, numbered,
}
use zzt_self.Extract.{Extract}
use zzt_self.Gw10376.Frame.{is_byte, from_end, le16}
use zzt_self.Meter698.Fcs.{fcs_bytes, check_fcs}

-- The arguments of `build_frame`.
pub record Link : Type 0 where
  pub apdu : Bytes
  pub addr_bytes : Bytes
  pub ca : ℕ
  pub control : ℕ

abbrev pub size_of : Link → ℕ
size_of k = 2 + 1 + length k.addr_bytes + 1 + 2 + length k.apdu + 2

-- `body[1:]` before HCS: L, C, the addresses.
abbrev pub head : Link → Bytes
head k = (size_of k % 256) ∷ (size_of k / 256 % 256) ∷ k.control ∷ (k.addr_bytes ++ (k.ca ∷ []))

-- `body[1:]` before FCS.
abbrev pub checked : Link → Bytes
checked k = head k ++ (fcs_bytes (head k) ++ k.apdu)

-- The frame that `build_frame` puts together.
unfoldable pub frame_of : Link → Bytes
frame_of k = 0x68 ∷ (checked k ++ (fcs_bytes (checked k) ++ (0x16 ∷ [])))

-- `bytes([control])` and `bytes([ca])` raise a `ValueError`, which is `none`, for what is no byte.
unfoldable pub build_frame : Link → Option Bytes
build_frame k = if leb 256 k.control || leb 256 k.ca then none else some (frame_of k)

-- `raw[a:b]`
abbrev pub slice : ℕ → ℕ → Bytes → Bytes
slice a b raw = take (b - a) (drop a raw)

-- `(raw[4] & 0x0F) + 2`
abbrev pub sa_length : Bytes → ℕ
sa_length raw = elim (get_elem? raw 4) [ none ↦ 2 | some h ↦ h % 16 + 2 ]

unfoldable pub try_extract : Bytes → Option Extract
try_extract buf =
    let n = length buf in
    let size = le16 buf 1 in
    let raw = take (size + 2) buf in
    if ltb n 4 || not (is_byte (get_elem? buf 0) 0x68)
    then none
    else if is_byte (get_elem? buf 3) 0x68
    then none
    else if ltb size 12 || ltb 2000 size
    then none
    else if leb n (size + 1) || not (is_byte (get_elem? buf (size + 1)) 0x16)
    then none
    else if ltb (length raw) (4 + sa_length raw + 8)
    then none
    else some (record { raw = raw; consumed = size + 2 })

-- The keys of `_APDU_NAMES`.
abbrev pub apdu_tags : Bytes
apdu_tags =
    0x01 ∷ 0x81 ∷ 0x02 ∷ 0x82 ∷ 0x03 ∷ 0x83 ∷ 0x05 ∷ 0x85 ∷ 0x06 ∷ 0x86 ∷ 0x07 ∷ 0x87 ∷ 0x08 ∷ 0x88
    ∷ 0x09 ∷ 0x89 ∷ 0x84 ∷ 0x10 ∷ 0x90 ∷ []

-- `raw[hcs_pos + 2] if fcs_pos > hcs_pos + 2 else None`
abbrev pub known_apdu : Bytes → Bool
known_apdu raw =
    let at = sa_length raw + 7 in
    if ltb at (length raw - 3)
    then elim (get_elem? raw at) [ none ↦ false | some tag ↦ mem tag apdu_tags ]
    else false

abbrev pub hcs_ok : Bytes → Bool
hcs_ok raw = let at = sa_length raw + 5 in check_fcs (slice 1 at raw) (slice at (at + 2) raw)

abbrev pub fcs_ok : Bytes → Bool
fcs_ok raw = let at = length raw - 3 in check_fcs (slice 1 at raw) (slice at (at + 2) raw)

-- `raw[7] == 0x68` and the length that a 645 frame would have.
abbrev pub like_645 : Bytes → Bool
like_645 raw =
    is_byte (get_elem? raw 7) 0x68
    && elim (get_elem? raw 9) [ none ↦ false | some l ↦ leb l 200 && length raw == 12 + l ]

-- In hundredths. Its slices and indices are in range once 12 bytes are there.
unfoldable pub confidence : Bytes → ℕ
confidence raw =
    if ltb (length raw) 12
      || not (is_byte (get_elem? raw 0) 0x68)
      || not (is_byte (from_end raw 1) 0x16)
    then 0
    else if is_byte (get_elem? raw 3) 0x68
    then 0
    else if like_645 raw
    then 0
    else if not (length raw == le16 raw 1 + 2)
    then 0
    else if ltb (length raw) (4 + sa_length raw + 3)
    then 0
    else if not (hcs_ok raw)
    then 30
    else if not (fcs_ok raw)
    then 50
    else if known_apdu raw
    then 100
    else 85

pub data Party : Type 0 where
  server client : Party

pub data Station : Type 0 where
  initiator follower : Station

-- The values that `decode` records before it looks into the APDU.
pub record Header : Type 0 where
  pub size : ℕ
  pub control : ℕ
  pub sender : Party
  pub station : Station
  pub fragmented : Bool
  pub func_code : ℕ
  pub sa : Bytes
  pub logical_addr : Bytes
  pub wildcard : Bool
  pub ca : ℕ
  pub hcs : Bytes
  pub fcs : Bytes
  pub hcs_passes : Bool
  pub fcs_passes : Bool
  pub apdu : Bytes

-- `x & (1 << k)`
abbrev pub bit_set : ℕ → ℕ → Bool
bit_set k x = x / 2 ^ k % 2 == 1

abbrev pub reversed : Bytes → Bytes
reversed [] = []
reversed (b ∷ bs) = reversed bs ++ (b ∷ [])

abbrev pub header_of : Bytes → ℕ → ℕ → ℕ → Header
header_of raw c h ca =
    let len = h % 16 + 2 in
    let fcs_at = length raw - 3 in
    let sa = slice 4 (4 + len) raw in
    record {
      size = le16 raw 1;
      control = c;
      sender = if bit_set 7 c then server else client;
      station = if bit_set 6 c then initiator else follower;
      fragmented = bit_set 5 c;
      func_code = c % 16;
      sa = sa;
      logical_addr = reversed (drop 1 sa);
      wildcard = bit_set 6 h;
      ca = ca;
      hcs = slice (len + 5) (len + 7) raw;
      fcs = slice fcs_at (fcs_at + 2) raw;
      hcs_passes = hcs_ok raw;
      fcs_passes = fcs_ok raw;
      apdu = slice (len + 7) fcs_at raw;
    }

-- `none` is the `IndexError` of a frame that ends before the client address.
unfoldable pub decode_header : Bytes → Option Header
decode_header raw = and_then (get_elem? raw 3) (λ c.
    and_then (get_elem? raw 4)
      (λ h. and_then (get_elem? raw (4 + (h % 16 + 2))) (λ ca. some (header_of raw c h ca))))
