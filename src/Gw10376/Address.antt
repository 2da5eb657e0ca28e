-- ===== src/Gw10376/Address.antt =====
-- BCD strings and the address field A: `_bcd_to_str`, `_str_to_bcd`, `_pack_address`,
-- `_parse_address`. A string is the list of its code points; `none` is the `ValueError` of
-- `int(c, 16)`.
pub mod RoundTrip
use zzt_self.Base.{
  ℕ, zero, suc, ◌+◌, ◌-◌, ◌*◌, ◌/◌, ◌%◌, ◌^◌, ◌≤◌, ◌<◌, min, max, ◌≡◌, refl, sym, ap, ◌∙◌, ◌≢◌, ◌↔◌,
  ◌⊎◌, inl, inr, Bool, true, false, not, ◌&&◌, ◌||◌, Option, none, some, List, [], ◌∷◌, ◌++◌, map,
  append-nil, append_assoc, arith, ltb, leb, ◌==◌, if◌then◌else◌, ltb→lt, lt→ltb, leb→le, le→leb,
  ==_iff, ==_refl, Bool-cases, Option-cases, &&_true, Bytes, length, get_elem?, take, drop,
  replicate, All, length-append, take-append-drop, take-length-append, drop-length-append,
  length-take, length-drop, length-replicate, All-append, sum, mem, sum-append, when, and_then,
  when-eq-some, and_then-eq-some, get_elem?-lt,
}

abbrev pub Text : Type 0
Text = List ℕ

-- The white space of `str.strip`, as far as it is ASCII.
abbrev pub is_space : ℕ → Bool
is_space c = c == b' ' || (leb 9 c && leb c 13) || (leb 28 c && leb c 31)

pub lstrip : Text → Text
lstrip [] = []
lstrip (c ∷ cs) = if is_space c then lstrip cs else c ∷ cs

pub rstrip : Text → Text
rstrip [] = []
rstrip (c ∷ cs) = elim (rstrip cs) [ [] ↦ if is_space c then [] else c ∷ [] | d ∷ ds ↦ c ∷ d ∷ ds ]

-- `s.replace("-", "")`
pub without_dash : Text → Text
without_dash [] = []
without_dash (c ∷ cs) = if c == b'-' then without_dash cs else c ∷ without_dash cs

-- `int(c, 16)`
abbrev pub hex_digit : ℕ → Option ℕ
hex_digit c =
    if leb b'0' c && leb c b'9'
    then some (c - b'0')
    else if leb b'a' c && leb c b'f'
    then some (c - b'a' + 10)
    else if leb b'A' c && leb c b'F'
    then some (c - b'A' + 10)
    else none

-- The loop over `range(0, len(s), 2)`.
unfoldable pub bcd_pairs : Text → Option Bytes
bcd_pairs [] = some []
bcd_pairs (c ∷ []) = none
bcd_pairs (c ∷ d ∷ cs) = and_then (hex_digit c) (λ hi.
    and_then (hex_digit d) (λ lo. and_then (bcd_pairs cs) (λ bs. some ((hi * 16 + lo) ∷ bs))))

unfoldable pub str_to_bcd : Text → ℕ → Option Bytes
unfolding lstrip rstrip without_dash bcd_pairs
str_to_bcd s nbytes =
    let t = without_dash (rstrip (lstrip s)) in
    let size = nbytes * 2 in
    let full = if ltb (length t) size then replicate (size - length t) b'0' ++ t else t in
    bcd_pairs (take size full)

-- A half byte in decimal: two digits from ten on.
abbrev pub nibble : ℕ → Text
nibble d = if ltb d 10 then (b'0' + d) ∷ [] else b'1' ∷ (b'0' + (d - 10)) ∷ []

unfoldable pub bcd_to_str : Bytes → Text
bcd_to_str [] = []
bcd_to_str (b ∷ bs) = nibble (b / 16 % 16) ++ (nibble (b % 16) ++ bcd_to_str bs)

-- A missing key or `None` is the empty string, and no relay.
pub record Address : Type 0 where
  pub src : Text
  pub relay : List Text
  pub dst : Text

-- `if s: out += _str_to_bcd(s, 6)`
abbrev pub pack_end : Text → Option Bytes
pack_end [] = some []
pack_end (c ∷ cs) = str_to_bcd (c ∷ cs) 6

unfoldable pub pack_relays : List Text → Option Bytes
pack_relays [] = some []
pack_relays (r ∷ rs) =
    and_then (str_to_bcd r 6) (λ b. and_then (pack_relays rs) (λ bs. some (b ++ bs)))

unfoldable pub pack_address : Address → Option Bytes
unfolding pack_relays
pack_address a = and_then (pack_end a.src) (λ src.
    and_then (pack_relays a.relay)
      (λ relay. and_then (pack_end a.dst) (λ dst. some (src ++ (relay ++ dst)))))

-- The loop `while i + 6 < n`, over what stands from `i` on, then the last address. Each round takes
-- six bytes, so the length of the data is fuel enough.
unfoldable pub parse_relays : ℕ → Bytes → List Text × Text
unfolding bcd_to_str
parse_relays zero rest = ([], bcd_to_str (take 6 rest))
parse_relays (suc fuel) rest =
    let (relay, dst) = parse_relays fuel (drop 6 rest) in
    if ltb 6 (length rest)
    then (bcd_to_str (take 6 rest) ∷ relay, dst)
    else ([], if ltb 0 (length rest) then bcd_to_str (take 6 rest) else [])

unfoldable pub parse_address : Bytes → Address
unfolding bcd_to_str parse_relays
parse_address [] = record { src = []; relay = []; dst = [] }
parse_address (b ∷ bs) =
    let bytes = b ∷ bs in
    let (relay, dst) = parse_relays (length bytes) (drop 6 bytes) in
    record { src = bcd_to_str (take 6 bytes); relay = relay; dst = dst }
