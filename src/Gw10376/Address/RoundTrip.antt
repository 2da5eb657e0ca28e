-- ===== src/Gw10376/Address/RoundTrip.antt =====
-- Twelve-digit addresses survive packing and parsing.
use zzt_self.Base.{
  ℕ, zero, suc, ◌+◌, ◌-◌, ◌*◌, ◌/◌, ◌%◌, ◌≤◌, ◌<◌, ◌≡◌, refl, ap, ◌∙◌, ◌≢◌, false, some, List, [],
  ◌∷◌, ◌++◌, append_assoc, arith, ltb, lt→ltb, Bytes, length, take, All, length-append, take-length,
  take_front, drop_front, and_then,
}
use zzt_self.Gw10376.Address.{
  Text, is_space, lstrip, rstrip, without_dash, hex_digit, bcd_pairs, str_to_bcd, nibble,
  bcd_to_str, Address, pack_end, pack_relays, pack_address, parse_relays, parse_address,
}

abbrev pub IsDigit : ℕ → Type 0
IsDigit c = (b'0' ≤ c) × (c ≤ b'9')

-- `IsBcd n s`: the text has `2 * n` decimal digits.
pub data IsBcd : ℕ → Text → Type 0 where
  nil : IsBcd 0 []
  cons : {n c d : ℕ} {cs : Text} → IsDigit c → IsDigit d → IsBcd n cs → IsBcd (suc n) (c ∷ d ∷ cs)

-- A digit is neither white space nor a dash.
abbrev IsPlain : ℕ → Type 0
IsPlain c = (is_space c ≡ false) × (c ≢ b'-')

digit-IsPlain : (c : ℕ) → IsDigit c → IsPlain c
digit-IsPlain c h = (ground arith, omega arith)

IsBcd-IsPlain : {n : ℕ} {s : Text} → IsBcd n s → All IsPlain s
IsBcd-IsPlain nil = tt
IsBcd-IsPlain (cons {c = c} {d = d} h k t) =
    (digit-IsPlain c h, (digit-IsPlain d k, IsBcd-IsPlain t))

lstrip-plain : (s : Text) → All IsPlain s → lstrip s ≡ s
unfolding lstrip
lstrip-plain [] h = refl
lstrip-plain (c ∷ cs) h = rw h.0.0

rstrip-plain : (s : Text) → All IsPlain s → rstrip s ≡ s
unfolding rstrip
rstrip-plain [] h = refl
rstrip-plain (c ∷ []) h = rw h.0.0
rstrip-plain (c ∷ d ∷ cs) h = rw (rstrip-plain (d ∷ cs) h.1, rstrip)

without_dash-plain : (s : Text) → All IsPlain s → without_dash s ≡ s
unfolding without_dash
without_dash-plain [] h = refl
without_dash-plain (c ∷ cs) h = ground (arith, h.0.1, without_dash-plain cs h.1)

IsBcd-length : {n : ℕ} {s : Text} → IsBcd n s → length s ≡ n * 2
IsBcd-length nil = refl
IsBcd-length (cons h k t) = omega (arith, IsBcd-length t)

-- The bytes of a digit string.
pub bytes_of : Text → Bytes
bytes_of [] = []
bytes_of (c ∷ []) = []
bytes_of (c ∷ d ∷ cs) = ((c - b'0') * 16 + (d - b'0')) ∷ bytes_of cs

hex_digit-digit : (c : ℕ) → IsDigit c → hex_digit c ≡ some (c - b'0')
hex_digit-digit c h = ground arith

bcd_pairs-IsBcd : {n : ℕ} {s : Text} → IsBcd n s → bcd_pairs s ≡ some (bytes_of s)
unfolding bcd_pairs bytes_of
bcd_pairs-IsBcd nil = refl
bcd_pairs-IsBcd (cons {c = c} {d = d} h k t) =
    rw (hex_digit-digit c h, and_then) (rw (hex_digit-digit d k, and_then) (rw (bcd_pairs-IsBcd t)))

pub str_to_bcd-IsBcd : {n : ℕ} {s : Text} → IsBcd n s → str_to_bcd s n ≡ some (bytes_of s)
unfolding str_to_bcd
str_to_bcd-IsBcd {n} {s} h =
    let p = IsBcd-IsPlain h in
    let clean : without_dash (rstrip (lstrip s)) ≡ s =
      rw (lstrip-plain s p, rstrip-plain s p) (without_dash-plain s p) in
    let size = IsBcd-length h in
    let long : ltb (length s) (n * 2) ≡ false = ground (arith, size) in
    let whole : take (n * 2) s ≡ s = rw (← size) (take-length s) in
    rw clean (rw (long, whole) (bcd_pairs-IsBcd h))

nibble-digit : (c : ℕ) → IsDigit c → nibble (c - b'0') ≡ c ∷ []
nibble-digit c h = ground arith

pub bcd_to_str-bytes_of : {n : ℕ} {s : Text} → IsBcd n s → bcd_to_str (bytes_of s) ≡ s
unfolding bcd_to_str bytes_of
bcd_to_str-bytes_of nil = refl
bcd_to_str-bytes_of (cons {c = c} {d = d} h k t) =
    let hi : ((c - b'0') * 16 + (d - b'0')) / 16 % 16 ≡ c - b'0' = omega arith in
    let lo : ((c - b'0') * 16 + (d - b'0')) % 16 ≡ d - b'0' = omega arith in
    rw (hi, lo)
      (rw (nibble-digit c h, nibble-digit d k) (ap (λ s. c ∷ d ∷ s) (bcd_to_str-bytes_of t)))

pub length-bytes_of : {n : ℕ} {s : Text} → IsBcd n s → length (bytes_of s) ≡ n
unfolding bytes_of
length-bytes_of nil = refl
length-bytes_of (cons h k t) = omega (arith, length-bytes_of t)

abbrev pub All6 : List Text → Type 0
All6 = All (IsBcd 6)

-- The packed relay addresses, one after the other.
pub relay_bytes : List Text → Bytes
relay_bytes [] = []
relay_bytes (r ∷ rs) = bytes_of r ++ relay_bytes rs

pack_relays-IsBcd : (rs : List Text) → All6 rs → pack_relays rs ≡ some (relay_bytes rs)
unfolding pack_relays relay_bytes
pack_relays-IsBcd [] h = refl
pack_relays-IsBcd (r ∷ rs) h = rw (str_to_bcd-IsBcd h.0, and_then) (rw (pack_relays-IsBcd rs h.1))

pub length-relay_bytes : (rs : List Text) → All6 rs → length (relay_bytes rs) ≡ 6 * length rs
unfolding relay_bytes
length-relay_bytes [] h = refl
length-relay_bytes (r ∷ rs) h = omega (
  arith,
  length-append (bytes_of r) (relay_bytes rs),
  length-bytes_of h.0,
  length-relay_bytes rs h.1,
)

pack_end-IsBcd : {s : Text} → IsBcd 6 s → pack_end s ≡ some (bytes_of s)
pack_end-IsBcd (cons h k t) = str_to_bcd-IsBcd (cons h k t)

-- An address with a source, a destination and any relays, all of twelve digits.
pub record IsFull (a : Address) : Type 0 where
  pub src_digits : IsBcd 6 a.src
  pub relay_digits : All6 a.relay
  pub dst_digits : IsBcd 6 a.dst

abbrev pub address_bytes : Address → Bytes
address_bytes a = bytes_of a.src ++ (relay_bytes a.relay ++ bytes_of a.dst)

pub pack_address-IsFull : (a : Address) → IsFull a → pack_address a ≡ some (address_bytes a)
unfolding pack_address
pack_address-IsFull a h =
    rw (pack_end-IsBcd h.src_digits, and_then)
      (rw (pack_relays-IsBcd a.relay h.relay_digits, and_then) (rw (pack_end-IsBcd h.dst_digits)))

parse_relays_last :
    (fuel : ℕ) (bs : Bytes) → length bs ≡ 6 → parse_relays (suc fuel) bs ≡ ([], bcd_to_str bs)
unfolding parse_relays
parse_relays_last fuel bs six =
    let whole : take 6 bs ≡ bs = rw (← six) (take-length bs) in rw (whole, six)

parse_relays_more :
    (fuel : ℕ) (bs rest : Bytes) {relay : List Text} {dst : Text}
    → length bs ≡ 6
    → 0 < length rest
    → parse_relays fuel rest ≡ (relay, dst)
    → parse_relays (suc fuel) (bs ++ rest) ≡ (bcd_to_str bs ∷ relay, dst)
unfolding parse_relays
parse_relays_more fuel bs rest six more e =
    rw (lt→ltb 6 (length (bs ++ rest)) (omega (arith, length-append bs rest)))
      (rw (take_front bs rest six, drop_front bs rest six) (rw e))

parse_relays-bytes :
    (fuel : ℕ) (rs : List Text) (dst : Text)
    → All6 rs
    → IsBcd 6 dst
    → length rs < fuel
    → parse_relays fuel (relay_bytes rs ++ bytes_of dst) ≡ (rs, dst)
unfolding relay_bytes
parse_relays-bytes zero rs dst h k lt = absurd (omega arith)
parse_relays-bytes (suc fuel) [] dst h k lt =
    parse_relays_last fuel (bytes_of dst) (length-bytes_of k)
    ∙ ap (λ s. ([], s)) (bcd_to_str-bytes_of k)
parse_relays-bytes (suc fuel) (r ∷ rs) dst h k lt =
    let later = parse_relays-bytes fuel rs dst h.1 k (omega arith) in
    let some_left : 0 < length (relay_bytes rs ++ bytes_of dst) =
      omega (arith, length-append (relay_bytes rs) (bytes_of dst), length-bytes_of k) in
    ap (parse_relays (suc fuel)) (append_assoc (bytes_of r) (relay_bytes rs) (bytes_of dst))
    ∙ parse_relays_more fuel (bytes_of r) _ (length-bytes_of h.0) some_left later
    ∙ ap (λ s. (s ∷ rs, dst)) (bcd_to_str-bytes_of h.0)

length-address_bytes : (a : Address) → IsFull a → length (address_bytes a) ≡ 6 * length a.relay + 12
length-address_bytes a h = omega (
  arith,
  length-append (bytes_of a.src) (relay_bytes a.relay ++ bytes_of a.dst),
  length-append (relay_bytes a.relay) (bytes_of a.dst),
  length-bytes_of h.src_digits,
  length-relay_bytes a.relay h.relay_digits,
  length-bytes_of h.dst_digits,
)

parse_address_split :
    (src rest : Bytes) {relay : List Text} {dst : Text}
    → length src ≡ 6
    → parse_relays (length (src ++ rest)) rest ≡ (relay, dst)
    → parse_address (src ++ rest) ≡ record { src = bcd_to_str src; relay = relay; dst = dst }
unfolding parse_address
parse_address_split [] rest six e = absurd (omega arith)
parse_address_split (b ∷ bs) rest six e =
    let five : length bs ≡ 5 = omega arith in
    rw (take_front bs rest five, drop_front bs rest five) (rw e)

-- Parsing the packed address gives back every address in its place.
pub parse_address-pack_address :
    (a : Address)
    → IsFull a
    → (bs : Bytes) × (pack_address a ≡ some bs)
      × (parse_address bs ≡ a)
      × (length bs ≡ 6 * length a.relay + 12)
parse_address-pack_address a h =
    let size = length-address_bytes a h in
    let rest = relay_bytes a.relay ++ bytes_of a.dst in
    let relays =
      parse_relays-bytes (length (address_bytes a)) a.relay a.dst h.relay_digits h.dst_digits
        (omega arith) in
    (
      address_bytes a,
      pack_address-IsFull a h,
      parse_address_split (bytes_of a.src) rest (length-bytes_of h.src_digits) relays
          ∙ ap (λ s. record a { src = s }) (bcd_to_str-bytes_of h.src_digits),
      size,
    )
