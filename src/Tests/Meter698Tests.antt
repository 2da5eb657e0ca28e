-- ===== src/Tests/Meter698Tests.antt =====
-- Runs of the 698.45 adapter, and its theorems at concrete frames.
use zzt_self.Base.{ℕ, ◌≡◌, refl, ◌≢◌, true, none, some, [], ◌∷◌, ◌++◌, arith, Bytes, length, All}
use zzt_self.Meter698.Data.RoundTrip.{
  Item, long_unsigned_item, octets, structure_item, no_items, item_then, item_count, encode,
}
use zzt_self.Meter698.Fcs.{fcs_from, check_fcs, fcs_bytes}
use zzt_self.Meter698.Fcs.Residue.{check_fcs-fcs_bytes}
use zzt_self.Meter698.Fcs.Reference.{shift_register, fcs_from-shift_register}
use zzt_self.Meter698.Frame.{Link, frame_of, build_frame, try_extract}
use zzt_self.Meter698.Frame.RoundTrip.{IsLink}
use zzt_self.Meter698.Frame.Laws.{try_extract-build_frame_prefix}
use zzt_self.Meter698.Data.{
  Value, many, cons, nil, number, pos, negsuc, decoded_text, parse_data, parse_tag, parse_items,
  parse_fuel,
}
use zzt_self.Meter698.Data.Bounds.{Within, parse_data-Within}

-- A GET-Request for OAD 40010200 to the server 000000000001.
abbrev get_request : Link
get_request = record {
  apdu = 0x05 ∷ 0x01 ∷ 0x01 ∷ 0x40 ∷ 0x01 ∷ 0x02 ∷ 0x00 ∷ 0x00 ∷ [];
  addr_bytes = 0x05 ∷ 0x01 ∷ 0x00 ∷ 0x00 ∷ 0x00 ∷ 0x00 ∷ 0x00 ∷ [];
  ca = 0x10;
  control = 0x43;
}

get_request_bytes : frame_of get_request ≡ (
    0x68 ∷ 0x17 ∷ 0x00 ∷ 0x43 ∷ 0x05 ∷ 0x01 ∷ 0x00 ∷ 0x00 ∷ 0x00 ∷ 0x00 ∷ 0x00 ∷ 0x10 ∷ 0x26 ∷ 0xF6
    ∷ 0x05 ∷ 0x01 ∷ 0x01 ∷ 0x40 ∷ 0x01 ∷ 0x02 ∷ 0x00 ∷ 0x00 ∷ 0xC6 ∷ 0x07 ∷ 0x16 ∷ [])
unfolding frame_of fcs_bytes fcs_from
get_request_bytes = refl

get_request-IsLink : IsLink get_request
get_request-IsLink = record {
  first = 0x05;
  others = 0x01 ∷ 0x00 ∷ 0x00 ∷ 0x00 ∷ 0x00 ∷ 0x00 ∷ [];
  addr_is = refl;
  announced = refl;
  filled = omega arith;
  fits = omega arith;
}

-- An array of a long 300, an integer -1 and the text "AB", with two bytes behind it.
abbrev sample_array : Bytes
sample_array = 1 ∷ 3 ∷ 16 ∷ 1 ∷ 44 ∷ 15 ∷ 255 ∷ 10 ∷ 2 ∷ 65 ∷ 66 ∷ 0 ∷ 0 ∷ []

sample_array_value :
    parse_data sample_array 0
    ≡ some (
      many (
          cons
            (number (pos 300))
            (cons (number (negsuc 0)) (cons (decoded_text (65 ∷ 66 ∷ [])) nil))),
      11,
    )
unfolding parse_fuel parse_tag parse_items
sample_array_value = refl

-- A ROAD that ends behind its tag and one more byte is an `IndexError`.
truncated_road : parse_data (82 ∷ 64 ∷ []) 0 ≡ none
unfolding parse_fuel parse_tag
truncated_road = refl

-- A ROAD may report more bytes than there are.
road_past_the_end : (v : Value) × (parse_data (82 ∷ 64 ∷ 1 ∷ 2 ∷ 0 ∷ 9 ∷ []) 0 ≡ some (v, 42))
unfolding parse_fuel parse_tag
road_past_the_end = (_, refl)

fcs_from-shift_register_example :
    fcs_from 0xFFFF (0x17 ∷ 0x00 ∷ 0x43 ∷ []) ≡ shift_register 0xFFFF (0x17 ∷ 0x00 ∷ 0x43 ∷ [])
fcs_from-shift_register_example =
    fcs_from-shift_register 0xFFFF (0x17 ∷ 0x00 ∷ 0x43 ∷ [])
      (omega arith, (omega arith, (omega arith, tt)))

check_fcs-fcs_bytes_example :
    check_fcs (0x17 ∷ 0x00 ∷ 0x43 ∷ []) (fcs_bytes (0x17 ∷ 0x00 ∷ 0x43 ∷ [])) ≡ true
check_fcs-fcs_bytes_example = check_fcs-fcs_bytes (0x17 ∷ 0x00 ∷ 0x43 ∷ [])

try_extract-build_frame_prefix_example :
    (raw : Bytes) × (build_frame get_request ≡ some raw)
    × (try_extract (raw ++ (0x68 ∷ 0x01 ∷ [])) ≡ some (record { raw = raw; consumed = length raw }))
try_extract-build_frame_prefix_example =
    try_extract-build_frame_prefix get_request (0x68 ∷ 0x01 ∷ []) get_request-IsLink (omega arith)
      (omega arith) (λ e. absurd (omega arith))

no_road : All (λ (b : ℕ). b ≢ 82) (1 ∷ 1 ∷ 16 ∷ 1 ∷ 44 ∷ [])
no_road = (
  λ e. absurd (omega arith),
  (
    λ e. absurd (omega arith),
    (λ e. absurd (omega arith), (λ e. absurd (omega arith), (λ e. absurd (omega arith), tt))),
  ),
)

parse_data-Within_example :
    Within (1 ∷ 1 ∷ 16 ∷ 1 ∷ 44 ∷ []) 0 (parse_data (1 ∷ 1 ∷ 16 ∷ 1 ∷ 44 ∷ []) 0)
parse_data-Within_example = parse_data-Within (1 ∷ 1 ∷ 16 ∷ 1 ∷ 44 ∷ []) 0 no_road (omega arith)

-- A structure of a number and an octet string.
abbrev pair_item : Item
pair_item =
    structure_item (item_then (long_unsigned_item 4660) (item_then (octets (7 ∷ 8 ∷ [])) no_items))

encode_pair : encode pair_item ≡ 2 ∷ 2 ∷ 18 ∷ 0x12 ∷ 0x34 ∷ 9 ∷ 2 ∷ 7 ∷ 8 ∷ []
unfolding encode item_count
encode_pair = refl
