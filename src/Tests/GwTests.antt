-- ===== src/Tests/GwTests.antt =====
-- Q/GDW 10376.2 frames (libs/parser_lib/adapters/adapter_10376).
use zzt_self.Base.{◌≡◌, refl, true, none, some, [], ◌∷◌, arith, Bytes, length}
use zzt_self.Gw10376.Fn.{fn_to_dt}
use zzt_self.Gw10376.Fields.{
  down, Info, pack_control, parse_control, pack_info, parse_control-pack_control,
}
use zzt_self.Gw10376.Address.{Address, Text, pack_address, str_to_bcd}
use zzt_self.Gw10376.Address.RoundTrip.{IsBcd, nil, cons, IsFull}
use zzt_self.Gw10376.Frame.{Request, build_frame}
use zzt_self.Gw10376.Frame.Decode.{Header, decoded, decode}
use zzt_self.Gw10376.Frame.Laws.{IsAddressed, decode-build_frame}

abbrev digits_a : Text
digits_a = b'0' ∷ b'0' ∷ b'0' ∷ b'0' ∷ b'0' ∷ b'0' ∷ b'1' ∷ b'2' ∷ b'3' ∷ b'4' ∷ b'5' ∷ b'9' ∷ []

abbrev digits_b : Text
digits_b = b'9' ∷ b'1' ∷ b'0' ∷ b'0' ∷ b'0' ∷ b'0' ∷ b'7' ∷ b'2' ∷ b'3' ∷ b'4' ∷ b'5' ∷ b'6' ∷ []

digits_a-IsBcd : IsBcd 6 digits_a
digits_a-IsBcd = cons (omega arith) (omega arith) (
    cons (omega arith) (omega arith) (
      cons (omega arith) (omega arith) (
        cons (omega arith) (omega arith)
          (cons (omega arith) (omega arith) (cons (omega arith) (omega arith) nil)))))

digits_b-IsBcd : IsBcd 6 digits_b
digits_b-IsBcd = cons (omega arith) (omega arith) (
    cons (omega arith) (omega arith) (
      cons (omega arith) (omega arith) (
        cons (omega arith) (omega arith)
          (cons (omega arith) (omega arith) (cons (omega arith) (omega arith) nil)))))

abbrev route : Address
route = record { src = digits_a; relay = digits_b ∷ []; dst = digits_a }

route-IsFull : IsFull route
route-IsFull = record {
  src_digits = digits_a-IsBcd;
  relay_digits = (digits_b-IsBcd, tt);
  dst_digits = digits_a-IsBcd;
}

abbrev plain_info : Info
plain_info = record {
  relay_level = 1;
  module_id = none;
  route_flag = 0;
  conflict_detect = 1;
  sub_node = 0;
  ecc = 0;
  channel = 3;
  expect_reply_len = 40;
  rate = 300;
  rate_unit = 1;
  meter_channel = 0;
  phase = 0;
  sig_quality = 0;
  event_flag = 0;
  seq = 7;
}

abbrev pub request : Request
request = record {
  direction = down;
  comm_mode = 3;
  prm = none;
  info = plain_info;
  address = route;
  afn = 0x13;
  fn = 1;
  appdata = 0xAA ∷ 0x55 ∷ [];
}

request-IsAddressed : IsAddressed request
request-IsAddressed = record {
  full = route-IsFull;
  no_id = refl;
  level = refl;
  few = omega arith;
  fits = omega arith;
}

abbrev pub built : Bytes
built =
    0x68 ∷ 0x23 ∷ 0 ∷ 0x43 ∷ 0x1A ∷ 0x03 ∷ 40 ∷ 0x81 ∷ 44 ∷ 7 ∷ 0 ∷ 0 ∷ 0 ∷ 0x12 ∷ 0x34 ∷ 0x59
    ∷ 0x91 ∷ 0 ∷ 0 ∷ 0x72 ∷ 0x34 ∷ 0x56 ∷ 0 ∷ 0 ∷ 0 ∷ 0x12 ∷ 0x34 ∷ 0x59 ∷ 0x13 ∷ 1 ∷ 0 ∷ 0xAA
    ∷ 0x55 ∷ 0x1A ∷ 0x16 ∷ []

pub build-request : build_frame request ≡ some built
unfolding build_frame pack_control pack_info pack_address fn_to_dt str_to_bcd
build-request = refl

decode-build_frame_example :
    (raw : Bytes) × (h : Header) × (build_frame request ≡ some raw)
    × (decode raw ≡ some (decoded h))
    × (h.address ≡ route)
    × (h.afn ≡ 0x13)
    × (h.fn ≡ 1)
    × (h.appdata ≡ 0xAA ∷ 0x55 ∷ [])
    × (h.cs_ok ≡ true)
    × (h.size ≡ length raw)
decode-build_frame_example = decode-build_frame request request-IsAddressed

parse_control-pack_control_example :
    parse_control (pack_control down none 3) ≡ record { direction = down; prm = 1; comm_mode = 3 }
parse_control-pack_control_example = parse_control-pack_control down none 3
