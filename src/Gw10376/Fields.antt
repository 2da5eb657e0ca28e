-- ===== src/Gw10376/Fields.antt =====
-- The control field C and the information field R: `_pack_control`, `_parse_control`,
-- `_pack_info`, `_parse_info`. A key that `info` lacks reads as 0, so the record holds a number for
-- each; `module_id` alone can be missing, since `build_frame` asks for that.
use zzt_self.Base.{
  ℕ, ◌+◌, ◌*◌, ◌/◌, ◌%◌, ◌^◌, ◌≡◌, refl, Option, none, some, [], ◌∷◌, arith, ◌==◌, if◌then◌else◌,
  Bytes, length, get_elem?,
}

pub data Direction : Type 0 where
  down up : Direction

abbrev pub dir_bit : Direction → ℕ
dir_bit down = 0
dir_bit up = 1

-- `prm` when it is `None`: a slave station answers, a starting station asks.
abbrev pub default_prm : Direction → ℕ
default_prm down = 1
default_prm up = 0

abbrev pub prm_or_default : Direction → Option ℕ → ℕ
prm_or_default dir none = default_prm dir
prm_or_default dir (some p) = p

unfoldable pub pack_control : Direction → Option ℕ → ℕ → ℕ
pack_control dir prm comm_mode =
    dir_bit dir * 128 + prm_or_default dir prm % 2 * 64 + comm_mode % 64

pub record Control : Type 0 where
  pub direction : Direction
  pub prm : ℕ
  pub comm_mode : ℕ

unfoldable pub parse_control : ℕ → Control
parse_control c = record {
  direction = if c / 128 % 2 == 1 then up else down;
  prm = c / 64 % 2;
  comm_mode = c % 64;
}

pub record Info : Type 0 where
  pub relay_level : ℕ
  pub module_id : Option ℕ
  pub route_flag : ℕ
  pub conflict_detect : ℕ
  pub sub_node : ℕ
  pub ecc : ℕ
  pub channel : ℕ
  pub expect_reply_len : ℕ
  pub rate : ℕ
  pub rate_unit : ℕ
  pub meter_channel : ℕ
  pub phase : ℕ
  pub sig_quality : ℕ
  pub event_flag : ℕ
  pub seq : ℕ

abbrev pub or_zero : Option ℕ → ℕ
or_zero none = 0
or_zero (some n) = n

unfoldable pub pack_info : Direction → Info → Bytes
pack_info up i =
    (i.relay_level % 16 * 16 + or_zero i.module_id % 4 * 4 + i.route_flag % 2)
    ∷ (i.channel % 16)
    ∷ (i.meter_channel % 16 * 16 + i.phase % 16)
    ∷ (i.sig_quality % 16 * 16 + i.sig_quality % 16)
    ∷ (i.event_flag % 2)
    ∷ (i.seq % 256)
    ∷ []
pack_info down i =
    let rate = i.rate % 2 ^ 15 in
    (i.relay_level % 16 * 16
      + i.conflict_detect % 2 * 8
      + or_zero i.module_id % 4 * 2
      + i.sub_node % 2)
    ∷ (i.ecc % 16 * 16 + i.channel % 16)
    ∷ (i.expect_reply_len % 256)
    ∷ (i.rate_unit % 2 * 128 + rate / 256 % 128)
    ∷ (rate % 256)
    ∷ (i.seq % 256)
    ∷ []

-- The two dictionaries that `_parse_info` returns; `module_id` and `relay_level` are in both.
pub data Parsed : Type 0 where
  parsed_up :
      (relay_level module_id route_flag channel meter_channel : ℕ)
      → (phase sig_quality event_flag seq : ℕ) → Parsed
  parsed_down :
      (relay_level conflict_detect module_id sub_node ecc channel : ℕ)
      → (expect_reply_len rate_unit rate seq : ℕ) → Parsed

abbrev pub relay_level_of : Parsed → ℕ
relay_level_of (parsed_up relay _ _ _ _ _ _ _ _) = relay
relay_level_of (parsed_down relay _ _ _ _ _ _ _ _ _) = relay

abbrev pub module_id_of : Parsed → ℕ
module_id_of (parsed_up _ id _ _ _ _ _ _ _) = id
module_id_of (parsed_down _ _ id _ _ _ _ _ _ _) = id

-- `info[k]` of the six bytes, with the zeros that pad a short field.
abbrev pub byte_at : Bytes → ℕ → ℕ
byte_at bs i = elim (get_elem? bs i) [ none ↦ 0 | some b ↦ b ]

unfoldable pub parse_info : Direction → Bytes → Parsed
parse_info up bs =
    let b0 = byte_at bs 0 in
    parsed_up (b0 / 16 % 16) (b0 / 4 % 4) (b0 % 2) (byte_at bs 1 % 16) (byte_at bs 2 / 16 % 16)
      (byte_at bs 2 % 16) (byte_at bs 3 / 16 % 16) (byte_at bs 4 % 2) (byte_at bs 5)
parse_info down bs =
    let b0 = byte_at bs 0 in
    parsed_down (b0 / 16 % 16) (b0 / 8 % 2) (b0 / 2 % 4) (b0 % 2) (byte_at bs 1 / 16 % 16)
      (byte_at bs 1 % 16) (byte_at bs 2) (byte_at bs 3 / 128 % 2)
      (byte_at bs 3 % 128 * 256 + byte_at bs 4) (byte_at bs 5)

-- What is left of the fields after the masks of `_pack_info`.
abbrev pub masked : Direction → Info → Parsed
masked up i =
    parsed_up (i.relay_level % 16) (or_zero i.module_id % 4) (i.route_flag % 2) (i.channel % 16)
      (i.meter_channel % 16) (i.phase % 16) (i.sig_quality % 16) (i.event_flag % 2) (i.seq % 256)
masked down i =
    parsed_down (i.relay_level % 16) (i.conflict_detect % 2) (or_zero i.module_id % 4)
      (i.sub_node % 2) (i.ecc % 16) (i.channel % 16) (i.expect_reply_len % 256) (i.rate_unit % 2)
      (i.rate % 2 ^ 15) (i.seq % 256)

-- Parsing a packed information field gives every field back, reduced to the bits it has.
pub parse_info-pack_info :
    (dir : Direction) (i : Info) → parse_info dir (pack_info dir i) ≡ masked dir i
unfolding parse_info pack_info
parse_info-pack_info up i = ground arith
parse_info-pack_info down i = ground arith

-- Parsing a packed control field gives back direction, start flag and communication mode.
pub parse_control-pack_control :
    (dir : Direction) (prm : Option ℕ) (comm_mode : ℕ)
    → parse_control (pack_control dir prm comm_mode)
      ≡ record { direction = dir; prm = prm_or_default dir prm % 2; comm_mode = comm_mode % 64 }
unfolding parse_control pack_control
parse_control-pack_control up none comm_mode = ground arith
parse_control-pack_control up (some p) comm_mode = ground arith
parse_control-pack_control down none comm_mode = ground arith
parse_control-pack_control down (some p) comm_mode = ground arith

pub length-pack_info : (dir : Direction) (i : Info) → length (pack_info dir i) ≡ 6
unfolding pack_info
length-pack_info up i = refl
length-pack_info down i = refl
