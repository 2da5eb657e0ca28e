-- ===== src/Gw10376/Frame/Decode.antt =====
-- `decode`, up to the application data: what the fields of the returned frame are read from. Their
-- display text and the tables of `_app_items` are not modelled.
use zzt_self.Base.{
  ℕ, ◌+◌, ◌-◌, ◌*◌, ◌%◌, Bool, false, Option, none, some, ◌∷◌, ◌==◌, if◌then◌else◌, Bytes, length,
  get_elem?, take, drop, sum, and_then,
}
use zzt_self.Gw10376.Fn.{dt_to_fn}
use zzt_self.Gw10376.Fields.{
  Control, Parsed, parse_control, parse_info, relay_level_of, module_id_of,
}
use zzt_self.Gw10376.Address.{Address, parse_address}
use zzt_self.Gw10376.Frame.{le16, from_end}

pub record Header : Type 0 where
  pub size : ℕ
  pub control : Control
  pub info : Parsed
  pub address : Address
  pub afn : ℕ
  pub dt1 : ℕ
  pub dt2 : ℕ
  pub fn : ℕ
  pub cs_ok : Bool
  pub appdata : Bytes

-- The early return for user data that end before AFN and DT, or the fields; the address is the
-- parse of the bytes shown in the field 地址域A.
pub data Decoded : Type 0 where
  short_userdata : Decoded
  decoded : Header → Decoded

-- `addr_len`, when the module id says that there is an address field.
abbrev pub address_length : Parsed → ℕ
address_length info = if module_id_of info == 1 then 6 + 6 * relay_level_of info + 6 else 0

-- The reads behind the address field.
abbrev pub decode_at : Bytes → Control → Parsed → Bytes → Bytes → Decoded
decode_at raw ctl info addr (afn ∷ dt1 ∷ dt2 ∷ appdata) = decoded (record {
  size = le16 raw 1;
  control = ctl;
  info = info;
  address = parse_address addr;
  afn = afn;
  dt1 = dt1;
  dt2 = dt2;
  fn = dt_to_fn dt1 dt2;
  cs_ok = elim (from_end raw 2) [
    | none ↦ false
    | some cs ↦ sum (drop 3 (take (length raw - 2) raw)) % 256 == cs
  ];
  appdata = appdata;
})
decode_at raw ctl info addr _ = short_userdata

-- `none` is the `IndexError` of a frame shorter than four bytes.
unfoldable pub decode : Bytes → Option Decoded
decode raw = and_then (get_elem? raw 3) (λ c.
    let ctl = parse_control c in
    let user = drop 4 (take (length raw - 2) raw) in
    let info = parse_info ctl.direction (take 6 user) in
    let rest = drop 6 user in
    let size = address_length info in
    some (decode_at raw ctl info (take size rest) (drop size rest)))
