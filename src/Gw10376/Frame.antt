-- ===== src/Gw10376/Frame.antt =====
-- `build_frame`, the adapter's `try_extract`, and the fields that `decode` reads before the
-- application data.
pub mod Decode
pub mod RoundTrip
pub mod Laws
use zzt_self.Base.{
  ℕ, zero, suc, ◌+◌, ◌-◌, ◌*◌, ◌/◌, ◌%◌, ◌^◌, ◌≤◌, ◌<◌, min, max, ◌≡◌, refl, sym, ap, ◌∙◌, ◌≢◌, ◌↔◌,
  ◌⊎◌, inl, inr, Bool, true, false, not, ◌&&◌, ◌||◌, Option, none, some, List, [], ◌∷◌, ◌++◌, map,
  append-nil, append_assoc, arith, ltb, leb, ◌==◌, if◌then◌else◌, ltb→lt, lt→ltb, leb→le, le→leb,
  ==_iff, ==_refl, Bool-cases, Option-cases, take_front, drop_front, &&_true, Bytes, length,
  get_elem?, take, drop, replicate, All, length-append, take-append-drop, take-length-append,
  drop-length-append, length-take, length-drop, length-replicate, All-append, sum, mem, sum-append,
  when, and_then, when-eq-some, and_then-eq-some, get_elem?-lt, take-length,
}
use zzt_self.Extract.{Extract}
use zzt_self.Gw10376.Fn.{fn_to_dt, dt_to_fn}
use zzt_self.Gw10376.Fields.{
  Direction, Info, Control, Parsed, pack_control, parse_control, pack_info, parse_info,
  relay_level_of, module_id_of,
}
use zzt_self.Gw10376.Address.{Address, pack_address, parse_address}

-- The arguments of `build_frame`; `end` is its default 0x16.
pub record Request : Type 0 where
  pub direction : Direction
  pub comm_mode : ℕ
  pub prm : Option ℕ
  pub info : Info
  pub address : Address
  pub afn : ℕ
  pub fn : ℕ
  pub appdata : Bytes

-- An address with no module id given sets the id to 1.
abbrev pub with_module_id : Bytes → Info → Info
with_module_id addr i = elim i.module_id [
  | none ↦ elim addr [ [] ↦ i | b ∷ bs ↦ record i { module_id = some 1 } ]
  | some id ↦ i
]

abbrev pub userdata : Request → Bytes → Bytes
userdata q addr =
    let (dt1, dt2) = fn_to_dt q.fn in
    pack_info q.direction (with_module_id addr q.info)
    ++ (addr ++ (q.afn % 256 ∷ dt1 ∷ dt2 ∷ q.appdata))

-- The frame around the user data: L is the length of the whole frame.
abbrev pub envelope : ℕ → Bytes → Bytes
envelope c user =
    let size = length user + 6 in
    0x68 ∷ (size % 256) ∷ (size / 256 % 256) ∷ c ∷ (user ++ (sum (c ∷ user) % 256 ∷ 0x16 ∷ []))

unfoldable pub build_frame : Request → Option Bytes
build_frame q =
    and_then (pack_address q.address)
      (λ addr. some (envelope (pack_control q.direction q.prm q.comm_mode) (userdata q addr)))

-- `buf[-k]`
abbrev pub from_end : Bytes → ℕ → Option ℕ
from_end bs k = get_elem? bs (length bs - k)

abbrev pub is_byte : Option ℕ → ℕ → Bool
is_byte none b = false
is_byte (some a) b = a == b

-- `buf[1] | (buf[2] << 8)`
abbrev pub le16 : Bytes → ℕ → ℕ
le16 bs i = elim (get_elem? bs i) [
  | none ↦ 0
  | some lo ↦ elim (get_elem? bs (i + 1)) [ none ↦ lo | some hi ↦ lo + hi * 256 ]
]

unfoldable pub try_extract : Bytes → Option Extract
try_extract buf =
    let n = length buf in
    if ltb n 12 || not (is_byte (get_elem? buf 0) 0x68) || not (is_byte (from_end buf 1) 0x16)
    then none
    else if is_byte (get_elem? buf 3) 0x68
    then none
    else if not (le16 buf 1 == n)
    then none
    else if ltb (le16 buf 1) 10
    then none
    else some (record { raw = buf; consumed = n })
