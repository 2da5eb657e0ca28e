-- ===== src/Gw10376/Frame/Laws.antt =====
-- The properties of whole frames: decoding what was built, and extraction.
use mathlib.Core.Option.{some-injective}
use zzt_self.Base.{
  ℕ, ◌+◌, ◌*◌, ◌%◌, ◌^◌, ◌<◌, ◌≡◌, refl, sym, ap, ◌≢◌, true, none, some, [], ◌∷◌, ◌++◌, arith, ◌==◌,
  if◌then◌else◌, Bytes, length, length-append, and_then-eq-some,
}
use zzt_self.Gw10376.Fields.{
  Direction, up, down, Info, Parsed, pack_control, pack_info, masked, length-pack_info,
  relay_level_of, module_id_of,
}
use zzt_self.Gw10376.Fn.{fn_to_dt}
use zzt_self.Gw10376.Address.{pack_address}
use zzt_self.Gw10376.Address.RoundTrip.{IsFull, parse_address-pack_address}
use zzt_self.Gw10376.Frame.{Request, with_module_id, userdata, envelope, build_frame, try_extract}
use zzt_self.Gw10376.Frame.Decode.{Header, decoded, address_length, decode}
use zzt_self.Gw10376.Frame.RoundTrip.{
  header, Announces, decode-userdata, length-envelope, le16-envelope, try_extract-envelope,
  try_extract-longer,
}

-- A request whose frame has an address field, with the level of its relays set.
pub record IsAddressed (q : Request) : Type 0 where
  pub full : IsFull q.address
  pub no_id : q.info.module_id ≡ none
  pub level : q.info.relay_level ≡ length q.address.relay
  pub few : length q.address.relay < 16
  pub fits : 6 * length q.address.relay + length q.appdata < 65000

build_frame-eq :
    (q : Request) (addr : Bytes)
    → pack_address q.address ≡ some addr
    → build_frame q ≡ some (envelope (pack_control q.direction q.prm q.comm_mode) (userdata q addr))
unfolding build_frame
build_frame-eq q addr e = rw e

pub length-userdata :
    (q : Request) (addr : Bytes) → length (userdata q addr) ≡ length addr + length q.appdata + 9
length-userdata q addr =
    let info = pack_info q.direction (with_module_id addr q.info) in
    let tail = q.afn % 256 ∷ (fn_to_dt q.fn).0 ∷ (fn_to_dt q.fn).1 ∷ q.appdata in
    omega (
      arith,
      length-append info (addr ++ tail),
      length-append addr tail,
      length-pack_info q.direction (with_module_id addr q.info),
    )

announce :
    (dir : Direction) (i : Info) (addr : Bytes)
    → i.module_id ≡ none
    → 0 < length addr
    → (relay_level_of (masked dir (with_module_id addr i)) ≡ i.relay_level % 16)
      × (module_id_of (masked dir (with_module_id addr i)) ≡ 1)
announce dir i [] e h = absurd (omega arith)
announce up i (b ∷ bs) e h = ground arith
announce down i (b ∷ bs) e h = ground arith

address_length-one :
    (p : Parsed) → module_id_of p ≡ 1 → address_length p ≡ 6 * relay_level_of p + 12
address_length-one p e = ground arith

-- Inversion of a build that succeeds.
pub build_frame-eq-some :
    (q : Request) (raw : Bytes)
    → build_frame q ≡ some raw
    → (addr : Bytes) × (envelope (pack_control q.direction q.prm q.comm_mode) (userdata q addr)
        ≡ raw)
unfolding build_frame
build_frame-eq-some q raw built =
    let (addr, _, e) = and_then-eq-some (pack_address q.address) _ built in
    (addr, some-injective _ _ e)

-- Decoding a built frame gives back addresses, AFN, Fn and application data, with the checksum
-- valid, where the request gives twelve-digit addresses, leaves the module id open and sets the
-- relay level to the number of its relays.
pub decode-build_frame :
    (q : Request)
    → IsAddressed q
    → (raw : Bytes) × (h : Header) × (build_frame q ≡ some raw)
      × (decode raw ≡ some (decoded h))
      × (h.address ≡ q.address)
      × (h.afn ≡ q.afn % 256)
      × (h.fn ≡ (if q.fn % 256 == 0 then 1 else q.fn % 256))
      × (h.appdata ≡ q.appdata)
      × (h.cs_ok ≡ true)
      × (h.size ≡ length raw)
decode-build_frame q ok =
    let (addr, packed, parsed, size) = parse_address-pack_address q.address ok.full in
    let (level, id) = announce q.direction q.info addr ok.no_id (omega arith) in
    let announces : Announces q addr = omega (
      arith,
      address_length-one (masked q.direction (with_module_id addr q.info)) id,
      level,
      ok.level,
      ok.few,
      size,
    ) in
    let small : length (userdata q addr) + 6 < 2 ^ 16 =
      omega (arith, length-userdata q addr, ok.fits, size) in
    (
      envelope (pack_control q.direction q.prm q.comm_mode) (userdata q addr),
      header q addr,
      build_frame-eq q addr packed,
      decode-userdata q addr announces small,
      parsed,
      refl,
      refl,
      refl,
      refl,
      sym (length-envelope (pack_control q.direction q.prm q.comm_mode) (userdata q addr)),
    )

-- A built frame that stands alone in the buffer is extracted whole, unless its control field is
-- 68H, the start byte.
pub try_extract-build_frame :
    (q : Request) (raw : Bytes)
    → build_frame q ≡ some raw
    → pack_control q.direction q.prm q.comm_mode ≢ 0x68
    → length raw < 2 ^ 16
    → try_extract raw ≡ some (record { raw = raw; consumed = length raw })
try_extract-build_frame q raw built start small =
    let (addr, e) = build_frame-eq-some q raw built in
    let c = pack_control q.direction q.prm q.comm_mode in
    let size = rw (length-envelope c (userdata q addr)) at (ap length e) in
    rw (← e) (
      try_extract-envelope c (userdata q addr) start (omega (arith, length-userdata q addr))
        (omega (arith, size)))

-- A built frame with any byte behind it in the buffer is not extracted.
pub try_extract-build_frame_more :
    (q : Request) (raw : Bytes) (b : ℕ) (rest : Bytes)
    → build_frame q ≡ some raw
    → length raw < 2 ^ 16
    → try_extract (raw ++ (b ∷ rest)) ≡ none
try_extract-build_frame_more q raw b rest built small =
    let (addr, e) = build_frame-eq-some q raw built in
    let c = pack_control q.direction q.prm q.comm_mode in
    let user = userdata q addr in
    let size = rw (length-envelope c user) at (ap length e) in
    rw (← e) (
      try_extract-longer (envelope c user ++ (b ∷ rest)) (
        omega (
          arith,
          le16-envelope c user (omega (arith, size)),
          length-append (envelope c user) (b ∷ rest),
          length-envelope c user,
        )))
