-- ===== src/Gw10376/Frame/RoundTrip.antt =====
-- What `decode` and `try_extract` make of a frame that `build_frame` has built.
use zzt_self.Base.{
  ℕ, zero, suc, ◌+◌, ◌-◌, ◌/◌, ◌%◌, ◌^◌, ◌≤◌, ◌<◌, ◌≡◌, refl, sym, ap, ◌∙◌, ◌≢◌, Bool, true, false,
  not, Option, none, some, List, [], ◌∷◌, ◌++◌, append_assoc, arith, ◌==◌, if◌then◌else◌, ==_refl,
  take_front, drop_front, Bytes, length, get_elem?, take, drop, length-append, take-length-append,
  drop-length-append, sum, get_elem?-append,
}
use zzt_self.Extract.{Extract}
use zzt_self.Gw10376.Fn.{fn_to_dt, dt_to_fn-fn_to_dt}
use zzt_self.Gw10376.Fields.{
  Control, Parsed, pack_control, parse_control, pack_info, parse_info, masked, prm_or_default,
  parse_info-pack_info, parse_control-pack_control, length-pack_info,
}
use zzt_self.Gw10376.Address.{parse_address}
use zzt_self.Gw10376.Frame.{
  Request, with_module_id, userdata, envelope, from_end, le16, try_extract,
}
use zzt_self.Gw10376.Frame.Decode.{Header, decoded, address_length, decode_at, decode}

-- The parts of an enveloped frame.
module _ (c : ℕ) (user : Bytes) where
  abbrev pub raw : Bytes
  raw = envelope c user

  abbrev pub cs : ℕ
  cs = sum (c ∷ user) % 256

  abbrev front : Bytes
  front = 0x68 ∷ ((length user + 6) % 256) ∷ ((length user + 6) / 256 % 256) ∷ c ∷ user

  pub length-envelope : length raw ≡ length user + 6
  length-envelope = omega (arith, length-append user (cs ∷ 0x16 ∷ []))

  pub take-envelope : take (length raw - 2) raw ≡ front
  take-envelope =
      let size : length raw - 2 ≡ length front = omega (arith, length-envelope) in
      rw size (take-length-append front (cs ∷ 0x16 ∷ []))

  pub le16-envelope : length user + 6 < 2 ^ 16 → le16 raw 1 ≡ length user + 6
  le16-envelope h = omega arith

  pub cs-envelope : from_end raw 2 ≡ some cs
  cs-envelope =
      let size : length raw - 2 ≡ length front = omega (arith, length-envelope) in
      ap (get_elem? raw) size ∙ get_elem?-append front (0x16 ∷ []) cs

  pub end-envelope : from_end raw 1 ≡ some 0x16
  end-envelope =
      let size : length raw - 1 ≡ length (front ++ (cs ∷ [])) =
        omega (arith, length-envelope, length-append front (cs ∷ [])) in
      ap (get_elem? raw) size
      ∙ ap (λ s. get_elem? s (length (front ++ (cs ∷ []))))
          (sym (append_assoc front (cs ∷ []) (0x16 ∷ [])))
      ∙ get_elem?-append (front ++ (cs ∷ [])) [] 0x16

-- A whole frame alone in the buffer.
pub try_extract-envelope :
    (c : ℕ) (user : Bytes)
    → c ≢ 0x68
    → 6 ≤ length user
    → length user + 6 < 2 ^ 16
    → try_extract (envelope c user)
      ≡ some (record { raw = envelope c user; consumed = length (envelope c user) })
unfolding try_extract
try_extract-envelope c user not_start long small =
    ground (arith, length-envelope c user, end-envelope c user, le16-envelope c user small)

pub get_elem?-front :
    {A : Type 0} (xs ys : List A) (i : ℕ) → i < length xs → get_elem? (xs ++ ys) i ≡ get_elem? xs i
get_elem?-front [] ys i h = absurd (omega arith)
get_elem?-front (x ∷ xs) ys zero h = refl
get_elem?-front (x ∷ xs) ys (suc i) h = get_elem?-front xs ys i (omega arith)

ladder :
    (a b c : Bool) (o : Option Extract)
    → c ≡ false
    → (if a then none else if b then none else if not c then none else o) ≡ none
ladder a b c o h = ground arith

-- The length test wants the buffer to end with the frame.
pub try_extract-longer : (buf : Bytes) → le16 buf 1 < length buf → try_extract buf ≡ none
unfolding try_extract
try_extract-longer buf h = ladder _ _ (le16 buf 1 == length buf) _ (ground arith)

-- What `decode` reads from an enveloped frame.
pub decode-envelope :
    (c : ℕ) (info rest : Bytes)
    → length info ≡ 6
    → decode (envelope c (info ++ rest)) ≡ (
        let parsed = parse_info (parse_control c).direction info in
        let size = address_length parsed in
        some (
          decode_at
            (envelope c (info ++ rest))
            (parse_control c)
            parsed
            (take size rest)
            (drop size rest)))
unfolding decode
decode-envelope c info rest six =
    rw (take-envelope c (info ++ rest)) (rw (take_front info rest six, drop_front info rest six))

-- The header that a frame with the address bytes `addr` decodes to.
abbrev pub header : Request → Bytes → Header
header q addr = record {
  size = length (userdata q addr) + 6;
  control = record {
    direction = q.direction;
    prm = prm_or_default q.direction q.prm % 2;
    comm_mode = q.comm_mode % 64;
  };
  info = masked q.direction (with_module_id addr q.info);
  address = parse_address addr;
  afn = q.afn % 256;
  dt1 = (fn_to_dt q.fn).0;
  dt2 = (fn_to_dt q.fn).1;
  fn = if q.fn % 256 == 0 then 1 else q.fn % 256;
  cs_ok = true;
  appdata = q.appdata;
}

decode_at-envelope :
    (c : ℕ) (user : Bytes) (ctl : Control) (info : Parsed) (addr : Bytes) (n afn : ℕ)
    (appdata : Bytes)
    → length user + 6 < 2 ^ 16
    → decode_at (envelope c user) ctl info addr (afn ∷ (fn_to_dt n).0 ∷ (fn_to_dt n).1 ∷ appdata)
      ≡ decoded (record {
        size = length user + 6;
        control = ctl;
        info = info;
        address = parse_address addr;
        afn = afn;
        dt1 = (fn_to_dt n).0;
        dt2 = (fn_to_dt n).1;
        fn = if n % 256 == 0 then 1 else n % 256;
        cs_ok = true;
        appdata = appdata;
      })
decode_at-envelope c user ctl info addr n afn appdata small =
    rw (le16-envelope c user small, cs-envelope c user, take-envelope c user)
      (rw (dt_to_fn-fn_to_dt n, ==_refl (cs c user)))

-- The address field that the information field announces is the one that stands there.
abbrev pub Announces : Request → Bytes → Type 0
Announces q addr = address_length (masked q.direction (with_module_id addr q.info)) ≡ length addr

pub decode-userdata :
    (q : Request) (addr : Bytes)
    → Announces q addr
    → length (userdata q addr) + 6 < 2 ^ 16
    → decode (envelope (pack_control q.direction q.prm q.comm_mode) (userdata q addr))
      ≡ some (decoded (header q addr))
decode-userdata q addr announces small =
    let c = pack_control q.direction q.prm q.comm_mode in
    let info = pack_info q.direction (with_module_id addr q.info) in
    let tail = q.afn % 256 ∷ (fn_to_dt q.fn).0 ∷ (fn_to_dt q.fn).1 ∷ q.appdata in
    let ctl = parse_control-pack_control q.direction q.prm q.comm_mode in
    let parsed = parse_info-pack_info q.direction (with_module_id addr q.info) in
    decode-envelope c info (addr ++ tail)
      (length-pack_info q.direction (with_module_id addr q.info))
    ∙ rw ctl (
        rw parsed (
          rw (announces, take-length-append addr tail, drop-length-append addr tail)
            (ap some (
              decode_at-envelope c (userdata q addr) _ _ addr q.fn (q.afn % 256) q.appdata small))))
