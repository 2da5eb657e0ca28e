-- ===== src/Concentrator/Responder.antt =====
-- The automatic replies to frames of the module: libs/sim_concentrator/responder.py, and
-- `build_13762_frame` and `build_local_13762_frame` of frame_codec.py.
pub mod First
pub mod Answers
use zzt_self.Base.{
  ℕ, zero, suc, ◌+◌, ◌-◌, ◌*◌, ◌/◌, ◌%◌, ◌^◌, ◌≤◌, ◌<◌, min, max, ◌≡◌, refl, sym, ap, ◌∙◌, ◌≢◌, ◌↔◌,
  ◌⊎◌, inl, inr, Bool, true, false, not, ◌&&◌, ◌||◌, Option, none, some, List, [], ◌∷◌, ◌++◌, map,
  append-nil, append_assoc, arith, ltb, leb, ◌==◌, if◌then◌else◌, ltb→lt, lt→ltb, leb→le, le→leb,
  ==_iff, ==_refl, Bool-cases, Option-cases, take_front, drop_front, &&_true, not-eq-true, Bytes,
  length, get_elem?, take, drop, replicate, All, length-append, take-append-drop,
  take-length-append, drop-length-append, length-take, length-drop, length-replicate, All-append,
  sum, mem, sum-append, when, and_then, when-eq-some, and_then-eq-some, holds_under, holds_under_at,
  both_ways, if-holds, elim-holds, get_elem?-lt, take-length, get_elem?-append, drop-length, same,
  same_refl, drop-drop, take_all, same_text, same_text_iff, text_or, is_text, digit, digits,
  decimal, has_text, join, numbered,
}
use Prim.Native.String.{String}
use zzt_self.Gw10376.Fields.{Direction, down, Info, Parsed, parsed_up, parsed_down}
use zzt_self.Gw10376.Address.{Text, Address}
use zzt_self.Gw10376.Frame.{Request, build_frame}
use zzt_self.Gw10376.Frame.Decode.{Header, Decoded, short_userdata, decoded, address_length, decode}

-- `userdata_builder`, where a rule has one; another text is `other_builder`.
pub data Builder : Type 0 where
  confirm deny echo copy copy_rtsa clock other_builder : Builder

-- A rule, with its AFN as `_norm_afn` makes it a number and what it leaves out filled in: `afn` is
-- 0, `fn` 1 and `userdata` empty. A builder that is a function is not in a rule from JSON.
pub record ReplyRule : Type 0 where
  pub id : String
  pub match_afn : Option ℕ
  pub match_fn : Option ℕ
  pub afn : ℕ
  pub fn : ℕ
  pub is_local : Bool
  pub builder : Option Builder
  pub given : Bytes

-- A field of the match against one of the frame. `decode_frame` gives no `afn` and `fn` beside the
-- fields, and the field AFN has its number, so that the text of the field is not looked at.
abbrev pub agrees : Option ℕ → Option ℕ → Bool
agrees none got = true
agrees (some expect) none = false
agrees (some expect) (some got) = got == expect

-- `ReplyRule.matches`; a frame without AFN has no fields.
abbrev pub rule_matches : ReplyRule → Decoded → Bool
rule_matches r short_userdata = agrees r.match_afn none && agrees r.match_fn none
rule_matches r (decoded h) = agrees r.match_afn (some h.afn) && agrees r.match_fn (some h.fn)

abbrev pub first_match : List ReplyRule → Decoded → Option ReplyRule
first_match [] d = none
first_match (r ∷ rs) d = if rule_matches r d then some r else first_match rs d

pub record Responder : Type 0 where
  pub overrides : List ReplyRule
  pub builtin : List ReplyRule

-- `_find`
unfoldable pub find_rule : Responder → Decoded → Option ReplyRule
find_rule p d = elim (first_match p.overrides d) [
  | some r ↦ some r
  | none ↦ first_match p.builtin d
]

-- The clock that `_now_bcd_time` reads.
pub record Now : Type 0 where
  pub year : ℕ
  pub month : ℕ
  pub day : ℕ
  pub hour : ℕ
  pub minute : ℕ
  pub second : ℕ

abbrev pub bcd_byte : ℕ → ℕ
bcd_byte n = n / 10 * 16 + n % 10

unfoldable pub now_bcd_time : Now → Bytes
now_bcd_time t =
    bcd_byte t.second
    ∷ bcd_byte t.minute
    ∷ bcd_byte t.hour
    ∷ bcd_byte t.day
    ∷ bcd_byte t.month
    ∷ bcd_byte (t.year % 100)
    ∷ []

-- A dictionary with the sequence number and maybe the module id; all else is 0 in `_pack_info`.
abbrev pub info_of : Option ℕ → ℕ → Info
info_of module_id seq = record {
  relay_level = 0;
  module_id = module_id;
  route_flag = 0;
  conflict_detect = 0;
  sub_node = 0;
  ecc = 0;
  channel = 0;
  expect_reply_len = 0;
  rate = 0;
  rate_unit = 0;
  meter_channel = 0;
  phase = 0;
  sig_quality = 0;
  event_flag = 0;
  seq = seq;
}

abbrev pub no_address : Address
no_address = record { src = []; relay = []; dst = [] }

-- `build_local_13762_frame` with its defaults: control field 43H and the sequence number 1 in an
-- information field of zeros.
abbrev pub local_request : ℕ → ℕ → Bytes → Request
local_request afn fn buff = record {
  direction = down;
  comm_mode = 3;
  prm = some 1;
  info = info_of (some 0) 1;
  address = no_address;
  afn = afn;
  fn = fn;
  appdata = buff;
}

-- `bytes.hex`
abbrev pub hex_char : ℕ → ℕ
hex_char n = if ltb n 10 then 48 + n else 87 + n

unfoldable pub hex_text : Bytes → Text
hex_text [] = []
hex_text (b ∷ bs) = hex_char (b / 16 % 16) ∷ hex_char (b % 16) ∷ hex_text bs

-- `raw[4:-2]`
abbrev pub user_of : Bytes → Bytes
user_of raw = drop 4 (take (length raw - 2) raw)

-- The field 地址域A in hex, cut into two addresses where it is long enough.
unfoldable pub reply_address : Bytes → Decoded → Address
unfolding hex_text
reply_address raw short_userdata = no_address
reply_address raw (decoded h) =
    let s = hex_text (take (address_length h.info) (drop 6 (user_of raw))) in
    if ltb (length s) 24
    then no_address
    else record { src = take 12 s; relay = []; dst = take 12 (drop 12 s) }

abbrev pub seq_of : Parsed → ℕ
seq_of (parsed_up _ _ _ _ _ _ _ _ seq) = seq
seq_of (parsed_down _ _ _ _ _ _ _ _ _ seq) = seq

-- Without an information field none is passed on, and `_pack_info` writes 0.
abbrev pub reply_seq : Option ℕ → Decoded → ℕ
reply_seq override short_userdata = 0
reply_seq none (decoded h) = seq_of h.info
reply_seq (some seq) (decoded h) = seq

-- The user data of a local reply: `buff` is no key of what `decode_frame` returns.
abbrev pub local_data : ReplyRule → Bytes
local_data r = elim r.builder [
  | none ↦ []
  | some b ↦ elim b [
    | confirm ↦ []
    | deny ↦ 1 ∷ []
    | echo ↦ []
    | copy ↦ []
    | copy_rtsa ↦ r.given
    | clock ↦ r.given
    | other_builder ↦ r.given
  ]
]

abbrev pub standard_data : Now → Bytes → ReplyRule → Bytes
standard_data t raw r = elim r.builder [
  | none ↦ r.given
  | some b ↦ elim b [
    | confirm ↦ 0 ∷ []
    | deny ↦ 1 ∷ []
    | echo ↦ user_of raw
    | copy ↦ r.given
    | copy_rtsa ↦ user_of raw
    | clock ↦ now_bcd_time t
    | other_builder ↦ r.given
  ]
]

-- `_build_reply`, up to the frame that is built.
unfoldable pub reply_request : Now → Option ℕ → Bytes → Decoded → ReplyRule → Request
reply_request t override raw d r =
    if r.is_local then local_request r.afn r.fn (local_data r) else record {
      direction = down;
      comm_mode = 3;
      prm = none;
      info = info_of none (reply_seq override d);
      address = reply_address raw d;
      afn = r.afn;
      fn = r.fn;
      appdata = standard_data t raw r;
    }

-- What `reply_for` does: `None`, a frame, or an exception of the frame builder.
pub data ReplyResult : Type 0 where
  silent raises : ReplyResult
  sends : Bytes → ReplyResult

abbrev pub sent : Option Bytes → ReplyResult
sent none = raises
sent (some bs) = sends bs

abbrev pub answered : Now → Option ℕ → Bytes → Decoded → Option ReplyRule → ReplyResult
answered t override raw d none = silent
answered t override raw d (some r) = sent (build_frame (reply_request t override raw d r))

abbrev pub has_bytes : Bytes → Bool
has_bytes [] = false
has_bytes (b ∷ bs) = true

-- `decode_frame`. `app_raises` says whether the parse of the application data of a frame raises, in
-- `_app_items` or in the frames of other protocols that `_scan_nested` finds; it is not called where
-- there are no application data. `none` is any exception.
unfoldable pub decode_frame : (Header → Bool) → Bytes → Option Decoded
decode_frame app_raises raw = and_then (decode raw) (λ d. elim d [
  | short_userdata ↦ some short_userdata
  | decoded h ↦ if has_bytes h.appdata && app_raises h then none else some (decoded h)
])

abbrev pub reply_to : Responder → Now → Option ℕ → Bytes → Option Decoded → ReplyResult
reply_to p t override raw none = silent
reply_to p t override raw (some d) = answered t override raw d (find_rule p d)

unfoldable pub reply_for : (Header → Bool) → Responder → Now → Option ℕ → Bytes → ReplyResult
reply_for app_raises p t override raw = reply_to p t override raw (decode_frame app_raises raw)

abbrev local_rule : String → ℕ → Option ℕ → ReplyRule
local_rule id afn fn = record {
  id = id;
  match_afn = some afn;
  match_fn = fn;
  afn = 0;
  fn = 1;
  is_local = true;
  builder = none;
  given = [];
}

abbrev standard_rule : String → ℕ → Option ℕ → ℕ → ℕ → Builder → ReplyRule
standard_rule id afn fn reply_afn reply_fn b = record {
  id = id;
  match_afn = some afn;
  match_fn = fn;
  afn = reply_afn;
  fn = reply_fn;
  is_local = false;
  builder = some b;
  given = [];
}

-- `_BUILTIN_RULES`
abbrev pub builtin_rules : List ReplyRule
builtin_rules =
    local_rule "builtin.local_ack" 0 none
    ∷ local_rule "builtin.local_03F10_running" 3 (some 10)
    ∷ local_rule "builtin.local_06F3_route" 6 (some 3)
    ∷ local_rule "builtin.local_06F230_mclt_report" 6 (some 230)
    ∷ standard_rule "builtin.00F1_confirm" 0 none 0 1 confirm
    ∷ standard_rule "builtin.01xx_init" 1 none 0 1 confirm
    ∷ standard_rule "builtin.03xx_query" 3 none 3 1 echo
    ∷ standard_rule "builtin.10xx_route" 0x10 none 0x10 1 echo
    ∷ standard_rule "builtin.02xx_forward" 2 none 2 1 echo
    ∷ standard_rule "builtin.14F2_clock" 0x14 (some 2) 0x14 2 clock
    ∷ []

-- `Responder.__init__`
abbrev pub new_responder : List ReplyRule → Bool → Responder
new_responder override_rules builtin = record {
  overrides = override_rules;
  builtin = if builtin then builtin_rules else [];
}
