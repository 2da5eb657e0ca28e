-- ===== src/Tests/ResponderTests.antt =====
-- Runs of the automatic replies, and their theorems at concrete inputs.
use zzt_self.Base.{◌+◌, ◌≡◌, refl, Bool, true, none, some, [], ◌∷◌, ◌++◌, arith, Bytes}
use zzt_self.Gw10376.Fn.{fn_to_dt, dt_to_fn, dt1_to_base}
use zzt_self.Gw10376.Fields.{parsed_up, up, pack_control, pack_info, parse_control, parse_info}
use zzt_self.Gw10376.Address.{Text, pack_address, pack_relays, parse_address}
use zzt_self.Gw10376.Frame.{build_frame}
use zzt_self.Gw10376.Frame.Decode.{Header, Decoded, decoded, decode}
use zzt_self.Tests.GwTests.{built}
use zzt_self.Concentrator.Scan.{scan_frame}
use zzt_self.Concentrator.Responder.{
  ReplyRule, Responder, Now, sends, find_rule, decode_frame, reply_address, seq_of, reply_request,
  reply_for, builtin_rules, new_responder, hex_text,
}
use zzt_self.Concentrator.Responder.First.{Chosen, find_rule-Chosen}
use zzt_self.Concentrator.Responder.Answers.{scan_frame-reply_for, reply_for-local}

abbrev standing : Responder
standing = new_responder [] true

abbrev noon : Now
noon = record { year = 2026; month = 8; day = 27; hour = 12; minute = 5; second = 9 }

-- The module reports its mode: AFN 03H F10, without an address.
abbrev mode_report : Bytes
mode_report = 0x68 ∷ 0x0F ∷ 0 ∷ 0xC3 ∷ 0 ∷ 0 ∷ 0 ∷ 0 ∷ 0 ∷ 5 ∷ 3 ∷ 2 ∷ 1 ∷ 0xCE ∷ 0x16 ∷ []

-- What is answered to it, 00H F1.
abbrev plain_confirm : Bytes
plain_confirm = 0x68 ∷ 0x0F ∷ 0 ∷ 0x43 ∷ 0 ∷ 0 ∷ 0 ∷ 0 ∷ 0 ∷ 1 ∷ 0 ∷ 1 ∷ 0 ∷ 0x45 ∷ 0x16 ∷ []

-- The parse of any application data raises.
abbrev always : Header → Bool
always h = true

reply_mode : reply_for always standing noon none mode_report ≡ sends plain_confirm
unfolding reply_for decode_frame decode parse_control parse_info find_rule reply_request build_frame
    pack_control pack_info pack_address pack_relays fn_to_dt dt_to_fn dt1_to_base
reply_mode = refl

abbrev mode_header : Header
mode_header = record {
  size = 15;
  control = record { direction = up; prm = 1; comm_mode = 3 };
  info = parsed_up 0 0 0 0 0 0 0 0 5;
  address = record { src = []; relay = []; dst = [] };
  afn = 3;
  dt1 = 2;
  dt2 = 1;
  fn = 10;
  cs_ok = true;
  appdata = [];
}

decode_mode : decode mode_report ≡ some (decoded mode_header)
unfolding decode parse_control parse_info parse_address dt_to_fn dt1_to_base
decode_mode = refl

decode_mode_frame : decode_frame always mode_report ≡ some (decoded mode_header)
unfolding decode_frame decode parse_control parse_info parse_address dt_to_fn dt1_to_base
decode_mode_frame = refl

-- The rule for F10 stands before the one for all of AFN 03H.
abbrev mode_rule : ReplyRule
mode_rule = record {
  id = "builtin.local_03F10_running";
  match_afn = some 3;
  match_fn = some 10;
  afn = 0;
  fn = 1;
  is_local = true;
  builder = none;
  given = [];
}

find_mode : find_rule standing (decoded mode_header) ≡ some mode_rule
unfolding find_rule
find_mode = refl

-- The frame has one relay: its address is taken for the destination.
abbrev relayed_to : Decoded → Text
relayed_to d = (reply_address built d).dst

relay_as_dst :
    elim (decode built) [ none ↦ [] | some d ↦ relayed_to d ]
    ≡ 57 ∷ 49 ∷ 48 ∷ 48 ∷ 48 ∷ 48 ∷ 55 ∷ 50 ∷ 51 ∷ 52 ∷ 53 ∷ 54 ∷ []
unfolding decode parse_control parse_info reply_address hex_text
relay_as_dst = refl

find_rule-Chosen_example :
    Chosen builtin_rules (decoded mode_header) (find_rule standing (decoded mode_header))
find_rule-Chosen_example = find_rule-Chosen standing (decoded mode_header)

scan_frame-reply_for_example :
    scan_frame ((0xFE ∷ []) ++ (plain_confirm ++ (0x68 ∷ [])))
    ≡ record { frame = some plain_confirm; consumed = 1 + 15 }
scan_frame-reply_for_example =
    scan_frame-reply_for always standing noon none mode_report plain_confirm (0xFE ∷ []) (0x68 ∷ [])
      reply_mode (omega arith) ((λ e. absurd (omega arith)), tt)

reply_for-local_example :
    (bs : Bytes) × (h : Header) × (reply_for always standing noon none mode_report ≡ sends bs)
    × (decode bs ≡ some (decoded h))
    × (h.afn ≡ 0)
    × (h.fn ≡ 1)
    × (h.appdata ≡ [])
    × (seq_of h.info ≡ 1)
reply_for-local_example =
    reply_for-local always standing noon none mode_report (decoded mode_header) mode_rule
      decode_mode_frame find_mode refl (omega arith) (omega arith) (omega arith)
