-- ===== src/Concentrator/Responder/Answers.antt =====
-- What a reply is on the line, and the clock in it.
use zzt_self.Base.{
  ℕ, ◌+◌, ◌%◌, ◌^◌, ◌<◌, ◌≡◌, refl, ap, ◌∙◌, ◌≢◌, inl, inr, Bool, true, Option, none, some, [], ◌∷◌,
  ◌++◌, map, arith, Bool-cases, Bytes, length, All,
}
use zzt_self.Gw10376.Fields.{pack_control}
use zzt_self.Gw10376.Address.{pack_address, pack_relays}
use zzt_self.Gw10376.Frame.{userdata, envelope, build_frame}
use zzt_self.Gw10376.Frame.Decode.{Header, Decoded, decoded, decode}
use zzt_self.Gw10376.Frame.Laws.{length-userdata}
use zzt_self.Gw10376.Frame.RoundTrip.{header, decode-userdata}
use zzt_self.Concentrator.Scan.{scan_frame}
use zzt_self.Concentrator.Scan.Complete.{scan_frame-build_frame}
use zzt_self.Minute.Time.{bcd}
use zzt_self.Concentrator.Responder.{
  ReplyRule, Responder, Now, silent, raises, sends, find_rule, decode_frame, bcd_byte, now_bcd_time,
  local_request, local_data, seq_of, reply_request, reply_for, sent, answered, reply_to,
}

-- The control field of a reply is 43H, not the start byte.
control-reply_request :
    (t : Now) (override : Option ℕ) (raw : Bytes) (d : Decoded) (r : ReplyRule)
    → let q = reply_request t override raw d r in pack_control q.direction q.prm q.comm_mode ≡ 0x43
unfolding reply_request pack_control
control-reply_request t override raw d r = elim (Bool-cases r.is_local) [
  | inl h ↦ rw h refl
  | inr h ↦ rw h refl
]

sent_eq : (o : Option Bytes) (bs : Bytes) → sent o ≡ sends bs → o ≡ some bs
sent_eq none bs e = absurd (apart e)
  where
    apart : raises ≢ sends bs
    apart k = cc
sent_eq (some cs) bs e = ap (λ r. elim r [ silent ↦ none | raises ↦ none | sends xs ↦ some xs ]) e

silent-sends : (bs : Bytes) → silent ≢ sends bs
silent-sends bs k = cc

answered-built :
    (t : Now) (override : Option ℕ) (raw : Bytes) (d : Decoded) (o : Option ReplyRule) (bs : Bytes)
    → answered t override raw d o ≡ sends bs
    → (r : ReplyRule) × (build_frame (reply_request t override raw d r) ≡ some bs)
answered-built t override raw d none bs e = absurd (silent-sends bs e)
answered-built t override raw d (some r) bs e =
    (r, sent_eq (build_frame (reply_request t override raw d r)) bs e)

reply_to-built :
    (p : Responder) (t : Now) (override : Option ℕ) (raw : Bytes) (o : Option Decoded) (bs : Bytes)
    → reply_to p t override raw o ≡ sends bs
    → (d : Decoded) × (r : ReplyRule) × (build_frame (reply_request t override raw d r) ≡ some bs)
reply_to-built p t override raw none bs e = absurd (silent-sends bs e)
reply_to-built p t override raw (some d) bs e =
    let (r, built) = answered-built t override raw d (find_rule p d) bs e in (d, r, built)

-- Every reply is found whole in a stream, behind any noise without the byte 68H and whatever
-- follows it, if its length fits the two length bytes.
pub scan_frame-reply_for :
    (app_raises : Header → Bool) (p : Responder) (t : Now) (override : Option ℕ)
    (raw bs noise rest : Bytes)
    → reply_for app_raises p t override raw ≡ sends bs
    → length bs < 2 ^ 16
    → All (λ b. b ≢ 0x68) noise
    → scan_frame (noise ++ (bs ++ rest))
      ≡ record { frame = some bs; consumed = length noise + length bs }
unfolding reply_for
scan_frame-reply_for app_raises p t override raw bs noise rest e small quiet =
    let (d, r, built) = reply_to-built p t override raw (decode_frame app_raises raw) bs e in
    scan_frame-build_frame noise rest (reply_request t override raw d r) bs quiet built
      (λ k. absurd (omega (arith, k, control-reply_request t override raw d r))) small

local_frame :
    (t : Now) (override : Option ℕ) (raw : Bytes) (d : Decoded) (r : ReplyRule)
    → r.is_local ≡ true
    → let q = local_request r.afn r.fn (local_data r) in
      build_frame (reply_request t override raw d r)
      ≡ some (envelope (pack_control q.direction q.prm q.comm_mode) (userdata q []))
unfolding reply_request build_frame pack_address pack_relays
local_frame t override raw d r own = rw own refl

-- Where a frame decodes, its application data included, and the rule that is chosen is local, the
-- reply is a frame whose header decodes with the rule's AFN and Fn, its data and the sequence number
-- 1, whatever application data other frames fail on.
pub reply_for-local :
    (app_raises : Header → Bool) (p : Responder) (t : Now) (override : Option ℕ) (raw : Bytes)
    (d : Decoded) (r : ReplyRule)
    → decode_frame app_raises raw ≡ some d
    → find_rule p d ≡ some r
    → r.is_local ≡ true
    → 0 < r.fn
    → r.fn < 256
    → length (local_data r) < 65000
    → (bs : Bytes) × (h : Header) × (reply_for app_raises p t override raw ≡ sends bs)
      × (decode bs ≡ some (decoded h))
      × (h.afn ≡ r.afn % 256)
      × (h.fn ≡ r.fn)
      × (h.appdata ≡ local_data r)
      × (seq_of h.info ≡ 1)
unfolding reply_for
reply_for-local app_raises p t override raw d r got found own pos small few =
    let q = local_request r.afn r.fn (local_data r) in
    let fits : length (userdata q []) + 6 < 2 ^ 16 = omega (arith, length-userdata q [], few) in
    (
      envelope (pack_control q.direction q.prm q.comm_mode) (userdata q []),
      header q [],
      ap (reply_to p t override raw) got
          ∙ ap (answered t override raw d) found
          ∙ ap sent (local_frame t override raw d r own),
      decode-userdata q [] refl fits,
      refl,
      ground (arith, pos, small),
      refl,
      refl,
    )

bcd-bcd_byte : (n : ℕ) → n < 100 → bcd (bcd_byte n) ≡ n
bcd-bcd_byte n h = omega (arith, h)

-- The clock that a reply carries reads back, by the BCD of the minute statistics, as the time of day
-- and the date without the century.
pub bcd-now_bcd_time :
    (t : Now)
    → t.second < 60
    → t.minute < 60
    → t.hour < 24
    → t.day < 32
    → t.month < 13
    → map bcd (now_bcd_time t)
      ≡ t.second ∷ t.minute ∷ t.hour ∷ t.day ∷ t.month ∷ (t.year % 100) ∷ []
unfolding now_bcd_time
bcd-now_bcd_time t s m h d mo =
    rw
      (
        bcd-bcd_byte t.second (omega (arith, s)),
        bcd-bcd_byte t.minute (omega (arith, m)),
        bcd-bcd_byte t.hour (omega (arith, h)),
        bcd-bcd_byte t.day (omega (arith, d)),
        bcd-bcd_byte t.month (omega (arith, mo)),
        bcd-bcd_byte (t.year % 100) (omega arith),
      )
      refl
