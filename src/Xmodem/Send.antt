-- ===== src/Xmodem/Send.antt =====
-- `send_xmodem`. Logging is left out; the calls of `progress` and the packets written are returned.

pub mod Delivery
pub mod Bounds
use zzt_self.Base.{
  ℕ, zero, suc, ◌+◌, ◌-◌, ◌*◌, ◌/◌, ◌%◌, ◌^◌, ◌≤◌, ◌<◌, min, max, ◌≡◌, refl, sym, ap, ◌∙◌, ◌≢◌, ◌↔◌,
  ◌⊎◌, inl, inr, Bool, true, false, not, ◌&&◌, ◌||◌, Option, none, some, List, [], ◌∷◌, ◌++◌, map,
  append-nil, append_assoc, arith, ltb, leb, ◌==◌, if◌then◌else◌, ltb→lt, lt→ltb, leb→le, le→leb,
  ==_iff, ==_refl, Bool-cases, Option-cases, take_front, drop_front, &&_true, not-eq-true, Bytes,
  length, get_elem?, take, drop, replicate, All, length-append, take-append-drop,
  take-length-append, drop-length-append, length-take, length-drop, length-replicate, All-append,
  sum, mem, sum-append, when, and_then, when-eq-some, and_then-eq-some, holds_under, holds_under_at,
  get_elem?-lt, take-length, get_elem?-append, drop-length, same, same_refl,
}
use zzt_self.Xmodem.Packet.{pad, build_xmodem_packet}
use zzt_self.Xmodem.Line.{
  Window, Response, acked, refused, cancelled, timed_out, read_response, next_window,
}

pub data Error : Type 0 where
  invalid_block cancelled_transfer failed_after_retries cancelled_at_eot eot_not_acked : Error

-- One `ser.write` and the response read after it.
pub record Exchange : Type 0 where
  pub written : Bytes
  pub response : Response

-- How the attempts at one packet end, the exchanges they made, and the line after them.
pub data Attempt : Type 0 where
  sent given_up stopped invalid : Attempt

abbrev pub Attempts : Type 0
Attempts = Attempt × List Exchange × List Window

-- `for retry in range(max_retries)`, for a data packet and for EOT alike: ACK leaves the loop, CAN
-- raises, and NAK or a timeout goes round.
unfoldable pub try_send : ℕ → Bytes → List Window → Attempts
unfolding read_response
try_send zero w line = (given_up, [], line)
try_send (suc retries) w line =
    let (window, line') = next_window line in
    let answer = read_response window in
    let exchange : Exchange = record { written = w; response = answer } in
    let (end, log, left) = try_send retries w line' in
    elim answer [
      | acked ↦ (sent, exchange ∷ [], line')
      | cancelled ↦ (stopped, exchange ∷ [], line')
      | refused ↦ (end, exchange ∷ log, left)
      | timed_out ↦ (end, exchange ∷ log, left)
    ]

-- The image, and the parameters that do not change.
pub record Job : Type 0 where
  pub image : Bytes
  pub use_crc : Bool
  pub max_retries : ℕ
  pub block_size : ℕ

-- The padded block that starts at `offset`.
unfoldable pub block_at : Job → ℕ → Bytes
block_at job offset =
    let part = take job.block_size (drop offset job.image) in
    part ++ replicate (job.block_size - length part) pad

-- The outcome, every exchange in order, the calls of `progress`, and the line left.
pub record Run : Type 0 where
  pub outcome : Option Error
  pub exchanges : List Exchange
  pub progress : List (ℕ × ℕ)
  pub line : List Window

-- The EOT byte as a packet.
abbrev pub eot : Bytes
eot = 0x04 ∷ []

abbrev pub total_packets : Job → ℕ → ℕ
total_packets job bytes = (bytes + job.block_size - 1) / job.block_size

-- `if pct >= last_progress + 5 or offset == len(image)`, with -1 as the first `last_progress`; the
-- result is the calls made and the new `last_progress` plus one.
abbrev pub report : Job → ℕ → ℕ → List (ℕ × ℕ) × ℕ
report job last offset =
    let size = length job.image in
    let pct = offset * 100 / size in
    let total = total_packets job size in
    if leb (last + 4) pct || offset == size
    then ((min total (total_packets job offset), total) ∷ [], pct + 1)
    else ([], last)

unfoldable pub eot_loop : Job → List Window → Run
unfolding try_send
eot_loop job line =
    let (end, log, left) = try_send job.max_retries eot line in
    record {
      outcome = elim end [
        | sent ↦ none
        | stopped ↦ some cancelled_at_eot
        | given_up ↦ some eot_not_acked
        | invalid ↦ some invalid_block
      ];
      exchanges = log;
      progress = [];
      line = left;
    }

-- One packet of the loop.
unfoldable pub attempts : Job → ℕ → ℕ → List Window → Attempts
unfolding try_send
attempts job offset number line =
    elim (build_xmodem_packet (block_at job offset) number job.use_crc job.block_size) [
      | none ↦ (invalid, [], line)
      | some w ↦ try_send job.max_retries w line
    ]

abbrev pub failed : Error → List Exchange → List Window → Run
failed e log left = record { outcome = some e; exchanges = log; progress = []; line = left }

abbrev pub prepend : List Exchange → List (ℕ × ℕ) → Run → Run
prepend log calls run = record run {
  exchanges = log ++ run.exchanges;
  progress = calls ++ run.progress;
}

-- The `while offset < len(image)` loop, then EOT. `none` means that the fuel ran out.
unfoldable pub data_loop : ℕ → Job → ℕ → ℕ → ℕ → List Window → Option Run
unfolding attempts eot_loop
data_loop zero job offset number last line = none
data_loop (suc fuel) job offset number last line =
    let (end, log, left) = attempts job offset number line in
    let offset' = offset + min job.block_size (length job.image - offset) in
    let (calls, last') = report job last offset' in
    let rest = data_loop fuel job offset' ((number + 1) % 256) last' left in
    if ltb offset (length job.image)
    then elim end [
      | sent ↦ elim rest [ none ↦ none | some run ↦ some (prepend log calls run) ]
      | stopped ↦ some (failed cancelled_transfer log left)
      | given_up ↦ some (failed failed_after_retries log left)
      | invalid ↦ some (failed invalid_block log left)
    ]
    else some (eot_loop job line)

-- `send_xmodem`. Every round of the loop sends at least one byte of the image, so this fuel is
-- enough where the block size is positive.
unfoldable pub send_xmodem : Job → List Window → Option Run
unfolding data_loop
send_xmodem job line = data_loop (suc (length job.image)) job 0 1 0 line
