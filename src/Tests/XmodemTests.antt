-- ===== src/Tests/XmodemTests.antt =====
-- The XMODEM sender (apps/module_log/xmodem_flash.py).
use zzt_self.Base.{ℕ, ◌<◌, ◌≡◌, refl, false, none, some, List, [], ◌∷◌, ◌++◌, arith, replicate}
use zzt_self.Xmodem.Packet.{crc16_xmodem, build_xmodem_packet}
use zzt_self.Xmodem.Line
use zzt_self.Xmodem.Line.{
  Window, ack, nak, IsChatter, read_response, read_response-chatter, wait_xmodem_request,
  mode_checksum,
}
use zzt_self.Xmodem.Send.{Job, Run, send_xmodem, eot, block_at}
use zzt_self.Xmodem.Send.Delivery.{received, send_xmodem-Delivered}
use zzt_self.Xmodem.Send.Bounds.{EndsWithin, send_xmodem-EndsWithin}

-- The check value of `selftest`.
selftest_crc :
    crc16_xmodem (b'1' ∷ b'2' ∷ b'3' ∷ b'4' ∷ b'5' ∷ b'6' ∷ b'7' ∷ b'8' ∷ b'9' ∷ []) ≡ 0x31C3
unfolding crc16_xmodem
selftest_crc = refl

-- Blocks of four bytes stand in for those of 128 and 1024.
abbrev job : Job
job = record {
  image = 1 ∷ 2 ∷ 3 ∷ 4 ∷ 5 ∷ 6 ∷ [];
  use_crc = false;
  max_retries = 3;
  block_size = 4;
}

-- A lost packet, progress dots before an ACK, a NAK, and the ACKs.
abbrev line : List Window
line =
    []
    ∷ ((b'.' ∷ b'.' ∷ []) ∷ (b'.' ∷ ack ∷ []) ∷ [])
    ∷ ((nak ∷ []) ∷ [])
    ∷ ((ack ∷ []) ∷ [])
    ∷ ((ack ∷ []) ∷ [])
    ∷ []

abbrev run : Run
run = record {
  outcome = none;
  exchanges =
      record { written = 2 ∷ 1 ∷ 254 ∷ 1 ∷ 2 ∷ 3 ∷ 4 ∷ 10 ∷ []; response = Line.timed_out }
      ∷ record { written = 2 ∷ 1 ∷ 254 ∷ 1 ∷ 2 ∷ 3 ∷ 4 ∷ 10 ∷ []; response = Line.acked }
      ∷ record { written = 2 ∷ 2 ∷ 253 ∷ 5 ∷ 6 ∷ 26 ∷ 26 ∷ 63 ∷ []; response = Line.refused }
      ∷ record { written = 2 ∷ 2 ∷ 253 ∷ 5 ∷ 6 ∷ 26 ∷ 26 ∷ 63 ∷ []; response = Line.acked }
      ∷ record { written = eot; response = Line.acked }
      ∷ [];
  progress = (1, 2) ∷ (2, 2) ∷ [];
  line = [];
}

send-job : send_xmodem job line ≡ some run
unfolding send_xmodem build_xmodem_packet block_at
send-job = refl

asks_checksum : wait_xmodem_request (b'x' ∷ nak ∷ []) ≡ mode_checksum
unfolding wait_xmodem_request
asks_checksum = refl

send_xmodem-Delivered_example :
    (k : ℕ) × (k < 4) × (received job 1 run.exchanges ≡ some (job.image ++ replicate k 0x1A))
send_xmodem-Delivered_example = send_xmodem-Delivered job line run (omega arith) send-job refl

send_xmodem-EndsWithin_example : EndsWithin 9 (send_xmodem job line)
send_xmodem-EndsWithin_example = send_xmodem-EndsWithin 2 job line (omega arith) (omega arith)
