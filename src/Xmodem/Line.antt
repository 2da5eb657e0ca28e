-- ===== src/Xmodem/Line.antt =====
-- `_read_xmodem_response` and `wait_xmodem_request`. The line is a parameter: what one call reads
-- before its deadline is a window, the chunks that the port hands out in order. A window that ends
-- is a deadline that passed, and no window at all is a silent line.
use zzt_self.Base.{
  ℕ, ◌≡◌, refl, ◌≢◌, Option, none, some, List, [], ◌∷◌, ◌++◌, arith, ◌==◌, if◌then◌else◌, Bytes,
  All,
}

abbrev pub ack : ℕ
ack = 0x06

abbrev pub nak : ℕ
nak = 0x15

abbrev pub can : ℕ
can = 0x18

abbrev pub crcchr : ℕ
crcchr = 0x43

abbrev pub Window : Type 0
Window = List Bytes

-- The three bytes that `_read_xmodem_response` returns, and -1.
pub data Response : Type 0 where
  acked refused cancelled timed_out : Response

-- The `for b in chunk` loop; the bytes behind a protocol byte are dropped with the chunk.
unfoldable pub scan_chunk : Bytes → Option Response
scan_chunk [] = none
scan_chunk (b ∷ bs) =
    if b == ack
    then some acked
    else if b == nak
    then some refused
    else if b == can
    then some cancelled
    else scan_chunk bs

unfoldable pub read_response : Window → Response
unfolding scan_chunk
read_response [] = timed_out
read_response (chunk ∷ window) = elim (scan_chunk chunk) [
  | none ↦ read_response window
  | some r ↦ r
]

-- The window of the next call, and those of the calls after it.
abbrev pub next_window : List Window → Window × List Window
next_window [] = ([], [])
next_window (w ∷ ws) = (w, ws)

-- The bytes on which `wait_xmodem_request` decides, one for each `_read_byte`; -1 and any other byte
-- go round the loop.
pub data Request : Type 0 where
  mode_crc mode_checksum receiver_cancelled no_request : Request

unfoldable pub wait_xmodem_request : Bytes → Request
wait_xmodem_request [] = no_request
wait_xmodem_request (b ∷ bs) =
    let rest = wait_xmodem_request bs in
    if b == crcchr
    then mode_crc
    else if b == nak
    then mode_checksum
    else if b == can
    then receiver_cancelled
    else rest

-- Bytes that are no protocol byte, such as the progress dots of the bootloader.
abbrev pub IsChatter : ℕ → Type 0
IsChatter b = (b ≢ ack) × (b ≢ nak) × (b ≢ can)

scan_chunk-append :
    (noise rest : Bytes) → All IsChatter noise → scan_chunk (noise ++ rest) ≡ scan_chunk rest
unfolding scan_chunk
scan_chunk-append [] rest h = refl
scan_chunk-append (b ∷ noise) rest h = ground (arith, scan_chunk-append noise rest h.1)

pub scan_chunk-noise : (noise : Bytes) → All IsChatter noise → scan_chunk noise ≡ none
unfolding scan_chunk
scan_chunk-noise [] h = refl
scan_chunk-noise (b ∷ noise) h = ground (arith, scan_chunk-noise noise h.1)

-- Chatter before a protocol byte changes no response, however it is cut into chunks.
pub read_response-chatter :
    (noises : List Bytes) (noise rest : Bytes) (window : Window)
    → All (All IsChatter) noises
    → All IsChatter noise
    → read_response (noises ++ ((noise ++ rest) ∷ window)) ≡ read_response (rest ∷ window)
unfolding read_response
read_response-chatter [] noise rest window h k = rw (scan_chunk-append noise rest k, read_response)
read_response-chatter (n ∷ noises) noise rest window h k =
    rw (scan_chunk-noise n h.0, read_response)
      (read_response-chatter noises noise rest window h.1 k)
