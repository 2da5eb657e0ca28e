-- ===== src/Tests/ModuleLogTests.antt =====
-- Runs of a serial channel, and its theorems at concrete inputs.
use zzt_self.Base.{◌≡◌, refl, true, none, some, [], ◌∷◌, ◌++◌, arith, drop}
use zzt_self.ModuleLog.Utf8.{decode_from, decode_utf8}
use zzt_self.ModuleLog.Channel.{
  Channel, new_channel, rx, event, opened, starts, receives, chunk, run_op, ingest_rx, logs,
  append_line, append_lines, split_lines, start, rx_turn,
}
use zzt_self.ModuleLog.Channel.Lines.{received, received-ingest_rx, ingest_rx-append}
use zzt_self.ModuleLog.Channel.Window.{Reachable, made, ran, Logged, Reachable-Logged}
use zzt_self.ModuleLog.Channel.Polls.{newer-Reachable}

-- "a\nb" arrives on an open port.
abbrev two_parts : Channel
two_parts = run_op (receives (chunk (97 ∷ 10 ∷ 98 ∷ []))) (run_op (starts true 9600) new_channel)

two_parts-Reachable : Reachable two_parts
two_parts-Reachable = ran (receives (chunk (97 ∷ 10 ∷ 98 ∷ []))) _ (ran (starts true 9600) _ made)

two_parts_lines :
    (two_parts.rx_line_buf ≡ 98 ∷ [])
    × (logs none two_parts
        ≡ record { seq = 0; line = event opened }
          ∷ record { seq = 1; line = rx (97 ∷ 10 ∷ []) }
          ∷ [])
unfolding run_op start rx_turn append_line append_lines split_lines decode_from
two_parts_lines = (refl, refl)

-- A client that starts from the default, `after = 0`, does not get entry 0.
first_entry_missed : logs (some 0) two_parts ≡ record { seq = 1; line = rx (97 ∷ 10 ∷ []) } ∷ []
unfolding run_op start rx_turn append_line append_lines split_lines decode_from
first_entry_missed = refl

received-ingest_rx_example :
    received (ingest_rx (99 ∷ 10 ∷ []) two_parts).history
      ++ decode_utf8 (ingest_rx (99 ∷ 10 ∷ []) two_parts).rx_line_buf
    ≡ received two_parts.history ++ decode_utf8 (two_parts.rx_line_buf ++ (99 ∷ 10 ∷ []))
received-ingest_rx_example = received-ingest_rx (99 ∷ 10 ∷ []) two_parts

ingest_rx-append_example :
    ingest_rx ((99 ∷ []) ++ (10 ∷ [])) two_parts
    ≡ ingest_rx (10 ∷ []) (ingest_rx (99 ∷ []) two_parts)
ingest_rx-append_example = ingest_rx-append (99 ∷ []) (10 ∷ []) two_parts

Reachable-Logged_example : Logged two_parts
Reachable-Logged_example = Reachable-Logged two_parts two_parts-Reachable

newer-Reachable_example : logs (some 0) two_parts ≡ drop 1 two_parts.history
unfolding run_op start rx_turn append_line append_lines split_lines decode_from
newer-Reachable_example = newer-Reachable two_parts 0 two_parts-Reachable (omega arith)

-- Four characters of one to four bytes, and then: a first byte too small, one whose rest is not
-- there, and a surrogate's three bytes.
decoded_and_replaced :
    decode_utf8 (
      0x41 ∷ 0xC3 ∷ 0xA4 ∷ 0xE4 ∷ 0xB8 ∷ 0xAD ∷ 0xF0 ∷ 0x9F ∷ 0x98 ∷ 0x80 ∷ 0xC0 ∷ 0xE4 ∷ 0xB8
      ∷ 0x42 ∷ 0xED ∷ 0xA0 ∷ 0x80 ∷ [])
    ≡ 0x41 ∷ 0xE4 ∷ 0x4E2D ∷ 0x1F600 ∷ 0xFFFD ∷ 0xFFFD ∷ 0x42 ∷ 0xFFFD ∷ 0xFFFD ∷ 0xFFFD ∷ []
unfolding decode_from
decoded_and_replaced = refl
