-- ===== src/ModuleLog/Channel.antt =====
-- `_SerialChannel` of apps/module_log/module_serial_service.py: its log lines and its states.
pub mod Lines
pub mod Window
pub mod Polls
use zzt_self.Base.{
  ℕ, zero, suc, ◌+◌, ◌-◌, ◌*◌, ◌/◌, ◌%◌, ◌^◌, ◌≤◌, ◌<◌, min, max, ◌≡◌, refl, sym, ap, ◌∙◌, ◌≢◌, ◌↔◌,
  ◌⊎◌, inl, inr, Bool, true, false, not, ◌&&◌, ◌||◌, Option, none, some, List, [], ◌∷◌, ◌++◌, map,
  append-nil, append_assoc, arith, ltb, leb, ◌==◌, if◌then◌else◌, ltb→lt, lt→ltb, leb→le, le→leb,
  ==_iff, ==_refl, Bool-cases, Option-cases, take_front, drop_front, &&_true, not-eq-true, Bytes,
  length, get_elem?, take, drop, replicate, All, length-append, take-append-drop,
  take-length-append, drop-length-append, length-take, length-drop, length-replicate, All-append,
  sum, mem, sum-append, when, and_then, when-eq-some, and_then-eq-some, holds_under, holds_under_at,
  if-holds, elim-holds, get_elem?-lt, take-length, get_elem?-append, drop-length, same, same_refl,
  drop-drop, take_all, same_text, same_text_iff, text_or, is_text, digit, digits, decimal, has_text,
  join, numbered,
}
use zzt_self.ModuleLog.Utf8.{CodePoints, decode_utf8}

-- The event lines, whose texts are not kept.
pub data Note : Type 0 where
  opened closed read_failed flash_started flash_done flash_failed : Note
  rate : ℕ → Note

-- A line is the bytes that the source decodes, with the directions "RX", "TX" and "EVENT".
pub data LogLine : Type 0 where
  rx tx : CodePoints → LogLine
  event : Note → LogLine

pub record Entry : Type 0 where
  pub seq : ℕ
  pub line : LogLine

pub data State : Type 0 where
  idle running error : State

-- The fields that the operations change. `receiving` is that the RX thread runs, `answers` is
-- `_flash_resp_q`, and `log_file` what was written while a file was open. `history` holds every
-- entry that was ever appended; the source keeps no such list.
pub record Channel : Type 0 where
  pub state : State
  pub connected : Bool
  pub receiving : Bool
  pub stopping : Bool
  pub baudrate : ℕ
  pub lines : List Entry
  pub next_seq : ℕ
  pub rx_line_buf : Bytes
  pub tx_line_buf : Bytes
  pub flashing : Bool
  pub answers : Option Bytes
  pub log_open : Bool
  pub log_file : List Entry
  pub history : List Entry

-- `__init__`
abbrev pub new_channel : Channel
new_channel = record {
  state = idle;
  connected = false;
  receiving = false;
  stopping = false;
  baudrate = 115200;
  lines = [];
  next_seq = 0;
  rx_line_buf = [];
  tx_line_buf = [];
  flashing = false;
  answers = none;
  log_open = false;
  log_file = [];
  history = [];
}

abbrev pub max_memory_lines : ℕ
max_memory_lines = 5000

-- `del lines[: len(lines) - MAX_MEMORY_LINES]` where there are more
abbrev pub newest {ℓ} : {A : Type ℓ} → List A → List A
newest xs = drop (length xs - max_memory_lines) xs

-- `_append_line`
unfoldable pub append_line : LogLine → Channel → Channel
append_line l c =
    let entry : Entry = record { seq = c.next_seq; line = l } in
    record c {
      next_seq = suc c.next_seq;
      lines = newest (c.lines ++ (entry ∷ []));
      log_file = if c.log_open then c.log_file ++ (entry ∷ []) else c.log_file;
      history = c.history ++ (entry ∷ []);
    }

unfoldable pub append_lines : (CodePoints → LogLine) → List Bytes → Channel → Channel
append_lines dir [] c = c
append_lines dir (l ∷ ls) c = append_lines dir ls (append_line (dir (decode_utf8 l)) c)

-- The lines of a text with their line feeds, and what follows the last one; `acc` is the front of
-- the first line.
unfoldable pub split_lines : Bytes → Bytes → List Bytes × Bytes
split_lines acc [] = ([], acc)
split_lines acc (b ∷ bs) =
    let ended = split_lines [] bs in
    let more = split_lines (acc ++ (b ∷ [])) bs in
    if b == 10 then ((acc ++ (b ∷ [])) ∷ ended.0, ended.1) else more

-- `_ingest_char_stream`, for either direction.
abbrev pub ingest_rx : Bytes → Channel → Channel
ingest_rx bs c =
    let (ls, rest) = split_lines [] (c.rx_line_buf ++ bs) in
    append_lines rx ls (record c { rx_line_buf = rest })

abbrev pub ingest_tx : Bytes → Channel → Channel
ingest_tx bs c =
    let (ls, rest) = split_lines [] (c.tx_line_buf ++ bs) in
    append_lines tx ls (record c { tx_line_buf = rest })

-- `_flush_char_buf`
abbrev pub flush_rx : Channel → Channel
flush_rx c = elim c.rx_line_buf [
  | [] ↦ c
  | b ∷ bs ↦ append_line (rx (decode_utf8 (b ∷ bs))) (record c { rx_line_buf = [] })
]

abbrev pub flush_tx : Channel → Channel
flush_tx c = elim c.tx_line_buf [
  | [] ↦ c
  | b ∷ bs ↦ append_line (tx (decode_utf8 (b ∷ bs))) (record c { tx_line_buf = [] })
]

abbrev pub is_running : State → Bool
is_running idle = false
is_running running = true
is_running error = false

-- `start`. `opens` is that `serial.Serial` opens the port; `none` is its exception.
unfoldable pub start : Bool → ℕ → Channel → Option Channel
start opens baudrate c =
    if is_running c.state
    then some c
    else if opens
    then some (
        append_line (event opened) (record c {
          state = running;
          connected = true;
          receiving = true;
          stopping = false;
          baudrate = baudrate;
          log_open = true;
        }))
    else none

-- `stop`, where a flash in progress is the only exception. `is_open` is that of the port.
unfoldable pub stop : Bool → Channel → Option Channel
stop is_open c =
    let halted = flush_tx (record c { state = idle; stopping = true; connected = false }) in
    if c.flashing
    then none
    else some
        (record (if c.connected && is_open then append_line (event closed) halted else halted) {
          log_open = false;
        })

-- What one turn of the RX thread finds.
pub data Input : Type 0 where
  silence : Input
  chunk : Bytes → Input
  broken : Input

abbrev pub leave_loop : Channel → Channel
leave_loop c = flush_rx (record c { receiving = false })

-- A turn of `_rx_loop`.
unfoldable pub rx_turn : Input → Channel → Channel
rx_turn i c =
    if not c.receiving then c else if c.stopping || not c.connected then leave_loop c else elim i [
      | silence ↦ c
      | chunk bs ↦ elim c.answers [
        | some q ↦ record c { answers = some (q ++ bs) }
        | none ↦ ingest_rx bs c
      ]
      | broken ↦ leave_loop (append_line (event read_failed) (record c { state = error }))
    ]

-- `write` of bytes; `none` is its exception.
unfoldable pub write : Bytes → Channel → Option Channel
write bs c = if not (is_running c.state) || c.flashing then none else some (ingest_tx bs c)

-- `data.endswith(b"\r\n") or data.endswith(b"\r") or data.endswith(b"\n")`
abbrev pub ends_line : Bytes → Bool
ends_line [] = false
ends_line (b ∷ []) = b == 13 || b == 10
ends_line (b ∷ c ∷ bs) = ends_line (c ∷ bs)

-- `write_text` of a text that is already encoded.
abbrev pub write_text : Bool → Bytes → Channel → Option Channel
write_text append_newline bs c =
    write (if append_newline && not (ends_line bs) then bs ++ (13 ∷ 10 ∷ []) else bs) c

unfoldable pub set_baudrate : ℕ → Channel → Option Channel
set_baudrate r c =
    if not (is_running c.state) || c.flashing
    then none
    else some (append_line (event (rate r)) (record c { baudrate = r }))

-- `flash` up to the call of the sender, and behind it.
unfoldable pub flash_begin : Channel → Option Channel
flash_begin c =
    if not (is_running c.state) || c.flashing
    then none
    else some (record (append_line (event flash_started) (record c { flashing = true })) {
      answers = some [];
    })

unfoldable pub flash_end : Bool → Channel → Channel
flash_end success c =
    if c.flashing
    then record (append_line (event (if success then flash_done else flash_failed))
        (record c { flashing = false })) { answers = none }
    else c

-- `_FlashReader.read`: what is there, up to `n` bytes.
abbrev pub flash_read : ℕ → Channel → Bytes × Channel
flash_read n c = elim c.answers [
  | none ↦ ([], c)
  | some q ↦ (take n q, record c { answers = some (drop n q) })
]

-- `logs`; `after` is `none` for a negative number.
abbrev pub newer : ℕ → List Entry → List Entry
newer after [] = []
newer after (e ∷ es) = if ltb after e.seq then e ∷ newer after es else newer after es

abbrev pub logs : Option ℕ → Channel → List Entry
logs after c = elim after [ none ↦ newest c.lines | some a ↦ newer a c.lines ]

-- `last_seq` of the result: `_next_seq - 1`, or `after` where there is no line.
abbrev pub last_seq : ℕ → Channel → ℕ
last_seq after c = elim c.lines [ [] ↦ after | e ∷ es ↦ c.next_seq - 1 ]

pub data Op : Type 0 where
  starts : Bool → ℕ → Op
  stops : Bool → Op
  receives : Input → Op
  writes : Bytes → Op
  rates : ℕ → Op
  flash_begins : Op
  flash_ends : Bool → Op
  reads : ℕ → Op

-- An operation that raises leaves the channel as it was.
abbrev pub or_same : Option Channel → Channel → Channel
or_same none c = c
or_same (some d) c = d

unfoldable pub run_op : Op → Channel → Channel
unfolding start stop rx_turn write set_baudrate flash_begin flash_end
run_op (starts opens r) c = or_same (start opens r c) c
run_op (stops is_open) c = or_same (stop is_open c) c
run_op (receives i) c = rx_turn i c
run_op (writes bs) c = or_same (write bs c) c
run_op (rates r) c = or_same (set_baudrate r c) c
run_op flash_begins c = or_same (flash_begin c) c
run_op (flash_ends ok) c = flash_end ok c
run_op (reads n) c = (flash_read n c).1
