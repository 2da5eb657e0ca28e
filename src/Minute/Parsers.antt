-- ===== src/Minute/Parsers.antt =====
-- The parsers of single log lines: libs/minute_assert/parsers.py. A text is the list of its
-- character codes, and an address, which the source keeps as upper-case hex, the list of its bytes.
use zzt_self.Base.{
  ℕ, zero, suc, ◌+◌, ◌-◌, ◌*◌, ◌/◌, ◌%◌, ◌^◌, Bool, true, false, not, ◌&&◌, ◌||◌, Option, none,
  some, List, [], ◌∷◌, ◌++◌, ltb, leb, ◌==◌, if◌then◌else◌, Bytes, length, get_elem?, take, drop,
  replicate, mem, when, and_then,
}
use zzt_self.Minute.Time.{Freeze}

abbrev pub Chars : Type 0
Chars = List ℕ

-- `[0-9a-fA-F]`
abbrev pub is_hex : ℕ → Bool
is_hex c = (leb 48 c && leb c 57) || (leb 97 c && leb c 102) || (leb 65 c && leb c 70)

abbrev pub hex_value : ℕ → ℕ
hex_value c = if leb c 57 then c - 48 else if leb c 70 then c - 55 else c - 87

abbrev pub all_hex : Chars → Bool
all_hex [] = true
all_hex (c ∷ cs) = is_hex c && all_hex cs

-- The white space that `bytes.fromhex` passes over between two bytes.
abbrev pub is_ascii_space : ℕ → Bool
is_ascii_space c = (leb 9 c && leb c 13) || c == 32

-- `bytes.fromhex`; `none` is its `ValueError`.
unfoldable pub from_hex : Chars → Option Bytes
from_hex [] = some []
from_hex (a ∷ []) = if is_ascii_space a then some [] else none
from_hex (a ∷ b ∷ cs) = elim (is_ascii_space a) [
  | true ↦ from_hex (b ∷ cs)
  | false ↦ elim (is_hex a && is_hex b) [
    | true ↦ and_then (from_hex cs) (λ bs. some ((hex_value a * 16 + hex_value b) ∷ bs))
    | false ↦ none
  ]
]

-- The white space that `strip` takes off.
abbrev pub is_space : ℕ → Bool
is_space c =
    (leb 9 c && leb c 13)
    || (leb 28 c && leb c 32)
    || (leb 8192 c && leb c 8202)
    || mem c (133 ∷ 160 ∷ 5760 ∷ 8232 ∷ 8233 ∷ 8239 ∷ 8287 ∷ 12288 ∷ [])

abbrev pub drop_space : Chars → Chars
drop_space [] = []
drop_space (c ∷ cs) = if is_space c then drop_space cs else c ∷ cs

-- `reversed` onto an accumulator.
abbrev pub turned : Chars → Chars → Chars
turned [] acc = acc
turned (c ∷ cs) acc = turned cs (c ∷ acc)

-- `^\[\d{8}-\d{2}:\d{2}:\d{2}:\d{3}\]` with ASCII digits: 0 stands for a digit, and the other
-- numbers for the characters `[`, `-`, `:` and `]`.
abbrev pub stamp_shape : Chars
stamp_shape =
    91 ∷ (replicate 8 0 ++ (45 ∷ 0 ∷ 0 ∷ 58 ∷ 0 ∷ 0 ∷ 58 ∷ 0 ∷ 0 ∷ 58 ∷ 0 ∷ 0 ∷ 0 ∷ 93 ∷ []))

abbrev pub fits_shape : Chars → Chars → Bool
fits_shape [] cs = true
fits_shape (p ∷ ps) [] = false
fits_shape (p ∷ ps) (c ∷ cs) = (if p == 0 then leb 48 c && leb c 57 else c == p) && fits_shape ps cs

abbrev pub without_stamp : Chars → Chars
without_stamp line = if fits_shape stamp_shape line then drop (length stamp_shape) line else line

-- The hex digits at the front of a text.
abbrev pub hex_run : Chars → Chars
hex_run [] = []
hex_run (c ∷ cs) = if is_hex c then c ∷ hex_run cs else []

-- `dedup_key`
abbrev pub dedup_key : Chars → Chars
dedup_key line =
    let backward = drop_space (turned (drop_space (without_stamp line)) []) in
    elim (hex_run backward) [ [] ↦ turned backward [] | c ∷ cs ↦ turned (c ∷ cs) [] ]

abbrev pub starts_with : Chars → Chars → Bool
starts_with [] cs = true
starts_with (p ∷ ps) [] = false
starts_with (p ∷ ps) (c ∷ cs) = c == p && starts_with ps cs

-- `RE.fullmatch(content)` for a prefix and one or more hex digits, and the bytes of the digits.
abbrev pub matched : Chars → Chars → Option Bytes
matched prefix content =
    if starts_with prefix content && all_hex content && ltb (length prefix) (length content)
    then from_hex content
    else none

-- "11e400000", "11e2", "11e3"
abbrev pub active_report_prefix : Chars
active_report_prefix = 49 ∷ 49 ∷ 101 ∷ 52 ∷ replicate 5 48

abbrev pub task_config_prefix : Chars
task_config_prefix = 49 ∷ 49 ∷ 101 ∷ 50 ∷ []

abbrev pub read_frame_prefix : Chars
read_frame_prefix = 49 ∷ 49 ∷ 101 ∷ 51 ∷ []

-- `data[k]` where the length has been checked.
abbrev pub at : Bytes → ℕ → ℕ
at bs k = elim (get_elem? bs k) [ none ↦ 0 | some b ↦ b ]

-- `data[a:a + 6][::-1]`
abbrev pub address_at : ℕ → Bytes → Bytes
address_at a bs = turned (take 6 (drop a bs)) []

abbrev pub freeze_at : ℕ → Bytes → Freeze
freeze_at a bs = record {
  second = at bs a;
  minute = at bs (a + 1);
  hour = at bs (a + 2);
  day = at bs (a + 3);
  month = at bs (a + 4);
  year = at bs (a + 5);
}

pub record ActiveReport : Type 0 where
  pub address : Bytes
  pub task_id : ℕ
  pub fz : Freeze
  pub result : ℕ

abbrev pub parse_active_report : Chars → Option ActiveReport
parse_active_report content = and_then (matched active_report_prefix content) (λ bs.
    when (leb 27 (length bs)) (
      some (record {
        address = address_at 13 bs;
        task_id = at bs 19;
        fz = freeze_at 21 bs;
        result = at bs 20 / 2 ^ 5 % 8;
      })))

pub data Direction : Type 0 where
  reply request : Direction

pub record ReadFrame : Type 0 where
  pub direction : Direction
  pub task_id : ℕ
  pub address : Bytes
  pub fz : Freeze
  pub result : Option ℕ

abbrev pub parse_read_frame : Chars → Option ReadFrame
parse_read_frame content = and_then (matched read_frame_prefix content) (λ bs.
    let answers = (at bs 4 + at bs 5 * 256) / 2 ^ 12 % 2 == 1 in
    when (leb 24 (length bs) && not (at bs 17 == 0xFF)) (
      some (record {
        direction = if answers then reply else request;
        task_id = at bs 17;
        address = address_at 11 bs;
        fz = freeze_at 18 bs;
        result = if answers then some (at bs 10 / 2 ^ 5 % 8) else none;
      })))

pub record TaskConfig : Type 0 where
  pub task_id : ℕ
  pub period : ℕ
  pub switch_flag : ℕ

abbrev pub delete_all : TaskConfig
delete_all = record { task_id = 0xFF; period = 0; switch_flag = 0 }

-- The outer `none` is the `IndexError` of `data[17]`, whose length test asks for 17 bytes only.
abbrev pub parse_task_config : Chars → Option (Option TaskConfig)
parse_task_config content = elim (matched task_config_prefix content) [
  | none ↦ some none
  | some bs ↦
      if ltb (length bs) 17
      then some none
      else and_then (get_elem? bs 17) (λ flag.
        if at bs 16 == 0xFF
        then some (if flag % 2 == 0 then some delete_all else none)
        else some (
            when (leb 19 (length bs))
              (some (record { task_id = at bs 16; period = at bs 18; switch_flag = flag % 2 }))))
]

abbrev pub parse_full_f231_frame : Chars → Option TaskConfig
parse_full_f231_frame content = and_then (matched [] content) (λ bs.
    when
      (leb 17 (length bs)
        && at bs 0 == 0x68
        && at bs 3 / 2 ^ 7 % 2 == 0
        && at bs 10 == 0x11
        && at bs 11 == 0x40
        && at bs 12 == 0x1C)
      (if at bs 13 == 0xFF
        then when (at bs 14 == 0) (some delete_all)
        else some (record { task_id = at bs 13; period = at bs 16; switch_flag = at bs 14 % 2 })))

abbrev pub parse_task_config_any : Chars → Option (Option TaskConfig)
parse_task_config_any content =
    and_then (parse_task_config content) (λ config. elim config [
      | some c ↦ some (some c)
      | none ↦ some (parse_full_f231_frame content)
    ])

-- `tuple(frame[16 + i * 6 : 22 + i * 6][::-1] for i in range(count))`
abbrev pub addresses_from : ℕ → Bytes → List Bytes
addresses_from zero bs = []
addresses_from (suc n) bs = address_at 0 bs ∷ addresses_from n (drop 6 bs)

abbrev pub is_f232 : Bytes → Bool
is_f232 bs = at bs 3 == 0x43 && at bs 10 == 0x11 && at bs 11 == 0x80 && at bs 12 == 0x1C

abbrev pub parse_f232_frame : Bytes → Option (ℕ × List Bytes)
parse_f232_frame bs =
    let count = at bs 14 + at bs 15 * 256 in
    when
      (leb 16 (length bs)
        && is_f232 bs
        && not (at bs 13 == 0xFF)
        && not (count == 0)
        && leb (16 + count * 6) (length bs))
      (some (at bs 13, addresses_from count (drop 16 bs)))

pub data Scene : Type 0 where
  active_report passive_report passive_collect : Scene

abbrev pub any_byte : Bytes → Bool
any_byte [] = false
any_byte (b ∷ bs) = not (b == 0) || any_byte bs

abbrev pub has_data_region : Bytes → Scene → Bool
has_data_region bs active_report = leb 30 (length bs) && any_byte (take 3 (drop 27 bs))
has_data_region bs passive_report = leb 27 (length bs) && any_byte (take 3 (drop 24 bs))
has_data_region bs passive_collect = false

abbrev pub classify_11e3_scene : ReadFrame → Scene
classify_11e3_scene f = elim f.direction [ reply ↦ passive_report | request ↦ passive_collect ]
