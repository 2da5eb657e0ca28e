-- ===== src/Minute/Collect.antt =====
-- The scan of the log lines and the statistics of each task: `collect_task_statistics` of
-- libs/minute_assert/statistics.py.
pub mod Stats
pub mod Spans
pub mod Lines
pub mod Listed
use zzt_self.Base.{
  ℕ, zero, suc, ◌+◌, ◌-◌, ◌*◌, ◌/◌, ◌%◌, ◌^◌, ◌≤◌, ◌<◌, min, max, ◌≡◌, refl, sym, ap, ◌∙◌, ◌≢◌, ◌↔◌,
  ◌⊎◌, inl, inr, Bool, true, false, not, ◌&&◌, ◌||◌, Option, none, some, List, [], ◌∷◌, ◌++◌, map,
  append-nil, append_assoc, arith, ltb, leb, ◌==◌, if◌then◌else◌, ltb→lt, lt→ltb, leb→le, le→leb,
  ==_iff, ==_refl, Bool-cases, Option-cases, take_front, drop_front, &&_true, not-eq-true, Bytes,
  length, get_elem?, take, drop, replicate, All, length-append, take-append-drop,
  take-length-append, drop-length-append, length-take, length-drop, length-replicate, All-append,
  sum, mem, sum-append, when, and_then, when-eq-some, and_then-eq-some, holds_under, holds_under_at,
  if-holds, elim-holds, get_elem?-lt, take-length, get_elem?-append, drop-length, same, same_refl,
  drop-drop, take_all, same_text, same_text_iff, text_or, is_text, digit, digits, decimal, has_text,
  join, numbered,
}
use zzt_self.Base.Dict.{lookup, insert, number_key}
use zzt_self.Minute.Time.{Freeze, fz_minutes}
use zzt_self.Minute.Parsers.{
  Chars, all_hex, from_hex, dedup_key, starts_with, at, is_f232, parse_f232_frame, TaskConfig,
  parse_task_config_any, ActiveReport, parse_active_report, ReadFrame, parse_read_frame,
  has_data_region, classify_11e3_scene, active_report,
}
use zzt_self.Minute.Cycle.{Addresses, union, Report, Read, is_empty}

-- The local dicts. `task_configured` and `task_configured_list` hold the same addresses, here once.
pub record Collected : Type 0 where
  pub task_period_map : List (ℕ × ℕ)
  pub task_configured : List (ℕ × Addresses)
  pub task_delete_count : List (ℕ × ℕ)
  pub broadcast_delete_count : ℕ
  pub active_reports : List (ℕ × List Report)
  pub read_events : List (ℕ × List Read)
  pub first_event_minutes : List (ℕ × ℕ)
  pub last_event_minutes : List (ℕ × ℕ)

abbrev pub nothing_collected : Collected
nothing_collected = record {
  task_period_map = [];
  task_configured = [];
  task_delete_count = [];
  broadcast_delete_count = 0;
  active_reports = [];
  read_events = [];
  first_event_minutes = [];
  last_event_minutes = [];
}

-- `d.get(k, default)`
abbrev pub get_or {ℓ} : {V : Type ℓ} → V → ℕ → List (ℕ × V) → V
get_or default k d = elim (lookup k d) [ none ↦ default | some v ↦ v ]

-- `_record_configured`
abbrev pub record_configured : ℕ × Addresses → Collected → Collected
record_configured (task, addresses) c = record c {
  task_configured =
      insert task (union (get_or [] task c.task_configured) addresses) c.task_configured;
}

-- The minute that stays, of the one kept for a task and a new one.
abbrev pub earliest : ℕ → Option ℕ → ℕ
earliest minutes none = minutes
earliest minutes (some old) = if ltb minutes old then minutes else old

abbrev pub latest : ℕ → Option ℕ → ℕ
latest minutes none = minutes
latest minutes (some old) = if ltb old minutes then minutes else old

abbrev pub record_event : ℕ → Freeze → Collected → Collected
record_event task fz c =
    let first = earliest (fz_minutes fz) (lookup task c.first_event_minutes) in
    let last = latest (fz_minutes fz) (lookup task c.last_event_minutes) in
    record c {
      first_event_minutes = insert task first c.first_event_minutes;
      last_event_minutes = insert task last c.last_event_minutes;
    }

abbrev pub apply_config : TaskConfig → Collected → Collected
apply_config t c =
    if t.task_id == 0xFF && t.switch_flag == 0
    then record c { broadcast_delete_count = suc c.broadcast_delete_count }
    else if t.switch_flag == 0
    then record c {
      task_delete_count =
          insert t.task_id (suc (get_or 0 t.task_id c.task_delete_count)) c.task_delete_count;
    }
    else record c { task_period_map = insert t.task_id t.period c.task_period_map }

abbrev pub apply_report : Bool → ActiveReport → Collected → Collected
apply_report has_data r c =
    let seen = get_or [] r.task_id c.active_reports in
    let one : Report = record { address = r.address; fz = r.fz; has_data = has_data } in
    record_event r.task_id r.fz
      (record c { active_reports = insert r.task_id (seen ++ (one ∷ [])) c.active_reports })

abbrev pub apply_read : Bool → ReadFrame → Collected → Collected
apply_read has_data r c =
    let seen = get_or [] r.task_id c.read_events in
    let one : Read = record {
      scene = classify_11e3_scene r;
      address = r.address;
      fz = r.fz;
      has_data = has_data;
    } in
    record_event r.task_id r.fz
      (record c { read_events = insert r.task_id (seen ++ (one ∷ [])) c.read_events })

-- A F232 frame that is being put together from lines, and the bytes it needs; no text is none.
pub record LogScan : Type 0 where
  pub f232_buffer : Chars
  pub f232_need : ℕ
  pub collected : Collected

abbrev pub fresh_file : Collected → LogScan
fresh_file c = record { f232_buffer = []; f232_need = 0; collected = c }

-- `none` is the `ValueError` of text that is no hex.
abbrev pub complete : Chars → ℕ → Collected → Option LogScan
complete text need c = and_then (from_hex (take (need * 2) text)) (λ frame. some (
    fresh_file
      (elim (parse_f232_frame frame) [ none ↦ c | some found ↦ record_configured found c ])))

-- Once enough of the frame is there, it is read and the buffer is empty again.
abbrev pub buffered : Chars → ℕ → Collected → Option LogScan
buffered text need c =
    if leb need (length text / 2)
    then complete text need c
    else some (record { f232_buffer = text; f232_need = need; collected = c })

-- A line while a frame is being put together.
abbrev pub continue_f232 : Chars → LogScan → Option LogScan
continue_f232 content s =
    if all_hex content && ltb 0 (length content)
    then buffered (s.f232_buffer ++ content) s.f232_need s.collected
    else some (fresh_file s.collected)

-- The three other kinds of lines, in their order; `none` is an exception of a parser.
abbrev pub other_line : Chars → Collected → Option Collected
other_line content c = and_then (parse_task_config_any content) (λ config. elim config [
  | some t ↦ some (apply_config t c)
  | none ↦ elim (parse_active_report content) [
    | some r ↦
        and_then (from_hex content)
          (λ bs. some (apply_report (has_data_region bs active_report) r c))
    | none ↦ elim (parse_read_frame content) [
      | some r ↦
          and_then (from_hex content)
            (λ bs. some (apply_read (has_data_region bs (classify_11e3_scene r)) r c))
      | none ↦ some c
    ]
  ]
])

-- One line of a log file.
unfoldable pub scan_line : Chars → LogScan → Option LogScan
scan_line line s =
    let content = dedup_key line in
    let other =
      and_then (other_line content s.collected) (λ c. some (record s { collected = c })) in
    if not (is_empty s.f232_buffer)
    then continue_f232 content s
    else if starts_with (54 ∷ 56 ∷ []) content && leb 26 (length content)
    then if all_hex (take 26 content)
      then elim (from_hex (take 26 content)) [
        | none ↦ none
        | some front ↦
            if is_f232 front
            then buffered content (at front 1 + at front 2 * 256) s.collected
            else other
      ]
      else some s
    else other

unfoldable pub scan_lines : List Chars → LogScan → Option LogScan
scan_lines [] s = some s
scan_lines (l ∷ ls) s = and_then (scan_line l s) (scan_lines ls)

-- The log files, each the list of its lines. A file that cannot be opened has none.
unfoldable pub scan_files : List (List Chars) → Collected → Option Collected
scan_files [] c = some c
scan_files (f ∷ fs) c = and_then (scan_lines f (fresh_file c)) (λ s. scan_files fs s.collected)
