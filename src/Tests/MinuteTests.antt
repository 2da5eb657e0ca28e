-- ===== src/Tests/MinuteTests.antt =====
-- Runs of the minute statistics, and their theorems at concrete inputs.
use zzt_self.Base.{
  ◌≡◌, refl, true, false, not, ◌&&◌, ◌||◌, none, some, List, [], ◌∷◌, ◌++◌, replicate, All,
}
use zzt_self.Base.Dict.{number_key}
use zzt_self.Minute.Time.{Freeze, fz_minutes, civil_from_days, days_from_civil, cycle_window_label}
use zzt_self.Minute.Time.Calendar.{days_from_civil-civil_from_days}
use zzt_self.Minute.Parsers.{Chars, parse_task_config, from_hex, passive_report, passive_collect}
use zzt_self.Minute.Cycle.{
  contains, Read, bucket_at, scope, counted_passive, no_reply, reply_no_data, add_reports,
  add_reads,
}
use zzt_self.Minute.Cycle.Classes.{cycle_classes}
use zzt_self.Minute.Collect.{
  Collected, nothing_collected, get_or, scan_files, scan_lines, scan_line,
}
use zzt_self.Minute.Collect.Listed.{Listed, scan_files-Listed}

-- 2026-08-27 10:05:00
abbrev morning : Freeze
morning = record { second = 0; minute = 0x05; hour = 0x10; day = 0x27; month = 0x08; year = 0x26 }

morning_minutes : fz_minutes morning ≡ 29797085
morning_minutes = refl

a_leap_day :
    civil_from_days (days_from_civil 2024 2 29) ≡ record { year = 2024; month = 2; day = 29 }
a_leap_day = refl

over_midnight : cycle_window_label 1430 15 ≡ (23, 50, 24, 5)
over_midnight = refl

-- The characters of "11e2" and of 13 more bytes 00: 17 bytes of which the parser reads the next one.
abbrev short_config : Chars
short_config = 49 ∷ 49 ∷ 101 ∷ 50 ∷ replicate 30 48

-- A configuration frame of exactly 17 bytes raises `IndexError`.
short_config_raises : parse_task_config short_config ≡ none
unfolding from_hex
short_config_raises = refl

-- "11e400000", an address, task 1 and a freeze time: 30 bytes, with data at the end.
abbrev report_line : Chars
report_line =
    49
    ∷ 49
    ∷ 101
    ∷ 52
    ∷ (replicate 22 48
        ++ (replicate 12 49
            ++ (48
                ∷ 49
                ∷ 48
                ∷ 48
                ∷ 48
                ∷ 48
                ∷ 48
                ∷ 53
                ∷ 49
                ∷ 48
                ∷ 50
                ∷ 55
                ∷ 48
                ∷ 56
                ∷ 50
                ∷ 54
                ∷ replicate 6 49)))

abbrev after_report : Collected
after_report = record {
  task_period_map = [];
  task_configured = [];
  task_delete_count = [];
  broadcast_delete_count = 0;
  active_reports =
      (1, record { address = replicate 6 0x11; fz = morning; has_data = true } ∷ []) ∷ [];
  read_events = [];
  first_event_minutes = (1, 29797085) ∷ [];
  last_event_minutes = (1, 29797085) ∷ [];
}

report_scanned : scan_files ((report_line ∷ []) ∷ []) nothing_collected ≡ some after_report
unfolding scan_files scan_lines scan_line from_hex number_key
report_scanned = refl

scan_files-Listed_example :
    All (λ r. Listed 1 after_report r.fz) (get_or [] 1 after_report.active_reports)
    × All (λ r. Listed 1 after_report r.fz) (get_or [] 1 after_report.read_events)
scan_files-Listed_example =
    scan_files-Listed ((report_line ∷ []) ∷ []) after_report 1 report_scanned

days_from_civil-civil_from_days_example :
    (let c = civil_from_days 19782 in days_from_civil c.year c.month c.day) ≡ 19782
days_from_civil-civil_from_days_example = days_from_civil-civil_from_days 19782

abbrev two_reads : List Read
two_reads =
    record { scene = passive_collect; address = 1 ∷ []; fz = morning; has_data = false }
    ∷ record { scene = passive_report; address = 2 ∷ []; fz = morning; has_data = false }
    ∷ []

cycle_classes_example :
    (let b = bucket_at 1 [] two_reads 29797085 in
      let counted = contains (1 ∷ []) (counted_passive none b) in
      let without_data = contains (1 ∷ []) (reply_no_data none b) in
      let silent = contains (1 ∷ []) (no_reply none b) in
      let in_scope = contains (1 ∷ []) (scope none b) in
      ((counted || without_data) ≡ (in_scope && contains (1 ∷ []) b.reply_any))
      × ((counted && without_data) ≡ false)
      × (silent
          ≡ (in_scope && (contains (1 ∷ []) b.requested && not (contains (1 ∷ []) b.reply_any)))))
cycle_classes_example = cycle_classes none 1 29797085 [] two_reads (1 ∷ [])

first_meter_silent : contains (1 ∷ []) (no_reply none (bucket_at 1 [] two_reads 29797085)) ≡ true
unfolding add_reports add_reads
first_meter_silent = refl
