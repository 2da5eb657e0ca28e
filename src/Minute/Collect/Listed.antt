-- ===== src/Minute/Collect/Listed.antt =====
-- No event of the logs is left out of the cycles of its task.
use zzt_self.Base.{
  ℕ, zero, suc, ◌-◌, ◌<◌, ◌≡◌, refl, ap, ◌∙◌, true, ◌&&◌, Option, none, some, List, [], ◌∷◌, map,
  arith, ltb, leb, ltb→lt, &&_true, All, mem, if-holds,
}
use zzt_self.Base.Dict.{lookup, number_key}
use zzt_self.Minute.Time.{Freeze, fz_minutes, cycle_window_key, period_range}
use zzt_self.Minute.Time.Windows.{period_range-cycle}
use zzt_self.Minute.Parsers.{Chars}
use zzt_self.Minute.Cycle.{Addresses, Report, Read, TaskCycleStats}
use zzt_self.Minute.Collect.{Collected, nothing_collected, get_or, scan_files}
use zzt_self.Minute.Collect.Spans.{InSpan, All-map}
use zzt_self.Minute.Collect.Lines.{scan_files-Spanned}
use zzt_self.Minute.Collect.Stats.{
  gaps, least, period_of, cycles_from, archive_of, stats_between, TaskStats, task_stats,
  sorted_numbers, event_minutes,
}

abbrev Positive : List ℕ → Type 0
Positive gs = All (λ g. 0 < g) gs

gaps-Positive : (ms : List ℕ) → Positive (gaps ms)
gaps-Positive [] = tt
gaps-Positive (a ∷ []) = tt
gaps-Positive (a ∷ b ∷ rest) =
    let later = gaps-Positive (b ∷ rest) in
    if-holds Positive (ltb 0 (b - a) && leb (b - a) 60) _ _
      (λ h. (ltb→lt 0 (b - a) (&&_true (ltb 0 (b - a)) _ h).0, later)) (λ _. later)

least-pos : (gs : List ℕ) → Positive gs → 0 < least gs
least-pos [] h = omega arith
least-pos (g ∷ []) h = h.0
least-pos (g ∷ k ∷ rest) h = omega (arith, h.0, least-pos (k ∷ rest) h.1)

period_of-pos :
    (configured : Option ℕ) (reports : List Report) (reads : List Read)
    → 0 < period_of configured reports reads
period_of-pos none reports reads =
    least-pos _ (gaps-Positive (sorted_numbers (event_minutes reports reads)))
period_of-pos (some zero) reports reads =
    least-pos _ (gaps-Positive (sorted_numbers (event_minutes reports reads)))
period_of-pos (some (suc p)) reports reads = omega arith

abbrev starts : List TaskCycleStats → List ℕ
starts cycles = map (λ y. y.window_start) cycles

starts-cycles_from :
    (configured : Option Addresses) (period : ℕ) (reports : List Report) (reads : List Read)
    (index : ℕ) (keys : List ℕ)
    → starts (cycles_from configured period reports reads index keys) ≡ keys
starts-cycles_from configured period reports reads index [] = refl
starts-cycles_from configured period reports reads index (k ∷ keys) =
    ap (◌∷◌ k) (starts-cycles_from configured period reports reads (suc index) keys)

-- The task has statistics, and one of their cycles starts where the cycle of `fz` starts.
abbrev pub Listed : ℕ → Collected → Freeze → Type 0
Listed task c fz =
    (s : TaskStats) × (task_stats task c ≡ some s)
    × (mem (cycle_window_key fz s.period) (starts s.cycles) ≡ true)

InSpan-Listed :
    (task : ℕ) (c : Collected) (fz : Freeze) → InSpan task c (fz_minutes fz) → Listed task c fz
InSpan-Listed task c fz s =
    let stats = stats_between task c s.first s.last in
    let range = period_range s.first s.last stats.period in
    let found =
      period_range-cycle fz s.first s.last stats.period
        (period_of-pos (lookup task c.task_period_map) (get_or [] task c.active_reports)
          (get_or [] task c.read_events))
        s.from s.upto in
    (
      stats,
      rw (s.first_is, s.last_is) refl,
      ap (mem (cycle_window_key fz stats.period))
            (starts-cycles_from (archive_of task c) stats.period _ _ 1 range)
          ∙ found.0,
    )

-- Whatever lines the log files have, if the scan raises nothing then every report and every read
-- that was collected for a task falls into one of the cycles that the statistics of the task list.
pub scan_files-Listed :
    (fs : List (List Chars)) (c : Collected) (task : ℕ)
    → scan_files fs nothing_collected ≡ some c
    → All (λ r. Listed task c r.fz) (get_or [] task c.active_reports)
      × All (λ r. Listed task c r.fz) (get_or [] task c.read_events)
scan_files-Listed fs c task e =
    let s = scan_files-Spanned fs c e in
    (
      All-map _ _ (get_or [] task c.active_reports) (λ r k. InSpan-Listed task c r.fz k)
          (s.reports task),
      All-map _ _ (get_or [] task c.read_events) (λ r k. InSpan-Listed task c r.fz k)
          (s.reads task),
    )
