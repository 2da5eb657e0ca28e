-- ===== src/Minute/Collect/Lines.antt =====
-- The spans of the events, over every line and file that is scanned.
use zzt_self.Base.{
  ℕ, ◌*◌, ◌/◌, ◌≡◌, refl, not, ◌&&◌, Option, none, some, List, [], ◌∷◌, ltb, leb, length, take,
  and_then, if-holds, elim-holds,
}
use mathlib.Core.Path.{subst}
use zzt_self.Base.Dict.{number_key}
use zzt_self.Minute.Parsers.{
  Chars, all_hex, from_hex, dedup_key, starts_with, is_f232, parse_f232_frame,
  parse_task_config_any, parse_active_report, parse_read_frame,
}
use zzt_self.Minute.Cycle.{is_empty}
use zzt_self.Minute.Collect.{
  Collected, nothing_collected, record_configured, LogScan, fresh_file, complete, buffered,
  other_line, scan_line, scan_lines, scan_files,
}
use zzt_self.Minute.Collect.Spans.{
  Spanned, Spanned-moved, apply_config-Spanned, apply_report-Spanned, apply_read-Spanned,
}

-- A result, if there is one, has the property.
abbrev Holds : {A : Type 0} → (A → Type 0) → Option A → Type 0
Holds P none = Unit
Holds P (some a) = P a

and_then-Holds :
    {A B : Type 0} (P : B → Type 0) (o : Option A) (f : A → Option B)
    → ((a : A) → Holds P (f a))
    → Holds P (and_then o f)
and_then-Holds P none f h = tt
and_then-Holds P (some a) f h = h a

chain-Holds :
    {A B : Type 0} (P : A → Type 0) (Q : B → Type 0) (o : Option A) (f : A → Option B)
    → Holds P o
    → ((a : A) → P a → Holds Q (f a))
    → Holds Q (and_then o f)
chain-Holds P Q none f h k = tt
chain-Holds P Q (some a) f h k = k a h

other_line-Spanned :
    (content : Chars) (c : Collected) → Spanned c → Holds Spanned (other_line content c)
other_line-Spanned content c s = and_then-Holds Spanned (parse_task_config_any content) _ (λ config.
    elim-holds (Holds Spanned) config _ _
      (λ _.
        elim-holds (Holds Spanned) (parse_active_report content) _ _
          (λ _.
            elim-holds (Holds Spanned) (parse_read_frame content) _ _ (λ _. s)
              (λ r _.
                and_then-Holds Spanned (from_hex content) _ (λ bs. apply_read-Spanned _ r c s)))
          (λ r _. and_then-Holds Spanned (from_hex content) _ (λ bs. apply_report-Spanned _ r c s)))
      (λ t _. apply_config-Spanned t c s))

abbrev ScanSpanned : LogScan → Type 0
ScanSpanned s = Spanned s.collected

complete-Spanned :
    (text : Chars) (need : ℕ) (c : Collected) → Spanned c → Holds ScanSpanned (complete text need c)
complete-Spanned text need c s =
    and_then-Holds ScanSpanned (from_hex (take (need * 2) text)) _ (λ frame.
      elim-holds Spanned (parse_f232_frame frame) c _ (λ _. s)
        (λ found _. Spanned-moved c (record_configured found c) refl refl refl refl s))

buffered-Spanned :
    (text : Chars) (need : ℕ) (c : Collected) → Spanned c → Holds ScanSpanned (buffered text need c)
buffered-Spanned text need c s =
    if-holds (Holds ScanSpanned) (leb need (length text / 2)) _ _
      (λ _. complete-Spanned text need c s) (λ _. s)

scan_line-Spanned :
    (line : Chars) (s : LogScan) → ScanSpanned s → Holds ScanSpanned (scan_line line s)
unfolding scan_line
scan_line-Spanned line s h =
    let content = dedup_key line in
    let other =
      chain-Holds Spanned ScanSpanned (other_line content s.collected)
        (λ c. some (record s { collected = c })) (other_line-Spanned content s.collected h)
        (λ c k. k) in
    if-holds (Holds ScanSpanned) (not (is_empty s.f232_buffer)) _ _
      (λ _.
        if-holds (Holds ScanSpanned) (all_hex content && ltb 0 (length content)) _ _
          (λ _. buffered-Spanned _ _ s.collected h) (λ _. h))
      (λ _.
        if-holds (Holds ScanSpanned) (starts_with (54 ∷ 56 ∷ []) content && leb 26 (length content))
          _ _
          (λ _.
            if-holds (Holds ScanSpanned) (all_hex (take 26 content)) _ _
              (λ _.
                elim-holds (Holds ScanSpanned) (from_hex (take 26 content)) none _ (λ _. tt)
                  (λ front _.
                    if-holds (Holds ScanSpanned) (is_f232 front) _ _
                      (λ _. buffered-Spanned _ _ s.collected h) (λ _. other)))
              (λ _. h))
          (λ _. other))

scan_lines-Spanned :
    (ls : List Chars) (s : LogScan) → ScanSpanned s → Holds ScanSpanned (scan_lines ls s)
unfolding scan_lines
scan_lines-Spanned [] s h = h
scan_lines-Spanned (l ∷ ls) s h =
    chain-Holds ScanSpanned ScanSpanned (scan_line l s) _ (scan_line-Spanned l s h)
      (λ t k. scan_lines-Spanned ls t k)

scan_files-Holds :
    (fs : List (List Chars)) (c : Collected) → Spanned c → Holds Spanned (scan_files fs c)
unfolding scan_files
scan_files-Holds [] c h = h
scan_files-Holds (f ∷ fs) c h =
    chain-Holds ScanSpanned Spanned (scan_lines f (fresh_file c)) _
      (scan_lines-Spanned f (fresh_file c) h) (λ s k. scan_files-Holds fs s.collected k)

-- Whatever lines the log files have, every report and every read that was collected for a task
-- falls between the first and the last minute that is kept for the task.
pub scan_files-Spanned :
    (fs : List (List Chars)) (c : Collected) → scan_files fs nothing_collected ≡ some c → Spanned c
scan_files-Spanned fs c e =
    subst (Holds Spanned) e
      (scan_files-Holds fs nothing_collected (record { reports = λ t. tt; reads = λ t. tt }))
