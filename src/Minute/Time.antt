-- ===== src/Minute/Time.antt =====
-- Freeze times in BCD, as minutes since 1970 and as reading cycles:
-- libs/minute_assert/timeutil.py.
pub mod Calendar
pub mod Windows
use zzt_self.Base.{
  ℕ, zero, suc, ◌+◌, ◌-◌, ◌*◌, ◌/◌, ◌%◌, ◌^◌, ◌≤◌, ◌<◌, min, max, ◌≡◌, refl, sym, ap, ◌∙◌, ◌≢◌, ◌↔◌,
  ◌⊎◌, inl, inr, Bool, true, false, not, ◌&&◌, ◌||◌, Option, none, some, List, [], ◌∷◌, ◌++◌, map,
  append-nil, append_assoc, arith, ltb, leb, ◌==◌, if◌then◌else◌, ltb→lt, lt→ltb, leb→le, le→leb,
  ==_iff, ==_refl, Bool-cases, Option-cases, take_front, drop_front, &&_true, not-eq-true, Bytes,
  length, get_elem?, take, drop, replicate, All, length-append, take-append-drop,
  take-length-append, drop-length-append, length-take, length-drop, length-replicate, All-append,
  sum, mem, sum-append, when, and_then, when-eq-some, and_then-eq-some, holds_under, holds_under_at,
  if-holds, elim-holds, get_elem?-lt, take-length, get_elem?-append, drop-length, same, same_refl,
  drop-drop, take_all, same_text, same_text_iff, text_or, is_text, digit, digits, decimal, has_text,
  join, numbered,
}

-- `(value >> 4) & 0xF` and `value & 0xF`
abbrev pub bcd : ℕ → ℕ
bcd value = value / 16 % 16 * 10 + value % 16

-- For years from 1970 on. The source computes `doy` first, which is -1 for day 0 of March; here the
-- 1 is taken off the sum, which is the same number.
abbrev pub days_from_civil : ℕ → ℕ → ℕ → ℕ
days_from_civil year month day =
    let y = if leb month 2 then year - 1 else year in
    let era = y / 400 in
    let yoe = y - era * 400 in
    let doy_1 = (153 * (if ltb 2 month then month - 3 else month + 9) + 2) / 5 + day in
    era * 146097 + (yoe * 365 + yoe / 4 - yoe / 100 + doy_1) - 1 - 719468

pub record Civil : Type 0 where
  pub year : ℕ
  pub month : ℕ
  pub day : ℕ

-- For days from 1970 on, so the branch for a negative `z` is not taken.
abbrev pub civil_from_days : ℕ → Civil
civil_from_days days =
    let z = days + 719468 in
    let era = z / 146097 in
    let doe = z - era * 146097 in
    let yoe = (doe - doe / 1460 + doe / 36524 - doe / 146096) / 365 in
    let y = yoe + era * 400 in
    let doy = doe - (365 * yoe + yoe / 4 - yoe / 100) in
    let mp = (5 * doy + 2) / 153 in
    let m = if ltb mp 10 then mp + 3 else mp - 9 in
    record { year = if leb m 2 then y + 1 else y; month = m; day = doy - (153 * mp + 2) / 5 + 1 }

-- The six bytes: second, minute, hour, day, month, year.
pub record Freeze : Type 0 where
  pub second : ℕ
  pub minute : ℕ
  pub hour : ℕ
  pub day : ℕ
  pub month : ℕ
  pub year : ℕ

abbrev pub fz_minutes : Freeze → ℕ
fz_minutes fz =
    days_from_civil (2000 + bcd fz.year) (bcd fz.month) (bcd fz.day) * 1440
    + bcd fz.hour * 60
    + bcd fz.minute

-- The hour and the minute that `fz_text` writes in two digits.
abbrev pub fz_text : Freeze → ℕ × ℕ
fz_text fz = (bcd fz.hour, bcd fz.minute)

-- A period of 0 is a `ZeroDivisionError`; its callers pass 1 or more.
abbrev pub cycle_window_key : Freeze → ℕ → ℕ
cycle_window_key fz period = fz_minutes fz / period * period

-- The four numbers of the label: hours and minutes of the start and of the end.
abbrev pub cycle_window_label : ℕ → ℕ → ℕ × ℕ × ℕ × ℕ
cycle_window_label start_minutes period =
    let start = start_minutes % 1440 in
    let end_minutes = start_minutes + period in
    let same_day =
      (civil_from_days (start_minutes / 1440)).day == (civil_from_days (end_minutes / 1440)).day in
    let end = if same_day then end_minutes % 1440 else end_minutes % 1440 + 1440 in
    (start / 60, start % 60, end / 60, end % 60)

-- `range(first, stop, period)`, with the number of its elements.
abbrev pub progression : ℕ → ℕ → ℕ → List ℕ
progression first period zero = []
progression first period (suc n) = first ∷ progression (first + period) period n

abbrev pub period_range : ℕ → ℕ → ℕ → List ℕ
period_range min_minutes max_minutes period =
    progression (min_minutes / period * period) period
      (suc (max_minutes / period) - min_minutes / period)
