-- ===== src/Minute/Time/Calendar.antt =====
-- The two calendar conversions undo each other.
use zzt_self.Base.{
  ℕ, ◌+◌, ◌-◌, ◌*◌, ◌/◌, ◌≤◌, ◌<◌, ◌≡◌, refl, ◌∙◌, inl, inr, true, false, arith, ltb, leb,
  if◌then◌else◌, ltb→lt, Bool-cases,
}
use zzt_self.Minute.Time.{days_from_civil, civil_from_days}

abbrev year_of : ℕ → ℕ
year_of doe = (doe - doe / 1460 + doe / 36524 - doe / 146096) / 365

abbrev first_day : ℕ → ℕ
first_day yoe = 365 * yoe + yoe / 4 - yoe / 100

year_of-lt : (doe : ℕ) → doe < 146097 → year_of doe < 400
year_of-lt doe h = omega arith

first_day-le : (doe : ℕ) → doe < 146097 → first_day (year_of doe) ≤ doe
first_day-le doe h = omega arith

day_of_year-le : (doe : ℕ) → doe < 146097 → doe - first_day (year_of doe) ≤ 365
day_of_year-le doe h = omega arith

month_start : (doy : ℕ) → doy ≤ 365 → (153 * ((5 * doy + 2) / 153) + 2) / 5 ≤ doy
month_start doy h = omega arith

-- The era, the year in it and the day of that year, put together again.
compose :
    (era yoe doy mp : ℕ)
    → yoe < 400
    → doy ≤ 365
    → mp ≡ (5 * doy + 2) / 153
    → (let y = yoe + era * 400 in
        let m = if ltb mp 10 then mp + 3 else mp - 9 in
        days_from_civil (if leb m 2 then y + 1 else y) m (doy - (153 * mp + 2) / 5 + 1))
      ≡ era * 146097 + (yoe * 365 + yoe / 4 - yoe / 100 + doy) - 719468
compose era yoe doy mp small short e = elim (Bool-cases (ltb mp 10)) [
  | inl h ↦
      let lt = ltb→lt mp 10 h in
      let later : leb (mp + 3) 2 ≡ false = ground arith in
      let spring : ltb 2 (mp + 3) ≡ true = ground arith in
      rw (h, later, spring) (omega (arith, month_start doy short))
  | inr h ↦
      let from : 10 ≤ mp = ground (arith, h) in
      let early : leb (mp - 9) 2 ≡ true = ground (arith, e, short) in
      let winter : ltb 2 (mp - 9) ≡ false = ground (arith, e, short) in
      rw (h, early, winter) (omega (arith, month_start doy short))
]

-- Every day from 1970 on, taken apart into year, month and day, is put together to the same day.
pub days_from_civil-civil_from_days :
    (days : ℕ) → (let c = civil_from_days days in days_from_civil c.year c.month c.day) ≡ days
days_from_civil-civil_from_days days =
    let z = days + 719468 in
    let era = z / 146097 in
    let doe = z - era * 146097 in
    let inside : doe < 146097 = omega arith in
    let doy = doe - first_day (year_of doe) in
    compose era (year_of doe) doy ((5 * doy + 2) / 153) (year_of-lt doe inside)
      (day_of_year-le doe inside) refl
    ∙ omega (arith, first_day-le doe inside)
