-- ===== src/Minute/Time/Windows.antt =====
-- The cycles that `period_range` lists, and the cycle that a freeze time falls into.
use native.Mathlib.Nat.{div-mul-le_self, lt-div-mul-add, le-div_iff_mul-le}
use zzt_self.Base.{
  ℕ, zero, suc, ◌+◌, ◌-◌, ◌*◌, ◌/◌, ◌≤◌, ◌<◌, ◌≡◌, refl, sym, ap, ◌∙◌, Bool, true, false, ◌||◌,
  arith, ◌==◌, mem,
}
use zzt_self.Minute.Time.{Freeze, fz_minutes, cycle_window_key, progression, period_range}

div_mono : (a b p : ℕ) → 0 < p → a ≤ b → a / p ≤ b / p
div_mono a b p pos le = (le-div_iff_mul-le pos).1 (omega (arith, div-mul-le_self a p))

-- A multiple further on stands in the progression.
mem-progression :
    (first period n k : ℕ) → k < n → mem (first + k * period) (progression first period n) ≡ true
mem-progression first period zero k lt = absurd (omega arith)
mem-progression first period (suc n) zero lt =
    let here : (first + 0 * period == first) ≡ true = ground arith in rw here refl
mem-progression first period (suc n) (suc k) lt =
    let shifted : first + suc k * period ≡ first + period + k * period = grind arith in
    let later = mem-progression (first + period) period n k (omega arith) in
    ap (λ x. (first + suc k * period == first) || mem x (progression (first + period) period n))
      shifted
    ∙ ap (λ c. (first + suc k * period == first) || c) later
    ∙ either (first + suc k * period == first)
  where
    either : (c : Bool) → (c || true) ≡ true
    either true = refl
    either false = refl

-- A freeze time between the first and the last one of a task lies in its cycle, of one period from
-- its key on, and that cycle is one of those that `period_range` lists.
pub period_range-cycle :
    (fz : Freeze) (min_minutes max_minutes period : ℕ)
    → 0 < period
    → min_minutes ≤ fz_minutes fz
    → fz_minutes fz ≤ max_minutes
    → (mem (cycle_window_key fz period) (period_range min_minutes max_minutes period) ≡ true)
      × (cycle_window_key fz period ≤ fz_minutes fz)
      × (fz_minutes fz < cycle_window_key fz period + period)
period_range-cycle fz lo hi p pos from upto =
    let t = fz_minutes fz in
    let a = lo / p in
    let b = t / p in
    let low = div_mono lo t p pos from in
    let high = div_mono t hi p pos upto in
    let key : a * p + (b - a) * p ≡ b * p = grind (arith, low) in
    (
      ap (λ k. mem k (period_range lo hi p)) (sym key)
          ∙ mem-progression (a * p) p (suc (hi / p) - a) (b - a) (omega (arith, low, high)),
      div-mul-le_self t p,
      lt-div-mul-add pos,
    )
