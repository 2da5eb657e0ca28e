-- ===== src/Gw10376/Fn.antt =====
-- `fn_to_dt` and `dt_to_fn`: an information class Fn as the bytes DT1 and DT2.
use native.Mathlib.Decide.{dec_lt}
use zzt_self.Base.{
  ℕ, ◌+◌, ◌-◌, ◌*◌, ◌/◌, ◌%◌, ◌^◌, ◌≤◌, ◌<◌, ◌≡◌, refl, ◌≢◌, inl, inr, Bool, true, not, Option,
  none, some, arith, ltb, ◌==◌, if◌then◌else◌, ==_iff, Option-cases, holds_under, holds_under_at,
}

unfoldable pub fn_to_dt : ℕ → ℕ × ℕ
fn_to_dt n =
    let low = n % 256 in
    let fn = if ltb low 1 then 1 else low in
    let rem = fn % 8 in (if not (rem == 0) then 2 ^ (rem - 1) else 128, (fn - 1) / 8)

-- `_DT1_TO_BASE.get`
unfoldable pub dt1_to_base : ℕ → Option ℕ
dt1_to_base d =
    if d == 1
    then some 1
    else if d == 2
    then some 2
    else if d == 4
    then some 3
    else if d == 8
    then some 4
    else if d == 16
    then some 5
    else if d == 32
    then some 6
    else if d == 64
    then some 7
    else if d == 128
    then some 8
    else none

unfoldable pub dt_to_fn : ℕ → ℕ → ℕ
dt_to_fn dt1 dt2 = elim (dt1_to_base dt1) [ none ↦ 0 | some base ↦ dt2 * 8 + base ]

abbrev pub fn_round : ℕ → Bool
fn_round n = dt_to_fn (fn_to_dt n).0 (fn_to_dt n).1 == (if n == 0 then 1 else n)

fn_table : holds_under fn_round 256 ≡ true
unfolding holds_under fn_to_dt dt_to_fn dt1_to_base
fn_table = refl

-- Every Fn comes back from its two bytes, reduced to eight bits and with 0 read as F1.
pub dt_to_fn-fn_to_dt :
    (n : ℕ)
    → let (dt1, dt2) = fn_to_dt n in dt_to_fn dt1 dt2 ≡ (if n % 256 == 0 then 1 else n % 256)
unfolding fn_to_dt
dt_to_fn-fn_to_dt n =
    let low : n % 256 % 256 ≡ n % 256 = omega arith in
    rw low at ((==_iff _ _).0 (holds_under_at fn_round 256 (n % 256) (omega arith) fn_table))

fn_to_dt-base :
    (base dt2 : ℕ)
    → 1 ≤ base
    → base ≤ 8
    → dt2 * 8 + base < 256
    → fn_to_dt (dt2 * 8 + base) ≡ (2 ^ (base - 1), dt2)
unfolding fn_to_dt
fn_to_dt-base base dt2 lo hi small =
    let whole : (dt2 * 8 + base) % 256 ≡ dt2 * 8 + base = omega arith in
    let group : (dt2 * 8 + base - 1) / 8 ≡ dt2 = omega arith in
    elim (dec_lt base 8) [
      | yes p ↦
          let rest : (dt2 * 8 + base) % 8 ≡ base = omega arith in rw whole (ground (arith, group))
      | no p ↦ ground arith
    ]

dt1_to_base-pow :
    (d base : ℕ) → dt1_to_base d ≡ some base → (d ≡ 2 ^ (base - 1)) × (1 ≤ base) × (base ≤ 8)
unfolding dt1_to_base
dt1_to_base-pow d base h = ground arith

dt_to_fn-none : (d dt2 : ℕ) → dt1_to_base d ≡ none → dt_to_fn d dt2 ≡ 0
dt_to_fn-none d dt2 e = unfold dt_to_fn in rw (e, dt_to_fn)

dt_to_fn-some : (d dt2 base : ℕ) → dt1_to_base d ≡ some base → dt_to_fn d dt2 ≡ dt2 * 8 + base
dt_to_fn-some d dt2 base e = unfold dt_to_fn in rw (e, dt_to_fn)

-- The other way: two bytes that name a class are the bytes of that class.
pub fn_to_dt-dt_to_fn :
    (dt1 dt2 : ℕ)
    → dt_to_fn dt1 dt2 ≢ 0
    → dt_to_fn dt1 dt2 < 256
    → fn_to_dt (dt_to_fn dt1 dt2) ≡ (dt1, dt2)
fn_to_dt-dt_to_fn dt1 dt2 h k = elim (Option-cases (dt1_to_base dt1)) [
  | inl e ↦ absurd (h (dt_to_fn-none dt1 dt2 e))
  | inr (base, e) ↦
      let (power, lo, hi) = dt1_to_base-pow dt1 base e in
      let value = dt_to_fn-some dt1 dt2 base e in
      rw (value, power) (fn_to_dt-base base dt2 lo hi (rw value at k))
]
