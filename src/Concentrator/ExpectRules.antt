-- ===== src/Concentrator/ExpectRules.antt =====
-- The rules on the reply to expect and the time to wait for it: libs/sim_concentrator/expect_rules.py.
-- The AFN that is asked for is an `int`, which `_norm_afn` reduces; the AFN and Fn of the rules are the
-- numbers that `_norm_afn` and `_norm_fn` make of them.
pub mod TwoPasses
use zzt_self.Base.{
  ℕ, zero, suc, ◌+◌, ◌-◌, ◌*◌, ◌/◌, ◌%◌, ◌^◌, ◌≤◌, ◌<◌, min, max, ◌≡◌, refl, sym, ap, ◌∙◌, ◌≢◌, ◌↔◌,
  ◌⊎◌, inl, inr, Bool, true, false, not, ◌&&◌, ◌||◌, Option, none, some, List, [], ◌∷◌, ◌++◌, map,
  append-nil, append_assoc, arith, ltb, leb, ◌==◌, if◌then◌else◌, ltb→lt, lt→ltb, leb→le, le→leb,
  ==_iff, ==_refl, Bool-cases, Option-cases, take_front, drop_front, &&_true, not-eq-true, Bytes,
  length, get_elem?, take, drop, replicate, All, length-append, take-append-drop,
  take-length-append, drop-length-append, length-take, length-drop, length-replicate, All-append,
  sum, mem, sum-append, when, and_then, when-eq-some, and_then-eq-some, holds_under, holds_under_at,
  if-holds, elim-holds, get_elem?-lt, take-length, get_elem?-append, drop-length, same, same_refl,
  drop-drop, take_all, same_text, same_text_iff, text_or, is_text, digit, digits, decimal, has_text,
  join, numbered,
}
use Prim.Native.String.{String}
use zzt_self.Gw10376.Fields.{or_zero}
use zzt_self.Base.Dict.{lookup, text_key}

-- A value of `expect`, "self" or a number; a missing one is "self".
pub data Expected : Type 0 where
  itself : Expected
  number : ℕ → Expected

-- A rule of the file; a missing `timeout_tier` is "default".
pub record ExpectRule : Type 0 where
  pub id : String
  pub afn : ℕ
  pub fn : Option ℕ
  pub expect_dir : String
  pub expect_afn : Expected
  pub expect_fn : Expected
  pub timeout_tier : String

abbrev pub same_fn : ℕ → Option ℕ → Bool
same_fn mf none = false
same_fn mf (some f) = mf == f

-- `fallback = r`, if there is none yet.
abbrev pub or_first : Option ExpectRule → ExpectRule → Option ExpectRule
or_first none r = some r
or_first (some old) r = some old

-- The loop of `rule_for`, with `fallback`.
unfoldable pub rule_from : ℕ → Option ℕ → Option ExpectRule → List ExpectRule → Option ExpectRule
rule_from a f fallback [] = fallback
rule_from a f fallback (r ∷ rs) =
    let passed = rule_from a f fallback rs in
    let general = rule_from a f (or_first fallback r) rs in
    if r.afn == a
    then elim r.fn [ none ↦ general | some mf ↦ if same_fn mf f then some r else passed ]
    else passed

abbrev pub rule_for : List ExpectRule → ℕ → Option ℕ → Option ExpectRule
rule_for rules afn fn = rule_from (afn % 256) fn none rules

-- What a matcher may expect; `form` is left out.
pub record Expect : Type 0 where
  pub dir : String
  pub afn : ℕ
  pub fn : ℕ

abbrev pub expected_number : Expected → ℕ → ℕ
expected_number itself own = own
expected_number (number n) own = n

abbrev pub default_expect : List ExpectRule → ℕ → Option ℕ → Option (Expect × ExpectRule)
default_expect rules afn fn = elim (rule_for rules afn fn) [
  | none ↦ none
  | some r ↦ some (
    record {
      dir = r.expect_dir;
      afn = expected_number r.expect_afn (afn % 256);
      fn = expected_number r.expect_fn (or_zero fn);
    },
    r,
  )
]

pub record Timeout : Type 0 where
  pub seconds : ℕ
  pub tier : String
  pub rule_id : Option String

abbrev pub tier_of : Option ExpectRule → String
tier_of none = "default"
tier_of (some r) = r.timeout_tier

abbrev pub id_of : Option ExpectRule → Option String
id_of none = none
id_of (some r) = some r.id

-- The seconds of a tier, or of the default tier; `none` is the `KeyError` of a file without one.
abbrev pub seconds_of : List (String × ℕ) → String → Option ℕ
seconds_of tiers id = elim (lookup id tiers) [ some s ↦ some s | none ↦ lookup "default" tiers ]

-- `timeout_for`, with the tiers of the file and the seconds of each.
abbrev pub timeout_for : List ExpectRule → List (String × ℕ) → ℕ → Option ℕ → Option Timeout
timeout_for rules tiers afn fn =
    let rule = rule_for rules afn fn in
    and_then (seconds_of tiers (tier_of rule))
      (λ s. some (record { seconds = s; tier = tier_of rule; rule_id = id_of rule }))
