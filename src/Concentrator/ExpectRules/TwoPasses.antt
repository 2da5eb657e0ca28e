-- ===== src/Concentrator/ExpectRules/TwoPasses.antt =====
-- The loop of `rule_for`, which goes once over the rules, against two searches.
use zzt_self.Base.{
  ℕ, ◌%◌, ◌≡◌, refl, ◌∙◌, inl, inr, Option, none, some, List, [], ◌∷◌, ◌==◌, if◌then◌else◌,
  Bool-cases,
}
use zzt_self.Concentrator.ExpectRules.{ExpectRule, same_fn, or_first, rule_from, rule_for}

-- The first rule with the AFN and the Fn.
abbrev pub first_own : ℕ → Option ℕ → List ExpectRule → Option ExpectRule
first_own a f [] = none
first_own a f (r ∷ rs) =
    let later = first_own a f rs in
    if r.afn == a
    then elim r.fn [ none ↦ later | some mf ↦ if same_fn mf f then some r else later ]
    else later

-- The first rule with the AFN and no Fn.
abbrev pub first_general : ℕ → List ExpectRule → Option ExpectRule
first_general a [] = none
first_general a (r ∷ rs) =
    let later = first_general a rs in
    if r.afn == a then elim r.fn [ none ↦ some r | some mf ↦ later ] else later

abbrev pub or_then : Option ExpectRule → Option ExpectRule → Option ExpectRule
or_then none later = later
or_then (some r) later = some r

or_then-or_first :
    (o fallback general : Option ExpectRule) (r : ExpectRule)
    → or_then o (or_then (or_first fallback r) general) ≡ or_then o (or_then fallback (some r))
or_then-or_first none none general r = refl
or_then-or_first none (some q) general r = refl
or_then-or_first (some p) fallback general r = refl

rule_from-passes :
    (a : ℕ) (f : Option ℕ) (fallback : Option ExpectRule) (rules : List ExpectRule)
    → rule_from a f fallback rules
      ≡ or_then (first_own a f rules) (or_then fallback (first_general a rules))
unfolding rule_from
rule_from-passes a f none [] = refl
rule_from-passes a f (some q) [] = refl
rule_from-passes a f fallback (r ∷ rs) = elim (Bool-cases (r.afn == a)) [
  | inl h ↦ rw h (by_fn (λ fb. rule_from-passes a f fb rs) r.fn)
  | inr h ↦ rw h (rule_from-passes a f fallback rs)
]
  where
    by_fn :
        ((fb : Option ExpectRule)
          → rule_from a f fb rs ≡ or_then (first_own a f rs) (or_then fb (first_general a rs)))
        → (o : Option ℕ)
        → elim o [
          | none ↦ rule_from a f (or_first fallback r) rs
          | some mf ↦ if same_fn mf f then some r else rule_from a f fallback rs
        ]
          ≡ or_then
              (elim o [
                | none ↦ first_own a f rs
                | some mf ↦ if same_fn mf f then some r else first_own a f rs
              ])
              (or_then fallback (elim o [ none ↦ some r | some mf ↦ first_general a rs ]))
    by_fn ih none =
        ih (or_first fallback r)
        ∙ or_then-or_first (first_own a f rs) fallback (first_general a rs) r
    by_fn ih (some mf) = elim (Bool-cases (same_fn mf f)) [
      | inl h ↦ rw h refl
      | inr h ↦ rw h (ih fallback)
    ]

-- `rule_for` returns the first rule with the AFN and the Fn, wherever it stands, and only if there is
-- none the first one with the AFN that names no Fn.
pub rule_for-two_passes :
    (rules : List ExpectRule) (afn : ℕ) (fn : Option ℕ)
    → rule_for rules afn fn
      ≡ or_then (first_own (afn % 256) fn rules) (first_general (afn % 256) rules)
rule_for-two_passes rules afn fn = rule_from-passes (afn % 256) fn none rules
