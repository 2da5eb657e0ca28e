-- ===== src/Concentrator/Responder/First.antt =====
-- Which rule answers a frame.
use zzt_self.Base.{
  ◌≡◌, refl, ap, inl, inr, true, false, Option, none, some, List, [], ◌∷◌, ◌++◌, Bool-cases, All,
}
use mathlib.Core.Path.{subst}
use zzt_self.Gw10376.Frame.Decode.{Decoded}
use zzt_self.Concentrator.Responder.{ReplyRule, Responder, rule_matches, first_match, find_rule}

-- What a choice among rules means: the first that matches, or that none does.
abbrev pub Chosen : List ReplyRule → Decoded → Option ReplyRule → Type 0
Chosen rules d none = All (λ q. rule_matches q d ≡ false) rules
Chosen rules d (some r) =
    (before after : List ReplyRule) × (rules ≡ before ++ (r ∷ after))
    × All (λ q. rule_matches q d ≡ false) before
    × (rule_matches r d ≡ true)

Chosen-cons :
    (q : ReplyRule) (rules : List ReplyRule) (d : Decoded) (o : Option ReplyRule)
    → rule_matches q d ≡ false
    → Chosen rules d o
    → Chosen (q ∷ rules) d o
Chosen-cons q rules d none misses h = (misses, h)
Chosen-cons q rules d (some r) misses (before, after, e, quiet, fits) =
    (q ∷ before, after, ap (λ xs. q ∷ xs) e, (misses, quiet), fits)

first_match-Chosen : (rules : List ReplyRule) (d : Decoded) → Chosen rules d (first_match rules d)
first_match-Chosen [] d = tt
first_match-Chosen (r ∷ rs) d = elim (Bool-cases (rule_matches r d)) [
  | inl fits ↦ rw fits ([], rs, refl, tt, fits)
  | inr misses ↦ rw misses (Chosen-cons r rs d (first_match rs d) misses (first_match-Chosen rs d))
]

unfoldable or_later : Option ReplyRule → Option ReplyRule → Option ReplyRule
or_later o later = elim o [ some r ↦ some r | none ↦ later ]

first_match-append :
    (xs ys : List ReplyRule) (d : Decoded)
    → first_match (xs ++ ys) d ≡ or_later (first_match xs d) (first_match ys d)
unfolding or_later
first_match-append [] ys d = refl
first_match-append (x ∷ xs) ys d = elim (Bool-cases (rule_matches x d)) [
  | inl fits ↦ rw fits refl
  | inr misses ↦ rw misses (first_match-append xs ys d)
]

-- Of the overrides and then the built-in rules, in their order, the first that matches is chosen,
-- and none if none matches.
pub find_rule-Chosen :
    (p : Responder) (d : Decoded) → Chosen (p.overrides ++ p.builtin) d (find_rule p d)
unfolding find_rule or_later
find_rule-Chosen p d =
    subst (Chosen (p.overrides ++ p.builtin) d) (first_match-append p.overrides p.builtin d)
      (first_match-Chosen (p.overrides ++ p.builtin) d)
