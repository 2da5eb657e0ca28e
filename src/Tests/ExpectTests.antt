-- ===== src/Tests/ExpectTests.antt =====
-- Runs of the rules on expected replies, and their theorem at concrete inputs.
use zzt_self.Base.{◌≡◌, refl, none, some, List, [], ◌∷◌}
use zzt_self.Base.Dict.{text_key}
use zzt_self.Concentrator.ExpectRules.{
  ExpectRule, itself, number, rule_from, rule_for, default_expect, timeout_for,
}
use zzt_self.Concentrator.ExpectRules.TwoPasses.{
  first_own, first_general, or_then, rule_for-two_passes,
}

abbrev query_rule : ExpectRule
query_rule = record {
  id = "er.03";
  afn = 3;
  fn = none;
  expect_dir = "up";
  expect_afn = itself;
  expect_fn = itself;
  timeout_tier = "default";
}

abbrev read_rule : ExpectRule
read_rule = record {
  id = "er.03f1";
  afn = 3;
  fn = some 1;
  expect_dir = "up";
  expect_afn = number 3;
  expect_fn = number 1;
  timeout_tier = "single_read";
}

-- The rule with the Fn stands behind the one without.
abbrev two_rules : List ExpectRule
two_rules = query_rule ∷ read_rule ∷ []

own_rule : rule_for two_rules 3 (some 1) ≡ some read_rule
unfolding rule_from
own_rule = refl

general_rule :
    default_expect two_rules 3 (some 4) ≡ some (record { dir = "up"; afn = 3; fn = 4 }, query_rule)
unfolding rule_from
general_rule = refl

-- A tier that the file does not have keeps its name, with the seconds of the default tier.
unknown_tier :
    timeout_for two_rules (("default", 5) ∷ []) 3 (some 1)
    ≡ some (record { seconds = 5; tier = "single_read"; rule_id = some "er.03f1" })
unfolding rule_from text_key
unknown_tier = refl

rule_for-two_passes_example :
    rule_for two_rules 3 (some 1)
    ≡ or_then (first_own 3 (some 1) two_rules) (first_general 3 two_rules)
rule_for-two_passes_example = rule_for-two_passes two_rules 3 (some 1)
