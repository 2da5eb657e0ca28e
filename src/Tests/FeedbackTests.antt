-- ===== src/Tests/FeedbackTests.antt =====
-- Feedback on a comparison (apps/workbench/orchestration/feedback.py).
use zzt_self.Base.{◌≡◌, refl, true, false, not, ◌&&◌, some, [], ◌∷◌, length, has_text}
use zzt_self.Flow.Steps.{FlowCompare, new_flow, fail}
use zzt_self.Feedback.{build_feedback, default_rules, order_suggestion, verdict_passes}
use zzt_self.Feedback.Rules.{some_rule, has_text-build_feedback}

abbrev disordered : FlowCompare
disordered = record new_flow { out_of_order = "join" ∷ []; verdict = fail }

abbrev late : FlowCompare
late = record new_flow { timeouts = "onnet" ∷ []; verdict = fail }

explained : length (build_feedback default_rules (some late) true true) ≡ 3
unfolding build_feedback
explained = refl

has_text-build_feedback_example :
    has_text order_suggestion (build_feedback default_rules (some late) true false) ≡ (
      not (verdict_passes fail && not false && not true)
      && some_rule
          (record { flow = late; simcon_fails = true; drift = false })
          order_suggestion
          default_rules)
has_text-build_feedback_example =
    has_text-build_feedback default_rules late true false order_suggestion
