-- ===== src/Feedback/Order.antt =====
-- The rule on steps out of order.
use zzt_self.Base.{◌≡◌, refl, false, some, List, [], ◌∷◌, arith}
use Prim.Native.String.{String}
use zzt_self.Flow.Steps.{FlowCompare}
use zzt_self.Feedback.{meets, build_feedback, default_rules}

meets-nil : (ss : List String) → meets ss [] ≡ false
meets-nil [] = refl
meets-nil (s ∷ ss) = meets-nil ss

-- With the built-in rules a flow that fails on its order alone, with the stimulus passed and no
-- drift, gets no suggestion: the rule meant for it asks for one of no names.
pub build_feedback-order :
    (flow : FlowCompare)
    → flow.missing ≡ []
    → flow.timeouts ≡ []
    → flow.negated ≡ []
    → build_feedback default_rules (some flow) false false ≡ []
unfolding build_feedback
build_feedback-order flow m t n =
    let never : meets flow.out_of_order [] ≡ false = meets-nil flow.out_of_order in
    ground (arith, m, t, n, never)
