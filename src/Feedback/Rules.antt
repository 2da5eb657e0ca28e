-- ===== src/Feedback/Rules.antt =====
-- Which suggestions the loop over the rules gives.
use zzt_self.Base.{
  ◌≡◌, ap, ◌∙◌, Bool, true, false, not, ◌&&◌, ◌||◌, some, List, [], ◌∷◌, ◌++◌, arith, if◌then◌else◌,
  same_text, same_text_iff, has_text,
}
use Prim.Native.String.{String}
use zzt_self.Flow.Steps.{FlowCompare}
use zzt_self.Feedback.{Rule, Context, match_rule, feedback_loop, verdict_passes, build_feedback}

has_text-snoc :
    (s t : String) (ts : List String)
    → has_text s (ts ++ (t ∷ [])) ≡ (has_text s ts || same_text t s)
has_text-snoc s t [] = ground arith
has_text-snoc s t (x ∷ ts) = ground (arith, has_text-snoc s t ts)

has_text-same :
    (s t : String) (ts : List String) → same_text t s ≡ true → has_text t ts ≡ has_text s ts
has_text-same s t ts h = ap (λ x. has_text x ts) ((same_text_iff t s).0 h)

-- Some rule that matches has this suggestion, which is not empty.
abbrev pub some_rule : Context → String → List Rule → Bool
some_rule ctx s [] = false
some_rule ctx s (r ∷ rules) =
    (match_rule ctx r.conditions && not (same_text r.suggestion "") && same_text r.suggestion s)
    || some_rule ctx s rules

module _ (ctx : Context) (s : String) where
  has_text-round :
      (r : Rule) (out : List String)
      → has_text s (
          if match_rule ctx r.conditions
            && not (same_text r.suggestion "")
            && not (has_text r.suggestion out)
          then out ++ (r.suggestion ∷ [])
          else out)
        ≡ (has_text s out
            || (match_rule ctx r.conditions
                && not (same_text r.suggestion "")
                && same_text r.suggestion s))
  has_text-round r out =
      ground (arith, has_text-snoc s r.suggestion out, has_text-same s r.suggestion out)

  has_text-feedback_loop :
      (rules : List Rule) (out : List String)
      → has_text s (feedback_loop ctx rules out) ≡ (has_text s out || some_rule ctx s rules)
  unfolding feedback_loop
  has_text-feedback_loop [] out = ground arith
  has_text-feedback_loop (r ∷ rules) out =
      has_text-feedback_loop rules _ ∙ ground (arith, has_text-round r out)

-- A text is among the suggestions exactly when there is something to explain and a rule that
-- matches has the text as its suggestion.
pub has_text-build_feedback :
    (rules : List Rule) (flow : FlowCompare) (simcon_fails drift : Bool) (s : String)
    → has_text s (build_feedback rules (some flow) simcon_fails drift) ≡ (
        not (verdict_passes flow.verdict && not drift && not simcon_fails)
        && some_rule (record { flow = flow; simcon_fails = simcon_fails; drift = drift }) s rules)
unfolding build_feedback
has_text-build_feedback rules flow simcon_fails drift s =
    let ctx : Context = record { flow = flow; simcon_fails = simcon_fails; drift = drift } in
    ground (arith, has_text-feedback_loop ctx s rules [])
