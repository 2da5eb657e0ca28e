-- ===== src/Feedback.antt =====
-- `build_feedback`, apps/workbench/orchestration/feedback.py: suggestions for what a comparison found.
-- An entry of the feedback is its suggestion; `issue` and `evidence` are texts for display.
pub mod Order
pub mod Rules
use zzt_self.Base.{
  ℕ, zero, suc, ◌+◌, ◌-◌, ◌*◌, ◌/◌, ◌%◌, ◌^◌, ◌≤◌, ◌<◌, min, max, ◌≡◌, refl, sym, ap, ◌∙◌, ◌≢◌, ◌↔◌,
  ◌⊎◌, inl, inr, Bool, true, false, not, ◌&&◌, ◌||◌, Option, none, some, List, [], ◌∷◌, ◌++◌, map,
  append-nil, append_assoc, arith, ltb, leb, ◌==◌, if◌then◌else◌, ltb→lt, lt→ltb, leb→le, le→leb,
  ==_iff, ==_refl, Bool-cases, Option-cases, take_front, drop_front, &&_true, not-eq-true, Bytes,
  length, get_elem?, take, drop, replicate, All, length-append, take-append-drop,
  take-length-append, drop-length-append, length-take, length-drop, length-replicate, All-append,
  sum, mem, sum-append, when, and_then, when-eq-some, and_then-eq-some, holds_under, holds_under_at,
  get_elem?-lt, take-length, get_elem?-append, drop-length, same, same_refl, drop-drop, take_all,
  same_text, same_text_iff, text_or, is_text, digit, digits, decimal, has_text, join, numbered,
}
use Prim.Native.String.{String}
use zzt_self.Flow.Steps.{FlowCompare, Verdict, pass, fail}

-- One entry of a rule's `when`.
pub data Condition : Type 0 where
  negated_any missing_any timeouts_any out_of_order_any : List String → Condition
  simcon_failed drifted : Condition

pub record Rule : Type 0 where
  pub conditions : List Condition
  pub suggestion : String

-- The arguments of `build_feedback` that `ctx` is made of; `simcon_failed` is
-- `bool(simcon_summary and simcon_summary.get("verdict") != "pass")`.
pub record Context : Type 0 where
  pub flow : FlowCompare
  pub simcon_fails : Bool
  pub drift : Bool

-- `set(actual) & set(expected)` is not empty.
abbrev pub meets : List String → List String → Bool
meets [] expected = false
meets (s ∷ ss) expected = has_text s expected || meets ss expected

abbrev pub holds : Context → Condition → Bool
holds ctx c = elim c [
  | negated_any expected ↦ meets ctx.flow.negated expected
  | missing_any expected ↦ meets ctx.flow.missing expected
  | timeouts_any expected ↦ meets ctx.flow.timeouts expected
  | out_of_order_any expected ↦ meets ctx.flow.out_of_order expected
  | simcon_failed ↦ ctx.simcon_fails
  | drifted ↦ ctx.drift
]

-- `_match_rule`: whether the rule's suggestion is returned.
unfoldable pub match_rule : Context → List Condition → Bool
match_rule ctx [] = true
match_rule ctx (c ∷ cs) = holds ctx c && match_rule ctx cs

-- The loop over the rules, with `out` so far.
unfoldable pub feedback_loop : Context → List Rule → List String → List String
unfolding match_rule
feedback_loop ctx [] out = out
feedback_loop ctx (r ∷ rules) out = feedback_loop ctx rules (
    if match_rule ctx r.conditions
      && not (same_text r.suggestion "")
      && not (has_text r.suggestion out)
    then out ++ (r.suggestion ∷ [])
    else out)

abbrev pub verdict_passes : Verdict → Bool
verdict_passes pass = true
verdict_passes fail = false

-- `None` as the comparison gives no feedback.
unfoldable pub build_feedback : List Rule → Option FlowCompare → Bool → Bool → List String
unfolding feedback_loop
build_feedback rules none simcon_fails drift = []
build_feedback rules (some flow) simcon_fails drift =
    if verdict_passes flow.verdict && not drift && not simcon_fails
    then []
    else feedback_loop (record { flow = flow; simcon_fails = simcon_fails; drift = drift }) rules []

abbrev pub order_suggestion : String
order_suggestion = "流程顺序错乱：检查状态机时序，比对期望流程的步骤顺序"

-- `DEFAULT_RULES`
abbrev pub default_rules : List Rule
default_rules =
    record {
      conditions = negated_any ("join.assoc.err" ∷ "assoc err" ∷ "assoc_err" ∷ []) ∷ [];
      suggestion = "关联流程异常：检查 assoc 相关打印与信标接收，重点看 NID 分配";
    }
    ∷ record {
      conditions = missing_any ("collect.minute.e4" ∷ "collect.minute" ∷ []) ∷ [];
      suggestion = "分钟上报缺失：检查采集任务配置（OI 6000/6001）与集中器是否下发抄读帧";
    }
    ∷ record {
      conditions = timeouts_any ("onnet" ∷ "network.onnet" ∷ []) ∷ [];
      suggestion = "入网超时：检查 CCO 信标发送频率与 STA 入网参数（beacon interval / NID 广播）";
    }
    ∷ record { conditions = out_of_order_any [] ∷ []; suggestion = order_suggestion }
    ∷ record {
      conditions = simcon_failed ∷ [];
      suggestion = "模拟集中器断言失败：检查下发帧的 AFN/SEQ/RTUA 信封字段与嵌套数据项";
    }
    ∷ record { conditions = drifted ∷ []; suggestion = "规则行号漂移：运行 rules diff 更新规则文件，再回归命中率" }
    ∷ []
