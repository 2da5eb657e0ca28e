-- ===== src/Runs/Judge.antt =====
-- When a run passes.
use zzt_self.Base.{ℕ, ◌≡◌, Bool, true, false, not, ◌&&◌, ◌||◌, Option, [], ◌∷◌, arith, ◌==◌}
use zzt_self.Flow.Steps.{FlowCompare}
use zzt_self.Runs.Outcome.{
  RunRequest, Simcon, RunVerdict, verdict_pass, verdict_fail, verdict_inconclusive, has_summary,
  inconclusive_reasons, stimulus_failed, any_listed, run_verdict,
}

-- Nothing that was asked for is absent.
abbrev pub sources_present : RunRequest → ℕ → Simcon → ℕ → Bool
sources_present q events simcon frames =
    (q.skip_monitor || not (events == 0))
    && (q.skip_stimulus || has_summary simcon)
    && (not q.listener_index || not (frames == 0))

abbrev pub passes : RunVerdict → Bool
passes verdict_pass = true
passes verdict_fail = false
passes verdict_inconclusive = false

reasons_empty :
    (q : RunRequest) (events : ℕ) (simcon : Simcon) (frames : ℕ)
    → elim (inconclusive_reasons q events simcon frames) [ [] ↦ true | r ∷ rs ↦ false ]
      ≡ sources_present q events simcon frames
unfolding inconclusive_reasons
reasons_empty q events simcon frames = ground arith

-- A run passes exactly when every source that was asked for is there, the stimulus did not fail,
-- and the comparison, if it was made, lists nothing; the verdict of the comparison is not asked.
pub run_verdict-passes :
    (q : RunRequest) (events : ℕ) (simcon : Simcon) (frames : ℕ) (compare : Option FlowCompare)
    → passes (run_verdict q events simcon frames compare) ≡ (
        sources_present q events simcon frames
        && not (stimulus_failed simcon)
        && not (any_listed compare))
unfolding run_verdict
run_verdict-passes q events simcon frames compare =
    ground (arith, reasons_empty q events simcon frames)
