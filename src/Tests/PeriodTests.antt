-- ===== src/Tests/PeriodTests.antt =====
-- Runs of the statistics by period, and their theorems at concrete inputs.
use zzt_self.Base.{ℕ, ◌*◌, ◌≤◌, ◌≡◌, refl, true, false, none, some, List, [], ◌∷◌, arith, All}
use zzt_self.Base.Dict.{text_key}
use zzt_self.Concentrator.PeriodStats.{
  ReadAttempt, PeriodBucket, by_start, count_attempts, sort_marks, sweep_marks, sweep,
  max_concurrent_in, aggregate, peaks,
}
use zzt_self.Concentrator.PeriodStats.Accounts.{dispatched, Balanced, aggregate-accounts}
use zzt_self.Concentrator.PeriodStats.Peaks.{dispatches_at, peak-aggregate}

-- m1 is sent again while its first read is open, m2 in the next period while both are.
abbrev three_attempts : List ReadAttempt
three_attempts =
    record { meter = "m1"; start = 890; end_at = some 950; succeeded = true; duplicate = false }
    ∷ record { meter = "m2"; start = 905; end_at = none; succeeded = false; duplicate = false }
    ∷ record { meter = "m1"; start = 895; end_at = some 960; succeeded = false; duplicate = false }
    ∷ []

abbrev two_buckets : List (ℕ × PeriodBucket)
two_buckets =
    (0, record { dispatch_count = 2; success_count = 1; failed_count = 1; duplicate_count = 1 })
    ∷ (900, record { dispatch_count = 1; success_count = 0; failed_count = 1; duplicate_count = 0 })
    ∷ []

three_aggregate : aggregate 900 three_attempts ≡ some two_buckets
unfolding aggregate by_start count_attempts text_key
three_aggregate = refl

-- The three reads are open at 905, but the second bucket counts one.
three_peaks : peaks 900 three_attempts two_buckets ≡ (0, 2) ∷ (900, 1) ∷ []
unfolding sort_marks sweep_marks sweep
three_peaks = refl

no_period : aggregate 0 three_attempts ≡ none
unfolding aggregate
no_period = refl

aggregate-accounts_example :
    (bs : List (ℕ × PeriodBucket)) × (aggregate 900 three_attempts ≡ some bs)
    × (dispatched bs ≡ 3)
    × All Balanced bs
aggregate-accounts_example = aggregate-accounts 900 three_attempts (omega arith)

peak-aggregate_example :
    max_concurrent_in (1 * 900) 900 three_attempts ≤ dispatches_at (1 * 900) two_buckets
peak-aggregate_example =
    peak-aggregate 1 900 three_attempts two_buckets (omega arith) three_aggregate
