-- ===== src/Metrics/Examples.antt =====
-- The summary of app/asr_observability.py on three values.
use model_test.Prelude.{ℕ, ◌≡◌, List, [], ◌∷◌, length, arith}
use model_test.Metrics.{BoundedValues, summary}
use model_test.Metrics.Ranks.{IsLeast, IsRank, IsGreatest, summary-ranks}

abbrev three_values : List ℕ
three_values = 7 ∷ 5 ∷ 6 ∷ []

abbrev kept_values : BoundedValues
kept_values = record { maxlen = 4; values = three_values }

summary-ranks_example :
    let s = summary kept_values in
    (s.count ≡ length three_values)
    × IsLeast s.least three_values
    × IsRank 50 s.p50 three_values
    × IsRank 95 s.p95 three_values
    × IsRank 99 s.p99 three_values
    × IsGreatest s.greatest three_values
summary-ranks_example = summary-ranks kept_values (omega arith)
