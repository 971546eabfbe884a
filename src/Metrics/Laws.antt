-- ===== src/Metrics/Laws.antt =====
-- The timelines of app/asr_gateway_metrics.py.
use model_test.Prelude.{
  ℕ, ◌≤◌, ◌≡◌, [], ◌∷◌, some, false, ltb, arith, All, any-All, All-map, Text, text_eq_refl, ok,
}
use model_test.Prelude.Dict.{Dict, lookup, put, lookup-put}
use model_test.Metrics.{JobTimeline, mark, is_before}

All-put :
    (bound : ℕ) (k : Text) (d : Dict ℕ)
    → All (λ s. s.1 ≤ bound) d
    → All (λ s. s.1 ≤ bound) (put k bound d)
unfolding put
All-put bound k [] h = (omega arith, tt)
All-put bound k ((j, v) ∷ d) h = ground (arith, All-put bound k d h.1)

-- A stage that is marked stands with its time, and no stage of the timeline is later.
pub mark-latest :
    (stage : Text) (timestamp : ℕ) (t t' : JobTimeline)
    → mark stage timestamp t ≡ ok t'
    → (lookup stage t'.stages ≡ some timestamp) × All (λ s. s.1 ≤ timestamp) t'.stages
unfolding mark
mark-latest stage timestamp t t' h =
    let in_time : is_before timestamp t.stages ≡ false = ground arith in
    let same : t'.stages ≡ put stage timestamp t.stages = ground arith in
    let before =
      All-map (λ s. ltb timestamp s.1 ≡ false) (λ s. s.1 ≤ timestamp) (λ s e. ground arith) t.stages
        (any-All (λ s. ltb timestamp s.1) t.stages in_time) in
    rw same (
      ground (arith, lookup-put stage stage timestamp t.stages, text_eq_refl stage),
      All-put timestamp stage t.stages before,
    )
