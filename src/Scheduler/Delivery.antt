-- ===== src/Scheduler/Delivery.antt =====
-- What app/asr_gateway_scheduler.py publishes of a batch.
use model_test.Prelude.{
  ℕ, ◌≡◌, refl, ◌⊎◌, inl, inr, List, Option, none, some, Bool, true, false, ◌&&◌, ◌||◌, not, ◌==◌,
  arith, Text, text_eq_refl, codes, ok, if◌then◌else◌,
}
use model_test.Scheduler.{
  InferenceJob, InferenceResult, from_job, same_identity, coerce_result, Cleanup, cleaned, stale,
  broken, Action, publishes, discards, deliver, is_cancelled,
}

from_job-same_identity :
    (M : Type 0) (job : InferenceJob) (error : Text)
    → same_identity job (from_job {M = M} job error) ≡ true
unfolding from_job
from_job-same_identity M job error =
    ground (arith, text_eq_refl job.job_id, text_eq_refl job.session_id, text_eq_refl job.worker_id)

module _ {M : Type 0} where
  coerce_result-same_identity :
      (job : InferenceJob) (raw : Option (InferenceResult M)) (r : InferenceResult M)
      → coerce_result job raw ≡ ok r
      → same_identity job r ≡ true
  unfolding coerce_result
  coerce_result-same_identity job none r h = cc
  coerce_result-same_identity job (some x) r h =
      ground (arith, from_job-same_identity M job (codes "invalid adapter result identity"))

  -- What is done with a job of a batch
  pub data Settled (cancelled : List (Text × ℕ)) (c : Cleanup) (job : InferenceJob)
      (r : InferenceResult M) : Action M → Type 0 where
    dropped :
        (c ≡ stale)
          ⊎ ((is_cancelled cancelled job ≡ true)
              ⊎ (((r.generation == job.generation) && (r.job_sequence == job.job_sequence))
                  ≡ false))
        → Settled cancelled c job r (discards job)
    failed :
        c ≡ broken
        → same_identity job (from_job {M = M} job (codes "cleanup_failed")) ≡ true
        → Settled cancelled c job r (publishes (from_job job (codes "cleanup_failed")))
    published :
        c ≡ cleaned
        → is_cancelled cancelled job ≡ false
        → r.generation ≡ job.generation
        → r.job_sequence ≡ job.job_sequence
        → same_identity job r ≡ true
        → Settled cancelled c job r (publishes r)

  cleaned-Settled :
      (cancelled : List (Text × ℕ)) (job : InferenceJob) (r : InferenceResult M)
      → same_identity job r ≡ true
      → (gone : Bool) → is_cancelled cancelled job ≡ gone
      → (other : Bool)
      → (not (r.generation == job.generation) || not (r.job_sequence == job.job_sequence)) ≡ other
      → Settled cancelled cleaned job r
          (if gone then discards job else if other then discards job else publishes r)
  cleaned-Settled cancelled job r same true e other f = dropped (inr (inl e))
  cleaned-Settled cancelled job r same false e true f = dropped (inr (inr (ground arith)))
  cleaned-Settled cancelled job r same false e false f =
      published refl e (ground arith) (ground arith) same

  -- A job of a batch with what the adapter returned for it: the result is published only when the
  -- cleanup returned, the session's generation was not cancelled, and the result has the job's
  -- identity, generation and number; a failed cleanup publishes an error of the job's identity; and
  -- otherwise the job is discarded.
  pub deliver-Settled :
      (cancelled : List (Text × ℕ)) (c : Cleanup) (job : InferenceJob)
      (raw : Option (InferenceResult M)) (r : InferenceResult M)
      → coerce_result job raw ≡ ok r
      → Settled cancelled c job r (deliver cancelled c job r)
  unfolding deliver
  deliver-Settled cancelled stale job raw r h = dropped (inl refl)
  deliver-Settled cancelled broken job raw r h =
      failed refl (from_job-same_identity M job (codes "cleanup_failed"))
  deliver-Settled cancelled cleaned job raw r h =
      cleaned-Settled cancelled job r (coerce_result-same_identity job raw r h)
        (is_cancelled cancelled job) refl
        (not (r.generation == job.generation) || not (r.job_sequence == job.job_sequence)) refl
