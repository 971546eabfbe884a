-- ===== src/Adapter/Answers.antt =====
-- What the scheduler makes of the results of app/asr_gateway_local_adapter.py.
use model_test.Prelude.{
  ℕ, ◌≡◌, refl, ap, ◌∙◌, inl, inr, List, [], ◌∷◌, map, some, true, arith, Text, text_eq_refl,
  text_eq_sound, Result, ok, err, if◌then◌else◌, Option-cases,
}
use model_test.Prelude.Dict.{lookup}
use model_test.Scheduler.{
  InferenceJob, InferenceResult, from_job, same_identity, coerce_result, cleaned, publishes,
  discards, deliver, is_cancelled,
}
use model_test.Scheduler.Run.{returned, coerce_results, results_of}
use model_test.Adapter.{LocalAdapter, StreamingResult, answer, submit, require_ready, session}

answer-same_identity :
    (M : Type 0) (job : InferenceJob) (added : Result StreamingResult)
    → same_identity job (answer {M = M} job added) ≡ true
unfolding answer from_job
answer-same_identity M job (ok r) =
    ground (arith, text_eq_refl job.job_id, text_eq_refl job.session_id, text_eq_refl job.worker_id)
answer-same_identity M job (err e) =
    ground (arith, text_eq_refl job.job_id, text_eq_refl job.session_id, text_eq_refl job.worker_id)

module _ {M : Type 0} where
  answer-results_of :
      (job : InferenceJob) (added : Result StreamingResult)
      → results_of (job ∷ []) (returned (some (answer {M = M} job added) ∷ []))
        ≡ inr ((job, answer job added) ∷ [])
  unfolding results_of coerce_results coerce_result
  answer-results_of job added = let h = answer-same_identity M job added in ground (arith, h)

  answer-deliver :
      (cancelled : List (Text × ℕ)) (job : InferenceJob) (added : Result StreamingResult)
      → deliver cancelled cleaned job (answer {M = M} job added)
        ≡ (if is_cancelled cancelled job then discards job else publishes (answer job added))
  unfolding deliver answer from_job
  answer-deliver cancelled job (ok r) = ground arith
  answer-deliver cancelled job (err e) = ground arith

  submit-one :
      (job : InferenceJob) (added : Result StreamingResult) (a : LocalAdapter)
      (results : List (InferenceResult M))
      → submit (job ∷ []) added a ≡ ok results
      → (a.ready ≡ true)
        × (lookup job.session_id a.sessions ≡ some job.backend_session_id)
        × (results ≡ answer job added ∷ [])
  unfolding submit require_ready session
  submit-one job added a results h = elim (Option-cases (lookup job.session_id a.sessions)) [
    | inl e ↦ ground (arith, h, e)
    | inr (t, e) ↦ ground (arith, h, e, text_eq_sound t job.backend_session_id)
  ]

  -- Where `submit` returns, whatever the coordinator returned or raised: it was given a single job,
  -- of a session that the ready adapter has under the job's backend identifier; the scheduler takes
  -- its one result as it is, so the batch does not fail; and after a cleanup that returns the result
  -- is published unless the session's generation was cancelled.
  pub submit_answers :
      (jobs : List InferenceJob) (added : Result StreamingResult) (a : LocalAdapter)
      (results : List (InferenceResult M)) (cancelled : List (Text × ℕ))
      → submit jobs added a ≡ ok results
      → (job : InferenceJob) × (jobs ≡ job ∷ [])
        × (a.ready ≡ true)
        × (lookup job.session_id a.sessions ≡ some job.backend_session_id)
        × (results_of jobs (returned (map some results)) ≡ inr ((job, answer job added) ∷ []))
        × (deliver cancelled cleaned job (answer {M = M} job added)
            ≡ (if is_cancelled cancelled job then discards job else publishes (answer job added)))
  submit_answers [] added a results cancelled h = unfold submit in ground (arith, h)
  submit_answers (job ∷ []) added a results cancelled h =
      let (ready, known, one) = submit-one job added a results h in
      (
        job,
        refl,
        ready,
        known,
        ap (λ rs. results_of (job ∷ []) (returned (map some rs))) one ∙ answer-results_of job added,
        answer-deliver cancelled job added,
      )
  submit_answers (job ∷ (k ∷ js)) added a results cancelled h = unfold submit in ground (arith, h)
