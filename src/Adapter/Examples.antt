-- ===== src/Adapter/Examples.antt =====
-- The properties of app/asr_gateway_local_adapter.py on one session.
use model_test.Prelude.{
  ◌≡◌, refl, inr, List, [], ◌∷◌, map, some, true, false, Text, text_eq, codes, ok, if◌then◌else◌,
}
use model_test.Prelude.Dict.{lookup}
use model_test.Scheduler.{
  InferenceJob, InferenceResult, cleaned, publishes, discards, deliver, is_cancelled,
}
use model_test.Scheduler.Run.{returned, results_of}
use model_test.Scheduler.Examples.{first_job}
use model_test.Backends.Examples.{first_worker}
use model_test.Adapter.{LocalAdapter, StreamingResult, answer, submit, require_ready, session}
use model_test.Adapter.Answers.{submit_answers}

abbrev one_session : LocalAdapter
one_session = record {
  capabilities = first_worker;
  has_coordinator = true;
  sessions = (115 ∷ [], 98 ∷ []) ∷ [];
  ready = true;
}

abbrev heard : StreamingResult
heard = record {
  segment_id = 1;
  segment_text = codes "hi";
  segment_finished = false;
  decoded_samples_delta = some 2;
}

abbrev answers : List (InferenceResult Text)
answers = answer first_job (ok heard) ∷ []

submit_answers_example :
    (job : InferenceJob) × (first_job ∷ [] ≡ job ∷ [])
    × (one_session.ready ≡ true)
    × (lookup job.session_id one_session.sessions ≡ some job.backend_session_id)
    × (results_of (first_job ∷ []) (returned (map some answers))
        ≡ inr ((job, answer job (ok heard)) ∷ []))
    × (deliver [] cleaned job (answer {M = Text} job (ok heard))
        ≡ (if is_cancelled [] job then discards job else publishes (answer job (ok heard))))
unfolding submit require_ready session lookup text_eq
submit_answers_example = submit_answers (first_job ∷ []) (ok heard) one_session answers [] refl
