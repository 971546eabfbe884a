-- ===== src/Scheduler/Examples.antt =====
-- The properties of app/asr_gateway_scheduler.py on two jobs of two sessions.
use model_test.Prelude.{
  ◌+◌, ◌≤◌, ◌≡◌, refl, sum_of, List, [], ◌∷◌, none, some, true, false, Text, text_eq, codes,
}
use model_test.Prelude.Dict.{put, lookup}
use model_test.Scheduler.{
  BatchKey, InferenceJob, Scheduler, InferenceResult, job_samples, total_jobs, enqueue, init,
  select_batch, coerce_result, deliver, cleaned,
}
use model_test.Scheduler.Bounds.{Bounded, init-Bounded, enqueue-Bounded}
use model_test.Scheduler.Batch.{IsBatch, select_batch-IsBatch}
use model_test.Scheduler.Run.{raised, batch_of, settled_jobs}
use model_test.Scheduler.History.{Event, enqueues, cancels, begins, finishes, happens, new_history}
use model_test.Scheduler.Conservation.{jobs_conserved}
use model_test.Scheduler.Delivery.{Settled, deliver-Settled}
use model_test.Backends.Defs.{BackendCapabilities, dynamic_microbatch}
use model_test.Backends.Examples.{first_worker}

abbrev batch_key : BatchKey
batch_key = record {
  worker_id = 97 ∷ [];
  model_revision = 49 ∷ [];
  language = codes "en";
  task = codes "transcribe";
  timestamps = false;
  prompt_identity = [];
  decoding_identity = codes "partial";
  sample_format = codes "pcm_s16le";
  length_bucket = 1;
}

abbrev pub first_job : InferenceJob
first_job = record {
  job_id = 49 ∷ [];
  session_id = 115 ∷ [];
  generation = 1;
  job_sequence = 1;
  worker_id = 97 ∷ [];
  backend_session_id = 98 ∷ [];
  start_sample = 0;
  end_sample = 2;
  pcm = 0 ∷ 0 ∷ 0 ∷ 0 ∷ [];
  deadline = 20;
  batch_key = batch_key;
  final = false;
  enqueued_at = 5;
  queue_deadline = none;
}

abbrev second_job : InferenceJob
second_job = record first_job { job_id = 50 ∷ []; session_id = 116 ∷ []; deadline = 10 }

abbrev new_scheduler : Scheduler
new_scheduler = record {
  worker_ids = (97 ∷ []) ∷ [];
  max_wait = 20;
  max_ready_jobs = 4;
  max_queued_samples = 8;
  queues = [];
  queued_samples = 0;
  cancelled_generations = [];
  submit_failures = [];
  is_closed = false;
}

abbrev one_queued : Scheduler
one_queued = record new_scheduler { queues = (97 ∷ [], first_job ∷ []) ∷ []; queued_samples = 2 }

new_scheduler-Bounded : Bounded new_scheduler
unfolding init
new_scheduler-Bounded = init-Bounded ((97 ∷ []) ∷ []) 20 4 8 new_scheduler refl

enqueue-Bounded_example :
    Bounded one_queued
    × (total_jobs one_queued.queues ≡ total_jobs new_scheduler.queues + 1)
    × (one_queued.queued_samples ≡ new_scheduler.queued_samples + job_samples first_job)
unfolding enqueue put lookup text_eq
enqueue-Bounded_example =
    enqueue-Bounded 7 first_job new_scheduler one_queued new_scheduler-Bounded refl

abbrev batching : BackendCapabilities
batching = record first_worker { dispatch_mode = dynamic_microbatch; max_batch_items = 2 }

select_batch-IsBatch_example :
    IsBatch batching (select_batch batching 20 30 false (first_job ∷ second_job ∷ []))
select_batch-IsBatch_example =
    select_batch-IsBatch batching 20 30 false (first_job ∷ second_job ∷ [])

abbrev first_result : InferenceResult Text
first_result = record {
  job_id = 49 ∷ [];
  session_id = 115 ∷ [];
  generation = 1;
  job_sequence = 1;
  worker_id = 97 ∷ [];
  start_sample = 0;
  end_sample = 2;
  segment_id = 0;
  text = codes "hi";
  confirmed_text = [];
  tail_text = [];
  final = false;
  error = none;
  metadata = none;
}

deliver-Settled_example :
    Settled [] cleaned first_job first_result (deliver [] cleaned first_job first_result)
unfolding coerce_result text_eq
deliver-Settled_example = deliver-Settled [] cleaned first_job (some first_result) first_result refl

-- Two jobs are accepted, the first batch is run, and the adapter raises.
abbrev events : List (Event Text)
events =
    enqueues 7 first_job
    ∷ enqueues 7 second_job
    ∷ begins (λ j. true) first_worker (λ j. 9) 9 true (97 ∷ [])
    ∷ cancels (115 ∷ []) 1
    ∷ finishes (λ j. true) (λ j. (cleaned, [])) (raised (codes "OSError"))
    ∷ []

jobs_conserved_example :
    let h = happens events (new_history new_scheduler) in
    let batch = batch_of h.running.in_flight in
    let t = h.running.scheduler in
    (sum_of job_samples h.accepted
      ≡ sum_of job_samples (settled_jobs h.settled)
        + (sum_of (λ e. sum_of job_samples e.1) t.queues + sum_of job_samples batch))
    × (t.queued_samples ≡ sum_of (λ e. sum_of job_samples e.1) t.queues + sum_of job_samples batch)
    × (t.queued_samples ≤ t.max_queued_samples)
unfolding init
jobs_conserved_example =
    jobs_conserved Text job_samples ((97 ∷ []) ∷ []) 20 4 8 new_scheduler events refl
