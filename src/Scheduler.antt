-- ===== src/Scheduler.antt =====
-- app/asr_gateway_scheduler.py: jobs, the bounded queues, the choice of a batch and the delivery of
-- its results. Times are natural numbers on one scale, and no queue deadline is an infinite one. A
-- range that ends before it starts has no samples, and is refused as the source refuses it.
pub mod Bounds
pub mod Batch
pub mod Delivery
pub mod Run
pub mod History
pub mod Removal
pub mod Moves
pub mod Counts
pub mod Conservation
pub mod Examples
use model_test.Prelude.{
  ℕ, ◌+◌, ◌-◌, ◌*◌, List, [], ◌∷◌, ◌++◌, map, Option, none, some, Bool, true, false, ◌&&◌, ◌||◌,
  not, any, ltb, leb, ◌==◌, if◌then◌else◌, min, length, select, sum_of, Text, text_eq, text_ltb,
  codes, Result, ok, err, value_error, runtime_error, key_error, type_error, capacity_error,
  scheduler_ready_job_limit, scheduler_queued_audio_limit, ◌>>=◌, ◌>>◌, raise_if,
}
use model_test.Prelude.Dict.{Dict, lookup, put}
use model_test.Chunking.{is_some}
use model_test.Backends.Defs.{BackendCapabilities, is_single}

pub record BatchKey : Type 0 where
  pub worker_id : Text
  pub model_revision : Text
  pub language : Text
  pub task : Text
  pub timestamps : Bool
  pub prompt_identity : Text
  pub decoding_identity : Text
  pub sample_format : Text
  pub length_bucket : ℕ

pub record InferenceJob : Type 0 where
  pub job_id : Text
  pub session_id : Text
  pub generation : ℕ
  pub job_sequence : ℕ
  pub worker_id : Text
  pub backend_session_id : Text
  pub start_sample : ℕ
  pub end_sample : ℕ
  pub pcm : List ℕ
  pub deadline : ℕ
  pub batch_key : BatchKey
  pub final : Bool
  pub enqueued_at : ℕ
  pub queue_deadline : Option ℕ

-- `sample_count`
abbrev pub job_samples : InferenceJob → ℕ
job_samples job = job.end_sample - job.start_sample

pub record Scheduler : Type 0 where
  pub worker_ids : List Text
  pub max_wait : ℕ
  pub max_ready_jobs : ℕ
  pub max_queued_samples : ℕ
  pub queues : Dict (List InferenceJob)
  pub queued_samples : ℕ
  pub cancelled_generations : List (Text × ℕ)
  pub submit_failures : Dict Text
  pub is_closed : Bool

-- `__init__`
unfoldable pub init : List Text → ℕ → ℕ → ℕ → Result Scheduler
init workers wait jobs samples = do
  raise_if ((jobs == 0) || (samples == 0))
      (value_error "scheduler bounds must be non-negative and finite")
  ok (record {
    worker_ids = workers;
    max_wait = wait;
    max_ready_jobs = jobs;
    max_queued_samples = samples;
    queues = [];
    queued_samples = 0;
    cancelled_generations = [];
    submit_failures = [];
    is_closed = false;
  })

abbrev pub jobs_or_none : Option (List InferenceJob) → List InferenceJob
jobs_or_none none = []
jobs_or_none (some jobs) = jobs

-- `self._queues[worker_id]`
abbrev pub queue_of : Text → Scheduler → List InferenceJob
queue_of id s = jobs_or_none (lookup id s.queues)

-- `sum(len(queue) for queue in self._queues.values())`
abbrev pub total_jobs : Dict (List InferenceJob) → ℕ
total_jobs queues = sum_of (λ q. length q.1) queues

-- `enqueue`, which stamps a job that has no time
abbrev pub stamped : ℕ → InferenceJob → InferenceJob
stamped now job = if job.enqueued_at == 0 then record job { enqueued_at = now } else job

unfoldable pub enqueue : ℕ → InferenceJob → Scheduler → Result Scheduler
enqueue now job s = do
  raise_if s.is_closed (runtime_error "scheduler is closed")
  raise_if (not (any (text_eq job.worker_id) s.worker_ids)) (key_error "unknown worker_id")
  raise_if (is_some (lookup job.worker_id s.submit_failures)) (runtime_error "worker is failed")
  raise_if ((job_samples job == 0) || not (length job.pcm == job_samples job * 2))
      (value_error "job PCM range does not match pcm_s16le bytes")
  raise_if (leb s.max_ready_jobs (total_jobs s.queues))
      (capacity_error scheduler_ready_job_limit s.max_ready_jobs (total_jobs s.queues) 1)
  raise_if (ltb s.max_queued_samples (s.queued_samples + job_samples job)) (
      capacity_error scheduler_queued_audio_limit s.max_queued_samples s.queued_samples
        (job_samples job))
  ok (record s {
    queues = put job.worker_id (queue_of job.worker_id s ++ stamped now job ∷ []) s.queues;
    queued_samples = s.queued_samples + job_samples job;
  })

-- `cancel_session`
unfoldable pub cancel_session : Text → ℕ → Scheduler → Scheduler
cancel_session id generation s = record s {
  cancelled_generations = (id, generation) ∷ s.cancelled_generations;
}

-- `(item.session_id, item.generation) in self._cancelled_generations`
abbrev pub is_cancelled : List (Text × ℕ) → InferenceJob → Bool
is_cancelled cancelled job =
    any (λ c. text_eq c.0 job.session_id && (c.1 == job.generation)) cancelled

abbrev pub is_past : Option ℕ → ℕ → Bool
is_past none now = false
is_past (some deadline) now = ltb deadline now

-- The jobs that `run_once` finds expired, on the clock's reading for each job
abbrev pub is_expired : (InferenceJob → ℕ) → InferenceJob → Bool
is_expired clock job = is_past job.queue_deadline (clock job)

-- `(item.deadline, item.enqueued_at, item.job_id)`, compared
pub earlier : InferenceJob → InferenceJob → Bool
earlier a b =
    ltb a.deadline b.deadline
    || ((a.deadline == b.deadline)
        && (ltb a.enqueued_at b.enqueued_at
            || ((a.enqueued_at == b.enqueued_at) && text_ltb a.job_id b.job_id)))

-- `queue.sort`, which keeps the order of equal jobs
unfoldable pub insert_job : InferenceJob → List InferenceJob → List InferenceJob
insert_job job [] = job ∷ []
insert_job job (j ∷ js) =
    let rest = insert_job job js in if earlier j job then j ∷ rest else job ∷ j ∷ js

unfoldable pub sort_jobs : List InferenceJob → List InferenceJob
sort_jobs [] = []
sort_jobs (j ∷ js) = insert_job j (sort_jobs js)

-- `now >= min(item.deadline, item.enqueued_at + self.max_wait_seconds)`
abbrev pub is_due : ℕ → ℕ → InferenceJob → Bool
is_due wait now job = leb (min job.deadline (job.enqueued_at + wait)) now

-- `due_finals[0] if due_finals else queue[0]`, on the finals that are due
abbrev pub first_of : List InferenceJob → InferenceJob → InferenceJob
first_of [] first = first
first_of (job ∷ jobs) first = job

abbrev pub batch_limit : BackendCapabilities → ℕ
batch_limit c = if is_single c.dispatch_mode then 1 else c.max_batch_items

abbrev pub same_flag : Bool → Bool → Bool
same_flag true b = b
same_flag false b = not b

-- `BatchKey` equality
pub same_key : BatchKey → BatchKey → Bool
same_key a b =
    text_eq a.worker_id b.worker_id
    && (text_eq a.model_revision b.model_revision
        && (text_eq a.language b.language
            && (text_eq a.task b.task
                && (same_flag a.timestamps b.timestamps
                    && (text_eq a.prompt_identity b.prompt_identity
                        && (text_eq a.decoding_identity b.decoding_identity
                            && (text_eq a.sample_format b.sample_format
                                && (a.length_bucket == b.length_bucket))))))))

abbrev pub is_member : Text → List Text → Bool
is_member t ts = any (text_eq t) ts

-- The different sessions of some jobs
abbrev pub sessions_of : List InferenceJob → List Text
sessions_of [] = []
sessions_of (j ∷ js) =
    let rest = sessions_of js in if is_member j.session_id rest then rest else j.session_id ∷ rest

-- The loop that fills the batch, with the sessions and the samples that are in it
unfoldable pub fill_batch : ℕ → ℕ → List Text → ℕ → List InferenceJob → List InferenceJob
fill_batch limit samples sessions cost [] = []
fill_batch limit samples sessions cost (j ∷ js) =
    let skipped = fill_batch limit samples sessions cost js in
    let filled = fill_batch limit samples (j.session_id ∷ sessions) (cost + job_samples j) js in
    if is_member j.session_id sessions
    then skipped
    else if leb limit (length sessions) || ltb samples (cost + job_samples j)
    then []
    else j ∷ filled

-- `run_once` on the first job of the sorted queue: the batch, empty where nothing is dispatched
unfoldable pub batch_for :
    BackendCapabilities → ℕ → ℕ → Bool → InferenceJob → List InferenceJob → List InferenceJob
batch_for caps wait now force first queue =
    let compatible = select (λ j. same_key j.batch_key first.batch_key) queue in
    let limit = batch_limit caps in
    if force || (is_due wait now first || leb limit (length (sessions_of compatible)))
    then fill_batch limit caps.max_batch_samples [] 0 compatible
    else []

unfoldable pub select_from :
    BackendCapabilities → ℕ → ℕ → Bool → List InferenceJob → List InferenceJob
select_from caps wait now force [] = []
select_from caps wait now force (j ∷ js) =
    let finals = select (λ i. i.final && is_due wait now i) (j ∷ js) in
    batch_for caps wait now force (first_of finals j) (j ∷ js)

-- `run_once` up to the batch, on the jobs that have neither expired nor been cancelled
unfoldable pub select_batch :
    BackendCapabilities → ℕ → ℕ → Bool → List InferenceJob → List InferenceJob
select_batch caps wait now force queue = select_from caps wait now force (sort_jobs queue)

pub record InferenceResult (M : Type 0) : Type 0 where
  pub job_id : Text
  pub session_id : Text
  pub generation : ℕ
  pub job_sequence : ℕ
  pub worker_id : Text
  pub start_sample : ℕ
  pub end_sample : ℕ
  pub segment_id : ℕ
  pub text : Text
  pub confirmed_text : Text
  pub tail_text : Text
  pub final : Bool
  pub error : Option Text
  pub metadata : Option M

-- How `cleanup` ends: it returns, raises `StaleResultError`, or raises something else.
pub data Cleanup : Type 0 where
  cleaned stale broken : Cleanup

-- What is done with a job: its result is published, or the job discarded.
pub data Action (M : Type 0) : Type 0 where
  publishes : InferenceResult M → Action M
  discards : InferenceJob → Action M

module _ {M : Type 0} where
  -- `InferenceResult.from_job(job, error=...)`
  unfoldable pub from_job : InferenceJob → Text → InferenceResult M
  from_job job error = record {
    job_id = job.job_id;
    session_id = job.session_id;
    generation = job.generation;
    job_sequence = job.job_sequence;
    worker_id = job.worker_id;
    start_sample = job.start_sample;
    end_sample = job.end_sample;
    segment_id = 0;
    text = [];
    confirmed_text = [];
    tail_text = [];
    final = false;
    error = some error;
    metadata = none;
  }

  abbrev pub same_identity : InferenceJob → InferenceResult M → Bool
  same_identity job r =
      text_eq r.job_id job.job_id
      && (text_eq r.session_id job.session_id
          && (text_eq r.worker_id job.worker_id
              && ((r.start_sample == job.start_sample) && (r.end_sample == job.end_sample))))

  -- `_coerce_result`; `none` is a result of another class
  unfoldable pub coerce_result :
      InferenceJob → Option (InferenceResult M) → Result (InferenceResult M)
  unfolding from_job
  coerce_result job none = err (type_error "adapter returned malformed result")
  coerce_result job (some r) =
      if same_identity job r
      then ok r
      else ok (from_job job (codes "invalid adapter result identity"))

  -- `run_once` with the result of one job, after the batch
  unfoldable pub deliver : List (Text × ℕ) → Cleanup → InferenceJob → InferenceResult M → Action M
  unfolding from_job
  deliver cancelled stale job r = discards job
  deliver cancelled broken job r = publishes (from_job job (codes "cleanup_failed"))
  deliver cancelled cleaned job r =
      if is_cancelled cancelled job
      then discards job
      else if not (r.generation == job.generation) || not (r.job_sequence == job.job_sequence)
      then discards job
      else publishes r

  -- `_drain_failed_queue` on a job of the queue, where `rejects` says whether `reject` returns
  unfoldable pub drain_job :
      (InferenceJob → Bool) → List (Text × ℕ) → Text → InferenceJob → Action M
  unfolding from_job
  drain_job rejects cancelled error job =
      if not (rejects job) || is_cancelled cancelled job
      then discards job
      else publishes (from_job job error)

  -- `_drain_failed_queue`, with what becomes of each job
  unfoldable pub drain_failed_queue :
      (InferenceJob → Bool) → Text → Text → Scheduler → List (Action M) × Scheduler
  unfolding drain_job
  drain_failed_queue rejects error id s =
      let jobs = queue_of id s in
      (
        map (drain_job rejects s.cancelled_generations error) jobs,
        record s {
          queues = put id [] s.queues;
          queued_samples = s.queued_samples - sum_of job_samples jobs;
        },
      )
