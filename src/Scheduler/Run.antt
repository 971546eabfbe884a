-- ===== src/Scheduler/Run.antt =====
-- `run_once` of app/asr_gateway_scheduler.py as a whole, in two steps around the adapter's call.
use model_test.Prelude.{
  ℕ, ◌-◌, List, [], ◌∷◌, ◌++◌, map, ◌⊎◌, inl, inr, Option, none, some, Bool, true, false, ◌&&◌,
  ◌==◌, if◌then◌else◌, length, select, all, sum_of, Text, text_eq, codes, Result, ok, err,
}
use model_test.Prelude.Dict.{lookup, put}
use model_test.Backends.Defs.{BackendCapabilities}
use model_test.Scheduler.{
  InferenceJob, InferenceResult, Scheduler, job_samples, queue_of, is_cancelled, is_expired,
  sort_jobs, select_batch, same_key, same_flag, Cleanup, Action, publishes, from_job, coerce_result,
  deliver, drain_job, drain_failed_queue,
}

abbrev pub same_deadline : Option ℕ → Option ℕ → Bool
same_deadline none none = true
same_deadline (some m) (some n) = m == n
same_deadline none (some n) = false
same_deadline (some m) none = false

-- `InferenceJob` equality
unfoldable pub same_job : InferenceJob → InferenceJob → Bool
same_job a b =
    text_eq a.job_id b.job_id
    && (text_eq a.session_id b.session_id
        && ((a.generation == b.generation)
            && ((a.job_sequence == b.job_sequence)
                && (text_eq a.worker_id b.worker_id
                    && (text_eq a.backend_session_id b.backend_session_id
                        && ((a.start_sample == b.start_sample)
                            && ((a.end_sample == b.end_sample)
                                && (text_eq a.pcm b.pcm
                                    && ((a.deadline == b.deadline)
                                        && (same_key a.batch_key b.batch_key
                                            && (same_flag a.final b.final
                                                && ((a.enqueued_at == b.enqueued_at)
                                                    && same_deadline a.queue_deadline
                                                        b.queue_deadline))))))))))))

-- `queue.remove(item)`, for each item
unfoldable pub remove_job : InferenceJob → List InferenceJob → List InferenceJob
remove_job job [] = []
remove_job job (j ∷ js) = let rest = remove_job job js in if same_job j job then js else j ∷ rest

unfoldable pub remove_jobs : List InferenceJob → List InferenceJob → List InferenceJob
remove_jobs [] queue = queue
remove_jobs (j ∷ js) queue = remove_jobs js (remove_job j queue)

-- The scheduler with the batch that its one loop has at a worker
pub record Running : Type 0 where
  pub scheduler : Scheduler
  pub in_flight : Option (Text × List InferenceJob)

abbrev pub batch_of : Option (Text × List InferenceJob) → List InferenceJob
batch_of none = []
batch_of (some (id, batch)) = batch

-- What becomes of a job that leaves: `none` is that it is rejected and nothing else is done.
abbrev pub Settlement : Type 0 → Type 0
Settlement M = InferenceJob × Option (Action M)

abbrev pub settled_jobs : {M : Type 0} → List (Settlement M) → List InferenceJob
settled_jobs settlements = map (λ e. e.0) settlements

-- What the adapter's call comes to: results, where `none` is one of another class, or an exception's
-- class name
pub data Outcome (M : Type 0) : Type 0 where
  returned : List (Option (InferenceResult M)) → Outcome M
  raised : Text → Outcome M

-- How the cleanup of a job ends, and what was cancelled between the adapter's call and that end
abbrev pub Ending : Type 0
Ending = Cleanup × List (Text × ℕ)

-- The first error of a worker stays.
abbrev pub failed_with : Text → Text → Scheduler → Text
failed_with id error s = elim (lookup id s.submit_failures) [ none ↦ error | some first ↦ first ]

abbrev pub flight_of : Text → List InferenceJob → Option (Text × List InferenceJob)
flight_of id [] = none
flight_of id (j ∷ js) = some (id, j ∷ js)

-- The jobs that a loop over them comes to, where `rejects` says whether `reject` returns
unfoldable pub until_raise : (InferenceJob → Bool) → List InferenceJob → List InferenceJob
until_raise rejects [] = []
until_raise rejects (j ∷ js) =
    let rest = until_raise rejects js in if rejects j then j ∷ rest else j ∷ []

module _ {M : Type 0} where
  -- An expired job, where `rejects` says whether `reject` returns
  abbrev pub expire_job : (InferenceJob → Bool) → InferenceJob → Option (Action M)
  expire_job rejects job =
      if rejects job then some (publishes (from_job job (codes "queue_timeout"))) else none

  -- The jobs that have expired, up to one whose `reject` raises, and then those that are cancelled
  -- leave the queue; `publish` is taken to return.
  unfoldable pub sweep :
      (InferenceJob → Bool)
      → (InferenceJob → ℕ)
      → Text
      → Scheduler
      → List (Settlement M) × List InferenceJob
  unfolding remove_jobs from_job until_raise
  sweep rejects clock id s =
      let queue = queue_of id s in
      let expired = until_raise rejects (select (is_expired clock) queue) in
      let unexpired = remove_jobs expired queue in
      let cancelled =
        if all rejects expired
        then select (is_cancelled s.cancelled_generations) unexpired
        else [] in
      (
        map (λ j. (j, expire_job rejects j)) expired ++ map (λ j. (j, none)) cancelled,
        remove_jobs cancelled unexpired,
      )

  -- `run_once` up to the adapter's call; where a `reject` raised it ends with the sweep.
  unfoldable pub dispatch :
      (InferenceJob → Bool)
      → BackendCapabilities
      → (InferenceJob → ℕ)
      → ℕ
      → Bool
      → Text
      → Scheduler
      → List (Settlement M) × Running
  unfolding sweep
  dispatch rejects caps clock now force id s =
      let (settlements, live) = sweep rejects clock id s in
      let goes_on = all rejects (select (is_expired clock) (queue_of id s)) in
      let chosen = select_batch caps s.max_wait now force live in
      let batch = if goes_on then chosen else [] in
      let left = if goes_on then remove_jobs chosen (sort_jobs live) else live in
      (
        settlements,
        record {
          scheduler = record s {
            queues = put id left s.queues;
            queued_samples = s.queued_samples - sum_of job_samples (settled_jobs settlements);
          };
          in_flight = flight_of id batch;
        },
      )

  -- The queue of a failed worker, with its jobs
  unfoldable pub drain :
      (InferenceJob → Bool) → Text → Text → Scheduler → List (Settlement M) × Scheduler
  unfolding drain_job drain_failed_queue
  drain rejects error id s = (
    map (λ j. (j, some (drain_job rejects s.cancelled_generations error j))) (queue_of id s),
    (drain_failed_queue {M = M} rejects error id s).1,
  )

  abbrev pub add_result :
      InferenceJob
      → Result (InferenceResult M)
      → Text ⊎ List (InferenceJob × InferenceResult M)
      → Text ⊎ List (InferenceJob × InferenceResult M)
  add_result job (err e) rest = inl (codes "TypeError: batch failed")
  add_result job (ok r) (inl e) = inl e
  add_result job (ok r) (inr results) = inr ((job, r) ∷ results)

  -- `zip(batch, raw_results)` through `_coerce_result`, which raises at a result of another class
  unfoldable pub coerce_results :
      List InferenceJob
      → List (Option (InferenceResult M))
      → Text ⊎ List (InferenceJob × InferenceResult M)
  coerce_results [] raws = inr []
  coerce_results (j ∷ js) [] = inr []
  coerce_results (j ∷ js) (raw ∷ raws) = add_result j (coerce_result j raw) (coerce_results js raws)

  -- The results of the batch, or the error of the exception
  unfoldable pub results_of :
      List InferenceJob → Outcome M → Text ⊎ List (InferenceJob × InferenceResult M)
  unfolding coerce_results
  results_of batch (raised name) = inl (name ++ codes ": batch failed")
  results_of batch (returned raws) =
      if length raws == length batch
      then coerce_results batch raws
      else inl (codes "RuntimeError: batch failed")

  abbrev pub settle_each :
      List (Text × ℕ)
      → (InferenceJob → Ending)
      → List (InferenceJob × InferenceResult M)
      → List (Settlement M)
  settle_each cancelled cleanup results =
      map (λ e. (e.0, some (deliver (cancelled ++ (cleanup e.0).1) (cleanup e.0).0 e.0 e.1)))
        results

  -- `run_once` after the adapter's call; the jobs of the batch are listed before those drained.
  unfoldable pub settle_batch :
      (InferenceJob → Bool)
      → (InferenceJob → Ending)
      → Text
      → List InferenceJob
      → Text ⊎ List (InferenceJob × InferenceResult M)
      → Scheduler
      → List (Settlement M) × Scheduler
  unfolding drain from_job
  settle_batch rejects cleanup id batch (inr results) s = (
    settle_each s.cancelled_generations cleanup results,
    record s { queued_samples = s.queued_samples - sum_of job_samples batch },
  )
  settle_batch rejects cleanup id batch (inl error) s =
      let kept = failed_with id error s in
      let (drained, t) =
        drain rejects kept id (record s { submit_failures = put id kept s.submit_failures }) in
      (
        settle_each s.cancelled_generations cleanup (map (λ j. (j, from_job j error)) batch)
            ++ drained,
        record t { queued_samples = t.queued_samples - sum_of job_samples batch },
      )

  -- The start of `run_once`: a failed worker's queue is drained.
  unfoldable pub begin_run :
      (InferenceJob → Bool)
      → BackendCapabilities
      → (InferenceJob → ℕ)
      → ℕ
      → Bool
      → Text
      → Scheduler
      → List (Settlement M) × Running
  unfolding dispatch drain
  begin_run rejects caps clock now force id s = elim (lookup id s.submit_failures) [
    | some error ↦
        let (settlements, t) = drain rejects error id s in
        (settlements, record { scheduler = t; in_flight = none })
    | none ↦ dispatch rejects caps clock now force id s
  ]

  unfoldable pub finish_run :
      (InferenceJob → Bool)
      → (InferenceJob → Ending)
      → Outcome M
      → Running
      → List (Settlement M) × Running
  unfolding settle_batch
  finish_run rejects cleanup outcome r = elim r.in_flight [
    | none ↦ ([], r)
    | some flight ↦
        let (settlements, t) =
          settle_batch rejects cleanup flight.0 flight.1 (results_of flight.1 outcome)
            r.scheduler in
        (settlements, record { scheduler = t; in_flight = none })
  ]
