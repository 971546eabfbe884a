-- ===== src/Scheduler/Conservation.antt =====
-- What app/asr_gateway_scheduler.py does with the jobs it accepted, over any calls.
use model_test.Prelude.{
  ℕ, ◌+◌, ◌≤◌, ◌≡◌, refl, List, [], ◌∷◌, ◌++◌, Option, none, some, sum_of, sum_of-append, Text,
  Result, ok, err, arith,
}
use model_test.Scheduler.{
  InferenceJob, Scheduler, job_samples, queue_of, enqueue, cancel_session, init, stamped,
}
use model_test.Scheduler.Run.{Running, Settlement, settled_jobs, batch_of, begin_run, finish_run}
use model_test.Scheduler.Bounds.{stamped-samples}
use model_test.Scheduler.History.{
  History, Event, enqueues, cancels, closes, begins, finishes, happen, happens, after_enqueue,
  after_begin, with_run, new_history,
}
use model_test.Scheduler.Moves.{
  queued, Moves, begin_run-Moves, finish_run-Moves, sum_of-settled_append, queued-put,
}
use model_test.Scheduler.Counts.{Counts, begin_run-Counts, finish_run-Counts}

-- Each accepted job is settled, queued or at a worker, and the counter counts the audio of the queued
-- jobs and of those at a worker, within the limit.
pub record Conserved (M : Type 0) (f : InferenceJob → ℕ) (h : History M) : Type 0 where
  pub jobs :
      sum_of f h.accepted
      ≡ sum_of f (settled_jobs h.settled)
        + (queued f h.running.scheduler + sum_of f (batch_of h.running.in_flight))
  pub samples :
      h.running.scheduler.queued_samples
      ≡ queued job_samples h.running.scheduler + sum_of job_samples (batch_of h.running.in_flight)
  pub bound : h.running.scheduler.queued_samples ≤ h.running.scheduler.max_queued_samples

module _ (M : Type 0) (f : InferenceJob → ℕ) where
  with_run-Conserved :
      (h : History M) (done : List (Settlement M) × Running)
      → Conserved M f h
      → Moves M f h.running done
      → Moves M job_samples h.running done
      → Counts M h.running.scheduler done.0 done.1.scheduler
      → Conserved M f (with_run done h)
  with_run-Conserved h done v a b c =
      let e = sum_of-settled_append f done.0 h.settled in
      record {
        jobs = omega (arith, v.jobs, a, e);
        samples = omega (arith, v.samples, b, c.0);
        bound = omega (arith, v.bound, c.0, c.1);
      }

  enqueue-Conserved :
      (now : ℕ) (job : InferenceJob) (u : Result Scheduler) (h : History M)
      → Conserved M f h
      → enqueue now job h.running.scheduler ≡ u
      → Conserved M f (after_enqueue (stamped now job) u h)
  unfolding enqueue
  enqueue-Conserved now job (err e) h v k = v
  enqueue-Conserved now job (ok t) h v k =
      let s = h.running.scheduler in
      let old = queue_of job.worker_id s in
      let new = old ++ stamped now job ∷ [] in
      let a = queued-put f job.worker_id new s in
      let b = queued-put job_samples job.worker_id new s in
      let c = sum_of-append f old (stamped now job ∷ []) in
      let d = sum_of-append job_samples old (stamped now job ∷ []) in
      let e = stamped-samples now job in ground (arith, v, k, a, b, c, d, e)

  begin-Conserved :
      (done : List (Settlement M) × Running) (flight : Option (Text × List InferenceJob))
      (h : History M)
      → Conserved M f h
      → h.running.in_flight ≡ flight
      → Moves M f (record { scheduler = h.running.scheduler; in_flight = none }) done
      → Moves M job_samples (record { scheduler = h.running.scheduler; in_flight = none }) done
      → Counts M h.running.scheduler done.0 done.1.scheduler
      → Conserved M f (after_begin done flight h)
  begin-Conserved done (some flight) h v e a b c = v
  begin-Conserved done none h v e a b c =
      with_run-Conserved h done v (ground (arith, a, e)) (ground (arith, b, e)) c

  happen-Conserved : (e : Event M) (h : History M) → Conserved M f h → Conserved M f (happen e h)
  unfolding happen cancel_session
  happen-Conserved (enqueues now job) h v =
      enqueue-Conserved now job (enqueue now job h.running.scheduler) h v refl
  happen-Conserved (cancels id generation) h v = record {
    jobs = v.jobs;
    samples = v.samples;
    bound = v.bound;
  }
  happen-Conserved closes h v = record { jobs = v.jobs; samples = v.samples; bound = v.bound }
  happen-Conserved (begins rejects caps clock now force id) h v =
      let s = h.running.scheduler in
      begin-Conserved (begin_run rejects caps clock now force id s) h.running.in_flight h v refl
        (begin_run-Moves M f rejects caps clock now force id s)
        (begin_run-Moves M job_samples rejects caps clock now force id s)
        (begin_run-Counts M rejects caps clock now force id s)
  happen-Conserved (finishes rejects cleanup outcome) h v =
      with_run-Conserved h (finish_run rejects cleanup outcome h.running) v
        (finish_run-Moves M f rejects cleanup outcome h.running)
        (finish_run-Moves M job_samples rejects cleanup outcome h.running)
        (finish_run-Counts M rejects cleanup outcome h.running)

  happens-Conserved :
      (es : List (Event M)) (h : History M) → Conserved M f h → Conserved M f (happens es h)
  unfolding happens
  happens-Conserved [] h v = v
  happens-Conserved (e ∷ es) h v = happens-Conserved es (happen e h) (happen-Conserved e h v)

new_history-Conserved :
    (M : Type 0) (f : InferenceJob → ℕ) (workers : List Text) (wait jobs samples : ℕ)
    (s : Scheduler)
    → init workers wait jobs samples ≡ ok s
    → Conserved M f (new_history s)
unfolding init
new_history-Conserved M f workers wait jobs samples s h = ground (arith, h)

-- In a new scheduler, after any jobs, cancellations and runs, whatever the adapters return or raise
-- and however the cleanups end: for every weight of jobs, the accepted jobs weigh what the settled,
-- the queued and those at a worker weigh together, so no job is lost or settled twice; and the
-- counter of queued audio is that of the queued jobs and of those at a worker, within the limit.
pub jobs_conserved :
    (M : Type 0) (f : InferenceJob → ℕ) (workers : List Text) (wait jobs samples : ℕ)
    (s : Scheduler) (es : List (Event M))
    → init workers wait jobs samples ≡ ok s
    → let h = happens es (new_history s) in
      let batch = batch_of h.running.in_flight in
      let t = h.running.scheduler in
      (sum_of f h.accepted
        ≡ sum_of f (settled_jobs h.settled)
          + (sum_of (λ e. sum_of f e.1) t.queues + sum_of f batch))
      × (t.queued_samples
          ≡ sum_of (λ e. sum_of job_samples e.1) t.queues + sum_of job_samples batch)
      × (t.queued_samples ≤ t.max_queued_samples)
jobs_conserved M f workers wait jobs samples s es k =
    let v =
      happens-Conserved M f es (new_history s)
        (new_history-Conserved M f workers wait jobs samples s k) in
    (v.jobs, v.samples, v.bound)
