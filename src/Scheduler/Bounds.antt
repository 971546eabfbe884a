-- ===== src/Scheduler/Bounds.antt =====
-- The limits of the queues of app/asr_gateway_scheduler.py.
use model_test.Prelude.{
  ℕ, suc, ap, map, text_eq_refl, ◌+◌, ◌≤◌, ◌≡◌, refl, List, [], ◌∷◌, ◌++◌, Option, Bool, arith,
  length, length-append, sum_of, sum_of-append, Text, ok,
}
use model_test.Prelude.Dict.{Dict, lookup, put, lookup-put}
use model_test.Scheduler.{
  InferenceJob, Scheduler, job_samples, init, jobs_or_none, queue_of, total_jobs, enqueue, stamped,
  drain_failed_queue, drain_job,
}

abbrev of_queue : (List InferenceJob → ℕ) → Option (List InferenceJob) → ℕ
of_queue f q = f (jobs_or_none q)

pub sum_of-put :
    (f : List InferenceJob → ℕ) (k : Text) (q : List InferenceJob) (d : Dict (List InferenceJob))
    → f [] ≡ 0
    → sum_of (λ e. f e.1) (put k q d) + of_queue f (lookup k d) ≡ sum_of (λ e. f e.1) d + f q
unfolding put lookup
sum_of-put f k q [] h = omega (arith, h)
sum_of-put f k q ((j, w) ∷ d) h = ground (arith, sum_of-put f k q d h)

abbrev pub queue_samples : List InferenceJob → ℕ
queue_samples q = sum_of job_samples q

-- The queued jobs and the audio are within the limits, and the audio of all queued jobs is counted.
pub record Bounded (s : Scheduler) : Type 0 where
  pub jobs : total_jobs s.queues ≤ s.max_ready_jobs
  pub audio : s.queued_samples ≤ s.max_queued_samples
  pub counted : sum_of (λ e. queue_samples e.1) s.queues ≤ s.queued_samples

pub init-Bounded :
    (workers : List Text) (wait jobs samples : ℕ) (s : Scheduler)
    → init workers wait jobs samples ≡ ok s
    → Bounded s
unfolding init
init-Bounded workers wait jobs samples s h = ground arith

pub stamped-samples :
    (now : ℕ) (job : InferenceJob) → job_samples (stamped now job) ≡ job_samples job
stamped-samples now job = ground arith

-- `enqueue` keeps the queues within their limits and every queued sample counted; a job that it
-- accepts adds exactly one job and its own samples.
pub enqueue-Bounded :
    (now : ℕ) (job : InferenceJob) (s t : Scheduler)
    → Bounded s
    → enqueue now job s ≡ ok t
    → Bounded t
      × (total_jobs t.queues ≡ total_jobs s.queues + 1)
      × (t.queued_samples ≡ s.queued_samples + job_samples job)
unfolding enqueue
enqueue-Bounded now job s t b h =
    let old = queue_of job.worker_id s in
    let new = old ++ stamped now job ∷ [] in
    let a = sum_of-put length job.worker_id new s.queues refl in
    let c = sum_of-put queue_samples job.worker_id new s.queues refl in
    ground (
      arith,
      a,
      c,
      b.jobs,
      b.audio,
      b.counted,
      length-append old (stamped now job ∷ []),
      sum_of-append job_samples old (stamped now job ∷ []),
      stamped-samples now job,
    )

length-map : {A B : Type 0} (f : A → B) (xs : List A) → length (map f xs) ≡ length xs
length-map f [] = refl
length-map f (x ∷ xs) = ap suc (length-map f xs)

-- Draining a failed worker's queue empties it, leaves the queues within their limits and every
-- queued sample counted, and settles each of its jobs once.
pub drain_failed_queue-Bounded :
    (M : Type 0) (rejects : InferenceJob → Bool) (error id : Text) (s : Scheduler)
    → Bounded s
    → let (actions, t) = drain_failed_queue {M = M} rejects error id s in
      Bounded t
      × (queue_of id t ≡ [])
      × (t.queued_samples + queue_samples (queue_of id s) ≡ s.queued_samples)
      × (length actions ≡ length (queue_of id s))
unfolding drain_failed_queue
drain_failed_queue-Bounded M rejects error id s b =
    let a = sum_of-put length id [] s.queues refl in
    let c = sum_of-put queue_samples id [] s.queues refl in
    let all =
      length-map (drain_job {M = M} rejects s.cancelled_generations error) (queue_of id s) in
    let gone = lookup-put id id [] s.queues in
    (
      record {
        jobs = omega (arith, b.jobs);
        audio = omega (arith, b.audio);
        counted = omega (arith, b.counted);
      },
      ground (arith, gone, text_eq_refl id),
      omega (arith, b.counted),
      all,
    )
