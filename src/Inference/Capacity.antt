-- ===== src/Inference/Capacity.antt =====
-- The limits of the queue of app/asr_inference.py.
use model_test.Prelude.{
  ℕ, ◌+◌, ◌≤◌, ◌≡◌, refl, [], ◌∷◌, none, some, Option-cases, true, false, if◌then◌else◌, arith,
  length, ◌∙◌, Bool-cases, inl, inr, sum_of, sum_of-append, Result, ok, err,
}
use model_test.Inference.State.{
  Settings, require_accepting, require_session_admissible, Job, idle, Coordinator, is_shutdown,
  release_stream_reservation,
}
use model_test.Inference.Admission.{
  Request, reserve_stream, reserve_operation, then_enqueue, then_reserve, submit_accepted, submit,
  new_job, enqueue, enqueued, give_up, put_nowait,
}
use model_test.Inference.Jobs.{
  of_worker, is_business, is_control, length-include, length-discard_some,
}

abbrev pub job_audio : Job → ℕ
job_audio job = job.audio

-- The counters count the queued jobs and the audio of all unfinished ones, within the limits; there
-- is a control job only if a shutdown was requested; and a dead worker leaves nothing behind.
pub record Capacity (c : Settings) (s : Coordinator) : Type 0 where
  pub business : s.queued_business_jobs ≡ sum_of is_business s.jobs
  pub slots : s.queued_business_jobs ≤ c.inference_queue_size
  pub control : sum_of is_control s.jobs ≤ (if s.shutdown_requested then 1 else 0)
  pub audio : s.queued_audio ≡ of_worker job_audio s.worker + sum_of job_audio s.jobs
  pub audio_bound : s.queued_audio ≤ c.max_queued_audio
  pub streams : length s.stream_reservations ≤ c.max_active_streams
  pub dead :
      s.worker_alive ≡ false
      → (s.accepting ≡ false) × (s.worker_loop_active ≡ false) × (s.jobs ≡ []) × (s.worker ≡ idle)

enqueue-Capacity :
    (c : Settings) (job : Job) (s : Coordinator)
    → Capacity c s
    → s.worker_alive ≡ true
    → is_shutdown job.action ≡ false
    → Capacity c (enqueue c job s).1
unfolding enqueue enqueued put_nowait give_up release_stream_reservation
enqueue-Capacity c job s v a h = ground (
  arith,
  sum_of-append is_business s.jobs (job ∷ []),
  sum_of-append is_control s.jobs (job ∷ []),
  sum_of-append job_audio s.jobs (job ∷ []),
  length-discard_some job.session_id s.stream_reservations,
)

reserve_operation-Capacity :
    (c : Settings) (r : Request) (s t : Coordinator)
    → Capacity c s
    → reserve_operation r s ≡ ok t
    → Capacity c t × (t.worker_alive ≡ s.worker_alive)
unfolding reserve_operation require_session_admissible
reserve_operation-Capacity c r s t v h = elim r.session_id [
  | none ↦ ground (arith, v)
  | some id ↦ ground (arith, v)
]

reserve_stream-Capacity :
    (c : Settings) (r : Request) (s t : Coordinator)
    → Capacity c s
    → reserve_stream c r s ≡ ok t
    → Capacity c t × (t.worker_alive ≡ s.worker_alive)
unfolding reserve_stream
reserve_stream-Capacity c r s t v h = elim (Option-cases r.session_id) [
  | inl e ↦ ground (arith, v)
  | inr (id, e) ↦ ground (arith, v, length-include id s.stream_reservations)
]

then_enqueue-Capacity :
    (c : Settings) (job : Job) (u : Result Coordinator) (s : Coordinator)
    → Capacity c s
    → ((t : Coordinator) → u ≡ ok t → Capacity c t × (t.worker_alive ≡ true))
    → is_shutdown job.action ≡ false
    → Capacity c (then_enqueue c job u s).1
then_enqueue-Capacity c job (err e) s v k h = v
then_enqueue-Capacity c job (ok t) s v k h = let (w, a) = k t refl in enqueue-Capacity c job t w a h

then_reserve-Capacity :
    (c : Settings) (job : Job) (r : Request) (u : Result Coordinator) (s : Coordinator)
    → Capacity c s
    → ((t : Coordinator) → u ≡ ok t → Capacity c t × (t.worker_alive ≡ true))
    → is_shutdown job.action ≡ false
    → Capacity c (then_reserve c job r u s).1
then_reserve-Capacity c job r (err e) s v k h = v
then_reserve-Capacity c job r (ok t) s v k h =
    let (w, a) = k t refl in
    then_enqueue-Capacity c job (reserve_operation r t) t w
      (λ t' e. let (x, y) = reserve_operation-Capacity c r t t' w e in (x, y ∙ a)) h

accepting-alive :
    (c : Settings) (s : Coordinator) → Capacity c s → s.accepting ≡ true → s.worker_alive ≡ true
accepting-alive c s v h = elim (Bool-cases s.worker_alive) [
  | inl e ↦ e
  | inr e ↦ ground (arith, v.dead e)
]

submit_accepted-Capacity :
    (c : Settings) (job : Job) (r : Request) (u : Result (Unit {0})) (s : Coordinator)
    → Capacity c s
    → require_accepting s ≡ u
    → is_shutdown job.action ≡ false
    → Capacity c (submit_accepted c job r u s).1
unfolding submit_accepted require_accepting
submit_accepted-Capacity c job r (err e) s v k h = v
submit_accepted-Capacity c job r (ok u) s v k h =
    let alive = accepting-alive c s v (ground arith) in
    then_reserve-Capacity c job r (reserve_stream c r s) s v
      (λ t e. let (x, y) = reserve_stream-Capacity c r s t v e in (x, y ∙ alive)) h

pub submit-Capacity :
    (c : Settings) (now : ℕ) (r : Request) (s : Coordinator)
    → Capacity c s
    → is_shutdown r.action ≡ false
    → Capacity c (submit c now r s).1
unfolding submit new_job
submit-Capacity c now r s v h =
    submit_accepted-Capacity c (new_job now s.next_sequence r) r (require_accepting s)
      (record s { next_sequence = s.next_sequence + 1 }) (ground (arith, v))
      (unfold require_accepting in refl) h
