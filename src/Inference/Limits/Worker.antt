-- ===== src/Inference/Limits/Worker.antt =====
-- The steps of the owner thread of app/asr_inference.py and the limits of the queue.
use model_test.Prelude.{
  ℕ, ◌≡◌, refl, List, [], ◌∷◌, none, some, Option-cases, inl, inr, Bool, true, false, arith,
}
use model_test.Inference.State.{
  discard, Settings, Action, Job, Worker, idle, took, tested, warmed, claimed, running, executed,
  create_stream, create_chunked_stream, add_audio, finish_stream, finish_segment, abort_stream,
  transcribe_file, transcribe_stream_chunk, shutdown, Coordinator, SessionKind, release_queue_slot,
  release_audio, release_session_reservation, release_stream_reservation, engine, chunked, pending,
  cancelled, begun,
}
use model_test.Inference.Worker.{
  load, take_job, take_from, take_picked, pick, test_job, warm_job, warm_up, claim_job, claim,
  begin_job, start_batch, run_job, execute, open_session, close_session, finish_batch, settle_job,
  settle, cleanup_poisoned_session, finalize_worker,
}
use model_test.Inference.Jobs.{length-discard, of_worker, is_business, is_control, sum_of-pick}
use model_test.Inference.Capacity.{Capacity, job_audio}

settle-Capacity :
    (c : Settings) (job : Job) (s : Coordinator)
    → Capacity c s
    → of_worker job_audio s.worker ≡ job.audio
    → Capacity c (settle job s)
unfolding settle cleanup_poisoned_session release_audio release_session_reservation
    release_stream_reservation
settle-Capacity c job s v h = elim (Option-cases job.session_id) [
  | inl e ↦ ground (arith, v)
  | inr (id, e) ↦ ground (
    arith,
    v,
    length-discard id s.stream_reservations,
    length-discard id (discard id s.stream_reservations),
  )
]

take_picked-Capacity :
    (c : Settings) (best : Job) (js : List Job) (s : Coordinator)
    → Capacity c s
    → s.jobs ≡ best ∷ js
    → s.worker ≡ idle
    → Capacity c (take_picked (pick best js) s)
unfolding take_picked release_queue_slot finalize_worker
take_picked-Capacity c best js s v h w = ground (
  arith,
  v,
  sum_of-pick is_business best js,
  sum_of-pick is_control best js,
  sum_of-pick job_audio best js,
)

take_from-Capacity :
    (c : Settings) (js : List Job) (s : Coordinator)
    → Capacity c s
    → s.jobs ≡ js
    → s.worker ≡ idle
    → Capacity c (take_from js s)
unfolding take_from
take_from-Capacity c [] s v f e = v
take_from-Capacity c (j ∷ js) s v f e = take_picked-Capacity c j js s v f e

pub take_job-Capacity :
    (c : Settings) (w : Worker) (s : Coordinator)
    → Capacity c s
    → s.worker ≡ w
    → Capacity c (take_job w s)
unfolding take_job
take_job-Capacity c idle s v e =
    let x = take_from-Capacity c s.jobs s v refl e in ground (arith, v, x)
take_job-Capacity c (took job) s v e = v
take_job-Capacity c (tested job) s v e = v
take_job-Capacity c (warmed job) s v e = v
take_job-Capacity c (claimed job) s v e = v
take_job-Capacity c (running job) s v e = v
take_job-Capacity c (executed job) s v e = v

pub test_job-Capacity :
    (c : Settings) (now : ℕ) (w : Worker) (s : Coordinator)
    → Capacity c s
    → s.worker ≡ w
    → Capacity c (test_job now w s)
unfolding test_job
test_job-Capacity c now (took job) s v e =
    let x = settle-Capacity c job s v (ground (arith, e)) in ground (arith, v, x)
test_job-Capacity c now idle s v e = v
test_job-Capacity c now (tested job) s v e = v
test_job-Capacity c now (warmed job) s v e = v
test_job-Capacity c now (claimed job) s v e = v
test_job-Capacity c now (running job) s v e = v
test_job-Capacity c now (executed job) s v e = v

pub warm_job-Capacity :
    (c : Settings) (is_warmed : Bool) (w : Worker) (s : Coordinator)
    → Capacity c s
    → s.worker ≡ w
    → Capacity c (warm_job is_warmed w s)
unfolding warm_job warm_up
warm_job-Capacity c is_warmed idle s v e = v
warm_job-Capacity c is_warmed (took job) s v e = v
warm_job-Capacity c is_warmed (tested job) s v e =
    let x =
      settle-Capacity c job (record s { accepting = false; load_error = true }) (ground (arith, v))
        (ground (arith, e)) in
    ground (arith, v, x)
warm_job-Capacity c is_warmed (warmed job) s v e = v
warm_job-Capacity c is_warmed (claimed job) s v e = v
warm_job-Capacity c is_warmed (running job) s v e = v
warm_job-Capacity c is_warmed (executed job) s v e = v

pub claim_job-Capacity :
    (c : Settings) (now : ℕ) (w : Worker) (s : Coordinator)
    → Capacity c s
    → s.worker ≡ w
    → Capacity c (claim_job now w s)
unfolding claim_job claim
claim_job-Capacity c now idle s v e = v
claim_job-Capacity c now (took job) s v e = v
claim_job-Capacity c now (tested job) s v e = v
claim_job-Capacity c now (warmed job) s v e =
    let x = settle-Capacity c job s v (ground (arith, e)) in
    elim job.started [
      | pending ↦ ground (arith, v, x)
      | cancelled ↦ ground (arith, v, x)
      | begun ↦ ground (arith, v, x)
    ]
claim_job-Capacity c now (claimed job) s v e = v
claim_job-Capacity c now (running job) s v e = v
claim_job-Capacity c now (executed job) s v e = v

pub begin_job-Capacity :
    (c : Settings) (w : Worker) (s : Coordinator)
    → Capacity c s
    → s.worker ≡ w
    → Capacity c (begin_job w s)
unfolding begin_job start_batch
begin_job-Capacity c idle s v e = v
begin_job-Capacity c (took job) s v e = v
begin_job-Capacity c (tested job) s v e = v
begin_job-Capacity c (warmed job) s v e = v
begin_job-Capacity c (claimed job) s v e = ground (arith, v)
begin_job-Capacity c (running job) s v e = v
begin_job-Capacity c (executed job) s v e = v

pub settle_job-Capacity :
    (c : Settings) (w : Worker) (s : Coordinator)
    → Capacity c s
    → s.worker ≡ w
    → Capacity c (settle_job w s)
unfolding settle_job
settle_job-Capacity c idle s v e = v
settle_job-Capacity c (took job) s v e = v
settle_job-Capacity c (tested job) s v e = v
settle_job-Capacity c (warmed job) s v e = v
settle_job-Capacity c (claimed job) s v e = v
settle_job-Capacity c (running job) s v e = v
settle_job-Capacity c (executed job) s v e = settle-Capacity c job s v (ground (arith, e))

open_session-Capacity :
    (c : Settings) (kind : SessionKind) (job : Job) (s : Coordinator)
    → Capacity c s
    → s.worker ≡ executed job
    → Capacity c (open_session kind job s)
unfolding open_session
open_session-Capacity c kind job s v e = elim job.session_id [
  | none ↦ ground (arith, v)
  | some id ↦ ground (arith, v)
]

close_session-Capacity :
    (c : Settings) (job : Job) (s : Coordinator) → Capacity c s → Capacity c (close_session job s)
unfolding close_session
close_session-Capacity c job s v = elim (Option-cases job.session_id) [
  | inl e ↦ ground (arith, v)
  | inr (id, e) ↦ ground (arith, v, length-discard id s.stream_reservations)
]

execute-Capacity :
    (c : Settings) (raises : Bool) (action : Action) (job : Job) (s : Coordinator)
    → Capacity c s
    → s.worker ≡ executed job
    → Capacity c (execute raises action job s)
unfolding execute
execute-Capacity c raises (create_stream language) job s v e =
    let x = open_session-Capacity c engine job s v e in ground (arith, v, x)
execute-Capacity c raises (create_chunked_stream language) job s v e =
    open_session-Capacity c chunked job s v e
execute-Capacity c raises (add_audio pcm rate) job s v e = v
execute-Capacity c raises finish_stream job s v e =
    let x = close_session-Capacity c job s v in ground (arith, v, x)
execute-Capacity c raises finish_segment job s v e = v
execute-Capacity c raises abort_stream job s v e = close_session-Capacity c job s v
execute-Capacity c raises (transcribe_file path language) job s v e = v
execute-Capacity c raises (transcribe_stream_chunk path language) job s v e = v
execute-Capacity c raises shutdown job s v e = v

pub finish_batch-worker :
    (action : Action) (s : Coordinator) → (finish_batch action s).worker ≡ s.worker
unfolding finish_batch
finish_batch-worker action s = ground arith

finish_batch-Capacity :
    (c : Settings) (action : Action) (job : Job) (s : Coordinator)
    → Capacity c s
    → s.worker ≡ running job
    → Capacity c (finish_batch action (record s { worker = executed job }))
unfolding finish_batch
finish_batch-Capacity c action job s v e = ground (arith, v)

pub run_job-Capacity :
    (c : Settings) (raises : Bool) (w : Worker) (s : Coordinator)
    → Capacity c s
    → s.worker ≡ w
    → Capacity c (run_job raises w s)
unfolding run_job
run_job-Capacity c raises idle s v e = v
run_job-Capacity c raises (took job) s v e = v
run_job-Capacity c raises (tested job) s v e = v
run_job-Capacity c raises (warmed job) s v e = v
run_job-Capacity c raises (claimed job) s v e = v
run_job-Capacity c raises (running job) s v e =
    let t = finish_batch job.action (record s { worker = executed job }) in
    execute-Capacity c raises job.action job t (finish_batch-Capacity c job.action job s v e)
      (finish_batch-worker job.action (record s { worker = executed job }))
run_job-Capacity c raises (executed job) s v e = v

pub load-Capacity :
    (c : Settings) (is_loaded : Bool) (s : Coordinator)
    → Capacity c s
    → Capacity c (load c is_loaded s)
unfolding load
load-Capacity c is_loaded s v = ground (arith, v)
