-- ===== src/Inference/Progress/Phases.antt =====
-- How each step moves the owner thread of app/asr_inference.py on.
use model_test.Prelude.{ℕ, ◌≤◌, ◌≡◌, refl, none, some, Bool, true, false, arith}
use model_test.Inference.State.{
  Action, Job, Worker, idle, took, tested, warmed, claimed, running, executed, create_stream,
  create_chunked_stream, add_audio, finish_stream, finish_segment, abort_stream, transcribe_file,
  transcribe_stream_chunk, shutdown, Coordinator, SessionKind, engine, chunked, pending, cancelled,
  begun, release_audio, release_session_reservation, release_stream_reservation,
}
use model_test.Inference.Worker.{
  test_job, warm_job, warm_up, claim_job, claim, begin_job, start_batch, run_job, execute,
  open_session, close_session, finish_batch, settle_job, settle, cleanup_poisoned_session,
}

-- How far the worker is with its job
abbrev pub phase : Worker → ℕ
phase (took job) = 0
phase (tested job) = 1
phase (warmed job) = 2
phase (claimed job) = 3
phase (running job) = 4
phase (executed job) = 5
phase idle = 6

abbrev pub Moved : ℕ → Coordinator → Coordinator → Type 0
Moved n s t =
    (n ≤ phase t.worker) × (t.jobs ≡ s.jobs) × (t.worker_loop_active ≡ s.worker_loop_active)

settle-Moved : (job : Job) (s : Coordinator) → Moved 6 s (settle job s)
unfolding settle cleanup_poisoned_session release_audio release_session_reservation
    release_stream_reservation
settle-Moved job s = elim job.session_id [ none ↦ ground arith | some id ↦ ground arith ]

pub test_job-Moved :
    (now : ℕ) (w : Worker) (s : Coordinator) → s.worker ≡ w → Moved 1 s (test_job now w s)
unfolding test_job
test_job-Moved now idle s e = ground (arith, e)
test_job-Moved now (took job) s e = let x = settle-Moved job s in ground (arith, x)
test_job-Moved now (tested job) s e = ground (arith, e)
test_job-Moved now (warmed job) s e = ground (arith, e)
test_job-Moved now (claimed job) s e = ground (arith, e)
test_job-Moved now (running job) s e = ground (arith, e)
test_job-Moved now (executed job) s e = ground (arith, e)

pub warm_job-Moved :
    (is_warmed : Bool) (w : Worker) (s : Coordinator)
    → s.worker ≡ w
    → 1 ≤ phase w
    → Moved 2 s (warm_job is_warmed w s)
unfolding warm_job warm_up
warm_job-Moved is_warmed idle s e h = ground (arith, e)
warm_job-Moved is_warmed (took job) s e h = ground (arith, h)
warm_job-Moved is_warmed (tested job) s e h =
    let x = settle-Moved job (record s { accepting = false; load_error = true }) in
    ground (arith, x)
warm_job-Moved is_warmed (warmed job) s e h = ground (arith, e)
warm_job-Moved is_warmed (claimed job) s e h = ground (arith, e)
warm_job-Moved is_warmed (running job) s e h = ground (arith, e)
warm_job-Moved is_warmed (executed job) s e h = ground (arith, e)

claim-Moved : (job : Job) (s : Coordinator) → Moved 3 s (claim job s)
unfolding claim
claim-Moved job s =
    let x = settle-Moved job s in
    elim job.started [
      | pending ↦ ground arith
      | cancelled ↦ ground (arith, x)
      | begun ↦ ground (arith, x)
    ]

pub claim_job-Moved :
    (now : ℕ) (w : Worker) (s : Coordinator)
    → s.worker ≡ w
    → 2 ≤ phase w
    → Moved 3 s (claim_job now w s)
unfolding claim_job
claim_job-Moved now idle s e h = ground (arith, e)
claim_job-Moved now (took job) s e h = ground (arith, h)
claim_job-Moved now (tested job) s e h = ground (arith, h)
claim_job-Moved now (warmed job) s e h =
    let x = settle-Moved job s in let y = claim-Moved job s in ground (arith, x, y)
claim_job-Moved now (claimed job) s e h = ground (arith, e)
claim_job-Moved now (running job) s e h = ground (arith, e)
claim_job-Moved now (executed job) s e h = ground (arith, e)

pub begin_job-Moved :
    (w : Worker) (s : Coordinator) → s.worker ≡ w → 3 ≤ phase w → Moved 4 s (begin_job w s)
unfolding begin_job start_batch
begin_job-Moved idle s e h = ground (arith, e)
begin_job-Moved (took job) s e h = ground (arith, h)
begin_job-Moved (tested job) s e h = ground (arith, h)
begin_job-Moved (warmed job) s e h = ground (arith, h)
begin_job-Moved (claimed job) s e h = ground arith
begin_job-Moved (running job) s e h = ground (arith, e)
begin_job-Moved (executed job) s e h = ground (arith, e)

open_session-Moved :
    (kind : SessionKind) (job : Job) (s : Coordinator)
    → s.worker ≡ executed job
    → Moved 5 s (open_session kind job s)
unfolding open_session
open_session-Moved kind job s e = elim job.session_id [
  | none ↦ ground (arith, e)
  | some id ↦ ground arith
]

close_session-Moved :
    (job : Job) (s : Coordinator) → s.worker ≡ executed job → Moved 5 s (close_session job s)
unfolding close_session
close_session-Moved job s e = elim job.session_id [
  | none ↦ ground (arith, e)
  | some id ↦ ground (arith, e)
]

execute-Moved :
    (raises : Bool) (action : Action) (job : Job) (s : Coordinator)
    → s.worker ≡ executed job
    → Moved 5 s (execute raises action job s)
unfolding execute
execute-Moved raises (create_stream language) job s e =
    let x = open_session-Moved engine job s e in ground (arith, e, x)
execute-Moved raises (create_chunked_stream language) job s e = open_session-Moved chunked job s e
execute-Moved raises (add_audio pcm rate) job s e = ground (arith, e)
execute-Moved raises finish_stream job s e =
    let x = close_session-Moved job s e in ground (arith, e, x)
execute-Moved raises finish_segment job s e = ground (arith, e)
execute-Moved raises abort_stream job s e = close_session-Moved job s e
execute-Moved raises (transcribe_file path language) job s e = ground (arith, e)
execute-Moved raises (transcribe_stream_chunk path language) job s e = ground (arith, e)
execute-Moved raises shutdown job s e = ground (arith, e)

pub run_job-Moved :
    (raises : Bool) (w : Worker) (s : Coordinator)
    → s.worker ≡ w
    → 4 ≤ phase w
    → Moved 5 s (run_job raises w s)
unfolding run_job finish_batch
run_job-Moved raises idle s e h = ground (arith, e)
run_job-Moved raises (took job) s e h = ground (arith, h)
run_job-Moved raises (tested job) s e h = ground (arith, h)
run_job-Moved raises (warmed job) s e h = ground (arith, h)
run_job-Moved raises (claimed job) s e h = ground (arith, h)
run_job-Moved raises (running job) s e h =
    let t = finish_batch job.action (record s { worker = executed job }) in
    let x = execute-Moved raises job.action job t (ground arith) in ground (arith, x)
run_job-Moved raises (executed job) s e h = ground (arith, e)

pub settle_job-Moved :
    (w : Worker) (s : Coordinator) → s.worker ≡ w → 5 ≤ phase w → Moved 6 s (settle_job w s)
unfolding settle_job
settle_job-Moved idle s e h = ground (arith, e)
settle_job-Moved (took job) s e h = ground (arith, h)
settle_job-Moved (tested job) s e h = ground (arith, h)
settle_job-Moved (warmed job) s e h = ground (arith, h)
settle_job-Moved (claimed job) s e h = ground (arith, h)
settle_job-Moved (running job) s e h = ground (arith, h)
settle_job-Moved (executed job) s e h = settle-Moved job s

pub at_rest : (w : Worker) → 6 ≤ phase w → w ≡ idle
at_rest idle h = refl
at_rest (took job) h = ground (arith, h)
at_rest (tested job) h = ground (arith, h)
at_rest (warmed job) h = ground (arith, h)
at_rest (claimed job) h = ground (arith, h)
at_rest (running job) h = ground (arith, h)
at_rest (executed job) h = ground (arith, h)
