-- ===== src/Inference/Worker.antt =====
-- The owner thread of `ASRInferenceCoordinator` (app/asr_inference.py), in steps: what it does between
-- two places where a caller may come in. Whether a call of the model raises is given.
use model_test.Prelude.{
  ℕ, List, [], ◌∷◌, Option, none, some, Bool, true, false, ◌&&◌, ◌||◌, not, ltb, leb, ◌==◌,
  if◌then◌else◌, Text,
}
use model_test.Prelude.Dict.{lookup, put, delete}
use model_test.Inference.State.{
  Settings, Action, create_stream, create_chunked_stream, finish_stream, abort_stream,
  transcribe_file, pending, cancelled, begun, idle, took, tested, warmed, claimed, running,
  executed, engine, chunked, Job, Coordinator, SessionKind, Worker, discard, include, is_in,
  is_shutdown, release_queue_slot, release_audio, release_session_reservation,
  release_stream_reservation,
}

-- `_finalize_worker`, with `_cancel_queued_jobs`: the jobs are rejected and all is cleared.
unfoldable pub finalize_worker : Coordinator → Coordinator
finalize_worker s = record s {
  worker_alive = false;
  accepting = false;
  ready = false;
  worker_loop_active = false;
  shutdown_requested = false;
  jobs = [];
  queued_audio = 0;
  queued_business_jobs = 0;
  active_sessions = [];
  stream_reservations = [];
  poisoned_sessions = [];
  busy_sessions = [];
  batch_pending = false;
  batch_running = false;
  sessions = [];
  worker = idle;
}

-- The start of `_worker_loop`: with `eager_load` the model is warmed at once.
unfoldable pub load : Settings → Bool → Coordinator → Coordinator
load c is_loaded s =
    if not is_loaded
    then record s { ready = false; accepting = false; load_error = true }
    else if c.eager_load
    then record s { ready = true; is_warm = true }
    else s

-- `priority` and `sequence`, compared
unfoldable pub precedes : Job → Job → Bool
precedes a b =
    ltb a.priority b.priority || ((a.priority == b.priority) && ltb a.sequence b.sequence)

-- The job that `_jobs.get` hands out, and the jobs that stay
unfoldable pub pick : Job → List Job → Job × List Job
pick best [] = (best, [])
pick best (j ∷ js) =
    let first = if precedes j best then j else best in
    let other = if precedes j best then best else j in
    let (job, rest) = pick first js in (job, other ∷ rest)

-- The worker has a job, whose slot it releases; the control job ends it.
unfoldable pub take_picked : Job × List Job → Coordinator → Coordinator
take_picked (job, rest) s =
    if is_shutdown job.action
    then finalize_worker s
    else release_queue_slot job (record s { jobs = rest; worker = took job })

unfoldable pub take_from : List Job → Coordinator → Coordinator
take_from [] s = s
take_from (j ∷ js) s = take_picked (pick j js) s

-- `_job_expired_before_start`
abbrev pub is_expired : ℕ → Coordinator → Job → Bool
is_expired now s job = not (s.accepting && (not job.is_cancelled && leb now job.queue_deadline))

-- `_cleanup_poisoned_session`
unfoldable pub cleanup_poisoned_session : Option Text → Coordinator → Coordinator
cleanup_poisoned_session none s = s
cleanup_poisoned_session (some id) s = if not (is_in id s.poisoned_sessions) then s else record s {
  sessions = delete id s.sessions;
  poisoned_sessions = discard id s.poisoned_sessions;
  busy_sessions = discard id s.busy_sessions;
  active_sessions = discard id s.active_sessions;
  stream_reservations = discard id s.stream_reservations;
}

-- The `finally` of the loop: the session is cleaned up and the job's reservations are released.
unfoldable pub settle : Job → Coordinator → Coordinator
settle job s = release_stream_reservation job (
    release_session_reservation job (
      release_audio job.audio
        (cleanup_poisoned_session job.session_id (record s { worker = idle }))))

-- The worker goes on with its job, or settles it.
abbrev pub unless_expired : ℕ → Job → Coordinator → Coordinator → Coordinator
unless_expired now job go_on s = if is_expired now s job then settle job s else go_on

-- The warmup, where `is_warmed` says whether the model can be warmed
unfoldable pub warm_up : Bool → Job → Coordinator → Coordinator
warm_up is_warmed job s =
    if s.is_warm
    then record s { worker = warmed job }
    else if is_warmed
    then record s { is_warm = true; ready = s.accepting; load_error = false; worker = warmed job }
    else settle job (record s { accepting = false; load_error = true })

-- `_claim_job`
unfoldable pub claim : Job → Coordinator → Coordinator
claim job s = elim job.started [
  | pending ↦ record s { worker = claimed (record job { started = begun }) }
  | cancelled ↦ settle job s
  | begun ↦ settle job s
]

-- A new session in `_execute_job`; its reservation is no longer the job's.
unfoldable pub open_session : SessionKind → Job → Coordinator → Coordinator
open_session kind job s = elim job.session_id [
  | none ↦ s
  | some id ↦ record s {
    sessions = put id kind s.sessions;
    active_sessions = include id s.active_sessions;
    worker = executed (record job { holds_stream = false });
  }
]

unfoldable pub close_session : Job → Coordinator → Coordinator
close_session job s = elim job.session_id [
  | none ↦ s
  | some id ↦ record s {
    sessions = delete id s.sessions;
    active_sessions = discard id s.active_sessions;
    stream_reservations = discard id s.stream_reservations;
  }
]

abbrev pub is_none {ℓ} : {A : Type ℓ} → Option A → Bool
is_none none = true
is_none (some a) = false

abbrev pub session_of : Job → Coordinator → Option SessionKind
session_of job s = elim job.session_id [ none ↦ none | some id ↦ lookup id s.sessions ]

-- `_execute_job`, with its effect on the coordinator, where `raises` says whether the call of the
-- model or of the session raises. `finish_stream` looks its session up before its `try`.
unfoldable pub execute : Bool → Action → Job → Coordinator → Coordinator
execute raises (create_stream language) job s =
    let opened = open_session engine job s in if raises then s else opened
execute raises (create_chunked_stream language) job s = open_session chunked job s
execute raises finish_stream job s =
    let closed = close_session job s in if is_none (session_of job s) then s else closed
execute raises abort_stream job s = close_session job s
execute raises _ job s = s

-- The next steps of the worker, which do nothing where it stands elsewhere
unfoldable pub take_job : Worker → Coordinator → Coordinator
unfolding take_from
take_job idle s = if s.worker_loop_active then take_from s.jobs s else s
take_job _ s = s

unfoldable pub test_job : ℕ → Worker → Coordinator → Coordinator
test_job now (took job) s = unless_expired now job (record s { worker = tested job }) s
test_job now _ s = s

unfoldable pub warm_job : Bool → Worker → Coordinator → Coordinator
unfolding warm_up
warm_job is_warmed (tested job) s = warm_up is_warmed job s
warm_job is_warmed _ s = s

-- The second test and the claim: a caller that cancels between them has the effect of one before.
unfoldable pub claim_job : ℕ → Worker → Coordinator → Coordinator
unfolding claim
claim_job now (warmed job) s = unless_expired now job (claim job s) s
claim_job now _ s = s

-- `_batch_running` is set around the model's call.
abbrev pub is_file : Action → Bool
is_file (transcribe_file path language) = true
is_file _ = false

unfoldable pub start_batch : Action → Coordinator → Coordinator
start_batch action s = if is_file action then record s { batch_running = true } else s

unfoldable pub finish_batch : Action → Coordinator → Coordinator
finish_batch action s = if is_file action then record s { batch_running = false } else s

unfoldable pub begin_job : Worker → Coordinator → Coordinator
unfolding start_batch
begin_job (claimed job) s = start_batch job.action (record s { worker = running job })
begin_job _ s = s

unfoldable pub run_job : Bool → Worker → Coordinator → Coordinator
unfolding execute
run_job raises (running job) s =
    execute raises job.action job (finish_batch job.action (record s { worker = executed job }))
run_job raises _ s = s

unfoldable pub settle_job : Worker → Coordinator → Coordinator
unfolding settle
settle_job (executed job) s = settle job s
settle_job _ s = s
