-- ===== src/Inference/Sessions.antt =====
-- Every step of the coordinator of app/asr_inference.py keeps one unfinished job for a session.
pub mod Conduct
pub mod Callers
pub mod Worker
pub mod Execution
use model_test.Prelude.{
  ℕ, ◌+◌, ◌≤◌, ◌<◌, leb, ◌≡◌, refl, ap, sym, subst, List, [], ◌∷◌, ◌++◌, Option, none, some, Bool,
  true, false, ◌&&◌, ◌||◌, not, if◌then◌else◌, arith, Bool-cases, Option-cases, inl, inr, map,
  sum_of, sum_of-append, Text, text_eq, text_eq_sound, Result, ok, err, coordinator_error,
  batch_conflict,
}
use model_test.Inference.State.{
  Settings, Action, Job, idle, took, tested, warmed, claimed, running, executed, create_stream,
  create_chunked_stream, add_audio, finish_stream, finish_segment, abort_stream, transcribe_file,
  transcribe_stream_chunk, shutdown, Coordinator, Caller, SessionKind, init, release_queue_slot,
  engine, chunked, pending, cancelled, begun, is_in, discard, include,
}
use model_test.Inference.Admission.{
  Request, submit, submit_abort, poison_if_busy, is_session_busy, submit_file, claim_batch,
  submit_claimed, unless_submitted, submit_chunk, operation_request, stream_request, file_request,
  end_batch, start, stop, shutdown_job, put_nowait,
}
use model_test.Inference.Worker.{
  load, take_job, take_from, take_picked, pick, test_job, warm_job, warm_up, claim_job, claim,
  begin_job, start_batch, is_file, run_job, execute, open_session, close_session, finish_batch,
  settle_job, settle, finalize_worker,
}
use model_test.Inference.Machine.{
  Step, starts, stops, creates, operates, chunks, aborts, transcribes, ends_batch, queue_timeouts,
  inference_timeouts, cancellations, returns, fails, cleans_up, loads, takes, tests, warms, claims,
  begins, runs, settles, dies, step, run, cancel, cancel_taken, cancel_job, queue_times_out,
  inference_times_out, caller_cancelled, clean_up, find_caller, poison_again, is_unclaimed,
  poison_some, poison_on_error, leave, Operation, action_of, creation_of, adds_audio,
  finishes_stream, finishes_segment,
}
use model_test.Inference.Jobs.{
  of_worker, sum_of-pick, sum_of-cancel, of_worker-cancel, IgnoresCancel,
}
use model_test.Inference.Capacity.{Capacity}
use model_test.Inference.Limits.{step-Capacity, init-Capacity}
use model_test.Inference.Ownership.{
  if-SessionIsValid, SessionIsValid, Owned, holding, reserving, plain, count, is_in-discard,
  is_in-include, operation-SessionIsValid, creation-SessionIsValid, file-SessionIsValid,
  settle-SessionIsValid, is_of, mismatch, of_unrun, is_creation,
}
use model_test.Inference.Sessions.Conduct.{Allowed, AllowedRun}
use model_test.Inference.Sessions.Callers.{
  abort-SessionIsValid, claimed-SessionIsValid, stop-SessionIsValid, poison_again-SessionIsValid,
  queue_times_out-SessionIsValid, inference_times_out-SessionIsValid,
  caller_cancelled-SessionIsValid, clean_up-SessionIsValid, chunk-SessionIsValid,
  start-SessionIsValid, IsCreated-at, IsFresh-at,
}
use model_test.Inference.Sessions.Worker.{
  take_job-SessionIsValid, test_job-SessionIsValid, warm_job-SessionIsValid,
  claim_job-SessionIsValid, begin_job-SessionIsValid, settle_job-SessionIsValid,
  load-SessionIsValid,
}
use model_test.Inference.Sessions.Execution.{run_job-SessionIsValid}

nothing-Owned : (id : Text) → Owned id idle [] [] [] []
unfolding is_in
nothing-Owned id = ground arith

step-SessionIsValid :
    (id : Text) (c : Settings) (s : Coordinator) (e : Step)
    → Capacity c s
    → SessionIsValid id s
    → Allowed s e
    → SessionIsValid id (step c s e)
unfolding step finalize_worker end_batch
step-SessionIsValid id c s starts d v a = start-SessionIsValid id c s d v
step-SessionIsValid id c s (stops now) d v a = stop-SessionIsValid id c now s v
step-SessionIsValid id c s (creates engine language now timeout t) d v a =
    creation-SessionIsValid id t c now _ timeout s v refl (IsFresh-at id t s a)
step-SessionIsValid id c s (creates chunked language now timeout t) d v a =
    creation-SessionIsValid id t c now _ timeout s v refl (IsFresh-at id t s a)
step-SessionIsValid id c s (operates (adds_audio pcm rate) now timeout t audio) d v a =
    operation-SessionIsValid id t c now _ audio timeout s v refl (IsCreated-at id t s a)
step-SessionIsValid id c s (operates finishes_stream now timeout t audio) d v a =
    operation-SessionIsValid id t c now _ audio timeout s v refl (IsCreated-at id t s a)
step-SessionIsValid id c s (operates finishes_segment now timeout t audio) d v a =
    operation-SessionIsValid id t c now _ audio timeout s v refl (IsCreated-at id t s a)
step-SessionIsValid id c s (chunks path language now timeout t audio) d v a =
    chunk-SessionIsValid id c now timeout path language t audio s v a
step-SessionIsValid id c s (aborts now timeout t) d v a =
    abort-SessionIsValid id t c now timeout s v a
step-SessionIsValid id c s (transcribes now timeout path language) d v a =
    unfold submit_file in
    claimed-SessionIsValid id c now timeout path language (claim_batch c s) s v refl
step-SessionIsValid id c s ends_batch d v a = v
step-SessionIsValid id c s (queue_timeouts n) d v a =
    queue_times_out-SessionIsValid id n (find_caller n s.callers) s v
step-SessionIsValid id c s (inference_timeouts n) d v a =
    inference_times_out-SessionIsValid id n (find_caller n s.callers) s v
step-SessionIsValid id c s (cancellations n) d v a =
    caller_cancelled-SessionIsValid id n (find_caller n s.callers) s v
step-SessionIsValid id c s (returns n) d v a = v
step-SessionIsValid id c s (fails n) d v a =
    poison_again-SessionIsValid id (find_caller n s.callers) (leave n s) v
step-SessionIsValid id c s (cleans_up now timeout t) d v a =
    clean_up-SessionIsValid id c now timeout t s v a
step-SessionIsValid id c s (loads is_loaded) d v a = load-SessionIsValid id c is_loaded s v
step-SessionIsValid id c s takes d v a = take_job-SessionIsValid id s.worker s v refl
step-SessionIsValid id c s (tests now) d v a = test_job-SessionIsValid id now s.worker s v refl
step-SessionIsValid id c s (warms is_warmed) d v a =
    warm_job-SessionIsValid id is_warmed s.worker s v refl
step-SessionIsValid id c s (claims now) d v a = claim_job-SessionIsValid id now s.worker s v refl
step-SessionIsValid id c s begins d v a = begin_job-SessionIsValid id s.worker s v refl
step-SessionIsValid id c s (runs raises) d v a = run_job-SessionIsValid id raises s.worker s v refl
step-SessionIsValid id c s settles d v a = settle_job-SessionIsValid id s.worker s v refl
step-SessionIsValid id c s dies d v a = nothing-Owned id

init-SessionIsValid : (id : Text) → SessionIsValid id init
unfolding init
init-SessionIsValid id = nothing-Owned id

run-SessionIsValid :
    (id : Text) (c : Settings) (s : Coordinator) (es : List Step)
    → Capacity c s
    → SessionIsValid id s
    → AllowedRun c s es
    → SessionIsValid id (run c s es)
unfolding run
run-SessionIsValid id c s [] d v a = v
run-SessionIsValid id c s (e ∷ es) d v (a, b) =
    run-SessionIsValid id c (step c s e) es (step-Capacity c s e d)
      (step-SessionIsValid id c s e d v a) b

-- In a new coordinator, after any steps of its callers and its worker, where a caller makes up a
-- new identifier for a new session and uses it when the creation is over: a session is marked
-- busy while one unfinished job holds its operation and not otherwise; a session has at most one
-- unfinished job; an active session has its reservation as a stream; and so has a session that is
-- being created, which is not active yet.
pub session_ownership :
    (c : Settings) (es : List Step) (id : Text)
    → AllowedRun c init es
    → let s = run c init es in
      (count (holding id) s ≡ (if is_in id s.busy_sessions then 1 else 0))
      × (count (holding id) s + (count (reserving id) s + count (plain id) s) ≤ 1)
      × (is_in id s.active_sessions ≡ true → is_in id s.stream_reservations ≡ true)
      × (0 < count (reserving id) s
          → (is_in id s.stream_reservations ≡ true) × (is_in id s.active_sessions ≡ false))
session_ownership c es id a =
    let v = run-SessionIsValid id c init es (init-Capacity c) (init-SessionIsValid id) a in
    (v.busy, v.single, v.reserved, v.creation)
