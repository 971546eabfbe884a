-- ===== src/Inference/Limits.antt =====
-- Every step of the coordinator of app/asr_inference.py keeps the limits of its queue.
pub mod Callers
pub mod Worker
use model_test.Prelude.{
  ◌-◌, ◌<◌, refl, List, [], ◌∷◌, ◌++◌, Option, none, some, Bool, true, false, ◌&&◌, ◌||◌, not,
  if◌then◌else◌, arith, Bool-cases, inl, inr, map, sum_of-append, Text, Result, err, Error,
  coordinator_error, session_busy, leb,
}
use model_test.Inference.State.{
  Settings, Action, Job, idle, took, tested, warmed, claimed, running, executed, create_stream,
  create_chunked_stream, add_audio, finish_stream, finish_segment, abort_stream, transcribe_file,
  transcribe_stream_chunk, shutdown, Coordinator, SessionKind, Caller, init, is_shutdown,
  release_queue_slot, release_audio, release_session_reservation, release_stream_reservation,
  require_accepting, engine, chunked, pending, cancelled, begun, is_in, discard,
}
use model_test.Inference.Admission.{
  Request, submit, submit_abort, poison_if_busy, submit_file, claim_batch, submit_claimed,
  unless_submitted, submit_chunk, operation_request, stream_request, file_request, end_batch, start,
  requested, shutdown_job, put_nowait,
}
use model_test.Inference.Worker.{
  load, take_job, take_from, take_picked, pick, test_job, warm_job, warm_up, claim_job, claim,
  begin_job, start_batch, run_job, execute, open_session, close_session, finish_batch, settle_job,
  settle, cleanup_poisoned_session, finalize_worker,
}
use model_test.Inference.Machine.{
  Step, starts, stops, creates, operates, chunks, aborts, transcribes, ends_batch, queue_timeouts,
  inference_timeouts, cancellations, returns, fails, cleans_up, loads, takes, tests, warms, claims,
  begins, runs, settles, dies, step, run, cancel, cancel_job, cancel_taken, queue_times_out,
  inference_times_out, caller_cancelled, clean_up, find_caller, poison_again, poison_on_error,
  leave, Operation, adds_audio, finishes_stream, finishes_segment, action_of, creation_of,
}
use model_test.Inference.Jobs.{
  is_control, sum_of-pick, sum_of-cancel, of_worker-cancel, IgnoresCancel,
}
use model_test.Inference.Capacity.{Capacity, submit-Capacity}
use model_test.Inference.Limits.Callers.{
  submit_abort-Capacity, submit_file-Capacity, stop-Capacity, leave-Capacity, poison_again-Capacity,
  queue_times_out-Capacity, inference_times_out-Capacity, caller_cancelled-Capacity,
  clean_up-Capacity, start-Capacity, submit_chunk-Capacity, creates-Capacity, operates-Capacity,
}
use model_test.Inference.Limits.Worker.{
  take_job-Capacity, test_job-Capacity, warm_job-Capacity, claim_job-Capacity, begin_job-Capacity,
  settle_job-Capacity, run_job-Capacity, load-Capacity,
}

pub step-Capacity :
    (c : Settings) (s : Coordinator) (e : Step) → Capacity c s → Capacity c (step c s e)
unfolding step finalize_worker end_batch
step-Capacity c s starts v = start-Capacity c s v
step-Capacity c s (stops now) v = stop-Capacity c now s v
step-Capacity c s (creates kind language now timeout id) v =
    creates-Capacity c kind language now timeout id s v
step-Capacity c s (operates operation now timeout id audio) v =
    operates-Capacity c operation now timeout id audio s v
step-Capacity c s (chunks path language now timeout id audio) v =
    submit_chunk-Capacity c now timeout path language id audio s v
step-Capacity c s (aborts now timeout id) v = submit_abort-Capacity c now timeout id s v
step-Capacity c s (transcribes now timeout path language) v =
    submit_file-Capacity c now timeout path language s v
step-Capacity c s ends_batch v = ground (arith, v)
step-Capacity c s (queue_timeouts n) v = queue_times_out-Capacity c n (find_caller n s.callers) s v
step-Capacity c s (inference_timeouts n) v =
    inference_times_out-Capacity c n (find_caller n s.callers) s v
step-Capacity c s (cancellations n) v = caller_cancelled-Capacity c n (find_caller n s.callers) s v
step-Capacity c s (returns n) v = leave-Capacity c n s v
step-Capacity c s (fails n) v =
    poison_again-Capacity c (find_caller n s.callers) (leave n s) (leave-Capacity c n s v)
step-Capacity c s (cleans_up now timeout id) v = clean_up-Capacity c now timeout id s v
step-Capacity c s (loads is_loaded) v = load-Capacity c is_loaded s v
step-Capacity c s takes v = take_job-Capacity c s.worker s v refl
step-Capacity c s (tests now) v = test_job-Capacity c now s.worker s v refl
step-Capacity c s (warms is_warmed) v = warm_job-Capacity c is_warmed s.worker s v refl
step-Capacity c s (claims now) v = claim_job-Capacity c now s.worker s v refl
step-Capacity c s begins v = begin_job-Capacity c s.worker s v refl
step-Capacity c s (runs raises) v = run_job-Capacity c raises s.worker s v refl
step-Capacity c s settles v = settle_job-Capacity c s.worker s v refl
step-Capacity c s dies v = ground arith

pub run-Capacity :
    (c : Settings) (s : Coordinator) (es : List Step) → Capacity c s → Capacity c (run c s es)
unfolding run
run-Capacity c s [] v = v
run-Capacity c s (e ∷ es) v = run-Capacity c (step c s e) es (step-Capacity c s e v)

pub init-Capacity : (c : Settings) → Capacity c init
unfolding init
init-Capacity c = ground arith
