-- ===== src/Inference/Machine.antt =====
-- The coordinator of app/asr_inference.py as a machine: the steps of its callers and of its worker, in
-- any order. A step of a caller that does not wait, or of the worker where it stands elsewhere, does
-- nothing.
use model_test.Prelude.{
  ℕ, List, [], ◌∷◌, Option, none, some, Bool, true, false, ◌&&◌, ◌||◌, not, any, ◌==◌,
  if◌then◌else◌, map, Text, Result, ok, err,
}
use model_test.Inference.State.{
  Settings, Action, create_stream, create_chunked_stream, add_audio, finish_stream, finish_segment,
  SessionKind, engine, chunked, Job, Started, pending, cancelled, Worker, took, tested, warmed,
  Caller, Coordinator, discard, include, include_some, is_in,
}
use model_test.Inference.Admission.{
  submit, submit_abort, submit_file, submit_chunk, stream_request, operation_request, end_batch,
  start, stop,
}
use model_test.Inference.Worker.{
  load, take_job, test_job, warm_job, claim_job, begin_job, run_job, settle_job, finalize_worker,
}

abbrev pub is_pending : Started → Bool
is_pending pending = true
is_pending _ = false

-- `job.started.cancel()`, and what follows where it succeeds
unfoldable pub cancel : ℕ → Job → Job
cancel n job =
    if (job.sequence == n) && is_pending job.started
    then record job { started = cancelled; is_cancelled = true }
    else job

unfoldable pub cancel_taken : ℕ → Worker → Worker
unfolding cancel
cancel_taken n (took job) = took (cancel n job)
cancel_taken n (tested job) = tested (cancel n job)
cancel_taken n (warmed job) = warmed (cancel n job)
cancel_taken n w = w

abbrev pub waits : ℕ → Job → Bool
waits n job = (job.sequence == n) && is_pending job.started

abbrev pub waits_taken : ℕ → Worker → Bool
waits_taken n (took job) = waits n job
waits_taken n (tested job) = waits n job
waits_taken n (warmed job) = waits n job
waits_taken n w = false

-- The job is still to be claimed.
unfoldable pub is_unclaimed : ℕ → Coordinator → Bool
is_unclaimed n s = waits_taken n s.worker || any (waits n) s.jobs

unfoldable pub cancel_job : ℕ → Coordinator → Coordinator
unfolding cancel_taken
cancel_job n s = record s { worker = cancel_taken n s.worker; jobs = map (cancel n) s.jobs }

-- The caller of a job, and the callers without it
unfoldable pub find_caller : ℕ → List Caller → Option Caller
find_caller n [] = none
find_caller n (c ∷ cs) = if c.sequence == n then some c else find_caller n cs

unfoldable pub remove_caller : ℕ → List Caller → List Caller
remove_caller n [] = []
remove_caller n (c ∷ cs) =
    let rest = remove_caller n cs in if c.sequence == n then rest else c ∷ rest

abbrev pub leave : ℕ → Coordinator → Coordinator
leave n s = record s { callers = remove_caller n s.callers }

abbrev pub poison_some : Option Text → Coordinator → Coordinator
poison_some id s = record s { poisoned_sessions = include_some id s.poisoned_sessions }

-- An `ASRCoordinatorError` that reaches a caller poisons the session again if it cleans up.
unfoldable pub poison_again : Option Caller → Coordinator → Coordinator
poison_again none s = s
poison_again (some caller) s = if caller.cleans_up then poison_some caller.session_id s else s

-- `_submit` where the wait for the start times out: a claimed job is waited for.
unfoldable pub queue_times_out : ℕ → Option Caller → Coordinator → Coordinator
unfolding cancel_job poison_again
queue_times_out n caller s =
    if is_unclaimed n s then poison_again caller (cancel_job n (leave n s)) else s

-- `_submit` where the wait for the result times out
unfoldable pub inference_times_out : ℕ → Option Caller → Coordinator → Coordinator
inference_times_out n none s = s
inference_times_out n (some caller) s =
    if is_unclaimed n s then s else poison_some caller.session_id (leave n s)

-- `_submit` where the caller is cancelled: it stays to clean up after a claimed job of a session.
unfoldable pub caller_cancelled : ℕ → Option Caller → Coordinator → Coordinator
unfolding cancel_job
caller_cancelled n none s = s
caller_cancelled n (some caller) s =
    if is_unclaimed n s
    then cancel_job n (leave n s)
    else record (poison_some caller.session_id (leave n s)) {
      cleaning = include_some caller.session_id s.cleaning;
    }

-- The caller of a job, where it is the abort that cleans up
abbrev now_cleans_up : ℕ → Caller → Caller
now_cleans_up n caller = if caller.sequence == n then record caller { cleans_up = true } else caller

-- The abort of `_cleanup_cancelled_started_job`: it is refused, or its job is waited for.
abbrev pub poison_on_error : Text → Result (Option ℕ) × Coordinator → Coordinator
poison_on_error id (ok none, s) = s
poison_on_error id (ok (some n), s) = record s { callers = map (now_cleans_up n) s.callers }
poison_on_error id (err e, s) = record s { poisoned_sessions = include id s.poisoned_sessions }

-- `_cleanup_cancelled_started_job` past its wait
unfoldable pub clean_up : Settings → ℕ → ℕ → Text → Coordinator → Coordinator
clean_up c now timeout id s =
    let done = record s { cleaning = discard id s.cleaning } in
    if not (is_in id s.cleaning)
    then s
    else if not (is_in id s.active_sessions)
    then done
    else poison_on_error id (
        submit_abort c now timeout id
          (record done { poisoned_sessions = discard id s.poisoned_sessions }))

-- The methods that submit an operation of a session, and the actions of the jobs
pub data Operation : Type 0 where
  adds_audio : List ℕ → ℕ → Operation
  finishes_stream finishes_segment : Operation

abbrev pub action_of : Operation → Action
action_of (adds_audio pcm rate) = add_audio pcm rate
action_of finishes_stream = finish_stream
action_of finishes_segment = finish_segment

abbrev pub creation_of : SessionKind → Option Text → Action
creation_of engine language = create_stream language
creation_of chunked language = create_chunked_stream language

pub data Step : Type 0 where
  starts : Step
  stops : ℕ → Step
  creates : SessionKind → Option Text → ℕ → ℕ → Text → Step
  operates : Operation → ℕ → ℕ → Text → ℕ → Step
  chunks : Text → Option Text → ℕ → ℕ → Text → ℕ → Step
  aborts : ℕ → ℕ → Text → Step
  transcribes : ℕ → ℕ → Text → Option Text → Step
  ends_batch : Step
  queue_timeouts inference_timeouts cancellations returns fails : ℕ → Step
  cleans_up : ℕ → ℕ → Text → Step
  loads : Bool → Step
  takes : Step
  tests : ℕ → Step
  warms : Bool → Step
  claims : ℕ → Step
  begins : Step
  runs : Bool → Step
  settles : Step
  dies : Step

unfoldable pub step : Settings → Coordinator → Step → Coordinator
step c s starts = start s
step c s (stops now) = (stop c now s).1
step c s (creates kind language now timeout id) =
    (submit c now (stream_request (creation_of kind language) id timeout) s).1
step c s (operates operation now timeout id audio) =
    (submit c now (operation_request (action_of operation) id audio timeout) s).1
step c s (chunks path language now timeout id audio) =
    (submit_chunk c now timeout path language id audio s).1
step c s (aborts now timeout id) = (submit_abort c now timeout id s).1
step c s (transcribes now timeout path language) = (submit_file c now timeout path language s).1
step c s ends_batch = end_batch s
step c s (queue_timeouts n) = queue_times_out n (find_caller n s.callers) s
step c s (inference_timeouts n) = inference_times_out n (find_caller n s.callers) s
step c s (cancellations n) = caller_cancelled n (find_caller n s.callers) s
step c s (returns n) = leave n s
step c s (fails n) = poison_again (find_caller n s.callers) (leave n s)
step c s (cleans_up now timeout id) = clean_up c now timeout id s
step c s (loads is_loaded) = load c is_loaded s
step c s takes = take_job s.worker s
step c s (tests now) = test_job now s.worker s
step c s (warms is_warmed) = warm_job is_warmed s.worker s
step c s (claims now) = claim_job now s.worker s
step c s begins = begin_job s.worker s
step c s (runs raises) = run_job raises s.worker s
step c s settles = settle_job s.worker s
step c s dies = finalize_worker s

unfoldable pub run : Settings → Coordinator → List Step → Coordinator
run c s [] = s
run c s (e ∷ es) = run c (step c s e) es
