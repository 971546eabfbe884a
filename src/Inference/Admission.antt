-- ===== src/Inference/Admission.antt =====
-- The callers' side of `ASRInferenceCoordinator` (app/asr_inference.py): `_submit` up to the queue, and
-- the methods that call it. Each holds the lock once, so it is one step. `now` is the clock.
use model_test.Prelude.{
  ℕ, ◌+◌, ◌*◌, ◌/◌, List, [], ◌∷◌, ◌++◌, Option, none, some, Bool, true, false, ◌&&◌, ◌||◌, not,
  ltb, leb, ◌==◌, if◌then◌else◌, length, Text, Result, ok, err, Error, runtime_error,
  coordinator_error, queue_full, session_limit, session_busy, file_transcription_disabled,
  batch_conflict, ◌>>◌, raise_if,
}
use model_test.Inference.State.{
  Settings, Action, abort_stream, transcribe_file, transcribe_stream_chunk, shutdown, pending, idle,
  Job, Coordinator, discard_some, include_some, is_some_in, include, is_in, require_accepting,
  require_session_admissible, release_stream_reservation,
}

-- What a method asks of `_submit`
pub record Request : Type 0 where
  pub action : Action
  pub session_id : Option Text
  pub priority : ℕ
  pub queue_timeout : ℕ
  pub audio : ℕ
  pub reserve_session_operation : Bool
  pub reserve_stream_capacity : Bool

-- `_new_job`
unfoldable pub new_job : ℕ → ℕ → Request → Job
new_job now sequence r = record {
  priority = r.priority;
  sequence = sequence;
  action = r.action;
  session_id = r.session_id;
  enqueue_time = now;
  queue_deadline = now + r.queue_timeout;
  audio = r.audio;
  started = pending;
  is_cancelled = false;
  holds_session = r.reserve_session_operation;
  holds_stream = r.reserve_stream_capacity;
}

-- `if reserve_stream_capacity: ...`
unfoldable pub reserve_stream : Settings → Request → Coordinator → Result Coordinator
reserve_stream c r s = if not r.reserve_stream_capacity then ok s else (do
  raise_if (s.batch_pending || s.batch_running) (coordinator_error batch_conflict)
  raise_if (leb c.max_active_streams (length s.stream_reservations))
      (coordinator_error session_limit)
  ok (record s { stream_reservations = include_some r.session_id s.stream_reservations }))

-- `if reserve_session_operation: ...`
unfoldable pub reserve_operation : Request → Coordinator → Result Coordinator
unfolding require_session_admissible
reserve_operation r s = if not r.reserve_session_operation then ok s else (do
  require_session_admissible r.session_id s
  raise_if (is_some_in r.session_id s.busy_sessions) (coordinator_error session_busy)
  ok (record s { busy_sessions = include_some r.session_id s.busy_sessions }))

-- What a refusal of the queue undoes
unfoldable pub give_up : Job → Coordinator → Coordinator
give_up job s =
    release_stream_reservation job
      (record s { busy_sessions = discard_some job.session_id s.busy_sessions })

-- `_jobs.put_nowait`, where the queue has one place more than the settings say
unfoldable pub put_nowait : Settings → Job → Coordinator → Option Coordinator
put_nowait c job s =
    if leb (c.inference_queue_size + 1) (length s.jobs)
    then none
    else some (record s { jobs = s.jobs ++ job ∷ [] })

-- A job that the queue took has a caller, who waits for it.
unfoldable pub enqueued : Job → Option Coordinator → Coordinator → Result ℕ × Coordinator
enqueued job (some t) s = (
  ok job.sequence,
  record t {
    callers =
        record { sequence = job.sequence; session_id = job.session_id; cleans_up = false }
        ∷ t.callers;
  },
)
enqueued job none s = (err (coordinator_error queue_full), give_up job s)

-- `_submit` on a job that has its reservations, up to the wait
unfoldable pub enqueue : Settings → Job → Coordinator → Result ℕ × Coordinator
enqueue c job s =
    if ltb c.max_queued_audio (s.queued_audio + job.audio)
    then (err (coordinator_error queue_full), give_up job s)
    else if leb c.inference_queue_size s.queued_business_jobs
    then (err (coordinator_error queue_full), give_up job s)
    else enqueued job
        (put_nowait c job (record s {
          queued_audio = s.queued_audio + job.audio;
          queued_business_jobs = s.queued_business_jobs + 1;
        }))
        s

abbrev pub then_enqueue : Settings → Job → Result Coordinator → Coordinator → Result ℕ × Coordinator
then_enqueue c job (err e) s = (err e, s)
then_enqueue c job (ok t) s = enqueue c job t

abbrev pub then_reserve :
    Settings → Job → Request → Result Coordinator → Coordinator → Result ℕ × Coordinator
then_reserve c job r (err e) s = (err e, s)
then_reserve c job r (ok t) s = then_enqueue c job (reserve_operation r t) t

-- `_submit` past `_require_accepting_locked`
unfoldable pub submit_accepted :
    Settings → Job → Request → Result (Unit {0}) → Coordinator → Result ℕ × Coordinator
submit_accepted c job r (err e) s = (err e, s)
submit_accepted c job r (ok u) s = then_reserve c job r (reserve_stream c r s) s

-- `_submit` up to the wait: the number of the job
unfoldable pub submit : Settings → ℕ → Request → Coordinator → Result ℕ × Coordinator
submit c now r s =
    let numbered = record s { next_sequence = s.next_sequence + 1 } in
    submit_accepted c (new_job now s.next_sequence r) r (require_accepting s) numbered

-- `create_stream`, `create_chunked_stream` on the identifier that they make
abbrev pub stream_request : Action → Text → ℕ → Request
stream_request action id timeout = record {
  action = action;
  session_id = some id;
  priority = 100;
  queue_timeout = timeout;
  audio = 0;
  reserve_session_operation = false;
  reserve_stream_capacity = true;
}

-- `add_audio`, `finish_stream`, `finish_segment`, `transcribe_stream_chunk` and the submission of
-- `abort_stream`
abbrev pub operation_request : Action → Text → ℕ → ℕ → Request
operation_request action id audio timeout = record {
  action = action;
  session_id = some id;
  priority = 100;
  queue_timeout = timeout;
  audio = audio;
  reserve_session_operation = true;
  reserve_stream_capacity = false;
}

-- The audio of `add_audio`, where a second has `scale` units
abbrev pub audio_of : ℕ → List ℕ → ℕ → ℕ
audio_of scale pcm rate = if rate == 0 then 0 else length pcm / 2 * scale / rate

abbrev pub is_session_busy : Error → Bool
is_session_busy (coordinator_error session_busy) = true
is_session_busy _ = false

-- The end of `abort_stream`: a session that is busy is poisoned instead. `none` is that there is
-- nothing to wait for.
unfoldable pub poison_if_busy : Text → Result ℕ × Coordinator → Result (Option ℕ) × Coordinator
poison_if_busy id (ok n, s) = (ok (some n), s)
poison_if_busy id (err e, s) =
    if is_session_busy e
    then (ok none, record s { poisoned_sessions = include id s.poisoned_sessions })
    else (err e, s)

-- `abort_stream` up to the wait; its first test and its submission hold the lock one after the
-- other, and nothing is taken to come between them
unfoldable pub submit_abort :
    Settings → ℕ → ℕ → Text → Coordinator → Result (Option ℕ) × Coordinator
submit_abort c now timeout id s =
    if not (is_in id s.active_sessions) || not s.accepting
    then (ok none, s)
    else if is_in id s.busy_sessions
    then (ok none, record s { poisoned_sessions = include id s.poisoned_sessions })
    else poison_if_busy id (submit c now (operation_request abort_stream id 0 timeout) s)

-- `transcribe_file` up to its submission
unfoldable pub claim_batch : Settings → Coordinator → Result Coordinator
unfolding require_accepting
claim_batch c s = do
  require_accepting s
  raise_if (not c.file_transcribe_enabled) (coordinator_error file_transcription_disabled)
  raise_if (not (length s.stream_reservations == 0) || (s.batch_pending || s.batch_running))
      (coordinator_error batch_conflict)
  ok (record s { batch_pending = true })

abbrev pub file_request : Text → Option Text → ℕ → Request
file_request path language timeout = record {
  action = transcribe_file path language;
  session_id = none;
  priority = 110;
  queue_timeout = timeout;
  audio = 0;
  reserve_session_operation = false;
  reserve_stream_capacity = false;
}

-- `finally` of `transcribe_file`, which also follows a submission that raises
unfoldable pub end_batch : Coordinator → Coordinator
end_batch s = record s { batch_pending = false }

abbrev pub unless_submitted : Result ℕ × Coordinator → Result ℕ × Coordinator
unless_submitted (ok n, s) = (ok n, s)
unless_submitted (err e, s) = (err e, end_batch s)

unfoldable pub submit_claimed :
    Settings → ℕ → Request → Result Coordinator → Coordinator → Result ℕ × Coordinator
submit_claimed c now r (err e) s = (err e, s)
submit_claimed c now r (ok t) s = unless_submitted (submit c now r t)

-- `transcribe_file` up to the wait
unfoldable pub submit_file :
    Settings → ℕ → ℕ → Text → Option Text → Coordinator → Result ℕ × Coordinator
submit_file c now timeout path language s =
    submit_claimed c now (file_request path language timeout) (claim_batch c s) s

-- `transcribe_stream_chunk` up to the wait
unfoldable pub submit_chunk :
    Settings → ℕ → ℕ → Text → Option Text → Text → ℕ → Coordinator → Result ℕ × Coordinator
submit_chunk c now timeout path language id audio s =
    if s.batch_pending || s.batch_running
    then (err (coordinator_error batch_conflict), s)
    else submit c now (operation_request (transcribe_stream_chunk path language) id audio timeout) s

-- `start`: the thread is made unless one is alive.
unfoldable pub start : Coordinator → Coordinator
start s = if s.worker_alive then s else record s {
  worker_alive = true;
  accepting = true;
  ready = false;
  worker_loop_active = true;
  shutdown_requested = false;
  load_error = false;
  is_warm = false;
  worker = idle;
}

-- The control job of `stop`
unfoldable pub shutdown_job : ℕ → ℕ → Job
shutdown_job now sequence = record {
  priority = 0;
  sequence = sequence;
  action = shutdown;
  session_id = none;
  enqueue_time = now;
  queue_deadline = now + 3600;
  audio = 0;
  started = pending;
  is_cancelled = false;
  holds_session = false;
  holds_stream = false;
}

abbrev pub requested : Option Coordinator → Coordinator → Result (Unit {0}) × Coordinator
requested (some t) s = (ok tt, record t { shutdown_requested = true })
requested none s = (err (runtime_error "ASR shutdown control slot is unavailable"), s)

-- `stop` up to its wait for the thread
unfoldable pub stop : Settings → ℕ → Coordinator → Result (Unit {0}) × Coordinator
stop c now s =
    let closed = record s { accepting = false } in
    let numbered = record closed { next_sequence = s.next_sequence + 1 } in
    if s.worker_alive && (s.worker_loop_active && not s.shutdown_requested)
    then requested (put_nowait c (shutdown_job now s.next_sequence) numbered) numbered
    else (ok tt, closed)
