-- ===== src/Inference/State.antt =====
-- The state of `ASRInferenceCoordinator` (app/asr_inference.py): its jobs, its counters and its sets
-- of sessions, and the small methods on them. Durations are natural numbers on one scale.
use model_test.Prelude.{
  length, ℕ, ◌-◌, List, [], ◌∷◌, Option, none, some, Bool, true, false, ◌||◌, not, if◌then◌else◌,
  Text, text_eq, Result, err, coordinator_error, not_ready, session_poisoned, ◌>>◌, raise_if,
}

pub record Settings : Type 0 where
  pub inference_queue_size : ℕ
  pub max_active_streams : ℕ
  pub max_queued_audio : ℕ
  pub file_transcribe_enabled : Bool
  pub eager_load : Bool

-- What a job is to do, with its arguments but the session. Audio bytes and paths are kept as lists.
pub data Action : Type 0 where
  create_stream create_chunked_stream : Option Text → Action
  add_audio : List ℕ → ℕ → Action
  finish_stream finish_segment abort_stream : Action
  transcribe_file : Text → Option Text → Action
  transcribe_stream_chunk : Text → Option Text → Action
  shutdown : Action

-- The future `started` of a job
pub data Started : Type 0 where
  pending cancelled begun : Started

-- `_Job`. Priorities are counted from -100, that of `shutdown`. The event `cancelled` is set only
-- where `started` was cancelled, or where the queue is emptied.
pub record Job : Type 0 where
  pub priority : ℕ
  pub sequence : ℕ
  pub action : Action
  pub session_id : Option Text
  pub enqueue_time : ℕ
  pub queue_deadline : ℕ
  pub audio : ℕ
  pub started : Started
  pub is_cancelled : Bool
  pub holds_session : Bool
  pub holds_stream : Bool

-- Where the owner thread stands: it waits for a job, has one that it has not tested, has tested it,
-- has warmed the model, has claimed the job, calls the model, or has called it.
pub data Worker : Type 0 where
  idle : Worker
  took tested warmed claimed running executed : Job → Worker

pub data SessionKind : Type 0 where
  engine chunked : SessionKind

-- A caller that waits for the result of a job that it submitted, and whether it is the abort of a
-- cancelled caller that cleans up
pub record Caller : Type 0 where
  pub sequence : ℕ
  pub session_id : Option Text
  pub cleans_up : Bool

-- The last two fields are the callers that wait, and those that were cancelled while their job ran
-- and are still to abort its session.
pub record Coordinator : Type 0 where
  pub worker_alive : Bool
  pub accepting : Bool
  pub ready : Bool
  pub worker_loop_active : Bool
  pub shutdown_requested : Bool
  pub load_error : Bool
  pub is_warm : Bool
  pub next_sequence : ℕ
  pub jobs : List Job
  pub queued_audio : ℕ
  pub queued_business_jobs : ℕ
  pub active_sessions : List Text
  pub stream_reservations : List Text
  pub poisoned_sessions : List Text
  pub busy_sessions : List Text
  pub batch_pending : Bool
  pub batch_running : Bool
  pub sessions : List (Text × SessionKind)
  pub worker : Worker
  pub callers : List Caller
  pub cleaning : List Text

-- `__init__`
unfoldable pub init : Coordinator
init = record {
  worker_alive = false;
  accepting = false;
  ready = false;
  worker_loop_active = false;
  shutdown_requested = false;
  load_error = false;
  is_warm = false;
  next_sequence = 0;
  jobs = [];
  queued_audio = 0;
  queued_business_jobs = 0;
  active_sessions = [];
  stream_reservations = [];
  poisoned_sessions = [];
  busy_sessions = [];
  batch_pending = false;
  batch_running = false;
  sessions = [];
  worker = idle;
  callers = [];
  cleaning = [];
}

-- `snapshot`
pub record CoordinatorSnapshot : Type 0 where
  pub ready : Bool
  pub accepting : Bool
  pub active_streams : ℕ
  pub queue_depth : ℕ
  pub queued_audio : ℕ
  pub load_error : Bool

abbrev pub snapshot : Coordinator → CoordinatorSnapshot
snapshot s = record {
  ready = s.ready;
  accepting = s.accepting;
  active_streams = length s.active_sessions;
  queue_depth = s.queued_business_jobs;
  queued_audio = s.queued_audio;
  load_error = s.load_error;
}

-- Python's sets of texts: `in`, `add`, `discard`
unfoldable pub is_in : Text → List Text → Bool
is_in t [] = false
is_in t (u ∷ us) = text_eq u t || is_in t us

unfoldable pub include : Text → List Text → List Text
include t us = if is_in t us then us else t ∷ us

unfoldable pub discard : Text → List Text → List Text
discard t [] = []
discard t (u ∷ us) = let rest = discard t us in if text_eq u t then rest else u ∷ rest

-- `if session_id: ...discard(session_id)`
abbrev pub discard_some : Option Text → List Text → List Text
discard_some none us = us
discard_some (some t) us = discard t us

abbrev pub include_some : Option Text → List Text → List Text
include_some none us = us
include_some (some t) us = include t us

abbrev pub is_some_in : Option Text → List Text → Bool
is_some_in none us = false
is_some_in (some t) us = is_in t us

abbrev pub is_shutdown : Action → Bool
is_shutdown shutdown = true
is_shutdown _ = false

-- `_require_accepting_locked`
unfoldable pub require_accepting : Coordinator → Result (Unit {0})
require_accepting s = raise_if (not s.accepting || s.load_error) (coordinator_error not_ready)

-- `_require_session_admissible_locked`
unfoldable pub require_session_admissible : Option Text → Coordinator → Result (Unit {0})
unfolding require_accepting
require_session_admissible none s = do require_accepting s; err (coordinator_error session_poisoned)
require_session_admissible (some id) s = do
  require_accepting s
  raise_if (is_in id s.poisoned_sessions) (coordinator_error session_poisoned)
  raise_if (not (is_in id s.active_sessions)) (coordinator_error session_poisoned)

-- `_release_queue_slot`
unfoldable pub release_queue_slot : Job → Coordinator → Coordinator
release_queue_slot job s =
    if is_shutdown job.action
    then s
    else record s { queued_business_jobs = s.queued_business_jobs - 1 }

-- `_release_audio_reservation`, which does not go below zero
unfoldable pub release_audio : ℕ → Coordinator → Coordinator
release_audio audio s = record s { queued_audio = s.queued_audio - audio }

-- `_release_session_reservation`
unfoldable pub release_session_reservation : Job → Coordinator → Coordinator
release_session_reservation job s =
    if job.holds_session
    then record s { busy_sessions = discard_some job.session_id s.busy_sessions }
    else s

-- `_release_stream_reservation`; the job is not used afterwards
unfoldable pub release_stream_reservation : Job → Coordinator → Coordinator
release_stream_reservation job s =
    if job.holds_stream
    then record s { stream_reservations = discard_some job.session_id s.stream_reservations }
    else s
