-- ===== src/Adapter.antt =====
-- app/asr_gateway_local_adapter.py: the adapter between the scheduler and the coordinator of
-- app/asr_inference.py. What a call of the coordinator returns or raises is given.
pub mod Answers
pub mod Examples
use model_test.Prelude.{
  ℕ, List, [], ◌∷◌, ◌++◌, Option, none, some, Bool, true, false, ◌&&◌, ◌||◌, not, if◌then◌else◌,
  length, Text, text_eq, codes, Result, ok, err, Error, value_error, runtime_error, key_error,
  type_error, prefix_conflict, coordinator_error, capacity_error, not_ready, queue_full,
  queue_timeout, inference_timeout, session_limit, session_poisoned, session_busy,
  file_transcription_disabled, batch_conflict, map, CoordinatorError, ◌>>=◌, ◌>>◌, raise_if,
}
use model_test.Prelude.Dict.{Dict, lookup, put, delete}
use model_test.Chunking.{is_some}
use model_test.Backends.Defs.{
  post_init, BackendCapabilities, VadMode, stateful, single, replaceable_segment,
}
use model_test.Scheduler.{InferenceJob, InferenceResult, from_job}

-- The fields of `StreamingTranscriptionResult` (app/asr.py) that are read
pub record StreamingResult : Type 0 where
  pub segment_id : ℕ
  pub segment_text : Text
  pub segment_finished : Bool
  pub decoded_samples_delta : Option ℕ

-- `AdapterResult`
pub record AdapterResult : Type 0 where
  pub backend_session_id : Text
  pub text : Text
  pub tail_text : Text
  pub decoded_samples : ℕ
  pub is_final : Bool

-- The adapter; of its coordinator, whether there is one.
pub record LocalAdapter : Type 0 where
  pub capabilities : BackendCapabilities
  pub has_coordinator : Bool
  pub sessions : Dict Text
  pub ready : Bool

-- `__init__`, whose capabilities are validated; `space` says which characters are white space
unfoldable pub init :
    (ℕ → Bool) → Text → Text → Text → Text → ℕ → ℕ → ℕ → ℕ → VadMode → Result LocalAdapter
init space worker_id model_id model_revision gpu_id capacity preferred max_input max_segment
      vad_mode =
    do
      capabilities ← post_init space (record {
        protocol_version = 1;
        worker_id = worker_id;
        model_id = model_id;
        model_revision = model_revision;
        gpu_id = gpu_id;
        languages = codes "auto" ∷ codes "zh" ∷ codes "ja" ∷ codes "en" ∷ [];
        tasks = codes "transcribe" ∷ [];
        streaming_mode = stateful;
        dispatch_mode = single;
        vad_mode = vad_mode;
        result_mode = replaceable_segment;
        preferred_chunk_samples = preferred;
        max_input_samples = max_input;
        max_segment_samples = max_segment;
        max_batch_items = 1;
        max_batch_samples = max_input;
        max_in_flight = 1;
        session_capacity = capacity;
        retry_safe = false;
        warmed = false;
        sample_rate = 16000;
        sample_format = codes "pcm_s16le";
        backend_id = codes "local";
      })
      ok (record {
        capabilities = capabilities;
        has_coordinator = false;
        sessions = [];
        ready = false;
      })

-- `warmup`, on what the coordinator's snapshot says after its start
unfoldable pub warmup : Bool → Bool → LocalAdapter → Result (Unit {0}) × LocalAdapter
warmup is_ready is_accepting a =
    let made = record a { has_coordinator = true } in
    if not is_ready || not is_accepting
    then (err (runtime_error "coordinator warmup did not become ready"), made)
    else (
      ok tt,
      record made { ready = true; capabilities = record a.capabilities { warmed = true } },
    )

-- `_require_ready`
unfoldable pub require_ready : LocalAdapter → Result (Unit {0})
require_ready a =
    raise_if (not a.ready || not a.has_coordinator)
      (runtime_error "local coordinator adapter is not ready")

-- `_session`
unfoldable pub session : Text → LocalAdapter → Result Text
session id a = elim (lookup id a.sessions) [
  | none ↦ err (key_error "stale session")
  | some backend ↦ ok backend
]

-- `type(exc).__name__`
abbrev pub coordinator_name : CoordinatorError → Text
coordinator_name not_ready = codes "ASRNotReady"
coordinator_name queue_full = codes "ASRQueueFull"
coordinator_name queue_timeout = codes "ASRQueueTimeout"
coordinator_name inference_timeout = codes "ASRInferenceTimeout"
coordinator_name session_limit = codes "ASRSessionLimit"
coordinator_name session_poisoned = codes "ASRSessionPoisoned"
coordinator_name session_busy = codes "ASRSessionBusy"
coordinator_name file_transcription_disabled = codes "ASRFileTranscriptionDisabled"
coordinator_name batch_conflict = codes "ASRBatchConflict"

abbrev pub class_name : Error → Text
class_name (value_error m) = codes "ValueError"
class_name (runtime_error m) = codes "RuntimeError"
class_name (key_error m) = codes "KeyError"
class_name (type_error m) = codes "TypeError"
class_name prefix_conflict = codes "ConfirmedPrefixConflict"
class_name (coordinator_error e) = coordinator_name e
class_name (capacity_error reason limit current incoming) = codes "CapacityBufferError"

-- `sanitize_error`
abbrev pub sanitize_error : Error → Text
sanitize_error e = class_name e ++ codes ": backend operation failed"

abbrev pub after_open : Text → Result Text → LocalAdapter → Result Text × LocalAdapter
after_open id (err e) a = (err e, a)
after_open id (ok backend) a = (ok backend, record a { sessions = put id backend a.sessions })

abbrev pub may_open : Text → LocalAdapter → Result (Unit {0})
may_open id a = do
  require_ready a
  raise_if (is_some (lookup id a.sessions)) (value_error "duplicate gateway session")

-- `open_session`, where `created` is what `create_stream` comes to
unfoldable pub open_session : Text → Result Text → LocalAdapter → Result Text × LocalAdapter
open_session id created a = after_open id (may_open id a >> created) a

module _ {M : Type 0} where
  -- The result of one job in `submit`
  unfoldable pub answer : InferenceJob → Result StreamingResult → InferenceResult M
  unfolding from_job
  answer job (err e) = from_job job (sanitize_error e)
  answer job (ok r) = record (from_job job []) {
    text = r.segment_text;
    confirmed_text = [];
    tail_text = r.segment_text;
    segment_id = r.segment_id;
    final = r.segment_finished;
    error = none;
  }

  -- `submit`, where `added` is what `add_audio` comes to
  unfoldable pub submit :
      List InferenceJob → Result StreamingResult → LocalAdapter → Result (List (InferenceResult M))
  unfolding answer require_ready session
  submit (job ∷ []) added a = do
    require_ready a
    backend ← session job.session_id a
    raise_if (not (text_eq backend job.backend_session_id))
        (key_error "stale session backend identity")
    ok (answer job added ∷ [])
  submit _ added a = err (value_error "serial adapter accepts exactly one item")

-- `_adapter_result`
abbrev pub adapter_result : Bool → Text → StreamingResult → AdapterResult
adapter_result final backend r = record {
  backend_session_id = backend;
  text = r.segment_text;
  tail_text = r.segment_text;
  decoded_samples = elim r.decoded_samples_delta [ none ↦ 0 | some n ↦ n ];
  is_final = final;
}

-- `finish_segment`
unfoldable pub finish_segment : Text → Result StreamingResult → LocalAdapter → Result AdapterResult
finish_segment id finished a = do
  require_ready a
  backend ← session id a
  r ← finished
  ok (adapter_result false backend r)

abbrev pub forget : Text → LocalAdapter → LocalAdapter
forget id a = record a { sessions = delete id a.sessions }

abbrev pub after_finish :
    Text → Result AdapterResult → LocalAdapter → Result AdapterResult × LocalAdapter
after_finish id (err e) a = (err e, a)
after_finish id (ok r) a = (ok r, forget id a)

-- `finish_session`
unfoldable pub finish_session :
    Text → Result StreamingResult → LocalAdapter → Result AdapterResult × LocalAdapter
finish_session id finished a =
    after_finish id
      (do require_ready a; backend ← session id a; r ← finished; ok (adapter_result true backend r))
      a

-- `abort_session`, with the session that the coordinator is told to abort
unfoldable pub abort_session : Text → LocalAdapter → Option Text × LocalAdapter
abort_session id a = ((if a.has_coordinator then lookup id a.sessions else none), forget id a)

-- `drain`
abbrev pub drain : LocalAdapter → LocalAdapter
drain a = record a { ready = false }

-- `close`, with the sessions that the coordinator is told to abort
unfoldable pub close : LocalAdapter → List Text × LocalAdapter
close a =
    if a.has_coordinator
    then (
      map (λ e. e.1) a.sessions,
      record a { ready = false; sessions = []; has_coordinator = false },
    )
    else ([], record a { ready = false })
