-- ===== src/Lib.antt =====
-- A model of the streaming core of the speech recognition gateway, and its correctness.
--
-- The gateway (app/asr_gateway*.py) takes PCM audio from a client, cuts it into jobs, sends the jobs
-- to the workers of a registry, and turns their results into numbered transcript events. A session
-- owns a ring buffer; the scheduler reserves a prefix of it as a job, and acknowledges or rolls back
-- the reservation with the job's result. A voice activity detector may stand before the buffer. The
-- transcript state turns the hypotheses of a worker into events that a client replays.
--
-- Prelude is what the modules share: tests, lists and texts over the native numbers, Python's
-- exceptions as a result type, rounding division, 16-bit PCM and dictionaries in insertion order.
--
-- Chunking is app/asr_gateway_chunking.py. `PcmRingBuffer` has one function per method, under the
-- method's name without a leading underscore; `Call` and `run` are sequences of calls, where a call
-- that raises leaves the buffer as it was. Invariant and Stream hold its laws, Policy `ChunkPolicy`,
-- where the floating point operations of Python are a parameter, the record `FloatDurations`.
--
-- Sessions is app/asr_gateway_sessions.py: `GatewaySession`, with the buffer inside it, and
-- `SessionManager` in Manager. The event that a reservation clears and sets is a flag. A method that
-- changes the session before it raises returns the session beside the error. The invariant assumes
-- that audio appended without being counted is pending in the detector, as the gateway's is.
--
-- Backends is app/asr_gateway_backends.py: the capabilities with their validation, the registry and
-- its leases. Each method holds the registry's lock and is one step.
--
-- Streaming is app/asr_streaming.py: where sentences end, the splitting of a text, the punctuation
-- tracker, `StreamingTranscriptState` and `SilenceEndpointDetector`. Replay is the client that the
-- repository's README describes: it appends every `sentence_final` for good and replaces the tail
-- by every `partial` and `final`. Python's `str` methods come from the interpreter's Unicode
-- tables and are a parameter, the record `Unicode`; its floating point operations on the seconds
-- of silence are the parameter `FloatSeconds`. The time that the state has counted is a number of
-- samples.
--
-- Vad is app/asr_vad.py: `StreamingVADEndpointDetector` over any speech model. A probability is a
-- natural number on a scale of the backend's. Conservation, Flow and Feed follow the bytes from
-- the input to the model, Drain counts them. The Silero model is a third party's, so it is the
-- parameter `VadBackend`; the settings' reader is not modelled.
--
-- Protocol is app/asr_gateway_protocol.py: the parser of the client's commands and the session of
-- messages, which ends with its terminal message.
--
-- Scheduler is app/asr_gateway_scheduler.py: `enqueue`, `cancel_session`, the batch that `run_once`
-- selects from the jobs of a worker, how it settles each job of the batch after `cleanup`, which is
-- given by how it ends, and how the queue of a failed worker is drained. Run has `run_once` as a
-- whole, as one step before the adapter's call and one after it, between which jobs are enqueued and
-- cancelled; the call's outcome is given. `reject` of an expired job may raise, which ends the
-- run. The hooks `publish` of an expired job and `publish`, `discard` and `worker_failed` of a
-- batch are taken to return; what is cancelled while a batch is settled is given with the end of
-- each job's cleanup. A clock reading is an argument. The counters of fragmentation, the events of
-- `wait_session_safe` and the background loop, which begins one run after another, are not
-- modelled.
--
-- Metrics is app/asr_gateway_metrics.py with the values it keeps, from app/asr_observability.py: the
-- operations that record, and the summary of values. A value is a whole number on one scale, or not
-- finite; a call whose value is refused halfway keeps what it has written. The snapshot of the metrics, which divides, is
-- not modelled.
--
-- Inference is app/asr_inference.py, the coordinator whose owner thread alone runs the model.
-- State has the coordinator, Admission the callers' methods up to their wait, Worker the owner
-- thread's loop, and Machine the whole as steps in any order: a step of a caller holds the lock
-- once; the loop is taken apart between taking a job, its tests, its warmup, its claim, the model
-- and settling it. The lock sections of the `finally` that settles a job (the cleanup of a
-- poisoned session, and the release of its audio, its session and its stream) are one step, so
-- that no caller comes in between them. The abort of a cancelled caller poisons the session again
-- when it fails. A timeout, a cancellation, a failed warmup and an exception of the model are
-- given by the steps. A job's number is taken together with its admission, and the end of the
-- thread is one step. The log, the result itself and its timings are not modelled.
--
-- Adapter is app/asr_gateway_local_adapter.py, which stands between the scheduler and the coordinator:
-- what a call of the coordinator returns or raises is given, and Answers joins it to the scheduler.
-- Its snapshot is not modelled.
--
-- Bounds and fuel. Sizes are natural numbers; an integer that a caller may pass as a negative one
-- is a ℤ, and its refusal is a branch. The loops of the sentence scan run on fuel, one more than
-- the length of the text, since each round moves on by a character at least; without fuel they
-- return nothing. The loop over complete frames runs on the length of the input, of which each
-- round takes a frame.
--
-- Not modelled: the event log and the gateway application
-- (app/asr_gateway.py), and the HTTP services, engines and scripts, which are I/O around third-party
-- libraries.
pub mod Prelude
pub mod Chunking
pub mod Sessions
pub mod Backends
pub mod Streaming
pub mod Vad
pub mod Protocol
pub mod Scheduler
pub mod Metrics
pub mod Inference
pub mod Adapter
