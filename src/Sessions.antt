-- ===== src/Sessions.antt =====
-- `GatewaySession` of app/asr_gateway_sessions.py. The session's methods act on its PCM buffer; a
-- method that may raise after a write returns the session beside the error. The event
-- `_reservation_released` is a flag. The session's `transcript`, its `options` and its language are
-- only stored by these methods and are left out.
pub mod Accounting
pub mod Lifecycle
pub mod Manager
pub mod Examples
use model_test.Prelude.{
  ℕ, ◌+◌, ◌-◌, ◌/◌, ◌%◌, List, [], Option, none, some, Bool, true, false, ◌&&◌, ◌||◌, not, ltb, leb,
  ◌==◌, if◌then◌else◌, length, Text, Result, ok, err, Error, value_error, runtime_error,
  capacity_error, session_pcm_limit, ◌>>=◌, ◌>>◌, raise_if, ℤ, pos, negsuc,
}
use model_test.Chunking.{PcmRingBuffer, ReadyChunk, buffered_samples, reserved_samples}
use model_test.Chunking

pub data TerminalState : Type 0 where
  open_ finishing succeeded failed aborted : TerminalState

pub record SessionReservation : Type 0 where
  pub job_sequence : ℕ
  pub generation : ℕ
  pub chunk : ReadyChunk

pub record GatewaySession : Type 0 where
  pub session_id : Text
  pub selected_worker_id : Text
  pub backend_session_id : Text
  pub sample_rate : ℕ
  pub generation : ℕ
  pub terminal_state : TerminalState
  pub buffer : PcmRingBuffer
  pub next_job_sequence : ℕ
  pub reservation : Option SessionReservation
  pub reservation_released : Bool
  pub finish_requested : Bool
  pub accepted_samples : ℕ
  pub external_discarded_samples : ℕ

-- `__init__`
unfoldable pub init : Text → Text → Text → ℕ → ℤ → Result GatewaySession
init session_id worker_id backend_id rate max_buffer_samples = do
  buffer ← Chunking.init max_buffer_samples
  ok (record {
    session_id = session_id;
    selected_worker_id = worker_id;
    backend_session_id = backend_id;
    sample_rate = rate;
    generation = 1;
    terminal_state = open_;
    buffer = buffer;
    next_job_sequence = 1;
    reservation = none;
    reservation_released = true;
    finish_requested = false;
    accepted_samples = 0;
    external_discarded_samples = 0;
  })

abbrev pub in_flight : GatewaySession → Bool
in_flight s = Chunking.is_some s.reservation

-- `sample_accounting["pending_vad"]`
abbrev pub pending_vad : GatewaySession → ℕ
pending_vad s = s.accepted_samples - s.buffer.accepted_samples - s.external_discarded_samples

pub record SampleAccounting : Type 0 where
  pub accepted : ℕ
  pub buffered : ℕ
  pub reserved : ℕ
  pub acknowledged : ℕ
  pub discarded : ℕ
  pub pending : ℕ

abbrev pub sample_accounting : GatewaySession → SampleAccounting
sample_accounting s = record {
  accepted = s.accepted_samples;
  buffered = buffered_samples s.buffer;
  reserved = reserved_samples s.buffer;
  acknowledged = s.buffer.acknowledged_samples;
  discarded = s.buffer.discarded_samples + s.external_discarded_samples;
  pending = pending_vad s;
}

abbrev pub is_terminal : TerminalState → Bool
is_terminal open_ = false
is_terminal finishing = false
is_terminal _ = true

-- `append_pcm`
unfoldable pub append_pcm : List ℕ → Bool → GatewaySession → Result ((ℕ × ℕ) × GatewaySession)
append_pcm pcm count_accepted s = do
  raise_if (is_terminal s.terminal_state) (runtime_error "session is terminal")
  appended ← Chunking.append pcm s.buffer
  ok (
    appended.0,
    record s {
      buffer = appended.1;
      accepted_samples =
          if count_accepted then s.accepted_samples + length pcm / 2 else s.accepted_samples;
    },
  )

-- `accept_vad_input`
unfoldable pub accept_vad_input : List ℕ → GatewaySession → Result GatewaySession
accept_vad_input pcm s = do
  raise_if (not (length pcm % 2 == 0)) (value_error "pcm_s16le bytes must be sample-aligned")
  let samples = length pcm / 2
  let current = buffered_samples s.buffer + reserved_samples s.buffer + pending_vad s
  raise_if (ltb s.buffer.max_samples (current + samples))
      (capacity_error session_pcm_limit s.buffer.max_samples current samples)
  ok (record s { accepted_samples = s.accepted_samples + samples })

-- `record_discarded`
unfoldable pub record_discarded : ℤ → GatewaySession → Result GatewaySession
record_discarded (negsuc n) s = err (value_error "discarded VAD samples exceed pending input")
record_discarded (pos samples) s = do
  raise_if (ltb (pending_vad s) samples) (value_error "discarded VAD samples exceed pending input")
  ok (record s { external_discarded_samples = s.external_discarded_samples + samples })

-- `maximum or available`
abbrev pub maximum_or : Option ℕ → ℕ → ℕ
maximum_or none available = available
maximum_or (some m) available = if m == 0 then available else m

-- `ready_samples`
unfoldable pub ready_samples : ℕ → Option ℕ → Bool → GatewaySession → ℕ
ready_samples preferred maximum force s =
    let available = buffered_samples s.buffer in
    let limit = maximum_or maximum available in
    if in_flight s
    then 0
    else if leb limit available && ltb 0 limit
    then limit
    else if leb preferred available && ltb 0 preferred
    then preferred
    else if force || s.finish_requested
    then available
    else 0

-- `reserve`
unfoldable pub reserve : ℤ → Bool → GatewaySession → Result (SessionReservation × GatewaySession)
reserve samples final s = do
  raise_if (in_flight s) (runtime_error "session already has an in-flight job")
  reserved ← Chunking.reserve_range samples final s.buffer
  let reservation : SessionReservation = record {
    job_sequence = s.next_job_sequence;
    generation = s.generation;
    chunk = reserved.0;
  }
  ok (
    reservation,
    record s {
      buffer = reserved.1;
      next_job_sequence = s.next_job_sequence + 1;
      reservation = some reservation;
      reservation_released = false;
    },
  )

-- `_require_reservation`
unfoldable pub require_reservation : ℕ → Option SessionReservation → Result SessionReservation
require_reservation job_sequence none =
    err (runtime_error "result does not match in-flight reservation")
require_reservation job_sequence (some r) =
    if r.job_sequence == job_sequence
    then ok r
    else err (runtime_error "result does not match in-flight reservation")

abbrev pub released : PcmRingBuffer → GatewaySession → GatewaySession
released buffer s = record s { buffer = buffer; reservation = none; reservation_released = true }

-- `acknowledge`
unfoldable pub acknowledge : ℕ → ℕ → GatewaySession → Result (ReadyChunk × GatewaySession)
unfolding require_reservation
acknowledge job_sequence generation s = do
  raise_if (not (generation == s.generation)) (runtime_error "stale generation result")
  r ← require_reservation job_sequence s.reservation
  buffer ← Chunking.acknowledge r.chunk.start_sample r.chunk.end_sample s.buffer
  ok (r.chunk, released buffer s)

abbrev rollback_reserved : SessionReservation → GatewaySession → Result GatewaySession
rollback_reserved r s = do
  buffer ← Chunking.rollback r.chunk.start_sample r.chunk.end_sample s.buffer
  ok (released buffer s)

-- `rollback`
abbrev pub rollback_job :
    ℕ → Option SessionReservation → GatewaySession → Result (Bool × GatewaySession)
rollback_job job_sequence none s = ok (false, s)
rollback_job job_sequence (some r) s =
    if r.job_sequence == job_sequence
    then (do s' ← rollback_reserved r s; ok (true, s'))
    else ok (false, s)

unfoldable pub rollback : ℕ → GatewaySession → Result (Bool × GatewaySession)
rollback job_sequence s = rollback_job job_sequence s.reservation s

-- `matches_reservation`
unfoldable pub matches : ℕ → ℕ → ℕ → ℕ → Option SessionReservation → Bool
matches job_sequence generation start end none = false
matches job_sequence generation start end (some r) =
    (r.job_sequence == job_sequence)
    && ((r.generation == generation)
        && ((r.chunk.start_sample == start) && (r.chunk.end_sample == end)))

unfoldable pub matches_reservation : ℕ → ℕ → ℕ → GatewaySession → Bool
unfolding matches
matches_reservation job_sequence start end s =
    matches job_sequence s.generation start end s.reservation

-- `request_finish`
unfoldable pub request_finish : GatewaySession → GatewaySession
request_finish s =
    if s.finish_requested
    then s
    else record s { finish_requested = true; terminal_state = finishing }

abbrev pub is_dead : TerminalState → Bool
is_dead aborted = true
is_dead failed = true
is_dead _ = false

-- `abort`: the reservation is rolled back
unfoldable pub abort_reservation :
    Option SessionReservation → GatewaySession → Result GatewaySession
abort_reservation none s = ok s
abort_reservation (some r) s = rollback_reserved r s

-- `abort`: what is buffered is discarded
unfoldable pub discard_buffered : GatewaySession → Result GatewaySession
discard_buffered s = if buffered_samples s.buffer == 0 then ok s else (do
  buffer ← Chunking.discard (pos (buffered_samples s.buffer)) s.buffer
  ok (record s { buffer = buffer }))

-- `abort`: what the VAD still holds is counted as discarded
unfoldable pub mark_aborted : GatewaySession → GatewaySession
mark_aborted s = record s {
  external_discarded_samples = s.external_discarded_samples + pending_vad s;
  generation = s.generation + 1;
  terminal_state = aborted;
}

abbrev pub keep_error :
    GatewaySession
    → (GatewaySession → Result (Unit {0}) × GatewaySession)
    → Result GatewaySession
    → Result (Unit {0}) × GatewaySession
keep_error s next (ok s') = next s'
keep_error s next (err e) = (err e, s)

-- `abort`
unfoldable pub abort : GatewaySession → Result (Unit {0}) × GatewaySession
abort s =
    if is_dead s.terminal_state
    then (ok tt, s)
    else keep_error s (λ s₁. keep_error s₁ (λ s₂. (ok tt, mark_aborted s₂)) (discard_buffered s₁))
        (abort_reservation s.reservation s)

-- `fail`
unfoldable pub fail_after : Result (Unit {0}) × GatewaySession → Result (Unit {0}) × GatewaySession
fail_after (ok u, s) = (ok tt, record s { terminal_state = failed })
fail_after (err e, s) = (err e, s)

unfoldable pub fail : GatewaySession → Result (Unit {0}) × GatewaySession
fail s = fail_after (abort s)

-- `succeed`
unfoldable pub succeed : GatewaySession → Result GatewaySession
succeed s = do
  raise_if (not (buffered_samples s.buffer == 0) || not (reserved_samples s.buffer == 0))
      (runtime_error "cannot succeed with unaccounted PCM")
  ok (record s { terminal_state = succeeded })

-- The methods that change the session, as calls.
pub data Call : Type 0 where
  appends : List ℕ → Bool → Call
  accepts_vad : List ℕ → Call
  records_discarded : ℤ → Call
  reserves : ℤ → Bool → Call
  acknowledges : ℕ → ℕ → Call
  rolls_back : ℕ → Call
  requests_finish aborts fails succeeds : Call

abbrev pub after : GatewaySession → Result GatewaySession → GatewaySession
after s (ok s') = s'
after s (err e) = s

abbrev pub drop_value : {A : Type 0} → Result (A × GatewaySession) → Result GatewaySession
drop_value (ok (a, s)) = ok s
drop_value (err e) = err e

unfoldable pub step : GatewaySession → Call → GatewaySession
step s (appends pcm counted) = after s (drop_value (append_pcm pcm counted s))
step s (accepts_vad pcm) = after s (accept_vad_input pcm s)
step s (records_discarded n) = after s (record_discarded n s)
step s (reserves n final) = after s (drop_value (reserve n final s))
step s (acknowledges job generation) = after s (drop_value (acknowledge job generation s))
step s (rolls_back job) = after s (drop_value (rollback job s))
step s requests_finish = request_finish s
step s aborts = (abort s).1
step s fails = (fail s).1
step s succeeds = after s (succeed s)

unfoldable pub run : GatewaySession → List Call → GatewaySession
run s [] = s
run s (List.◌∷◌ c cs) = run (step s c) cs
