-- ===== src/Chunking.antt =====
-- app/asr_gateway_chunking.py, `PcmRingBuffer` and `ReadyChunk`: PCM bytes with absolute sample
-- cursors and one reservation. `bytes` is `_data`, `base_sample` is `_base_sample`. The children
-- hold the invariant, the view of the buffer as a stream, and the chunk policy.
pub mod Invariant
pub mod Stream
pub mod Policy
pub mod Examples
use model_test.Prelude.{
  ℕ, ◌+◌, ◌-◌, ◌*◌, ◌/◌, ◌%◌, List, [], ◌++◌, Option, none, some, Bool, ◌&&◌, not, ◌||◌, ltb, leb,
  ◌==◌, if◌then◌else◌, length, take, drop, Result, ok, err, Error, value_error, runtime_error,
  capacity_error, session_pcm_limit, ◌>>=◌, ◌>>◌, raise_if, ℤ, pos, negsuc,
}

pub record ReadyChunk : Type 0 where
  pub start_sample : ℕ
  pub end_sample : ℕ
  pub pcm : List ℕ
  pub final : Bool

abbrev pub sample_count : ReadyChunk → ℕ
sample_count c = c.end_sample - c.start_sample

pub record PcmRingBuffer : Type 0 where
  pub max_samples : ℕ
  pub bytes : List ℕ
  pub base_sample : ℕ
  pub accepted_samples : ℕ
  pub acknowledged_samples : ℕ
  pub discarded_samples : ℕ
  pub reservation : Option ReadyChunk

-- `__init__`
unfoldable pub init : ℤ → Result PcmRingBuffer
init (negsuc n) = err (value_error "max_samples must be positive")
init (pos n) = do
  raise_if (n == 0) (value_error "max_samples must be positive")
  ok (record {
    max_samples = n;
    bytes = [];
    base_sample = 0;
    accepted_samples = 0;
    acknowledged_samples = 0;
    discarded_samples = 0;
    reservation = none;
  })

abbrev pub count_of : Option ReadyChunk → ℕ
count_of none = 0
count_of (some c) = sample_count c

abbrev pub reserved_samples : PcmRingBuffer → ℕ
reserved_samples b = count_of b.reservation

abbrev pub buffered_samples : PcmRingBuffer → ℕ
buffered_samples b = length b.bytes / 2 - reserved_samples b

abbrev pub next_unreserved_sample : PcmRingBuffer → ℕ
next_unreserved_sample b = b.base_sample + reserved_samples b

-- Each method raises before it writes, so a failed call leaves the buffer as it was.
unfoldable pub append : List ℕ → PcmRingBuffer → Result ((ℕ × ℕ) × PcmRingBuffer)
append pcm b = do
  raise_if (not (length pcm % 2 == 0)) (value_error "pcm_s16le bytes must be sample-aligned")
  let samples = length pcm / 2
  let current = length b.bytes / 2
  raise_if (ltb b.max_samples (current + samples))
      (capacity_error session_pcm_limit b.max_samples current samples)
  ok (
    (b.accepted_samples, b.accepted_samples + samples),
    record b { bytes = b.bytes ++ pcm; accepted_samples = b.accepted_samples + samples },
  )

abbrev pub is_some {ℓ} : {A : Type ℓ} → Option A → Bool
is_some none = Bool.false
is_some (some a) = Bool.true

unfoldable pub reserve_range : ℤ → Bool → PcmRingBuffer → Result (ReadyChunk × PcmRingBuffer)
reserve_range (negsuc n) final b = do
  raise_if (is_some b.reservation) (runtime_error "one in-flight reservation is already active")
  err (value_error "reservation sample count is outside buffered range")
reserve_range (pos samples) final b = do
  raise_if (is_some b.reservation) (runtime_error "one in-flight reservation is already active")
  raise_if (samples == 0 || ltb (buffered_samples b) samples)
      (value_error "reservation sample count is outside buffered range")
  let chunk : ReadyChunk = record {
    start_sample = b.base_sample;
    end_sample = b.base_sample + samples;
    pcm = take (samples * 2) b.bytes;
    final = final;
  }
  ok (chunk, record b { reservation = some chunk })

-- `_require_reservation`
unfoldable pub require_reservation : ℕ → ℕ → Option ReadyChunk → Result ReadyChunk
require_reservation start end none =
    err (runtime_error "reservation range does not match active reservation")
require_reservation start end (some c) =
    if (c.start_sample == start) && (c.end_sample == end)
    then ok c
    else err (runtime_error "reservation range does not match active reservation")

unfoldable pub acknowledge : ℕ → ℕ → PcmRingBuffer → Result PcmRingBuffer
unfolding require_reservation
acknowledge start end b = do
  reservation ← require_reservation start end b.reservation
  ok (record b {
    bytes = drop (sample_count reservation * 2) b.bytes;
    base_sample = reservation.end_sample;
    acknowledged_samples = b.acknowledged_samples + sample_count reservation;
    reservation = none;
  })

unfoldable pub rollback : ℕ → ℕ → PcmRingBuffer → Result PcmRingBuffer
unfolding require_reservation
rollback start end b = do
  require_reservation start end b.reservation
  ok (record b { reservation = none })

unfoldable pub discard : ℤ → PcmRingBuffer → Result PcmRingBuffer
discard (negsuc n) b = do
  raise_if (is_some b.reservation) (runtime_error "cannot discard while a reservation is in-flight")
  err (value_error "discard sample count is outside buffered range")
discard (pos samples) b = do
  raise_if (is_some b.reservation) (runtime_error "cannot discard while a reservation is in-flight")
  raise_if (ltb (buffered_samples b) samples)
      (value_error "discard sample count is outside buffered range")
  ok (record b {
    bytes = drop (samples * 2) b.bytes;
    base_sample = b.base_sample + samples;
    discarded_samples = b.discarded_samples + samples;
  })

-- The methods that change the buffer, as calls.
pub data Call : Type 0 where
  appends : List ℕ → Call
  reserves : ℤ → Bool → Call
  acknowledges rolls_back : ℕ → ℕ → Call
  discards : ℤ → Call

-- A call that raises leaves the buffer as it was.
abbrev pub after : PcmRingBuffer → Result PcmRingBuffer → PcmRingBuffer
after b (ok b') = b'
after b (err e) = b

abbrev pub drop_value : {A : Type 0} → Result (A × PcmRingBuffer) → Result PcmRingBuffer
drop_value (ok (a, b)) = ok b
drop_value (err e) = err e

unfoldable pub step : PcmRingBuffer → Call → PcmRingBuffer
step b (appends pcm) = after b (drop_value (append pcm b))
step b (reserves n final) = after b (drop_value (reserve_range n final b))
step b (acknowledges s e) = after b (acknowledge s e b)
step b (rolls_back s e) = after b (rollback s e b)
step b (discards n) = after b (discard n b)

unfoldable pub run : PcmRingBuffer → List Call → PcmRingBuffer
run b [] = b
run b (List.◌∷◌ c cs) = run (step b c) cs
