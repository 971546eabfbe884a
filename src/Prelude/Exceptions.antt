-- ===== src/Prelude/Exceptions.antt =====
-- Python's exceptions as values. A method that mutates its object and may raise returns its result
-- beside the object, since what was written before a raise stays written.
use Prim.Native.Nat.{ℕ}
use Prim.Native.String.{String}
use mathlib.Core.Bool.{Bool, true, false}

-- The reasons of `CapacityBufferError` (asr_observability.py, CAPACITY_REASONS).
pub data CapacityReason : Type 0 where
  session_pcm_limit scheduler_ready_job_limit : CapacityReason
  scheduler_queued_audio_limit adapter_utterance_limit : CapacityReason

-- The subclasses of `ASRCoordinatorError` (asr_inference.py).
pub data CoordinatorError : Type 0 where
  not_ready queue_full queue_timeout inference_timeout session_limit : CoordinatorError
  session_poisoned session_busy file_transcription_disabled batch_conflict : CoordinatorError

-- The exception's class with its message; a `CapacityBufferError` keeps limit, current, incoming.
pub data Error : Type 0 where
  value_error runtime_error key_error type_error : String → Error
  prefix_conflict : Error
  coordinator_error : CoordinatorError → Error
  capacity_error : CapacityReason → ℕ → ℕ → ℕ → Error

pub data Result {ℓ} (A : Type ℓ) : Type ℓ where
  ok : A → Result A
  err : Error → Result A

abbrev pub is_ok {ℓ} : {A : Type ℓ} → Result A → Bool
is_ok (ok a) = true
is_ok (err e) = false

infixl 5 ◌>>=◌ ◌>>◌
abbrev pub ◌>>=◌ {ℓ κ} : {A : Type ℓ} {B : Type κ} → Result A → (A → Result B) → Result B
ok a >>= f = f a
err e >>= f = err e

abbrev pub ◌>>◌ {ℓ κ} : {A : Type ℓ} {B : Type κ} → Result A → Result B → Result B
m >> k = m >>= λ _. k

-- `if test: raise e`
abbrev pub raise_if : Bool → Error → Result (Unit {0})
raise_if true e = err e
raise_if false e = ok tt

-- Signed Python integers at the places where a caller may pass a negative one.
pub data ℤ : Type 0 where
  pos : ℕ → ℤ
  negsuc : ℕ → ℤ
