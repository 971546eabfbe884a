-- ===== src/Backends/Defs.antt =====
-- The modes, capabilities and snapshots of app/asr_gateway_backends.py. Sizes are natural numbers,
-- so that the guard `<= 0` is a test for zero; `space` is `str.isspace` on one character.
use model_test.Prelude.{
  ℕ, List, [], ◌∷◌, Option, Bool, true, false, ◌&&◌, not, all, ltb, ◌==◌, Text, String, Result, ok,
  value_error, ◌>>◌, raise_if,
}

pub data StreamingMode : Type 0 where
  stateful chunked rolling offline : StreamingMode

pub data DispatchMode : Type 0 where
  single fixed_microbatch dynamic_microbatch continuous stateful_dynamic : DispatchMode

pub data VadMode : Type 0 where
  no_vad gateway worker both : VadMode

pub data ResultMode : Type 0 where
  cumulative_snapshot replaceable_segment confirmed_plus_tail : ResultMode

pub data WorkerLifecycle : Type 0 where
  starting ready draining failed : WorkerLifecycle

pub record BackendCapabilities : Type 0 where
  pub protocol_version : ℕ
  pub worker_id : Text
  pub model_id : Text
  pub model_revision : Text
  pub gpu_id : Text
  pub languages : List Text
  pub tasks : List Text
  pub streaming_mode : StreamingMode
  pub dispatch_mode : DispatchMode
  pub vad_mode : VadMode
  pub result_mode : ResultMode
  pub preferred_chunk_samples : ℕ
  pub max_input_samples : ℕ
  pub max_segment_samples : ℕ
  pub max_batch_items : ℕ
  pub max_batch_samples : ℕ
  pub max_in_flight : ℕ
  pub session_capacity : ℕ
  pub retry_safe : Bool
  pub warmed : Bool
  pub sample_rate : ℕ
  pub sample_format : Text
  pub backend_id : Text

abbrev pub is_nil {ℓ} : {A : Type ℓ} → List A → Bool
is_nil [] = true
is_nil (x ∷ xs) = false

abbrev pub is_single : DispatchMode → Bool
is_single single = true
is_single _ = false

abbrev pub is_both : VadMode → Bool
is_both both = true
is_both _ = false

-- `not text.strip()`
abbrev is_blank : (ℕ → Bool) → Text → Bool
is_blank space text = all space text

-- The attributes that must not be blank, with the error's text
abbrev named_texts : BackendCapabilities → List (String × Text)
named_texts c =
    ("worker_id must not be empty", c.worker_id)
    ∷ ("model_id must not be empty", c.model_id)
    ∷ ("model_revision must not be empty", c.model_revision)
    ∷ ("gpu_id must not be empty", c.gpu_id)
    ∷ []

-- The sizes that must be positive, with the error's text
abbrev named_sizes : BackendCapabilities → List (String × ℕ)
named_sizes c =
    ("protocol_version must be positive", c.protocol_version)
    ∷ ("preferred_chunk_samples must be positive", c.preferred_chunk_samples)
    ∷ ("max_input_samples must be positive", c.max_input_samples)
    ∷ ("max_segment_samples must be positive", c.max_segment_samples)
    ∷ ("max_batch_items must be positive", c.max_batch_items)
    ∷ ("max_batch_samples must be positive", c.max_batch_samples)
    ∷ ("max_in_flight must be positive", c.max_in_flight)
    ∷ ("session_capacity must be positive", c.session_capacity)
    ∷ ("sample_rate must be positive", c.sample_rate)
    ∷ []

-- `for ...: if bad(value): raise ValueError(...)`
abbrev check_each {ℓ} : {A : Type ℓ} → (A → Bool) → List (String × A) → Result (Unit {0})
check_each bad [] = ok tt
check_each bad ((message, a) ∷ rest) = do
  raise_if (bad a) (value_error message)
  check_each bad rest

-- `__post_init__`
unfoldable pub post_init : (ℕ → Bool) → BackendCapabilities → Result BackendCapabilities
post_init space c = do
  check_each (is_blank space) (named_texts c)
  raise_if (not (is_nil c.backend_id) && is_blank space c.backend_id)
      (value_error "backend_id must not be blank")
  check_each (◌==◌ 0) (named_sizes c)
  raise_if (is_nil c.languages) (value_error "languages must not be empty")
  raise_if (is_nil c.tasks) (value_error "tasks must not be empty")
  raise_if (is_single c.dispatch_mode && not (c.max_batch_items == 1))
      (value_error "max_batch_items must be one for single dispatch")
  raise_if (is_both c.vad_mode) (value_error "vad_mode cannot enable gateway and worker ownership")
  raise_if (ltb c.max_input_samples c.preferred_chunk_samples)
      (value_error "preferred_chunk_samples exceeds max_input_samples")
  raise_if (ltb c.max_segment_samples c.max_input_samples)
      (value_error "max_input_samples exceeds max_segment_samples")
  ok c

pub record BackendSnapshot : Type 0 where
  pub capabilities : BackendCapabilities
  pub lifecycle : WorkerLifecycle
  pub active_leases : ℕ
  pub queued_jobs : ℕ
  pub in_flight : ℕ
  pub load_error : Option Text

abbrev pub is_ready : WorkerLifecycle → Bool
is_ready ready = true
is_ready _ = false

-- `BackendSnapshot.accepting`
abbrev pub accepting : BackendSnapshot → Bool
accepting w =
    is_ready w.lifecycle
    && (w.capabilities.warmed
        && (ltb w.active_leases w.capabilities.session_capacity
            && ltb w.in_flight w.capabilities.max_in_flight))
