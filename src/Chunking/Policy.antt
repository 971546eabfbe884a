-- ===== src/Chunking/Policy.antt =====
-- `ChunkPolicy` (app/asr_gateway_chunking.py). The floating point operations of Python on durations
-- are a parameter.
use model_test.Prelude.{
  ℕ, ℤ, pos, negsuc, Bool, true, ◌&&◌, ◌||◌, not, leb, ◌==◌, if◌then◌else◌, Result, ok, value_error,
  ◌>>◌, raise_if,
}
use model_test.Backends.Defs.{VadMode, is_both}

-- What the policy uses of `float`: `seconds > 0`, `a > b` and `round(seconds * sample_rate)`
pub record FloatDurations : Type 1 where
  pub Seconds : Type 0
  pub is_positive : Seconds → Bool
  pub exceeds : Seconds → Seconds → Bool
  pub rounded_product : Seconds → ℕ → ℤ

pub record ChunkPolicy (S : Type 0) : Type 0 where
  pub sample_rate : ℕ
  pub preferred_seconds : S
  pub max_seconds : S
  pub vad_mode : VadMode
  pub minimum_seconds : S
  pub overlap_seconds : S

-- `__post_init__`
unfoldable pub post_init :
    (f : FloatDurations) → ChunkPolicy f.Seconds → Result (ChunkPolicy f.Seconds)
post_init f p = do
  raise_if (p.sample_rate == 0) (value_error "sample_rate must be positive")
  raise_if (not (f.is_positive p.preferred_seconds) || not (f.is_positive p.max_seconds))
      (value_error "chunk durations must be positive")
  raise_if (f.exceeds p.preferred_seconds p.max_seconds)
      (value_error "preferred duration exceeds maximum")
  raise_if (is_both p.vad_mode) (value_error "VAD ownership cannot be both gateway and worker")
  ok p

abbrev pub preferred_samples : (f : FloatDurations) → ChunkPolicy f.Seconds → ℤ
preferred_samples f p = f.rounded_product p.preferred_seconds p.sample_rate

abbrev pub maximum_samples : (f : FloatDurations) → ChunkPolicy f.Seconds → ℤ
maximum_samples f p = f.rounded_product p.max_seconds p.sample_rate

abbrev pub minimum_samples : (f : FloatDurations) → ChunkPolicy f.Seconds → ℤ
minimum_samples f p = f.rounded_product p.minimum_seconds p.sample_rate

-- `buffered >= samples`
abbrev reaches : ℕ → ℤ → Bool
reaches buffered (pos samples) = leb samples buffered
reaches buffered (negsuc k) = true

unfoldable pub next_chunk_samples : (f : FloatDurations) → ChunkPolicy f.Seconds → ℕ → Bool → ℤ
next_chunk_samples f p buffered force =
    if reaches buffered (maximum_samples f p)
    then maximum_samples f p
    else if reaches buffered (preferred_samples f p)
    then preferred_samples f p
    else if force && reaches buffered (minimum_samples f p)
    then pos buffered
    else pos 0
