-- ===== src/Streaming/Silence.antt =====
-- `SilenceEndpointDetector` and the PCM measures of app/asr_streaming.py. The floating point
-- operations of Python on seconds are a parameter.
use model_test.Prelude.{
  ℕ, ◌+◌, ◌/◌, ◌≤◌, ◌≡◌, List, [], ◌∷◌, Bool, true, false, ◌||◌, ltb, ◌==◌, if◌then◌else◌, length,
  arith, pcm_s16le_rms,
}

-- What the detector uses of `float`: `0.0`, `+`, `<` and the quotient of two whole numbers
pub record FloatSeconds : Type 1 where
  pub Seconds : Type 0
  pub no_seconds : Seconds
  pub plus : Seconds → Seconds → Seconds
  pub less : Seconds → Seconds → Bool
  pub quotient : ℕ → ℕ → Seconds

pub record SilenceEndpointDetector (S : Type 0) : Type 0 where
  pub silence_seconds : S
  pub rms_threshold : ℕ
  pub current_silence_seconds : S
  pub committed_for_current_silence : Bool

-- `pcm_s16le_duration_seconds`
abbrev duration_seconds : (f : FloatSeconds) → List ℕ → ℕ → f.Seconds
duration_seconds f pcm sample_rate =
    if sample_rate == 0 then f.no_seconds else f.quotient (length pcm / 2) sample_rate

-- `add_audio`
pub add_audio :
    (f : FloatSeconds)
    → List ℕ
    → ℕ
    → SilenceEndpointDetector f.Seconds
    → Bool × SilenceEndpointDetector f.Seconds
add_audio f [] rate d = (false, d)
add_audio f (b ∷ pcm) rate d =
    let waited = record d {
      current_silence_seconds =
          f.plus d.current_silence_seconds (duration_seconds f (b ∷ pcm) rate);
    } in
    if ltb d.rms_threshold (pcm_s16le_rms (b ∷ pcm))
    then (
      false,
      record d { current_silence_seconds = f.no_seconds; committed_for_current_silence = false },
    )
    else if f.less waited.current_silence_seconds d.silence_seconds
        || d.committed_for_current_silence
    then (false, waited)
    else (true, record waited { committed_for_current_silence = true })

-- `reset`
pub reset :
    (f : FloatSeconds) → SilenceEndpointDetector f.Seconds → SilenceEndpointDetector f.Seconds
reset f d = record d {
  current_silence_seconds = f.no_seconds;
  committed_for_current_silence = false;
}

-- How often `add_audio` reports an endpoint for a sequence of chunks.
pub endpoints : (f : FloatSeconds) → ℕ → List (List ℕ) → SilenceEndpointDetector f.Seconds → ℕ
endpoints f rate [] d = 0
endpoints f rate (pcm ∷ rest) d =
    let (fired, d') = add_audio f pcm rate d in (if fired then 1 else 0) + endpoints f rate rest d'

abbrev pub AllSilent : ℕ → List (List ℕ) → Type 0
AllSilent threshold [] = Unit
AllSilent threshold (pcm ∷ rest) = (pcm_s16le_rms pcm ≤ threshold) × AllSilent threshold rest

abbrev budget : Bool → ℕ
budget true = 0
budget false = 1

endpoints-le :
    (f : FloatSeconds) (rate : ℕ) (chunks : List (List ℕ)) (d : SilenceEndpointDetector f.Seconds)
    → AllSilent d.rms_threshold chunks
    → endpoints f rate chunks d ≤ budget d.committed_for_current_silence
unfolding endpoints add_audio
endpoints-le f rate [] d h = omega arith
endpoints-le f rate ([] ∷ rest) d h = omega (arith, endpoints-le f rate rest d h.1)
endpoints-le f rate ((b ∷ pcm) ∷ rest) d h =
    let waited : SilenceEndpointDetector f.Seconds = record d {
      current_silence_seconds =
          f.plus d.current_silence_seconds (duration_seconds f (b ∷ pcm) rate);
    } in
    ground (
      arith,
      endpoints-le f rate rest waited h.1,
      endpoints-le f rate rest (record waited { committed_for_current_silence = true }) h.1,
    )

-- Through a stretch of chunks whose level is at most the threshold, an endpoint is reported at most
-- once, and not at all if it was reported earlier in the same silence.
pub endpoints_once :
    (f : FloatSeconds) (rate : ℕ) (chunks : List (List ℕ)) (d : SilenceEndpointDetector f.Seconds)
    → AllSilent d.rms_threshold chunks
    → (endpoints f rate chunks d ≤ 1)
      × (d.committed_for_current_silence ≡ true → endpoints f rate chunks d ≡ 0)
endpoints_once f rate chunks d h = ground (arith, endpoints-le f rate chunks d h)
