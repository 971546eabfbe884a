-- ===== src/Vad/Frames.antt =====
-- `StreamingVADEndpointDetector` of app/asr_vad.py: its state and `_process_frame`. The speech model is a parameter: a state, a
-- probability for a frame, which may change the state, and a reset. Probabilities and thresholds are
-- natural numbers on one scale. `init` takes the durations in milliseconds and rounds them to
-- samples as the source does.
use model_test.Prelude.{
  ℕ, ◌+◌, ◌-◌, ◌*◌, ◌/◌, List, [], ◌∷◌, ◌++◌, Bool, true, false, ltb, leb, ◌==◌, if◌then◌else◌, min,
  max, length, take, drop, round_div, total_square,
}

pub data VadEndpointState : Type 0 where
  waiting_for_speech speech_candidate in_speech trailing_silence finalizing : VadEndpointState

pub record VadBackend : Type 1 where
  pub Memory : Type 0
  pub speech_probability : List ℕ → Memory → ℕ × Memory
  pub clear : Memory → Memory

-- `EnergyVADBackend`, on a scale where certain speech is `certain`; the root mean square is above
-- the threshold when the squares add up to more than its square for each sample.
unfoldable pub energy_backend : ℕ → ℕ → VadBackend
energy_backend certain rms_threshold = record {
  Memory = Unit {0};
  speech_probability = λ pcm u.
      let count = length pcm / 2 in
      (
        if count == 0
            then 0
            else if ltb (rms_threshold * rms_threshold * count) (total_square pcm)
            then certain
            else 0,
        u,
      );
  clear = λ u. u;
}

abbrev pub Transition : Type 0
Transition = VadEndpointState × VadEndpointState

pub record VadDecision : Type 0 where
  pub audio_to_model : List ℕ
  pub endpoint : Bool
  pub discarded_samples : ℕ
  pub transitions : List Transition

abbrev pub empty_decision : VadDecision
empty_decision = record {
  audio_to_model = [];
  endpoint = false;
  discarded_samples = 0;
  transitions = [];
}

pub record Detector (Memory : Type 0) : Type 0 where
  pub frame_samples : ℕ
  pub onset_threshold : ℕ
  pub offset_threshold : ℕ
  pub min_speech_samples : ℕ
  pub min_silence_samples : ℕ
  pub hangover_samples : ℕ
  pub pre_roll_samples : ℕ
  pub state : VadEndpointState
  pub input_buffer : List ℕ
  pub pre_roll : List ℕ
  pub candidate : List ℕ
  pub candidate_speech_samples : ℕ
  pub trailing : List ℕ
  pub memory : Memory

-- `_milliseconds_to_samples`
unfoldable pub milliseconds_to_samples : ℕ → ℕ → ℕ
milliseconds_to_samples sample_rate milliseconds =
    max 1 (round_div (sample_rate * milliseconds) 1000)

-- What a frame gives: the decision on it, and the detector.
abbrev pub FrameResult : Type 0 → Type 0
FrameResult M = VadDecision × Detector M

abbrev pub is_finalizing : VadEndpointState → Bool
is_finalizing finalizing = true
is_finalizing _ = false

-- A further frame's decision behind those before it
abbrev pub join : VadDecision → VadDecision → VadDecision
join a b = record {
  audio_to_model = a.audio_to_model ++ b.audio_to_model;
  endpoint = b.endpoint;
  discarded_samples = a.discarded_samples + b.discarded_samples;
  transitions = a.transitions ++ b.transitions;
}

abbrev pub state_after_finish : VadEndpointState → VadEndpointState
state_after_finish speech_candidate = waiting_for_speech
state_after_finish s = s

module _ {M : Type 0} where
  -- `__init__`
  pub init : ℕ → ℕ → ℕ → ℕ → ℕ → ℕ → ℕ → ℕ → M → Detector M
  init rate frame_samples onset offset min_speech_ms min_silence_ms hangover_ms pre_roll_ms m =
      record {
        frame_samples = frame_samples;
        onset_threshold = onset;
        offset_threshold = offset;
        min_speech_samples = milliseconds_to_samples rate min_speech_ms;
        min_silence_samples = milliseconds_to_samples rate min_silence_ms;
        hangover_samples = milliseconds_to_samples rate hangover_ms;
        pre_roll_samples = milliseconds_to_samples rate pre_roll_ms;
        state = waiting_for_speech;
        input_buffer = [];
        pre_roll = [];
        candidate = [];
        candidate_speech_samples = 0;
        trailing = [];
        memory = m;
      }

  abbrev pub frame_bytes : Detector M → ℕ
  frame_bytes d = d.frame_samples * 2

  -- `_append_pre_roll`: the discarded samples, and the detector with the bytes kept
  unfoldable pub append_pre_roll : List ℕ → Detector M → ℕ × Detector M
  append_pre_roll audio d =
      let joined = d.pre_roll ++ audio in
      let over = length joined - d.pre_roll_samples * 2 in
      (over / 2, record d { pre_roll = drop over joined })

  abbrev pub frame_result : List ℕ → Bool → ℕ → List Transition → Detector M → FrameResult M
  frame_result audio endpoint discarded transitions d = (
    record {
      audio_to_model = audio;
      endpoint = endpoint;
      discarded_samples = discarded;
      transitions = transitions;
    },
    d,
  )

  -- The candidate is speech: its audio goes out.
  abbrev pub confirm_speech : List Transition → Detector M → FrameResult M
  confirm_speech before d =
      frame_result d.candidate false 0 (before ++ (speech_candidate, in_speech) ∷ [])
        (record d { state = in_speech; candidate = []; candidate_speech_samples = 0 })

  -- `_process_frame` in `WAITING_FOR_SPEECH`
  unfoldable pub frame_in_waiting : List ℕ → ℕ → Detector M → FrameResult M
  unfolding append_pre_roll
  frame_in_waiting frame probability d =
      let begun = record d {
        candidate = d.pre_roll ++ frame;
        pre_roll = [];
        candidate_speech_samples = d.frame_samples;
        state = speech_candidate;
      } in
      let started = (waiting_for_speech, speech_candidate) ∷ [] in
      let rolled = append_pre_roll frame d in
      if leb d.onset_threshold probability
      then (if leb d.min_speech_samples d.frame_samples
          then confirm_speech started begun
          else frame_result [] false 0 started begun)
      else frame_result [] false rolled.0 [] rolled.1

  -- `_process_frame` in `SPEECH_CANDIDATE`
  unfoldable pub frame_in_candidate : List ℕ → ℕ → Detector M → FrameResult M
  unfolding append_pre_roll
  frame_in_candidate frame probability d =
      let longer = record d {
        candidate = d.candidate ++ frame;
        candidate_speech_samples = d.candidate_speech_samples + d.frame_samples;
      } in
      let rolled = append_pre_roll (d.candidate ++ frame) d in
      if leb d.offset_threshold probability
      then (if leb d.min_speech_samples longer.candidate_speech_samples
          then confirm_speech [] longer
          else frame_result [] false 0 [] longer)
      else frame_result [] false rolled.0 ((speech_candidate, waiting_for_speech) ∷ [])
          (record rolled.1 {
            candidate = [];
            candidate_speech_samples = 0;
            state = waiting_for_speech;
          })

  -- The end of `_process_frame`: the trailing silence may be long enough
  unfoldable pub check_silence : List Transition → Detector M → FrameResult M
  unfolding append_pre_roll
  check_silence before d =
      let keep_bytes = min (length d.trailing) (d.hangover_samples * 2) in
      let rolled = append_pre_roll (drop keep_bytes d.trailing) (record d { pre_roll = [] }) in
      if ltb (length d.trailing / 2) d.min_silence_samples
      then frame_result [] false 0 before d
      else frame_result (take keep_bytes d.trailing) true rolled.0
          (before ++ (d.state, finalizing) ∷ [])
          (record rolled.1 { trailing = []; state = finalizing })

  -- `_process_frame` in `IN_SPEECH`
  unfoldable pub frame_in_speech : List ℕ → ℕ → Detector M → FrameResult M
  frame_in_speech frame probability d =
      if leb d.offset_threshold probability
      then frame_result frame false 0 [] d
      else check_silence ((in_speech, trailing_silence) ∷ [])
          (record d { trailing = frame; state = trailing_silence })

  -- `_process_frame` in `TRAILING_SILENCE`
  unfoldable pub frame_in_trailing : List ℕ → ℕ → Detector M → FrameResult M
  frame_in_trailing frame probability d =
      if leb d.offset_threshold probability
      then frame_result (d.trailing ++ frame) false 0 ((trailing_silence, in_speech) ∷ [])
          (record d { trailing = []; state = in_speech })
      else check_silence [] (record d { trailing = d.trailing ++ frame })

  -- `_process_frame`
  unfoldable pub process_in : VadEndpointState → List ℕ → ℕ → Detector M → FrameResult M
  process_in waiting_for_speech frame probability d = frame_in_waiting frame probability d
  process_in speech_candidate frame probability d = frame_in_candidate frame probability d
  process_in in_speech frame probability d = frame_in_speech frame probability d
  process_in trailing_silence frame probability d = frame_in_trailing frame probability d
  process_in finalizing frame probability d = check_silence [] d

  unfoldable pub process_frame : List ℕ → ℕ → Detector M → FrameResult M
  unfolding process_in
  process_frame frame probability d = process_in d.state frame probability d
