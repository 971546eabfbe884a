-- ===== src/Vad/Detector.antt =====
-- `StreamingVADEndpointDetector` of app/asr_vad.py: the loop over complete frames and the methods.
use model_test.Prelude.{
  ℕ, zero, suc, ◌+◌, ◌-◌, ◌*◌, ◌/◌, ◌%◌, List, [], ◌∷◌, ◌++◌, Bool, true, false, not, ◌&&◌, leb,
  ◌==◌, if◌then◌else◌, min, length, take, drop, Result, ok, value_error, ◌>>◌, raise_if,
}
use model_test.Vad.Frames.{
  VadEndpointState, waiting_for_speech, speech_candidate, in_speech, trailing_silence, finalizing,
  VadBackend, Transition, VadDecision, empty_decision, Detector, FrameResult, is_finalizing, join,
  frame_bytes, process_frame, state_after_finish,
}

module _ {M : Type 0} where
  -- What `finish_input` takes from the trailing silence
  unfoldable pub kept_trailing : List ℕ → Detector M → ℕ
  kept_trailing audio d = min (length d.trailing) ((d.hangover_samples - length audio / 2) * 2)

  -- `finish_input` on what the last complete frames gave
  unfoldable pub finish_in : VadEndpointState → VadDecision → Detector M → VadDecision
  unfolding kept_trailing
  finish_in in_speech r d = record r {
    audio_to_model = r.audio_to_model ++ d.input_buffer;
    endpoint = false;
    discarded_samples = r.discarded_samples + length d.pre_roll / 2;
  }
  finish_in trailing_silence r d =
      let keep = kept_trailing r.audio_to_model d in
      record r {
        audio_to_model = r.audio_to_model ++ take keep d.trailing;
        endpoint = false;
        discarded_samples =
            r.discarded_samples
            + (length d.trailing - keep) / 2
            + length d.input_buffer / 2
            + length d.pre_roll / 2;
      }
  finish_in speech_candidate r d = record r {
    endpoint = false;
    discarded_samples =
        r.discarded_samples
        + length d.input_buffer / 2
        + length d.candidate / 2
        + length d.pre_roll / 2;
    transitions = r.transitions ++ (speech_candidate, waiting_for_speech) ∷ [];
  }
  finish_in waiting_for_speech r d = record r {
    endpoint = false;
    discarded_samples = r.discarded_samples + length d.input_buffer / 2 + length d.pre_roll / 2;
  }
  finish_in finalizing r d = record r {
    endpoint = false;
    discarded_samples = r.discarded_samples + length d.input_buffer / 2 + length d.pre_roll / 2;
  }

  abbrev pub cleared : Detector M → Detector M
  cleared d = record d {
    input_buffer = [];
    pre_roll = [];
    candidate = [];
    candidate_speech_samples = 0;
    trailing = [];
  }

module _ (b : VadBackend) where
  -- One round of the loop of `_drain_complete_frames`
  unfoldable pub next_frame : Detector b.Memory → FrameResult b.Memory
  next_frame d =
      let frame = take (frame_bytes d) d.input_buffer in
      let (probability, memory) = b.speech_probability frame d.memory in
      process_frame frame probability
        (record d { input_buffer = drop (frame_bytes d) d.input_buffer; memory = memory })

  abbrev pub has_frame : Detector b.Memory → Bool
  has_frame d = not (is_finalizing d.state) && leb (frame_bytes d) (length d.input_buffer)

  -- After a frame the loop returns at an endpoint, or goes on.
  unfoldable pub then_drain :
      (Detector b.Memory → FrameResult b.Memory) → FrameResult b.Memory → FrameResult b.Memory
  then_drain go_on (r, d) =
      let (rest, d') = go_on d in if r.endpoint then (r, d) else (join r rest, d')

  -- The loop of `_drain_complete_frames`
  unfoldable pub drain : ℕ → Detector b.Memory → FrameResult b.Memory
  drain zero d = (empty_decision, d)
  drain (suc fuel) d = elim (has_frame d) [
    | false ↦ (empty_decision, d)
    | true ↦ then_drain (drain fuel) (next_frame d)
  ]

  -- `_drain_complete_frames`; each round takes a frame from the buffer
  unfoldable pub drain_complete_frames : Detector b.Memory → FrameResult b.Memory
  unfolding drain
  drain_complete_frames d = drain (length d.input_buffer) d

  -- `add_audio`
  unfoldable pub add_audio : List ℕ → Detector b.Memory → Result (FrameResult b.Memory)
  add_audio pcm d = do
    raise_if (not (length pcm % 2 == 0)) (value_error "VAD audio must be aligned pcm_s16le")
    ok (drain_complete_frames (record d { input_buffer = d.input_buffer ++ pcm }))

  abbrev pub behind : List Transition → FrameResult b.Memory → FrameResult b.Memory
  behind before (r, d) = (record r { transitions = before ++ r.transitions }, d)

  -- `endpoint_finalized`
  unfoldable pub endpoint_finalized : Detector b.Memory → FrameResult b.Memory
  endpoint_finalized d =
      if not (is_finalizing d.state)
      then (empty_decision, d)
      else behind ((finalizing, waiting_for_speech) ∷ []) (
          drain_complete_frames
            (record d { state = waiting_for_speech; memory = b.clear d.memory }))

  -- `reset`
  unfoldable pub reset : Detector b.Memory → Detector b.Memory
  reset d = record (cleared d) { state = waiting_for_speech; memory = b.clear d.memory }

  -- `finish_input`
  unfoldable pub finish_input : Detector b.Memory → FrameResult b.Memory
  unfolding finish_in
  finish_input d =
      let (r, d₁) = drain_complete_frames d in
      (finish_in d₁.state r d₁, record (cleared d₁) { state = state_after_finish d₁.state })
