-- ===== src/Vad/Pieces/Step.antt =====
-- A round of the loop of app/asr_vad.py on a buffer to which audio is added.
use model_test.Prelude.{
  ℕ, ◌≤◌, ◌≡◌, refl, ap, sym, ◌∙◌, List, ◌++◌, true, length, take, drop, take-append, drop-append,
  length-append, arith,
}
use model_test.Vad.Frames.{
  VadEndpointState, waiting_for_speech, speech_candidate, in_speech, trailing_silence, finalizing,
  VadBackend, Detector, FrameResult, is_finalizing, frame_bytes, process_frame, process_in,
  frame_in_waiting, frame_in_candidate, frame_in_speech, frame_in_trailing, check_silence,
  append_pre_roll,
}
use model_test.Vad.Detector.{next_frame, has_frame}

module _ {M : Type 0} where
  -- The detector with other input
  abbrev pub with_input : List ℕ → Detector M → Detector M
  with_input z d = record d { input_buffer = z }

  abbrev pub fed : List ℕ → Detector M → Detector M
  fed y d = with_input (d.input_buffer ++ y) d

  abbrev pub result_with : List ℕ → FrameResult M → FrameResult M
  result_with z (r, d) = (r, with_input z d)

  -- A frame is judged without a look at the rest of the input.
  process_in-input :
      (s : VadEndpointState) (frame : List ℕ) (p : ℕ) (z : List ℕ) (d : Detector M)
      → process_in s frame p (with_input z d) ≡ result_with z (process_in s frame p d)
  unfolding process_in frame_in_waiting frame_in_candidate frame_in_speech frame_in_trailing
      check_silence append_pre_roll
  process_in-input waiting_for_speech frame p z d = ground arith
  process_in-input speech_candidate frame p z d = ground arith
  process_in-input in_speech frame p z d = ground arith
  process_in-input trailing_silence frame p z d = ground arith
  process_in-input finalizing frame p z d = ground arith

  process_frame-input :
      (frame : List ℕ) (p : ℕ) (z : List ℕ) (d : Detector M)
      → process_frame frame p (with_input z d) ≡ result_with z (process_frame frame p d)
  unfolding process_frame
  process_frame-input frame p z d = process_in-input d.state frame p z d

  process_in-finalizing :
      (s : VadEndpointState) (frame : List ℕ) (p : ℕ) (d : Detector M)
      → (process_in s frame p d).0.endpoint ≡ true
      → is_finalizing (process_in s frame p d).1.state ≡ true
  unfolding process_in frame_in_waiting frame_in_candidate frame_in_speech frame_in_trailing
      check_silence append_pre_roll
  process_in-finalizing waiting_for_speech frame p d h = ground (arith, h)
  process_in-finalizing speech_candidate frame p d h = ground (arith, h)
  process_in-finalizing in_speech frame p d h = ground (arith, h)
  process_in-finalizing trailing_silence frame p d h = ground (arith, h)
  process_in-finalizing finalizing frame p d h = ground (arith, h)

module _ (b : VadBackend) where
  abbrev judge : List ℕ → List ℕ → Detector b.Memory → FrameResult b.Memory
  judge frame rest d =
      let (probability, memory) = b.speech_probability frame d.memory in
      process_frame frame probability (record d { input_buffer = rest; memory = memory })

  next_frame-judge :
      (d : Detector b.Memory)
      → next_frame b d
        ≡ judge (take (frame_bytes d) d.input_buffer) (drop (frame_bytes d) d.input_buffer) d
  unfolding next_frame
  next_frame-judge d = refl

  judge-input :
      (frame rest z : List ℕ) (d : Detector b.Memory)
      → judge frame z d ≡ result_with z (judge frame rest d)
  judge-input frame rest z d =
      let (p, memory) = b.speech_probability frame d.memory in
      process_frame-input frame p z (record d { input_buffer = rest; memory = memory })

  pub next_frame-fed :
      (y : List ℕ) (d : Detector b.Memory)
      → has_frame b d ≡ true
      → next_frame b (fed y d) ≡ ((next_frame b d).0, fed y (next_frame b d).1)
  next_frame-fed y d h =
      let n = frame_bytes d in
      let buffer = d.input_buffer in
      let enough : n ≤ length buffer = ground (arith, h) in
      let rest : (next_frame b d).1.input_buffer ≡ drop n buffer =
        ap (λ r. r.1.input_buffer)
          (next_frame-judge d ∙ judge-input (take n buffer) (drop n buffer) (drop n buffer) d) in
      next_frame-judge (fed y d)
      ∙ ap (λ t. judge t (drop n (buffer ++ y)) d) (take-append n buffer y enough)
      ∙ ap (λ t. judge (take n buffer) t d) (drop-append n buffer y enough)
      ∙ judge-input (take n buffer) (drop n buffer) (drop n buffer ++ y) d
      ∙ ap (result_with (drop n buffer ++ y)) (sym (next_frame-judge d))
      ∙ ap (λ t. ((next_frame b d).0, with_input (t ++ y) (next_frame b d).1)) (sym rest)

  pub next_frame-finalizing :
      (d : Detector b.Memory)
      → (next_frame b d).0.endpoint ≡ true
      → is_finalizing (next_frame b d).1.state ≡ true
  unfolding next_frame process_frame
  next_frame-finalizing d h =
      let frame = take (frame_bytes d) d.input_buffer in
      let (p, memory) = b.speech_probability frame d.memory in
      let d' : Detector b.Memory = record d {
        input_buffer = drop (frame_bytes d) d.input_buffer;
        memory = memory;
      } in
      process_in-finalizing d.state frame p d' h

  pub has_frame-fed :
      (y : List ℕ) (d : Detector b.Memory) → has_frame b d ≡ true → has_frame b (fed y d) ≡ true
  has_frame-fed y d h = ground (arith, h, length-append d.input_buffer y)
