-- ===== src/Vad/Examples.antt =====
-- The properties of app/asr_vad.py on a detector of two-sample frames with the energy backend.
use model_test.Prelude.{
  ℕ, ◌%◌, ◌≡◌, refl, ◌⊎◌, List, [], ◌∷◌, ◌++◌, true, false, length, ok, is_ok, arith,
}
use model_test.Vad.Frames.{VadBackend, Detector, FrameResult, in_speech, process_frame}
use model_test.Vad.Detector.{drain_complete_frames, add_audio, has_frame}
use model_test.Vad.Conservation.{DetectorIsValid, Flows, content}
use model_test.Vad.Flow.{process_frame-Flows, with_frame}
use model_test.Vad.Feed.{drain_complete_frames-Flows, add_audio-Flows}
use model_test.Vad.Pieces.{joined, audio_in_pieces}
use model_test.Vad.Pieces.Step.{fed}
use model_test.Vad.Machine.{Walks, drain_complete_frames-Walks}

abbrev energy : VadBackend
energy = record { Memory = Unit {0}; speech_probability = λ pcm u. (length pcm, u); clear = λ u. u }

abbrev detector : Detector (Unit {0})
detector = record {
  frame_samples = 2;
  onset_threshold = 1;
  offset_threshold = 1;
  min_speech_samples = 2;
  min_silence_samples = 2;
  hangover_samples = 1;
  pre_roll_samples = 2;
  state = in_speech;
  input_buffer = 1 ∷ 0 ∷ 2 ∷ 0 ∷ 3 ∷ 0 ∷ [];
  pre_roll = [];
  candidate = [];
  candidate_speech_samples = 0;
  trailing = [];
  memory = tt;
}

detector-IsValid : DetectorIsValid detector
detector-IsValid = ground arith

abbrev quiet_frame : List ℕ
quiet_frame = 0 ∷ 0 ∷ 0 ∷ 0 ∷ []

process_frame-Flows_example :
    Flows (with_frame quiet_frame detector) (process_frame quiet_frame 0 detector)
    × DetectorIsValid (process_frame quiet_frame 0 detector).1
process_frame-Flows_example = process_frame-Flows quiet_frame 0 detector detector-IsValid refl refl

drain_complete_frames-Flows_example :
    let r = drain_complete_frames energy detector in
    ((r.0.endpoint ≡ true) ⊎ (has_frame energy r.1 ≡ false))
    × DetectorIsValid r.1
    × Flows (content detector) r
drain_complete_frames-Flows_example =
    drain_complete_frames-Flows energy detector detector-IsValid (omega arith)

add_audio-Flows_example :
    (length quiet_frame % 2 ≡ 0
      → (r : FrameResult (Unit {0})) × (add_audio energy quiet_frame detector ≡ ok r)
        × DetectorIsValid r.1
        × Flows (content detector ++ quiet_frame) r)
    × (length quiet_frame % 2 ≡ 1 → is_ok (add_audio energy quiet_frame detector) ≡ false)
add_audio-Flows_example = add_audio-Flows energy quiet_frame detector detector-IsValid

drain_complete_frames-Walks_example : Walks in_speech (drain_complete_frames energy detector)
drain_complete_frames-Walks_example = drain_complete_frames-Walks energy detector refl

abbrev first_piece : FrameResult (Unit {0})
first_piece = drain_complete_frames energy (fed quiet_frame detector)

abbrev second_piece : FrameResult (Unit {0})
second_piece = drain_complete_frames energy (fed quiet_frame first_piece.1)

audio_in_pieces_example :
    add_audio energy (quiet_frame ++ quiet_frame) detector
    ≡ ok (joined first_piece.0 second_piece.0, second_piece.1)
unfolding add_audio
audio_in_pieces_example =
    audio_in_pieces energy quiet_frame quiet_frame detector first_piece second_piece
      detector-IsValid (omega arith) refl refl refl
