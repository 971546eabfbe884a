-- ===== src/Vad/Pieces.antt =====
-- The endpoint detector of app/asr_vad.py on audio that comes in pieces.
pub mod Step
use model_test.Prelude.{
  ℕ, zero, suc, ◌+◌, ◌*◌, ◌%◌, ◌≤◌, ◌<◌, ◌≡◌, refl, ap, sym, ◌∙◌, List, [], ◌++◌, if◌then◌else◌,
  Bool, true, false, ◌||◌, length, take, drop, subst, take-append, drop-append, append-nil,
  append_assoc, length-append, arith, Bool-cases, inl, inr, ok,
}
use model_test.Vad.Frames.{
  VadEndpointState, waiting_for_speech, speech_candidate, in_speech, trailing_silence, finalizing,
  VadBackend, VadDecision, empty_decision, Detector, FrameResult, is_finalizing, frame_bytes, join,
  process_frame, process_in, frame_in_waiting, frame_in_candidate, frame_in_speech,
  frame_in_trailing, check_silence, append_pre_roll,
}
use model_test.Vad.Detector.{
  next_frame, has_frame, then_drain, drain, drain_complete_frames, add_audio,
}
use model_test.Vad.Conservation.{DetectorIsValid}
use model_test.Vad.Drain.{fed-IsValid, drain-Drains, drain-stop, drain-step, next_frame-Drains}
use model_test.Vad.Pieces.Step.{
  with_input, fed, next_frame-fed, next_frame-finalizing, has_frame-fed,
}

-- A decision before another one on the audio that follows
abbrev pub joined : VadDecision → VadDecision → VadDecision
joined a b = record (join a b) { endpoint = a.endpoint || b.endpoint }

abbrev pub joined_result {ℓ} : {A : Type ℓ} → VadDecision → VadDecision × A → VadDecision × A
joined_result a (b, d) = (joined a b, d)

module _ (b : VadBackend) where
  -- A frame's result, with what the rest of the buffer gives unless the frame ends the audio
  abbrev after : FrameResult b.Memory → FrameResult b.Memory → FrameResult b.Memory
  after (r, d) (rest, d') = if r.endpoint then (r, d) else (join r rest, d')

  drain-after :
      (n : ℕ) (d : Detector b.Memory)
      → has_frame b d ≡ true
      → drain b (suc n) d ≡ after (next_frame b d) (drain b n (next_frame b d).1)
  unfolding then_drain
  drain-after n d h = drain-step b n d h

  -- With fuel for the whole buffer the loop gives the same.
  drain_fuel :
      (n m : ℕ) (d : Detector b.Memory)
      → DetectorIsValid d
      → 0 < d.frame_samples
      → length d.input_buffer ≤ n
      → length d.input_buffer ≤ m
      → drain b n d ≡ drain b m d
  unfolding drain
  drain_fuel zero zero d v p h k = refl
  drain_fuel zero (suc m) d v p h k = sym (drain-stop b m d (ground arith))
  drain_fuel (suc n) zero d v p h k = drain-stop b n d (ground arith)
  drain_fuel (suc n) (suc m) d v p h k = elim (Bool-cases (has_frame b d)) [
    | inl e ↦
        let (x, shrinks, same) = next_frame-Drains b d v e in
        let d' = (next_frame b d).1 in
        let rest =
          drain_fuel n m d' x.valid (omega (arith, same, p)) (omega (arith, shrinks, h, p))
            (omega (arith, shrinks, k, p)) in
        drain-after n d e ∙ ap (after (next_frame b d)) rest ∙ sym (drain-after m d e)
    | inr e ↦ drain-stop b n d e ∙ sym (drain-stop b m d e)
  ]

  joined_end :
      (r : VadDecision) (d : Detector b.Memory)
      → r.endpoint ≡ true
      → joined_result r (empty_decision, d) ≡ (r, d)
  joined_end r d h = ground (arith, h, append-nil r.audio_to_model, append-nil r.transitions)

  joined_next :
      (r s : VadDecision) (t : FrameResult b.Memory)
      → r.endpoint ≡ false
      → joined_result (join r s) t ≡ (join r (joined s t.0), t.1)
  joined_next r s t h = ground (
    arith,
    h,
    append_assoc r.audio_to_model s.audio_to_model t.0.audio_to_model,
    append_assoc r.transitions s.transitions t.0.transitions,
  )

  joined_empty : (t : FrameResult b.Memory) → joined_result empty_decision t ≡ t
  joined_empty t = ground arith

  after_end :
      (r : VadDecision) (d : Detector b.Memory) (t : FrameResult b.Memory)
      → r.endpoint ≡ true
      → after (r, d) t ≡ (r, d)
  after_end r d t h = rw h refl

  after_next :
      (r : VadDecision) (d : Detector b.Memory) (t : FrameResult b.Memory)
      → r.endpoint ≡ false
      → after (r, d) t ≡ (join r t.0, t.1)
  after_next r d t h = rw h refl

  drain-still :
      (n : ℕ) (d : Detector b.Memory) → has_frame b d ≡ false → drain b n d ≡ (empty_decision, d)
  drain-still zero d h = unfold drain in refl
  drain-still (suc n) d h = drain-stop b n d h

  module _ (m : ℕ) (y : List ℕ) where
    -- A result, then the loop on what it leaves with the audio
    abbrev then_fed : FrameResult b.Memory → FrameResult b.Memory
    then_fed t = joined_result t.0 (drain b m (fed y t.1))

    after-then_fed :
        (t u : FrameResult b.Memory)
        → (t.0.endpoint ≡ true → is_finalizing t.1.state ≡ true)
        → after (t.0, fed y t.1) (then_fed u) ≡ then_fed (after t u)
    after-then_fed (r, d) u f = elim (Bool-cases r.endpoint) [
      | inl e ↦
          let still = drain-still m (fed y d) (ground (arith, f e)) in
          after_end r (fed y d) (then_fed u) e
          ∙ sym (joined_end r (fed y d) e)
          ∙ ap (joined_result r) (sym still)
          ∙ ap then_fed (sym (after_end r d u e))
      | inr e ↦
          after_next r (fed y d) (then_fed u) e
          ∙ sym (joined_next r u.0 (drain b m (fed y u.1)) e)
          ∙ ap then_fed (sym (after_next r d u e))
    ]

    still-fed :
        (n k : ℕ) (d : Detector b.Memory)
        → DetectorIsValid d
        → length y % 2 ≡ 0
        → 0 < d.frame_samples
        → length d.input_buffer + length y ≤ m
        → length d.input_buffer + length y ≤ k
        → has_frame b d ≡ false
        → drain b k (fed y d) ≡ then_fed (drain b n d)
    still-fed n k d v q p i j e =
        drain_fuel k m (fed y d) (fed-IsValid b y d v q) p
          (omega (arith, j, length-append d.input_buffer y))
          (omega (arith, i, length-append d.input_buffer y))
        ∙ sym (joined_empty (drain b m (fed y d)))
        ∙ ap then_fed (sym (drain-still n d e))

    -- The loop on a buffer with more audio, against the loop on the buffer and then on what it leaves
    -- with the audio
    drain-fed :
        (n k : ℕ) (d : Detector b.Memory)
        → DetectorIsValid d
        → length y % 2 ≡ 0
        → 0 < d.frame_samples
        → length d.input_buffer ≤ n
        → length d.input_buffer + length y ≤ m
        → length d.input_buffer + length y ≤ k
        → drain b k (fed y d) ≡ then_fed (drain b n d)
    drain-fed zero k d v q p h i j = still-fed zero k d v q p i j (ground arith)
    drain-fed (suc n) zero d v q p h i j = still-fed (suc n) zero d v q p i j (ground arith)
    drain-fed (suc n) (suc k) d v q p h i j = elim (Bool-cases (has_frame b d)) [
      | inr e ↦ still-fed (suc n) (suc k) d v q p i j e
      | inl e ↦
          let (x, shrinks, same) = next_frame-Drains b d v e in
          let (r, d') = next_frame b d in
          let rest =
            drain-fed n k d' x.valid q (omega (arith, same, p)) (omega (arith, shrinks, h, p))
              (omega (arith, shrinks, i)) (omega (arith, shrinks, j, p)) in
          drain-after k (fed y d) (has_frame-fed b y d e)
          ∙ ap (λ t. after t (drain b k t.1)) (next_frame-fed b y d e)
          ∙ ap (after (r, fed y d')) rest
          ∙ after-then_fed (r, d') (drain b n d') (next_frame-finalizing b d)
          ∙ ap then_fed (sym (drain-after n d e))
    ]

  after-frame :
      (r t : FrameResult b.Memory)
      → t.1.frame_samples ≡ r.1.frame_samples
      → (after r t).1.frame_samples ≡ r.1.frame_samples
  after-frame r t h = ground (arith, h)

  drain-frame :
      (n : ℕ) (d : Detector b.Memory)
      → DetectorIsValid d
      → (drain b n d).1.frame_samples ≡ d.frame_samples
  drain-frame zero d v = unfold drain in refl
  drain-frame (suc n) d v = elim (Bool-cases (has_frame b d)) [
    | inr e ↦ ap (λ r. r.1.frame_samples) (drain-stop b n d e)
    | inl e ↦
        let (x, shrinks, same) = next_frame-Drains b d v e in
        let d' = (next_frame b d).1 in
        ap (λ r. r.1.frame_samples) (drain-after n d e)
        ∙ after-frame (next_frame b d) (drain b n d') (drain-frame n d' x.valid)
        ∙ same
  ]

  add_audio_ok :
      (z : List ℕ) (d : Detector b.Memory) (r : FrameResult b.Memory)
      → add_audio b z d ≡ ok r
      → (length z % 2 ≡ 0) × (drain_complete_frames b (fed z d) ≡ r)
  unfolding add_audio
  add_audio_ok z d r h = ground (arith, h)

  add_audio_even :
      (z : List ℕ) (d : Detector b.Memory)
      → length z % 2 ≡ 0
      → add_audio b z d ≡ ok (drain_complete_frames b (fed z d))
  unfolding add_audio
  add_audio_even z d h = rw (h, add_audio) refl

  -- Audio of whole samples that `add_audio` takes in two pieces gives what it gives in one: the same
  -- detector in the end, the audio, the transitions and the discarded samples of the first piece
  -- before those of the second, and an endpoint where either piece gives one.
  pub audio_in_pieces :
      (x y : List ℕ) (d : Detector b.Memory) (r₁ r₂ : FrameResult b.Memory)
      → DetectorIsValid d
      → 0 < d.frame_samples
      → length y % 2 ≡ 0
      → add_audio b x d ≡ ok r₁
      → add_audio b y r₁.1 ≡ ok r₂
      → add_audio b (x ++ y) d ≡ ok (joined r₁.0 r₂.0, r₂.1)
  unfolding drain_complete_frames
  audio_in_pieces x y d r₁ r₂ v p q h k =
      let (even, first) = add_audio_ok x d r₁ h in
      let second = (add_audio_ok y r₁.1 r₂ k).1 in
      let d₁ = fed x d in
      let n = length d₁.input_buffer in
      let w = fed-IsValid b x d v even in
      let left = fed y r₁.1 in
      let m = n + length y + length left.input_buffer in
      let whole = d.input_buffer ++ (x ++ y) in
      let valid : DetectorIsValid r₁.1 =
        subst (λ r. DetectorIsValid r.1) first (drain-Drains b n d₁ w).valid in
      let frame : r₁.1.frame_samples ≡ d.frame_samples =
        ap (λ r. r.1.frame_samples) (sym first) ∙ drain-frame n d₁ w in
      let again =
        drain_fuel m (length left.input_buffer) left (fed-IsValid b y r₁.1 valid q)
          (omega (arith, frame, p)) (omega arith) (omega arith) in
      let both = drain-fed m y n (length whole) d₁ w q p (omega arith) (omega arith) (
        omega (
          arith,
          length-append d.input_buffer x,
          length-append d.input_buffer (x ++ y),
          length-append x y,
        )) in
      let size : length (x ++ y) % 2 ≡ 0 = omega (arith, even, q, length-append x y) in
      let one_run =
        ap (λ z. drain b (length whole) (with_input z d)) (sym (append_assoc d.input_buffer x y))
        ∙ both
        ∙ ap (then_fed m y) first
        ∙ ap (joined_result r₁.0) (again ∙ second) in
      add_audio_even (x ++ y) d size ∙ ap ok one_run
