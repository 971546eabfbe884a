-- ===== src/Vad/Feed.antt =====
-- The bytes that the methods of the endpoint detector of app/asr_vad.py take in, in order.
use model_test.Prelude.{
  ℕ, zero, suc, ◌%◌, ◌<◌, ◌≡◌, refl, sym, ap, subst, ◌∙◌, ◌⊎◌, List, [], ◌++◌, true, false, length,
  take, drop, length-append, length-take, length-drop, arith, append_assoc, take-append-drop,
  Bool-cases, inl, inr, ok, is_ok,
}
use model_test.Vad.Frames.{VadBackend, empty_decision, Detector, FrameResult, frame_bytes, join}
use model_test.Vad.Detector.{
  next_frame, has_frame, then_drain, drain, drain_complete_frames, add_audio,
}
use model_test.Vad.Conservation.{
  DetectorIsValid, Parts-append, Parts-dropped, content, Flows, read-IsValid,
}
use model_test.Vad.Flow.{if-Flows, with_frame, process_frame-Flows, Flows-at}
use model_test.Vad.Drain.{
  drain-Drains, drain-stop, drain-step, next_frame-Drains, drain_complete_frames-Drains,
  add_audio-Drains, fed-IsValid,
}

module _ {M : Type 0} where
  joined-Flows :
      (stream : List ℕ) (r : FrameResult M) (t : FrameResult M)
      → Flows stream r
      → Flows (content r.1) t
      → Flows stream (join r.0 t.0, t.1)
  joined-Flows stream r t f g = record {
    taken = f.taken ++ g.taken;
    gone = f.gone ++ g.gone;
    parts = Parts-append f.parts g.parts;
    counted = omega (arith, f.counted, g.counted, length-append f.gone g.gone);
    rest =
        f.rest ∙ ap (λ x. f.taken ++ x) g.rest ∙ sym (append_assoc f.taken g.taken (content t.1));
  }

  still-Flows : (d : Detector M) → Flows (content d) (empty_decision, d)
  still-Flows d = record {
    taken = [];
    gone = [];
    parts = Parts-dropped [];
    counted = omega arith;
    rest = refl;
  }

module _ (b : VadBackend) where
  next_frame-Flows :
      (d : Detector b.Memory)
      → DetectorIsValid d
      → has_frame b d ≡ true
      → Flows (content d) (next_frame b d)
  unfolding next_frame
  next_frame-Flows d v h =
      let n = frame_bytes d in
      let frame = take n d.input_buffer in
      let (p, memory) = b.speech_probability frame d.memory in
      let d' : Detector b.Memory = record d {
        input_buffer = drop n d.input_buffer;
        memory = memory;
      } in
      let even : length frame % 2 ≡ 0 = ground (arith, length-take n d.input_buffer, h) in
      let v' =
        read-IsValid d (drop n d.input_buffer) memory v
          (ground (arith, v.input, length-drop n d.input_buffer, h)) in
      Flows-at (content d) (with_frame frame d') (next_frame b d)
        (ap (λ x. d.pre_roll ++ (d.candidate ++ (d.trailing ++ x)))
          (sym (take-append-drop n d.input_buffer)))
        (process_frame-Flows frame p d' v' (ground (arith, h)) even).0

  then_drain-Flows :
      (go_on : Detector b.Memory → FrameResult b.Memory) (stream : List ℕ)
      (r : FrameResult b.Memory)
      → Flows stream r
      → Flows (content r.1) (go_on r.1)
      → Flows stream (then_drain b go_on r)
  unfolding then_drain
  then_drain-Flows go_on stream (r, d) f g =
      if-Flows r.endpoint stream (r, d) _ f (joined-Flows stream (r, d) (go_on d) f g)

  drain-Flows :
      (fuel : ℕ) (d : Detector b.Memory) → DetectorIsValid d → Flows (content d) (drain b fuel d)
  drain-Flows zero d v = unfold drain in still-Flows d
  drain-Flows (suc fuel) d v = elim (Bool-cases (has_frame b d)) [
    | inr h ↦ rw (drain-stop b fuel d h) (still-Flows d)
    | inl h ↦ rw (drain-step b fuel d h) (
        then_drain-Flows (drain b fuel) (content d) (next_frame b d) (next_frame-Flows d v h)
          (drain-Flows fuel (next_frame b d).1 (next_frame-Drains b d v h).0.valid))
  ]

  -- On a valid detector with a positive frame size the loop's fuel is enough: it ends at an
  -- endpoint, or where the detector waits to be finalized or holds no complete frame, and the
  -- detector is valid then. Of the pending bytes and the input, in order, some are taken from the
  -- front; each of them, in order, goes to the model or is discarded, as many as are counted; and the
  -- others are, in order, the pending bytes and the input that are left.
  pub drain_complete_frames-Flows :
      (d : Detector b.Memory)
      → DetectorIsValid d
      → 0 < d.frame_samples
      → let r = drain_complete_frames b d in
        ((r.0.endpoint ≡ true) ⊎ (has_frame b r.1 ≡ false))
        × DetectorIsValid r.1
        × Flows (content d) r
  drain_complete_frames-Flows d v p =
      let (ended, x) = drain_complete_frames-Drains b d v p in
      (ended, x.valid, unfold drain_complete_frames in drain-Flows (length d.input_buffer) d v)

  content-fed :
      (pcm : List ℕ) (d : Detector b.Memory)
      → content (record d { input_buffer = d.input_buffer ++ pcm }) ≡ content d ++ pcm
  content-fed pcm d =
      let end = d.input_buffer in
      ap (λ x. d.pre_roll ++ (d.candidate ++ x)) (sym (append_assoc d.trailing end pcm))
      ∙ ap (λ x. d.pre_roll ++ x) (sym (append_assoc d.candidate (d.trailing ++ end) pcm))
      ∙ sym (append_assoc d.pre_roll (d.candidate ++ (d.trailing ++ end)) pcm)

  -- Whole samples are accepted: of the bytes pending, the input and then the given bytes, in order,
  -- some are taken from the front; each of them, in order, goes to the model or is discarded, as many
  -- as are counted; and the others are, in order, those held afterwards, in a valid detector. An odd
  -- number of bytes is refused.
  pub add_audio-Flows :
      (pcm : List ℕ) (d : Detector b.Memory)
      → DetectorIsValid d
      → (length pcm % 2 ≡ 0
          → (r : FrameResult b.Memory) × (add_audio b pcm d ≡ ok r)
            × DetectorIsValid r.1
            × Flows (content d ++ pcm) r)
        × (length pcm % 2 ≡ 1 → is_ok (add_audio b pcm d) ≡ false)
  unfolding drain_complete_frames
  add_audio-Flows pcm d v = (
    λ e.
        let fed : Detector b.Memory = record d { input_buffer = d.input_buffer ++ pcm } in
        let w = fed-IsValid b pcm d v e in
        let r = drain_complete_frames b fed in
        (
          r,
          unfold add_audio in rw (e, add_audio) refl,
          (drain-Drains b (length fed.input_buffer) fed w).valid,
          subst (λ s. Flows s r) (content-fed pcm d) (drain-Flows (length fed.input_buffer) fed w),
        ),
    (add_audio-Drains b pcm d v).1,
  )
