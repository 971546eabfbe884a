-- ===== src/Vad/Drain.antt =====
-- The methods of the endpoint detector of app/asr_vad.py: the numbers of bytes in and out, and
-- the end of the loop over the frames.
use model_test.Prelude.{
  ℕ, zero, suc, ◌+◌, ◌*◌, ◌%◌, ◌≤◌, ◌<◌, ◌≡◌, refl, ◌⊎◌, List, ◌++◌, true, false, length, take,
  drop, length-append, length-take, length-drop, arith, Bool-cases, inl, inr, ok, is_ok,
}
use model_test.Vad.Frames.{
  VadBackend, empty_decision, Detector, FrameResult, is_finalizing, frame_bytes,
}
use model_test.Vad.Detector.{
  next_frame, has_frame, then_drain, drain, drain_complete_frames, add_audio,
}
use model_test.Vad.Conservation.{DetectorIsValid, pending, process_frame-Conserves, read-IsValid}

module _ {M : Type 0} where
  -- All bytes in the detector
  abbrev pub held : Detector M → ℕ
  held d = pending d + length d.input_buffer

  -- What `n` new bytes and those held come to.
  pub record Drains (n : ℕ) (d : Detector M) (r : FrameResult M) : Type 0 where
    pub total : length r.0.audio_to_model + 2 * r.0.discarded_samples + held r.1 ≡ n + held d
    pub valid : DetectorIsValid r.1
    pub whole : length r.0.audio_to_model % 2 ≡ 0

module _ (b : VadBackend) where
  pub next_frame-Drains :
      (d : Detector b.Memory)
      → DetectorIsValid d
      → has_frame b d ≡ true
      → Drains 0 d (next_frame b d)
        × (length (next_frame b d).1.input_buffer + frame_bytes d ≡ length d.input_buffer)
        × ((next_frame b d).1.frame_samples ≡ d.frame_samples)
  unfolding next_frame
  next_frame-Drains d v h =
      let frame = take (frame_bytes d) d.input_buffer in
      let (p, memory) = b.speech_probability frame d.memory in
      let d' : Detector b.Memory = record d {
        input_buffer = drop (frame_bytes d) d.input_buffer;
        memory = memory;
      } in
      let cut = length-take (frame_bytes d) d.input_buffer in
      let left = length-drop (frame_bytes d) d.input_buffer in
      let v' =
        read-IsValid d (drop (frame_bytes d) d.input_buffer) memory v (ground (arith, v.input)) in
      let live : is_finalizing d.state ≡ false = ground arith in
      let size : length frame ≡ frame_bytes d = ground arith in
      let even : length frame % 2 ≡ 0 = omega arith in
      let c = process_frame-Conserves frame p d' v' live even in
      (
        record { total = ground (arith, c.total, c.unread); valid = c.valid; whole = c.whole },
        ground (arith, c.unread),
        c.frame,
      )

  pub drain-stop :
      (fuel : ℕ) (d : Detector b.Memory)
      → has_frame b d ≡ false
      → drain b (suc fuel) d ≡ (empty_decision, d)
  unfolding drain
  drain-stop fuel d h = rw (h, drain)

  pub drain-step :
      (fuel : ℕ) (d : Detector b.Memory)
      → has_frame b d ≡ true
      → drain b (suc fuel) d ≡ then_drain b (drain b fuel) (next_frame b d)
  unfolding drain
  drain-step fuel d h = rw (h, drain)

  stay-Drains : (d : Detector b.Memory) → DetectorIsValid d → Drains 0 d (empty_decision, d)
  stay-Drains d v = record { total = omega arith; valid = v; whole = omega arith }

  then_drain-Drains :
      (go_on : Detector b.Memory → FrameResult b.Memory) (d : Detector b.Memory)
      (r : FrameResult b.Memory)
      → Drains 0 d r
      → Drains 0 r.1 (go_on r.1)
      → Drains 0 d (then_drain b go_on r)
  unfolding then_drain
  then_drain-Drains go_on d r x y = ground (
    arith,
    x.total,
    x.valid,
    x.whole,
    y.total,
    y.valid,
    y.whole,
    length-append r.0.audio_to_model (go_on r.1).0.audio_to_model,
  )

  pub drain-Drains :
      (fuel : ℕ) (d : Detector b.Memory) → DetectorIsValid d → Drains 0 d (drain b fuel d)
  drain-Drains zero d v = unfold drain in stay-Drains d v
  drain-Drains (suc fuel) d v = elim (Bool-cases (has_frame b d)) [
    | inl h ↦
        let x = (next_frame-Drains d v h).0 in
        rw (drain-step fuel d h) (
          then_drain-Drains (drain b fuel) d (next_frame b d) x
            (drain-Drains fuel (next_frame b d).1 x.valid))
    | inr h ↦ rw (drain-stop fuel d h) (stay-Drains d v)
  ]

  abbrev Ended : FrameResult b.Memory → Type 0
  Ended r = (r.0.endpoint ≡ true) ⊎ (has_frame b r.1 ≡ false)

  then_drain-Ended :
      (go_on : Detector b.Memory → FrameResult b.Memory) (r : FrameResult b.Memory)
      → Ended (go_on r.1)
      → Ended (then_drain b go_on r)
  unfolding then_drain
  then_drain-Ended go_on r h = elim (Bool-cases r.0.endpoint) [
    | inl e ↦ inl (ground arith)
    | inr e ↦ ground arith
  ]

  drain-Ended :
      (fuel : ℕ) (d : Detector b.Memory)
      → DetectorIsValid d
      → 0 < d.frame_samples
      → length d.input_buffer ≤ fuel
      → Ended (drain b fuel d)
  drain-Ended zero d v p h = unfold drain in inr (ground arith)
  drain-Ended (suc fuel) d v p h = elim (Bool-cases (has_frame b d)) [
    | inl e ↦
        let (x, shrinks, same) = next_frame-Drains d v e in
        rw (drain-step fuel d e) (
          then_drain-Ended (drain b fuel) (next_frame b d)
            (drain-Ended fuel (next_frame b d).1 x.valid (omega arith) (omega arith)))
    | inr e ↦ rw (drain-stop fuel d e) (inr e)
  ]

  -- On a valid detector with a positive frame size the loop's fuel is enough: it ends at an
  -- endpoint, or where the detector waits to be finalized or holds no complete frame. As many
  -- bytes went to the model, were discarded or are held then as were held before.
  pub drain_complete_frames-Drains :
      (d : Detector b.Memory)
      → DetectorIsValid d
      → 0 < d.frame_samples
      → let r = drain_complete_frames b d in
        ((r.0.endpoint ≡ true) ⊎ (has_frame b r.1 ≡ false)) × Drains 0 d r
  unfolding drain_complete_frames
  drain_complete_frames-Drains d v p = (
    drain-Ended (length d.input_buffer) d v p (omega arith),
    drain-Drains (length d.input_buffer) d v,
  )

  pub fed-IsValid :
      (pcm : List ℕ) (d : Detector b.Memory)
      → DetectorIsValid d
      → length pcm % 2 ≡ 0
      → DetectorIsValid (record d { input_buffer = d.input_buffer ++ pcm })
  fed-IsValid pcm d v e =
      let even : length (d.input_buffer ++ pcm) % 2 ≡ 0 =
        omega (arith, length-append d.input_buffer pcm, v.input) in
      read-IsValid d (d.input_buffer ++ pcm) d.memory v even

  fed-Drains :
      (pcm : List ℕ) (d : Detector b.Memory)
      → DetectorIsValid d
      → length pcm % 2 ≡ 0
      → Drains
          (length pcm)
          d
          (drain_complete_frames b (record d { input_buffer = d.input_buffer ++ pcm }))
  unfolding drain_complete_frames
  fed-Drains pcm d v e =
      let d' : Detector b.Memory = record d { input_buffer = d.input_buffer ++ pcm } in
      let x = drain-Drains (length d'.input_buffer) d' (fed-IsValid pcm d v e) in
      record {
        total = omega (arith, x.total, length-append d.input_buffer pcm);
        valid = x.valid;
        whole = x.whole;
      }

  -- Whole samples are accepted: as many go to the model, are discarded or are held after `add_audio`
  -- as were given and were held before. An odd number of bytes is refused.
  pub add_audio-Drains :
      (pcm : List ℕ) (d : Detector b.Memory)
      → DetectorIsValid d
      → (length pcm % 2 ≡ 0
          → (r : FrameResult b.Memory) × (add_audio b pcm d ≡ ok r) × Drains (length pcm) d r)
        × (length pcm % 2 ≡ 1 → is_ok (add_audio b pcm d) ≡ false)
  unfolding add_audio
  add_audio-Drains pcm d v = (
    λ e. (
      drain_complete_frames b (record d { input_buffer = d.input_buffer ++ pcm }),
      rw (e, add_audio) refl,
      fed-Drains pcm d v e,
    ),
    λ e. rw (e, add_audio) refl,
  )
