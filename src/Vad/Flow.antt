-- ===== src/Vad/Flow.antt =====
-- The bytes in the endpoint detector of app/asr_vad.py, in order: each goes to the model, is
-- discarded, or is still held.
use model_test.Prelude.{
  ℕ, ◌+◌, ◌-◌, ◌*◌, ◌%◌, ◌≡◌, refl, sym, subst, ap₂, if◌then◌else◌, ap, ◌∙◌, List, [], ◌∷◌, ◌++◌,
  true, false, Bool, min, length, take, drop, length-append, length-take, length-drop, arith,
  append_assoc, take-append-drop, leb, ltb, ◌/◌,
}
use model_test.Vad.Frames.{
  VadEndpointState, waiting_for_speech, speech_candidate, in_speech, trailing_silence, finalizing,
  Transition, Detector, FrameResult, is_finalizing, process_frame, process_in, frame_in_waiting,
  frame_in_candidate, frame_in_speech, frame_in_trailing, check_silence, append_pre_roll,
}
use model_test.Vad.Frames.{frame_result}
use model_test.Vad.Conservation.{
  process_frame-Conserves, DetectorIsValid, Idle, Parts-sent, Parts-dropped, Parts-sent_dropped,
  content, Flows,
}

module _ {M : Type 0} where
  -- All goes on to be held.
  held_on :
      (stream : List ℕ) (ts : List Transition) (d : Detector M)
      → stream ≡ content d
      → Flows stream (frame_result [] false 0 ts d)
  held_on stream ts d e = record {
    taken = [];
    gone = [];
    parts = Parts-sent [];
    counted = omega arith;
    rest = e;
  }

  -- The audio goes to the model.
  sent_on :
      (stream audio : List ℕ) (ts : List Transition) (d : Detector M)
      → stream ≡ audio ++ content d
      → Flows stream (frame_result audio false 0 ts d)
  sent_on stream audio ts d e = record {
    taken = audio;
    gone = [];
    parts = Parts-sent audio;
    counted = omega arith;
    rest = e;
  }

  -- The audio is appended to the pre-roll, whose front goes.
  rolled_on :
      (audio : List ℕ) (ts : List Transition) (d d' : Detector M)
      → length (d.pre_roll ++ audio) % 2 ≡ 0
      → content d' ≡ (append_pre_roll audio d).1.pre_roll ++ d.input_buffer
      → Flows
          (d.pre_roll ++ (audio ++ d.input_buffer))
          (frame_result [] false (append_pre_roll audio d).0 ts d')
  unfolding append_pre_roll
  rolled_on audio ts d d' h e =
      let joined = d.pre_roll ++ audio in
      let over = length joined - d.pre_roll_samples * 2 in
      record {
        taken = take over joined;
        gone = take over joined;
        parts = Parts-dropped (take over joined);
        counted = omega (arith, h, length-take over joined);
        rest =
            sym (append_assoc d.pre_roll audio d.input_buffer)
            ∙ ap (λ t. t ++ d.input_buffer) (sym (take-append-drop over joined))
            ∙ append_assoc (take over joined) (drop over joined) d.input_buffer
            ∙ ap (λ t. take over joined ++ t) (sym e);
      }

  pub if-Flows :
      (test : Bool) (stream : List ℕ) (x y : FrameResult M)
      → Flows stream x
      → Flows stream y
      → Flows stream (if test then x else y)
  if-Flows true stream x y f g = f
  if-Flows false stream x y f g = g

  -- What is held, and a frame before the rest of the input
  abbrev pub with_frame : List ℕ → Detector M → List ℕ
  with_frame frame d = d.pre_roll ++ (d.candidate ++ (d.trailing ++ (frame ++ d.input_buffer)))

  pub Flows-at : (s t : List ℕ) (r : FrameResult M) → s ≡ t → Flows t r → Flows s r
  Flows-at s t r e f = subst (λ x. Flows x r) (sym e) f

  waiting-Flows :
      (frame : List ℕ) (p : ℕ) (d : Detector M)
      → DetectorIsValid d
      → d.state ≡ waiting_for_speech
      → length frame % 2 ≡ 0
      → Flows (with_frame frame d) (frame_in_waiting frame p d)
  unfolding frame_in_waiting append_pre_roll
  waiting-Flows frame p d v e h =
      let (c, t) = subst (λ s. Idle s d) e v.idle in
      let stream = d.pre_roll ++ (frame ++ d.input_buffer) in
      let begun : Detector M = record d {
        candidate = d.pre_roll ++ frame;
        pre_roll = [];
        candidate_speech_samples = d.frame_samples;
        state = speech_candidate;
      } in
      let started : List Transition = (waiting_for_speech, speech_candidate) ∷ [] in
      let front = sym (append_assoc d.pre_roll frame d.input_buffer) in
      let size : length (d.pre_roll ++ frame) % 2 ≡ 0 =
        omega (arith, v.rolled, h, length-append d.pre_roll frame) in
      Flows-at (with_frame frame d) stream (frame_in_waiting frame p d)
        (ap₂ (λ x y. d.pre_roll ++ (x ++ (y ++ (frame ++ d.input_buffer)))) c t)
        (if-Flows (leb d.onset_threshold p) stream _ _
          (if-Flows (leb d.min_speech_samples d.frame_samples) stream _ _
            (sent_on stream (d.pre_roll ++ frame) (started ++ (speech_candidate, in_speech) ∷ [])
              (record begun { state = in_speech; candidate = []; candidate_speech_samples = 0 })
              (front ∙ ap (λ x. (d.pre_roll ++ frame) ++ (x ++ d.input_buffer)) (sym t)))
            (held_on stream started begun
              (front ∙ ap (λ x. (d.pre_roll ++ frame) ++ (x ++ d.input_buffer)) (sym t))))
          (rolled_on frame [] d (append_pre_roll frame d).1 size (
            ap₂ (λ x y. (append_pre_roll frame d).1.pre_roll ++ (x ++ (y ++ d.input_buffer))) c t)))

  candidate-Flows :
      (frame : List ℕ) (p : ℕ) (d : Detector M)
      → DetectorIsValid d
      → d.state ≡ speech_candidate
      → length frame % 2 ≡ 0
      → Flows (with_frame frame d) (frame_in_candidate frame p d)
  unfolding frame_in_candidate append_pre_roll
  candidate-Flows frame p d v e h =
      let (r, t) = subst (λ s. Idle s d) e v.idle in
      let audio = d.candidate ++ frame in
      let stream = audio ++ d.input_buffer in
      let longer : Detector M = record d {
        candidate = audio;
        candidate_speech_samples = d.candidate_speech_samples + d.frame_samples;
      } in
      let rolled = append_pre_roll audio d in
      let front : with_frame frame d ≡ stream =
        ap₂ (λ x y. x ++ (d.candidate ++ (y ++ (frame ++ d.input_buffer)))) r t
        ∙ sym (append_assoc d.candidate frame d.input_buffer) in
      let kept : stream ≡ d.pre_roll ++ (audio ++ (d.trailing ++ d.input_buffer)) =
        ap₂ (λ x y. x ++ (audio ++ (y ++ d.input_buffer))) (sym r) (sym t) in
      let size : length (d.pre_roll ++ audio) % 2 ≡ 0 = omega (
        arith,
        v.rolled,
        v.candidates,
        h,
        length-append d.pre_roll audio,
        length-append d.candidate frame,
      ) in
      Flows-at (with_frame frame d) stream (frame_in_candidate frame p d) front (
        if-Flows (leb d.offset_threshold p) stream _ _
          (if-Flows (leb d.min_speech_samples longer.candidate_speech_samples) stream _ _
            (sent_on stream audio ((speech_candidate, in_speech) ∷ [])
              (record longer { state = in_speech; candidate = []; candidate_speech_samples = 0 })
              (ap₂ (λ x y. audio ++ (x ++ (y ++ d.input_buffer))) (sym r) (sym t)))
            (held_on stream [] longer kept))
          (Flows-at stream (d.pre_roll ++ (audio ++ d.input_buffer)) _
            (ap (λ x. x ++ (audio ++ d.input_buffer)) (sym r))
            (rolled_on audio ((speech_candidate, waiting_for_speech) ∷ []) d
              (record rolled.1 {
                candidate = [];
                candidate_speech_samples = 0;
                state = waiting_for_speech;
              })
              size (ap (λ y. rolled.1.pre_roll ++ (y ++ d.input_buffer)) t))))

  check_silence-Flows :
      (d : Detector M) (before : List Transition)
      → DetectorIsValid d
      → d.state ≡ trailing_silence
      → Flows (content d) (check_silence before d)
  unfolding check_silence append_pre_roll
  check_silence-Flows d before v e =
      let (r, c) = subst (λ s. Idle s d) e v.idle in
      let keep = min (length d.trailing) (d.hangover_samples * 2) in
      let left = drop keep d.trailing in
      let over = length left - d.pre_roll_samples * 2 in
      if-Flows (ltb (length d.trailing / 2) d.min_silence_samples) (content d) _ _
        (held_on (content d) before d refl)
        (record {
          taken = take keep d.trailing ++ take over left;
          gone = take over left;
          parts = Parts-sent_dropped (take keep d.trailing) (take over left);
          counted = omega (arith, v.trailed, length-take over left, length-drop keep d.trailing);
          rest =
              ap₂ (λ x y. x ++ (y ++ (d.trailing ++ d.input_buffer))) r c
              ∙ ap (λ t. t ++ d.input_buffer) (sym (take-append-drop keep d.trailing))
              ∙ ap (λ t. (take keep d.trailing ++ t) ++ d.input_buffer)
                  (sym (take-append-drop over left))
              ∙ ap (λ t. t ++ d.input_buffer)
                  (sym (append_assoc (take keep d.trailing) (take over left) (drop over left)))
              ∙ append_assoc (take keep d.trailing ++ take over left) (drop over left)
                  d.input_buffer
              ∙ ap
                  (λ x.
                    (take keep d.trailing ++ take over left)
                    ++ (drop over left ++ (x ++ d.input_buffer)))
                  (sym c);
        })

  speech-Flows :
      (frame : List ℕ) (p : ℕ) (d : Detector M)
      → DetectorIsValid d
      → d.state ≡ in_speech
      → length frame % 2 ≡ 0
      → Flows (with_frame frame d) (frame_in_speech frame p d)
  unfolding frame_in_speech
  speech-Flows frame p d v e h =
      let (r, c, t) = subst (λ s. Idle s d) e v.idle in
      let silent : Detector M = record d { trailing = frame; state = trailing_silence } in
      let silent-IsValid : DetectorIsValid silent = ground (arith, v, e, v.idle) in
      let stream = frame ++ d.input_buffer in
      let front : with_frame frame d ≡ content silent =
        ap (λ x. d.pre_roll ++ (d.candidate ++ (x ++ stream))) t in
      let whole : content silent ≡ frame ++ content d =
        ap₂ (λ x y. x ++ (y ++ stream)) r c
        ∙ ap (λ x. frame ++ x)
            (ap₂ (λ x y. x ++ (y ++ d.input_buffer)) (sym r) (sym c)
              ∙ ap (λ z. d.pre_roll ++ (d.candidate ++ (z ++ d.input_buffer))) (sym t)) in
      Flows-at (with_frame frame d) (content silent) (frame_in_speech frame p d) front (
        if-Flows (leb d.offset_threshold p) (content silent) _ _
          (sent_on (content silent) frame [] d whole)
          (check_silence-Flows silent ((in_speech, trailing_silence) ∷ []) silent-IsValid refl))

  trailing-Flows :
      (frame : List ℕ) (p : ℕ) (d : Detector M)
      → DetectorIsValid d
      → d.state ≡ trailing_silence
      → length frame % 2 ≡ 0
      → Flows (with_frame frame d) (frame_in_trailing frame p d)
  unfolding frame_in_trailing
  trailing-Flows frame p d v e h =
      let (r, c) = subst (λ s. Idle s d) e v.idle in
      let audio = d.trailing ++ frame in
      let silent : Detector M = record d { trailing = audio } in
      let silent-IsValid : DetectorIsValid silent =
        ground (arith, v, e, v.idle, length-append d.trailing frame) in
      let front : with_frame frame d ≡ content silent =
        ap (λ x. d.pre_roll ++ (d.candidate ++ x))
          (sym (append_assoc d.trailing frame d.input_buffer)) in
      let whole : content silent ≡ audio ++ (d.pre_roll ++ (d.candidate ++ d.input_buffer)) =
        ap₂ (λ x y. x ++ (y ++ (audio ++ d.input_buffer))) r c
        ∙ ap₂ (λ x y. audio ++ (x ++ (y ++ d.input_buffer))) (sym r) (sym c) in
      Flows-at (with_frame frame d) (content silent) (frame_in_trailing frame p d) front (
        if-Flows (leb d.offset_threshold p) (content silent) _ _
          (sent_on (content silent) audio ((trailing_silence, in_speech) ∷ [])
            (record d { trailing = []; state = in_speech }) whole)
          (check_silence-Flows silent [] silent-IsValid e))

  process_in-Flows :
      (s : VadEndpointState) (frame : List ℕ) (p : ℕ) (d : Detector M)
      → DetectorIsValid d
      → d.state ≡ s
      → is_finalizing s ≡ false
      → length frame % 2 ≡ 0
      → Flows (with_frame frame d) (process_in s frame p d)
  unfolding process_in
  process_in-Flows waiting_for_speech frame p d v e n h = waiting-Flows frame p d v e h
  process_in-Flows speech_candidate frame p d v e n h = candidate-Flows frame p d v e h
  process_in-Flows in_speech frame p d v e n h = speech-Flows frame p d v e h
  process_in-Flows trailing_silence frame p d v e n h = trailing-Flows frame p d v e h
  process_in-Flows finalizing frame p d v e n h = cc

  -- One frame of whole samples, whatever the probability, where the detector does not wait to be
  -- finalized. Of the pending bytes, the frame and the input behind it, in this order: some are taken
  -- from the front; each of them, in order, goes to the model or is discarded, as many as are
  -- counted; and the others are, in order, the pending bytes and the input afterwards.
  pub process_frame-Flows :
      (frame : List ℕ) (p : ℕ) (d : Detector M)
      → DetectorIsValid d
      → is_finalizing d.state ≡ false
      → length frame % 2 ≡ 0
      → Flows (with_frame frame d) (process_frame frame p d)
        × DetectorIsValid (process_frame frame p d).1
  unfolding process_frame
  process_frame-Flows frame p d v n h = (
    process_in-Flows d.state frame p d v refl n h,
    (process_frame-Conserves frame p d v n h).valid,
  )
