-- ===== src/Vad/Machine.antt =====
-- The state machine of the endpoint detector of app/asr_vad.py: the transitions a decision reports
-- are a walk along the machine's edges.
use model_test.Prelude.{
  ℕ, zero, suc, ◌≡◌, refl, List, [], ◌∷◌, ◌++◌, Bool, true, false, length, take, drop, arith,
  Bool-cases, inl, inr, subst, sym,
}
use model_test.Vad.Frames.{
  VadEndpointState, waiting_for_speech, speech_candidate, in_speech, trailing_silence, finalizing,
  Transition, VadBackend, Detector, FrameResult, is_finalizing, frame_bytes, process_frame,
  process_in, frame_in_waiting, frame_in_candidate, frame_in_speech, frame_in_trailing,
  check_silence, append_pre_roll, frame_result,
}
use model_test.Vad.Detector.{next_frame, has_frame, then_drain, drain, drain_complete_frames}
use model_test.Vad.Drain.{drain-stop, drain-step}

-- The edges of the machine that a frame can take
unfoldable pub is_edge : VadEndpointState → VadEndpointState → Bool
is_edge waiting_for_speech speech_candidate = true
is_edge speech_candidate in_speech = true
is_edge speech_candidate waiting_for_speech = true
is_edge in_speech trailing_silence = true
is_edge trailing_silence in_speech = true
is_edge trailing_silence finalizing = true
is_edge _ _ = false

-- A walk from a state to another, by the transitions of the list in turn
pub data Walk : VadEndpointState → List Transition → VadEndpointState → Type 0 where
  stay : {s : VadEndpointState} → Walk s [] s
  move :
      {s t u : VadEndpointState}
      → {rest : List Transition} → is_edge s t ≡ true
      → Walk t rest u
      → Walk s ((s, t) ∷ rest) u

Walk-append :
    {s t u : VadEndpointState} {xs ys : List Transition}
    → Walk s xs t
    → Walk t ys u
    → Walk s (xs ++ ys) u
Walk-append stay w = w
Walk-append (move e v) w = move e (Walk-append v w)

edge : (s t : VadEndpointState) → is_edge s t ≡ true → Walk s ((s, t) ∷ []) t
edge s t e = move e stay

module _ {M : Type 0} where
  -- The decision's transitions walk from `s` to the state of the detector, which is finalizing at
  -- an endpoint and nowhere else.
  abbrev pub Walks : VadEndpointState → FrameResult M → Type 0
  Walks s r = Walk s r.0.transitions r.1.state × (is_finalizing r.1.state ≡ r.0.endpoint)

  quiet-Walks :
      (s : VadEndpointState) (audio : List ℕ) (n : ℕ) (d : Detector M)
      → d.state ≡ s
      → is_finalizing s ≡ false
      → Walks s (frame_result audio false n [] d)
  quiet-Walks s audio n d e f =
      (subst (λ t. Walk s [] t) (sym e) stay, subst (λ t. is_finalizing t ≡ false) (sym e) f)

  check_silence-Walks :
      (d : Detector M) (s : VadEndpointState) (before : List Transition)
      → Walk s before trailing_silence
      → d.state ≡ trailing_silence
      → Walks s (check_silence before d)
  unfolding check_silence append_pre_roll is_edge
  check_silence-Walks d s before w e =
      let here : Walk s before d.state = subst (λ t. Walk s before t) (sym e) w in
      let last : is_edge d.state finalizing ≡ true = rw e refl in
      let on : Walk s (before ++ (d.state, finalizing) ∷ []) finalizing =
        Walk-append here (edge d.state finalizing last) in
      ground arith

  waiting-Walks :
      (frame : List ℕ) (p : ℕ) (d : Detector M)
      → d.state ≡ waiting_for_speech
      → Walks waiting_for_speech (frame_in_waiting frame p d)
  unfolding frame_in_waiting append_pre_roll is_edge
  waiting-Walks frame p d e =
      let begins = edge waiting_for_speech speech_candidate refl in
      let both = Walk-append begins (edge speech_candidate in_speech refl) in
      let q = stay {s = waiting_for_speech} in ground arith

  candidate-Walks :
      (frame : List ℕ) (p : ℕ) (d : Detector M)
      → d.state ≡ speech_candidate
      → Walks speech_candidate (frame_in_candidate frame p d)
  unfolding frame_in_candidate append_pre_roll is_edge
  candidate-Walks frame p d e =
      let drops = edge speech_candidate waiting_for_speech refl in
      let speaks = edge speech_candidate in_speech refl in
      let q = stay {s = speech_candidate} in ground arith

  speech-Walks :
      (frame : List ℕ) (p : ℕ) (d : Detector M)
      → d.state ≡ in_speech
      → Walks in_speech (frame_in_speech frame p d)
  unfolding frame_in_speech is_edge
  speech-Walks frame p d e =
      let pauses = edge in_speech trailing_silence refl in
      let silent =
        check_silence-Walks (record d { trailing = frame; state = trailing_silence }) in_speech _
          pauses refl in
      let q = stay {s = in_speech} in ground arith

  trailing-Walks :
      (frame : List ℕ) (p : ℕ) (d : Detector M)
      → d.state ≡ trailing_silence
      → Walks trailing_silence (frame_in_trailing frame p d)
  unfolding frame_in_trailing is_edge
  trailing-Walks frame p d e =
      let speaks = edge trailing_silence in_speech refl in
      let silent =
        check_silence-Walks (record d { trailing = d.trailing ++ frame }) trailing_silence [] stay
          e in
      ground arith

  process_in-Walks :
      (s : VadEndpointState) (frame : List ℕ) (p : ℕ) (d : Detector M)
      → d.state ≡ s
      → is_finalizing s ≡ false
      → Walks s (process_in s frame p d)
  unfolding process_in
  process_in-Walks waiting_for_speech frame p d e n = waiting-Walks frame p d e
  process_in-Walks speech_candidate frame p d e n = candidate-Walks frame p d e
  process_in-Walks in_speech frame p d e n = speech-Walks frame p d e
  process_in-Walks trailing_silence frame p d e n = trailing-Walks frame p d e
  process_in-Walks finalizing frame p d e n = cc

  process_frame-Walks :
      (frame : List ℕ) (p : ℕ) (d : Detector M)
      → is_finalizing d.state ≡ false
      → Walks d.state (process_frame frame p d)
  unfolding process_frame
  process_frame-Walks frame p d n = process_in-Walks d.state frame p d refl n

module _ (b : VadBackend) where
  next_frame-Walks :
      (d : Detector b.Memory) → is_finalizing d.state ≡ false → Walks d.state (next_frame b d)
  unfolding next_frame
  next_frame-Walks d n =
      let frame = take (frame_bytes d) d.input_buffer in
      process_frame-Walks frame (b.speech_probability frame d.memory).0
        (record d {
          input_buffer = drop (frame_bytes d) d.input_buffer;
          memory = (b.speech_probability frame d.memory).1;
        })
        n

  then_drain-Walks :
      (go_on : Detector b.Memory → FrameResult b.Memory) (s : VadEndpointState)
      (r : FrameResult b.Memory)
      → Walks s r
      → (is_finalizing r.1.state ≡ false → Walks r.1.state (go_on r.1))
      → Walks s (then_drain b go_on r)
  unfolding then_drain
  then_drain-Walks go_on s r (w, e) h = elim (Bool-cases r.0.endpoint) [
    | inl x ↦ ground arith
    | inr x ↦ let v = h (ground arith) in let both = Walk-append w v.0 in ground arith
  ]

  drain-Walks :
      (fuel : ℕ) (d : Detector b.Memory)
      → is_finalizing d.state ≡ false
      → Walks d.state (drain b fuel d)
  drain-Walks zero d n = unfold drain in quiet-Walks d.state [] 0 d refl n
  drain-Walks (suc fuel) d n = elim (Bool-cases (has_frame b d)) [
    | inl h ↦ rw (drain-step b fuel d h) (
        then_drain-Walks (drain b fuel) d.state (next_frame b d) (next_frame-Walks d n)
          (drain-Walks fuel (next_frame b d).1))
    | inr h ↦ rw (drain-stop b fuel d h) (quiet-Walks d.state [] 0 d refl n)
  ]

  -- Where the detector does not wait to be finalized, the transitions that the loop over the frames
  -- reports are a walk along the machine's edges from its state to the state it ends in, and that
  -- state is finalizing if the decision is an endpoint, and only then.
  pub drain_complete_frames-Walks :
      (d : Detector b.Memory)
      → is_finalizing d.state ≡ false
      → Walks d.state (drain_complete_frames b d)
  unfolding drain_complete_frames
  drain_complete_frames-Walks d n = drain-Walks (length d.input_buffer) d n
