-- ===== src/Vad/Conservation.antt =====
-- The endpoint detector of app/asr_vad.py by the number of bytes in it, and the parts of the stream
-- of bytes that goes through it.
use model_test.Prelude.{
  ℕ, ◌+◌, ◌-◌, ◌*◌, ◌%◌, ◌≤◌, ◌≡◌, refl, List, [], ◌∷◌, ◌++◌, false, min, length, drop,
  length-append, length-take, length-drop, arith,
}
use model_test.Vad.Frames.{
  VadEndpointState, waiting_for_speech, speech_candidate, in_speech, trailing_silence, finalizing,
  Transition, Detector, FrameResult, is_finalizing, process_frame, process_in, frame_in_waiting,
  frame_in_candidate, frame_in_speech, frame_in_trailing, check_silence, append_pre_roll,
}

-- The bytes of a list, in order, each sent or dropped
pub data Parts : List ℕ → List ℕ → List ℕ → Type 0 where
  no_bytes : Parts [] [] []
  sends : {b : ℕ} {s a g : List ℕ} → Parts s a g → Parts (b ∷ s) (b ∷ a) g
  drops : {b : ℕ} {s a g : List ℕ} → Parts s a g → Parts (b ∷ s) a (b ∷ g)

pub Parts-sent : (a : List ℕ) → Parts a a []
Parts-sent [] = no_bytes
Parts-sent (b ∷ a) = sends (Parts-sent a)

pub Parts-dropped : (g : List ℕ) → Parts g [] g
Parts-dropped [] = no_bytes
Parts-dropped (b ∷ g) = drops (Parts-dropped g)

pub Parts-append :
    {s t a c g h : List ℕ} → Parts s a g → Parts t c h → Parts (s ++ t) (a ++ c) (g ++ h)
Parts-append no_bytes y = y
Parts-append (sends x) y = sends (Parts-append x y)
Parts-append (drops x) y = drops (Parts-append x y)

-- Bytes that are sent, then bytes that are dropped
pub Parts-sent_dropped : (a g : List ℕ) → Parts (a ++ g) a g
Parts-sent_dropped [] g = Parts-dropped g
Parts-sent_dropped (b ∷ a) g = sends (Parts-sent_dropped a g)

module _ {M : Type 0} where
  -- The buffers that a state leaves empty
  abbrev pub Idle : VadEndpointState → Detector M → Type 0
  Idle waiting_for_speech d = (d.candidate ≡ []) × (d.trailing ≡ [])
  Idle speech_candidate d = (d.pre_roll ≡ []) × (d.trailing ≡ [])
  Idle in_speech d = (d.pre_roll ≡ []) × (d.candidate ≡ []) × (d.trailing ≡ [])
  Idle trailing_silence d = (d.pre_roll ≡ []) × (d.candidate ≡ [])
  Idle finalizing d = (d.candidate ≡ []) × (d.trailing ≡ [])

  -- The buffers hold whole samples, and the state leaves the others empty.
  pub record DetectorIsValid (d : Detector M) : Type 0 where
    pub idle : Idle d.state d
    pub input : length d.input_buffer % 2 ≡ 0
    pub rolled : length d.pre_roll % 2 ≡ 0
    pub candidates : length d.candidate % 2 ≡ 0
    pub trailed : length d.trailing % 2 ≡ 0
    pub roll_bound : length d.pre_roll ≤ d.pre_roll_samples * 2

  Idle-read :
      (s : VadEndpointState) (d : Detector M) (input : List ℕ) (m : M)
      → Idle s d
      → Idle s (record d { input_buffer = input; memory = m })
  Idle-read waiting_for_speech d input m h = h
  Idle-read speech_candidate d input m h = h
  Idle-read in_speech d input m h = h
  Idle-read trailing_silence d input m h = h
  Idle-read finalizing d input m h = h

  -- Reading input or asking the speech model leaves the detector valid.
  pub read-IsValid :
      (d : Detector M) (input : List ℕ) (m : M)
      → DetectorIsValid d
      → length input % 2 ≡ 0
      → DetectorIsValid (record d { input_buffer = input; memory = m })
  read-IsValid d input m v h = record {
    idle = Idle-read d.state d input m v.idle;
    input = h;
    rolled = v.rolled;
    candidates = v.candidates;
    trailed = v.trailed;
    roll_bound = v.roll_bound;
  }

  -- The bytes that wait for a decision
  abbrev pub pending : Detector M → ℕ
  pending d = length d.pre_roll + length d.candidate + length d.trailing

  -- The bytes that wait for a decision, in order, and those of the input behind them
  abbrev pub content : Detector M → List ℕ
  content d = d.pre_roll ++ (d.candidate ++ (d.trailing ++ d.input_buffer))

  -- Of the bytes `stream`, in order: some are taken from its front, and each of those goes to the
  -- model or is discarded, as many as are counted; the others are what the detector holds.
  pub record Flows (stream : List ℕ) (r : FrameResult M) : Type 0 where
    pub taken : List ℕ
    pub gone : List ℕ
    pub parts : Parts taken r.0.audio_to_model gone
    pub counted : length gone ≡ 2 * r.0.discarded_samples
    pub rest : stream ≡ taken ++ content r.1

  -- A frame's bytes and the pending ones are as many as go to the model, are discarded, or stay
  -- pending.
  pub record Conserves (n : ℕ) (d : Detector M) (r : FrameResult M) : Type 0 where
    pub total : length r.0.audio_to_model + 2 * r.0.discarded_samples + pending r.1 ≡ n + pending d
    pub valid : DetectorIsValid r.1
    pub whole : length r.0.audio_to_model % 2 ≡ 0
    pub unread : r.1.input_buffer ≡ d.input_buffer
    pub frame : r.1.frame_samples ≡ d.frame_samples

  append_pre_roll_sizes :
      (audio : List ℕ) (d : Detector M)
      → length audio % 2 ≡ 0
      → length d.pre_roll % 2 ≡ 0
      → let r = append_pre_roll audio d in
        (2 * r.0 + length r.1.pre_roll ≡ length d.pre_roll + length audio)
        × (length r.1.pre_roll ≤ d.pre_roll_samples * 2)
        × (length r.1.pre_roll % 2 ≡ 0)
  unfolding append_pre_roll
  append_pre_roll_sizes audio d h k =
      let over = length (d.pre_roll ++ audio) - d.pre_roll_samples * 2 in
      omega (arith, length-append d.pre_roll audio, length-drop over (d.pre_roll ++ audio))

  waiting-Conserves :
      (frame : List ℕ) (p : ℕ) (d : Detector M)
      → DetectorIsValid d
      → d.state ≡ waiting_for_speech
      → length frame % 2 ≡ 0
      → Conserves (length frame) d (frame_in_waiting frame p d)
  unfolding frame_in_waiting append_pre_roll
  waiting-Conserves frame p d v e h =
      ground
        (arith, v.idle, append_pre_roll_sizes frame d h v.rolled, length-append d.pre_roll frame)

  candidate-Conserves :
      (frame : List ℕ) (p : ℕ) (d : Detector M)
      → DetectorIsValid d
      → d.state ≡ speech_candidate
      → length frame % 2 ≡ 0
      → Conserves (length frame) d (frame_in_candidate frame p d)
  unfolding frame_in_candidate append_pre_roll
  candidate-Conserves frame p d v e h = ground (
    arith,
    v.idle,
    length-append d.candidate frame,
    append_pre_roll_sizes (d.candidate ++ frame) d,
  )

  -- The trailing silence is all that is pending.
  check_silence-Conserves :
      (d : Detector M) (before : List Transition)
      → DetectorIsValid d
      → d.state ≡ trailing_silence
      → Conserves 0 d (check_silence before d)
  unfolding check_silence append_pre_roll
  check_silence-Conserves d before v e =
      let keep = min (length d.trailing) (d.hangover_samples * 2) in
      ground (
        arith,
        v.idle,
        length-take keep d.trailing,
        length-drop keep d.trailing,
        append_pre_roll_sizes (drop keep d.trailing) (record d { pre_roll = [] }),
      )

  speech-Conserves :
      (frame : List ℕ) (p : ℕ) (d : Detector M)
      → DetectorIsValid d
      → d.state ≡ in_speech
      → length frame % 2 ≡ 0
      → Conserves (length frame) d (frame_in_speech frame p d)
  unfolding frame_in_speech
  speech-Conserves frame p d v e h =
      let d' : Detector M = record d { trailing = frame; state = trailing_silence } in
      ground (arith, v.idle, check_silence-Conserves d' ((in_speech, trailing_silence) ∷ []))

  trailing-Conserves :
      (frame : List ℕ) (p : ℕ) (d : Detector M)
      → DetectorIsValid d
      → d.state ≡ trailing_silence
      → length frame % 2 ≡ 0
      → Conserves (length frame) d (frame_in_trailing frame p d)
  unfolding frame_in_trailing
  trailing-Conserves frame p d v e h = ground (
    arith,
    v.idle,
    length-append d.trailing frame,
    check_silence-Conserves (record d { trailing = d.trailing ++ frame }) [],
  )

  process_in-Conserves :
      (s : VadEndpointState) (frame : List ℕ) (p : ℕ) (d : Detector M)
      → DetectorIsValid d
      → d.state ≡ s
      → is_finalizing s ≡ false
      → length frame % 2 ≡ 0
      → Conserves (length frame) d (process_in s frame p d)
  unfolding process_in
  process_in-Conserves waiting_for_speech frame p d v e n h = waiting-Conserves frame p d v e h
  process_in-Conserves speech_candidate frame p d v e n h = candidate-Conserves frame p d v e h
  process_in-Conserves in_speech frame p d v e n h = speech-Conserves frame p d v e h
  process_in-Conserves trailing_silence frame p d v e n h = trailing-Conserves frame p d v e h
  process_in-Conserves finalizing frame p d v e n h = cc

  -- One frame, whatever the state and the probability: its bytes and the pending ones are as many as
  -- go to the model, are counted as discarded, or stay pending.
  pub process_frame-Conserves :
      (frame : List ℕ) (p : ℕ) (d : Detector M)
      → DetectorIsValid d
      → is_finalizing d.state ≡ false
      → length frame % 2 ≡ 0
      → Conserves (length frame) d (process_frame frame p d)
  unfolding process_frame
  process_frame-Conserves frame p d v n h = process_in-Conserves d.state frame p d v refl n h
