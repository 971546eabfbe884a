-- ===== src/Sessions/Accounting.antt =====
-- The invariant of `GatewaySession` (app/asr_gateway_sessions.py) and its sample accounting.
use model_test.Prelude.{
  ℕ, ◌+◌, ◌-◌, ◌*◌, ◌/◌, ◌≤◌, ◌<◌, ◌≡◌, refl, List, [], ◌∷◌, Option, none, some, Bool, true, false,
  arith, length, ok, ℤ, pos, negsuc, Text, inl, inr, Bool-cases, ◌==◌, drop, length-drop,
}
use model_test.Chunking
use model_test.Chunking.{PcmRingBuffer, ReadyChunk, buffered_samples, reserved_samples}
use model_test.Chunking.Invariant.{
  accounting, init-IsValid, append-IsValid, reserve_range-IsValid, acknowledge-IsValid,
  rollback-IsValid, discard-IsValid,
}
use model_test.Chunking.Invariant
use model_test.Sessions.{
  GatewaySession, SessionReservation, Call, appends, accepts_vad, records_discarded, reserves,
  acknowledges, rolls_back, requests_finish, aborts, fails, succeeds, init, append_pcm,
  accept_vad_input, record_discarded, reserve, acknowledge, rollback, request_finish, abort,
  abort_reservation, discard_buffered, mark_aborted, fail, fail_after, succeed, step, run,
  pending_vad, aborted, released, is_dead, sample_accounting,
}

-- The session's reservation is the buffer's, under the current generation and a spent job number.
abbrev pub IsLinked : GatewaySession → Option SessionReservation → Type 0
IsLinked s none = (s.buffer.reservation ≡ none) × (s.reservation_released ≡ true)
IsLinked s (some r) =
    (s.buffer.reservation ≡ some r.chunk)
    × (s.reservation_released ≡ false)
    × (r.generation ≡ s.generation)
    × (r.job_sequence < s.next_job_sequence)

pub record IsValid (s : GatewaySession) : Type 0 where
  pub buffer : Invariant.IsValid s.buffer
  pub linked : IsLinked s s.reservation
  pub vad : s.buffer.accepted_samples + s.external_discarded_samples ≤ s.accepted_samples

-- Audio that the VAD passes on was accepted before and is still pending.
abbrev pub Allowed : GatewaySession → Call → Type 0
Allowed s (appends pcm false) = length pcm / 2 ≤ pending_vad s
Allowed s _ = Unit

abbrev pub AllowedRun : GatewaySession → List Call → Type 0
AllowedRun s [] = Unit
AllowedRun s (c ∷ cs) = Allowed s c × AllowedRun (step s c) cs

append_pcm-IsValid :
    (pcm : List ℕ) (counted : Bool) (s : GatewaySession)
    → IsValid s
    → Allowed s (appends pcm counted)
    → IsValid (step s (appends pcm counted))
unfolding step append_pcm Chunking.append
append_pcm-IsValid pcm true s v h = ground (arith, append-IsValid pcm s.buffer v.buffer)
append_pcm-IsValid pcm false s v h = ground (arith, append-IsValid pcm s.buffer v.buffer)

accept_vad-IsValid :
    (pcm : List ℕ) (s : GatewaySession) → IsValid s → IsValid (step s (accepts_vad pcm))
unfolding step accept_vad_input
accept_vad-IsValid pcm s v = ground arith

record_discarded-IsValid :
    (n : ℤ) (s : GatewaySession) → IsValid s → IsValid (step s (records_discarded n))
unfolding step record_discarded
record_discarded-IsValid (negsuc n) s v = v
record_discarded-IsValid (pos n) s v = ground arith

reserve-IsValid :
    (n : ℤ) (final : Bool) (s : GatewaySession) → IsValid s → IsValid (step s (reserves n final))
unfolding step reserve Chunking.reserve_range
reserve-IsValid (negsuc n) final s v = ground arith
reserve-IsValid (pos n) final s v =
    ground (arith, reserve_range-IsValid (pos n) final s.buffer v.buffer)

request_finish-IsValid : (s : GatewaySession) → IsValid s → IsValid (step s requests_finish)
unfolding step request_finish
request_finish-IsValid s v = ground arith

succeed-IsValid : (s : GatewaySession) → IsValid s → IsValid (step s succeeds)
unfolding step succeed
succeed-IsValid s v = ground arith

acknowledge-IsValid_at :
    (job generation : ℕ) (s : GatewaySession) (r : Option SessionReservation)
    → s.reservation ≡ r
    → IsValid s
    → IsValid (step s (acknowledges job generation))
unfolding step acknowledge Chunking.acknowledge
acknowledge-IsValid_at job generation s none e v = ground arith
acknowledge-IsValid_at job generation s (some r) e v =
    ground (arith, acknowledge-IsValid r.chunk.start_sample r.chunk.end_sample s.buffer v.buffer)

rollback-IsValid_at :
    (job : ℕ) (s : GatewaySession) (r : Option SessionReservation)
    → s.reservation ≡ r
    → IsValid s
    → IsValid (step s (rolls_back job))
unfolding step rollback Chunking.rollback
rollback-IsValid_at job s none e v = ground arith
rollback-IsValid_at job s (some r) e v =
    ground (arith, rollback-IsValid r.chunk.start_sample r.chunk.end_sample s.buffer v.buffer)

-- The session with its reservation given back
abbrev pub unreserved : GatewaySession → GatewaySession
unreserved s = released (record s.buffer { reservation = none }) s

pub abort_reservation_ok :
    (s : GatewaySession) (r : Option SessionReservation)
    → s.reservation ≡ r
    → IsValid s
    → abort_reservation s.reservation s ≡ ok (unreserved s)
unfolding abort_reservation Chunking.rollback
abort_reservation_ok s none e v = ground arith
abort_reservation_ok s (some r) e v = ground arith

unreserved-IsValid : (s : GatewaySession) → IsValid s → IsValid (unreserved s)
unreserved-IsValid s v = ground arith

-- What `discard_buffered` leaves: an empty buffer, all else as it was.
pub record Discarded (s t : GatewaySession) : Type 0 where
  pub valid : IsValid t
  pub emptied : length t.buffer.bytes / 2 ≡ 0
  pub free : t.reservation ≡ none
  pub generation : t.generation ≡ s.generation
  pub accepted : t.accepted_samples ≡ s.accepted_samples
  pub external : t.external_discarded_samples ≡ s.external_discarded_samples
  pub acknowledged : t.buffer.acknowledged_samples ≡ s.buffer.acknowledged_samples

pub discard_buffered_ok :
    (s : GatewaySession)
    → IsValid s
    → s.reservation ≡ none
    → (t : GatewaySession) × (discard_buffered s ≡ ok t) × Discarded s t
unfolding discard_buffered Chunking.discard
discard_buffered_ok s v e =
    let n = buffered_samples s.buffer in
    elim (Bool-cases (n == 0)) [
      | inl h ↦ (s, ground arith, ground arith)
      | inr h ↦
          let t : GatewaySession = record s {
            buffer = record s.buffer {
              bytes = drop (n * 2) s.buffer.bytes;
              base_sample = s.buffer.base_sample + n;
              discarded_samples = s.buffer.discarded_samples + n;
            };
          } in
          (t, ground arith, ground (arith, length-drop (n * 2) s.buffer.bytes))
    ]

-- What `abort` leaves of a live session.
pub record Aborted (s t : GatewaySession) : Type 0 where
  pub valid : IsValid t
  pub state : t.terminal_state ≡ aborted
  pub free : t.reservation ≡ none
  pub generation : t.generation ≡ s.generation + 1
  pub accepted : t.accepted_samples ≡ s.accepted_samples
  pub acknowledged : t.buffer.acknowledged_samples ≡ s.buffer.acknowledged_samples
  pub emptied : buffered_samples t.buffer + reserved_samples t.buffer + pending_vad t ≡ 0
  pub discarded :
      t.buffer.discarded_samples + t.external_discarded_samples
      ≡ s.accepted_samples - s.buffer.acknowledged_samples

mark_aborted-Aborted :
    (s t : GatewaySession) → Discarded (unreserved s) t → Aborted s (mark_aborted t)
unfolding mark_aborted
mark_aborted-Aborted s t d = ground (arith, d.valid)

-- A live, valid session is always aborted: `abort` does not raise.
pub abort_ok :
    (s : GatewaySession)
    → IsValid s
    → is_dead s.terminal_state ≡ false
    → (t : GatewaySession) × (abort s ≡ (ok tt, t)) × Aborted s t
unfolding abort
abort_ok s v alive =
    let given = abort_reservation_ok s s.reservation refl v in
    let (t, e, d) = discard_buffered_ok (unreserved s) (unreserved-IsValid s v) refl in
    (mark_aborted t, rw (alive, given, e), mark_aborted-Aborted s t d)

pub abort_dead : (s : GatewaySession) → is_dead s.terminal_state ≡ true → abort s ≡ (ok tt, s)
unfolding abort
abort_dead s h = rw h

abort-IsValid : (s : GatewaySession) → IsValid s → IsValid (abort s).1
abort-IsValid s v = elim (Bool-cases (is_dead s.terminal_state)) [
  | inl dead ↦ rw (abort_dead s dead) v
  | inr alive ↦ let (t, e, a) = abort_ok s v alive in rw e a.valid
]

fail-IsValid : (s : GatewaySession) → IsValid s → IsValid (fail s).1
unfolding fail fail_after
fail-IsValid s v = elim (Bool-cases (is_dead s.terminal_state)) [
  | inl dead ↦ rw (abort_dead s dead, fail_after) (ground arith)
  | inr alive ↦ let (t, e, a) = abort_ok s v alive in rw (e, fail_after) (ground (arith, a.valid))
]

-- Whatever a call does, raising included, a valid session stays valid.
pub step-IsValid : (s : GatewaySession) (c : Call) → IsValid s → Allowed s c → IsValid (step s c)
unfolding step
step-IsValid s (appends pcm counted) v h = append_pcm-IsValid pcm counted s v h
step-IsValid s (accepts_vad pcm) v h = accept_vad-IsValid pcm s v
step-IsValid s (records_discarded n) v h = record_discarded-IsValid n s v
step-IsValid s (reserves n final) v h = reserve-IsValid n final s v
step-IsValid s (acknowledges job generation) v h =
    acknowledge-IsValid_at job generation s s.reservation refl v
step-IsValid s (rolls_back job) v h = rollback-IsValid_at job s s.reservation refl v
step-IsValid s requests_finish v h = request_finish-IsValid s v
step-IsValid s aborts v h = abort-IsValid s v
step-IsValid s fails v h = fail-IsValid s v
step-IsValid s succeeds v h = succeed-IsValid s v

pub run-IsValid :
    (s : GatewaySession) (cs : List Call) → IsValid s → AllowedRun s cs → IsValid (run s cs)
unfolding run
run-IsValid s [] v h = v
run-IsValid s (c ∷ cs) v h = run-IsValid (step s c) cs (step-IsValid s c v h.0) h.1

pub session_init-IsValid :
    (id worker backend : Text) (rate : ℕ) (n : ℤ) (s : GatewaySession)
    → init id worker backend rate n ≡ ok s
    → IsValid s
unfolding init Chunking.init
session_init-IsValid id worker backend rate (negsuc n) s h = cc
session_init-IsValid id worker backend rate (pos n) s h = ground arith

-- In a new session, after any calls in which the VAD passes on only pending audio, the accepted
-- samples are those buffered, reserved, acknowledged, discarded and pending in the VAD, and a
-- reservation of the session is one of its buffer, of the current generation.
pub session_accounting :
    (id worker backend : Text) (rate : ℕ) (n : ℤ) (s : GatewaySession) (cs : List Call)
    → init id worker backend rate n ≡ ok s
    → AllowedRun s cs
    → let t = run s cs in
      let a = sample_accounting t in
      (a.accepted ≡ a.buffered + a.reserved + a.acknowledged + a.discarded + a.pending)
      × IsLinked t t.reservation
session_accounting id worker backend rate n s cs e h =
    let t = run s cs in
    let v = run-IsValid s cs (session_init-IsValid id worker backend rate n s e) h in
    let b = accounting t.buffer t.buffer.reservation refl v.buffer in (omega arith, v.linked)
