-- ===== src/Sessions/Lifecycle.antt =====
-- The life of a `GatewaySession` (app/asr_gateway_sessions.py): reservations, stale results, and
-- the terminal states.
use model_test.Prelude.{
  ℕ, ◌+◌, ◌-◌, ◌*◌, ◌≡◌, refl, ap, ◌&&◌, ◌==◌, take, none, Bool, true, false, arith, ok, err, pos,
  runtime_error, drop,
}
use model_test.Chunking
use model_test.Chunking.{PcmRingBuffer, ReadyChunk, buffered_samples, reserved_samples}
use model_test.Sessions.{
  GatewaySession, SessionReservation, reserve, acknowledge, rollback, abort, matches_reservation,
  in_flight, is_dead, released,
}
use model_test.Sessions.Accounting.{IsValid, abort_ok, abort_dead, Aborted}

-- Aborting a live, valid session never raises: the result is a valid session in the state
-- `aborted`, with no reservation and the next generation, in which nothing is buffered, reserved or
-- pending, and every accepted sample that was not acknowledged is counted as discarded. Aborting
-- again changes nothing.
pub abort_settles :
    (s : GatewaySession)
    → IsValid s
    → is_dead s.terminal_state ≡ false
    → let t = (abort s).1 in ((abort s).0 ≡ ok tt) × Aborted s t × (abort t ≡ (ok tt, t))
abort_settles s v alive =
    let (t, e, a) = abort_ok s v alive in rw e (refl, a, abort_dead t (ground (arith, a.state)))

-- No result of before an abort counts after it: it is acknowledged in no way, matches no
-- reservation and rolls nothing back.
pub abort_makes_stale :
    (s : GatewaySession) (job start end : ℕ)
    → IsValid s
    → is_dead s.terminal_state ≡ false
    → let t = (abort s).1 in
      (acknowledge job s.generation t ≡ err (runtime_error "stale generation result"))
      × (matches_reservation job start end t ≡ false)
      × (rollback job t ≡ ok (false, t))
unfolding acknowledge matches_reservation rollback
abort_makes_stale s job start end v alive =
    let (t, e, a) = abort_ok s v alive in
    rw e (ground (arith, a.generation), ground (arith, a.free), ground (arith, a.free))

-- A successful reservation of `n` samples holds exactly the bytes of the next `n` samples of the
-- buffer, from its first sample on, under a fresh job number and the session's generation. It is the
-- only one that matches: job, first and end sample must all be its own. Acknowledging it hands out
-- that chunk, frees the session, and leaves the bytes that follow; rolling it back frees the session
-- with the buffer as it was; and any other job number rolls nothing back.
pub reserve_roundtrip :
    (s t : GatewaySession) (n : ℕ) (final : Bool) (r : SessionReservation) (job start end : ℕ)
    → IsValid s
    → reserve (pos n) final s ≡ ok (r, t)
    → let first = s.buffer.base_sample in
      (r.job_sequence ≡ s.next_job_sequence)
      × (r.generation ≡ s.generation)
      × (t.next_job_sequence ≡ s.next_job_sequence + 1)
      × (r.chunk.start_sample ≡ first)
      × (r.chunk.end_sample ≡ first + n)
      × (r.chunk.pcm ≡ take (n * 2) s.buffer.bytes)
      × (matches_reservation job start end t
          ≡ ((job == s.next_job_sequence) && ((start == first) && (end == first + n))))
      × ((u : GatewaySession) × (acknowledge r.job_sequence s.generation t ≡ ok (r.chunk, u))
          × (in_flight u ≡ false)
          × (u.buffer.bytes ≡ drop (n * 2) s.buffer.bytes)
          × (u.buffer.base_sample ≡ first + n))
      × (rollback r.job_sequence t
          ≡ ok (true, record s { next_job_sequence = s.next_job_sequence + 1 }))
      × ((job == s.next_job_sequence) ≡ false → rollback job t ≡ ok (false, t))
unfolding reserve Chunking.reserve_range matches_reservation acknowledge rollback
    Chunking.acknowledge Chunking.rollback
reserve_roundtrip s t n final r job start end v h =
    let chunk_size = s.buffer.base_sample + n - s.buffer.base_sample in
    let same : chunk_size ≡ n = omega arith in
    let emptied : PcmRingBuffer = record s.buffer {
      bytes = drop (chunk_size * 2) s.buffer.bytes;
      base_sample = s.buffer.base_sample + n;
      acknowledged_samples = s.buffer.acknowledged_samples + chunk_size;
      reservation = none;
    } in
    let u : GatewaySession =
      released emptied (record s { next_job_sequence = s.next_job_sequence + 1 }) in
    (
      ground arith,
      ground arith,
      ground arith,
      ground arith,
      ground arith,
      ground arith,
      ground arith,
      (u, ground arith, ground arith, ap (λ k. drop (k * 2) s.buffer.bytes) same, refl),
      ground arith,
      ground arith,
    )
