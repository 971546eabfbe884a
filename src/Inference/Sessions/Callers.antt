-- ===== src/Inference/Sessions/Callers.antt =====
-- The steps of the callers of app/asr_inference.py and who holds a session.
use model_test.Prelude.{
  ℕ, ◌≡◌, refl, sym, subst, [], ◌∷◌, Option, none, some, Bool, true, false, ◌||◌, not,
  if◌then◌else◌, arith, Bool-cases, inl, inr, sum_of-append, Text, text_eq, text_eq_sound, Result,
  ok, err, coordinator_error, batch_conflict,
}
use model_test.Inference.State.{
  Settings, Worker, idle, took, tested, warmed, claimed, running, executed, abort_stream,
  transcribe_stream_chunk, Coordinator, Caller, is_in, discard, include,
}
use model_test.Inference.Admission.{
  submit, submit_abort, poison_if_busy, is_session_busy, claim_batch, submit_claimed,
  unless_submitted, submit_chunk, operation_request, file_request, end_batch, start, stop,
  shutdown_job, put_nowait,
}
use model_test.Inference.Machine.{
  cancel, cancel_taken, cancel_job, queue_times_out, inference_times_out, caller_cancelled,
  clean_up, is_unclaimed, poison_some, poison_again, poison_on_error, leave,
}
use model_test.Inference.Jobs.{sum_of-cancel, of_worker-cancel, IgnoresCancel}
use model_test.Inference.Capacity.{Capacity}
use model_test.Inference.Ownership.{
  if-SessionIsValid, SessionIsValid, holding, reserving, plain, operation-SessionIsValid,
  file-SessionIsValid, mismatch, of_unrun,
}
use model_test.Inference.Sessions.Conduct.{IsFresh, IsCreated}

pub IsCreated-at :
    (id t : Text) (s : Coordinator) → IsCreated t s → text_eq t id ≡ true → IsCreated id s
IsCreated-at id t s k e = subst (λ x. IsCreated x s) (text_eq_sound t id e) k

pub IsFresh-at : (id t : Text) (s : Coordinator) → IsFresh t s → text_eq t id ≡ true → IsFresh id s
IsFresh-at id t s k e = subst (λ x. IsFresh x s) (text_eq_sound t id e) k

mismatch-IgnoresCancel : IgnoresCancel mismatch
unfolding cancel
mismatch-IgnoresCancel n job = ground arith

of_unrun-cancel : (n : ℕ) (w : Worker) → of_unrun mismatch (cancel_taken n w) ≡ of_unrun mismatch w
unfolding cancel_taken
of_unrun-cancel n idle = refl
of_unrun-cancel n (took job) = mismatch-IgnoresCancel n job
of_unrun-cancel n (tested job) = mismatch-IgnoresCancel n job
of_unrun-cancel n (warmed job) = mismatch-IgnoresCancel n job
of_unrun-cancel n (claimed job) = refl
of_unrun-cancel n (running job) = refl
of_unrun-cancel n (executed job) = refl

module _ (id : Text) where
  if-result {ℓ} :
      {A : Type ℓ} (test : Bool) (x y : A × Coordinator)
      → SessionIsValid id x.1
      → SessionIsValid id y.1
      → SessionIsValid id (if test then x else y).1
  if-result true x y v w = v
  if-result false x y v w = w

  poison_if_busy-SessionIsValid :
      (t : Text) (r : Result ℕ) (s : Coordinator)
      → SessionIsValid id s
      → SessionIsValid id (poison_if_busy t (r, s)).1
  unfolding poison_if_busy
  poison_if_busy-SessionIsValid t (ok n) s v = v
  poison_if_busy-SessionIsValid t (err e) s v =
      if-result (is_session_busy e)
        (ok none, record s { poisoned_sessions = include t s.poisoned_sessions }) (err e, s) v v

  pub abort-SessionIsValid :
      (t : Text) (c : Settings) (now timeout : ℕ) (s : Coordinator)
      → SessionIsValid id s
      → IsCreated t s
      → SessionIsValid id (submit_abort c now timeout t s).1
  unfolding submit_abort
  abort-SessionIsValid t c now timeout s v k =
      let x =
        operation-SessionIsValid id t c now abort_stream 0 timeout s v refl
          (IsCreated-at id t s k) in
      let r = submit c now (operation_request abort_stream t 0 timeout) s in
      if-result (not (is_in t s.active_sessions) || not s.accepting) (ok none, s) _ v
        (if-result (is_in t s.busy_sessions)
          (ok none, record s { poisoned_sessions = include t s.poisoned_sessions }) _ v
          (poison_if_busy-SessionIsValid t r.0 r.1 x))

  unless-SessionIsValid :
      (r : Result ℕ) (s : Coordinator)
      → SessionIsValid id s
      → SessionIsValid id (unless_submitted (r, s)).1
  unfolding end_batch
  unless-SessionIsValid (ok n) s v = v
  unless-SessionIsValid (err e) s v = v

  claim_batch-SessionIsValid :
      (c : Settings) (s t : Coordinator)
      → SessionIsValid id s
      → claim_batch c s ≡ ok t
      → SessionIsValid id t
  unfolding claim_batch
  claim_batch-SessionIsValid c s t v h =
      let e : t ≡ record s { batch_pending = true } = ground arith in
      subst (λ u. SessionIsValid id u) (sym e) v

  pub claimed-SessionIsValid :
      (c : Settings) (now timeout : ℕ) (path : Text) (language : Option Text)
      (u : Result Coordinator) (s : Coordinator)
      → SessionIsValid id s
      → claim_batch c s ≡ u
      → SessionIsValid id (submit_claimed c now (file_request path language timeout) u s).1
  unfolding submit_claimed
  claimed-SessionIsValid c now timeout path language (err e) s v h = v
  claimed-SessionIsValid c now timeout path language (ok t) s v h =
      let w : SessionIsValid id t = claim_batch-SessionIsValid c s t v h in
      let r = submit c now (file_request path language timeout) t in
      unless-SessionIsValid r.0 r.1 (file-SessionIsValid id c now timeout path language t w)

  pub stop-SessionIsValid :
      (c : Settings) (now : ℕ) (s : Coordinator)
      → SessionIsValid id s
      → SessionIsValid id (stop c now s).1
  unfolding stop put_nowait shutdown_job
  stop-SessionIsValid c now s v =
      let job = shutdown_job now s.next_sequence in
      ground (
        arith,
        v,
        sum_of-append (holding id) s.jobs (job ∷ []),
        sum_of-append (reserving id) s.jobs (job ∷ []),
        sum_of-append (plain id) s.jobs (job ∷ []),
        sum_of-append mismatch s.jobs (job ∷ []),
      )

  holding-IgnoresCancel : IgnoresCancel (holding id)
  unfolding cancel
  holding-IgnoresCancel n job = ground arith

  reserving-IgnoresCancel : IgnoresCancel (reserving id)
  unfolding cancel
  reserving-IgnoresCancel n job = ground arith

  plain-IgnoresCancel : IgnoresCancel (plain id)
  unfolding cancel
  plain-IgnoresCancel n job = ground arith

  cancel_job-SessionIsValid :
      (n : ℕ) (s : Coordinator) → SessionIsValid id s → SessionIsValid id (cancel_job n s)
  unfolding cancel_job
  cancel_job-SessionIsValid n s v = ground (
    arith,
    v,
    sum_of-cancel (holding id) n s.jobs holding-IgnoresCancel,
    of_worker-cancel (holding id) n s.worker holding-IgnoresCancel,
    sum_of-cancel (reserving id) n s.jobs reserving-IgnoresCancel,
    of_worker-cancel (reserving id) n s.worker reserving-IgnoresCancel,
    sum_of-cancel (plain id) n s.jobs plain-IgnoresCancel,
    of_worker-cancel (plain id) n s.worker plain-IgnoresCancel,
    sum_of-cancel mismatch n s.jobs mismatch-IgnoresCancel,
    of_unrun-cancel n s.worker,
  )

  pub poison_again-SessionIsValid :
      (o : Option Caller) (s : Coordinator)
      → SessionIsValid id s
      → SessionIsValid id (poison_again o s)
  unfolding poison_again
  poison_again-SessionIsValid none s v = v
  poison_again-SessionIsValid (some caller) s v =
      if-SessionIsValid id caller.cleans_up (poison_some caller.session_id s) s v v

  pub queue_times_out-SessionIsValid :
      (n : ℕ) (o : Option Caller) (s : Coordinator)
      → SessionIsValid id s
      → SessionIsValid id (queue_times_out n o s)
  unfolding queue_times_out
  queue_times_out-SessionIsValid n o s v =
      let t = cancel_job n (leave n s) in
      let w = poison_again-SessionIsValid o t (cancel_job-SessionIsValid n (leave n s) v) in
      if-SessionIsValid id (is_unclaimed n s) _ s w v

  pub inference_times_out-SessionIsValid :
      (n : ℕ) (o : Option Caller) (s : Coordinator)
      → SessionIsValid id s
      → SessionIsValid id (inference_times_out n o s)
  unfolding inference_times_out
  inference_times_out-SessionIsValid n none s v = v
  inference_times_out-SessionIsValid n (some caller) s v =
      if-SessionIsValid id (is_unclaimed n s) s (poison_some caller.session_id (leave n s)) v v

  pub caller_cancelled-SessionIsValid :
      (n : ℕ) (o : Option Caller) (s : Coordinator)
      → SessionIsValid id s
      → SessionIsValid id (caller_cancelled n o s)
  unfolding caller_cancelled
  caller_cancelled-SessionIsValid n none s v = v
  caller_cancelled-SessionIsValid n (some caller) s v =
      let w = cancel_job-SessionIsValid n (leave n s) v in
      if-SessionIsValid id (is_unclaimed n s) _ _ w v

  poison_on_error-SessionIsValid :
      (t : Text) (r : Result (Option ℕ)) (s : Coordinator)
      → SessionIsValid id s
      → SessionIsValid id (poison_on_error t (r, s))
  poison_on_error-SessionIsValid t (ok none) s v = v
  poison_on_error-SessionIsValid t (ok (some n)) s v = v
  poison_on_error-SessionIsValid t (err e) s v = v

  pub clean_up-SessionIsValid :
      (c : Settings) (now timeout : ℕ) (t : Text) (s : Coordinator)
      → SessionIsValid id s
      → IsCreated t s
      → SessionIsValid id (clean_up c now timeout t s)
  unfolding clean_up
  clean_up-SessionIsValid c now timeout t s v k =
      let u = record s {
        cleaning = discard t s.cleaning;
        poisoned_sessions = discard t s.poisoned_sessions;
      } in
      let r = submit_abort c now timeout t u in
      let w = abort-SessionIsValid t c now timeout u v k in
      let x = poison_on_error-SessionIsValid t r.0 r.1 w in
      if-SessionIsValid id (not (is_in t s.cleaning)) s _ v (
        if-SessionIsValid id (not (is_in t s.active_sessions))
          (record s { cleaning = discard t s.cleaning }) _ v x)

  pub chunk-SessionIsValid :
      (c : Settings) (now timeout : ℕ) (path : Text) (language : Option Text) (t : Text) (audio : ℕ)
      (s : Coordinator)
      → SessionIsValid id s
      → IsCreated t s
      → SessionIsValid id (submit_chunk c now timeout path language t audio s).1
  unfolding submit_chunk
  chunk-SessionIsValid c now timeout path language t audio s v k =
      if-result (s.batch_pending || s.batch_running) (err (coordinator_error batch_conflict), s) _ v
        (operation-SessionIsValid id t c now (transcribe_stream_chunk path language) audio timeout s
          v refl (IsCreated-at id t s k))

  pub start-SessionIsValid :
      (c : Settings) (s : Coordinator)
      → Capacity c s
      → SessionIsValid id s
      → SessionIsValid id (start s)
  unfolding start
  start-SessionIsValid c s d v = elim (Bool-cases s.worker_alive) [
    | inl t ↦ ground (arith, v, t)
    | inr f ↦ ground (arith, v, f, d.dead f)
  ]
