-- ===== src/Inference/Sessions/Execution.antt =====
-- The jobs that the owner thread of app/asr_inference.py runs and who holds a session.
use model_test.Prelude.{◌≡◌, refl, subst, Bool, true, false, arith, Option-cases, inl, inr, Text}
use model_test.Inference.State.{
  Action, Job, Worker, idle, took, tested, warmed, claimed, running, executed, create_stream,
  create_chunked_stream, add_audio, finish_stream, finish_segment, abort_stream, transcribe_file,
  transcribe_stream_chunk, shutdown, Coordinator, SessionKind, engine, chunked,
}
use model_test.Inference.Worker.{
  is_file, run_job, execute, open_session, close_session, finish_batch,
}
use model_test.Inference.Limits.Worker.{finish_batch-worker}
use model_test.Inference.Ownership.{
  if-SessionIsValid, SessionIsValid, Owned, is_in-discard, is_in-include, mismatch,
}
use model_test.Inference.Sessions.Worker.{hand_over}

module _ (id : Text) where
  open_session-SessionIsValid :
      (kind : SessionKind) (job : Job) (s : Coordinator)
      → SessionIsValid id s
      → s.worker ≡ executed job
      → job.holds_stream ≡ true
      → SessionIsValid id (open_session kind job s)
  unfolding open_session
  open_session-SessionIsValid kind job s v e h = elim (Option-cases job.session_id) [
    | inl n ↦ ground (arith, v)
    | inr (t, n) ↦ ground (arith, v, is_in-include id t s.active_sessions)
  ]

  close_session-SessionIsValid :
      (job : Job) (s : Coordinator)
      → SessionIsValid id s
      → s.worker ≡ executed job
      → job.holds_stream ≡ false
      → SessionIsValid id (close_session job s)
  unfolding close_session
  close_session-SessionIsValid job s v e h = elim (Option-cases job.session_id) [
    | inl n ↦ ground (arith, v)
    | inr (t, n) ↦
        ground
          (arith, v, is_in-discard id t s.active_sessions, is_in-discard id t s.stream_reservations)
  ]

  execute-SessionIsValid :
      (raises : Bool) (action : Action) (job : Job) (s : Coordinator)
      → SessionIsValid id s
      → s.worker ≡ executed job
      → action ≡ job.action
      → mismatch job ≡ 0
      → SessionIsValid id (execute raises action job s)
  unfolding execute
  execute-SessionIsValid raises (create_stream language) job s v e a m =
      let x = open_session-SessionIsValid engine job s v e (ground (arith, a)) in
      ground (arith, v, x)
  execute-SessionIsValid raises (create_chunked_stream language) job s v e a m =
      open_session-SessionIsValid chunked job s v e (ground (arith, a))
  execute-SessionIsValid raises (add_audio pcm rate) job s v e a m = v
  execute-SessionIsValid raises finish_stream job s v e a m =
      let x = close_session-SessionIsValid job s v e (ground (arith, a)) in ground (arith, v, x)
  execute-SessionIsValid raises finish_segment job s v e a m = v
  execute-SessionIsValid raises abort_stream job s v e a m =
      close_session-SessionIsValid job s v e (ground (arith, a))
  execute-SessionIsValid raises (transcribe_file path language) job s v e a m = v
  execute-SessionIsValid raises (transcribe_stream_chunk path language) job s v e a m = v
  execute-SessionIsValid raises shutdown job s v e a m = v

  finish_batch-SessionIsValid :
      (action : Action) (s : Coordinator)
      → SessionIsValid id s
      → SessionIsValid id (finish_batch action s)
  unfolding finish_batch
  finish_batch-SessionIsValid action s v =
      if-SessionIsValid id (is_file action) (record s { batch_running = false }) s v v

  pub run_job-SessionIsValid :
      (raises : Bool) (w : Worker) (s : Coordinator)
      → SessionIsValid id s
      → s.worker ≡ w
      → SessionIsValid id (run_job raises w s)
  unfolding run_job finish_batch
  run_job-SessionIsValid raises idle s v e = v
  run_job-SessionIsValid raises (took job) s v e = v
  run_job-SessionIsValid raises (tested job) s v e = v
  run_job-SessionIsValid raises (warmed job) s v e = v
  run_job-SessionIsValid raises (claimed job) s v e = v
  run_job-SessionIsValid raises (executed job) s v e = v
  run_job-SessionIsValid raises (running job) s v e =
      let t = record s { worker = executed job } in
      let u =
        subst (λ k. Owned id k s.jobs s.busy_sessions s.active_sessions s.stream_reservations) e
          v in
      let m : mismatch job ≡ 0 = omega (arith, u.matched) in
      execute-SessionIsValid raises job.action job (finish_batch job.action t)
        (finish_batch-SessionIsValid job.action t
          (hand_over id (running job) (executed job) s v e (refl, refl, refl) m))
        (finish_batch-worker job.action t) refl m
