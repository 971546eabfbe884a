-- ===== src/Inference/Sessions/Worker.antt =====
-- The steps of the owner thread of app/asr_inference.py and who holds a session.
use model_test.Prelude.{
  ℕ, leb, ◌≡◌, refl, ap, subst, List, [], ◌∷◌, Bool, true, false, ◌&&◌, not, arith, Text,
}
use model_test.Inference.State.{
  Settings, Action, Job, Worker, idle, took, tested, warmed, claimed, running, executed,
  Coordinator, release_queue_slot, pending, cancelled, begun, is_in,
}
use model_test.Inference.Worker.{
  load, take_job, take_from, take_picked, pick, test_job, warm_job, warm_up, claim_job, claim,
  begin_job, start_batch, is_file, settle_job, settle, finalize_worker,
}
use model_test.Inference.Jobs.{of_worker, sum_of-pick}
use model_test.Inference.Ownership.{
  if-SessionIsValid, SessionIsValid, Owned, holding, reserving, plain, settle-SessionIsValid,
  mismatch, of_unrun,
}

module _ (id : Text) where
  abbrev SameCounts : Worker → Worker → Type 0
  SameCounts w w' =
      (of_worker (holding id) w ≡ of_worker (holding id) w')
      × (of_worker (reserving id) w ≡ of_worker (reserving id) w')
      × (of_worker (plain id) w ≡ of_worker (plain id) w')

  Owned-at :
      (w w' : Worker) (jobs : List Job) (busy active reservations : List Text)
      → Owned id w jobs busy active reservations
      → SameCounts w w'
      → of_unrun mismatch w ≡ of_unrun mismatch w'
      → Owned id w' jobs busy active reservations
  Owned-at w w' jobs busy active reservations v h m = ground (arith, v, h, m)

  -- The worker goes on to another point with its job.
  pub hand_over :
      (w w' : Worker) (s : Coordinator)
      → SessionIsValid id s
      → s.worker ≡ w
      → SameCounts w w'
      → of_unrun mismatch w ≡ of_unrun mismatch w'
      → SessionIsValid id (record s { worker = w' })
  hand_over w w' s v e h m =
      Owned-at w w' s.jobs s.busy_sessions s.active_sessions s.stream_reservations
        (subst (λ u. Owned id u s.jobs s.busy_sessions s.active_sessions s.stream_reservations) e v)
        h m

  take_picked-SessionIsValid :
      (best : Job) (js : List Job) (s : Coordinator)
      → SessionIsValid id s
      → s.jobs ≡ best ∷ js
      → s.worker ≡ idle
      → SessionIsValid id (take_picked (pick best js) s)
  unfolding take_picked release_queue_slot finalize_worker is_in
  take_picked-SessionIsValid best js s v h w = ground (
    arith,
    v,
    sum_of-pick (holding id) best js,
    sum_of-pick (reserving id) best js,
    sum_of-pick (plain id) best js,
    sum_of-pick mismatch best js,
  )

  take_from-SessionIsValid :
      (js : List Job) (s : Coordinator)
      → SessionIsValid id s
      → s.jobs ≡ js
      → s.worker ≡ idle
      → SessionIsValid id (take_from js s)
  unfolding take_from
  take_from-SessionIsValid [] s v f e = v
  take_from-SessionIsValid (j ∷ js) s v f e = take_picked-SessionIsValid j js s v f e

  pub take_job-SessionIsValid :
      (w : Worker) (s : Coordinator)
      → SessionIsValid id s
      → s.worker ≡ w
      → SessionIsValid id (take_job w s)
  unfolding take_job
  take_job-SessionIsValid idle s v e =
      if-SessionIsValid id s.worker_loop_active (take_from s.jobs s) s
        (take_from-SessionIsValid s.jobs s v refl e) v
  take_job-SessionIsValid (took job) s v e = v
  take_job-SessionIsValid (tested job) s v e = v
  take_job-SessionIsValid (warmed job) s v e = v
  take_job-SessionIsValid (claimed job) s v e = v
  take_job-SessionIsValid (running job) s v e = v
  take_job-SessionIsValid (executed job) s v e = v

  pub test_job-SessionIsValid :
      (now : ℕ) (w : Worker) (s : Coordinator)
      → SessionIsValid id s
      → s.worker ≡ w
      → SessionIsValid id (test_job now w s)
  unfolding test_job
  test_job-SessionIsValid now idle s v e = v
  test_job-SessionIsValid now (took job) s v e =
      let x = settle-SessionIsValid id job s v (λ f. ap (of_worker f) e) in
      if-SessionIsValid id
        (not (s.accepting && (not job.is_cancelled && leb now job.queue_deadline))) _
        (record s { worker = tested job }) x
        (hand_over (took job) (tested job) s v e (refl, refl, refl) refl)
  test_job-SessionIsValid now (tested job) s v e = v
  test_job-SessionIsValid now (warmed job) s v e = v
  test_job-SessionIsValid now (claimed job) s v e = v
  test_job-SessionIsValid now (running job) s v e = v
  test_job-SessionIsValid now (executed job) s v e = v

  pub warm_job-SessionIsValid :
      (is_warmed : Bool) (w : Worker) (s : Coordinator)
      → SessionIsValid id s
      → s.worker ≡ w
      → SessionIsValid id (warm_job is_warmed w s)
  unfolding warm_job warm_up
  warm_job-SessionIsValid is_warmed idle s v e = v
  warm_job-SessionIsValid is_warmed (took job) s v e = v
  warm_job-SessionIsValid is_warmed (tested job) s v e =
      let t = record s { accepting = false; load_error = true } in
      let x = settle-SessionIsValid id job t v (λ f. ap (of_worker f) e) in
      let on = hand_over (tested job) (warmed job) s v e (refl, refl, refl) refl in
      if-SessionIsValid id s.is_warm (record s { worker = warmed job }) _ on
        (if-SessionIsValid id is_warmed
          (record s {
            is_warm = true;
            ready = s.accepting;
            load_error = false;
            worker = warmed job;
          })
          _ on x)
  warm_job-SessionIsValid is_warmed (warmed job) s v e = v
  warm_job-SessionIsValid is_warmed (claimed job) s v e = v
  warm_job-SessionIsValid is_warmed (running job) s v e = v
  warm_job-SessionIsValid is_warmed (executed job) s v e = v

  claim-SessionIsValid :
      (job : Job) (s : Coordinator)
      → SessionIsValid id s
      → s.worker ≡ warmed job
      → SessionIsValid id (claim job s)
  unfolding claim
  claim-SessionIsValid job s v e =
      let x = settle-SessionIsValid id job s v (λ f. ap (of_worker f) e) in
      let job' = record job { started = begun } in
      elim job.started
        as (λ k. SessionIsValid id (elim k [
          | pending ↦ record s { worker = claimed job' }
          | cancelled ↦ settle job s
          | begun ↦ settle job s
        ])) [
          | pending ↦ hand_over (warmed job) (claimed job') s v e (refl, refl, refl) refl
          | cancelled ↦ x
          | begun ↦ x
        ]

  pub claim_job-SessionIsValid :
      (now : ℕ) (w : Worker) (s : Coordinator)
      → SessionIsValid id s
      → s.worker ≡ w
      → SessionIsValid id (claim_job now w s)
  unfolding claim_job
  claim_job-SessionIsValid now idle s v e = v
  claim_job-SessionIsValid now (took job) s v e = v
  claim_job-SessionIsValid now (tested job) s v e = v
  claim_job-SessionIsValid now (warmed job) s v e =
      let x = settle-SessionIsValid id job s v (λ f. ap (of_worker f) e) in
      if-SessionIsValid id
        (not (s.accepting && (not job.is_cancelled && leb now job.queue_deadline))) (settle job s)
        (claim job s) x (claim-SessionIsValid job s v e)
  claim_job-SessionIsValid now (claimed job) s v e = v
  claim_job-SessionIsValid now (running job) s v e = v
  claim_job-SessionIsValid now (executed job) s v e = v

  start_batch-SessionIsValid :
      (action : Action) (s : Coordinator)
      → SessionIsValid id s
      → SessionIsValid id (start_batch action s)
  unfolding start_batch
  start_batch-SessionIsValid action s v =
      if-SessionIsValid id (is_file action) (record s { batch_running = true }) s v v

  pub begin_job-SessionIsValid :
      (w : Worker) (s : Coordinator)
      → SessionIsValid id s
      → s.worker ≡ w
      → SessionIsValid id (begin_job w s)
  unfolding begin_job
  begin_job-SessionIsValid idle s v e = v
  begin_job-SessionIsValid (took job) s v e = v
  begin_job-SessionIsValid (tested job) s v e = v
  begin_job-SessionIsValid (warmed job) s v e = v
  begin_job-SessionIsValid (claimed job) s v e =
      start_batch-SessionIsValid job.action (record s { worker = running job })
        (hand_over (claimed job) (running job) s v e (refl, refl, refl) refl)
  begin_job-SessionIsValid (running job) s v e = v
  begin_job-SessionIsValid (executed job) s v e = v

  pub settle_job-SessionIsValid :
      (w : Worker) (s : Coordinator)
      → SessionIsValid id s
      → s.worker ≡ w
      → SessionIsValid id (settle_job w s)
  unfolding settle_job
  settle_job-SessionIsValid idle s v e = v
  settle_job-SessionIsValid (took job) s v e = v
  settle_job-SessionIsValid (tested job) s v e = v
  settle_job-SessionIsValid (warmed job) s v e = v
  settle_job-SessionIsValid (claimed job) s v e = v
  settle_job-SessionIsValid (running job) s v e = v
  settle_job-SessionIsValid (executed job) s v e =
      settle-SessionIsValid id job s v (λ f. ap (of_worker f) e)

  pub load-SessionIsValid :
      (c : Settings) (is_loaded : Bool) (s : Coordinator)
      → SessionIsValid id s
      → SessionIsValid id (load c is_loaded s)
  unfolding load
  load-SessionIsValid c is_loaded s v =
      if-SessionIsValid id (not is_loaded)
        (record s { ready = false; accepting = false; load_error = true }) _ v
        (if-SessionIsValid id c.eager_load (record s { ready = true; is_warm = true }) s v v)
