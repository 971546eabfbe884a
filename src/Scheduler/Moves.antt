-- ===== src/Scheduler/Moves.antt =====
-- How `run_once` of app/asr_gateway_scheduler.py moves jobs between the queues, the worker and the settled.
use model_test.Prelude.{
  ℕ, ◌+◌, ◌≡◌, ◌==◌, Bool-cases, Option-cases, refl, ap, List, [], ◌∷◌, ◌++◌, map, ◌⊎◌, inl, inr,
  Option, none, some, Bool, length, select, all, true, false, if◌then◌else◌, sum_of, Text, Result,
  ok, err, arith,
}
use model_test.Prelude.Dict.{lookup, put}
use model_test.Backends.Defs.{BackendCapabilities}
use model_test.Scheduler.{
  coerce_result, InferenceJob, InferenceResult, Scheduler, queue_of, is_cancelled, is_expired,
  sort_jobs, select_batch, Action, from_job, drain_job, drain_failed_queue,
}
use model_test.Scheduler.Run.{
  Ending, flight_of, failed_with, raised, returned, settle_each, add_result, Running, Settlement,
  settled_jobs, batch_of, Outcome, remove_jobs, until_raise, expire_job, sweep, dispatch, drain,
  begin_run, finish_run, settle_batch, results_of, coerce_results,
}
use model_test.Scheduler.Removal.{
  Sub, none_of, Sub-trans, if-Sub, until_raise-Sub, select-Sub, sum_of-remove_jobs,
  sum_of-sort_jobs, select_batch-Sub,
}
use model_test.Scheduler.Bounds.{sum_of-put}

abbrev pub queued : (InferenceJob → ℕ) → Scheduler → ℕ
queued f s = sum_of (λ e. sum_of f e.1) s.queues

pub sum_of-settled :
    {M : Type 0} (f : InferenceJob → ℕ) (g : InferenceJob → Option (Action M))
    (js : List InferenceJob)
    → sum_of f (settled_jobs (map (λ j. (j, g j)) js)) ≡ sum_of f js
sum_of-settled f g [] = refl
sum_of-settled f g (j ∷ js) = let h = sum_of-settled f g js in ground (arith, h)

pub sum_of-settled_append :
    {M : Type 0} (f : InferenceJob → ℕ) (es ds : List (Settlement M))
    → sum_of f (settled_jobs (es ++ ds)) ≡ sum_of f (settled_jobs es) + sum_of f (settled_jobs ds)
sum_of-settled_append f [] ds = omega arith
sum_of-settled_append f (e ∷ es) ds = let h = sum_of-settled_append f es ds in ground (arith, h)

pub queued-put :
    (f : InferenceJob → ℕ) (id : Text) (js : List InferenceJob) (s : Scheduler)
    → sum_of (λ e. sum_of f e.1) (put id js s.queues) + sum_of f (queue_of id s)
      ≡ queued f s + sum_of f js
queued-put f id js s = sum_of-put (sum_of f) id js s.queues refl

sum_of-sweep :
    (M : Type 0) (f : InferenceJob → ℕ) (rejects : InferenceJob → Bool) (clock : InferenceJob → ℕ)
    (id : Text) (s : Scheduler)
    → let (gone, live) = sweep {M = M} rejects clock id s in
      sum_of f (settled_jobs gone) + sum_of f live ≡ sum_of f (queue_of id s)
unfolding sweep
sum_of-sweep M f rejects clock id s =
    let queue = queue_of id s in
    let late = select (is_expired clock) queue in
    let expired = until_raise rejects late in
    let unexpired = remove_jobs expired queue in
    let goes_on = all rejects expired in
    let cancelled = select (is_cancelled s.cancelled_generations) unexpired in
    let gone = if goes_on then cancelled else [] in
    let rejected : InferenceJob → Option (Action M) = λ j. none in
    let a =
      sum_of-remove_jobs f expired queue
        (Sub-trans (until_raise-Sub rejects late) (select-Sub (is_expired clock) queue)) in
    let b = sum_of-remove_jobs f gone unexpired (
      if-Sub goes_on cancelled [] unexpired
        (select-Sub (is_cancelled s.cancelled_generations) unexpired) none_of) in
    let timed_out : InferenceJob → Option (Action M) = expire_job rejects in
    let c =
      sum_of-settled_append f (map (λ j. (j, timed_out j)) expired)
        (map (λ j. (j, rejected j)) gone) in
    let d = sum_of-settled f rejected gone in
    let e = sum_of-settled f timed_out expired in omega (arith, a, b, c, d, e)

flight-batch : (id : Text) (js : List InferenceJob) → batch_of (flight_of id js) ≡ js
flight-batch id [] = refl
flight-batch id (j ∷ js) = refl

-- A step of the scheduler's jobs keeps what is queued, at a worker or settled.
abbrev Keeps :
    (M : Type 0)
    → (InferenceJob → ℕ)
    → List InferenceJob
    → Scheduler
    → List (Settlement M) × Running
    → Type 0
Keeps M f batch s (settlements, r) =
    sum_of f (settled_jobs settlements) + (queued f r.scheduler + sum_of f (batch_of r.in_flight))
    ≡ queued f s + sum_of f batch

-- The jobs of a batch and those left, where there is one
chosen_and_left :
    (f : InferenceJob → ℕ) (goes_on : Bool) (chosen live : List InferenceJob)
    → Sub chosen (sort_jobs live)
    → sum_of f (if goes_on then remove_jobs chosen (sort_jobs live) else live)
        + sum_of f (if goes_on then chosen else [])
      ≡ sum_of f live
chosen_and_left f true chosen live x =
    omega (arith, sum_of-remove_jobs f chosen (sort_jobs live) x, sum_of-sort_jobs f live)
chosen_and_left f false chosen live x = omega arith

dispatch-Keeps :
    (M : Type 0) (f : InferenceJob → ℕ) (rejects : InferenceJob → Bool) (caps : BackendCapabilities)
    (clock : InferenceJob → ℕ) (now : ℕ) (force : Bool) (id : Text) (s : Scheduler)
    → Keeps M f [] s (dispatch rejects caps clock now force id s)
unfolding dispatch
dispatch-Keeps M f rejects caps clock now force id s =
    let (gone, live) = sweep {M = M} rejects clock id s in
    let goes_on = all rejects (select (is_expired clock) (queue_of id s)) in
    let chosen = select_batch caps s.max_wait now force live in
    let batch = if goes_on then chosen else [] in
    let left = if goes_on then remove_jobs chosen (sort_jobs live) else live in
    let a = sum_of-sweep M f rejects clock id s in
    let b =
      chosen_and_left f goes_on chosen live (select_batch-Sub caps s.max_wait now force live) in
    let d = queued-put f id left s in
    let e = ap (sum_of f) (flight-batch id batch) in omega (arith, a, b, d, e)

drain-Keeps :
    (M : Type 0) (f : InferenceJob → ℕ) (rejects : InferenceJob → Bool) (error id : Text)
    (s : Scheduler)
    → let (settlements, t) = drain {M = M} rejects error id s in
      sum_of f (settled_jobs settlements) + queued f t ≡ queued f s
unfolding drain drain_failed_queue
drain-Keeps M f rejects error id s =
    let settle_one : InferenceJob → Option (Action M) =
      λ j. some (drain_job rejects s.cancelled_generations error j) in
    let a = sum_of-settled f settle_one (queue_of id s) in
    let d = queued-put f id [] s in omega (arith, a, d)

added-jobs :
    (M : Type 0) (j : InferenceJob) (js : List InferenceJob) (u : Result (InferenceResult M))
    (v : Text ⊎ List (InferenceJob × InferenceResult M))
    (rs : List (InferenceJob × InferenceResult M))
    → ((xs : List (InferenceJob × InferenceResult M)) → v ≡ inr xs → map (λ e. e.0) xs ≡ js)
    → add_result j u v ≡ inr rs
    → map (λ e. e.0) rs ≡ j ∷ js
added-jobs M j js (err x) v rs k e = ground (arith, e)
added-jobs M j js (ok r) (inl x) rs k e = ground (arith, e)
added-jobs M j js (ok r) (inr xs) rs k e = let h = k xs refl in ground (arith, e, h)

coerce_results-jobs :
    (M : Type 0) (js : List InferenceJob) (raws : List (Option (InferenceResult M)))
    (rs : List (InferenceJob × InferenceResult M))
    → length raws ≡ length js
    → coerce_results js raws ≡ inr rs
    → map (λ e. e.0) rs ≡ js
unfolding coerce_results
coerce_results-jobs M [] raws rs h e = ground (arith, e)
coerce_results-jobs M (j ∷ js) [] rs h e = ground (arith, h)
coerce_results-jobs M (j ∷ js) (raw ∷ raws) rs h e =
    added-jobs M j js (coerce_result j raw) (coerce_results js raws) rs
      (λ xs v. coerce_results-jobs M js raws xs (omega (arith, h)) v) e

pub results_of-jobs :
    (M : Type 0) (batch : List InferenceJob) (outcome : Outcome M)
    (rs : List (InferenceJob × InferenceResult M))
    → results_of batch outcome ≡ inr rs
    → map (λ e. e.0) rs ≡ batch
unfolding results_of
results_of-jobs M batch (raised name) rs e = ground (arith, e)
results_of-jobs M batch (returned raws) rs e = elim (Bool-cases (length raws == length batch)) [
  | inl t ↦ coerce_results-jobs M batch raws rs (ground (arith, t)) (ground (arith, e, t))
  | inr f ↦ ground (arith, e, f)
]

pub settle_each-jobs :
    (M : Type 0) (cancelled : List (Text × ℕ)) (cleanup : InferenceJob → Ending)
    (rs : List (InferenceJob × InferenceResult M))
    → settled_jobs (settle_each cancelled cleanup rs) ≡ map (λ e. e.0) rs
settle_each-jobs M cancelled cleanup [] = refl
settle_each-jobs M cancelled cleanup (r ∷ rs) =
    ap (λ js. r.0 ∷ js) (settle_each-jobs M cancelled cleanup rs)

pub failed-jobs :
    (M : Type 0) (error : Text) (js : List InferenceJob)
    → map
        (λ (e : InferenceJob × InferenceResult M). e.0)
        (map (λ j. (j, from_job {M = M} j error)) js)
      ≡ js
failed-jobs M error [] = refl
failed-jobs M error (j ∷ js) = ap (λ ks. j ∷ ks) (failed-jobs M error js)

settle_batch-Keeps :
    (M : Type 0) (f : InferenceJob → ℕ) (rejects : InferenceJob → Bool)
    (cleanup : InferenceJob → Ending) (id : Text) (batch : List InferenceJob)
    (u : Text ⊎ List (InferenceJob × InferenceResult M)) (s : Scheduler)
    → ((rs : List (InferenceJob × InferenceResult M)) → u ≡ inr rs → map (λ e. e.0) rs ≡ batch)
    → let (settlements, t) = settle_batch rejects cleanup id batch u s in
      sum_of f (settled_jobs settlements) + queued f t ≡ queued f s + sum_of f batch
unfolding settle_batch
settle_batch-Keeps M f rejects cleanup id batch (inr rs) s k =
    let a = ap (sum_of f) (settle_each-jobs M s.cancelled_generations cleanup rs) in
    let b = ap (sum_of f) (k rs refl) in omega (arith, a, b)
settle_batch-Keeps M f rejects cleanup id batch (inl error) s k =
    let kept = failed_with id error s in
    let t = record s { submit_failures = put id kept s.submit_failures } in
    let (drained, v) = drain {M = M} rejects kept id t in
    let rs = map (λ j. (j, from_job {M = M} j error)) batch in
    let a = ap (sum_of f) (settle_each-jobs M s.cancelled_generations cleanup rs) in
    let b = ap (sum_of f) (failed-jobs M error batch) in
    let c = sum_of-settled_append f (settle_each s.cancelled_generations cleanup rs) drained in
    let d = drain-Keeps M f rejects kept id t in omega (arith, a, b, c, d)

-- The jobs a step settles, queues and has at a worker, against those queued and at a worker before
abbrev pub Moves :
    (M : Type 0) → (InferenceJob → ℕ) → Running → List (Settlement M) × Running → Type 0
Moves M f r (settlements, t) =
    sum_of f (settled_jobs settlements) + (queued f t.scheduler + sum_of f (batch_of t.in_flight))
    ≡ queued f r.scheduler + sum_of f (batch_of r.in_flight)

pub begin_run-Moves :
    (M : Type 0) (f : InferenceJob → ℕ) (rejects : InferenceJob → Bool) (caps : BackendCapabilities)
    (clock : InferenceJob → ℕ) (now : ℕ) (force : Bool) (id : Text) (s : Scheduler)
    → Moves M f
        (record { scheduler = s; in_flight = none })
        (begin_run rejects caps clock now force id s)
unfolding begin_run
begin_run-Moves M f rejects caps clock now force id s =
    elim (Option-cases (lookup id s.submit_failures)) [
      | inl e ↦ let a = dispatch-Keeps M f rejects caps clock now force id s in ground (arith, a, e)
      | inr (error, e) ↦ let a = drain-Keeps M f rejects error id s in ground (arith, a, e)
    ]

pub finish_run-Moves :
    (M : Type 0) (f : InferenceJob → ℕ) (rejects : InferenceJob → Bool)
    (cleanup : InferenceJob → Ending) (outcome : Outcome M) (r : Running)
    → Moves M f r (finish_run rejects cleanup outcome r)
unfolding finish_run
finish_run-Moves M f rejects cleanup outcome r = elim (Option-cases r.in_flight) [
  | inl e ↦ ground (arith, e)
  | inr ((id, batch), e) ↦
      let a =
        settle_batch-Keeps M f rejects cleanup id batch (results_of batch outcome) r.scheduler
          (results_of-jobs M batch outcome) in
      ground (arith, a, e)
]
