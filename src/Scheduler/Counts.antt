-- ===== src/Scheduler/Counts.antt =====
-- How `run_once` of app/asr_gateway_scheduler.py counts the audio of the jobs that it settles.
use model_test.Prelude.{
  ℕ, ◌-◌, ◌≡◌, Option-cases, refl, ap, List, map, ◌⊎◌, inl, inr, Option, some, Bool, sum_of, Text,
  arith,
}
use model_test.Prelude.Dict.{lookup, put}
use model_test.Backends.Defs.{BackendCapabilities}
use model_test.Scheduler.{
  InferenceJob, InferenceResult, Scheduler, job_samples, queue_of, Action, from_job, drain_job,
  drain_failed_queue,
}
use model_test.Scheduler.Run.{
  Ending, failed_with, settle_each, Running, Settlement, settled_jobs, Outcome, dispatch, drain,
  begin_run, finish_run, settle_batch, results_of,
}
use model_test.Scheduler.Moves.{
  sum_of-settled, sum_of-settled_append, results_of-jobs, settle_each-jobs, failed-jobs,
}

-- The counter of queued audio goes down by what is settled.
abbrev pub Counts : (M : Type 0) → Scheduler → List (Settlement M) → Scheduler → Type 0
Counts M s settlements t =
    (t.queued_samples ≡ s.queued_samples - sum_of job_samples (settled_jobs settlements))
    × (t.max_queued_samples ≡ s.max_queued_samples)

drain-Counts :
    (M : Type 0) (rejects : InferenceJob → Bool) (error id : Text) (s : Scheduler)
    → let (settlements, t) = drain {M = M} rejects error id s in Counts M s settlements t
unfolding drain drain_failed_queue
drain-Counts M rejects error id s =
    let settle_one : InferenceJob → Option (Action M) =
      λ j. some (drain_job rejects s.cancelled_generations error j) in
    let a = sum_of-settled job_samples settle_one (queue_of id s) in (omega (arith, a), refl)

settle_batch-Counts :
    (M : Type 0) (rejects : InferenceJob → Bool) (cleanup : InferenceJob → Ending) (id : Text)
    (batch : List InferenceJob) (u : Text ⊎ List (InferenceJob × InferenceResult M)) (s : Scheduler)
    → ((rs : List (InferenceJob × InferenceResult M)) → u ≡ inr rs → map (λ e. e.0) rs ≡ batch)
    → let (settlements, t) = settle_batch rejects cleanup id batch u s in Counts M s settlements t
unfolding settle_batch
settle_batch-Counts M rejects cleanup id batch (inr rs) s k =
    let a = ap (sum_of job_samples) (settle_each-jobs M s.cancelled_generations cleanup rs) in
    let b = ap (sum_of job_samples) (k rs refl) in (omega (arith, a, b), refl)
settle_batch-Counts M rejects cleanup id batch (inl error) s k =
    let kept = failed_with id error s in
    let t = record s { submit_failures = put id kept s.submit_failures } in
    let (drained, v) = drain {M = M} rejects kept id t in
    let rs = map (λ j. (j, from_job {M = M} j error)) batch in
    let a = ap (sum_of job_samples) (settle_each-jobs M s.cancelled_generations cleanup rs) in
    let b = ap (sum_of job_samples) (failed-jobs M error batch) in
    let c =
      sum_of-settled_append job_samples (settle_each s.cancelled_generations cleanup rs) drained in
    let d = drain-Counts M rejects kept id t in (omega (arith, a, b, c, d.0), d.1)

pub begin_run-Counts :
    (M : Type 0) (rejects : InferenceJob → Bool) (caps : BackendCapabilities)
    (clock : InferenceJob → ℕ) (now : ℕ) (force : Bool) (id : Text) (s : Scheduler)
    → let (settlements, t) = begin_run {M = M} rejects caps clock now force id s in
      Counts M s settlements t.scheduler
unfolding begin_run dispatch
begin_run-Counts M rejects caps clock now force id s =
    elim (Option-cases (lookup id s.submit_failures)) [
      | inl e ↦ ground (arith, e)
      | inr (error, e) ↦ let a = drain-Counts M rejects error id s in ground (arith, a, e)
    ]

pub finish_run-Counts :
    (M : Type 0) (rejects : InferenceJob → Bool) (cleanup : InferenceJob → Ending)
    (outcome : Outcome M) (r : Running)
    → let (settlements, t) = finish_run rejects cleanup outcome r in
      Counts M r.scheduler settlements t.scheduler
unfolding finish_run
finish_run-Counts M rejects cleanup outcome r = elim (Option-cases r.in_flight) [
  | inl e ↦ ground (arith, e)
  | inr ((id, batch), e) ↦
      let a =
        settle_batch-Counts M rejects cleanup id batch (results_of batch outcome) r.scheduler
          (results_of-jobs M batch outcome) in
      ground (arith, a, e)
]
