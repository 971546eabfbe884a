-- ===== src/Scheduler/History.antt =====
-- The scheduler of app/asr_gateway_scheduler.py with what happens to it, one thing after another.
use model_test.Prelude.{
  ℕ, List, [], ◌∷◌, ◌++◌, Option, none, some, Bool, true, Text, Result, ok, err,
}
use model_test.Backends.Defs.{BackendCapabilities}
use model_test.Scheduler.{InferenceJob, Scheduler, enqueue, cancel_session, stamped}
use model_test.Scheduler.Run.{Ending, Running, Settlement, Outcome, begin_run, finish_run}

-- The scheduler with the jobs that it has accepted and those that have left
pub record History (M : Type 0) : Type 0 where
  pub running : Running
  pub accepted : List InferenceJob
  pub settled : List (Settlement M)

-- `close`
abbrev pub close : Scheduler → Scheduler
close s = record s { is_closed = true }

-- What happens to a scheduler; its one loop begins a run only when the last is finished.
pub data Event (M : Type 0) : Type 0 where
  enqueues : ℕ → InferenceJob → Event M
  cancels : Text → ℕ → Event M
  closes : Event M
  begins :
      (InferenceJob → Bool) → BackendCapabilities → (InferenceJob → ℕ) → ℕ → Bool → Text → Event M
  finishes : (InferenceJob → Bool) → (InferenceJob → Ending) → Outcome M → Event M

module _ {M : Type 0} where
  abbrev pub with_scheduler : Scheduler → History M → History M
  with_scheduler s h = record h { running = record h.running { scheduler = s } }

  abbrev pub with_run : List (Settlement M) × Running → History M → History M
  with_run (settlements, r) h = record h { running = r; settled = settlements ++ h.settled }

  -- `enqueue`, which leaves the scheduler as it is where it raises
  abbrev pub after_enqueue : InferenceJob → Result Scheduler → History M → History M
  after_enqueue job (err e) h = h
  after_enqueue job (ok s) h = record (with_scheduler s h) { accepted = job ∷ h.accepted }

  -- `run_once` up to the adapter's call, where no run is going on
  abbrev pub after_begin :
      List (Settlement M) × Running → Option (Text × List InferenceJob) → History M → History M
  after_begin begun none h = with_run begun h
  after_begin begun (some flight) h = h

  unfoldable pub happen : Event M → History M → History M
  unfolding begin_run finish_run cancel_session enqueue
  happen (enqueues now job) h =
      after_enqueue (stamped now job) (enqueue now job h.running.scheduler) h
  happen (cancels id generation) h =
      with_scheduler (cancel_session id generation h.running.scheduler) h
  happen closes h = with_scheduler (close h.running.scheduler) h
  happen (begins rejects caps clock now force id) h =
      after_begin (begin_run rejects caps clock now force id h.running.scheduler)
        h.running.in_flight h
  happen (finishes rejects cleanup outcome) h =
      with_run (finish_run rejects cleanup outcome h.running) h

  unfoldable pub happens : List (Event M) → History M → History M
  happens [] h = h
  happens (e ∷ es) h = happens es (happen e h)

  abbrev pub new_history : Scheduler → History M
  new_history s = record {
    running = record { scheduler = s; in_flight = none };
    accepted = [];
    settled = [];
  }
