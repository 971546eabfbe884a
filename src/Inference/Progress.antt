-- ===== src/Inference/Progress.antt =====
-- The owner thread of app/asr_inference.py empties the queue.
pub mod Phases
use model_test.Prelude.{ℕ, ◌≡◌, List, [], ◌∷◌, ◌++◌, none, some, Bool, false}
use model_test.Inference.State.{
  Action, Worker, idle, took, tested, warmed, claimed, running, executed, create_stream,
  create_chunked_stream, add_audio, finish_stream, finish_segment, abort_stream, transcribe_file,
  transcribe_stream_chunk, shutdown, Coordinator, SessionKind, engine, chunked, pending, cancelled,
  begun, release_audio, release_session_reservation, release_stream_reservation,
}
use model_test.Inference.Worker.{
  warm_up, claim, start_batch, execute, open_session, close_session, finish_batch, settle_job,
  settle, cleanup_poisoned_session,
}
use model_test.Inference.Machine.{Step, takes, tests, warms, claims, begins, runs, settles}

-- One turn of the loop of `_worker_loop`: when it tests the job, whether the model can be warmed, when
-- it claims the job, and whether the model raises
pub record Turn : Type 0 where
  pub tested_at : ℕ
  pub is_warmed : Bool
  pub claimed_at : ℕ
  pub raises : Bool

-- After the job is taken
abbrev pub work : Turn → List Step
work u =
    tests u.tested_at
    ∷ warms u.is_warmed
    ∷ claims u.claimed_at
    ∷ begins
    ∷ runs u.raises
    ∷ settles
    ∷ []

abbrev pub turn : Turn → List Step
turn u = takes ∷ work u

pub turns : List Turn → List Step
turns [] = []
turns (u ∷ us) = turn u ++ turns us

-- The worker waits for a job, and a loop that has ended left no job.
abbrev pub Waits : Coordinator → Type 0
Waits s = (s.worker ≡ idle) × (s.worker_loop_active ≡ false → s.jobs ≡ [])
