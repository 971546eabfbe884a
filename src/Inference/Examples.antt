-- ===== src/Inference/Examples.antt =====
-- The properties of app/asr_inference.py on one session, and tests of the coordinator.
use model_test.Prelude.{
  ◌+◌, ◌≤◌, ◌<◌, ◌≡◌, refl, List, [], ◌∷◌, ◌++◌, none, true, false, if◌then◌else◌, arith, length,
  map, Text, text_eq, codes, err, coordinator_error, session_poisoned,
}
use model_test.Inference.State.{
  Settings, init, engine, is_in, include, discard, require_accepting, require_session_admissible,
  release_queue_slot, release_audio, release_session_reservation, release_stream_reservation,
}
use model_test.Inference.Admission.{
  submit_abort, submit_file, start, submit, submit_accepted, reserve_stream, reserve_operation,
  enqueue, enqueued, put_nowait, new_job, claim_batch, submit_claimed, end_batch,
}
use model_test.Inference.Worker.{
  load, take_job, take_from, take_picked, pick, precedes, test_job, warm_job, warm_up, claim_job,
  claim, begin_job, start_batch, run_job, finish_batch, execute, open_session, settle_job, settle,
  cleanup_poisoned_session,
}
use model_test.Inference.Machine.{
  Step, starts, creates, operates, transcribes, ends_batch, inference_timeouts, cancellations,
  returns, loads, takes, tests, warms, claims, begins, runs, settles, adds_audio, finishes_stream,
  step, run, inference_times_out, caller_cancelled, find_caller, remove_caller, is_unclaimed,
}
use model_test.Inference.Ownership.{count, holding, reserving, plain}
use model_test.Inference.Sessions.Conduct.{AllowedRun}
use model_test.Inference.Sessions.{session_ownership}
use model_test.Inference.Progress.{Turn}
use model_test.Inference.Poison.{Stranded, Call, operation, abort, call_on, poison_blocks_abort}

abbrev settings : Settings
settings = record {
  inference_queue_size = 2;
  max_active_streams = 1;
  max_queued_audio = 5;
  file_transcribe_enabled = true;
  eager_load = false;
}

abbrev speaker : Text
speaker = codes "a"

abbrev job_steps : List Step
job_steps = takes ∷ tests 1 ∷ warms true ∷ claims 1 ∷ begins ∷ runs false ∷ settles ∷ []

-- A stream that is opened, and audio for it that waits in the queue
abbrev opening : List Step
opening = starts ∷ loads true ∷ creates engine none 0 10 speaker ∷ job_steps ++ returns 0 ∷ []

abbrev speaking : List Step
speaking = opening ++ operates (adds_audio (1 ∷ 2 ∷ []) 2) 2 10 speaker 3 ∷ []

speaking_sets :
    let s = run settings init speaking in
    (s.queued_audio ≡ 3)
    × (s.busy_sessions ≡ speaker ∷ [])
    × (s.active_sessions ≡ speaker ∷ [])
    × (s.stream_reservations ≡ speaker ∷ [])
unfolding run step start load submit submit_accepted reserve_stream reserve_operation enqueue
    enqueued put_nowait new_job require_accepting require_session_admissible take_job take_from
    take_picked pick precedes release_queue_slot test_job warm_job warm_up claim_job claim begin_job
    start_batch run_job finish_batch execute open_session settle_job settle cleanup_poisoned_session
    release_audio release_session_reservation release_stream_reservation remove_caller include
    discard is_in init text_eq
speaking_sets = (refl, refl, refl, refl)

speaker_is_new : AllowedRun settings init speaking
unfolding run step start load submit submit_accepted reserve_stream reserve_operation enqueue
    enqueued put_nowait new_job require_accepting require_session_admissible take_job take_from
    take_picked pick precedes release_queue_slot test_job warm_job warm_up claim_job claim begin_job
    start_batch run_job finish_batch execute open_session settle_job settle cleanup_poisoned_session
    release_audio release_session_reservation release_stream_reservation remove_caller include
    discard is_in init text_eq
speaker_is_new = ground arith

session_ownership_example :
    let s = run settings init speaking in
    (count (holding speaker) s ≡ (if is_in speaker s.busy_sessions then 1 else 0))
    × (count (holding speaker) s + (count (reserving speaker) s + count (plain speaker) s) ≤ 1)
    × (is_in speaker s.active_sessions ≡ true → is_in speaker s.stream_reservations ≡ true)
    × (0 < count (reserving speaker) s
        → (is_in speaker s.stream_reservations ≡ true) × (is_in speaker s.active_sessions ≡ false))
session_ownership_example = session_ownership settings speaking speaker speaker_is_new

abbrev one_turn : Turn
one_turn = record { tested_at = 3; is_warmed = true; claimed_at = 3; raises = true }

-- The wait for a result times out when the worker has settled the job but the caller has not seen it.
abbrev timed_out : List Step
timed_out = speaking ++ job_steps ++ inference_timeouts 1 ∷ []

timed_out-Stranded : Stranded speaker (run settings init timed_out)
unfolding run step start load submit submit_accepted reserve_stream reserve_operation enqueue
    enqueued put_nowait new_job require_accepting require_session_admissible take_job take_from
    take_picked pick precedes release_queue_slot test_job warm_job warm_up claim_job claim begin_job
    start_batch run_job finish_batch execute open_session settle_job settle cleanup_poisoned_session
    release_audio release_session_reservation release_stream_reservation remove_caller include
    discard is_in init text_eq inference_times_out find_caller is_unclaimed
timed_out-Stranded = record {
  accepting = refl;
  loaded = refl;
  active = refl;
  poisoned = refl;
  free = refl;
}

abbrev calls : List Call
calls = operation finishes_stream 20 10 0 ∷ abort 21 10 ∷ []

poison_blocks_abort_example :
    let s = run settings init timed_out in
    let t = run settings s (map (call_on speaker) calls) in
    (t ≡ record s { next_sequence = t.next_sequence })
    × ((submit_abort settings 22 10 speaker t).0 ≡ err (coordinator_error session_poisoned))
poison_blocks_abort_example =
    poison_blocks_abort settings speaker (run settings init timed_out) calls 22 10
      timed_out-Stranded

-- A caller of `transcribe_file` is cancelled when its job is claimed, before the model is called.
abbrev overlapping : List Step
overlapping =
    starts
    ∷ loads true
    ∷ transcribes 0 10 (codes "f") none
    ∷ takes
    ∷ tests 1
    ∷ warms true
    ∷ claims 1
    ∷ cancellations 0
    ∷ ends_batch
    ∷ creates engine none 2 10 speaker
    ∷ begins
    ∷ []

overlapping_stream :
    let s = run settings init overlapping in
    (s.batch_running ≡ true) × (s.stream_reservations ≡ speaker ∷ []) × (length s.jobs ≡ 1)
unfolding run step start load submit submit_accepted reserve_stream reserve_operation enqueue
    enqueued put_nowait new_job require_accepting require_session_admissible take_job take_from
    take_picked pick precedes release_queue_slot test_job warm_job warm_up claim_job claim begin_job
    start_batch run_job finish_batch execute open_session settle_job settle cleanup_poisoned_session
    release_audio release_session_reservation release_stream_reservation remove_caller include
    discard is_in init text_eq submit_file claim_batch submit_claimed end_batch caller_cancelled
    find_caller is_unclaimed
overlapping_stream = (refl, refl, refl)
