-- ===== src/Inference/Limits/Callers.antt =====
-- The steps of the callers of app/asr_inference.py and the limits of the queue.
use model_test.Prelude.{
  ℕ, ◌≡◌, refl, [], ◌∷◌, Option, none, some, false, arith, sum_of-append, Text, Result, ok, err,
}
use model_test.Inference.State.{
  Settings, abort_stream, transcribe_stream_chunk, Coordinator, SessionKind, Caller, is_shutdown,
  engine, chunked, discard,
}
use model_test.Inference.Admission.{
  Request, submit, submit_abort, poison_if_busy, submit_file, claim_batch, submit_claimed,
  unless_submitted, submit_chunk, operation_request, file_request, end_batch, start, stop,
  shutdown_job, put_nowait,
}
use model_test.Inference.Machine.{
  creates, operates, step, cancel, cancel_job, queue_times_out, inference_times_out,
  caller_cancelled, clean_up, poison_on_error, poison_again, leave, Operation, adds_audio,
  finishes_stream, finishes_segment,
}
use model_test.Inference.Jobs.{
  is_business, is_control, length_split, sum_of-cancel, of_worker-cancel, IgnoresCancel,
}
use model_test.Inference.Capacity.{Capacity, job_audio, submit-Capacity}

poison_if_busy-Capacity :
    (c : Settings) (id : Text) (r : Result ℕ) (s : Coordinator)
    → Capacity c s
    → Capacity c (poison_if_busy id (r, s)).1
unfolding poison_if_busy
poison_if_busy-Capacity c id r s v = ground (arith, v)

pub submit_abort-Capacity :
    (c : Settings) (now timeout : ℕ) (id : Text) (s : Coordinator)
    → Capacity c s
    → Capacity c (submit_abort c now timeout id s).1
unfolding submit_abort
submit_abort-Capacity c now timeout id s v =
    let (r, t) = submit c now (operation_request abort_stream id 0 timeout) s in
    let w = submit-Capacity c now (operation_request abort_stream id 0 timeout) s v refl in
    let x = poison_if_busy-Capacity c id r t w in ground (arith, v, x)

unless_submitted-Capacity :
    (c : Settings) (r : Result ℕ) (s : Coordinator)
    → Capacity c s
    → Capacity c (unless_submitted (r, s)).1
unfolding end_batch
unless_submitted-Capacity c (ok n) s v = v
unless_submitted-Capacity c (err e) s v = ground (arith, v)

submit_claimed-Capacity :
    (c : Settings) (now : ℕ) (r : Request) (u : Result Coordinator) (s : Coordinator)
    → Capacity c s
    → claim_batch c s ≡ u
    → is_shutdown r.action ≡ false
    → Capacity c (submit_claimed c now r u s).1
unfolding submit_claimed claim_batch
submit_claimed-Capacity c now r (err e) s v h k = v
submit_claimed-Capacity c now r (ok t) s v h k =
    let w : Capacity c t = ground (arith, v) in
    let x = submit-Capacity c now r t w k in
    unless_submitted-Capacity c (submit c now r t).0 (submit c now r t).1 x

pub submit_file-Capacity :
    (c : Settings) (now timeout : ℕ) (path : Text) (language : Option Text) (s : Coordinator)
    → Capacity c s
    → Capacity c (submit_file c now timeout path language s).1
unfolding submit_file
submit_file-Capacity c now timeout path language s v =
    submit_claimed-Capacity c now (file_request path language timeout) (claim_batch c s) s v refl
      refl

pub stop-Capacity :
    (c : Settings) (now : ℕ) (s : Coordinator) → Capacity c s → Capacity c (stop c now s).1
unfolding stop put_nowait shutdown_job
stop-Capacity c now s v =
    let job = shutdown_job now s.next_sequence in
    ground (
      arith,
      v,
      sum_of-append is_business s.jobs (job ∷ []),
      sum_of-append is_control s.jobs (job ∷ []),
      sum_of-append job_audio s.jobs (job ∷ []),
    )

-- The control slot is free when a shutdown is asked for.
pub stop_ok : (c : Settings) (now : ℕ) (s : Coordinator) → Capacity c s → (stop c now s).0 ≡ ok tt
unfolding stop put_nowait
stop_ok c now s v = ground (arith, v, length_split s.jobs)

business-IgnoresCancel : IgnoresCancel is_business
unfolding cancel
business-IgnoresCancel n job = ground arith

control-IgnoresCancel : IgnoresCancel is_control
unfolding cancel
control-IgnoresCancel n job = ground arith

audio-IgnoresCancel : IgnoresCancel job_audio
unfolding cancel
audio-IgnoresCancel n job = ground arith

cancel_job-Capacity :
    (c : Settings) (n : ℕ) (s : Coordinator) → Capacity c s → Capacity c (cancel_job n s)
unfolding cancel_job
cancel_job-Capacity c n s v = ground (
  arith,
  v,
  sum_of-cancel is_business n s.jobs business-IgnoresCancel,
  sum_of-cancel is_control n s.jobs control-IgnoresCancel,
  sum_of-cancel job_audio n s.jobs audio-IgnoresCancel,
  of_worker-cancel job_audio n s.worker audio-IgnoresCancel,
)

pub leave-Capacity :
    (c : Settings) (n : ℕ) (s : Coordinator) → Capacity c s → Capacity c (leave n s)
leave-Capacity c n s v = ground (arith, v)

pub poison_again-Capacity :
    (c : Settings) (o : Option Caller) (s : Coordinator)
    → Capacity c s
    → Capacity c (poison_again o s)
unfolding poison_again
poison_again-Capacity c none s v = v
poison_again-Capacity c (some caller) s v = ground (arith, v)

pub queue_times_out-Capacity :
    (c : Settings) (n : ℕ) (o : Option Caller) (s : Coordinator)
    → Capacity c s
    → Capacity c (queue_times_out n o s)
unfolding queue_times_out
queue_times_out-Capacity c n o s v =
    let t = leave n s in
    let w = cancel_job-Capacity c n t (leave-Capacity c n s v) in
    let x = poison_again-Capacity c o (cancel_job n t) w in ground (arith, v, x)

pub inference_times_out-Capacity :
    (c : Settings) (n : ℕ) (o : Option Caller) (s : Coordinator)
    → Capacity c s
    → Capacity c (inference_times_out n o s)
unfolding inference_times_out
inference_times_out-Capacity c n none s v = v
inference_times_out-Capacity c n (some caller) s v = ground (arith, v)

pub caller_cancelled-Capacity :
    (c : Settings) (n : ℕ) (o : Option Caller) (s : Coordinator)
    → Capacity c s
    → Capacity c (caller_cancelled n o s)
unfolding caller_cancelled
caller_cancelled-Capacity c n none s v = v
caller_cancelled-Capacity c n (some caller) s v =
    let w = cancel_job-Capacity c n (leave n s) (leave-Capacity c n s v) in ground (arith, v, w)

poison_on_error-Capacity :
    (c : Settings) (id : Text) (r : Result (Option ℕ)) (s : Coordinator)
    → Capacity c s
    → Capacity c (poison_on_error id (r, s))
poison_on_error-Capacity c id (ok none) s v = v
poison_on_error-Capacity c id (ok (some n)) s v = ground (arith, v)
poison_on_error-Capacity c id (err e) s v = ground (arith, v)

pub clean_up-Capacity :
    (c : Settings) (now timeout : ℕ) (id : Text) (s : Coordinator)
    → Capacity c s
    → Capacity c (clean_up c now timeout id s)
unfolding clean_up
clean_up-Capacity c now timeout id s v =
    let t = record s {
      cleaning = discard id s.cleaning;
      poisoned_sessions = discard id s.poisoned_sessions;
    } in
    let r = submit_abort c now timeout id t in
    let w = submit_abort-Capacity c now timeout id t (ground (arith, v)) in
    let x = poison_on_error-Capacity c id r.0 r.1 w in ground (arith, v, x)

pub start-Capacity : (c : Settings) (s : Coordinator) → Capacity c s → Capacity c (start s)
unfolding start
start-Capacity c s v = ground (arith, v)

pub submit_chunk-Capacity :
    (c : Settings) (now timeout : ℕ) (path : Text) (language : Option Text) (id : Text) (audio : ℕ)
    (s : Coordinator)
    → Capacity c s
    → Capacity c (submit_chunk c now timeout path language id audio s).1
unfolding submit_chunk
submit_chunk-Capacity c now timeout path language id audio s v =
    let r = operation_request (transcribe_stream_chunk path language) id audio timeout in
    let x = submit-Capacity c now r s v refl in ground (arith, v, x)

pub creates-Capacity :
    (c : Settings) (kind : SessionKind) (language : Option Text) (now timeout : ℕ) (id : Text)
    (s : Coordinator)
    → Capacity c s
    → Capacity c (step c s (creates kind language now timeout id))
unfolding step
creates-Capacity c engine language now timeout id s v = submit-Capacity c now _ s v refl
creates-Capacity c chunked language now timeout id s v = submit-Capacity c now _ s v refl

pub operates-Capacity :
    (c : Settings) (operation : Operation) (now timeout : ℕ) (id : Text) (audio : ℕ)
    (s : Coordinator)
    → Capacity c s
    → Capacity c (step c s (operates operation now timeout id audio))
unfolding step
operates-Capacity c (adds_audio pcm rate) now timeout id audio s v =
    submit-Capacity c now _ s v refl
operates-Capacity c finishes_stream now timeout id audio s v = submit-Capacity c now _ s v refl
operates-Capacity c finishes_segment now timeout id audio s v = submit-Capacity c now _ s v refl
