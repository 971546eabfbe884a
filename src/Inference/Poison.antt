-- ===== src/Inference/Poison.antt =====
-- A session that app/asr_inference.py has poisoned, and what its callers still can do with it.
use model_test.Prelude.{
  ℕ, ◌+◌, ◌≡◌, refl, ap, map, List, [], ◌∷◌, Option, true, false, arith, Text, err,
  coordinator_error, session_poisoned,
}
use model_test.Inference.State.{
  Settings, Action, add_audio, finish_stream, finish_segment, abort_stream, transcribe_stream_chunk,
  Coordinator, is_in, require_accepting, require_session_admissible,
}
use model_test.Inference.Admission.{
  submit, submit_accepted, submit_abort, submit_chunk, operation_request, poison_if_busy,
  reserve_stream, reserve_operation,
}
use model_test.Inference.Machine.{
  Step, operates, chunks, aborts, step, run, Operation, adds_audio, finishes_stream,
  finishes_segment,
}

-- A session that is poisoned, active and not busy, in a coordinator that takes jobs
pub record Stranded (id : Text) (s : Coordinator) : Type 0 where
  pub accepting : s.accepting ≡ true
  pub loaded : s.load_error ≡ false
  pub active : is_in id s.active_sessions ≡ true
  pub poisoned : is_in id s.poisoned_sessions ≡ true
  pub free : is_in id s.busy_sessions ≡ false

abbrev pub RaisesPoisoned : Settings → ℕ → ℕ → Text → Action → ℕ → Coordinator → Type 0
RaisesPoisoned c now timeout id action audio s =
    submit c now (operation_request action id audio timeout) s
    ≡ (err (coordinator_error session_poisoned), record s { next_sequence = s.next_sequence + 1 })

submit-RaisesPoisoned :
    (c : Settings) (now timeout : ℕ) (id : Text) (action : Action) (audio : ℕ) (s : Coordinator)
    → Stranded id s
    → RaisesPoisoned c now timeout id action audio s
unfolding submit submit_accepted reserve_stream reserve_operation require_accepting
    require_session_admissible
submit-RaisesPoisoned c now timeout id action audio s v = ground (arith, v)

abort_refused :
    (c : Settings) (now timeout : ℕ) (id : Text) (s : Coordinator)
    → Stranded id s
    → submit_abort c now timeout id s
      ≡ (err (coordinator_error session_poisoned), record s { next_sequence = s.next_sequence + 1 })
unfolding submit_abort poison_if_busy
abort_refused c now timeout id s v =
    let h = submit-RaisesPoisoned c now timeout id abort_stream 0 s v in ground (arith, v, h)

-- A call for a session, and the steps of many
pub data Call : Type 0 where
  operation : Operation → ℕ → ℕ → ℕ → Call
  chunk : Text → Option Text → ℕ → ℕ → ℕ → Call
  abort : ℕ → ℕ → Call

abbrev pub call_on : Text → Call → Step
call_on id (operation o now timeout audio) = operates o now timeout id audio
call_on id (chunk path language now timeout audio) = chunks path language now timeout id audio
call_on id (abort now timeout) = aborts now timeout id

abbrev pub Unchanged : Coordinator → Coordinator → Type 0
Unchanged s t = t ≡ record s { next_sequence = t.next_sequence }

submit-Unchanged :
    (c : Settings) (now timeout : ℕ) (id : Text) (action : Action) (audio : ℕ) (s : Coordinator)
    → Stranded id s
    → Unchanged s (submit c now (operation_request action id audio timeout) s).1
submit-Unchanged c now timeout id action audio s v =
    let k = submit-RaisesPoisoned c now timeout id action audio s v in ground (arith, k)

call-Unchanged :
    (c : Settings) (id : Text) (s : Coordinator) (e : Call)
    → Stranded id s
    → Unchanged s (step c s (call_on id e))
unfolding step submit_chunk
call-Unchanged c id s (operation (adds_audio pcm rate) now timeout audio) v =
    submit-Unchanged c now timeout id (add_audio pcm rate) audio s v
call-Unchanged c id s (operation finishes_stream now timeout audio) v =
    submit-Unchanged c now timeout id finish_stream audio s v
call-Unchanged c id s (operation finishes_segment now timeout audio) v =
    submit-Unchanged c now timeout id finish_segment audio s v
call-Unchanged c id s (chunk path language now timeout audio) v =
    let k = submit-Unchanged c now timeout id (transcribe_stream_chunk path language) audio s v in
    ground (arith, k)
call-Unchanged c id s (abort now timeout) v =
    let k = abort_refused c now timeout id s v in ground (arith, k)

Stranded-Unchanged : (id : Text) (s t : Coordinator) → Stranded id s → Unchanged s t → Stranded id t
Stranded-Unchanged id s t v h = ground (arith, v, h)

run_refused :
    (c : Settings) (id : Text) (s : Coordinator) (es : List Call)
    → Stranded id s
    → Unchanged s (run c s (map (call_on id) es))
unfolding run
run_refused c id s [] v = refl
run_refused c id s (e ∷ es) v =
    let k = call-Unchanged c id s e v in
    let l =
      run_refused c id (step c s (call_on id e)) es
        (Stranded-Unchanged id s (step c s (call_on id e)) v k) in
    ground (arith, k, l)

-- While the coordinator takes jobs, a session that is poisoned and active, and that has no unfinished
-- operation, stays as it is under any calls of `add_audio`, `finish_stream`, `finish_segment`,
-- `transcribe_stream_chunk` and `abort_stream` for it: of the whole state only the next number of a
-- job changes, so the session's reservation stays, and afterwards `abort_stream` still raises
-- `ASRSessionPoisoned`.
pub poison_blocks_abort :
    (c : Settings) (id : Text) (s : Coordinator) (es : List Call) (now timeout : ℕ)
    → Stranded id s
    → let t = run c s (map (call_on id) es) in
      (t ≡ record s { next_sequence = t.next_sequence })
      × ((submit_abort c now timeout id t).0 ≡ err (coordinator_error session_poisoned))
poison_blocks_abort c id s es now timeout v =
    let k = run_refused c id s es v in
    let t = run c s (map (call_on id) es) in
    (k, ap (λ r. r.0) (abort_refused c now timeout id t (Stranded-Unchanged id s t v k)))
