-- ===== src/Streaming/Calls.antt =====
-- Sequences of calls of `StreamingTranscriptState` (app/asr_streaming.py), and what a client shows.
use model_test.Prelude.{ℕ, ◌≡◌, refl, List, [], ◌∷◌, ◌++◌, Text, Result, ok, err}
use model_test.Streaming.Chars.{Unicode}
use model_test.Streaming.State.{
  TranscriptState, Events, EventType, ready, final, error, emit, apply_model_update,
  apply_segment_snapshot, commit_pending, append_independent_segment, append_final, finish,
  reset_segment,
}
use model_test.Streaming.Replay.{Sends, display_of}
use model_test.Streaming.Replay.Parts.{Sends-append}
use model_test.Streaming.Replay.Updates.{
  Updated, apply_model_update-Updated, append_segment-Sends, commit_pending-Sends, snapshot-Sends,
  snapshot_error,
}

pub data Call : Type 0 where
  model_update : Text → ℕ → Call
  segment_snapshot : ℕ → Text → ℕ → Call
  commits_pending : Call
  independent_segment : Text → Call
  finishes : Text → Call
  resets_segment : Call
  announces : EventType → Call

-- `new_event` is called for `ready` and `error` events, and for the `final` one.
abbrev announced : EventType → TranscriptState → Events × TranscriptState
announced ready s = emit ready [] s
announced error s = emit error [] s
announced _ s = emit final s.partial_text s

abbrev returned : Events × TranscriptState → Result Events × TranscriptState
returned (es, s) = (ok es, s)

pub perform : Unicode → Call → TranscriptState → Result Events × TranscriptState
perform u (model_update text n) s = apply_model_update u text n s
perform u (segment_snapshot id text n) s = apply_segment_snapshot id text n s
perform u commits_pending s = returned (commit_pending u s)
perform u (independent_segment text) s = returned (append_independent_segment u text s)
perform u (finishes text) s = finish u text s
perform u resets_segment s = (ok [], reset_segment s)
perform u (announces kind) s = returned (announced kind s)

-- A call that raises sends nothing.
abbrev pub sent : Result Events → Events
sent (ok es) = es
sent (err e) = []

pub run : Unicode → List Call → TranscriptState → Events × TranscriptState
run u [] s = ([], s)
run u (c ∷ cs) s = let (r, s') = perform u c s in let (es, t) = run u cs s' in (sent r ++ es, t)

Updated-Sends :
    (text : Text) (n : ℕ) (s : TranscriptState) (r : Result Events) (t : TranscriptState)
    → Updated text n s (r, t)
    → Sends (display_of s) s.sequence (sent r) t
Updated-Sends text n s (ok es) t h = h.0
Updated-Sends text n s (err e) t h = rw h.2 (record { shown = refl; numbered = refl })

append_final-Sends :
    (text : Text) (s : TranscriptState) (r : Result Events × TranscriptState)
    → Updated text 0 s r
    → Sends (display_of s) s.sequence (sent (append_final r).0) (append_final r).1
unfolding append_final
append_final-Sends text s (ok es, t) h =
    Sends-append h.0 (record { shown = refl; numbered = (refl, refl) })
append_final-Sends text s (err x, t) h = Updated-Sends text 0 s (err x) t h

snapshot_cases :
    (id : ℕ) (text : Text) (n : ℕ) (s t : TranscriptState) (r : Result Events)
    → apply_segment_snapshot id text n s ≡ (r, t)
    → Sends (display_of s) s.sequence (sent r) t
snapshot_cases id text n s t (ok es) e = snapshot-Sends id text n s t es e
snapshot_cases id text n s t (err x) e =
    rw (snapshot_error id text n s t x e) (record { shown = refl; numbered = refl })

perform-Sends :
    (u : Unicode) (c : Call) (s : TranscriptState)
    → Sends (display_of s) s.sequence (sent (perform u c s).0) (perform u c s).1
unfolding perform emit finish reset_segment
perform-Sends u (model_update text n) s =
    Updated-Sends text n s _ _ (apply_model_update-Updated u text n s)
perform-Sends u (segment_snapshot id text n) s = snapshot_cases id text n s _ _ refl
perform-Sends u commits_pending s = commit_pending-Sends u s
perform-Sends u (independent_segment text) s = (append_segment-Sends u text s).0
perform-Sends u (finishes text) s =
    append_final-Sends text s _ (apply_model_update-Updated u text 0 s)
perform-Sends u resets_segment s = record { shown = refl; numbered = refl }
perform-Sends u (announces ready) s = record { shown = refl; numbered = (refl, refl) }
perform-Sends u (announces error) s = record { shown = refl; numbered = (refl, refl) }
perform-Sends u (announces _) s = record { shown = refl; numbered = (refl, refl) }

-- Whatever calls are made, a client that replays the returned events from what the state was at
-- first shows the confirmed and the partial text of the state at the end, and the events are
-- numbered on without a gap.
pub run-Sends :
    (u : Unicode) (cs : List Call) (s : TranscriptState)
    → Sends (display_of s) s.sequence (run u cs s).0 (run u cs s).1
unfolding run
run-Sends u [] s = record { shown = refl; numbered = refl }
run-Sends u (c ∷ cs) s =
    let (r, s') = perform u c s in Sends-append (perform-Sends u c s) (run-Sends u cs s')
