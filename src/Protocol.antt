-- ===== src/Protocol.antt =====
-- app/asr_gateway_protocol.py: the session of messages to a client. Metadata is not looked into and is of
-- any type `M`. The commands are in Protocol/Commands.antt.
pub mod Commands
pub mod Terminal
pub mod Examples
use model_test.Prelude.{
  ℕ, ◌+◌, List, [], ◌∷◌, ◌++◌, Option, none, some, Bool, true, false, ◌&&◌, ◌||◌, not, any, ltb,
  ◌==◌, if◌then◌else◌, length, map, Text, text_eq, codes, Result, ok, err, Error, value_error,
  runtime_error, ◌>>=◌, ◌>>◌, raise_if, all,
}
use model_test.Prelude.Dict.{Dict, lookup}
use model_test.Backends.Defs.{
  ResultMode, cumulative_snapshot, replaceable_segment, confirmed_plus_tail,
}
use model_test.Streaming.Chars.{Unicode, strip}
use model_test.Streaming.State.{
  EventType, TranscriptEvent, TranscriptState, Events, ready, error, is_empty, new_event,
  apply_model_update, apply_segment_snapshot, commit_pending, final_event,
}
use model_test.Streaming.State

pub record ProtocolSession : Type 0 where
  pub state : TranscriptState
  pub terminal : Bool

-- `__init__`
unfoldable pub init : ℕ → Bool → ProtocolSession
init sample_rate segment_local = record {
  state = State.init sample_rate false sample_rate 1 1 false segment_local;
  terminal = false;
}

-- What a message carries beside the event
pub data Extra (M : Type 0) : Type 0 where
  no_extra : Extra M
  metadata : M → Extra M
  failure : Text → Text → Extra M

pub record Message (M : Type 0) : Type 0 where
  pub event : TranscriptEvent
  pub extra : Extra M

-- A result, and the session after it
abbrev pub Outcome : Type 0 → Type 0
Outcome M = Result (List (Message M)) × ProtocolSession

abbrev closed_error : Error
closed_error = runtime_error "protocol session is terminal"

-- The update with the tail, behind the events before it
abbrev pub behind : Events → Result Events × TranscriptState → Result Events × TranscriptState
behind before (ok es, s) = (ok (before ++ es), s)
behind before (err e, s) = (err e, s)

-- `apply_result` on the confirmed text's update: its events are dropped
unfoldable pub after_confirmed :
    Unicode → Text → Result Events × TranscriptState → Result Events × TranscriptState
after_confirmed u tail (err e, s) = (err e, s)
after_confirmed u tail (ok dropped, s) =
    let (events, s₁) = commit_pending u s in
    behind events (apply_model_update u (s₁.confirmed_text ++ tail) 0 s₁)

-- `apply_result` in mode `CONFIRMED_PLUS_TAIL`
unfoldable pub confirm_and_tail :
    Unicode → Text → Text → ℕ → TranscriptState → Result Events × TranscriptState
confirm_and_tail u confirmed tail samples s =
    if is_empty confirmed
    then apply_model_update u (s.confirmed_text ++ tail) samples s
    else after_confirmed u tail (apply_model_update u (s.confirmed_text ++ confirmed) samples s)

-- `apply_result`, on the texts of the mode
unfoldable pub apply_mode :
    Unicode
    → ResultMode
    → Text
    → Text
    → Text
    → ℕ
    → ℕ
    → TranscriptState
    → Result Events × TranscriptState
apply_mode u cumulative_snapshot text confirmed tail samples id s =
    apply_model_update u text samples s
apply_mode u replaceable_segment text confirmed tail samples id s =
    apply_segment_snapshot id text samples s
apply_mode u confirmed_plus_tail text confirmed tail samples id s =
    confirm_and_tail u confirmed tail samples s

abbrev pub apply_tail : Unicode → Option Text → TranscriptState → Result Events × TranscriptState
apply_tail u none s = (ok [], s)
apply_tail u (some tail) s = apply_model_update u (s.confirmed_text ++ tail) 0 s

module _ {M : Type 0} where
  -- `_serialize`
  abbrev pub serialize : Extra M → TranscriptEvent → Message M
  serialize extra event = record { event = event; extra = extra }

  -- `extra = {"metadata": ...} if metadata is not None else {}`
  abbrev pub extra_of : Option M → Extra M
  extra_of none = no_extra
  extra_of (some m) = metadata m

  -- Events or an error of the state, as messages
  abbrev pub outcome : Option M → ProtocolSession → Result Events × TranscriptState → Outcome M
  outcome m p (ok es, s) = (ok (map (serialize (extra_of m)) es), record p { state = s })
  outcome m p (err e, s) = (err e, record p { state = s })

  -- `_require_open`, and then the rest of the method
  abbrev pub when_open : ProtocolSession → Outcome M → Outcome M
  when_open p r = if p.terminal then (err closed_error, p) else r

  -- `ready`
  unfoldable pub send_ready : Option M → ProtocolSession → Outcome M
  send_ready m p =
      let (event, s) = new_event ready [] p.state in
      when_open p (ok (serialize (extra_of m) event ∷ []), record p { state = s })

  -- `apply_result`
  unfoldable pub apply_result :
      Unicode → ResultMode → Text → Text → Text → ℕ → ℕ → Option M → ProtocolSession → Outcome M
  apply_result u mode text confirmed tail samples id m p =
      when_open p (outcome m p (apply_mode u mode text confirmed tail samples id p.state))

  -- `segment`
  unfoldable pub segment : Unicode → Option M → ProtocolSession → Outcome M
  segment u m p =
      let (events, s) = commit_pending u p.state in when_open p (outcome m p (ok events, s))

  -- `final`, after the tail was applied
  unfoldable pub send_final :
      Option M → ProtocolSession → Result Events × TranscriptState → Outcome M
  send_final m p (err e, s) = (err e, record p { state = s })
  send_final m p (ok dropped, s) =
      let (event, s₁) = final_event s in
      (ok (serialize (extra_of m) event ∷ []), record { state = s₁; terminal = true })

  -- `final`
  unfoldable pub final : Unicode → Option Text → Option M → ProtocolSession → Outcome M
  final u tail m p = when_open p (send_final m p (apply_tail u tail p.state))

  -- `error`, on the name of the exception's class
  unfoldable pub send_error : Text → Text → ProtocolSession → Outcome M
  send_error name code p =
      let (event, s) = new_event error [] p.state in
      when_open p (
        ok (serialize (failure code (name ++ codes ": operation failed")) event ∷ []),
        record { state = s; terminal = true },
      )

pub data Call (M : Type 0) : Type 0 where
  readies : Option M → Call M
  applies : ResultMode → Text → Text → Text → ℕ → ℕ → Option M → Call M
  segments : Option M → Call M
  finals : Option Text → Option M → Call M
  errors : Text → Text → Call M

module _ {M : Type 0} where
  unfoldable pub perform : Unicode → Call M → ProtocolSession → Outcome M
  perform u (readies m) p = send_ready m p
  perform u (applies mode text confirmed tail samples id m) p =
      apply_result u mode text confirmed tail samples id m p
  perform u (segments m) p = segment u m p
  perform u (finals tail m) p = final u tail m p
  perform u (errors name code) p = send_error name code p

  -- A call that raises sends nothing.
  abbrev pub sent : Result (List (Message M)) → List (Message M)
  sent (ok ms) = ms
  sent (err e) = []

  unfoldable pub run :
      Unicode → List (Call M) → ProtocolSession → List (Message M) × ProtocolSession
  run u [] p = ([], p)
  run u (c ∷ cs) p =
      let (r, p') = perform u c p in let (ms, p'') = run u cs p' in (sent r ++ ms, p'')
