-- ===== src/Protocol/Terminal.antt =====
-- A session of app/asr_gateway_protocol.py ends with its terminal message.
use model_test.Prelude.{
  ◌≡◌, refl, List, [], ◌∷◌, Option, Bool, true, false, ◌&&◌, Result, ok, err, is_ok, ◌∙◌, arith,
  runtime_error,
}
use model_test.Streaming.Chars.{Unicode}
use model_test.Streaming.State.{Events, TranscriptState, commit_pending}
use model_test.Protocol.{
  ProtocolSession, Call, readies, applies, segments, finals, errors, perform, run, send_ready,
  apply_result, segment, final, send_error, send_final, apply_tail, Outcome, when_open, outcome,
  apply_mode,
}

module _ {M : Type 0} where
  pub perform-closed :
      (u : Unicode) (c : Call M) (p : ProtocolSession)
      → p.terminal ≡ true
      → perform u c p ≡ (err (runtime_error "protocol session is terminal"), p)
  unfolding perform send_ready apply_result segment final send_error
  perform-closed u (readies m) p h = rw h refl
  perform-closed u (applies mode text confirmed tail samples id m) p h = rw h refl
  perform-closed u (segments m) p h = rw h refl
  perform-closed u (finals tail m) p h = rw h refl
  perform-closed u (errors name code) p h = rw h refl

  pub run-closed :
      (u : Unicode) (cs : List (Call M)) (p : ProtocolSession)
      → p.terminal ≡ true
      → run u cs p ≡ ([], p)
  unfolding run
  run-closed u [] p h = refl
  run-closed u (c ∷ cs) p h = rw (perform-closed u c p h) (rw (run-closed u cs p h) refl)

  -- The calls that end a session
  abbrev pub is_closing : Call M → Bool
  is_closing (finals tail m) = true
  is_closing (errors name code) = true
  is_closing _ = false

  send_final-terminal :
      (m : Option M) (p : ProtocolSession) (r : Result Events × TranscriptState)
      → p.terminal ≡ false
      → (send_final m p r).1.terminal ≡ is_ok (send_final m p r).0
  unfolding send_final
  send_final-terminal m p (ok es, s) h = refl
  send_final-terminal m p (err e, s) h = h

  open_when :
      (p : ProtocolSession) (r : Outcome M)
      → p.terminal ≡ false
      → (when_open p r).1.terminal ≡ r.1.terminal
  open_when p r h = rw h refl

  outcome-terminal :
      (m : Option M) (p : ProtocolSession) (r : Result Events × TranscriptState)
      → (outcome m p r).1.terminal ≡ p.terminal
  outcome-terminal m p (ok es, s) = refl
  outcome-terminal m p (err e, s) = refl

  perform-closing :
      (u : Unicode) (c : Call M) (p : ProtocolSession)
      → p.terminal ≡ false
      → (perform u c p).1.terminal ≡ (is_closing c && is_ok (perform u c p).0)
  unfolding perform send_ready apply_result segment final send_error
  perform-closing u (readies m) p h = rw h refl
  perform-closing u (applies mode text confirmed tail samples id m) p h =
      let r = apply_mode u mode text confirmed tail samples id p.state in
      open_when p (outcome m p r) h ∙ outcome-terminal m p r ∙ h
  perform-closing u (segments m) p h =
      let (events, s) = commit_pending u p.state in open_when p (outcome m p (ok events, s)) h ∙ h
  perform-closing u (finals tail m) p h =
      let r = apply_tail u tail p.state in let e = send_final-terminal m p r h in ground (arith, e)
  perform-closing u (errors name code) p h = rw h refl

  -- An open session is ended by `final` and `error` when they do not raise, and by no other call.
  -- Once it is ended, no call sends a message or changes it.
  pub session_ends :
      (u : Unicode) (c : Call M) (cs : List (Call M)) (p : ProtocolSession)
      → p.terminal ≡ false
      → let (r, p') = perform u c p in
        (p'.terminal ≡ (is_closing c && is_ok r)) × (p'.terminal ≡ true → run u cs p' ≡ ([], p'))
  session_ends u c cs p h = (perform-closing u c p h, run-closed u cs (perform u c p).1)
