-- ===== src/Streaming/Replay/Updates.antt =====
-- The methods of `StreamingTranscriptState` (app/asr_streaming.py) against a client that replays
-- the events that they return.
use model_test.Prelude.{
  ℕ, ◌+◌, ◌≡◌, refl, sym, ap, ◌∙◌, inl, inr, List, [], ◌∷◌, ◌++◌, Option, none, some, Bool, true,
  false, not, ◌&&◌, arith, length, drop, append-nil, append_assoc, Text, text_eq_sound, starts_with,
  starts_with_of, starts_with_sound, Bool-cases, if◌then◌else◌, Result, ok, err, Error,
  prefix_conflict,
}
use model_test.Streaming.Chars.{Unicode}
use model_test.Streaming.Sentences.{first_punctuation_candidate}
use model_test.Streaming.State.{
  TranscriptState, StablePunctuationTracker, Events, partial, emit, emit_change, commit_prefix,
  commit_exact, commit_all_complete_sentences, commit_immediate, observe, observe_candidate,
  is_empty, no_events, tracker_reset, publish_update, apply_model_update, unconfirmed_tail,
  apply_segment_snapshot, commit_pending, append_independent_segment,
}
use model_test.Streaming.Replay.{Sends, display_of}
use model_test.Streaming.Replay.Parts.{
  emit_change-Sends, commit_prefix-Sends, commit_exact-Sends,
  commit_all_complete_sentences-IsCommit, IsCommit, candidate_prefix, emit_sentences_state,
}

-- What is said of both ways through `commit_immediate` holds of its result.
commit_immediate_cases {ℓ} :
    (P : Events × TranscriptState → Type ℓ) (u : Unicode) (s : TranscriptState)
    (f : TranscriptState → Events × TranscriptState)
    → P (f s)
    → ((r : Events × TranscriptState) → IsCommit s r → no_events r.0 ≡ false → P r)
    → P (commit_immediate u s f)
unfolding commit_immediate
commit_immediate_cases P u s f pf pc =
    let r = commit_all_complete_sentences u s in
    elim (Bool-cases (s.immediate_commit_on_punctuation && not (no_events r.0))) [
      | inl e ↦ rw e (pc r (commit_all_complete_sentences-IsCommit u s) (ground arith))
      | inr e ↦ rw e pf
    ]

IsCommit-Sends :
    (old : Text) (s : TranscriptState) (r : Events × TranscriptState)
    → IsCommit s r
    → no_events r.0 ≡ false
    → Sends (record { committed = s.confirmed_text; tail = old }) s.sequence r.0 r.1
IsCommit-Sends old s r (IsCommit.unchanged e) h =
    absurd (false_ne (sym h ∙ ap (λ x. no_events x.0) e))
  where
    false_ne : ¬ (false ≡ true)
    false_ne p = cc
IsCommit-Sends old s r (IsCommit.commits es prefix tail e k eq) h =
    rw eq (commit_exact-Sends es prefix tail old s e)

observe_candidate-some :
    (next : Text) (time : ℕ) (t : StablePunctuationTracker) (p : Text)
    → (observe_candidate next time t).0 ≡ some p
    → (is_empty p ≡ false) × (p ≡ next)
unfolding observe_candidate
observe_candidate-some next time t p h = ground (arith, text_eq_sound next t.candidate)

chosen_prefix :
    (u : Unicode) (text p : Text) (m : ℕ) (enabled : Bool)
    → p ≡ (if enabled then first_punctuation_candidate u text m else [])
    → is_empty p ≡ false
    → starts_with text p ≡ true
chosen_prefix u text p m false e h = ground (arith, ap is_empty e)
chosen_prefix u text p m true e h =
    starts_with_of text p (drop (length p) text) (rw e (candidate_prefix u text m))

-- A committed prefix is not empty, and is a prefix of the text.
observe-some :
    (u : Unicode) (text : Text) (time : ℕ) (t : StablePunctuationTracker) (p : Text)
    → (observe u text time t).0 ≡ some p
    → (is_empty p ≡ false) × (starts_with text p ≡ true)
unfolding observe
observe-some u text time t p h =
    let (a, b) = observe_candidate-some _ time t p h in
    (a, chosen_prefix u text p t.min_chars t.enabled b a)

-- What an update does to the confirmed and the partial text: nothing is lost between the two.
abbrev SameText : TranscriptState → TranscriptState → Type 0
SameText s t = t.confirmed_text ++ t.partial_text ≡ s.confirmed_text ++ s.partial_text

-- The events bring a client from the old tail to the new state, which has the same text.
record IsUpdate (old : Text) (s : TranscriptState) (r : Events × TranscriptState) : Type 0 where
  sends : Sends (record { committed = s.confirmed_text; tail = old }) s.sequence r.0 r.1
  same : SameText s r.1

emit_change-IsUpdate : (old : Text) (s : TranscriptState) → IsUpdate old s (emit_change old s)
unfolding emit_change
emit_change-IsUpdate old s = record { sends = emit_change-Sends old s; same = ground arith }

commit_exact-same :
    (es : List Text) (prefix tail : Text) (s : TranscriptState)
    → prefix ++ tail ≡ s.partial_text
    → SameText s (commit_exact es prefix tail s).1
unfolding commit_exact
commit_exact-same es prefix tail s h =
    let s₀ : TranscriptState = record s {
      confirmed_text = s.confirmed_text ++ prefix;
      partial_text = tail;
      stable = tracker_reset s.stable;
    } in
    rw (emit_sentences_state es s₀)
      (append_assoc s.confirmed_text prefix tail ∙ ap (◌++◌ s.confirmed_text) h)

IsCommit-same : (s : TranscriptState) (r : Events × TranscriptState) → IsCommit s r → SameText s r.1
IsCommit-same s r (IsCommit.unchanged e) = rw e
IsCommit-same s r (IsCommit.commits es prefix tail e k eq) =
    rw eq (commit_exact-same es prefix tail s k)

commit_prefix-same :
    (p : Text) (s : TranscriptState)
    → starts_with s.partial_text p ≡ true
    → SameText s (commit_prefix p s).1
unfolding commit_prefix
commit_prefix-same p s h = ground (
  arith,
  starts_with_sound s.partial_text p,
  append_assoc s.confirmed_text p (drop (length p) s.partial_text),
)

commit_immediate-IsUpdate :
    (u : Unicode) (old : Text) (s : TranscriptState)
    (f : TranscriptState → Events × TranscriptState)
    → IsUpdate old s (f s)
    → IsUpdate old s (commit_immediate u s f)
commit_immediate-IsUpdate u old s f h =
    commit_immediate_cases (IsUpdate old s) u s f h
      λ r c n. record { sends = IsCommit-Sends old s r c n; same = IsCommit-same s r c }

publish_update-IsUpdate :
    (u : Unicode) (old : Text) (p : Option Text) (s : TranscriptState)
    → ((q : Text) → p ≡ some q → (is_empty q ≡ false) × (starts_with s.partial_text q ≡ true))
    → IsUpdate old s (publish_update u old p s)
unfolding publish_update
publish_update-IsUpdate u old none s h =
    commit_immediate-IsUpdate u old s (emit_change old) (emit_change-IsUpdate old s)
publish_update-IsUpdate u old (some p) s h =
    let (e, k) = h p refl in
    rw e (record { sends = commit_prefix-Sends p old s e k; same = commit_prefix-same p s k })

unconfirmed_tail-ok :
    (text tail : Text) (s : TranscriptState)
    → unconfirmed_tail text s ≡ ok tail
    → s.confirmed_text ++ tail ≡ text
unfolding unconfirmed_tail
unconfirmed_tail-ok text tail s h = ground (arith, starts_with_sound text s.confirmed_text)

unconfirmed_tail-err :
    (text : Text) (e : Error) (s : TranscriptState)
    → unconfirmed_tail text s ≡ err e
    → (e ≡ prefix_conflict) × (starts_with text s.confirmed_text ≡ false)
unfolding unconfirmed_tail
unconfirmed_tail-err text e s h = ground arith

-- A method's outcome: events that bring a client along, or an error that changes no text.
abbrev pub Updated : Text → ℕ → TranscriptState → Result Events × TranscriptState → Type 0
Updated text n s (ok es, t) =
    Sends (display_of s) s.sequence es t × (t.confirmed_text ++ t.partial_text ≡ text)
Updated text n s (err e, t) =
    (e ≡ prefix_conflict)
    × (starts_with text s.confirmed_text ≡ false)
    × (t ≡ record s { processed_samples = s.processed_samples + n })

update_cases :
    (u : Unicode) (text : Text) (n : ℕ) (s : TranscriptState) (r : Result Text)
    → unconfirmed_tail text (record s { processed_samples = s.processed_samples + n }) ≡ r
    → Updated text n s (apply_model_update u text n s)
unfolding apply_model_update
update_cases u text n s (err e) h =
    let counted : TranscriptState = record s { processed_samples = s.processed_samples + n } in
    let (a, b) = unconfirmed_tail-err text e counted h in rw (h, apply_model_update) (a, b, refl)
update_cases u text n s (ok tail) h =
    let counted : TranscriptState = record s { processed_samples = s.processed_samples + n } in
    let (p, tracker) = observe u tail counted.processed_samples counted.stable in
    let t : TranscriptState = record counted { partial_text = tail; stable = tracker } in
    let found = observe-some u tail counted.processed_samples counted.stable in
    let r = publish_update-IsUpdate u s.partial_text p t found in
    rw (h, apply_model_update) (r.sends, r.same ∙ unconfirmed_tail-ok text tail counted h)

-- `apply_model_update` either returns events that bring a client from the old to the new confirmed
-- and partial text, numbered on, and these two texts then make up the given text; or it raises
-- `ConfirmedPrefixConflict`, only for a text that does not start with the confirmed one, and then
-- it has changed nothing but the sample count.
pub apply_model_update-Updated :
    (u : Unicode) (text : Text) (n : ℕ) (s : TranscriptState)
    → Updated text n s (apply_model_update u text n s)
apply_model_update-Updated u text n s = update_cases u text n s _ refl

pub append_segment-Sends :
    (u : Unicode) (text : Text) (s : TranscriptState)
    → let r = append_independent_segment u text s in
      Sends (display_of s) s.sequence r.0 r.1
      × (r.1.confirmed_text ++ r.1.partial_text ≡ (s.confirmed_text ++ s.partial_text) ++ text)
unfolding append_independent_segment
append_segment-Sends u [] s = (
  record { shown = refl; numbered = refl },
  sym (append-nil (s.confirmed_text ++ s.partial_text)),
)
append_segment-Sends u (c ∷ text) s =
    let s' : TranscriptState = record s { partial_text = s.partial_text ++ c ∷ text } in
    let r =
      commit_immediate-IsUpdate u s.partial_text s' (λ t. emit partial t.partial_text t)
        (record { sends = ground arith; same = refl }) in
    (r.sends, r.same ∙ sym (append_assoc s.confirmed_text s.partial_text (c ∷ text)))

pub commit_pending-Sends :
    (u : Unicode) (s : TranscriptState)
    → Sends (display_of s) s.sequence (commit_pending u s).0 (commit_pending u s).1
unfolding commit_pending
commit_pending-Sends u s = ground arith

pub snapshot-Sends :
    (id : ℕ) (text : Text) (n : ℕ) (s t : TranscriptState) (es : Events)
    → apply_segment_snapshot id text n s ≡ (ok es, t)
    → Sends (display_of s) s.sequence es t
unfolding apply_segment_snapshot
snapshot-Sends id text n s t es h = ground (arith, text_eq_sound text s.partial_text)

pub snapshot_error :
    (id : ℕ) (text : Text) (n : ℕ) (s t : TranscriptState) (e : Error)
    → apply_segment_snapshot id text n s ≡ (err e, t)
    → t ≡ s
unfolding apply_segment_snapshot
snapshot_error id text n s t e h = ground arith
