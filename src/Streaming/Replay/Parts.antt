-- ===== src/Streaming/Replay/Parts.antt =====
-- The helpers of `StreamingTranscriptState` (app/asr_streaming.py), each with what it sends.

use model_test.Prelude.{
  ℕ, ◌+◌, ◌-◌, ◌≡◌, refl, ap, ◌∙◌, inl, inr, List, [], ◌∷◌, ◌++◌, Option, none, some, true, false,
  arith, length, take, drop, concat, append-nil, append_assoc, Text, text_eq_sound, starts_with,
  take-append-suffix, take-append-drop-length, Option-cases, if◌then◌else◌,
}
use model_test.Streaming.Chars.{Unicode}
use model_test.Streaming.Sentences.{
  first_punctuation_candidate, split_committed_sentences, sentence_boundary_end,
}
use model_test.Streaming.Sentences.Cover.{
  IsCandidate, first_punctuation_candidate-IsCandidate, split_committed_sentences-suffix,
}
use model_test.Streaming.State.{
  TranscriptState, Events, partial, emit_change, emit_sentences, commit_prefix, prepend,
  exact_sentences, commit_exact, commit_all_complete_sentences, is_empty, tracker_reset,
}
use model_test.Streaming.Replay.{Display, replay, show, Numbered, Sends, display_of}

pub emit_change-Sends :
    (previous : Text) (s : TranscriptState)
    → Sends
        (record { committed = s.confirmed_text; tail = previous })
        s.sequence
        (emit_change previous s).0
        (emit_change previous s).1
unfolding emit_change
emit_change-Sends previous s = ground (arith, text_eq_sound s.partial_text previous)

-- A prefix of the partial text is committed, whatever tail the client shows.
pub commit_prefix-Sends :
    (prefix tail : Text) (s : TranscriptState)
    → is_empty prefix ≡ false
    → starts_with s.partial_text prefix ≡ true
    → Sends
        (record { committed = s.confirmed_text; tail = tail })
        s.sequence
        (commit_prefix prefix s).0
        (commit_prefix prefix s).1
unfolding commit_prefix
commit_prefix-Sends prefix tail s e h = ground arith

emit_sentences-Sends :
    (sentences : List Text) (s : TranscriptState) (d : Display)
    → (replay d (emit_sentences sentences s).0
        ≡ record d { committed = d.committed ++ concat sentences })
      × Numbered s.sequence (emit_sentences sentences s).0 (emit_sentences sentences s).1.sequence
unfolding emit_sentences
emit_sentences-Sends [] s d = (ground (arith, append-nil d.committed), refl)
emit_sentences-Sends (t ∷ ts) s d =
    let ih =
      emit_sentences-Sends ts (record s { sequence = s.sequence + 1 })
        (record d { committed = d.committed ++ t }) in
    ground (arith, ih, append_assoc d.committed t (concat ts))

-- A candidate is a prefix of the text.
pub candidate_prefix :
    (u : Unicode) (text : Text) (m : ℕ)
    → let r = first_punctuation_candidate u text m in r ++ drop (length r) text ≡ text
candidate_prefix u text m = prefix _ (first_punctuation_candidate-IsCandidate u text m)
  where
    prefix : (r : Text) → IsCandidate u text m r → r ++ drop (length r) text ≡ text
    prefix r (IsCandidate.nothing e) = rw e
    prefix r (IsCandidate.sentence i c g h e l) =
        rw e (take-append-drop-length (sentence_boundary_end text i) text)

prepend-inv :
    (sentence : Text) (rest : Option (List Text)) (es : List Text)
    → (if is_empty sentence then none else prepend sentence rest) ≡ some es
    → (es' : List Text) × (rest ≡ some es') × (es ≡ sentence ∷ es')
prepend-inv [] rest es h = cc
prepend-inv (c ∷ t) none es h = cc
prepend-inv (c ∷ t) (some es') es h = (es', refl, ground arith)

exact_sentences-concat :
    (u : Unicode) (c : Text) (cs : List Text) (remaining : Text) (es : List Text)
    → exact_sentences u (c ∷ cs) remaining ≡ some es
    → concat es ≡ remaining
unfolding exact_sentences
exact_sentences-concat u _ [] remaining es h = ground (arith, append-nil remaining)
exact_sentences-concat u _ (c ∷ cs) remaining es h =
    let exact = first_punctuation_candidate u remaining 1 in
    let left = drop (length exact) remaining in
    let (es', rest, parts) = prepend-inv exact (exact_sentences u (c ∷ cs) left) es h in
    ap concat parts
    ∙ ap (◌++◌ exact) (exact_sentences-concat u c cs left es' rest)
    ∙ candidate_prefix u remaining 1

replay-append : (d : Display) (es fs : Events) → replay d (es ++ fs) ≡ replay (replay d es) fs
replay-append d [] fs = refl
replay-append d (e ∷ es) fs = replay-append (show e.event_type e.text d) es fs

Numbered-append :
    (m k n : ℕ) (es fs : Events) → Numbered m es k → Numbered k fs n → Numbered m (es ++ fs) n
Numbered-append m k n [] fs h g = rw h at g
Numbered-append m k n (e ∷ es) fs h g = (h.0, Numbered-append (m + 1) k n es fs h.1 g)

-- Sending more from the state that was reached
pub Sends-append :
    {d : Display} {m : ℕ} {es fs : Events} {s t : TranscriptState}
    → Sends d m es s
    → Sends (display_of s) s.sequence fs t
    → Sends d m (es ++ fs) t
Sends-append {d} {m} {es} {fs} {s} {t} a b = record {
  shown = replay-append d es fs ∙ ap (λ d'. replay d' fs) a.shown ∙ b.shown;
  numbered = Numbered-append m s.sequence t.sequence es fs a.numbered b.numbered;
}

-- Only the number of the next event changes.
pub emit_sentences_state :
    (sentences : List Text) (s : TranscriptState)
    → (emit_sentences sentences s).1
      ≡ record s { sequence = (emit_sentences sentences s).1.sequence }
unfolding emit_sentences
emit_sentences_state [] s = refl
emit_sentences_state (t ∷ ts) s = emit_sentences_state ts (record s { sequence = s.sequence + 1 })

pub commit_exact-Sends :
    (sentences : List Text) (prefix tail old : Text) (s : TranscriptState)
    → concat sentences ≡ prefix
    → Sends
        (record { committed = s.confirmed_text; tail = old })
        s.sequence
        (commit_exact sentences prefix tail s).0
        (commit_exact sentences prefix tail s).1
unfolding commit_exact
commit_exact-Sends sentences prefix tail old s e =
    let d : Display = record { committed = s.confirmed_text; tail = old } in
    let s₀ : TranscriptState = record s {
      confirmed_text = s.confirmed_text ++ prefix;
      partial_text = tail;
      stable = tracker_reset s.stable;
    } in
    let (es, s₁) = emit_sentences sentences s₀ in
    let sent = emit_sentences-Sends sentences s₀ d in
    record {
      shown =
          replay-append d es _
          ∙ ap (show partial s₁.partial_text) sent.0
          ∙ ground (arith, emit_sentences_state sentences s₀);
      numbered = Numbered-append s.sequence s₁.sequence (s₁.sequence + 1) es _ sent.1 (omega arith);
    }

-- What `commit_all_complete_sentences` returns: nothing, and the state as it was, or a commit of
-- the partial text up to a tail of it.
pub data IsCommit (s : TranscriptState) (r : Events × TranscriptState) : Type 0 where
  unchanged : r ≡ ([], s) → IsCommit s r
  commits :
      (sentences : List Text) (prefix tail : Text)
      → concat sentences ≡ prefix
      → prefix ++ tail ≡ s.partial_text
      → r ≡ commit_exact sentences prefix tail s
      → IsCommit s r

IsCommit-split :
    (u : Unicode) (s : TranscriptState) (committed : List Text) (prefix tail : Text)
    → prefix ++ tail ≡ s.partial_text
    → IsCommit s (elim committed [
      | [] ↦ ([], s)
      | c ∷ cs ↦ elim (exact_sentences u (c ∷ cs) prefix) [
        | none ↦ ([], s)
        | some sentences ↦ commit_exact sentences prefix tail s
      ]
    ])
IsCommit-split u s [] prefix tail h = IsCommit.unchanged refl
IsCommit-split u s (c ∷ cs) prefix tail h =
    elim (Option-cases (exact_sentences u (c ∷ cs) prefix)) [
      | inl e ↦ rw e (IsCommit.unchanged refl)
      | inr (es, e) ↦
          rw e (IsCommit.commits es prefix tail (exact_sentences-concat u c cs prefix es e) h refl)
    ]

pub commit_all_complete_sentences-IsCommit :
    (u : Unicode) (s : TranscriptState) → IsCommit s (commit_all_complete_sentences u s)
unfolding commit_all_complete_sentences
commit_all_complete_sentences-IsCommit u s =
    let (committed, tail) = split_committed_sentences u s.partial_text in
    let (k, e) = split_committed_sentences-suffix u s.partial_text in
    IsCommit-split u s committed (take (length s.partial_text - length tail) s.partial_text) tail
      (rw e (take-append-suffix k s.partial_text))
