-- ===== src/Streaming/State.antt =====
-- `StablePunctuationTracker` and `StreamingTranscriptState` (app/asr_streaming.py). Audio times and
-- `stable_seconds` are counted in samples, seconds times `sample_rate`. A method that may raise
-- returns the state beside the error.
use model_test.Prelude.{
  ℕ, ◌+◌, ◌-◌, List, [], ◌∷◌, ◌++◌, Option, none, some, Bool, true, false, ◌&&◌, not, ltb, ◌==◌,
  if◌then◌else◌, length, take, drop, Text, text_eq, starts_with, Result, ok, err, runtime_error,
  prefix_conflict,
}
use model_test.Streaming.Chars.{Unicode, strip}
use model_test.Streaming.Sentences.{first_punctuation_candidate, split_committed_sentences}

pub data EventType : Type 0 where
  ready partial sentence_final final error : EventType

pub record TranscriptEvent : Type 0 where
  pub event_type : EventType
  pub text : Text
  pub sequence : ℕ

pub record StablePunctuationTracker : Type 0 where
  pub enabled : Bool
  pub stable_samples : ℕ
  pub min_chars : ℕ
  pub min_updates : ℕ
  pub candidate : Text
  pub candidate_audio_time : ℕ
  pub candidate_updates : ℕ

-- `StablePunctuationTracker.reset`
abbrev pub tracker_reset : StablePunctuationTracker → StablePunctuationTracker
tracker_reset t = record t { candidate = []; candidate_audio_time = 0; candidate_updates = 0 }

abbrev pub is_empty : Text → Bool
is_empty [] = true
is_empty (c ∷ t) = false

-- `observe` on the next candidate
unfoldable pub observe_candidate :
    Text → ℕ → StablePunctuationTracker → Option Text × StablePunctuationTracker
observe_candidate next audio_time t =
    let seen = record t { candidate_updates = t.candidate_updates + 1 } in
    if is_empty next
    then (none, tracker_reset t)
    else if not (text_eq next t.candidate)
    then (
      none,
      record t { candidate = next; candidate_audio_time = audio_time; candidate_updates = 1 },
    )
    else if ltb seen.candidate_updates t.min_updates
    then (none, seen)
    else if ltb audio_time (t.candidate_audio_time + t.stable_samples)
    then (none, seen)
    else (some t.candidate, tracker_reset seen)

-- `StablePunctuationTracker.observe`
unfoldable pub observe :
    Unicode → Text → ℕ → StablePunctuationTracker → Option Text × StablePunctuationTracker
observe u text audio_time t =
    observe_candidate (if t.enabled then first_punctuation_candidate u text t.min_chars else [])
      audio_time t

pub record TranscriptState : Type 0 where
  pub sample_rate : ℕ
  pub confirmed_text : Text
  pub partial_text : Text
  pub processed_samples : ℕ
  pub sequence : ℕ
  pub segment_local_snapshots : Bool
  pub active_segment_id : Option ℕ
  pub immediate_commit_on_punctuation : Bool
  pub stable : StablePunctuationTracker

-- `__init__`
pub init : ℕ → Bool → ℕ → ℕ → ℕ → Bool → Bool → TranscriptState
init rate enabled stable_samples min_chars min_updates immediate segment_local = record {
  sample_rate = rate;
  confirmed_text = [];
  partial_text = [];
  processed_samples = 0;
  sequence = 0;
  segment_local_snapshots = segment_local;
  active_segment_id = none;
  immediate_commit_on_punctuation = immediate && not segment_local;
  stable = record {
    enabled = enabled && not segment_local;
    stable_samples = stable_samples;
    min_chars = min_chars;
    min_updates = min_updates;
    candidate = [];
    candidate_audio_time = 0;
    candidate_updates = 0;
  };
}

abbrev pub Events : Type 0
Events = List TranscriptEvent

abbrev pub make_event : EventType → Text → ℕ → TranscriptEvent
make_event kind text sequence = record { event_type = kind; text = text; sequence = sequence }

-- `_event`, which numbers the events; `new_event` is the same call
unfoldable pub new_event : EventType → Text → TranscriptState → TranscriptEvent × TranscriptState
new_event kind text s =
    (make_event kind text (s.sequence + 1), record s { sequence = s.sequence + 1 })

-- `[self._event(...)]`
unfoldable pub emit : EventType → Text → TranscriptState → Events × TranscriptState
unfolding new_event
emit kind text s = let (event, s') = new_event kind text s in (event ∷ [], s')

-- `[self._event("sentence_final", sentence), self._event("partial", self.partial_text)]`
unfoldable pub emit_commit : Text → TranscriptState → Events × TranscriptState
unfolding new_event
emit_commit sentence s =
    let (first, s₁) = new_event sentence_final sentence s in
    let (second, s₂) = new_event partial s₁.partial_text s₁ in (first ∷ second ∷ [], s₂)

-- One event for each sentence, in order
unfoldable pub emit_sentences : List Text → TranscriptState → Events × TranscriptState
unfolding new_event
emit_sentences [] s = ([], s)
emit_sentences (sentence ∷ sentences) s =
    let (event, s₁) = new_event sentence_final sentence s in
    let (events, s₂) = emit_sentences sentences s₁ in (event ∷ events, s₂)

-- `[self._event("partial", self.partial_text)]` if the partial text is not `previous`
unfoldable pub emit_change : Text → TranscriptState → Events × TranscriptState
unfolding emit
emit_change previous s =
    if text_eq s.partial_text previous then ([], s) else emit partial s.partial_text s

-- `_unconfirmed_tail`
unfoldable pub unconfirmed_tail : Text → TranscriptState → Result Text
unconfirmed_tail text s =
    if is_empty s.confirmed_text
    then ok text
    else if starts_with text s.confirmed_text
    then ok (drop (length s.confirmed_text) text)
    else err prefix_conflict

-- `_commit_prefix`
unfoldable pub commit_prefix : Text → TranscriptState → Events × TranscriptState
unfolding emit_commit
commit_prefix prefix s =
    if not (is_empty prefix) && starts_with s.partial_text prefix
    then emit_commit prefix (record s {
      confirmed_text = s.confirmed_text ++ prefix;
      partial_text = drop (length prefix) s.partial_text;
      stable = tracker_reset s.stable;
    })
    else ([], s)

abbrev pub prepend : Text → Option (List Text) → Option (List Text)
prepend sentence none = none
prepend sentence (some sentences) = some (sentence ∷ sentences)

-- The loop of `_commit_all_complete_sentences`, over the sentences to find
unfoldable pub exact_sentences : Unicode → List Text → Text → Option (List Text)
exact_sentences u [] remaining = some []
exact_sentences u (_ ∷ []) remaining = if is_empty remaining then none else some (remaining ∷ [])
exact_sentences u (_ ∷ c ∷ cs) remaining =
    let exact = first_punctuation_candidate u remaining 1 in
    let rest = exact_sentences u (c ∷ cs) (drop (length exact) remaining) in
    if is_empty exact then none else prepend exact rest

-- The end of `_commit_all_complete_sentences`
unfoldable pub commit_exact : List Text → Text → Text → TranscriptState → Events × TranscriptState
unfolding emit
commit_exact sentences confirmed_prefix tail s =
    let (events, s₁) = emit_sentences sentences (record s {
      confirmed_text = s.confirmed_text ++ confirmed_prefix;
      partial_text = tail;
      stable = tracker_reset s.stable;
    }) in
    let (last, s₂) = emit partial s₁.partial_text s₁ in (events ++ last, s₂)

-- `_commit_all_complete_sentences`
unfoldable pub commit_all_complete_sentences : Unicode → TranscriptState → Events × TranscriptState
commit_all_complete_sentences u s =
    let (committed, tail) = split_committed_sentences u s.partial_text in
    let confirmed_prefix = take (length s.partial_text - length tail) s.partial_text in
    elim committed [
      | [] ↦ ([], s)
      | c ∷ cs ↦ elim (exact_sentences u (c ∷ cs) confirmed_prefix) [
        | none ↦ ([], s)
        | some sentences ↦ commit_exact sentences confirmed_prefix tail s
      ]
    ]

abbrev pub no_events : Events → Bool
no_events [] = true
no_events (e ∷ es) = false

-- The commit that `immediate_commit_on_punctuation` allows, or else `fallback`
unfoldable pub commit_immediate :
    Unicode
    → TranscriptState
    → (TranscriptState → Events × TranscriptState)
    → Events × TranscriptState
commit_immediate u s fallback =
    let (events, s') = commit_all_complete_sentences u s in
    if s.immediate_commit_on_punctuation && not (no_events events) then (events, s') else fallback s

-- `apply_model_update` past the new partial text, on what `observe` returned
unfoldable pub publish_update :
    Unicode → Text → Option Text → TranscriptState → Events × TranscriptState
publish_update u previous (some stable_prefix) s =
    if is_empty stable_prefix
    then commit_immediate u s (emit_change previous)
    else commit_prefix stable_prefix s
publish_update u previous none s = commit_immediate u s (emit_change previous)

-- `apply_model_update`; the samples stay counted when the text conflicts
unfoldable pub apply_model_update :
    Unicode → Text → ℕ → TranscriptState → Result Events × TranscriptState
apply_model_update u text samples s =
    let counted = record s { processed_samples = s.processed_samples + samples } in
    elim (unconfirmed_tail text counted) [
      | err e ↦ (err e, counted)
      | ok tail ↦
          let (stable_prefix, tracker) = observe u tail counted.processed_samples counted.stable in
          let (events, s') =
            publish_update u s.partial_text stable_prefix
              (record counted { partial_text = tail; stable = tracker }) in
          (ok events, s')
    ]

-- `apply_segment_snapshot`
unfoldable pub set_segment : ℕ → TranscriptState → Result TranscriptState
set_segment id s = elim s.active_segment_id [
  | none ↦ ok (record s { active_segment_id = some id })
  | some active ↦
      if id == active
      then ok s
      else if not (is_empty s.partial_text)
      then err prefix_conflict
      else ok (record s { active_segment_id = some id })
]

unfoldable pub apply_segment_snapshot :
    ℕ → Text → ℕ → TranscriptState → Result Events × TranscriptState
unfolding set_segment emit_change
apply_segment_snapshot id text samples s =
    if not s.segment_local_snapshots
    then (err (runtime_error "segment snapshots require segment_local_snapshots mode"), s)
    else elim (set_segment id s) [
      | err e ↦ (err e, s)
      | ok s₁ ↦
          let (events, s') = emit_change s.partial_text (record s₁ {
            processed_samples = s₁.processed_samples + samples;
            partial_text = text;
          }) in
          (ok events, s')
    ]

-- `commit_pending`
unfoldable pub commit_pending : Unicode → TranscriptState → Events × TranscriptState
unfolding emit emit_commit
commit_pending u s =
    let cleared = record s {
      partial_text = [];
      stable = tracker_reset s.stable;
      active_segment_id = none;
    } in
    if is_empty s.partial_text
    then ([], record s { stable = tracker_reset s.stable; active_segment_id = none })
    else if is_empty (strip u.is_space s.partial_text)
    then emit partial [] cleared
    else emit_commit s.partial_text
        (record cleared { confirmed_text = s.confirmed_text ++ s.partial_text })

-- `append_independent_segment`
unfoldable pub append_independent_segment :
    Unicode → Text → TranscriptState → Events × TranscriptState
unfolding emit
append_independent_segment u text s =
    if is_empty text
    then ([], s)
    else commit_immediate u (record s { partial_text = s.partial_text ++ text })
        (λ s'. emit partial s'.partial_text s')

-- `final_event`
unfoldable pub final_event : TranscriptState → TranscriptEvent × TranscriptState
unfolding new_event
final_event s = new_event final s.partial_text s

-- `finish` past its update
unfoldable pub append_final : Result Events × TranscriptState → Result Events × TranscriptState
unfolding final_event
append_final (err e, s) = (err e, s)
append_final (ok events, s) = let (last, s') = final_event s in (ok (events ++ last ∷ []), s')

-- `finish`
unfoldable pub finish : Unicode → Text → TranscriptState → Result Events × TranscriptState
finish u text s = append_final (apply_model_update u text 0 s)

-- `reset_segment`
unfoldable pub reset_segment : TranscriptState → TranscriptState
reset_segment s = record s { stable = tracker_reset s.stable; active_segment_id = none }
