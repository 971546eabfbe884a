-- ===== src/Streaming/Sentences/Fuel.antt =====
-- The fuel of the scanning loops of app/asr_streaming.py.
use model_test.Prelude.{
  ℕ, zero, suc, ◌+◌, ◌≤◌, ◌<◌, ◌≡◌, refl, sym, ap, ◌∙◌, ◌⊎◌, inl, inr, List, [], ◌∷◌, Option, none,
  some, Bool, true, false, if◌then◌else◌, arith, leb, length, take, drop, select, length-drop,
  get_elem?, get_elem?-lt, Option-cases, Text,
}
use model_test.Streaming.Chars.{Unicode, strip, run_length}
use model_test.Streaming.Sentences.{
  is_boundary, ends_at, non_space, finished, sentence_boundary_end, candidate_from,
  first_punctuation_candidate, split_from, next_start, split_committed_sentences, keep_non_empty,
  slice,
}

pub boundary_after : (text : Text) (index : ℕ) → index < sentence_boundary_end text index
unfolding sentence_boundary_end
boundary_after text index = omega arith

pub next_start_after : (u : Unicode) (text : Text) (end : ℕ) → end ≤ next_start u text end
unfolding next_start
next_start_after u text end = omega arith

run_length-le : (test : ℕ → Bool) (t : Text) → run_length test t ≤ length t
unfolding run_length
run_length-le test [] = omega arith
run_length-le test (c ∷ t) = ground (arith, run_length-le test t)

boundary_within :
    (text : Text) (i : ℕ) → i < length text → sentence_boundary_end text i ≤ length text
unfolding sentence_boundary_end
boundary_within text i h =
    omega (arith, run_length-le is_boundary (drop (suc i) text), length-drop (suc i) text)

next_start_within :
    (u : Unicode) (text : Text) (end : ℕ) → end ≤ length text → next_start u text end ≤ length text
unfolding next_start
next_start_within u text end h =
    omega (arith, run_length-le u.is_space (drop end text), length-drop end text)

-- A position is in the text or at its end.
in_text :
    (text : Text) (i : ℕ)
    → i ≤ length text
    → (get_elem? text i ≡ none) ⊎ ((i < length text) × ((c : ℕ) × (get_elem? text i ≡ some c)))
in_text text i h = elim (Option-cases (get_elem? text i)) [
  | inl e ↦ inl e
  | inr (c, e) ↦ inr (get_elem?-lt text i c e, (c, e))
]

-- With fuel for the rest of the text and one round more, the loops return, and with any more fuel
-- they return the same.
abbrev Returns : {A : Type 0} → Option A → Option A → Type 0
Returns {A} o o' = (r : A) × (o ≡ some r) × (o' ≡ some r)

if-Returns :
    {A : Type 0} (test : Bool) (o o' p p' : Option A)
    → Returns o o'
    → Returns p p'
    → Returns (if test then o else p) (if test then o' else p')
if-Returns true o o' p p' x y = x
if-Returns false o o' p p' x y = y

candidate_from-Returns :
    (u : Unicode) (f g : ℕ) (text : Text) (m i : ℕ)
    → i ≤ length text
    → length text < f + i
    → length text < g + i
    → Returns (candidate_from u f text m i) (candidate_from u g text m i)
unfolding candidate_from
candidate_from-Returns u zero g text m i b hf hg = absurd (omega arith)
candidate_from-Returns u (suc f) zero text m i b hf hg = absurd (omega arith)
candidate_from-Returns u (suc f) (suc g) text m i b hf hg = elim (in_text text i b) [
  | inl e ↦ rw (e, candidate_from) ([], refl, refl)
  | inr (l, (c, e)) ↦
      let end = sentence_boundary_end text i in
      let after = boundary_after text i in
      let candidate = take end text in
      rw (e, candidate_from)
        (if-Returns (ends_at u text i c) _ _ _ _
          (if-Returns (leb m (length (select (non_space u) candidate))) _ _ _ _
            (candidate, refl, refl)
            (candidate_from-Returns u f g text m end (boundary_within text i l) (omega arith)
              (omega arith)))
          (candidate_from-Returns u f g text m (suc i) (omega arith) (omega arith) (omega arith)))
]

split_from-Returns :
    (u : Unicode) (f g : ℕ) (text : Text) (cs : List Text) (st i : ℕ)
    → i ≤ length text
    → length text < f + i
    → length text < g + i
    → Returns (split_from u f text cs st i) (split_from u g text cs st i)
unfolding split_from
split_from-Returns u zero g text cs st i b hf hg = absurd (omega arith)
split_from-Returns u (suc f) zero text cs st i b hf hg = absurd (omega arith)
split_from-Returns u (suc f) (suc g) text cs st i b hf hg = elim (in_text text i b) [
  | inl e ↦ rw (e, split_from) ((cs, drop st text), refl, refl)
  | inr (l, (c, e)) ↦
      let end = sentence_boundary_end text i in
      let from = next_start u text end in
      let after = boundary_after text i in
      let later = next_start_after u text end in
      rw (e, split_from)
        (if-Returns (ends_at u text i c) _ _ _ _
          (split_from-Returns u f g text (keep_non_empty cs (strip u.is_space (slice text st end)))
            from from (next_start_within u text end (boundary_within text i l)) (omega arith)
            (omega arith))
          (split_from-Returns u f g text cs st (suc i) (omega arith) (omega arith) (omega arith)))
]

finished-Returns :
    {A : Type 0} (otherwise : A) (o o' : Option A) → Returns o o' → o ≡ some (finished otherwise o')
finished-Returns otherwise o o' (r, e, e') = e ∙ ap (λ p. some (finished otherwise p)) (sym e')

-- Both scanning loops end: the fuel that they are given, one round for each character and one more,
-- does not run out, and with any more fuel they return the same.
pub scans_fuel :
    (u : Unicode) (extra : ℕ) (text : Text) (min_chars : ℕ)
    → (candidate_from u (suc (length text) + extra) text min_chars 0
        ≡ some (first_punctuation_candidate u text min_chars))
      × (split_from u (suc (length text) + extra) text [] 0 0
          ≡ some (split_committed_sentences u text))
unfolding first_punctuation_candidate split_committed_sentences
scans_fuel u extra text m =
    let n = suc (length text) in
    (
      finished-Returns [] (candidate_from u (n + extra) text m 0) (candidate_from u n text m 0) (
          candidate_from-Returns u (n + extra) n text m 0 (omega arith) (omega arith)
            (omega arith)),
      finished-Returns ([], text) (split_from u (n + extra) text [] 0 0)
          (split_from u n text [] 0 0)
          (split_from-Returns u (n + extra) n text [] 0 0 (omega arith) (omega arith)
            (omega arith)),
    )
