-- ===== src/Streaming/Sentences/Cover.antt =====
-- What the scanning loops of app/asr_streaming.py return, as parts of the text.
use mathlib.Core.List.{reverse, reverse-reverse}
use model_test.Prelude.{
  ℕ, zero, suc, ◌≤◌, ◌≡◌, refl, sym, ap, ◌∙◌, List, [], ◌∷◌, ◌++◌, inl, inr, Option, none, some,
  Bool, true, false, arith, length, take, drop, get_elem?, Text, if◌then◌else◌, select,
  select-append, append-nil, append_assoc, slice-append-drop, reverse-select, leb, drop-drop,
  Option-cases, Bool-cases, ap₂,
}
use model_test.Streaming.Chars.{Unicode, strip, run_length}
use model_test.Streaming.Sentences.{
  ends_at, sentence_boundary_end, candidate_from, first_punctuation_candidate, split_from,
  next_start, split_committed_sentences, keep_non_empty, slice, non_space, finished,
}
use model_test.Streaming.Sentences.Fuel.{boundary_after}

-- A candidate is empty, or the text up to the boundary of a sentence end, with enough characters
-- that are no spaces.
pub data IsCandidate (u : Unicode) (text : Text) (min_chars : ℕ) (r : Text) : Type 0 where
  nothing : r ≡ [] → IsCandidate u text min_chars r
  sentence :
      (index c : ℕ)
      → get_elem? text index ≡ some c
      → ends_at u text index c ≡ true
      → r ≡ take (sentence_boundary_end text index) text
      → min_chars ≤ length (select (non_space u) r)
      → IsCandidate u text min_chars r

-- A predicate of what a loop returns, if it returns
abbrev IfSome : {A : Type 0} → (A → Type 0) → Option A → Type 0
IfSome P none = Unit
IfSome P (some r) = P r

IfSome-map :
    {A : Type 0} (P Q : A → Type 0) (o : Option A) → ((r : A) → P r → Q r) → IfSome P o → IfSome Q o
IfSome-map P Q none f h = tt
IfSome-map P Q (some r) f h = f r h

IfSome-finished :
    {A : Type 0} (P : A → Type 0) (otherwise : A) (o : Option A)
    → P otherwise
    → IfSome P o
    → P (finished otherwise o)
IfSome-finished P otherwise none h k = h
IfSome-finished P otherwise (some r) h k = k

IsCandidate-at_end :
    (u : Unicode) (text : Text) (m i c : ℕ) (after : Option Text) (enough : Bool)
    → get_elem? text i ≡ some c
    → ends_at u text i c ≡ true
    → leb m (length (select (non_space u) (take (sentence_boundary_end text i) text))) ≡ enough
    → IfSome (IsCandidate u text m) after
    → IfSome
        (IsCandidate u text m)
        (if enough then some (take (sentence_boundary_end text i) text) else after)
IsCandidate-at_end u text m i c after true e h k a = sentence i c e h refl (ground arith)
IsCandidate-at_end u text m i c after false e h k a = a

candidate_from-IsCandidate :
    (u : Unicode) (f : ℕ) (text : Text) (m i : ℕ)
    → IfSome (IsCandidate u text m) (candidate_from u f text m i)
unfolding candidate_from
candidate_from-IsCandidate u zero text m i = tt
candidate_from-IsCandidate u (suc f) text m i = elim (Option-cases (get_elem? text i)) [
  | inl e ↦ rw (e, candidate_from) (nothing refl)
  | inr (c, e) ↦ elim (Bool-cases (ends_at u text i c)) [
    | inl h ↦
        rw (e, candidate_from, h)
          (IsCandidate-at_end u text m i c _ _ e h refl
            (candidate_from-IsCandidate u f text m (sentence_boundary_end text i)))
    | inr h ↦ rw (e, candidate_from, h) (candidate_from-IsCandidate u f text m (suc i))
  ]
]

-- The candidate is empty, or it is the text up to the boundary that follows a sentence end, and has
-- at least `min_chars` characters that are no spaces.
pub first_punctuation_candidate-IsCandidate :
    (u : Unicode) (text : Text) (m : ℕ)
    → IsCandidate u text m (first_punctuation_candidate u text m)
unfolding first_punctuation_candidate
first_punctuation_candidate-IsCandidate u text m =
    IfSome-finished (IsCandidate u text m) [] (candidate_from u (suc (length text)) text m 0)
      (nothing refl) (candidate_from-IsCandidate u (suc (length text)) text m 0)

-- The characters of some texts that are no spaces, in order.
abbrev pub visible : Unicode → List Text → Text
visible u [] = []
visible u (t ∷ ts) = select (non_space u) t ++ visible u ts

visible-append :
    (u : Unicode) (ts : List Text) (t : Text)
    → visible u (ts ++ t ∷ []) ≡ visible u ts ++ select (non_space u) t
visible-append u [] t = append-nil _
visible-append u (s ∷ ts) t =
    ap (◌++◌ (select (non_space u) s)) (visible-append u ts t)
    ∙ sym (append_assoc _ (visible u ts) _)

visible-keep :
    (u : Unicode) (ts : List Text) (t : Text)
    → visible u (keep_non_empty ts t) ≡ visible u ts ++ select (non_space u) t
visible-keep u ts [] = sym (append-nil _)
visible-keep u ts (c ∷ t) = visible-append u ts (c ∷ t)

visible-run :
    (u : Unicode) (t : Text)
    → select (non_space u) (drop (run_length u.is_space t) t) ≡ select (non_space u) t
unfolding run_length
visible-run u [] = refl
visible-run u (c ∷ t) = ground (arith, visible-run u t)

visible-strip :
    (u : Unicode) (t : Text) → select (non_space u) (strip u.is_space t) ≡ select (non_space u) t
unfolding strip
visible-strip u t =
    let led = drop (run_length u.is_space t) t in
    let back = reverse led in
    reverse-select (non_space u) (drop (run_length u.is_space back) back)
    ∙ ap reverse (visible-run u back ∙ reverse-select (non_space u) led)
    ∙ reverse-reverse (select (non_space u) led)
    ∙ visible-run u t

visible-next_start :
    (u : Unicode) (text : Text) (end : ℕ)
    → select (non_space u) (drop (next_start u text end) text)
      ≡ select (non_space u) (drop end text)
unfolding next_start
visible-next_start u text end =
    ap (select (non_space u)) (sym (drop-drop (run_length u.is_space (drop end text)) end text))
    ∙ visible-run u (drop end text)

-- The characters that one round moves from the rest of the text to the sentences.
visible-cut :
    (u : Unicode) (text : Text) (cs : List Text) (st end : ℕ)
    → st ≤ end
    → visible u cs ++ select (non_space u) (drop st text)
      ≡ visible u (keep_non_empty cs (strip u.is_space (slice text st end)))
        ++ select (non_space u) (drop (next_start u text end) text)
visible-cut u text cs st end h =
    let part = slice text st end in
    ap (λ t. visible u cs ++ select (non_space u) t) (sym (slice-append-drop text st end h))
    ∙ ap (◌++◌ (visible u cs)) (select-append (non_space u) part (drop end text))
    ∙ sym (append_assoc (visible u cs) (select (non_space u) part) _)
    ∙ ap₂ (λ s t. (visible u cs ++ s) ++ t) (sym (visible-strip u part))
        (sym (visible-next_start u text end))
    ∙ ap (λ s. s ++ select (non_space u) (drop (next_start u text end) text))
        (sym (visible-keep u cs (strip u.is_space part)))

-- The characters of some sentences and a rest that are no spaces
abbrev visible_all : Unicode → List Text × Text → Text
visible_all u r = visible u r.0 ++ select (non_space u) r.1

split_from-visible :
    (u : Unicode) (f : ℕ) (text : Text) (cs : List Text) (st i : ℕ)
    → st ≤ i
    → IfSome (λ r. visible_all u r ≡ visible_all u (cs, drop st text)) (split_from u f text cs st i)
unfolding split_from
split_from-visible u zero text cs st i h = tt
split_from-visible u (suc f) text cs st i h = elim (Option-cases (get_elem? text i)) [
  | inl e ↦ rw (e, split_from) refl
  | inr (c, e) ↦
      let end = sentence_boundary_end text i in
      let from = next_start u text end in
      let after = boundary_after text i in
      let cut = keep_non_empty cs (strip u.is_space (slice text st end)) in
      elim (Bool-cases (ends_at u text i c)) [
        | inl t ↦
            rw (e, split_from, t)
              (IfSome-map (λ r. visible_all u r ≡ visible_all u (cut, drop from text))
                (λ r. visible_all u r ≡ visible_all u (cs, drop st text))
                (split_from u f text cut from from)
                (λ r k. k ∙ sym (visible-cut u text cs st end (omega arith)))
                (split_from-visible u f text cut from from (omega arith)))
        | inr t ↦ rw (e, split_from, t) (split_from-visible u f text cs st (suc i) (omega arith))
      ]
]

-- Splitting off the sentences loses, adds and reorders no character but spaces: those of the
-- sentences, in order, and then those of the tail are those of the text.
pub split_committed_sentences-visible :
    (u : Unicode) (text : Text)
    → visible u (split_committed_sentences u text).0
        ++ select (non_space u) (split_committed_sentences u text).1
      ≡ select (non_space u) text
unfolding split_committed_sentences
split_committed_sentences-visible u text =
    IfSome-finished (λ r. visible_all u r ≡ select (non_space u) text) ([], text)
      (split_from u (suc (length text)) text [] 0 0) refl
      (split_from-visible u (suc (length text)) text [] 0 0 (omega arith))

split_from-suffix :
    (u : Unicode) (f : ℕ) (text : Text) (cs : List Text) (st i : ℕ)
    → IfSome (λ r. (k : ℕ) × (r.1 ≡ drop k text)) (split_from u f text cs st i)
unfolding split_from
split_from-suffix u zero text cs st i = tt
split_from-suffix u (suc f) text cs st i = elim (Option-cases (get_elem? text i)) [
  | inl e ↦ rw (e, split_from) (st, refl)
  | inr (c, e) ↦
      let end = sentence_boundary_end text i in
      let from = next_start u text end in
      elim (Bool-cases (ends_at u text i c)) [
        | inl t ↦
            rw (e, split_from, t)
              (split_from-suffix u f text (keep_non_empty cs (strip u.is_space (slice text st end)))
                from from)
        | inr t ↦ rw (e, split_from, t) (split_from-suffix u f text cs st (suc i))
      ]
]

-- The tail is the end of the text.
pub split_committed_sentences-suffix :
    (u : Unicode) (text : Text) → (k : ℕ) × ((split_committed_sentences u text).1 ≡ drop k text)
unfolding split_committed_sentences
split_committed_sentences-suffix u text =
    IfSome-finished (λ r. (k : ℕ) × (r.1 ≡ drop k text)) ([], text)
      (split_from u (suc (length text)) text [] 0 0) (0, refl)
      (split_from-suffix u (suc (length text)) text [] 0 0)
