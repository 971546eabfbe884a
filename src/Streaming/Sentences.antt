-- ===== src/Streaming/Sentences.antt =====
-- Sentence ends in app/asr_streaming.py: `split_committed_sentences`, `first_punctuation_candidate`
-- and the helpers. A position is an index into the text; the two scanning loops take fuel, one unit
-- for each round.
pub mod Fuel
pub mod Cover
use mathlib.Core.List.{reverse}
use model_test.Prelude.{
  ℕ, zero, suc, ◌+◌, ◌-◌, List, [], ◌∷◌, ◌++◌, Option, none, some, Bool, true, false, ◌&&◌, ◌||◌,
  not, leb, ◌==◌, any, all, select, if◌then◌else◌, length, take, drop, get_elem?, Text, text_eq,
}
use model_test.Streaming.Chars.{
  Unicode, is_terminator, is_closer, run_length, strip, split_on, dot, dot_abbreviations,
}

abbrev pub is_boundary : ℕ → Bool
is_boundary c = is_terminator c || is_closer c

-- `_sentence_boundary_end`
unfoldable pub sentence_boundary_end : Text → ℕ → ℕ
unfolding run_length
sentence_boundary_end text index = suc index + run_length is_boundary (drop (suc index) text)

abbrev pub non_space : Unicode → ℕ → Bool
non_space u c = not (u.is_space c)

-- The empty string has none of the character classes.
abbrev test_char : (ℕ → Bool) → Option ℕ → Bool
test_char test none = false
test_char test (some c) = test c

abbrev char_before : Text → ℕ → Option ℕ
char_before text zero = none
char_before text (suc i) = get_elem? text i

abbrev non_empty : Text → Bool
non_empty [] = false
non_empty (c ∷ t) = true

abbrev is_one_upper : Unicode → Text → Bool
is_one_upper u (c ∷ []) = u.is_upper c
is_one_upper u _ = false

abbrev head_is_upper : Unicode → Text → Bool
head_is_upper u [] = false
head_is_upper u (c ∷ t) = u.is_upper c

-- `_is_dotted_initialism`
pub is_dotted_initialism : Unicode → Text → Bool
unfolding split_on
is_dotted_initialism u token =
    let initials = select non_empty (split_on dot token) in
    leb 2 (length initials) && all (is_one_upper u) initials

-- `_dot_token`
pub dot_token : Unicode → Text → ℕ → Text
unfolding run_length
dot_token u text index =
    let before = take index text in
    let start = index - run_length (λ c. u.is_alpha c || (c == dot)) (reverse before) in
    drop start (take (suc index) text)

-- `_is_sentence_end`, where the text has a character `c` at the index
pub is_sentence_end : Unicode → Text → ℕ → ℕ → Bool
unfolding is_dotted_initialism dot_token
is_sentence_end u text index c =
    let previous = char_before text index in
    let next = get_elem? text (suc index) in
    let token = dot_token u text index in
    if not (c == dot)
    then true
    else if test_char u.is_digit previous && test_char u.is_digit next
    then false
    else if test_char u.is_alnum previous && test_char u.is_alnum next
    then false
    else if any (text_eq (u.lower token)) dot_abbreviations
    then false
    else if (length token == 2) && head_is_upper u token
    then false
    else if is_dotted_initialism u token
    then false
    else true

-- `text[index] in SENTENCE_TERMINATORS and _is_sentence_end(text, index)`
pub ends_at : Unicode → Text → ℕ → ℕ → Bool
ends_at u text index c = is_terminator c && is_sentence_end u text index c

-- What a loop returns, or something else where the fuel is out
abbrev pub finished : {A : Type 0} → A → Option A → A
finished otherwise none = otherwise
finished otherwise (some r) = r

-- The loop of `first_punctuation_candidate`; without fuel it has returned nothing.
unfoldable pub candidate_from : Unicode → ℕ → Text → ℕ → ℕ → Option Text
candidate_from u zero text min_chars index = none
candidate_from u (suc fuel) text min_chars index = elim (get_elem? text index) [
  | none ↦ some []
  | some c ↦
      let candidate = take (sentence_boundary_end text index) text in
      let after = candidate_from u fuel text min_chars (sentence_boundary_end text index) in
      let next = candidate_from u fuel text min_chars (suc index) in
      if ends_at u text index c
      then (if leb min_chars (length (select (non_space u) candidate))
          then some candidate
          else after)
      else next
]

unfoldable pub first_punctuation_candidate : Unicode → Text → ℕ → Text
unfolding candidate_from
first_punctuation_candidate u text min_chars =
    finished [] (candidate_from u (suc (length text)) text min_chars 0)

abbrev keep_non_empty : List Text → Text → List Text
keep_non_empty committed sentence =
    if non_empty sentence then committed ++ sentence ∷ [] else committed

-- Past a sentence's end, over the spaces that follow it
pub next_start : Unicode → Text → ℕ → ℕ
unfolding run_length
next_start u text end = end + run_length u.is_space (drop end text)

-- `text[start:end]`
abbrev slice : Text → ℕ → ℕ → Text
slice text start end = drop start (take end text)

-- The loop of `split_committed_sentences`; without fuel it has returned nothing.
unfoldable pub split_from : Unicode → ℕ → Text → List Text → ℕ → ℕ → Option (List Text × Text)
split_from u zero text committed start index = none
split_from u (suc fuel) text committed start index = elim (get_elem? text index) [
  | none ↦ some (committed, drop start text)
  | some c ↦
      let end = sentence_boundary_end text index in
      let cut =
        split_from u fuel text (keep_non_empty committed (strip u.is_space (slice text start end)))
          (next_start u text end) (next_start u text end) in
      let next = split_from u fuel text committed start (suc index) in
      if ends_at u text index c then cut else next
]

unfoldable pub split_committed_sentences : Unicode → Text → List Text × Text
unfolding split_from
split_committed_sentences u text =
    finished ([], text) (split_from u (suc (length text)) text [] 0 0)
