-- ===== src/Streaming/Chars.antt =====
-- The character classes of app/asr_streaming.py: its constant sets, and Python's `str` methods,
-- which come from the interpreter's Unicode tables and so are a parameter.
use model_test.Prelude.{ℕ, suc, List, [], ◌∷◌, Bool, ◌==◌, any, if◌then◌else◌, drop, Text, codes}
use mathlib.Core.List.{reverse}

-- `str.isspace`, `isalpha`, `isdigit`, `isalnum`, `isupper` on one character, and `str.lower`.
pub record Unicode : Type 0 where
  pub is_space : ℕ → Bool
  pub is_alpha : ℕ → Bool
  pub is_digit : ℕ → Bool
  pub is_alnum : ℕ → Bool
  pub is_upper : ℕ → Bool
  pub lower : Text → Text

abbrev pub sentence_terminators : List ℕ
sentence_terminators =
    12290 ∷ 65311 ∷ 65281 ∷ 65377 ∷ 63 ∷ 33 ∷ 1567 ∷ 1748 ∷ 2404 ∷ 2405 ∷ 4171 ∷ 46 ∷ []

abbrev pub sentence_closers : List ℕ
sentence_closers =
    34 ∷ 39 ∷ 8221 ∷ 8217 ∷ 12301 ∷ 12303 ∷ 65289 ∷ 41 ∷ 12305 ∷ 93 ∷ 12299 ∷ 12297 ∷ []

abbrev pub dot_abbreviations : List Text
dot_abbreviations =
    codes "dr."
    ∷ codes "mr."
    ∷ codes "mrs."
    ∷ codes "ms."
    ∷ codes "prof."
    ∷ codes "e.g."
    ∷ codes "i.e."
    ∷ codes "etc."
    ∷ codes "vs."
    ∷ codes "st."
    ∷ codes "jr."
    ∷ codes "sr."
    ∷ codes "ph.d."
    ∷ []

abbrev pub dot : ℕ
dot = b'.'

pub is_terminator : ℕ → Bool
is_terminator c = any (◌==◌ c) sentence_terminators

pub is_closer : ℕ → Bool
is_closer c = any (◌==◌ c) sentence_closers

-- How far a `while` loop goes that steps over the characters that pass.
unfoldable pub run_length : (ℕ → Bool) → Text → ℕ
run_length test [] = 0
run_length test (c ∷ text) = let rest = run_length test text in if test c then suc rest else 0

-- `text.strip()` for the characters that `space` accepts
unfoldable pub strip : (ℕ → Bool) → Text → Text
unfolding run_length
strip space text =
    let led = drop (run_length space text) text in
    reverse (drop (run_length space (reverse led)) (reverse led))

pieces : ℕ → Text → Text → List Text
pieces sep part [] = reverse part ∷ []
pieces sep part (c ∷ rest) =
    let cut = reverse part ∷ pieces sep [] rest in
    let longer = pieces sep (c ∷ part) rest in if c == sep then cut else longer

-- `text.split(sep)` for one character
unfoldable pub split_on : ℕ → Text → List Text
unfolding pieces
split_on sep text = pieces sep [] text
