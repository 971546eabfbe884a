-- ===== src/Streaming/Examples.antt =====
-- The properties of app/asr_streaming.py on short texts, with `str` methods for ASCII.
use model_test.Prelude.{
  ℕ, suc, ◌+◌, ◌≤◌, ◌≡◌, List, [], ◌∷◌, ◌++◌, some, true, false, ◌&&◌, ◌||◌, leb, ltb, ◌==◌, arith,
  Text, codes, length, select,
}
use model_test.Streaming.Chars.{Unicode}
use model_test.Streaming.Sentences.{
  first_punctuation_candidate, split_committed_sentences, candidate_from, split_from, non_space,
}
use model_test.Streaming.Sentences.Fuel.{scans_fuel}
use model_test.Streaming.Sentences.Cover.{visible, split_committed_sentences-visible}
use model_test.Streaming.State.{TranscriptState, init, apply_model_update, ready}
use model_test.Streaming.Replay.{display_of, Sends}
use model_test.Streaming.Replay.Updates.{Updated, apply_model_update-Updated}
use model_test.Streaming.Calls.{
  Call, model_update, commits_pending, announces, finishes, run, run-Sends,
}
use model_test.Streaming.Silence.{SilenceEndpointDetector, endpoints, endpoints_once, FloatSeconds}
use model_test.Prelude.{pcm_s16le_rms, total_square, isqrt}

abbrev ascii : Unicode
ascii = record {
  is_space = λ c. c == 32;
  is_alpha = λ c. (leb 65 c && leb c 90) || (leb 97 c && leb c 122);
  is_digit = λ c. leb 48 c && leb c 57;
  is_alnum = λ c. (leb 48 c && leb c 57) || ((leb 65 c && leb c 90) || (leb 97 c && leb c 122));
  is_upper = λ c. leb 65 c && leb c 90;
  lower = λ t. t;
}

abbrev two_sentences : Text
two_sentences = codes "Hi! Go on? ok"

scans_fuel_example :
    (candidate_from ascii (suc (length two_sentences) + 3) two_sentences 2 0
      ≡ some (first_punctuation_candidate ascii two_sentences 2))
    × (split_from ascii (suc (length two_sentences) + 3) two_sentences [] 0 0
        ≡ some (split_committed_sentences ascii two_sentences))
scans_fuel_example = scans_fuel ascii 3 two_sentences 2

split_committed_sentences-visible_example :
    visible ascii (split_committed_sentences ascii two_sentences).0
      ++ select (non_space ascii) (split_committed_sentences ascii two_sentences).1
    ≡ select (non_space ascii) two_sentences
split_committed_sentences-visible_example = split_committed_sentences-visible ascii two_sentences

abbrev new_state : TranscriptState
new_state = init 16000 true 3200 2 2 true false

apply_model_update-Updated_example :
    Updated two_sentences 1600 new_state (apply_model_update ascii two_sentences 1600 new_state)
apply_model_update-Updated_example = apply_model_update-Updated ascii two_sentences 1600 new_state

abbrev update_calls : List Call
update_calls =
    announces ready
    ∷ model_update two_sentences 1600
    ∷ commits_pending
    ∷ finishes (codes "bye")
    ∷ []

run-Sends_example :
    Sends
      (display_of new_state)
      new_state.sequence
      (run ascii update_calls new_state).0
      (run ascii update_calls new_state).1
run-Sends_example = run-Sends ascii update_calls new_state

-- Seconds in units of a sample
abbrev whole_units : FloatSeconds
whole_units = record {
  Seconds = ℕ;
  no_seconds = 0;
  plus = λ x y. x + y;
  less = λ x y. ltb x y;
  quotient = λ n rate. n;
}

abbrev waiting_detector : SilenceEndpointDetector ℕ
waiting_detector = record {
  silence_seconds = 2;
  rms_threshold = 300;
  current_silence_seconds = 1;
  committed_for_current_silence = false;
}

abbrev silent_chunks : List (List ℕ)
silent_chunks = (0 ∷ 0 ∷ []) ∷ (0 ∷ 0 ∷ 0 ∷ 0 ∷ []) ∷ []

endpoints_once_example :
    (endpoints whole_units 16000 silent_chunks waiting_detector ≤ 1)
    × (false ≡ true → endpoints whole_units 16000 silent_chunks waiting_detector ≡ 0)
unfolding pcm_s16le_rms total_square isqrt
endpoints_once_example =
    endpoints_once whole_units 16000 silent_chunks waiting_detector (ground arith)
