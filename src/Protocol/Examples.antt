-- ===== src/Protocol/Examples.antt =====
-- The ends of a session of app/asr_gateway_protocol.py, on a session that fails.
use model_test.Prelude.{◌≡◌, refl, List, [], ◌∷◌, none, true, false, ◌&&◌, codes, Text, is_ok, ◌==◌}
use model_test.Streaming.Chars.{Unicode}
use model_test.Protocol.{Call, readies, segments, finals, errors, init, perform, run}
use model_test.Protocol.Terminal.{session_ends}

abbrev plain : Unicode
plain = record {
  is_space = λ c. c == 32;
  is_alpha = λ c. true;
  is_digit = λ c. false;
  is_alnum = λ c. true;
  is_upper = λ c. false;
  lower = λ t. t;
}

abbrev later_calls : List (Call Text)
later_calls = readies none ∷ segments none ∷ finals none none ∷ []

abbrev failing : Call Text
failing = errors (codes "RuntimeError") (codes "backend_error")

session_ends_example :
    let (r, p) = perform plain failing (init 16000 false) in
    (p.terminal ≡ (true && is_ok r)) × (p.terminal ≡ true → run plain later_calls p ≡ ([], p))
unfolding init
session_ends_example = session_ends plain failing later_calls (init 16000 false) refl
