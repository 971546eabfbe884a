-- ===== src/Streaming/Replay.antt =====
-- What a client shows that follows the protocol of app/asr_streaming.py: it appends each
-- `sentence_final` for good and replaces the tail by each `partial` and `final`.
pub mod Parts
pub mod Updates
use model_test.Prelude.{ℕ, ◌+◌, ◌≡◌, List, [], ◌∷◌, ◌++◌, Text}
use model_test.Streaming.State.{
  EventType, TranscriptEvent, TranscriptState, Events, ready, partial, sentence_final, final, error,
}

pub record Display : Type 0 where
  pub committed : Text
  pub tail : Text

abbrev pub show : EventType → Text → Display → Display
show ready text d = d
show partial text d = record d { tail = text }
show sentence_final text d = record d { committed = d.committed ++ text }
show final text d = record d { tail = text }
show error text d = d

abbrev pub replay : Display → Events → Display
replay d [] = d
replay d (e ∷ es) = replay (show e.event_type e.text d) es

-- The events bear the numbers after `m`, up to `n`.
abbrev pub Numbered : ℕ → Events → ℕ → Type 0
Numbered m [] n = n ≡ m
Numbered m (e ∷ es) n = (e.sequence ≡ m + 1) × Numbered (m + 1) es n

abbrev pub display_of : TranscriptState → Display
display_of s = record { committed = s.confirmed_text; tail = s.partial_text }

-- A client that shows `d` shows the state `s` after the events, which are numbered on from `m`.
pub record Sends (d : Display) (m : ℕ) (es : Events) (s : TranscriptState) : Type 0 where
  pub shown : replay d es ≡ display_of s
  pub numbered : Numbered m es s.sequence
