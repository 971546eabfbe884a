-- ===== src/Streaming.antt =====
-- app/asr_streaming.py: the character classes, the sentence ends, the transcript state with the
-- events that it sends, and the silence detector.
pub mod Chars
pub mod Sentences
pub mod State
pub mod Replay
pub mod Calls
pub mod Silence
pub mod Examples
