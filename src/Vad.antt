-- ===== src/Vad.antt =====
-- app/asr_vad.py: the endpoint detector, its conservation of audio and its state machine.
pub mod Frames
pub mod Detector
pub mod Conservation
pub mod Flow
pub mod Drain
pub mod Feed
pub mod Pieces
pub mod Machine
pub mod Examples
