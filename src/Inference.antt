-- ===== src/Inference.antt =====
-- app/asr_inference.py: the coordinator that lets one owner thread run the model. Its state and
-- small methods, the admission of jobs, the worker's steps, and the whole as a machine of steps.
pub mod State
pub mod Admission
pub mod Worker
pub mod Machine
pub mod Jobs
pub mod Capacity
pub mod Limits
pub mod Ownership
pub mod Sessions
pub mod Progress
pub mod Poison
pub mod Examples
