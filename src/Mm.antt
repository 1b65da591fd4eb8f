-- ===== src/Mm.antt =====
-- internal/mm: the wrapper that runs a coding tool on a repository and reports the run to the hub.
pub mod Fallible
pub mod Config
pub mod Prompt
pub mod Bundle
pub mod Limits
pub mod Transcript
pub mod Runner
pub mod Client
pub mod Workflow
pub mod Git
pub mod Feedback
