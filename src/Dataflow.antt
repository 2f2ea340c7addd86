-- ===== src/Dataflow.antt =====
-- The submit side of Parsl: the data-flow kernel, its memoizer and its checkpoints.
pub mod Rundirs
pub mod States
pub mod Errors
pub mod Values
pub mod Tasks
pub mod Dependencies
pub mod Memo
pub mod Completion
pub mod Checkpoint
pub mod Recovery
pub mod Kernel
