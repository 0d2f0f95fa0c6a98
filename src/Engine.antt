-- ===== src/Engine.antt =====
-- core/engine.ts: the workflow engine. The children hold its data (State), the expansion of a
-- command (Compile), the transitions (Transition), checkpoints (Checkpoint), the continuation of a
-- paused batch (Resume), and their theorems.
pub mod State
pub mod Compile
pub mod Advance
pub mod Transition
pub mod Loops
pub mod Settle
pub mod Checkpoint
pub mod Resume
pub mod Lifecycle
pub mod Steps
pub mod Settlement
pub mod Continue
pub mod Reach
pub mod Measure
pub mod Expansion
pub mod Completeness
pub mod Trust
pub mod Accepted
pub mod Interrupted
pub mod Scheduling
pub mod Standing
mod Tests
mod Examples
