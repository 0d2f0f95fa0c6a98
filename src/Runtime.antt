-- ===== src/Runtime.antt =====
-- cli/src/workflow-runtime.ts: the session that drives the engine. Graph models workflow-role.ts, Events
-- and Turn one role, Drive the batches, Session the state, Actions the schemas of
-- workflow-phase-tools.ts, Phases, Tasks and Control the phase tools, Routing and Prompts a prompt, Saved
-- and Restored the checkpoint. Reports, Established and Retained are about a role, Load and Ends about the batches,
-- Passed, Again, Resaved and Roundtrip about the checkpoint, Refusals and Once about the phase tools,
-- Commands and Driven about the engine's command, Belongs, Placed and Kept about whose work is unfinished.
pub mod Graph
pub mod Events
pub mod Turn
pub mod Reports
pub mod Established
pub mod Retained
pub mod Drive
pub mod Load
pub mod Ends
pub mod Session
pub mod Actions
pub mod Phases
pub mod Tasks
pub mod Control
pub mod Routing
pub mod Prompts
pub mod Saved
pub mod Restored
pub mod Passed
pub mod Again
pub mod Resaved
pub mod Roundtrip
pub mod Refusals
pub mod Commands
pub mod Driven
mod Tests
pub mod Belongs
pub mod Placed
pub mod Kept
pub mod Once
