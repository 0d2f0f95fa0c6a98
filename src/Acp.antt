-- ===== src/Acp.antt =====
-- adapters/acp: the parts of the ACP server that keep state between messages. Wait models errors.ts,
-- Notifications response-notifications.ts, Behind its order, and Writes client-writes.ts.
pub mod Wait
pub mod Notifications
pub mod Behind
pub mod Writes
pub mod Owner
pub mod Observe
pub mod Liveness
pub mod Evidence
pub mod Lock
pub mod Contention
pub mod Moves
pub mod Exclusion
pub mod Takeover
pub mod Transcript
pub mod Shown
pub mod Unabridged
mod Tests
mod LockTests
mod TranscriptTests
