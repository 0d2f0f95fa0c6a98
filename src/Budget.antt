-- ===== src/Budget.antt =====
-- adapters/pi/embedded-budget.ts: the request budget of one agent invocation. Limits parses the
-- options, Requests charges model requests, Extension asks for more, Run puts them in sequence.
pub mod Limits
pub mod Requests
pub mod Extension
pub mod Run
pub mod Safety
mod Tests
