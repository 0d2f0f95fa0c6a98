-- ===== src/Failure.antt =====
-- core/runtime-failure.ts: what may be said of a runtime failure. Codes has the words that may be
-- reported, Parse the reading of untrusted data and Report the message and the error; Laws is about
-- all three.
pub mod Codes
pub mod Parse
pub mod Report
pub mod ReadBack
pub mod Laws
mod Tests
