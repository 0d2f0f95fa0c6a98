-- ===== src/Cli.antt =====
-- cli/src: the host of the workflows. Continuations models workflow-continuations.ts and Topic
-- workflow-topic.ts.
pub mod Continuations
pub mod Resumption
pub mod Rows
pub mod Topic
pub mod Slugs
pub mod Names
mod Tests
