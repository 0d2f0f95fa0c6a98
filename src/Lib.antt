-- ===== src/Lib.antt =====
-- D3R keeps agents on a workflow: a project pins a workflow of commands, the engine expands a
-- command into a flat list of records and moves these through their life, an adapter runs the
-- agents of a batch and reports back, and the state is saved between the moves.
--
-- The files, by the part of the program that they model (paths from the repository's root):
--
--   Base       lists, text and the result type of core/result.ts; a thrown error is `fail`.
--   Schema     core/schema.ts: the workflow, as `Workflow.parse` returns it.
--   Engine     core/engine.ts. State has the data, Compile `compileWorkflow`, Advance `pause` and
--              `advance`, Transition `createEngine`, `beginBatch` and `recordOutcome`, Loops
--              `closeLoops`, Settle `settleBatch`, `answerCheckpoint` and `interruptEngine`,
--              Checkpoint `parseEngineState`, Resume the three continuations, `serializeEngine`
--              and `restoreEngine`. The other children are about these.
--   Failure    core/runtime-failure.ts. Codes has the enumerations, Parse `parseFailure`, Report
--              `formatRuntimeFailure`, `createRuntimeFailure` and `readRuntimeFailure`.
--   Budget     adapters/pi/embedded-budget.ts. Limits has `parseRequestBudgetLimits` and
--              `createRequestBudget`, Requests `beginBudgetedRequest`, Extension the extension
--              tool, Run any sequence of them.
--   Acp        adapters/acp. Wait is `waitFor` of errors.ts, Notifications
--              response-notifications.ts, Behind its order, Writes client-writes.ts. Owner and
--              Observe are the schemas and the reading of procfs of lock-owner.ts, Liveness its
--              `lockOwnerStatus`, Evidence what it rests on. Lock is session-lock.ts; Contention, Moves, Exclusion and
--              Takeover are about it. Transcript is role-transcripts.ts; Shown and
--              Unabridged are about it.
--   Models     core/model-config.ts: `ModelConfig` and `resolveModelConfig`; Laws and Parsing.
--   Cli        cli/src. Continuations is workflow-continuations.ts: which conversations of paused
--              roles may be kept and when a workflow resumes; Resumption and Rows are about it.
--              Topic is workflow-topic.ts, with Slugs and Names about the names that it makes.
--   Runtime    cli/src/workflow-runtime.ts, which drives the engine for a client. Graph is
--              workflow-role.ts, Events and Turn are `runRole`, Drive is `drive` up to its loop,
--              Session the state and `archiveWorkflow`, Actions the schemas of
--              workflow-phase-tools.ts, Phases, Tasks and Control `runPhase`, Routing `route`,
--              Prompts `execute`, `prompt` and `setConfig`, Saved and Restored `snapshot` and
--              `restore`. The other children are about these.
--
-- State is passed along: `structuredClone` in the engine makes each transition a function from one
-- state to the next. A loop over an array is recursion on the list, and the loop over the
-- iterations of a workflow loop recurs on the rounds left, so nothing there needs fuel. `decimal`
-- takes as many rounds as the number and one more, which is enough since each round divides it by
-- ten.
--
-- The runtime's environment is an argument: an Attempt says what the child, the client and the signal
-- do while one role runs, a Round what happens from one barrier to the next and in which order the
-- roles end, a Turn which phase tools the orchestrator calls. `drive` is given one round more than the
-- records that wait and the batch that runs, since each round begins at least one of them.
--
-- A field that the source marks optional, or allows to be null, is an Option. A JavaScript number
-- is a natural number or something that fails every bound which the program checks. Promises are
-- sequences of events: a call that waits is one step up to the wait and another after it.
--
-- The session lock is a step relation over any number of claimants: an event names its claimant, and
-- the end of a process is an event too. Reading an entry of the registry, asking for its owner and
-- removing it is one step, since a claim never changes and its name is never used again. What the
-- operating system answers is a record of observations.
--
-- Not modelled: JSON text, the schema library's test for a UUID and the platform's Unicode folding
-- (parameters), the rejection of values of another shape, input and output, the texts of the extension tool's results,
-- and of the runtime the messages to the client, the content that a role is given, the description of
-- the state, the summary of a finished workflow and the selection of a model.
pub mod Base
pub mod Schema
pub mod Acp
pub mod Budget
pub mod Cli
pub mod Engine
pub mod Failure
pub mod Models
pub mod Runtime
