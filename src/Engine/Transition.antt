-- ===== src/Engine/Transition.antt =====
-- core/engine.ts: creating an engine, beginning a batch and recording what its children report.
-- `structuredClone` makes each transition a function from one state to the next.
use Prim.Native.String.{String}
use d3r.Base.{
  Bool, true, false, not, ◌&&◌, ◌||◌, List, ◌∷◌, Option, none, some, str_eq, any, find,
  update_where, if◌then◌else◌,
}
use d3r.Base.Text.{trim, is_blank, is_empty}
use d3r.Base.Outcome.{Result, ok, fail, ◌>>=◌, ◌>>◌, reject_if}
use d3r.Schema.{Workflow}
use d3r.Engine.State.{
  ReportStatus, WorkflowOutcome, RecordStatus, ExecutionRecord, Mode, EngineStatus, PauseKind,
  EngineState, EngineError, not_ready, replay, not_active, is_pending, is_running, is_agent,
  set_status, in_batch,
}
use d3r.Engine.Compile.{compile_workflow}
use d3r.Engine.Advance.{pause, advance}

abbrev mode_prompt : String
mode_prompt =
    "Choose develop mode: semi (confirm between agent batches) or auto (run until a checkpoint or completion). Reply semi or auto."

abbrev pub Next : Type 0
Next = Result EngineState EngineError

abbrev pub no_mode : Option Mode → Bool
no_mode none = true
no_mode (some m) = false

abbrev choose : Bool → EngineState → Next
choose true state = ok (pause state PauseKind.mode (some mode_prompt))
choose false state = advance state

-- `workflow` is what `Workflow.parse` returned.
unfoldable pub create_engine : Workflow → String → Option Mode → Next
unfolding compile_workflow advance pause
create_engine workflow command mode = do
  records ← compile_workflow workflow command
  let state : EngineState = record {
    workflow = workflow;
    command = command;
    mode = mode;
    status = EngineStatus.ready;
    pause = none;
    active_batch = none;
    records = records;
  }
  choose (str_eq command "develop" && no_mode mode) state

-- `state.status === "…"`
abbrev pub is_ready : EngineStatus → Bool
is_ready EngineStatus.ready = true
is_ready _ = false

abbrev pub is_active : EngineStatus → Bool
is_active EngineStatus.running = true
is_active _ = false

-- `record.batch === first.batch && record.status !== "pending"`
abbrev pub has_started : ExecutionRecord → ExecutionRecord → Bool
has_started first r = str_eq r.batch first.batch && not (is_pending r)

abbrev pub cannot_begin : ExecutionRecord → List ExecutionRecord → Bool
cannot_begin first records = not (is_agent first) || any (has_started first) records

-- The batch of the first pending record, if that is an agent with no sibling that has started.
unfoldable pub batch_to_begin : List ExecutionRecord → Option String
batch_to_begin records = elim (find is_pending records) [
  | none ↦ none
  | some first ↦ if cannot_begin first records then none else some first.batch
]

unfoldable pub begin_batch : EngineState → Next
unfolding batch_to_begin
begin_batch state = do
  reject_if (not (is_ready state.status)) not_ready
  elim (batch_to_begin state.records) [
    | none ↦ fail replay
    | some batch ↦ ok (record state {
      active_batch = some batch;
      status = EngineStatus.running;
      records =
          update_where (in_batch (some batch)) (set_status RecordStatus.running) state.records;
    })
  ]

-- What a child hands over: nothing that the outcome's schema accepts, or an outcome whose summary
-- is still to be trimmed.
pub data Reported : Type 0 where
  malformed : Reported
  report : WorkflowOutcome → Reported

-- `WorkflowOutcome.safeParse`
unfoldable pub parse_outcome : Reported → Option WorkflowOutcome
parse_outcome malformed = none
parse_outcome (report o) =
    if is_blank o.summary then none else some (record o { summary = trim o.summary })

abbrev report_missing : String
report_missing = "Missing or invalid d3r_report; completion was not established."

abbrev pub status_of : ReportStatus → RecordStatus
status_of ReportStatus.completed = RecordStatus.completed
status_of ReportStatus.blocked = RecordStatus.blocked
status_of ReportStatus.needs_human = RecordStatus.waiting

-- `if (result.error)`: null and the empty text are no errors.
abbrev pub is_truthy : Option String → Bool
is_truthy none = false
is_truthy (some s) = not (is_empty s)

abbrev or_default : Option String → Option String
or_default none = some report_missing
or_default (some e) = some e

-- What is written into the record.
abbrev pub settle_record :
    Option WorkflowOutcome → Option String → ExecutionRecord → ExecutionRecord
settle_record none error r = record r { status = RecordStatus.blocked; error = or_default error }
settle_record (some o) error r =
    if is_truthy error
    then record r { status = RecordStatus.blocked; outcome = some o; error = or_default error }
    else record r { status = status_of o.status; outcome = some o }

-- The change is made to the first record with the identity, the one that `find` returns.
unfoldable pub update_first :
    (ExecutionRecord → Bool)
    → (ExecutionRecord → ExecutionRecord)
    → List ExecutionRecord
    → List ExecutionRecord
update_first p f List.[] = List.[]
update_first p f (r ∷ rs) = let rest = update_first p f rs in if p r then f r ∷ rs else r ∷ rest

abbrev pub has_id : String → ExecutionRecord → Bool
has_id id r = str_eq r.id id

-- `record` cannot take an outcome now.
abbrev pub is_inactive : EngineState → ExecutionRecord → Bool
is_inactive state r =
    not (is_active state.status) || not (is_running r) || not (in_batch state.active_batch r)

unfoldable pub record_outcome :
    EngineState → (id : String) → (outcome : Reported) → (error : Option String) → Next
unfolding parse_outcome update_first
record_outcome state id outcome error = elim (find (has_id id) state.records) [
  | none ↦ fail not_active
  | some r ↦ do
    reject_if (is_inactive state r) not_active
    ok (record state {
      records =
          update_first (has_id id) (settle_record (parse_outcome outcome) error) state.records;
    })
]
