-- ===== src/Engine/State.antt =====
-- core/engine.ts: the data of the engine. A field that the source marks optional, or allows to be
-- null, is an `Option`.
use Prim.Native.String.{String}
use d3r.Base.{ℕ, Bool, true, false, List, Option, none, some, str_eq}
use d3r.Schema.{Workflow}

pub data ReportStatus : Type 0 where
  completed blocked needs_human : ReportStatus

pub data Review : Type 0 where
  approved changes_requested : Review

pub record WorkflowOutcome : Type 0 where
  pub status : ReportStatus
  pub summary : String
  pub review : Option Review
  pub all_done : Option Bool

abbrev pub max_records : ℕ
max_records = 10_000

abbrev pub max_depth : ℕ
max_depth = 16

pub record LoopScope : Type 0 where
  pub id : String
  pub iteration : ℕ
  pub max : ℕ

pub data RecordKind : Type 0 where
  agent human loop_end : RecordKind

pub data RecordStatus : Type 0 where
  pending running completed skipped waiting blocked interrupted : RecordStatus

pub record ExecutionRecord : Type 0 where
  pub id : String
  pub kind : RecordKind
  pub batch : String
  pub role : Option String
  pub prompt : Option String
  pub loops : List LoopScope
  pub status : RecordStatus
  pub outcome : Option WorkflowOutcome
  pub answer : Option String
  pub error : Option String

pub data Mode : Type 0 where
  semi auto : Mode

pub data EngineStatus : Type 0 where
  ready running waiting blocked interrupted completed : EngineStatus

pub data PauseKind : Type 0 where
  mode human semi report failure interrupted : PauseKind

-- `message` is `none` where the source stores `undefined`: only a state that no checkpoint accepts
-- can have it.
pub record Pause : Type 0 where
  pub kind : PauseKind
  pub message : Option String

-- The field `version` is always 1 and is left out.
pub record EngineState : Type 0 where
  pub workflow : Workflow
  pub command : String
  pub mode : Option Mode
  pub status : EngineStatus
  pub pause : Option Pause
  pub active_batch : Option String
  pub records : List ExecutionRecord

-- The errors that the engine throws. `type_error` is the runtime's, where the source reads a field
-- of what a `!` wrongly declares to be there.
pub data EngineError : Type 0 where
  unknown_command record_budget depth_budget empty_chain unnamed_role no_prompt bad_loop_max :
      EngineError
  not_ready replay not_active not_settled not_a_checkpoint empty_answer bad_mode type_error :
      EngineError
  schema topology incomplete_report no_human_answer stray_running bad_active_batch : EngineError
  unfinished_records bad_pause no_mode would_bypass bad_human no_needs_human pause_mismatch :
      EngineError
  no_agents cannot_bypass not_interrupted not_reported not_blocked bad_report : EngineError
  invalid_json : EngineError

-- `record.status === …`
abbrev pub is_pending : ExecutionRecord → Bool
is_pending r = elim r.status [ RecordStatus.pending ↦ true | _ ↦ false ]

abbrev pub is_running : ExecutionRecord → Bool
is_running r = elim r.status [ RecordStatus.running ↦ true | _ ↦ false ]

abbrev pub is_completed : ExecutionRecord → Bool
is_completed r = elim r.status [ RecordStatus.completed ↦ true | _ ↦ false ]

abbrev pub is_skipped : ExecutionRecord → Bool
is_skipped r = elim r.status [ RecordStatus.skipped ↦ true | _ ↦ false ]

abbrev pub is_waiting : ExecutionRecord → Bool
is_waiting r = elim r.status [ RecordStatus.waiting ↦ true | _ ↦ false ]

abbrev pub is_blocked : ExecutionRecord → Bool
is_blocked r = elim r.status [ RecordStatus.blocked ↦ true | _ ↦ false ]

abbrev pub is_interrupted : ExecutionRecord → Bool
is_interrupted r = elim r.status [ RecordStatus.interrupted ↦ true | _ ↦ false ]

-- `["completed", "skipped"].includes(record.status)`
abbrev pub is_settled : ExecutionRecord → Bool
is_settled r = elim r.status [
  | RecordStatus.completed ↦ true
  | RecordStatus.skipped ↦ true
  | _ ↦ false
]

abbrev pub is_agent : ExecutionRecord → Bool
is_agent r = elim r.kind [ RecordKind.agent ↦ true | _ ↦ false ]

abbrev pub is_human : ExecutionRecord → Bool
is_human r = elim r.kind [ RecordKind.human ↦ true | _ ↦ false ]

abbrev pub set_status : RecordStatus → ExecutionRecord → ExecutionRecord
set_status s r = record r { status = s }

abbrev same_report : ReportStatus → ReportStatus → Bool
same_report ReportStatus.completed ReportStatus.completed = true
same_report ReportStatus.blocked ReportStatus.blocked = true
same_report ReportStatus.needs_human ReportStatus.needs_human = true
same_report _ _ = false

-- `record.outcome?.status === "needs_human"`
abbrev pub reports : ReportStatus → ExecutionRecord → Bool
reports s r = elim r.outcome [ none ↦ false | some o ↦ same_report s o.status ]

-- `record.batch === state.activeBatch`, where `activeBatch` may be null.
abbrev pub in_batch : Option String → ExecutionRecord → Bool
in_batch none r = false
in_batch (some b) r = str_eq r.batch b
