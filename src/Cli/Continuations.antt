-- ===== src/Cli/Continuations.antt =====
-- cli/src/workflow-continuations.ts: the retained conversations of paused roles, and when a paused
-- workflow can go on with them.
use Prim.Native.String.{String}
use d3r.Base.{
  Bool, false, not, ◌&&◌, ◌||◌, List, [], ◌∷◌, Option, none, some, str_eq, any, all, filter,
}
use d3r.Base.Outcome.{Result, ok, fail, reject_if}
use d3r.Engine.State.{
  ReportStatus, EngineStatus, PauseKind, ExecutionRecord, EngineState, EngineError, is_agent,
  is_waiting, is_blocked, is_interrupted, is_running, reports,
}
use d3r.Engine.Transition.{is_truthy}
use d3r.Engine.Settle.{is_waiting_status}
use d3r.Engine.Checkpoint.{kind_is, is_blocked_status, is_interrupted_status, is_paused_status}
use d3r.Engine.Resume.{restart_blocked_batch, resume_interrupted_batch, resume_reported_batch}

-- What a backend saved of a role is its own matter.
pub record WorkflowContinuation (C : Type 0) : Type 0 where
  pub record_id : String
  pub checkpoint : C

-- A record whose conversation may be kept.
abbrev pub is_retainable : ExecutionRecord → Bool
is_retainable r =
    is_agent r
    && (is_interrupted r
        || is_blocked r
        || (is_waiting r && reports ReportStatus.needs_human r && not (is_truthy r.error)))

abbrev pub is_record_of : String → ExecutionRecord → Bool
is_record_of id r = str_eq r.id id && is_retainable r

abbrev pub is_paused : Option EngineState → Bool
is_paused none = false
is_paused (some e) = is_paused_status e.status

abbrev pub has_record : Option EngineState → String → Bool
has_record none id = false
has_record (some e) id = any (is_record_of id) e.records

pub data ContinuationError : Type 0 where
  invalid : ContinuationError

module _ {C : Type 0} where
  abbrev pub repeats : List (WorkflowContinuation C) → Bool
  repeats [] = false
  repeats (row ∷ rows) = any (λ other. str_eq other.record_id row.record_id) rows || repeats rows

  abbrev pub is_foreign : Option EngineState → (orchestrated : Bool) → WorkflowContinuation C → Bool
  is_foreign engine orchestrated row =
      not orchestrated || not (is_paused engine) || not (has_record engine row.record_id)

  unfoldable pub validate_continuations :
      Option EngineState
      → List (WorkflowContinuation C)
      → (orchestrated : Bool) → Result (Unit {0}) ContinuationError
  validate_continuations engine rows orchestrated =
      reject_if (repeats rows || any (is_foreign engine orchestrated) rows) invalid

unfoldable pub resume_by : EngineStatus → EngineState → Result EngineState EngineError
unfolding restart_blocked_batch resume_interrupted_batch resume_reported_batch
resume_by EngineStatus.blocked e = restart_blocked_batch e
resume_by EngineStatus.interrupted e = resume_interrupted_batch e
resume_by _ e = resume_reported_batch e

-- `resumeWorkflow`
unfoldable pub resume_workflow : EngineState → Result EngineState EngineError
unfolding resume_by
resume_workflow e = resume_by e.status e

abbrev pub can_start : EngineState → Bool
can_start e =
    is_blocked_status e.status
    || is_interrupted_status e.status
    || (is_waiting_status e.status && kind_is PauseKind.report e)

module _ {C : Type 0} where
  abbrev pub is_kept : List (WorkflowContinuation C) → ExecutionRecord → Bool
  is_kept rows r = any (λ row. str_eq row.record_id r.id) rows

  -- `canResumeWorkflow`
  unfoldable pub can_resume_workflow : Option EngineState → List (WorkflowContinuation C) → Bool
  unfolding resume_workflow
  can_resume_workflow none rows = false
  can_resume_workflow (some e) rows = can_start e && (elim (resume_workflow e) [
    | ok resumed ↦
        is_blocked_status e.status || all (is_kept rows) (filter is_running resumed.records)
    | fail error ↦ false
  ])
