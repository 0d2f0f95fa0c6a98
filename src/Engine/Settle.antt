-- ===== src/Engine/Settle.antt =====
-- core/engine.ts: settling a batch, answering a checkpoint, and interruption.
use Prim.Native.String.{String}
use d3r.Base.{
  Bool, true, false, not, ◌&&◌, ◌||◌, Option, none, some, str_eq, any, find, filter, update_where,
  if◌then◌else◌,
}
use d3r.Base.Text.{trim, is_blank, to_lower}
use d3r.Base.Outcome.{Result, ok, fail, ◌>>=◌, ◌>>◌, reject_if}
use d3r.Engine.State.{
  RecordStatus, ExecutionRecord, Mode, semi, auto, EngineStatus, PauseKind, EngineState,
  EngineError, type_error, not_settled, not_a_checkpoint, empty_answer, bad_mode, is_running,
  is_blocked, is_waiting, is_human, set_status, in_batch,
}
use d3r.Engine.Advance.{pause, advance}
use d3r.Engine.Transition.{Next, is_active, is_ready, update_first}
use d3r.Engine.Loops.{close_loops}

abbrev semi_prompt : String
semi_prompt = "Review the completed batch. Reply with instructions to continue, or abandon to stop."

abbrev pub summary_of : ExecutionRecord → Result String EngineError
summary_of r = elim r.outcome [ none ↦ fail type_error | some o ↦ ok o.summary ]

-- `blocked.error ?? blocked.outcome!.summary`
abbrev pub failure_of : ExecutionRecord → Result String EngineError
failure_of r = elim r.error [ none ↦ summary_of r | some e ↦ ok e ]

abbrev pub is_semi : Option Mode → Bool
is_semi (some semi) = true
is_semi _ = false

abbrev pub pause_between : EngineState → EngineState
unfolding pause
pause_between state =
    if is_semi state.mode && is_ready state.status
    then pause state PauseKind.semi (some semi_prompt)
    else state

-- The barrier once the first blocked and the first waiting record of the batch are looked up.
unfoldable pub settle_with :
    Option ExecutionRecord → Option ExecutionRecord → Option String → EngineState → Next
unfolding pause advance close_loops
settle_with (some blocked) human batch state = do
  message ← failure_of blocked
  ok (pause state PauseKind.failure (some message))
settle_with none (some human) batch state = do
  message ← summary_of human
  ok (pause state PauseKind.report (some message))
settle_with none none batch state = do
  next ← advance (record state { records = close_loops batch state.records })
  ok (pause_between next)

abbrev pub is_unsettled : EngineState → Bool
is_unsettled state = not (is_active state.status) || any is_running state.records

unfoldable pub settle_batch : EngineState → Next
unfolding settle_with
settle_batch state = do
  reject_if (is_unsettled state) not_settled
  let batch = filter (in_batch state.active_batch) state.records
  settle_with (find is_blocked batch) (find is_waiting batch) state.active_batch
      (record state { active_batch = none })

abbrev pub mode_of : String → Option Mode
mode_of answer =
    let word = to_lower (trim answer) in
    if str_eq word "semi" then some semi else if str_eq word "auto" then some auto else none

abbrev pub answer_record : String → ExecutionRecord → ExecutionRecord
answer_record answer r = record r { status = RecordStatus.completed; answer = some answer }

abbrev pub waits_for_human : ExecutionRecord → Bool
waits_for_human r = is_human r && is_waiting r

unfoldable pub answer_human : String → EngineState → Next
unfolding advance update_first
answer_human answer state = elim (find waits_for_human state.records) [
  | none ↦ fail type_error
  | some r ↦
      advance (record state {
        records = update_first waits_for_human (answer_record answer) state.records;
      })
]

unfoldable pub answer_mode : String → EngineState → Next
unfolding advance
answer_mode answer state = elim (mode_of answer) [
  | none ↦ fail bad_mode
  | some m ↦ advance (record state { mode = some m })
]

unfoldable pub answer_for : PauseKind → String → EngineState → Next
unfolding answer_mode answer_human advance
answer_for PauseKind.mode answer state = answer_mode answer state
answer_for PauseKind.human answer state = answer_human answer state
answer_for PauseKind.semi answer state = advance state
answer_for _ answer state = fail not_a_checkpoint

abbrev pub is_waiting_status : EngineStatus → Bool
is_waiting_status EngineStatus.waiting = true
is_waiting_status _ = false

abbrev pub is_checkpoint : PauseKind → Bool
is_checkpoint PauseKind.mode = true
is_checkpoint PauseKind.human = true
is_checkpoint PauseKind.semi = true
is_checkpoint _ = false

-- This pause wants a restart or a decision to abandon.
abbrev pub refuses_answer : EngineState → PauseKind → Bool
refuses_answer state kind = not (is_waiting_status state.status) || not (is_checkpoint kind)

unfoldable pub answer_checkpoint : EngineState → String → Next
unfolding answer_for
answer_checkpoint state answer = elim state.pause [
  | none ↦ fail not_a_checkpoint
  | some p ↦ do
    reject_if (refuses_answer state p.kind) not_a_checkpoint
    reject_if (is_blank answer) empty_answer
    answer_for p.kind answer state
]

unfoldable pub interrupt_engine : EngineState → String → EngineState
unfolding pause
interrupt_engine state message =
    pause
      (record state {
        records = update_where is_running (set_status RecordStatus.interrupted) state.records;
        active_batch = none;
      })
      PauseKind.interrupted (some message)

abbrev pub interrupt_message : String
interrupt_message = "Work was interrupted; effects may already have occurred."
