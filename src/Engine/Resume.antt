-- ===== src/Engine/Resume.antt =====
-- core/engine.ts: continuing a paused batch, and restoring a saved engine.
use Prim.Native.String.{String}
use d3r.Base.{
  ℕ, suc, Bool, true, false, not, ◌&&◌, ◌||◌, List, [], ◌∷◌, Option, none, some, str_eq, any, find,
  update_where, ltb, if◌then◌else◌,
}
use d3r.Base.Outcome.{Result, ok, fail, ◌>>=◌, ◌>>◌, reject_if}
use d3r.Engine.State.{
  ReportStatus, RecordStatus, ExecutionRecord, EngineStatus, PauseKind, EngineState, EngineError,
  no_agents, cannot_bypass, not_interrupted, not_reported, not_blocked, bad_report, invalid_json,
  type_error, is_pending, is_completed, is_skipped, is_waiting, is_blocked, is_interrupted,
  is_settled, is_agent, reports, set_status,
}
use d3r.Engine.Transition.{Next, is_active}
use d3r.Engine.Settle.{interrupt_engine, interrupt_message, is_waiting_status}
use d3r.Engine.Checkpoint.{parse_engine_state, kind_is, is_blocked_status, is_interrupted_status}

-- The statuses that a batch can be continued from.
pub data Held : Type 0 where
  interrupted waiting blocked : Held

abbrev pub is_held : Held → ExecutionRecord → Bool
is_held interrupted r = is_interrupted r
is_held waiting r = is_waiting r
is_held blocked r = is_blocked r

abbrev pub is_blocked_held : Held → Bool
is_blocked_held blocked = true
is_blocked_held _ = false

abbrev pub has_error : ExecutionRecord → Bool
has_error r = elim r.error [ none ↦ false | some e ↦ true ]

-- A record of the batch itself.
abbrev pub obstructs_inside : Held → ExecutionRecord → Bool
obstructs_inside status r =
    let otherwise : Bool = not (is_agent r) || (not (is_held status r) && not (is_completed r)) in
    if is_blocked_held status && is_agent r && is_skipped r
    then false
    else if is_blocked_held status && is_agent r && is_waiting r
    then not (reports ReportStatus.needs_human r) || has_error r
    else otherwise

abbrev pub obstructs_outside : (before : Bool) → ExecutionRecord → Bool
obstructs_outside true r = not (is_settled r)
obstructs_outside false r = not (is_pending r || is_skipped r)

unfoldable pub obstructed : Held → String → (first index : ℕ) → List ExecutionRecord → Bool
obstructed status batch first index [] = false
obstructed status batch first index (r ∷ rs) =
    (if str_eq r.batch batch
      then obstructs_inside status r
      else obstructs_outside (ltb index first) r)
    || obstructed status batch first (suc index) rs

-- `findIndex`, with the record that is there.
unfoldable pub find_index :
    (ExecutionRecord → Bool) → ℕ → List ExecutionRecord → Option (ℕ × ExecutionRecord)
find_index p index [] = none
find_index p index (r ∷ rs) =
    let rest = find_index p (suc index) rs in if p r then some (index, r) else rest

-- The checks of `resumableRecords`; the records that it returns are those with the status.
unfoldable pub check_resumable : EngineState → Held → Result (Unit {0}) EngineError
unfolding find_index obstructed
check_resumable state status =
    elim (find_index (λ r. is_agent r && is_held status r) 0 state.records) [
      | none ↦ fail no_agents
      | some (first, r) ↦ reject_if (obstructed status r.batch first 0 state.records) cannot_bypass
    ]

abbrev pub rerun : ExecutionRecord → ExecutionRecord
rerun r = record r { status = RecordStatus.running; outcome = none; error = none }

-- The state that the continuations build before it is checked again.
unfoldable pub restarted : Held → (ExecutionRecord → ExecutionRecord) → EngineState → Next
restarted status change state = elim (find (is_held status) state.records) [
  | none ↦ fail type_error
  | some r ↦ ok (record state {
    records = update_where (is_held status) change state.records;
    active_batch = some r.batch;
    status = EngineStatus.running;
    pause = none;
  })
]

abbrev pub not_interrupted_here : EngineState → Bool
not_interrupted_here state =
    not (is_interrupted_status state.status) || not (kind_is PauseKind.interrupted state)

abbrev pub not_reported_here : EngineState → Bool
not_reported_here state =
    not (is_waiting_status state.status) || not (kind_is PauseKind.report state)

abbrev pub not_blocked_here : EngineState → Bool
not_blocked_here state =
    not (is_blocked_status state.status) || not (kind_is PauseKind.failure state)

unfoldable pub resume_interrupted_batch : EngineState → Next
unfolding parse_engine_state check_resumable restarted
resume_interrupted_batch input = do
  state ← parse_engine_state input
  reject_if (not_interrupted_here state) not_interrupted
  check_resumable state interrupted
  next ← restarted interrupted (set_status RecordStatus.running) state
  parse_engine_state next

abbrev pub unreported : ExecutionRecord → Bool
unreported r = is_waiting r && (not (reports ReportStatus.needs_human r) || has_error r)

unfoldable pub resume_reported_batch : EngineState → Next
unfolding parse_engine_state check_resumable restarted
resume_reported_batch input = do
  state ← parse_engine_state input
  reject_if (not_reported_here state) not_reported
  check_resumable state waiting
  reject_if (any unreported state.records) bad_report
  next ← restarted waiting rerun state
  parse_engine_state next

unfoldable pub restart_blocked_batch : EngineState → Next
unfolding parse_engine_state check_resumable restarted
restart_blocked_batch input = do
  state ← parse_engine_state input
  reject_if (not_blocked_here state) not_blocked
  check_resumable state blocked
  next ← restarted blocked rerun state
  parse_engine_state next

-- `restoreEngine` on a value that is parsed already, as `serializeEngine` writes it.
unfoldable pub restore_engine : EngineState → Next
unfolding parse_engine_state interrupt_engine
restore_engine input = do
  state ← parse_engine_state input
  ok (if is_active state.status then interrupt_engine state interrupt_message else state)

-- `JSON.stringify` and `JSON.parse` of the engine's data.
pub record Json : Type 1 where
  pub Text : Type 0
  pub stringify : EngineState → Text
  pub parse : Text → Option EngineState

module _ (json : Json) where
  open json use {Text, stringify, parse}

  unfoldable pub serialize_engine : EngineState → Result Text EngineError
  unfolding parse_engine_state
  serialize_engine state = do checked ← parse_engine_state state; ok (stringify checked)

  unfoldable pub restore_text : Text → Next
  unfolding restore_engine
  restore_text text = elim (parse text) [
    | none ↦ fail invalid_json
    | some value ↦ restore_engine value
  ]
