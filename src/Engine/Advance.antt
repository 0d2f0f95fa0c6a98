-- ===== src/Engine/Advance.antt =====
-- core/engine.ts, `pause` and `advance`: the walk over control records up to the next agent, human
-- checkpoint or exhausted loop.
use Prim.Native.String.{String}
use d3r.Base.{List, [], ◌∷◌, Option, none, some, get_last?, ◌==◌, if◌then◌else◌}
use d3r.Base.Text.{◌<>◌, decimal}
use d3r.Base.Outcome.{Result, ok, fail, ◌>>=◌}
use d3r.Engine.State.{
  LoopScope, RecordKind, RecordStatus, ExecutionRecord, EngineStatus, PauseKind, EngineState,
  EngineError, type_error, is_pending, set_status,
}

abbrev pub pause_status : PauseKind → EngineStatus
pause_status PauseKind.failure = EngineStatus.blocked
pause_status PauseKind.interrupted = EngineStatus.interrupted
pause_status _ = EngineStatus.waiting

unfoldable pub pause : EngineState → PauseKind → Option String → EngineState
pause state kind message = record state {
  status = pause_status kind;
  pause = some (record { kind = kind; message = message });
}

-- Where the walk ends, with what `advance` needs of the record that stops it.
pub data Stop : Type 0 where
  at_human : (prompt : Option String) → Stop
  at_agent : Stop
  exhausted : LoopScope → Stop
  at_end : Stop

abbrev Walk : Type 0
Walk = Result (List ExecutionRecord × Stop) EngineError

-- The records behind the one that is passed over.
abbrev pub behind : ExecutionRecord → Walk → Walk
behind r rest = do (rs, stop) ← rest; ok (r ∷ rs, stop)

-- One pending record; `rest` is the walk over those after it.
abbrev pub visit :
    RecordKind → Option LoopScope → ExecutionRecord → List ExecutionRecord → Walk → Walk
visit RecordKind.human loop r rs rest =
    ok (set_status RecordStatus.waiting r ∷ rs, at_human r.prompt)
visit RecordKind.agent loop r rs rest = ok (r ∷ rs, at_agent)
visit RecordKind.loop_end none r rs rest = fail type_error
visit RecordKind.loop_end (some loop) r rs rest =
    if loop.iteration == loop.max
    then ok (set_status RecordStatus.blocked r ∷ rs, exhausted loop)
    else behind (set_status RecordStatus.completed r) rest

-- The loop changes a record only when it reaches it, so the filter on `pending` before the loop is
-- the test on each record in turn.
unfoldable pub walk : List ExecutionRecord → Walk
walk [] = ok ([], at_end)
walk (r ∷ rs) =
    let rest = walk rs in
    if is_pending r then visit r.kind (get_last? r.loops) r rs rest else behind r rest

pub exhausted_message : LoopScope → String
exhausted_message loop =
    "Loop "
    <> loop.id
    <> " exhausted "
    <> decimal loop.max
    <> " iterations without reviewer approval or implementor allDone. No subsequent steps were run."

abbrev pub conclude : EngineState → Stop → EngineState
unfolding pause
conclude state (at_human prompt) = pause state PauseKind.human prompt
conclude state at_agent = record state { status = EngineStatus.ready }
conclude state (exhausted loop) = pause state PauseKind.failure (some (exhausted_message loop))
conclude state at_end = record state { status = EngineStatus.completed }

unfoldable pub advance : EngineState → Result EngineState EngineError
unfolding walk
advance state = do
  (records, stop) ← walk state.records
  ok (conclude (record state { pause = none; records = records }) stop)
