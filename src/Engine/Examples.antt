-- ===== src/Engine/Examples.antt =====
-- core/engine.ts: the theorems about the engine, each at a run of a small workflow.
use Prim.Native.String.{String}
use d3r.Base.{
  ◌≡◌, refl, List, [], Option, none, some, map, get_elem?, length, find, All, true, arith, inl, ◌≤◌,
}
use d3r.Base.Outcome.{Result, ok, fail}
use d3r.Schema.{Command, lookup}
use d3r.Engine.State.{
  RecordKind, ExecutionRecord, EngineStatus, EngineState, EngineError, is_pending, is_running,
  is_blocked, in_batch, stray_running,
}
use d3r.Engine.Compile.{fresh, compile_workflow}
use d3r.Engine.Transition.{create_engine, begin_batch, record_outcome, report, malformed, is_active}
use d3r.Engine.Advance.{advance}
use d3r.Engine.Settle.{settle_batch, interrupt_engine}
use d3r.Engine.Checkpoint.{parse_engine_state, topology}
use d3r.Engine.Resume.{Json, serialize_engine, restore_text, restore_engine}
use d3r.Engine.Reach.{
  Reach, here, step, begins, records_outcome, settles, parses, Reach-topology, Reach-final,
}
use d3r.Engine.Measure.{weight, is_valid, IsFresh}
use d3r.Engine.Expansion.{compile_workflow-Expanded}
use d3r.Engine.Completeness.{compile_workflow_total}
use d3r.Engine.Trust.{parse_engine_state_idem}
use d3r.Engine.Accepted.{IsIdle, restore_engine-IsIdle}
use d3r.Engine.Interrupted.{parse-interrupt_engine, parse-restore_engine}
use d3r.Engine.Standing.{Stands, advance-Stands}
use d3r.Engine.Scheduling.{IsStuck, begin_batch-running, settle_batch-blocked}
use d3r.Engine.Tests.{chain, workflow, done, engine}

-- No engine at all, where a run fails.
abbrev empty : EngineState
empty = record {
  workflow = workflow;
  command = "";
  mode = none;
  status = EngineStatus.completed;
  pause = none;
  active_batch = none;
  records = [];
}

abbrev state_of : Result EngineState EngineError → EngineState
state_of (ok s) = s
state_of (fail e) = empty

abbrev records_of : Result (List ExecutionRecord) EngineError → List ExecutionRecord
records_of (ok rs) = rs
records_of (fail e) = []

-- The run: created, its first batch begun, reported and settled; or failed, or interrupted.
abbrev made : EngineState
made = state_of (create_engine workflow "build" none)

abbrev begun : EngineState
begun = state_of (begin_batch made)

abbrev reported : EngineState
reported = state_of (record_outcome begun "build/0@1/0" (report (done none)) none)

abbrev settled : EngineState
settled = state_of (settle_batch reported)

abbrev failed : EngineState
failed = state_of (record_outcome begun "build/0@1/0" malformed none)

abbrev stopped : EngineState
stopped = state_of (settle_batch failed)

path : Reach made settled
unfolding engine
path =
    step
      (step (step here (begins refl))
        (records_outcome "build/0@1/0" (report (done none)) none refl))
      (settles refl)

abbrev blank : ExecutionRecord
blank = fresh "" "" RecordKind.agent none none []

abbrev record_of : Option ExecutionRecord → ExecutionRecord
record_of none = blank
record_of (some r) = r

abbrev first_done : ExecutionRecord
first_done = record_of (get_elem? settled.records 0)

abbrev first_failed : ExecutionRecord
first_failed = record_of (find is_blocked failed.records)

checked : Reach settled settled
unfolding engine
checked = step here (parses refl)

Reach-topology_example : map topology settled.records ≡ map topology made.records
Reach-topology_example = Reach-topology path

Reach-final_example :
    (r' : ExecutionRecord) × (get_elem? settled.records 0 ≡ some r')
    × (r'.status ≡ first_done.status)
unfolding engine
Reach-final_example = Reach-final 0 first_done checked refl (inl refl)

abbrev expanded : List ExecutionRecord
expanded = records_of (compile_workflow workflow "build")

compile_workflow-Expanded_example :
    (c : Command) × (lookup "build" workflow.commands ≡ some c)
    × (is_valid 0 c.chain ≡ true)
    × (length expanded ≡ weight c.chain)
    × (length expanded ≤ 10_000)
    × All IsFresh expanded
unfolding engine
compile_workflow-Expanded_example = compile_workflow-Expanded workflow "build" expanded refl

compile_workflow_total_example :
    (rs : List ExecutionRecord) × (compile_workflow workflow "build" ≡ ok rs)
    × (length rs ≡ weight chain)
unfolding engine is_valid weight lookup
compile_workflow_total_example =
    compile_workflow_total workflow "build"
      (record { description = "d"; chain = chain; reviews_default = none }) refl refl (omega arith)

parse_engine_state_idem_example : parse_engine_state settled ≡ ok settled
unfolding engine
parse_engine_state_idem_example = parse_engine_state_idem settled settled refl

-- Texts are the states themselves.
abbrev plain : Json
plain = record { Text = EngineState; stringify = λ s. s; parse = λ s. some s }

serialize-refused :
    serialize_engine plain (record begun { active_batch = none }) ≡ fail stray_running
unfolding engine serialize_engine
serialize-refused = refl

restore-begun : restore_text plain begun ≡ restore_engine begun
unfolding engine restore_text
restore-begun = refl

restore_engine-IsIdle_example : IsIdle (state_of (restore_engine begun))
unfolding engine
restore_engine-IsIdle_example = restore_engine-IsIdle begun (state_of (restore_engine begun)) refl

parse-interrupt_engine_example :
    parse_engine_state (interrupt_engine begun "stop") ≡ ok (interrupt_engine begun "stop")
unfolding engine
parse-interrupt_engine_example = parse-interrupt_engine begun "stop" refl refl

parse-restore_engine_example :
    parse_engine_state (state_of (restore_engine begun)) ≡ ok (state_of (restore_engine begun))
unfolding engine
parse-restore_engine_example = parse-restore_engine begun (state_of (restore_engine begun)) refl

advance-Stands_example : Stands settled (state_of (advance settled))
unfolding engine
advance-Stands_example =
    advance-Stands settled (state_of (advance settled))
      (refl, (refl, (refl, (refl, (refl, (refl, (refl, tt))))))) refl

begin_batch-running_example :
    (b : String) × (begun.active_batch ≡ some b)
    × (is_active begun.status ≡ true)
    × All (λ r. is_running r ≡ in_batch (some b) r) begun.records
    × All (λ r. in_batch (some b) r ≡ true → is_pending r ≡ true) made.records
unfolding engine
begin_batch-running_example =
    begin_batch-running made begun
      (record {
        inactive = refl;
        no_active_batch = refl;
        none_runs = (refl, (refl, (refl, (refl, (refl, (refl, (refl, tt)))))));
      })
      refl

settle_batch-blocked_example :
    (stopped.status ≡ EngineStatus.blocked)
    × (stopped.records ≡ failed.records)
    × IsStuck "build/0@1/0" (report (done none)) none "go on" stopped
unfolding engine
settle_batch-blocked_example =
    settle_batch-blocked failed stopped 0 first_failed "build/0@1/0" (report (done none)) none
      "go on" refl refl refl refl
