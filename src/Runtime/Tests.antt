-- ===== src/Runtime/Tests.antt =====
-- Runs of a session on a small workflow, and each theorem at an input where it applies.
use Prim.Native.String.{String}
use native.Mathlib.Decide.{ℕ_discrete}
use d3r.Base.{
  Bool, true, false, ap, sym, ◌∙◌, ◌≢◌, ◌≡◌, ◌↔◌, refl, [], ◌∷◌, Option, none, some, arith,
}
use d3r.Base.Text.{is_blank, is_space, trim, units, decimal, encode_uri_component}
use d3r.Base.Outcome.{ok, fail}
use d3r.Schema.{ChainStep, nil, cons, Workflow}
use d3r.Engine.State.{
  ReportStatus, WorkflowOutcome, RecordKind, RecordStatus, ExecutionRecord, EngineStatus,
  EngineState,
}
use d3r.Engine.Transition.{create_engine, begin_batch, record_outcome, report}
use d3r.Engine.Settle.{settle_batch}
use d3r.Engine.Resume.{restore_engine}
use d3r.Runtime.Events.{Ending, Attempt, ready, returns, reports, StopReason, nothing_yet}
use d3r.Runtime.Turn.{run_role}
use d3r.Runtime.Established.{IsEstablished, done_with, run_role-done}
use d3r.Runtime.Retained.{StaysAborted, run_role-retained}
use d3r.Engine.Transition.{parse_outcome, settle_record}
use d3r.Cli.Names.{IsUuid}
use d3r.Cli.Continuations.{is_retainable}
use d3r.Runtime.Drive.{as_report, Work, Round, drive_loop}
use d3r.Runtime.Ends.{is_unfinished, drive_loop-ends}
use d3r.Runtime.Session.{text, Session, phase_mismatch}
use d3r.Runtime.Actions.{WorkflowBrief, start, go_on, abandon}
use d3r.Runtime.Phases.{Weather, says, Phased, replied, failed}
use d3r.Runtime.Tasks.{PhaseCall, Host}
use d3r.Runtime.Control.{run_phase}
use d3r.Runtime.Routing.{Turn, TurnEnd, calls, chunk, session_of, run_turn}
use d3r.Runtime.Prompts.{Surroundings, prompt}
use d3r.Runtime.Kept.{session_in, is_refusable, prompt-restorable}
use d3r.Runtime.Saved.{Checkpoint, snapshot}
use d3r.Runtime.Restored.{restore}
use d3r.Runtime.Resaved.{brought_back}
use d3r.Runtime.Roundtrip.{restore-snapshot}
use d3r.Runtime.Refusals.{is_refused, run_phase-refused}
use d3r.Runtime.Once.{run_turn-once}
use d3r.Engine.Settle.{is_waiting_status}

abbrev outcome : WorkflowOutcome
outcome = record {
  status = ReportStatus.completed;
  summary = "done";
  review = none;
  all_done = none;
}

-- A role that reports once and ends as completed.
abbrev good : Attempt String
good = record {
  early = [];
  setup = ready;
  during = reports (report outcome) false ∷ [];
  ending = returns StopReason.completed false;
  can_save = true;
  saved = some "conversation";
  late = [];
  disposed = true;
  aborted = false;
}

-- The same role, with its report in prose alone.
abbrev silent : Attempt String
silent = record good { during = [] }

unfoldable engine : Unit {0}
unfolding create_engine begin_batch record_outcome settle_batch is_blank is_space trim units decimal
    encode_uri_component restore_engine ℕ_discrete run_role drive_loop run_phase run_turn restore
    snapshot
engine = tt

good-result : (run_role "planner" true good).result ≡ done_with outcome
unfolding engine
good-result = refl

silent-result : (run_role "planner" true silent).result ≡ nothing_yet
unfolding engine
silent-result = refl

run_role-done_example :
    ((run_role "planner" true good).result ≡ done_with outcome) ↔ IsEstablished good outcome
run_role-done_example = run_role-done "planner" true good outcome refl

-- A role that reaches the limit of its tokens before it reports.
abbrev limited : Attempt String
limited = record good { during = []; ending = returns StopReason.token_limit false }

limited-kept : (run_role "implementor" true limited).retained ≡ some "conversation"
unfolding engine
limited-kept = refl

limited-recorded : (run_role "implementor" true limited).recorded ≡ true
unfolding engine
limited-recorded = refl

is_limit : Ending → Bool
is_limit (returns StopReason.token_limit aborted) = true
is_limit _ = false

limited_unfinished : returns StopReason.token_limit false ≡ returns StopReason.completed true → ⊥
unfolding is_limit
limited_unfinished h = cc (ap is_limit h)

not_aborted : StaysAborted limited
not_aborted h = absurd (limited_unfinished h)

abbrev workflow : Workflow
workflow = record {
  commands =
      (
        "build",
        record {
          description = "d";
          chain = cons (ChainStep.agent "planner") (cons (ChainStep.human "Ship it?") nil);
          reviews_default = none;
        },
      )
      ∷ [];
  vault = record { dirs = []; template_kinds = [] };
}

abbrev planning : ExecutionRecord
planning = record {
  id = "build/0";
  kind = RecordKind.agent;
  batch = "build/0";
  role = some "planner";
  prompt = none;
  loops = [];
  status = RecordStatus.pending;
  outcome = none;
  answer = none;
  error = none;
}

abbrev shipping : ExecutionRecord
shipping = record {
  id = "build/1";
  kind = RecordKind.human;
  batch = "build/1";
  role = none;
  prompt = some "Ship it?";
  loops = [];
  status = RecordStatus.pending;
  outcome = none;
  answer = none;
  error = none;
}

abbrev started : EngineState
started = record {
  workflow = workflow;
  command = "build";
  mode = none;
  status = EngineStatus.ready;
  pause = none;
  active_batch = none;
  records = planning ∷ shipping ∷ [];
}

started-created : create_engine workflow "build" none ≡ ok started
unfolding engine
started-created = refl

abbrev planner_running : ExecutionRecord
planner_running = record planning { status = RecordStatus.running }

run_role-retained_example :
    let result = (run_role "implementor" true limited).result in
    is_retainable
      (settle_record (parse_outcome (as_report result.outcome)) result.error planner_running)
    ≡ true
run_role-retained_example =
    run_role-retained "implementor" true limited planner_running "conversation" not_aborted refl
      refl limited-recorded limited-kept

abbrev fair : Round String
fair = record {
  aborted_before = false;
  planned = true;
  order = λ batch. batch;
  attempt = λ id. good;
  delivered = λ id. true;
  aborted_after = false;
  planned_after = true;
}

abbrev work : Work String
work = record { engine = started; continuations = [] }

drive_loop-ends_example : is_unfinished (drive_loop true (fair ∷ fair ∷ fair ∷ []) work) ≡ false
drive_loop-ends_example = drive_loop-ends true (fair ∷ fair ∷ fair ∷ []) work (omega arith)

abbrev drafted : Session String String
drafted = record {
  workflow = workflow;
  phase = "build";
  standalone_role = none;
  topic = some "first-draft";
  engine = none;
  history = [];
  input = [];
  phase_history = [];
  summary = none;
  routing_input = text "go on" ∷ [];
  routing_interrupted = false;
  routing_before = none;
  routing_history = 0;
  phase_used = false;
  continuations = [];
}

abbrev checkpoint : Checkpoint String String
checkpoint = record {
  workflow = workflow;
  phase = "build";
  engine = some started;
  history = text "Routing user:\nplan it" ∷ [];
  input = text "plan it" ∷ [];
  phase_history = [];
  summary = none;
  orchestrated = true;
  standalone_role = none;
  topic = some "first-draft";
  continuations = [];
  routing = "before";
  routing_interrupted = false;
  routing_input = [];
  routing_before = none;
  routing_history = 1;
}

abbrev restored : Session String String
restored = record drafted {
  engine = some started;
  history = text "Routing user:\nplan it" ∷ [];
  input = text "plan it" ∷ [];
  routing_input = [];
  routing_before = some "before";
  routing_history = 1;
}

abbrev name_it : Workflow → String
name_it w = "workflow"

checkpoint-restored : restore name_it ("planner" ∷ []) true drafted checkpoint ≡ ok restored
unfolding engine
checkpoint-restored = refl

-- An engine whose phase is not the saved one is refused.
checkpoint-refused :
    restore name_it ("planner" ∷ []) true drafted (record checkpoint { phase = "routing" })
    ≡ fail phase_mismatch
unfolding engine
checkpoint-refused = refl

restore-snapshot_example :
    (again : Checkpoint String String) × (snapshot true false "now" restored ≡ ok again)
    × (restore name_it ("planner" ∷ []) true drafted again ≡ ok (brought_back true "now" restored))
restore-snapshot_example =
    restore-snapshot name_it ("planner" ∷ []) true drafted restored checkpoint "now"
      checkpoint-restored

abbrev host : Host
host = record {
  agents = "planner" ∷ [];
  fold = λ s. s;
  uuid = "0f8fad5b-d9cb-469f-a165-70867728950e";
  stringify = λ outputs. "[]";
}

host_uuid : IsUuid host.uuid
unfolding d3r.Cli.Topic.slice units
host_uuid = (refl, refl)

abbrev sunny : Weather String
sunny = record {
  announced = true;
  rounds = λ n. fair;
  summary = "";
  summarized = true;
  said = true;
}

abbrev call : PhaseCall
call = record { in_turn = true; aborted = false; busy = false }

abbrev brief : WorkflowBrief
brief = record {
  goal = "A plan";
  context = "None";
  acceptance_criteria = "It is short" ∷ [];
  constraints = [];
}

abbrev session_after : Phased (Session String String) → Option String × Option EngineStatus
session_after (replied s reply) = (s.topic, elim s.engine [ none ↦ none | some e ↦ some e.status ])
session_after (failed s) = (none, none)

-- A phase that is started runs up to its human checkpoint.
start-waits :
    session_after
      (run_phase host sunny call (start "build" brief none (some "first-draft")) drafted)
    ≡ (some "first-draft", some EngineStatus.waiting)
unfolding engine
start-waits = refl

abbrev resumed : Session String String
resumed = session_of (run_phase host sunny call (go_on "again") restored)

abbrev has_waiting : Option EngineState → Bool
has_waiting none = false
has_waiting (some e) = is_waiting_status e.status

abbrev has_engine : Option EngineState → Bool
has_engine none = false
has_engine (some e) = true

resumed_waits : has_waiting resumed.engine ≡ true
unfolding engine
resumed_waits = refl

resumed_there : has_engine resumed.engine ≡ true
unfolding engine
resumed_there = refl

resumed-changed : resumed.engine ≢ restored.engine
resumed-changed h =
    let moved : has_waiting restored.engine ≡ true = ap has_waiting (sym h) ∙ resumed_waits in cc

resumed-some : resumed.engine ≢ none
resumed-some h = let moved : has_engine none ≡ true = ap has_engine (sym h) ∙ resumed_there in cc

run_turn-once_example :
    (run_turn true host
      (calls call (go_on "again") sunny ∷ chunk "m" "Done." ∷ calls call (abandon "no") sunny ∷ [])
      (resumed, [])).0
    ≡ resumed
run_turn-once_example =
    run_turn-once host sunny restored true call (go_on "again")
      (calls call (go_on "again") sunny ∷ chunk "m" "Done." ∷ calls call (abandon "no") sunny ∷ [])
      [] host_uuid resumed-changed resumed-some

nothing-continues :
    run_phase host sunny call (go_on "again") drafted
    ≡ replied drafted (says true "There is no unfinished phase to continue.")
unfolding engine
nothing-continues = refl

continuing-refused : is_refused (run_phase host sunny call (go_on "again") drafted) ≡ true
unfolding engine
continuing-refused = refl

run_phase-refused_example : session_of (run_phase host sunny call (go_on "again") drafted) ≡ drafted
run_phase-refused_example =
    run_phase-refused host sunny drafted call (go_on "again") continuing-refused

-- The orchestrator goes on with the phase and tells the user.
abbrev turn : Turn String String
turn = record {
  before = some "before";
  prepared = true;
  events = calls call (go_on "again") sunny ∷ chunk "m" "Done." ∷ [];
  ending = TurnEnd.ends StopReason.completed false;
}

abbrev around : Surroundings String String
around = record { said = true; recovered = true; aborted = false; turn = turn; weather = sunny }

prompt-restorable_example :
    is_refusable (session_in (prompt true host around false false (text "go on" ∷ []) restored))
    ≡ false
prompt-restorable_example =
    prompt-restorable host around false false (text "go on" ∷ []) restored host_uuid refl
