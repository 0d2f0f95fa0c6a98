-- ===== src/Runtime/Restored.antt =====
-- cli/src/workflow-runtime.ts, `restore`: which checkpoints a session goes on from. `JSON.stringify` of a
-- workflow is the platform's.
use Prim.Native.Char.{code}
use Prim.Native.String.{String, [], ◌∷◌}
use d3r.Base.{
  ℕ, Bool, true, false, not, ◌&&◌, ◌||◌, List, Option, none, some, str_eq, leb, ltb, ◌==◌, length,
  any,
}
use d3r.Base.Text.{is_digit}
use d3r.Base.Outcome.{Result, ok, fail, ◌>>=◌, ◌>>◌, reject_if}
use d3r.Schema.{Command, Workflow}
use d3r.Engine.State.{ExecutionRecord, EngineState}
use d3r.Engine.Compile.{compile_workflow}
use d3r.Engine.Resume.{restore_engine}
use d3r.Cli.Continuations.{validate_continuations}
use d3r.Runtime.Events.{is_there}
use d3r.Runtime.Graph.{Execution, execution_workflow, is_completed_status, has_command, includes}
use d3r.Runtime.Session.{
  Session, SessionError, duplicate_agents, invalid_command, missing_agent, bad_workflow,
  invalid_checkpoint, pins_differ, invalid_phase, phase_mismatch, bad_handoff, bad_continuations,
  other_mode,
}
use d3r.Runtime.Saved.{Checkpoint, parse_checkpoint}

abbrev pub is_name_char : ℕ → Bool
is_name_char c = (leb b'a' c && leb c b'z') || is_digit c || c == b'_' || c == b'-'

unfoldable pub is_name_rest : String → Bool
is_name_rest [] = true
is_name_rest (c ∷ s) = is_name_char (code c) && is_name_rest s

-- `/^[a-z][a-z0-9_-]*$/`
unfoldable pub is_command_name : String → Bool
unfolding is_name_rest
is_command_name [] = false
is_command_name (c ∷ s) = leb b'a' (code c) && leb (code c) b'z' && is_name_rest s

abbrev pub lacks_agent : List String → ExecutionRecord → Bool
lacks_agent agents r = elim r.role [
  | none ↦ false
  | some role ↦ not (str_eq role "") && not (includes role agents)
]

abbrev pub has_repeats : List String → Bool
has_repeats List.[] = false
has_repeats (List.◌∷◌ name names) = includes name names || has_repeats names

-- The roles of one command that can run.
unfoldable pub check_command :
    Workflow → (agents : List String) → String → Result (Unit {0}) SessionError
unfolding compile_workflow is_command_name
check_command workflow agents name = do
  reject_if (not (is_command_name name) || str_eq name "routing") invalid_command
  elim (compile_workflow workflow name) [
    | fail x ↦ fail bad_workflow
    | ok records ↦ reject_if (any (lacks_agent agents) records) missing_agent
  ]

unfoldable pub check_commands :
    Workflow → (agents : List String) → List (String × Command) → Result (Unit {0}) SessionError
unfolding check_command
check_commands workflow agents List.[] = ok tt
check_commands workflow agents (List.◌∷◌ (name, command) rest) = do
  check_command workflow agents name
  check_commands workflow agents rest

unfoldable pub check_resources : Workflow → (agents : List String) → Result (Unit {0}) SessionError
unfolding check_commands
check_resources workflow agents = do
  reject_if (has_repeats agents) duplicate_agents
  check_commands workflow agents workflow.commands

-- `parsed.engine ? restoreEngine(parsed.engine) : null`
unfoldable pub restore_if_there : Option EngineState → Result (Option EngineState) SessionError
unfolding restore_engine
restore_if_there none = ok none
restore_if_there (some e) = elim (restore_engine e) [
  | fail x ↦ fail invalid_checkpoint
  | ok restored ↦ ok (some restored)
]

module _ {C S : Type 0} where
  abbrev pub execution_of : Checkpoint C S → Execution
  execution_of c = record {
    phase = c.phase;
    orchestrated = c.orchestrated;
    standalone_role = c.standalone_role;
    routing_interrupted = c.routing_interrupted;
  }

  -- An unfinished engine belongs to the phase, or to a single role, and to no interrupted turn.
  abbrev pub mismatches : Option EngineState → Checkpoint C S → Bool
  mismatches none c = false
  mismatches (some e) c =
      not (is_completed_status e.status)
      && ((not (is_there c.standalone_role) && not (str_eq c.phase e.command))
          || c.routing_interrupted)

  -- What a restored session takes from its checkpoint.
  abbrev pub session_from : Session C S → Option EngineState → Checkpoint C S → Session C S
  session_from s engine c = record {
    workflow = c.workflow;
    phase = c.phase;
    standalone_role = c.standalone_role;
    topic = c.topic;
    engine = engine;
    history = c.history;
    input = c.input;
    phase_history = c.phase_history;
    summary = c.summary;
    routing_input = c.routing_input;
    routing_interrupted = c.routing_interrupted;
    routing_before = elim c.routing_before [ none ↦ some c.routing | some before ↦ some before ];
    routing_history = c.routing_history;
    phase_used = s.phase_used;
    continuations = c.continuations;
  }

unfoldable pub pinned_workflow :
    Workflow
    → (agents : List String) → Option EngineState
    → Execution
    → Result Workflow SessionError
unfolding execution_workflow
pinned_workflow workflow agents engine x = elim (execution_workflow workflow agents engine x) [
  | fail e ↦ fail invalid_checkpoint
  | ok w ↦ ok w
]

abbrev pub same_mode : Bool → Bool → Bool
same_mode true b = b
same_mode false b = not b

abbrev pub differs : (Workflow → String) → Option EngineState → Workflow → Bool
differs stringify none expected = false
differs stringify (some e) expected = not (str_eq (stringify e.workflow) (stringify expected))

unfoldable pub check_rows :
    {C S : Type 0} → Option EngineState → Checkpoint C S → Result (Unit {0}) SessionError
unfolding validate_continuations
check_rows engine c = elim (validate_continuations engine c.continuations c.orchestrated) [
  | fail x ↦ fail bad_continuations
  | ok u ↦ ok tt
]

module _ {C S : Type 0} (stringify : Workflow → String) (agents : List String)
    (orchestrated : Bool) where
  -- `restore` once the checkpoint is parsed.
  unfoldable pub accept : Session C S → Checkpoint C S → Result (Session C S) SessionError
  unfolding restore_if_there check_resources pinned_workflow check_rows
  accept s c = do
    engine ← restore_if_there c.engine
    check_resources c.workflow agents
    expected ← pinned_workflow c.workflow agents engine (execution_of c)
    reject_if (differs stringify engine expected) pins_differ
    reject_if (not (str_eq c.phase "routing") && not (has_command c.workflow c.phase)) invalid_phase
    reject_if (mismatches engine c) phase_mismatch
    reject_if (ltb (length c.history) c.routing_history) bad_handoff
    check_rows engine c
    reject_if (not (same_mode c.orchestrated orchestrated)) other_mode
    ok (session_from s engine c)

  unfoldable pub restore : Session C S → Checkpoint C S → Result (Session C S) SessionError
  unfolding parse_checkpoint accept
  restore s checkpoint = do c ← parse_checkpoint checkpoint; accept s c
