-- ===== src/Runtime/Tasks.antt =====
-- cli/src/workflow-runtime.ts, `runPhase`: starting a phase or a single role, and abandoning one.
use Prim.Native.String.{String}
use d3r.Base.{
  Bool, true, false, not, ◌||◌, List, [], ◌∷◌, ◌++◌, Option, none, some, str_eq, if◌then◌else◌,
}
use d3r.Base.Text.{◌<>◌}
use d3r.Schema.{Workflow}
use d3r.Base.Outcome.{Result, ok, fail}
use d3r.Engine.State.{Mode, ExecutionRecord, EngineState}
use d3r.Engine.Transition.{Next, create_engine}
use d3r.Cli.Topic.{create_topic_name}
use d3r.Runtime.Graph.{GraphError, standalone_workflow, standalone_command, has_command}
use d3r.Runtime.Actions.{WorkflowBrief, PhaseAction, status, render_workflow_brief}
use d3r.Runtime.Drive.{role_of}
use d3r.Runtime.Session.{text, Session, Output, is_unfinished, archive_workflow}
use d3r.Runtime.Phases.{
  Weather, After, returned, threw, drive, recover, says, with_state, Phased, replied, failed,
}

-- A call of a phase tool: whether it is made in the turn of the orchestrator that owns it, whether its
-- signal is aborted, and whether another call is still at work.
pub record PhaseCall : Type 0 where
  pub in_turn : Bool
  pub aborted : Bool
  pub busy : Bool

-- The host: its agents, what the platform makes of Unicode, the UUID that it draws and its `JSON.stringify`.
pub record Host : Type 0 where
  pub agents : List String
  pub fold : String → String
  pub uuid : String
  pub stringify : List Output → String

abbrev pub is_implementor_unset : String → Option Mode → Bool
is_implementor_unset role none = str_eq role "implementor"
is_implementor_unset role (some m) = false

abbrev pub already_ran : String
already_ran =
    "A phase action already ran in this turn. Present its result to the user before starting or continuing more work."

abbrev pub unset_mode : String
unset_mode = "Choose semi or auto explicitly before running the implementor. No role was started."

abbrev pub retry_line : Bool → ExecutionRecord → String
retry_line true r = role_of r <> " (" <> r.id <> "): reuse the saved worker conversation."
retry_line false r =
    role_of r
    <> " ("
    <> r.id
    <> "): no worker transcript was retained. Use a fresh same-role conversation with the original brief, prior outcomes, and latest correction; reconstruct remaining work by inspecting the current working diff, not by repeating the old plan."

abbrev pub retry_text : String
retry_text =
    "User-directed restart of blocked roles in the same task. Keep the existing working diff and completed steps; do not replay historical tool calls. Inspect current files and changes before deciding what remains."

abbrev pub is_status : PhaseAction → Bool
is_status status = true
is_status _ = false

unfoldable pub topic_for : Host → Option String → (goal : String) → Option String
unfolding create_topic_name
topic_for host (some topic) goal = some topic
topic_for host none goal = create_topic_name host.fold host.uuid goal

module _ {C S : Type 0} where
  unfoldable pub run_drive : After (Session C S) → Phased (Session C S)
  unfolding recover
  run_drive (returned s) = replied s (with_state false "")
  run_drive (threw s) = failed (recover s)

  -- From `phaseUsed = true` on.
  unfoldable pub launch : Weather C → EngineState → Session C S → Phased (Session C S)
  unfolding run_drive drive
  launch weather e s =
      run_drive (drive true weather e (record s { engine = some e; phase_used = true }))

  module _ (host : Host) (weather : Weather C) where
    -- What a new task puts into the session, once its engine is there.
    abbrev pub enter_task :
        (role : Option String) → (phase topic brief : String) → Session C S → Session C S
    enter_task role phase topic brief s = record s {
      topic = some topic;
      standalone_role = elim role [ none ↦ s.standalone_role | some name ↦ some name ];
      phase = phase;
      phase_history = s.history;
      input = s.routing_input ++ text brief ∷ [];
    }

    unfoldable pub begin_named :
        (topic : Option String)
        → EngineState
        → (role : Option String) → (phase brief : String) → Session C S
        → Phased (Session C S)
    unfolding launch
    begin_named none e role phase brief s = failed s
    begin_named (some topic) e role phase brief s =
        launch weather e (enter_task role phase topic brief s)

    unfoldable pub begin_task :
        EngineState
        → (role : Option String) → (phase : String) → (topic : Option String) → WorkflowBrief
        → (heading : String) → Session C S
        → Phased (Session C S)
    unfolding archive_workflow begin_named topic_for render_workflow_brief
    begin_task e role phase topic brief heading s =
        begin_named (topic_for host topic brief.goal) e role phase
          (heading <> "\n\n" <> render_workflow_brief brief)
          (record (archive_workflow host.stringify s) { engine = some e })

    abbrev pub begin_if_ok :
        Next → (EngineState → Phased (Session C S)) → Session C S → Phased (Session C S)
    begin_if_ok (ok e) go s = go e
    begin_if_ok (fail x) go s = failed s

    unfoldable pub start_phase :
        (phase : String)
        → WorkflowBrief
        → Option Mode
        → (topic : Option String) → Session C S
        → Phased (Session C S)
    unfolding begin_task create_engine
    start_phase phase brief mode topic s =
        if is_unfinished s.engine || not (has_command s.workflow phase)
        then replied s
            (with_state true "Cannot replace unfinished work or start an unknown phase.\n\n")
        else begin_if_ok (create_engine s.workflow phase mode)
            (λ e.
              begin_task e none phase topic brief
                "Conversation-derived phase brief (formal vault documents intentionally optional):"
                s)
            s

    unfoldable pub begin_role :
        Result Workflow GraphError
        → (role : String) → WorkflowBrief
        → Option Mode
        → (topic : Option String) → Session C S
        → Phased (Session C S)
    unfolding begin_task create_engine
    begin_role (fail x) role brief mode topic s = failed s
    begin_role (ok graph) role brief mode topic s =
        begin_if_ok (create_engine graph standalone_command mode)
          (λ e.
            begin_task e (some role) "routing" topic brief
              "Conversation-derived standalone role brief:" s)
          s

    unfoldable pub start_role :
        (role : String)
        → WorkflowBrief
        → Option Mode
        → (topic : Option String) → Session C S
        → Phased (Session C S)
    unfolding begin_role standalone_workflow
    start_role role brief mode topic s =
        if is_unfinished s.engine
        then replied s
            (with_state true "Cannot replace unfinished work with a standalone role.\n\n")
        else if is_implementor_unset role mode
        then replied s (says true unset_mode)
        else begin_role (standalone_workflow s.workflow host.agents role) role brief mode topic s

    unfoldable pub abandon_phase : (reason : String) → Session C S → Phased (Session C S)
    unfolding archive_workflow
    abandon_phase reason s =
        if not (is_unfinished s.engine)
        then replied s (says true "There is no unfinished phase to abandon.")
        else replied
            (record (archive_workflow host.stringify (record s {
              input = s.input ++ text ("User-directed abandonment: " <> reason) ∷ [];
            })) { phase = "routing" })
            (says false "Phase abandoned. Existing effects remain; no work was replayed or undone.")
