-- ===== src/Runtime/Session.antt =====
-- cli/src/workflow-runtime.ts: the state of a session, and its archive. A backend's checkpoint has the
-- type `C` in a role and `S` in the routing conversation.
use Prim.Native.String.{String}
use d3r.Base.{ℕ, Bool, false, not, ◌||◌, List, [], ◌∷◌, ◌++◌, Option, none, some, filter, map}
use d3r.Base.Text.{◌<>◌}
use d3r.Schema.{Workflow}
use d3r.Engine.State.{WorkflowOutcome, RecordStatus, ExecutionRecord, EngineState}
use d3r.Engine.Transition.{is_truthy}
use d3r.Cli.Continuations.{WorkflowContinuation}
use d3r.Runtime.Events.{is_there}
use d3r.Runtime.Graph.{is_completed_status}

-- `Content`
pub data Content : Type 0 where
  text : String → Content
  image : (content mime : String) → Content
  resource_link : (uri name : String) (description mime : Option String) → Content

pub record Session (C S : Type 0) : Type 0 where
  pub workflow : Workflow
  pub phase : String
  pub standalone_role : Option String
  pub topic : Option String
  pub engine : Option EngineState
  pub history : List Content
  pub input : List Content
  pub phase_history : List Content
  pub summary : Option String
  pub routing_input : List Content
  pub routing_interrupted : Bool
  pub routing_before : Option S
  pub routing_history : ℕ
  pub phase_used : Bool
  pub continuations : List (WorkflowContinuation C)

-- What a role reported, as it is told to later ones.
pub record Output : Type 0 where
  pub id : String
  pub role : Option String
  pub status : RecordStatus
  pub outcome : Option WorkflowOutcome
  pub answer : Option String
  pub error : Option String

abbrev pub is_told : ExecutionRecord → Bool
is_told r = is_there r.outcome || is_truthy r.answer || is_truthy r.error

abbrev pub as_output : ExecutionRecord → Output
as_output r = record {
  id = r.id;
  role = r.role;
  status = r.status;
  outcome = r.outcome;
  answer = r.answer;
  error = r.error;
}

-- `active`
abbrev pub is_unfinished : Option EngineState → Bool
is_unfinished none = false
is_unfinished (some e) = not (is_completed_status e.status)

-- `JSON.stringify` of the outputs is the platform's.
module _ (stringify : List Output → String) where
  abbrev pub outputs : Option EngineState → List Content
  outputs none = []
  outputs (some e) =
      text (
        "Workflow outcomes (declaration order):\n"
        <> stringify (map as_output (filter is_told e.records)))
      ∷ []

  abbrev pub summary_of : String → Option String → List Content
  summary_of command none = []
  summary_of command (some summary) =
      text ("Workflow summary (/" <> command <> "):\n" <> summary) ∷ []

  module _ {C S : Type 0} where
    unfoldable pub archive_workflow : Session C S → Session C S
    archive_workflow s = elim s.engine [
      | none ↦ s
      | some e ↦ record s {
        history = s.history ++ (s.input ++ outputs (some e)) ++ summary_of e.command s.summary;
        engine = none;
        standalone_role = none;
        input = [];
        summary = none;
        continuations = [];
        phase_history = [];
      }
    ]

-- The errors of a session.
pub data SessionError : Type 0 where
  duplicate_agents invalid_command missing_agent bad_workflow : SessionError
  not_idle not_in_turn aborted unsupported : SessionError
  still_active unknown_phase : SessionError
  invalid_checkpoint pins_differ invalid_phase phase_mismatch bad_handoff bad_continuations :
      SessionError
  other_mode : SessionError
