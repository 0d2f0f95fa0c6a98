-- ===== src/Runtime/Saved.antt =====
-- cli/src/workflow-runtime.ts, `snapshot` and `restore`: the checkpoint of a session. `JSON.stringify` of a
-- workflow is the platform's.
use Prim.Native.String.{String}
use d3r.Base.{
  ℕ, Bool, true, false, not, ◌&&◌, ◌||◌, List, Option, none, some, str_eq, if◌then◌else◌,
}
use d3r.Base.Outcome.{Result, ok, fail, ◌>>=◌, ◌>>◌, reject_if}
use d3r.Schema.{Workflow}
use d3r.Engine.State.{EngineState}
use d3r.Engine.Checkpoint.{parse_schema}
use d3r.Cli.Continuations.{WorkflowContinuation}
use d3r.Cli.Topic.{parse_topic_name}
use d3r.Runtime.Events.{is_there}
use d3r.Runtime.Graph.{is_completed_status}
use d3r.Runtime.Session.{Content, Session, SessionError, invalid_checkpoint}

-- `Checkpoint`, without its version and format.
pub record Checkpoint (C S : Type 0) : Type 0 where
  pub workflow : Workflow
  pub phase : String
  pub engine : Option EngineState
  pub history : List Content
  pub input : List Content
  pub phase_history : List Content
  pub summary : Option String
  pub orchestrated : Bool
  pub standalone_role : Option String
  pub topic : Option String
  pub continuations : List (WorkflowContinuation C)
  pub routing : S
  pub routing_interrupted : Bool
  pub routing_input : List Content
  pub routing_before : Option S
  pub routing_history : ℕ

-- The two conditions that the schema puts on a checkpoint, and the name of its topic.
abbrev pub is_sound_summary : Option String → Option EngineState → Bool
is_sound_summary none engine = true
is_sound_summary (some text) none = false
is_sound_summary (some text) (some e) = is_completed_status e.status

unfoldable pub is_sound_topic : Option String → (orchestrated : Bool) → Bool
unfolding parse_topic_name
is_sound_topic none orchestrated = true
is_sound_topic (some name) orchestrated = orchestrated && is_there (parse_topic_name name)

abbrev pub is_sound_role : Option String → Bool
is_sound_role none = true
is_sound_role (some name) = not (str_eq name "")

-- What of the routing conversation is saved: while a prompt runs, what it was before.
abbrev pub routing_now : {S : Type 0} → (busy : Bool) → Option S → S → Result S SessionError
routing_now false before current = ok current
routing_now true none current = fail invalid_checkpoint
routing_now true (some before) current = ok before

abbrev pub saved_before : {S : Type 0} → (wanted : Bool) → Option S → Result (Option S) SessionError
saved_before false before = ok none
saved_before true none = fail invalid_checkpoint
saved_before true (some before) = ok (some before)

unfoldable pub parse_engine : Option EngineState → Result (Option EngineState) SessionError
unfolding parse_schema
parse_engine none = ok none
parse_engine (some e) = elim (parse_schema e) [
  | fail x ↦ fail invalid_checkpoint
  | ok parsed ↦ ok (some parsed)
]

module _ {C S : Type 0} where
  unfoldable pub is_unsound : Checkpoint C S → Bool
  unfolding is_sound_topic
  is_unsound c =
      not (is_sound_summary c.summary c.engine)
      || not (is_sound_topic c.topic c.orchestrated)
      || not (is_sound_role c.standalone_role)

  unfoldable pub parse_checkpoint : Checkpoint C S → Result (Checkpoint C S) SessionError
  unfolding parse_engine is_unsound
  parse_checkpoint c = do
    engine ← parse_engine c.engine
    reject_if (is_unsound (record c { engine = engine })) invalid_checkpoint
    ok (record c { engine = engine })

  unfoldable pub snapshot :
      (orchestrated busy : Bool)
      → (current : S) → Session C S
      → Result (Checkpoint C S) SessionError
  unfolding parse_checkpoint
  snapshot orchestrated busy current s = do
    routing ← routing_now busy s.routing_before current
    before ← saved_before (busy || s.routing_interrupted) s.routing_before
    parse_checkpoint (record {
      workflow = s.workflow;
      phase = s.phase;
      engine = s.engine;
      history = s.history;
      input = s.input;
      phase_history = if orchestrated then s.phase_history else List.[];
      summary = s.summary;
      orchestrated = orchestrated;
      standalone_role = s.standalone_role;
      topic = s.topic;
      continuations = if orchestrated then s.continuations else List.[];
      routing = routing;
      routing_interrupted = not orchestrated && (busy || s.routing_interrupted);
      routing_input = s.routing_input;
      routing_before = before;
      routing_history = s.routing_history;
    })
