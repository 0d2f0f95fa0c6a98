-- ===== src/Cli/Tests.antt =====
-- cli/src: the theorems at a small workflow whose first role is interrupted, and at short texts.

use Prim.Native.String.{String}
use d3r.Base.{◌≡◌, ◌⊎◌, ◌↔◌, ◌≤◌, refl, true, false, none, [], ◌∷◌, some, All}
use d3r.Base.Outcome.{Result, ok, fail}
use d3r.Base.Text.{◌<>◌, units, is_blank, is_space, trim, decimal, encode_uri_component, to_lower}
use native.Mathlib.Decide.{ℕ_discrete}
use d3r.Schema.{ChainStep, nil, cons, Workflow}
use d3r.Engine.State.{EngineStatus, Mode, EngineState, EngineError}
use d3r.Engine.Transition.{create_engine, begin_batch}
use d3r.Engine.Settle.{interrupt_engine}
use d3r.Engine.Checkpoint.{is_blocked_status}
use d3r.Engine.Reach.{Step}
use d3r.Cli.Continuations.{
  WorkflowContinuation, invalid, validate_continuations, resume_workflow, can_resume_workflow,
}
use d3r.Cli.Topic.{is_slug, slice, parse_topic_name, create_topic_name}
use d3r.Cli.Names.{create_topic_name_total}
use d3r.Cli.Resumption.{IsResumed, IsCovered, can_resume_workflow-IsResumed}
use d3r.Cli.Rows.{AreDistinct, IsRowOf, validate_continuations-IsRowOf}

abbrev workflow : Workflow
workflow = record {
  commands =
      (
        "build",
        record {
          description = "d";
          chain = cons (ChainStep.agent "implementor") (cons (ChainStep.agent "reviewer") nil);
          reviews_default = none;
        },
      )
      ∷ [];
  vault = record { dirs = []; template_kinds = [] };
}

abbrev made : Result EngineState EngineError
made = create_engine workflow "build" (some Mode.semi)

abbrev row : WorkflowContinuation String
row = record { record_id = "build/0"; checkpoint = "saved" }

-- What a run computes with.
unfoldable engine : Unit {0}
unfolding create_engine begin_batch is_blank is_space trim decimal encode_uri_component to_lower
    interrupt_engine ℕ_discrete validate_continuations can_resume_workflow resume_workflow
engine = tt

abbrev empty : EngineState
empty = record {
  workflow = workflow;
  command = "";
  mode = none;
  status = EngineStatus.completed;
  pause = none;
  active_batch = none;
  records = [];
}

abbrev state_of : Result EngineState EngineError → EngineState
state_of (ok s) = s
state_of (fail e) = empty

-- The first role runs and is interrupted.
abbrev stopped : EngineState
stopped = interrupt_engine (state_of (begin_batch (state_of made))) "stop"

accepted : validate_continuations (some stopped) (row ∷ []) true ≡ ok tt
unfolding engine
accepted = refl

twice : validate_continuations (some stopped) (row ∷ row ∷ []) true ≡ fail invalid
unfolding engine
twice = refl

unknown :
    validate_continuations (some stopped) (record row { record_id = "build/1" } ∷ []) true
    ≡ fail invalid
unfolding engine
unknown = refl

validate_continuations-IsRowOf_example :
    (validate_continuations (some stopped) (row ∷ []) true ≡ ok tt)
    ↔ (AreDistinct (row ∷ []) × All (IsRowOf (some stopped) true) (row ∷ []))
validate_continuations-IsRowOf_example =
    validate_continuations-IsRowOf (some stopped) (row ∷ []) true

can_resume : can_resume_workflow (some stopped) (row ∷ []) ≡ true
unfolding engine
can_resume = refl

cannot_resume : can_resume_workflow {C = String} (some stopped) [] ≡ false
unfolding engine
cannot_resume = refl

can_resume_workflow-IsResumed_example :
    (t : EngineState) × (resume_workflow stopped ≡ ok t)
    × Step stopped t
    × IsResumed t
    × ((is_blocked_status stopped.status ≡ true) ⊎ All (IsCovered (row ∷ [])) t.records)
can_resume_workflow-IsResumed_example = can_resume_workflow-IsResumed stopped (row ∷ []) can_resume

-- A goal whose accents the platform has taken off.
abbrev kept : String → String
kept s = s

abbrev drawn : String
drawn = "0a1b2c3d-4e5f-4071-8293-a4b5c6d7e8f9"

named : create_topic_name kept drawn "  add -- the parser! " ≡ some "add-the-parser-0a1b2c3d"
unfolding create_topic_name
named = refl

unnamed : create_topic_name kept drawn "!?" ≡ some "topic-0a1b2c3d"
unfolding create_topic_name
unnamed = refl

refused : parse_topic_name "com7" ≡ none
unfolding parse_topic_name
refused = refl

create_topic_name_total_example :
    (prefix : String) × (create_topic_name kept drawn "a goal"
      ≡ some (prefix <> (String.◌∷◌ "-" (slice 8 drawn))))
    × (units (prefix <> (String.◌∷◌ "-" (slice 8 drawn))) ≤ 80)
    × (is_slug true prefix ≡ true)
unfolding slice units
create_topic_name_total_example = create_topic_name_total kept drawn "a goal" (refl, refl)
