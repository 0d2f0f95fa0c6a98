-- ===== src/Runtime/Actions.antt =====
-- cli/src/workflow-phase-tools.ts: the actions of the phase tools, their bounds, and the brief.
use Prim.Native.String.{String}
use d3r.Base.{ℕ, ◌&&◌, List, [], ◌∷◌, ◌++◌, Option, some, leb, length, map}
use d3r.Base.Text.{◌<>◌, trim, units, join}
use d3r.Base.Optional.{◌>>=◌, check, optionally}
use d3r.Engine.State.{Mode}
use d3r.Cli.Topic.{parse_topic_name}

pub record WorkflowBrief : Type 0 where
  pub goal : String
  pub context : String
  pub acceptance_criteria : List String
  pub constraints : List String

pub data PhaseAction : Type 0 where
  start : (phase : String) → WorkflowBrief → Option Mode → (topic : Option String) → PhaseAction
  go_on : (instructions : String) → PhaseAction
  abandon : (reason : String) → PhaseAction
  status : PhaseAction
  run_role : (role : String) → WorkflowBrief → Option Mode → (topic : Option String) → PhaseAction

-- `BRIEF_LIMITS`
abbrev pub max_goal : ℕ
max_goal = 8192

abbrev pub max_context : ℕ
max_context = 32_768

abbrev pub max_item : ℕ
max_item = 2048

abbrev pub max_items : ℕ
max_items = 32

abbrev pub max_name : ℕ
max_name = 128

-- `z.string().trim().min(1).max(n)`
unfoldable pub parse_text : ℕ → String → Option String
unfolding units trim
parse_text n s = check (leb 1 (units (trim s)) && leb (units (trim s)) n) (trim s)

unfoldable pub parse_items : List String → Option (List String)
unfolding parse_text
parse_items [] = some []
parse_items (s ∷ ss) = do item ← parse_text max_item s; items ← parse_items ss; some (item ∷ items)

-- Constraints that are not there are an empty list.
unfoldable pub parse_brief : WorkflowBrief → Option WorkflowBrief
unfolding parse_text parse_items
parse_brief b = do
  goal ← parse_text max_goal b.goal
  context ← parse_text max_context b.context
  criteria ← parse_items b.acceptance_criteria
  criteria' ← check (leb 1 (length criteria) && leb (length criteria) max_items) criteria
  constraints ← parse_items b.constraints
  constraints' ← check (leb (length constraints) max_items) constraints
  some (record {
    goal = goal;
    context = context;
    acceptance_criteria = criteria';
    constraints = constraints';
  })

-- `PhaseAction.parse`
unfoldable pub parse_action : PhaseAction → Option PhaseAction
unfolding parse_text parse_brief parse_topic_name
parse_action (start phase brief mode topic) = do
  phase' ← parse_text max_name phase
  brief' ← parse_brief brief
  topic' ← optionally parse_topic_name topic
  some (start phase' brief' mode topic')
parse_action (go_on instructions) = do
  instructions' ← parse_text max_context instructions
  some (go_on instructions')
parse_action (abandon reason) = do reason' ← parse_text max_goal reason; some (abandon reason')
parse_action status = some status
parse_action (run_role role brief mode topic) = do
  role' ← parse_text max_name role
  brief' ← parse_brief brief
  topic' ← optionally parse_topic_name topic
  some (run_role role' brief' mode topic')

abbrev pub bullets : List String → String
unfolding join
bullets items = join "\n" (map (λ item. "- " <> item) items)

abbrev pub constraints_of : List String → List String
constraints_of [] = []
constraints_of (c ∷ cs) = ("## Constraints\n" <> bullets (c ∷ cs)) ∷ []

unfoldable pub render_workflow_brief : WorkflowBrief → String
unfolding bullets join
render_workflow_brief b = join "\n\n" (
    ("## Goal\n" <> b.goal)
      ∷ ("## Context\n" <> b.context)
      ∷ ("## Acceptance criteria\n" <> bullets b.acceptance_criteria)
      ∷ []
    ++ constraints_of b.constraints)
