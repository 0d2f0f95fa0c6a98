-- ===== src/Runtime/Graph.antt =====
-- cli/src/workflow-role.ts: the graph of a single role that runs outside any phase.
use Prim.Native.String.{String}
use d3r.Base.{Bool, true, false, not, ◌&&◌, ◌||◌, List, [], ◌∷◌, Option, none, some, str_eq, any}
use d3r.Base.Text.{◌<>◌}
use d3r.Base.Outcome.{Result, ok, fail, ◌>>◌, reject_if}
use d3r.Schema.{ChainStep, nil, cons, Workflow, lookup}
use d3r.Engine.State.{EngineState, EngineStatus}

abbrev pub standalone_command : String
standalone_command = "standalone"

abbrev pub includes : String → List String → Bool
includes name = any (str_eq name)

-- `isDocumentRole`
unfoldable pub is_document_role : String → Bool
is_document_role name = includes name (
    "aggregator" ∷ "researcher" ∷ "designer" ∷ "planner" ∷ "schemer" ∷ "summarizer" ∷ "archivist"
    ∷ [])

pub data GraphError : Type 0 where
  not_delegable invalid_execution : GraphError

-- `agents` are the names of the agents.
unfoldable pub standalone_workflow :
    Workflow → (agents : List String) → (role : String) → Result Workflow GraphError
standalone_workflow workflow agents role = do
  reject_if (str_eq role "orchestrator" || not (includes role agents)) not_delegable
  ok (record {
    commands =
        (
          standalone_command,
          record {
            description = "Run " <> role <> " independently";
            chain = cons (ChainStep.agent role) nil;
            reviews_default = none;
          },
        )
        ∷ [];
    vault = workflow.vault;
  })

abbrev pub has_command : Workflow → String → Bool
has_command workflow name = elim (lookup name workflow.commands) [ none ↦ false | some c ↦ true ]

abbrev pub is_completed_status : EngineStatus → Bool
is_completed_status EngineStatus.completed = true
is_completed_status _ = false

abbrev pub lacks_mode : EngineState → Bool
lacks_mode e = elim e.mode [ none ↦ true | some m ↦ false ]

-- What is saved of a session besides its engine.
pub record Execution : Type 0 where
  pub phase : String
  pub orchestrated : Bool
  pub standalone_role : Option String
  pub routing_interrupted : Bool

-- A saved role execution that cannot have been one.
abbrev pub is_invalid_execution : Workflow → EngineState → Execution → (role : String) → Bool
is_invalid_execution workflow e x role =
    not x.orchestrated
    || (not (str_eq x.phase "routing")
        && (not (is_completed_status e.status) || not (has_command workflow x.phase)))
    || x.routing_interrupted
    || not (str_eq e.command standalone_command)
    || (str_eq role "implementor" && lacks_mode e)

-- `executionWorkflow`
unfoldable pub execution_workflow :
    Workflow
    → (agents : List String) → (engine : Option EngineState) → Execution
    → Result Workflow GraphError
unfolding standalone_workflow
execution_workflow workflow agents engine x = elim x.standalone_role [
  | none ↦ ok workflow
  | some role ↦ elim engine [
    | none ↦ fail invalid_execution
    | some e ↦ do
      reject_if (is_invalid_execution workflow e x role) invalid_execution
      standalone_workflow workflow agents role
  ]
]
