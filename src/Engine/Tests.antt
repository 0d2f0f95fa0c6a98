-- ===== src/Engine/Tests.antt =====
-- Runs of the engine on a small workflow, and each theorem at an input where it applies.
use Prim.Native.String.{String}
use d3r.Base.{◌≡◌, refl, List, [], ◌∷◌, Option, none, some, map}
use d3r.Base.Outcome.{Result, ok, fail, ◌>>=◌}
use d3r.Schema.{whole, ChainStep, Steps, nil, cons, Workflow}
use d3r.Engine.State.{
  ReportStatus, Review, WorkflowOutcome, RecordStatus, ExecutionRecord, EngineStatus, EngineState,
  EngineError,
}
use d3r.Engine.Compile.{compile_workflow}
use d3r.Engine.Transition.{create_engine, begin_batch, record_outcome, report}
use d3r.Base.Text.{is_blank, is_space, trim, decimal, encode_uri_component, to_lower}
use native.Mathlib.Decide.{ℕ_discrete}
use d3r.Engine.Settle.{settle_batch, answer_checkpoint}
use d3r.Engine.Resume.{
  restart_blocked_batch, resume_interrupted_batch, resume_reported_batch, restore_engine,
}
use d3r.Engine.Checkpoint.{parse_engine_state}

abbrev pub chain : Steps
chain =
    cons
      (ChainStep.loop (whole 2)
        (cons (ChainStep.agent "implementor") (cons (ChainStep.agent "reviewer") nil)))
      (cons (ChainStep.human "Ship it?") nil)

abbrev pub workflow : Workflow
workflow = record {
  commands = ("build", record { description = "d"; chain = chain; reviews_default = none }) ∷ [];
  vault = record { dirs = []; template_kinds = [] };
}

abbrev pub done : Option Review → WorkflowOutcome
done review = record {
  status = ReportStatus.completed;
  summary = " ok ";
  review = review;
  all_done = none;
}

-- What a run computes with: a test names it alone.
unfoldable pub engine : Unit {0}
unfolding create_engine begin_batch record_outcome settle_batch parse_engine_state is_blank is_space
    trim decimal encode_uri_component to_lower restart_blocked_batch resume_interrupted_batch
    resume_reported_batch restore_engine answer_checkpoint ℕ_discrete
engine = tt

ids : Result (List ExecutionRecord) EngineError → List String
ids (ok rs) = map (λ r. r.id) rs
ids (fail e) = []

compiled_ids :
    ids (compile_workflow workflow "build")
    ≡ "build/0@1/0" ∷ "build/0@1/1" ∷ "build/0@1/end" ∷ "build/0@2/0" ∷ "build/0@2/1"
      ∷ "build/0@2/end" ∷ "build/1" ∷ []
unfolding ids engine
compiled_ids = refl

abbrev run_one : String → Option Review → EngineState → Result EngineState EngineError
run_one id review s = do
  a ← begin_batch s
  b ← record_outcome a id (report (done review)) none
  settle_batch b

abbrev played : Result EngineState EngineError
played = do
  s ← create_engine workflow "build" none
  t ← run_one "build/0@1/0" none s
  u ← run_one "build/0@1/1" (some Review.approved) t
  parse_engine_state u

statuses : Result EngineState EngineError → Option (EngineStatus × List RecordStatus)
statuses (ok s) = some (s.status, map (λ r. r.status) s.records)
statuses (fail e) = none

played-statuses :
    statuses played
    ≡ some (
      EngineStatus.waiting,
      RecordStatus.completed ∷ RecordStatus.completed ∷ RecordStatus.skipped ∷ RecordStatus.skipped
          ∷ RecordStatus.skipped ∷ RecordStatus.skipped ∷ RecordStatus.waiting ∷ [],
    )
unfolding statuses engine
played-statuses = refl
