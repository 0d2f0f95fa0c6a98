-- ===== src/Engine/Compile.antt =====
-- core/engine.ts, `compileWorkflow`: bounded control flow becomes a flat list of records with stable
-- path identities. The array that the source pushes to is passed along.
use Prim.Native.String.{String}
use d3r.Base.{
  ℕ, zero, suc, not, ◌||◌, List, [], ◌∷◌, ◌++◌, Option, none, some, length, any, leb, ltb,
  if◌then◌else◌,
}
use d3r.Base.Text.{◌<>◌, decimal, encode_uri_component, is_blank}
use d3r.Base.Outcome.{Result, ok, fail, ◌>>=◌, ◌>>◌, reject_if}
use d3r.Schema.{Number, whole, other, ChainStep, Steps, nil, cons, Workflow, lookup, in_range}
use d3r.Engine.State.{
  max_records, max_depth, LoopScope, RecordKind, RecordStatus, ExecutionRecord, EngineError,
  record_budget, depth_budget, empty_chain, unnamed_role, no_prompt, bad_loop_max, unknown_command,
}

-- A record before any of it has run.
abbrev pub fresh :
    (id batch : String)
    → RecordKind
    → (role prompt : Option String) → List LoopScope
    → ExecutionRecord
fresh id batch kind role prompt loops = record {
  id = id;
  kind = kind;
  batch = batch;
  role = role;
  prompt = prompt;
  loops = loops;
  status = RecordStatus.pending;
  outcome = none;
  answer = none;
  error = none;
}

abbrev Built : Type 0
Built = Result (List ExecutionRecord) EngineError

unfoldable pub add : ExecutionRecord → List ExecutionRecord → Built
add r out = if leb max_records (length out) then fail record_budget else ok (out ++ r ∷ [])

-- `roles.forEach` of a parallel batch, from the slot on.
unfoldable pub add_roles : String → List LoopScope → ℕ → List String → List ExecutionRecord → Built
unfolding add
add_roles id loops slot [] out = ok out
add_roles id loops slot (role ∷ roles) out = do
  out' ← add (fresh (id <> "/" <> decimal slot) id RecordKind.agent (some role) none loops) out
  add_roles id loops (suc slot) roles out'

-- The `for` over the iterations of a loop, with `left` of them still to come. `expand_body` is the
-- call of `expand` on the body.
unfoldable pub iterate :
    (String → List LoopScope → List ExecutionRecord → Built)
    → String
    → List LoopScope
    → (max iteration left : ℕ) → List ExecutionRecord
    → Built
unfolding add
iterate expand_body id loops max iteration zero out = ok out
iterate expand_body id loops max iteration (suc left) out = do
  let scope = loops ++ record { id = id; iteration = iteration; max = max } ∷ []
  let prefix = id <> "@" <> decimal iteration
  let end = prefix <> "/end"
  body ← expand_body prefix scope out
  out' ← add (fresh end end RecordKind.loop_end none none scope) body
  iterate expand_body id loops max (suc iteration) left out'

abbrev pub rounds : Number → ℕ
rounds (whole n) = n
rounds other = zero

unfoldable mutual
  -- The callback of `steps.forEach`.
  pub expand_step : ChainStep → String → List LoopScope → List ExecutionRecord → Built
  expand_step (ChainStep.agent name) id loops out = do
    reject_if (is_blank name) unnamed_role
    add (fresh id id RecordKind.agent (some name) none loops) out
  expand_step (ChainStep.parallel agents) id loops out = do
    reject_if (leb (length agents) 0 || any is_blank agents) unnamed_role
    add_roles id loops 0 agents out
  expand_step (ChainStep.human prompt) id loops out = do
    reject_if (is_blank prompt) no_prompt
    add (fresh id id RecordKind.human none (some prompt) loops) out
  expand_step (ChainStep.loop max body) id loops out = do
    reject_if (not (in_range 1 max_records max)) bad_loop_max
    iterate (expand body) id loops (rounds max) 1 (rounds max) out

  pub expand : Steps → String → List LoopScope → List ExecutionRecord → Built
  expand nil path loops out = do
    reject_if (ltb max_depth (length loops)) depth_budget
    fail empty_chain
  expand (cons step steps) path loops out = do
    reject_if (ltb max_depth (length loops)) depth_budget
    out' ← expand_step step (path <> "/" <> decimal 0) loops out
    expand_from steps path loops 1 out'

  pub expand_from : Steps → String → List LoopScope → ℕ → List ExecutionRecord → Built
  expand_from nil path loops index out = ok out
  expand_from (cons step steps) path loops index out = do
    out' ← expand_step step (path <> "/" <> decimal index) loops out
    expand_from steps path loops (suc index) out'

unfoldable pub compile_workflow : Workflow → String → Built
unfolding lookup expand add add_roles iterate
compile_workflow workflow command = elim (lookup command workflow.commands) [
  | none ↦ fail unknown_command
  | some definition ↦ expand definition.chain (encode_uri_component command) [] []
]
