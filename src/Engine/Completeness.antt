-- ===== src/Engine/Completeness.antt =====
-- core/engine.ts, `compileWorkflow`: expanding a valid chain that fits the budget.
use Prim.Native.String.{String}
use d3r.Base.{
  ℕ, zero, suc, ◌+◌, ◌*◌, ◌≤◌, ◌≡◌, refl, Bool, true, false, not, ◌&&◌, ◌||◌, List, [], ◌∷◌, ◌++◌,
  none, some, any, length, leb, ltb, arith, length-append, and-true_iff,
}
use d3r.Base.Text.{◌<>◌, decimal, encode_uri_component, is_blank}
use d3r.Base.Outcome.{Result, ok, ◌>>=◌, ◌>>◌, reject_if}
use d3r.Schema.{ChainStep, Steps, nil, cons, Workflow, Command, lookup, in_range}
use d3r.Engine.State.{
  max_records, max_depth, LoopScope, RecordKind, ExecutionRecord, EngineError, unnamed_role,
  no_prompt, bad_loop_max, depth_budget,
}
use d3r.Engine.Compile.{
  fresh, add, add_roles, iterate, rounds, expand_step, expand, expand_from, compile_workflow,
}
use d3r.Engine.Measure.{is_valid_step, is_valid, is_valid_rest, weight_step, weight}

abbrev Built : Type 0
Built = Result (List ExecutionRecord) EngineError

-- The list grows by `w` records, with no error.
abbrev Total : ℕ → List ExecutionRecord → Built → Type 0
Total w out m = (out' : List ExecutionRecord) × (m ≡ ok out') × (length out' ≡ length out + w)

Total-bind :
    (v w x : ℕ) (out : List ExecutionRecord) (m : Built) (f : List ExecutionRecord → Built)
    → v + w ≡ x
    → Total v out m
    → ((mid : List ExecutionRecord) → length mid ≡ length out + v → Total w mid (f mid))
    → Total x out (m >>= f)
Total-bind v w x out m f e (mid, made, size) k =
    let (out', made', size') = k mid size in (out', rw made made', omega (arith, size, size', e))

Total-guard :
    (b : Bool) (e : EngineError) (w : ℕ) (out : List ExecutionRecord) (m : Built)
    → b ≡ false
    → Total w out m
    → Total w out (reject_if b e >> m)
Total-guard b e w out m h k = rw h k

add-Total :
    (r : ExecutionRecord) (out : List ExecutionRecord)
    → length out + 1 ≤ max_records
    → Total 1 out (add r out)
unfolding add
add-Total r out h = (out ++ r ∷ [], ground arith, length-append out (r ∷ []))

add_roles-Total :
    (id : String) (loops : List LoopScope) (slot : ℕ) (roles : List String)
    (out : List ExecutionRecord)
    → length out + length roles ≤ max_records
    → Total (length roles) out (add_roles id loops slot roles out)
unfolding add_roles
add_roles-Total id loops slot [] out h = (out, refl, omega arith)
add_roles-Total id loops slot (role ∷ roles) out h =
    Total-bind 1 (length roles) (suc (length roles)) out _ (add_roles id loops (suc slot) roles)
      (omega arith) (add-Total _ out (omega arith))
      λ mid size. add_roles-Total id loops (suc slot) roles mid (omega arith)

module _ (expand_body : String → List LoopScope → List ExecutionRecord → Built) (id : String)
    (loops : List LoopScope) (max w : ℕ)
    (body : (prefix : String) (scope : List LoopScope) (out : List ExecutionRecord)
      → length scope ≡ suc (length loops)
      → length out + w ≤ max_records
      → Total w out (expand_body prefix scope out)) where
  iterate-Total :
      (iteration left : ℕ) (out : List ExecutionRecord)
      → length out + left * (w + 1) ≤ max_records
      → Total (left * (w + 1)) out (iterate expand_body id loops max iteration left out)
  unfolding iterate
  iterate-Total iteration zero out h = (out, refl, omega arith)
  iterate-Total iteration (suc left) out h =
      let scope : List LoopScope =
        loops ++ record { id = id; iteration = iteration; max = max } ∷ [] in
      let end : String = (id <> "@" <> decimal iteration) <> "/end" in
      let last : ExecutionRecord = fresh end end RecordKind.loop_end none none scope in
      Total-bind w (1 + left * (w + 1)) (suc left * (w + 1)) out
        (expand_body (id <> "@" <> decimal iteration) scope out)
        (λ mid. add last mid >>= iterate expand_body id loops max (suc iteration) left)
        (grind arith)
        (body (id <> "@" <> decimal iteration) scope out
          (omega (
            arith,
            length-append loops (record { id = id; iteration = iteration; max = max } ∷ []),
          ))
          (grind arith))
        λ mid size.
          Total-bind 1 (left * (w + 1)) (1 + left * (w + 1)) mid (add last mid)
            (iterate expand_body id loops max (suc iteration) left) refl
            (add-Total last mid (grind arith))
            λ out' size'. iterate-Total (suc iteration) left out' (grind arith)

true-not : {b : Bool} → not b ≡ true → b ≡ false
true-not {b} h = ground arith

false-true : {A : Type 0} → false ≡ true → A
false-true h = cc

split3 : (a b c : Bool) → (a && b && c) ≡ true → (a ≡ true) × (b ≡ true) × (c ≡ true)
split3 a b c h = ground arith

shallow-ltb : (d : ℕ) → leb d max_depth ≡ true → ltb max_depth d ≡ false
shallow-ltb d h = ground arith

mutual
  unfolding expand_step expand expand_from is_valid_step is_valid is_valid_rest weight_step weight

  expand_step-Total :
      (s : ChainStep) (id : String) (loops : List LoopScope) (out : List ExecutionRecord)
      → is_valid_step (length loops) s ≡ true
      → length out + weight_step s ≤ max_records
      → Total (weight_step s) out (expand_step s id loops out)
  expand_step-Total (ChainStep.agent name) id loops out v h =
      Total-guard (is_blank name) unnamed_role 1 out _ (true-not v) (add-Total _ out h)
  expand_step-Total (ChainStep.parallel agents) id loops out v h =
      Total-guard (leb (length agents) 0 || any is_blank agents) unnamed_role (length agents) out _
        (true-not v) (add_roles-Total id loops 0 agents out h)
  expand_step-Total (ChainStep.human prompt) id loops out v h =
      Total-guard (is_blank prompt) no_prompt 1 out _ (true-not v) (add-Total _ out h)
  expand_step-Total (ChainStep.loop max body) id loops out v h =
      let (range, inner) =
        (and-true_iff (in_range 1 max_records max) (is_valid (suc (length loops)) body)).0 v in
      Total-guard (not (in_range 1 max_records max)) bad_loop_max (rounds max * (weight body + 1))
        out _ (rw range refl)
        (iterate-Total (expand body) id loops (rounds max) (weight body)
          (λ prefix scope mid fits size. expand-Total body prefix scope mid (rw fits inner) size) 1
          (rounds max) out h)

  expand-Total :
      (ss : Steps) (path : String) (loops : List LoopScope) (out : List ExecutionRecord)
      → is_valid (length loops) ss ≡ true
      → length out + weight ss ≤ max_records
      → Total (weight ss) out (expand ss path loops out)
  expand-Total nil path loops out v h = false-true v
  expand-Total (cons s ss) path loops out v h =
      let (depth, step, rest) =
        split3 (leb (length loops) max_depth) (is_valid_step (length loops) s)
          (is_valid_rest (length loops) ss) v in
      Total-guard (ltb max_depth (length loops)) depth_budget (weight_step s + weight ss) out _
        (shallow-ltb (length loops) depth)
        (Total-bind (weight_step s) (weight ss) (weight_step s + weight ss) out
          (expand_step s (path <> "/" <> decimal 0) loops out) (expand_from ss path loops 1) refl
          (expand_step-Total s (path <> "/" <> decimal 0) loops out step (omega arith))
          λ mid size. expand_from-Total ss path loops 1 mid rest (omega arith))

  expand_from-Total :
      (ss : Steps) (path : String) (loops : List LoopScope) (index : ℕ) (out : List ExecutionRecord)
      → is_valid_rest (length loops) ss ≡ true
      → length out + weight ss ≤ max_records
      → Total (weight ss) out (expand_from ss path loops index out)
  expand_from-Total nil path loops index out v h = (out, refl, omega arith)
  expand_from-Total (cons s ss) path loops index out v h =
      let (step, rest) =
        (and-true_iff (is_valid_step (length loops) s) (is_valid_rest (length loops) ss)).0 v in
      Total-bind (weight_step s) (weight ss) (weight_step s + weight ss) out
        (expand_step s (path <> "/" <> decimal index) loops out)
        (expand_from ss path loops (suc index)) refl
        (expand_step-Total s (path <> "/" <> decimal index) loops out step (omega arith))
        λ mid size. expand_from-Total ss path loops (suc index) mid rest (omega arith)

-- A known command whose chain is valid and weighs no more than the record budget is expanded, and
-- to exactly as many records as it weighs.
pub compile_workflow_total :
    (w : Workflow) (command : String) (c : Command)
    → lookup command w.commands ≡ some c
    → is_valid 0 c.chain ≡ true
    → weight c.chain ≤ max_records
    → (rs : List ExecutionRecord) × (compile_workflow w command ≡ ok rs)
      × (length rs ≡ weight c.chain)
unfolding compile_workflow
compile_workflow_total w command c e v h =
    let (rs, made, size) =
      expand-Total c.chain (encode_uri_component command) [] [] v (omega arith) in
    (rs, rw (e, compile_workflow) made, omega arith)
