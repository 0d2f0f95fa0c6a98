-- ===== src/Engine/Expansion.antt =====
-- core/engine.ts, `compileWorkflow`: which chains expand, to how many records, and what these hold.
use Prim.Native.String.{String}
use mathlib.Core.Path.{subst}
use d3r.Base.{
  ℕ, zero, suc, ◌+◌, ◌*◌, ◌≤◌, ◌≡◌, refl, Bool, true, false, not, ◌&&◌, ◌||◌, List, [], none, some,
  inl, inr, any, length, leb, ltb, All, arith, Option-cases, ltb-false, and-true_iff,
}
use d3r.Base.Text.{◌<>◌, decimal, encode_uri_component, is_blank}
use d3r.Base.Outcome.{ok, fail, ◌>>=◌, OnOk, OnOk-use, fail-ne-ok}
use d3r.Schema.{
  Number, whole, other, ChainStep, Steps, nil, cons, Workflow, Command, lookup, in_range,
}
use d3r.Engine.State.{
  max_records, max_depth, LoopScope, RecordKind, ExecutionRecord, unnamed_role, no_prompt,
  bad_loop_max, depth_budget, empty_chain,
}
use d3r.Engine.Compile.{
  fresh, add, add_roles, iterate, rounds, expand_step, expand, expand_from, compile_workflow,
}
use d3r.Engine.Measure.{
  is_valid_step, is_valid, is_valid_rest, weight_step, weight, InScope, IsFresh, Expanded,
  Expanded-nil, add-Expanded, OnOk-Expanded, fresh-IsFresh, add_roles-Expanded, guarded, when_any,
  iterate-Expanded,
}

valid_depth : (d : ℕ) (ss : Steps) → is_valid d ss ≡ true → d ≤ max_depth
unfolding is_valid
valid_depth d nil h = cc
valid_depth d (cons s ss) h = ground arith

range_bounds :
    (n : Number) → in_range 1 max_records n ≡ true → (1 ≤ rounds n) × (rounds n ≤ max_records)
range_bounds (whole n) h = ground arith
range_bounds other h = cc

not-false : {b : Bool} → not b ≡ false → b ≡ true
not-false {b} h = ground arith

loop_valid :
    (max : Number) (v : Bool)
    → not (in_range 1 max_records max) ≡ false
    → when_any v (rounds max) ≡ true
    → (in_range 1 max_records max && v) ≡ true
loop_valid other v b h = cc
loop_valid (whole zero) v b h = ground arith
loop_valid (whole (suc n)) v b h = (and-true_iff _ v).1 (not-false b, h)

depth_valid :
    (d : ℕ) (a b : Bool)
    → ltb max_depth d ≡ false
    → (a && b) ≡ true
    → (leb d max_depth && a && b) ≡ true
depth_valid d a b h k = ground arith

mutual
  unfolding expand_step expand expand_from is_valid_step is_valid is_valid_rest weight_step weight

  expand_step-Expanded :
      (s : ChainStep) (id : String) (loops : List LoopScope) (out : List ExecutionRecord)
      → length loops ≤ max_depth
      → All InScope loops
      → OnOk
          (Expanded (is_valid_step (length loops) s) (weight_step s) out)
          (expand_step s id loops out)
  expand_step-Expanded (ChainStep.agent name) id loops out h k =
      guarded (is_blank name) (not (is_blank name)) true 1 out unnamed_role
        (add (fresh id id RecordKind.agent (some name) none loops) out) (λ b v. rw b refl)
        (λ b. add-Expanded _ out (fresh-IsFresh loops h k _ _ _ _ _))
  expand_step-Expanded (ChainStep.parallel agents) id loops out h k =
      guarded (leb (length agents) 0 || any is_blank agents)
        (not (leb (length agents) 0 || any is_blank agents)) true (length agents) out unnamed_role
        (add_roles id loops 0 agents out) (λ b v. rw b refl)
        (λ b. add_roles-Expanded loops h k id 0 agents out)
  expand_step-Expanded (ChainStep.human prompt) id loops out h k =
      guarded (is_blank prompt) (not (is_blank prompt)) true 1 out no_prompt
        (add (fresh id id RecordKind.human none (some prompt) loops) out) (λ b v. rw b refl)
        (λ b. add-Expanded _ out (fresh-IsFresh loops h k _ _ _ _ _))
  expand_step-Expanded (ChainStep.loop max body) id loops out h k =
      let valid = is_valid (suc (length loops)) body in
      guarded (not (in_range 1 max_records max)) (in_range 1 max_records max && valid)
        (when_any valid (rounds max)) (rounds max * (weight body + 1)) out bad_loop_max
        (iterate (expand body) id loops (rounds max) 1 (rounds max) out)
        (λ b v. loop_valid max valid b v)
        (λ b.
          iterate-Expanded (expand body) id loops (rounds max) valid (weight body)
            (range_bounds max (not-false b)).1 k (valid_depth (suc (length loops)) body)
            (λ prefix scope mid fits inside.
              subst
                (λ d.
                  OnOk (Expanded (is_valid d body) (weight body) mid)
                    (expand body prefix scope mid))
                fits (expand-Expanded body prefix scope mid inside))
            1 (rounds max) out (omega arith) (omega arith))

  expand-Expanded :
      (ss : Steps) (path : String) (loops : List LoopScope) (out : List ExecutionRecord)
      → All InScope loops
      → OnOk (Expanded (is_valid (length loops) ss) (weight ss) out) (expand ss path loops out)
  expand-Expanded nil path loops out k =
      guarded (ltb max_depth (length loops)) false false 0 out depth_budget (fail empty_chain)
        (λ b v. v) (λ b. tt)
  expand-Expanded (cons s ss) path loops out k =
      let rest = is_valid_step (length loops) s && is_valid_rest (length loops) ss in
      guarded (ltb max_depth (length loops))
        (leb (length loops) max_depth
          && is_valid_step (length loops) s
          && is_valid_rest (length loops) ss)
        rest (weight_step s + weight ss) out depth_budget
        (expand_step s (path <> "/" <> decimal 0) loops out >>= expand_from ss path loops 1)
        (λ b v. depth_valid (length loops) _ _ b v)
        (λ b.
          OnOk-Expanded (is_valid_step (length loops) s) (is_valid_rest (length loops) ss) rest
            (weight_step s) (weight ss) (weight_step s + weight ss) out
            (expand_step s (path <> "/" <> decimal 0) loops out) (expand_from ss path loops 1)
            (λ e. e) refl
            (expand_step-Expanded s (path <> "/" <> decimal 0) loops out (ltb-false _ _ b) k)
            (λ mid _. expand_from-Expanded ss path loops 1 mid (ltb-false _ _ b) k))

  expand_from-Expanded :
      (ss : Steps) (path : String) (loops : List LoopScope) (index : ℕ) (out : List ExecutionRecord)
      → length loops ≤ max_depth
      → All InScope loops
      → OnOk
          (Expanded (is_valid_rest (length loops) ss) (weight ss) out)
          (expand_from ss path loops index out)
  expand_from-Expanded nil path loops index out h k = Expanded-nil out
  expand_from-Expanded (cons s ss) path loops index out h k =
      OnOk-Expanded (is_valid_step (length loops) s) (is_valid_rest (length loops) ss)
        (is_valid_rest (length loops) (cons s ss)) (weight_step s) (weight ss) (weight (cons s ss))
        out (expand_step s (path <> "/" <> decimal index) loops out)
        (expand_from ss path loops (suc index)) (λ e. e) refl
        (expand_step-Expanded s (path <> "/" <> decimal index) loops out h k)
        (λ mid _. expand_from-Expanded ss path loops (suc index) mid h k)

-- What a command expands to: nothing, if it is unknown, its chain is not valid, or it is too large;
-- else a list of as many fresh records as the chain weighs.
pub compile_workflow-Expanded :
    (w : Workflow) (command : String) (rs : List ExecutionRecord)
    → compile_workflow w command ≡ ok rs
    → (c : Command) × (lookup command w.commands ≡ some c)
      × (is_valid 0 c.chain ≡ true)
      × (length rs ≡ weight c.chain)
      × (length rs ≤ max_records)
      × All IsFresh rs
unfolding compile_workflow
compile_workflow-Expanded w command rs h = elim (Option-cases (lookup command w.commands)) [
  | inl e ↦ absurd (fail-ne-ok (rw (e, compile_workflow) at h))
  | inr (c, e) ↦
      let made =
        OnOk-use (Expanded (is_valid 0 c.chain) (weight c.chain) [])
          (expand c.chain (encode_uri_component command) [] [])
          (expand-Expanded c.chain (encode_uri_component command) [] [] tt)
          (rw (e, compile_workflow) at h) in
      (c, e, made.accepted, omega (arith, made.counted), made.bounded (omega arith), made.kept tt)
]
