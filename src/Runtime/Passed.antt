-- ===== src/Runtime/Passed.antt =====
-- cli/src/workflow-runtime.ts, `restore`: its checks, one field for each.
use Prim.Native.String.{String}
use mathlib.Core.Path.{subst}
use d3r.Base.{Bool, true, false, not, ◌&&◌, ◌≡◌, refl, sym, List, Option, str_eq, ltb, length}
use d3r.Base.Outcome.{Result, ok, fail, ◌>>=◌, ◌>>◌, reject_if, fail-ne-ok, >>=-eq-ok, guard-eq-ok}
use d3r.Schema.{Workflow}
use d3r.Engine.State.{EngineState}
use d3r.Runtime.Graph.{has_command}
use d3r.Runtime.Session.{Session}
use d3r.Runtime.Saved.{Checkpoint}
use d3r.Runtime.Restored.{
  restore_if_there, check_resources, pinned_workflow, execution_of, differs, mismatches, check_rows,
  same_mode, session_from, accept,
}

pub result_injective : {A E : Type 0} {a b : A} → ◌≡◌ {A = Result A E} (ok a) (ok b) → a ≡ b
result_injective h = cc

-- A sequence whose first step ends well goes on with its value.
pub chain :
    {A B E : Type 0} (m : Result A E) (f : A → Result B E) {a : A} {b : Result B E}
    → m ≡ ok a
    → f a ≡ b
    → (m >>= f) ≡ b
chain (ok x) f {a} {b} h k = subst (λ y. f y ≡ b) (sym (result_injective h)) k
chain (fail e) f h k = absurd (fail-ne-ok h)

pub passes :
    {B E : Type 0} (t : Bool) (e : E) (m : Result B E) {b : Result B E}
    → t ≡ false
    → m ≡ b
    → (reject_if t e >> m) ≡ b
passes false e m h k = k
passes true e m h k = absurd (let wrong : true ≡ false = h in cc)

module _ {C S : Type 0} (stringify : Workflow → String) (agents : List String)
    (orchestrated : Bool) where
  -- What a parsed checkpoint passes before its session is there.
  pub record Passed (c : Checkpoint C S) (engine : Option EngineState) : Type 0 where
    pub restores : restore_if_there c.engine ≡ ok engine
    pub resources : check_resources c.workflow agents ≡ ok tt
    pub pinned :
        (expected : Workflow) × (pinned_workflow c.workflow agents engine (execution_of c)
          ≡ ok expected)
        × (differs stringify engine expected ≡ false)
    pub known : (not (str_eq c.phase "routing") && not (has_command c.workflow c.phase)) ≡ false
    pub matched : mismatches engine c ≡ false
    pub handoff : ltb (length c.history) c.routing_history ≡ false
    pub rows : check_rows engine c ≡ ok tt
    pub mode : not (same_mode c.orchestrated orchestrated) ≡ false

  pub accept-Passed :
      (s0 s : Session C S) (c : Checkpoint C S)
      → accept stringify agents orchestrated s0 c ≡ ok s
      → (engine : Option EngineState) × Passed c engine × (session_from s0 engine c ≡ s)
  unfolding accept
  accept-Passed s0 s c h =
      let (engine, e, h1) = >>=-eq-ok (restore_if_there c.engine) _ h in
      let (_, resources, h2) = >>=-eq-ok (check_resources c.workflow agents) _ h1 in
      let (expected, pin, h3) =
        >>=-eq-ok (pinned_workflow c.workflow agents engine (execution_of c)) _ h2 in
      let (same, h4) = guard-eq-ok (differs stringify engine expected) _ _ h3 in
      let (known, h5) =
        guard-eq-ok (not (str_eq c.phase "routing") && not (has_command c.workflow c.phase)) _ _
          h4 in
      let (matched, h6) = guard-eq-ok (mismatches engine c) _ _ h5 in
      let (handoff, h7) = guard-eq-ok (ltb (length c.history) c.routing_history) _ _ h6 in
      let (_, rows, h8) = >>=-eq-ok (check_rows engine c) _ h7 in
      let (mode, h9) = guard-eq-ok (not (same_mode c.orchestrated orchestrated)) _ _ h8 in
      (
        engine,
        record {
          restores = e;
          resources = resources;
          pinned = (expected, pin, same);
          known = known;
          matched = matched;
          handoff = handoff;
          rows = rows;
          mode = mode;
        },
        result_injective h9,
      )

  pub Passed-accept :
      (s0 : Session C S) (c : Checkpoint C S) (engine : Option EngineState)
      → Passed c engine
      → accept stringify agents orchestrated s0 c ≡ ok (session_from s0 engine c)
  unfolding accept
  Passed-accept s0 c engine h =
      let (expected, pin, same) = h.pinned in
      chain (restore_if_there c.engine) _ h.restores (
        chain (check_resources c.workflow agents) _ h.resources (
          chain (pinned_workflow c.workflow agents engine (execution_of c)) _ pin (
            passes (differs stringify engine expected) _ _ same (
              passes (not (str_eq c.phase "routing") && not (has_command c.workflow c.phase)) _ _
                h.known
                (passes (mismatches engine c) _ _ h.matched (
                  passes (ltb (length c.history) c.routing_history) _ _ h.handoff (
                    chain (check_rows engine c) _ h.rows
                      (passes (not (same_mode c.orchestrated orchestrated)) _ _ h.mode refl))))))))
