-- ===== src/Runtime/Again.antt =====
-- cli/src/workflow-runtime.ts, `restore`: the engine and the execution of a session that was restored.
use Prim.Native.String.{String}
use mathlib.Core.Path.{subst}
use mathlib.Core.Option.{some-injective}
use d3r.Base.{
  Bool, true, false, not, ◌&&◌, ◌||◌, ◌≡◌, refl, sym, ap, ◌∙◌, List, Option, none, some, inl, inr,
  str_eq, arith, Option-cases,
}
use d3r.Base.Outcome.{ok, fail-ne-ok, >>=-eq-ok, guard-eq-ok, Result-cases}
use d3r.Schema.{Workflow}
use d3r.Engine.State.{EngineStatus, EngineState}
use d3r.Engine.Transition.{is_active}
use d3r.Engine.Resume.{restore_engine}
use d3r.Engine.Checkpoint.{parse_schema, parse_engine_state, validate}
use d3r.Engine.Accepted.{restore_engine-IsIdle}
use d3r.Engine.Interrupted.{parse-restore_engine}
use d3r.Runtime.Graph.{
  Execution, execution_workflow, is_invalid_execution, is_completed_status, has_command,
  standalone_command, lacks_mode,
}
use d3r.Runtime.Saved.{parse_engine, is_sound_summary}
use d3r.Runtime.Restored.{same_mode, restore_if_there}
use d3r.Runtime.Passed.{result_injective, passes}

-- An engine that was restored is parsed and restored as it is.
pub restored-parse_schema : (e t : EngineState) → restore_engine e ≡ ok t → parse_schema t ≡ ok t
unfolding parse_engine_state
restored-parse_schema e t h =
    let (u, p, h') = >>=-eq-ok (parse_schema t) _ (parse-restore_engine e t h) in
    let (_, v, h'') = >>=-eq-ok (validate u) _ h' in p ∙ ap ok (result_injective h'')

pub restored-restore_engine :
    (e t : EngineState) → restore_engine e ≡ ok t → restore_engine t ≡ ok t
unfolding restore_engine
restored-restore_engine e t h =
    let idle = (restore_engine-IsIdle e t h).inactive in
    rw (restore_engine, parse-restore_engine e t h, idle) refl

pub restored_again :
    (parsed engine : Option EngineState)
    → restore_if_there parsed ≡ ok engine
    → (parse_engine engine ≡ ok engine) × (restore_if_there engine ≡ ok engine)
unfolding restore_if_there parse_engine
restored_again none engine h =
    let same : none ≡ engine = result_injective h in
    subst (λ x. (parse_engine x ≡ ok x) × (restore_if_there x ≡ ok x)) same (refl, refl)
restored_again (some e) engine h = elim (Result-cases (restore_engine e)) [
  | inr (x, f) ↦ absurd (fail-ne-ok (rw (f, restore_if_there) at h))
  | inl (t, f) ↦
      let same : some t ≡ engine = result_injective (rw (f, restore_if_there) at h) in
      subst (λ x. (parse_engine x ≡ ok x) × (restore_if_there x ≡ ok x)) same
        (
          rw (parse_engine, restored-parse_schema e t f) refl,
          rw (restore_if_there, restored-restore_engine e t f) refl,
        )
]

pub not_active : (s : EngineStatus) → is_completed_status s ≡ true → is_active s ≡ false
not_active s h = ground arith

-- A completed engine is restored as completed.
pub completed_restored :
    (e t : EngineState)
    → parse_schema e ≡ ok e
    → restore_engine e ≡ ok t
    → is_completed_status e.status ≡ true
    → is_completed_status t.status ≡ true
unfolding restore_engine parse_engine_state
completed_restored e t p h done =
    let (u, q, h1) = >>=-eq-ok (parse_engine_state e) _ h in
    let (w, p', q1) = >>=-eq-ok (parse_schema e) _ q in
    let (_, _, q2) = >>=-eq-ok (validate w) _ q1 in
    let same : e ≡ u = result_injective (sym p ∙ p') ∙ result_injective q2 in
    let done' : is_completed_status u.status ≡ true =
      subst (λ x. is_completed_status x.status ≡ true) same done in
    let kept : u ≡ t = result_injective (rw (not_active u.status done') at h1) in
    subst (λ x. is_completed_status x.status ≡ true) kept done'

pub parsed_whole : (e : EngineState) → parse_engine (some e) ≡ ok (some e) → parse_schema e ≡ ok e
unfolding parse_engine
parsed_whole e h = elim (Result-cases (parse_schema e)) [
  | inr (y, f) ↦ absurd (fail-ne-ok (rw (f, parse_engine) at h))
  | inl (t, f) ↦ f ∙ ap ok (some-injective t e (result_injective (rw (f, parse_engine) at h)))
]

pub sound_restored :
    (summary : Option String) (parsed engine : Option EngineState)
    → parse_engine parsed ≡ ok parsed
    → restore_if_there parsed ≡ ok engine
    → is_sound_summary summary parsed ≡ true
    → is_sound_summary summary engine ≡ true
unfolding restore_if_there
sound_restored none parsed engine p h s = refl
sound_restored (some x) none engine p h s = absurd (let wrong : false ≡ true = s in cc)
sound_restored (some x) (some e) engine p h s = elim (Result-cases (restore_engine e)) [
  | inr (y, f) ↦ absurd (fail-ne-ok (rw (f, restore_if_there) at h))
  | inl (t, f) ↦
      let same : some t ≡ engine = result_injective (rw (f, restore_if_there) at h) in
      subst (λ y. is_sound_summary (some x) y ≡ true) same
        (completed_restored e t (parsed_whole e p) f s)
]

pub calmer :
    (a b i c d n : Bool)
    → ((((a || b) || i) || c) || d) ≡ false
    → ((((a || b) || (n && i)) || c) || d) ≡ false
calmer a b i c d n h = ground arith

pub calm_invalid :
    (w : Workflow) (e : EngineState) (x : Execution) (role : String) (b : Bool)
    → is_invalid_execution w e x role ≡ false
    → is_invalid_execution w e (record x { routing_interrupted = b && x.routing_interrupted }) role
      ≡ false
calm_invalid w e x role b =
    calmer (not x.orchestrated)
      (not (str_eq x.phase "routing")
        && (not (is_completed_status e.status) || not (has_command w x.phase)))
      x.routing_interrupted (not (str_eq e.command standalone_command))
      (str_eq role "implementor" && lacks_mode e) b

pub calmer_match : (d p i n : Bool) → (d && (p || i)) ≡ false → (d && (p || (n && i))) ≡ false
calmer_match d p i n h = ground arith

pub same_mode_self : (b : Bool) → not (same_mode b b) ≡ false
same_mode_self true = refl
same_mode_self false = refl

pub calm_execution :
    (w v : Workflow) (agents : List String) (engine : Option EngineState) (x : Execution) (b : Bool)
    → execution_workflow w agents engine x ≡ ok v
    → execution_workflow w agents engine
        (record x { routing_interrupted = b && x.routing_interrupted })
      ≡ ok v
unfolding execution_workflow
calm_execution w v agents engine x b h = elim (Option-cases x.standalone_role) [
  | inl n ↦ rw (execution_workflow, n) (rw (n, execution_workflow) at h)
  | inr (role, n) ↦ elim (Option-cases engine) [
    | inl m ↦ absurd (fail-ne-ok (rw (n, m, execution_workflow) at h))
    | inr (e, m) ↦
        let (valid, made) =
          guard-eq-ok (is_invalid_execution w e x role) _ _ (rw (n, m, execution_workflow) at h) in
        rw (n, m, execution_workflow)
          (passes
            (is_invalid_execution w e
              (record x { routing_interrupted = b && x.routing_interrupted }) role)
            _ _ (calm_invalid w e x role b valid) made)
  ]
]
