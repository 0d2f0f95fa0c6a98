-- ===== src/Runtime/Resaved.antt =====
-- cli/src/workflow-runtime.ts, `snapshot` and `restore`: saving a session that was restored.
use Prim.Native.String.{String}
use mathlib.Core.Path.{subst}
use d3r.Base.{
  Bool, true, false, not, ◌&&◌, ◌||◌, ◌≡◌, refl, sym, ap, ◌∙◌, List, [], Option, none, some, inl,
  inr, str_eq, arith, Bool-cases, or-false_parts, if◌then◌else◌,
}
use d3r.Base.Outcome.{ok, fail-ne-ok, Result-cases}
use d3r.Schema.{Workflow}
use d3r.Engine.State.{EngineState}
use d3r.Engine.Checkpoint.{parse_schema}
use d3r.Engine.Trust.{parse_schema-stable}
use d3r.Cli.Continuations.{validate_continuations}
use d3r.Runtime.Graph.{Execution, execution_workflow, is_completed_status}
use d3r.Runtime.Events.{is_there}
use d3r.Runtime.Session.{Session}
use d3r.Runtime.Saved.{
  Checkpoint, parse_engine, is_unsound, is_sound_summary, is_sound_topic, is_sound_role,
  parse_checkpoint, saved_before, snapshot,
}
use d3r.Runtime.Restored.{
  restore_if_there, pinned_workflow, execution_of, mismatches, check_rows, session_from, restore,
}
use d3r.Runtime.Passed.{result_injective, chain, passes, Passed, Passed-accept}
use d3r.Runtime.Again.{restored_again, sound_restored, calmer_match, same_mode_self, calm_execution}

-- What of a session its checkpoint brings back, with the routing conversation as it is now.
abbrev pub brought_back :
    {C S : Type 0} → (orchestrated : Bool) → (current : S) → Session C S → Session C S
brought_back orchestrated current s = record s {
  phase_history = if orchestrated then s.phase_history else [];
  continuations = if orchestrated then s.continuations else [];
  routing_interrupted = not orchestrated && s.routing_interrupted;
  routing_before = if s.routing_interrupted then s.routing_before else some current;
}

-- What the parsed checkpoint says stays true of the checkpoint that is saved.
pub parse_engine-stable : (x y : Option EngineState) → parse_engine x ≡ ok y → parse_engine y ≡ ok y
unfolding parse_engine
parse_engine-stable none y h = subst (λ z. parse_engine z ≡ ok z) (result_injective h) refl
parse_engine-stable (some e) y h = elim (Result-cases (parse_schema e)) [
  | inr (z, f) ↦ absurd (fail-ne-ok (rw (f, parse_engine) at h))
  | inl (t, f) ↦
      subst (λ z. parse_engine z ≡ ok z) (result_injective (rw (f, parse_engine) at h))
        (rw (parse_engine, parse_schema-stable e t f) refl)
]

calm_pin :
    (w v : Workflow) (agents : List String) (engine : Option EngineState) (x : Execution) (b : Bool)
    → pinned_workflow w agents engine x ≡ ok v
    → pinned_workflow w agents engine
        (record x { routing_interrupted = b && x.routing_interrupted })
      ≡ ok v
unfolding pinned_workflow
calm_pin w v agents engine x b h = elim (Result-cases (execution_workflow w agents engine x)) [
  | inr (z, f) ↦ absurd (fail-ne-ok (rw (f, pinned_workflow) at h))
  | inl (u, f) ↦
      rw (pinned_workflow, calm_execution w u agents engine x b f) (rw (f, pinned_workflow) at h)
]

abbrev pub before_of : {S : Type 0} → Bool → Option S → Option S
before_of wanted before = if wanted then before else none

saved_before-there :
    {S : Type 0} (wanted : Bool) (b : S)
    → saved_before wanted (some b) ≡ ok (before_of wanted (some b))
saved_before-there true b = refl
saved_before-there false b = refl

module _ {C S : Type 0} where
  -- What `snapshot` writes when no prompt runs.
  abbrev pub saved : (current : S) → Session C S → (orchestrated : Bool) → Checkpoint C S
  saved current s orchestrated = record {
    workflow = s.workflow;
    phase = s.phase;
    engine = s.engine;
    history = s.history;
    input = s.input;
    phase_history = if orchestrated then s.phase_history else [];
    summary = s.summary;
    orchestrated = orchestrated;
    standalone_role = s.standalone_role;
    topic = s.topic;
    continuations = if orchestrated then s.continuations else [];
    routing = current;
    routing_interrupted = not orchestrated && s.routing_interrupted;
    routing_input = s.routing_input;
    routing_before = before_of s.routing_interrupted s.routing_before;
    routing_history = s.routing_history;
  }

  kept_rows :
      (engine : Option EngineState) (c c' : Checkpoint C S)
      → c'.orchestrated ≡ c.orchestrated
      → c'.continuations ≡ (if c.orchestrated then c.continuations else [])
      → check_rows engine c ≡ ok tt
      → check_rows engine c' ≡ ok tt
  unfolding check_rows validate_continuations
  kept_rows engine c c' e k h = elim (Bool-cases c.orchestrated) [
    | inl o ↦ rw (check_rows, k, e, o) (rw (o, check_rows) at h)
    | inr o ↦ rw (check_rows, k, e, o) refl
  ]

  calm_match :
      (engine : Option EngineState) (c : Checkpoint C S) (s0 : Session C S) (current : S)
      → mismatches engine c ≡ false
      → mismatches engine (saved current (session_from s0 engine c) c.orchestrated) ≡ false
  calm_match none c s0 current h = refl
  calm_match (some e) c s0 current h =
      calmer_match (not (is_completed_status e.status))
        (not (is_there c.standalone_role) && not (str_eq c.phase e.command)) c.routing_interrupted
        (not c.orchestrated) h

holds_of_not : {b : Bool} → not b ≡ false → b ≡ true
holds_of_not {b} h = ground arith

refuted : {b : Bool} → b ≡ true → not b ≡ false
refuted {b} h = ground arith

before-some :
    {S : Type 0} (x : Option S) (d : S)
    → (b : S) × ((elim x [ none ↦ some d | some y ↦ some y ]) ≡ some b)
before-some none d = (d, refl)
before-some (some y) d = (y, refl)

saved_before-some :
    {S : Type 0} (wanted : Bool) (x : Option S) (b : S)
    → x ≡ some b
    → saved_before wanted x ≡ ok (before_of wanted x)
saved_before-some wanted x b e =
    subst (λ y. saved_before wanted y ≡ ok (before_of wanted y)) (sym e)
      (saved_before-there wanted b)

before_back :
    {S : Type 0} (wanted : Bool) (current : S) (x : Option S) (b : S)
    → x ≡ some b
    → (elim (before_of wanted x) [ none ↦ some current | some y ↦ some y ])
      ≡ (if wanted then x else some current)
before_back true current x b e = rw e refl
before_back false current x b e = refl

module _ {C S : Type 0} (stringify : Workflow → String) (agents : List String) where
  resaved-Passed :
      (s0 : Session C S) (c : Checkpoint C S) (current : S) (engine : Option EngineState) (b : Bool)
      → Passed stringify agents b c engine
      → Passed stringify agents c.orchestrated
          (saved current (session_from s0 engine c) c.orchestrated)
          engine
  resaved-Passed s0 c current engine b h =
      let (expected, pin, same) = h.pinned in
      record {
        restores = (restored_again c.engine engine h.restores).1;
        resources = h.resources;
        pinned = (
          expected,
          calm_pin c.workflow expected agents engine (execution_of c) (not c.orchestrated) pin,
          same,
        );
        known = h.known;
        matched = calm_match engine c s0 current h.matched;
        handoff = h.handoff;
        rows =
            kept_rows engine c (saved current (session_from s0 engine c) c.orchestrated) refl refl
              h.rows;
        mode = same_mode_self c.orchestrated;
      }

  parse_saved :
      (s0 : Session C S) (c : Checkpoint C S) (current : S) (engine : Option EngineState)
      → parse_engine c.engine ≡ ok c.engine
      → is_unsound c ≡ false
      → restore_if_there c.engine ≡ ok engine
      → let c' = saved current (session_from s0 engine c) c.orchestrated in
        parse_checkpoint c' ≡ ok c'
  unfolding parse_checkpoint is_unsound
  parse_saved s0 c current engine parsed sound h =
      let c' = saved current (session_from s0 engine c) c.orchestrated in
      let (first, role) =
        or-false_parts
          (not (is_sound_summary c.summary c.engine) || not (is_sound_topic c.topic c.orchestrated))
          (not (is_sound_role c.standalone_role)) sound in
      let (told, topic) =
        or-false_parts (not (is_sound_summary c.summary c.engine))
          (not (is_sound_topic c.topic c.orchestrated)) first in
      let told' = refuted (sound_restored c.summary c.engine engine parsed h (holds_of_not told)) in
      chain (parse_engine engine) _ (restored_again c.engine engine h).0
        (passes (is_unsound c') _ _ (rw (told', topic, role) refl) refl)

  -- The session at hand, for the orchestration mode that the checkpoint names.
  pub resaved :
      (s0 : Session C S) (c : Checkpoint C S) (current : S) (engine : Option EngineState) (b : Bool)
      → parse_engine c.engine ≡ ok c.engine
      → is_unsound c ≡ false
      → Passed stringify agents b c engine
      → let s = session_from s0 engine c in
        let o = c.orchestrated in
        (snapshot o false current s ≡ ok (saved current s o))
        × (restore stringify agents o s0 (saved current s o) ≡ ok (brought_back o current s))
  unfolding snapshot restore parse_checkpoint
  resaved s0 c current engine b parsed sound h =
      let s = session_from s0 engine c in
      let c' = saved current s c.orchestrated in
      let p = parse_saved s0 c current engine parsed sound h.restores in
      let (before, there) = before-some c.routing_before c.routing in
      (
        chain (saved_before c.routing_interrupted s.routing_before) _
            (saved_before-some c.routing_interrupted s.routing_before before there) p,
        chain (parse_checkpoint c') _ p (
              Passed-accept stringify agents c.orchestrated s0 c' engine
                (resaved-Passed s0 c current engine b h))
            ∙ ap (λ x. ok (record (session_from s0 engine c') { routing_before = x }))
                (before_back c.routing_interrupted current s.routing_before before there),
      )
