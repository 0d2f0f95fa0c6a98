-- ===== src/Engine/Trust.antt =====
-- core/engine.ts: checkpoints that are accepted.
use mathlib.Core.Path.{subst}
use mathlib.Core.Option.{some-injective, none-ne-some}
use d3r.Base.{
  not, ◌≡◌, refl, sym, ap, ◌∙◌, List, [], ◌∷◌, Option, none, some, inl, inr, all, length, arith,
  Bool-cases, Option-cases,
}
use d3r.Base.Text.{trim, is_blank, trim_idem, is_blank-trim}
use d3r.Base.Outcome.{Result, ok, >>=-eq-ok, fail-ne-ok}
use d3r.Engine.State.{WorkflowOutcome, ExecutionRecord, EngineState, EngineError}
use d3r.Engine.Transition.{report, parse_outcome}
use d3r.Engine.Checkpoint.{
  loop_ok, parse_stored, parse_record, parse_records, breaks_schema, parse_schema, validate,
  parse_engine_state,
}

ok-injective : {A : Type 0} {a b : A} → ◌≡◌ {A = Result A EngineError} (ok a) (ok b) → a ≡ b
ok-injective h = cc

parse_outcome-stable :
    (o p : WorkflowOutcome) → parse_outcome (report o) ≡ some p → parse_outcome (report p) ≡ some p
unfolding parse_outcome
parse_outcome-stable o p h = elim (Bool-cases (is_blank o.summary)) [
  | inl e ↦ absurd (none-ne-some p (rw e at h))
  | inr e ↦
      subst (λ q. parse_outcome (report q) ≡ some q)
        (some-injective (record o { summary = trim o.summary }) p (rw e at h))
        (rw (is_blank-trim o.summary, e, trim_idem o.summary) refl)
]

parse_stored-stable :
    (o p : Option WorkflowOutcome) → parse_stored o ≡ some p → parse_stored p ≡ some p
unfolding parse_stored
parse_stored-stable none p h = subst (λ q. parse_stored q ≡ some q) (some-injective none p h) refl
parse_stored-stable (some o) p h = elim (Option-cases (parse_outcome (report o))) [
  | inl e ↦ absurd (none-ne-some p (rw e at h))
  | inr (q, e) ↦
      subst (λ x. parse_stored x ≡ some x) (some-injective (some q) p (rw e at h))
        (rw (parse_outcome-stable o q e) refl)
]

parse_record-stable : (r t : ExecutionRecord) → parse_record r ≡ ok t → parse_record t ≡ ok t
unfolding parse_record
parse_record-stable r t h = elim (Bool-cases (not (all loop_ok r.loops))) [
  | inl q ↦ absurd (fail-ne-ok (rw q at h))
  | inr q ↦ elim (Option-cases (parse_stored r.outcome)) [
    | inl e ↦ absurd (fail-ne-ok (rw (q, e, parse_record) at h))
    | inr (o, e) ↦
        subst (λ x. parse_record x ≡ ok x) (ok-injective (rw (q, e, parse_record) at h))
          (rw (q, parse_stored-stable r.outcome o e, parse_record) refl)
  ]
]

parse_records-stable :
    (rs ts : List ExecutionRecord) → parse_records rs ≡ ok ts → parse_records ts ≡ ok ts
unfolding parse_records
parse_records-stable [] ts h = subst (λ x. parse_records x ≡ ok x) (ok-injective h) refl
parse_records-stable (r ∷ rs) ts h =
    let (t, e, h') = >>=-eq-ok (parse_record r) _ h in
    let (us, e', h'') = >>=-eq-ok (parse_records rs) _ h' in
    subst (λ x. parse_records x ≡ ok x) (ok-injective h'')
      (rw (parse_record-stable r t e, parse_records-stable rs us e') refl)

parse_records-length :
    (rs ts : List ExecutionRecord) → parse_records rs ≡ ok ts → length ts ≡ length rs
unfolding parse_records
parse_records-length [] ts h = ap length (sym (ok-injective h))
parse_records-length (r ∷ rs) ts h =
    let (t, e, h') = >>=-eq-ok (parse_record r) _ h in
    let (us, e', h'') = >>=-eq-ok (parse_records rs) _ h' in
    ap length (sym (ok-injective h'')) ∙ omega (arith, parse_records-length rs us e')

pub parse_schema-stable : (s t : EngineState) → parse_schema s ≡ ok t → parse_schema t ≡ ok t
unfolding parse_schema
parse_schema-stable s t h = elim (Bool-cases (breaks_schema s)) [
  | inl q ↦ absurd (fail-ne-ok (rw q at h))
  | inr q ↦
      let (rs, e, h') = >>=-eq-ok (parse_records s.records) _ (rw q at h) in
      subst (λ x. parse_schema x ≡ ok x) (ok-injective h')
        (rw (parse_records-length s.records rs e, q, parse_records-stable s.records rs e) refl)
]

-- An accepted checkpoint is a fixed point: checking it again accepts it unchanged.
pub parse_engine_state_idem :
    (s t : EngineState) → parse_engine_state s ≡ ok t → parse_engine_state t ≡ ok t
unfolding parse_engine_state
parse_engine_state_idem s t h =
    let (u, e, h') = >>=-eq-ok (parse_schema s) _ h in
    let (_, v, h'') = >>=-eq-ok (validate u) _ h' in
    subst (λ x. parse_engine_state x ≡ ok x) (ok-injective h'')
      (rw (parse_schema-stable s u e, v) refl)

pub validate_of_parse : (s t : EngineState) → parse_engine_state s ≡ ok t → validate t ≡ ok tt
unfolding parse_engine_state
validate_of_parse s t h =
    let (u, e, h') = >>=-eq-ok (parse_schema s) _ h in
    let (_, v, h'') = >>=-eq-ok (validate u) _ h' in
    subst (λ x. validate x ≡ ok tt) (ok-injective h'') v
