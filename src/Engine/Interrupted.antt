-- ===== src/Engine/Interrupted.antt =====
-- core/engine.ts: interrupted and restored engines as checkpoints.
use Prim.Native.String.{String}
use mathlib.Core.Path.{subst}
use d3r.Base.{
  suc, ltb, Bool, true, false, not, ◌&&◌, ◌≡◌, refl, ap, ◌∙◌, List, [], ◌∷◌, Option, inl, inr, all,
  length, All, arith, Bool-cases, Option-cases, if◌then◌else◌, update_where, str_eq,
}
use d3r.Base.Outcome.{Result, ok, fail, >>=-eq-ok, fail-ne-ok}
use d3r.Engine.State
use d3r.Engine.State.{
  RecordStatus, ExecutionRecord, EngineStatus, PauseKind, Pause, EngineState, EngineError,
  max_records, is_running, is_pending, set_status,
}
use d3r.Engine.Advance.{pause}
use d3r.Engine.Transition.{is_active, no_mode}
use d3r.Engine.Settle.{interrupt_engine, interrupt_message}
use d3r.Engine.Checkpoint.{
  parse_record, parse_records, parse_stored, breaks_schema, parse_schema, validate,
  parse_engine_state, same_topology_of_eq, has_pause, differ, is_paused_status, undecided, loop_ok,
}
use d3r.Engine.Resume.{restore_engine}
use d3r.Engine.Lifecycle.{Evolved-topology}
use d3r.Engine.Settlement.{interrupt_engine-Evolved}
use d3r.Engine.Trust.{parse_engine_state_idem, validate_of_parse}
use d3r.Engine.Accepted.{RecordFacts, Facts, Matches, ok-injective, validate-Facts, Facts-parse}

outcome_in : ExecutionRecord → Result ExecutionRecord EngineError → Option State.WorkflowOutcome
outcome_in r (ok x) = x.outcome
outcome_in r (fail e) = r.outcome

head_in : ExecutionRecord → Result (List ExecutionRecord) EngineError → ExecutionRecord
head_in d (ok (x ∷ xs)) = x
head_in d _ = d

tail_in : Result (List ExecutionRecord) EngineError → List ExecutionRecord
tail_in (ok (x ∷ xs)) = xs
tail_in _ = []

parts :
    {r r' : ExecutionRecord} {rs rs' : List ExecutionRecord}
    → ◌≡◌ {A = Result (List ExecutionRecord) EngineError} (ok (r' ∷ rs')) (ok (r ∷ rs))
    → (r' ≡ r) × (rs' ≡ rs)
unfolding head_in tail_in
parts {r} h = (ap (head_in r) h, ap tail_in h)

-- The status is no part of the schema's tests on a record.
parse_record-set_status :
    (t : RecordStatus) (r : ExecutionRecord)
    → parse_record r ≡ ok r
    → parse_record (set_status t r) ≡ ok (set_status t r)
unfolding parse_record outcome_in
parse_record-set_status t r h = elim (Bool-cases (not (all loop_ok r.loops))) [
  | inl q ↦ absurd (fail-ne-ok (rw q at h))
  | inr q ↦ elim (Option-cases (parse_stored r.outcome)) [
    | inl e ↦ absurd (fail-ne-ok (rw (q, e, parse_record) at h))
    | inr (o, e) ↦
        let same : o ≡ r.outcome = outcome_of r o (rw (q, e, parse_record) at h) in
        rw (q, e, parse_record, same) refl
  ]
]
  where
    outcome_of :
        (r : ExecutionRecord) (o : Option State.WorkflowOutcome)
        → ◌≡◌ {A = Result ExecutionRecord EngineError} (ok (record r { outcome = o })) (ok r)
        → o ≡ r.outcome
    outcome_of r o h = ap (λ x. outcome_in r x) h

parse_records-update :
    (p : ExecutionRecord → Bool) (t : RecordStatus) (rs : List ExecutionRecord)
    → parse_records rs ≡ ok rs
    → parse_records (update_where p (set_status t) rs) ≡ ok (update_where p (set_status t) rs)
unfolding parse_records
parse_records-update p t [] h = refl
parse_records-update p t (r ∷ rs) h =
    let (r', e, h') = >>=-eq-ok (parse_record r) _ h in
    let (rs', es, h'') = >>=-eq-ok (parse_records rs) _ h' in
    let (same, sames) = parts h'' in
    elim (Bool-cases (p r)) [
      | inl q ↦
          rw
            (
              q,
              parse_record-set_status t r (e ∙ ap ok same),
              parse_records-update p t rs (es ∙ ap ok sames),
            )
            refl
      | inr q ↦ rw (q, e ∙ ap ok same, parse_records-update p t rs (es ∙ ap ok sames)) refl
    ]

length-update_where :
    (p : ExecutionRecord → Bool) (f : ExecutionRecord → ExecutionRecord) (rs : List ExecutionRecord)
    → length (update_where p f rs) ≡ length rs
length-update_where p f [] = refl
length-update_where p f (r ∷ rs) = ap suc (length-update_where p f rs)

records_in : Result EngineState EngineError → List ExecutionRecord
records_in (ok s) = s.records
records_in (fail e) = []

too_long : (s : EngineState) → breaks_schema s ≡ false → ltb max_records (length s.records) ≡ false
too_long s h = ground arith

schema_records :
    (s : EngineState)
    → parse_schema s ≡ ok s
    → (breaks_schema s ≡ false) × (parse_records s.records ≡ ok s.records)
unfolding parse_schema records_in
schema_records s h = elim (Bool-cases (breaks_schema s)) [
  | inl q ↦ absurd (fail-ne-ok (rw q at h))
  | inr q ↦
      let (rs, e, h') = >>=-eq-ok (parse_records s.records) _ (rw q at h) in
      (q, e ∙ ap ok (ap records_in h'))
]

schema_of_parse : (s : EngineState) → parse_engine_state s ≡ ok s → parse_schema s ≡ ok s
unfolding parse_engine_state
schema_of_parse s h =
    let (u, e, h') = >>=-eq-ok (parse_schema s) _ h in
    let (_, _, h'') = >>=-eq-ok (validate u) _ h' in e ∙ h''

interrupt-schema :
    (s : EngineState) (m : String)
    → parse_schema s ≡ ok s
    → parse_schema (interrupt_engine s m) ≡ ok (interrupt_engine s m)
unfolding parse_schema interrupt_engine pause
interrupt-schema s m h =
    let (fits, same) = schema_records s h in
    rw
      (
        length-update_where is_running (set_status RecordStatus.interrupted) s.records,
        too_long s fits,
        parse_records-update is_running RecordStatus.interrupted s.records same,
      )
      refl

interrupt_record-Facts :
    (s : EngineState) (m : String) (r : ExecutionRecord)
    → RecordFacts s r
    → RecordFacts
        (interrupt_engine s m)
        (if is_running r then set_status RecordStatus.interrupted r else r)
unfolding interrupt_engine pause
interrupt_record-Facts s m r f = elim (Bool-cases (is_running r)) [
  | inl q ↦
      rw q (record { complete = ground arith; answered = ground arith; belongs = ground arith })
  | inr q ↦ rw q (record { complete = f.complete; answered = f.answered; belongs = ground arith })
]

interrupt_records-Facts :
    (s : EngineState) (m : String) (rs : List ExecutionRecord)
    → All (RecordFacts s) rs
    → All
        (RecordFacts (interrupt_engine s m))
        (update_where is_running (set_status RecordStatus.interrupted) rs)
interrupt_records-Facts s m [] f = tt
interrupt_records-Facts s m (r ∷ rs) (f, fs) =
    (interrupt_record-Facts s m r f, interrupt_records-Facts s m rs fs)

-- A running engine is not in develop mode without a choice of mode.
chosen :
    (s : EngineState)
    → is_active s.status ≡ true
    → differ (is_paused_status s.status) (has_pause s) ≡ false
    → undecided s ≡ false
    → (str_eq s.command "develop" && no_mode s.mode) ≡ false
chosen s a p u = ground arith

interrupt-undecided :
    (s : EngineState) (m : String)
    → (str_eq s.command "develop" && no_mode s.mode) ≡ false
    → undecided (interrupt_engine s m) ≡ false
unfolding interrupt_engine pause
interrupt-undecided s m h = ground arith

interrupt-Facts :
    (s : EngineState) (m : String)
    → is_active s.status ≡ true
    → Facts s
    → Facts (interrupt_engine s m)
unfolding interrupt_engine pause
interrupt-Facts s m a f = record {
  each = interrupt_records-Facts s m s.records f.each;
  batch = refl;
  finished = refl;
  paused = refl;
  decided = interrupt-undecided s m (chosen s a f.paused f.decided);
  waits = refl;
  human = refl;
  report = refl;
  matches = refl;
}

interrupt-Matches : (s : EngineState) (m : String) → Matches s → Matches (interrupt_engine s m)
unfolding interrupt_engine pause
interrupt-Matches s m (rs, compiled, same) = (
  rs,
  compiled,
  same_topology_of_eq rs s.records _ (Evolved-topology s.records _ (interrupt_engine-Evolved s m))
      ∙ same,
)

-- A running engine that was accepted is accepted again once it is interrupted: the interruption can
-- always be saved.
pub parse-interrupt_engine :
    (s : EngineState) (message : String)
    → parse_engine_state s ≡ ok s
    → is_active s.status ≡ true
    → parse_engine_state (interrupt_engine s message) ≡ ok (interrupt_engine s message)
parse-interrupt_engine s m h a =
    let (matches, facts) = validate-Facts s (validate_of_parse s s h) in
    Facts-parse (interrupt_engine s m) (interrupt-schema s m (schema_of_parse s h))
      (interrupt-Matches s m matches) (interrupt-Facts s m a facts)

-- What restoring returns is accepted, so a restored engine can be saved and restored again.
pub parse-restore_engine :
    (s t : EngineState) → restore_engine s ≡ ok t → parse_engine_state t ≡ ok t
unfolding restore_engine
parse-restore_engine s t h =
    let (u, e, h') = >>=-eq-ok (parse_engine_state s) _ h in
    elim (Bool-cases (is_active u.status)) [
      | inl q ↦
          subst (λ x. parse_engine_state x ≡ ok x) (ok-injective (rw q at h'))
            (parse-interrupt_engine u interrupt_message (parse_engine_state_idem s u e) q)
      | inr q ↦
          subst (λ x. parse_engine_state x ≡ ok x) (ok-injective (rw q at h'))
            (parse_engine_state_idem s u e)
    ]
