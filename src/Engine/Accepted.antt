-- ===== src/Engine/Accepted.antt =====
-- core/engine.ts, `parseEngineState`: the checks of a checkpoint as one record of facts, and what
-- interruption and restoring make of an accepted checkpoint.
use Prim.Native.String.{String}
use mathlib.Core.Path.{subst}
use d3r.Base.{
  Bool, true, false, not, ◌&&◌, ◌≡◌, refl, List, [], ◌∷◌, none, inl, inr, any, All, arith,
  Bool-cases, update_where,
}
use d3r.Base.Outcome.{Result, ok, ◌>>◌, reject_if, >>=-eq-ok, guard-eq-ok}
use d3r.Engine.State
use d3r.Engine.State.{
  RecordStatus, ExecutionRecord, EngineStatus, PauseKind, EngineState, EngineError, is_running,
  is_settled, set_status,
}
use d3r.Engine.Compile.{compile_workflow}
use d3r.Engine.Advance.{pause}
use d3r.Engine.Transition.{is_active}
use d3r.Engine.Settle.{interrupt_engine, interrupt_message}
use d3r.Engine.Checkpoint.{
  parse_schema, check_record, check_records, validate, parse_engine_state, same_topology,
  incomplete, unanswered, strays, has_active_batch, has_pause, differ, is_done, is_paused_status,
  undecided, bypasses, lacks_human, lacks_report, mismatches,
}
use d3r.Engine.Resume.{restore_engine}
use d3r.Engine.Trust.{validate_of_parse}

pub record RecordFacts (s : EngineState) (r : ExecutionRecord) : Type 0 where
  pub complete : incomplete r ≡ false
  pub answered : unanswered r ≡ false
  pub belongs : strays s r ≡ false

-- What the checks after the schema establish.
pub record Facts (s : EngineState) : Type 0 where
  pub each : All (RecordFacts s) s.records
  pub batch : differ (is_active s.status) (has_active_batch s) ≡ false
  pub finished : (is_done s.status && any (λ r. not (is_settled r)) s.records) ≡ false
  pub paused : differ (is_paused_status s.status) (has_pause s) ≡ false
  pub decided : undecided s ≡ false
  pub waits : bypasses s ≡ false
  pub human : lacks_human s ≡ false
  pub report : lacks_report s ≡ false
  pub matches : mismatches s ≡ false

abbrev pub Matches : EngineState → Type 0
Matches s =
    (rs : List ExecutionRecord) × (compile_workflow s.workflow s.command ≡ ok rs)
    × (same_topology rs s.records ≡ true)

three :
    (a b c : Bool)
    → (reject_if a State.incomplete_report
        >> (reject_if b State.no_human_answer >> reject_if c State.stray_running))
      ≡ ok tt
    → (a ≡ false) × (b ≡ false) × (c ≡ false)
three a b c h = ground arith

eight :
    (a b c d e f g i : Bool)
    → (reject_if a State.bad_active_batch
        >> (reject_if b State.unfinished_records
            >> (reject_if c State.bad_pause
                >> (reject_if d State.no_mode
                    >> (reject_if e State.would_bypass
                        >> (reject_if f State.bad_human
                            >> (reject_if g State.no_needs_human
                                >> reject_if i State.pause_mismatch)))))))
      ≡ ok tt
    → (a ≡ false)
      × (b ≡ false)
      × (c ≡ false)
      × (d ≡ false)
      × (e ≡ false)
      × (f ≡ false)
      × (g ≡ false)
      × (i ≡ false)
eight a b c d e f g i h = ground arith

check_record-Facts :
    (s : EngineState) (r : ExecutionRecord) → check_record s r ≡ ok tt → RecordFacts s r
unfolding check_record
check_record-Facts s r h =
    let (a, b, c) = three (incomplete r) (unanswered r) (strays s r) h in
    record { complete = a; answered = b; belongs = c }

check_records-Facts :
    (s : EngineState) (rs : List ExecutionRecord)
    → check_records s rs ≡ ok tt
    → All (RecordFacts s) rs
unfolding check_records
check_records-Facts s [] h = tt
check_records-Facts s (r ∷ rs) h =
    let (_, e, h') = >>=-eq-ok (check_record s r) _ h in
    (check_record-Facts s r e, check_records-Facts s rs h')

Facts-check_records :
    (s : EngineState) (rs : List ExecutionRecord)
    → All (RecordFacts s) rs
    → check_records s rs ≡ ok tt
unfolding check_records check_record
Facts-check_records s [] h = refl
Facts-check_records s (r ∷ rs) (f, fs) =
    rw (f.complete, f.answered, f.belongs) (Facts-check_records s rs fs)

not-false : (b : Bool) → not b ≡ false → b ≡ true
not-false b h = ground arith

pub validate-Facts : (s : EngineState) → validate s ≡ ok tt → Matches s × Facts s
unfolding validate
validate-Facts s h =
    let (rs, compiled, h₁) = >>=-eq-ok (compile_workflow s.workflow s.command) _ h in
    let (same, h₂) = guard-eq-ok (not (same_topology rs s.records)) State.topology _ h₁ in
    let (_, each, h₃) = >>=-eq-ok (check_records s s.records) _ h₂ in
    let (batch, finished, paused, decided, waits, human, report, matches) =
      eight (differ (is_active s.status) (has_active_batch s))
        (is_done s.status && any (λ r. not (is_settled r)) s.records)
        (differ (is_paused_status s.status) (has_pause s)) (undecided s) (bypasses s)
        (lacks_human s) (lacks_report s) (mismatches s) h₃ in
    (
      (rs, compiled, not-false (same_topology rs s.records) same),
      record {
        each = check_records-Facts s s.records each;
        batch = batch;
        finished = finished;
        paused = paused;
        decided = decided;
        waits = waits;
        human = human;
        report = report;
        matches = matches;
      },
    )

pub Facts-validate : (s : EngineState) → Matches s → Facts s → validate s ≡ ok tt
unfolding validate
Facts-validate s (rs, compiled, same) f =
    rw
      (
        compiled,
        same,
        Facts-check_records s s.records f.each,
        f.batch,
        f.finished,
        f.paused,
        f.decided,
        f.waits,
        f.human,
        f.report,
        f.matches,
      )
      refl

idle_record :
    (s : EngineState) (r : ExecutionRecord)
    → is_active s.status ≡ false
    → strays s r ≡ false
    → is_running r ≡ false
idle_record s r h f = ground arith

not_running :
    (s : EngineState) (rs : List ExecutionRecord)
    → is_active s.status ≡ false
    → All (RecordFacts s) rs
    → All (λ r. is_running r ≡ false) rs
not_running s [] h f = tt
not_running s (r ∷ rs) h (f, fs) = (idle_record s r h f.belongs, not_running s rs h fs)

none_running :
    (rs : List ExecutionRecord)
    → All
        (λ r. is_running r ≡ false)
        (update_where is_running (set_status RecordStatus.interrupted) rs)
none_running [] = tt
none_running (r ∷ rs) = (ground arith, none_running rs)

no_batch :
    (s : EngineState)
    → differ (is_active s.status) (has_active_batch s) ≡ false
    → is_active s.status ≡ false
    → s.active_batch ≡ none
no_batch s h k = ground arith

-- Nothing is in flight in this state.
pub record IsIdle (s : EngineState) : Type 0 where
  pub inactive : is_active s.status ≡ false
  pub no_active_batch : s.active_batch ≡ none
  pub none_runs : All (λ r. is_running r ≡ false) s.records

pub interrupt_engine-IsIdle : (s : EngineState) (m : String) → IsIdle (interrupt_engine s m)
unfolding interrupt_engine pause
interrupt_engine-IsIdle s m = record {
  inactive = refl;
  no_active_batch = refl;
  none_runs = none_running s.records;
}

pub ok-injective :
    {a b : EngineState} → ◌≡◌ {A = Result EngineState EngineError} (ok a) (ok b) → a ≡ b
ok-injective h = cc

-- Restoring never leaves work in flight: an engine that was saved while a batch ran comes back
-- interrupted, with no active batch and no running record, and is not run again by itself.
pub restore_engine-IsIdle : (s t : EngineState) → restore_engine s ≡ ok t → IsIdle t
unfolding restore_engine
restore_engine-IsIdle s t h =
    let (u, e, h') = >>=-eq-ok (parse_engine_state s) _ h in
    let (_, f) = validate-Facts u (validate_of_parse s u e) in
    elim (Bool-cases (is_active u.status)) [
      | inl q ↦
          subst IsIdle (ok-injective (rw q at h')) (interrupt_engine-IsIdle u interrupt_message)
      | inr q ↦ subst IsIdle (ok-injective (rw q at h')) (record {
        inactive = q;
        no_active_batch = no_batch u f.batch q;
        none_runs = not_running u u.records q f.each;
      })
    ]

pub Facts-parse :
    (s : EngineState) → parse_schema s ≡ ok s → Matches s → Facts s → parse_engine_state s ≡ ok s
unfolding parse_engine_state
Facts-parse s e m f = rw (e, Facts-validate s m f) refl
