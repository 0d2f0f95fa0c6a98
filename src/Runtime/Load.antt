-- ===== src/Runtime/Load.antt =====
-- cli/src/workflow-runtime.ts, `drive`: the records that wait for a batch, and what each transition does to their number.
use Prim.Native.String.{String}
use mathlib.Core.Path.{subst}
use mathlib.Core.Option.{some-injective, none-ne-some}
use d3r.Base.{
  ℕ, ◌+◌, ◌≤◌, ◌<◌, Bool, true, false, ◌&&◌, ◌≡◌, refl, sym, List, [], ◌∷◌, Option, none, some, inl,
  inr, find, update_where, eq_refl, arith, Bool-cases, Option-cases, if◌then◌else◌,
}
use d3r.Base.Outcome.{OnOk, OnOk-bind, OnOk-guard, OnOk-behind}
use d3r.Engine.State.{
  RecordStatus, pending, running, ExecutionRecord, EngineState, is_pending, set_status, in_batch,
}
use d3r.Engine.Advance.{Stop, conclude, advance, walk, pause}
use d3r.Engine.Transition.{
  Reported, batch_to_begin, begin_batch, record_outcome, is_ready, is_active, is_inactive, has_id,
  cannot_begin,
}
use d3r.Engine.Settle.{
  pause_between, settle_with, settle_batch, is_unsettled, is_semi, failure_of, summary_of,
}
use d3r.Engine.Loops.{close_loops}
use d3r.Engine.Lifecycle.{
  Move, start, reach, pass, exhaust, skip, finish, break_off, ask, interrupt, answer,
  resume_waiting, resume_interrupted, restart, Life, here, next, Evolves, Evolved,
}

abbrev pub count_pending : List ExecutionRecord → ℕ
count_pending [] = 0
count_pending (r ∷ rs) = (if is_pending r then 1 else 0) + count_pending rs

-- How many rounds an engine has left at most.
abbrev pub load : EngineState → ℕ
load e = count_pending e.records + (if is_active e.status then 1 else 0)

-- No move makes a record wait for its batch again.
pub loaded : (e : EngineState) → is_active e.status ≡ true → load e ≡ count_pending e.records + 1
loaded e h = rw h refl

pub unloaded : (e : EngineState) → is_active e.status ≡ false → load e ≡ count_pending e.records
unloaded e h = rw h (omega arith)

pub into_pending : {s t : RecordStatus} → Move s t → t ≡ pending → ⊥
into_pending start h = ground arith
into_pending reach h = ground arith
into_pending pass h = ground arith
into_pending exhaust h = ground arith
into_pending skip h = ground arith
into_pending finish h = ground arith
into_pending break_off h = ground arith
into_pending ask h = ground arith
into_pending interrupt h = ground arith
into_pending answer h = ground arith
into_pending resume_waiting h = ground arith
into_pending resume_interrupted h = ground arith
into_pending restart h = ground arith

pub to_pending : {s t : RecordStatus} → Life s t → t ≡ pending → s ≡ pending
to_pending here e = e
to_pending (next m l) e = absurd (into_pending m (to_pending l e))

pub pending_of : (r : ExecutionRecord) → is_pending r ≡ true → r.status ≡ pending
pending_of r h = ground arith

pub Evolves-pending :
    (r s : ExecutionRecord) → Evolves r s → is_pending s ≡ true → is_pending r ≡ true
Evolves-pending r s h p = rw (to_pending h.life (pending_of s p)) refl

pub Evolved-pending :
    (rs ss : List ExecutionRecord) → Evolved rs ss → count_pending ss ≤ count_pending rs
Evolved-pending [] [] h = omega arith
Evolved-pending (r ∷ rs) (s ∷ ss) (h, hs) =
    let rest = Evolved-pending rs ss hs in
    elim (Bool-cases (is_pending s)) [
      | inl e ↦ rw (e, Evolves-pending r s h e) (omega (arith, rest))
      | inr e ↦ rw e (omega (arith, rest))
    ]
Evolved-pending [] (s ∷ ss) h = absurd h
Evolved-pending (r ∷ rs) [] h = absurd h

pub started-fewer :
    (p : ExecutionRecord → Bool) (rs : List ExecutionRecord)
    → count_pending (update_where p (set_status running) rs) ≤ count_pending rs
started-fewer p [] = omega arith
started-fewer p (r ∷ rs) =
    let rest = started-fewer p rs in
    elim (Bool-cases (p r)) [
      | inl e ↦ rw e (omega (arith, rest))
      | inr e ↦ rw e (omega (arith, rest))
    ]

pub first-fewer :
    (p : ExecutionRecord → Bool) (rs : List ExecutionRecord) (first : ExecutionRecord)
    → find is_pending rs ≡ some first
    → p first ≡ true
    → count_pending (update_where p (set_status running) rs) < count_pending rs
first-fewer p [] first e h = absurd (none-ne-some first e)
first-fewer p (r ∷ rs) first e h = elim (Bool-cases (is_pending r)) [
  | inl q ↦
      let same : p r ≡ true =
        subst (λ x. p x ≡ true) (sym (some-injective r first (rw q at e))) h in
      let rest = started-fewer p rs in rw (same, q) (omega (arith, rest))
  | inr q ↦
      let rest = first-fewer p rs first (rw q at e) h in
      elim (Bool-cases (p r)) [
        | inl k ↦ rw (k, q) (omega (arith, rest))
        | inr k ↦ rw (k, q) (omega (arith, rest))
      ]
]

-- A batch that begins takes at least one record.
pub begin_batch-fewer :
    (s : EngineState)
    → OnOk
        (λ t. (is_active t.status ≡ true) × (count_pending t.records < count_pending s.records))
        (begin_batch s)
unfolding begin_batch batch_to_begin
begin_batch-fewer s = elim (Bool-cases (is_ready s.status)) [
  | inr e ↦ rw e tt
  | inl e ↦ rw e (elim (Option-cases (find is_pending s.records)) [
    | inl n ↦ rw (n, batch_to_begin) tt
    | inr (first, n) ↦ elim (Bool-cases (cannot_begin first s.records)) [
      | inl q ↦ rw (n, batch_to_begin, q) tt
      | inr q ↦
          rw (n, batch_to_begin, q)
            (
              refl,
              first-fewer (in_batch (some first.batch)) s.records first n (eq_refl first.batch),
            )
    ]
  ])
]

pub record_outcome-status :
    (s : EngineState) (id : String) (o : Reported) (error : Option String)
    → OnOk (λ t. t.status ≡ s.status) (record_outcome s id o error)
unfolding record_outcome
record_outcome-status s id o error = elim (Option-cases (find (has_id id) s.records)) [
  | inl e ↦ rw (e, record_outcome) tt
  | inr (r, e) ↦ elim (Bool-cases (is_inactive s r)) [
    | inl q ↦ rw (e, record_outcome, q) tt
    | inr q ↦ rw (e, record_outcome, q) refl
  ]
]

pub conclude-status : (s : EngineState) (stop : Stop) → is_active (conclude s stop).status ≡ false
unfolding pause
conclude-status s (Stop.at_human prompt) = refl
conclude-status s Stop.at_agent = refl
conclude-status s (Stop.exhausted loop) = refl
conclude-status s Stop.at_end = refl

pub advance-status : (s : EngineState) → OnOk (λ t. is_active t.status ≡ false) (advance s)
unfolding advance
advance-status s =
    OnOk-behind (λ t. is_active t.status ≡ false) (walk s.records) _
      λ out. conclude-status (record s { pause = none; records = out.0 }) out.1

pub pause_between-status :
    (s : EngineState) → is_active s.status ≡ false → is_active (pause_between s).status ≡ false
unfolding pause
pause_between-status s h = elim (Bool-cases (is_semi s.mode && is_ready s.status)) [
  | inl e ↦ rw e refl
  | inr e ↦ rw e h
]

pub settle_with-status :
    (blocked human : Option ExecutionRecord) (batch : Option String) (s : EngineState)
    → OnOk (λ t. is_active t.status ≡ false) (settle_with blocked human batch s)
unfolding settle_with pause advance
settle_with-status (some b) human batch s = OnOk-behind _ (failure_of b) _ λ m. refl
settle_with-status none (some h) batch s = OnOk-behind _ (summary_of h) _ λ m. refl
settle_with-status none none batch s =
    OnOk-bind (λ t. is_active t.status ≡ false) _
      (advance (record s { records = close_loops batch s.records })) _
      (advance-status (record s { records = close_loops batch s.records }))
      λ t h. pause_between-status t h

pub settle_batch-status :
    (s : EngineState) → OnOk (λ t. is_active t.status ≡ false) (settle_batch s)
unfolding settle_batch
settle_batch-status s =
    OnOk-guard (λ t. is_active t.status ≡ false) (is_unsettled s) _ _
      λ _. settle_with-status _ _ s.active_batch (record s { active_batch = none })
