-- ===== src/Engine/Steps.antt =====
-- core/engine.ts: what each transition does to the records, one lemma for each.
use Prim.Native.String.{String}
use mathlib.Core.Option.{some-injective, none-ne-some}
use d3r.Base.{
  str_eq, true, false, ◌&&◌, ◌≡◌, refl, ap, List, [], ◌∷◌, Option, none, some, inl, inr, any, find,
  get_elem?, All, arith, Bool-cases, Option-cases, get_last?, ℕ, drop, suc, filter, ◌==◌,
}
use d3r.Base.Outcome.{Result, ok, fail, OnOk, OnOk-bind}
use d3r.Engine.State.{
  ReportStatus, WorkflowOutcome, LoopScope, RecordKind, RecordStatus, ExecutionRecord, EngineState,
  EngineError, is_pending, set_status, in_batch,
}
use d3r.Engine.Advance.{Stop, visit, behind, walk, advance, conclude, pause}
use d3r.Engine.Transition.{
  is_inactive, cannot_begin, has_started, status_of, is_truthy, Reported, batch_to_begin,
  begin_batch, is_ready, parse_outcome, settle_record, record_outcome, has_id,
}
use d3r.Engine.Loops.{
  in_loop, changes_requested, close_for, close_at, close_each, close_loops, places, skip_loop,
  succeeds, has_role, awaits_review,
}
use d3r.Engine.Checkpoint.{topology}
use d3r.Engine.Lifecycle.{
  Move, start, reach, pass, exhaust, skip, finish, break_off, ask, here, next, Evolves,
  Evolves-refl, Evolved, Evolved-refl, Evolved-trans, update_where-Evolved, update_first-Evolved,
  All-of, any-false, All-map,
}

pub moved :
    (r : ExecutionRecord) {s t : RecordStatus}
    → r.status ≡ s
    → Move s t
    → Evolves r (set_status t r)
unfolding topology
moved r e m = record { same = refl; life = rw e (next m here) }

abbrev EvolvedWalk :
    List ExecutionRecord → Result (List ExecutionRecord × Stop) EngineError → Type 0
EvolvedWalk rs = OnOk (λ out. Evolved rs out.0)

behind-Evolved :
    (r r' : ExecutionRecord) (rs : List ExecutionRecord)
    (rest : Result (List ExecutionRecord × Stop) EngineError)
    → Evolves r r'
    → EvolvedWalk rs rest
    → EvolvedWalk (r ∷ rs) (behind r' rest)
behind-Evolved r r' rs (ok (ss, stop)) h k = (h, k)
behind-Evolved r r' rs (fail e) h k = tt

visit-Evolved :
    (kind : RecordKind) (loop : Option LoopScope) (r : ExecutionRecord) (rs : List ExecutionRecord)
    (rest : Result (List ExecutionRecord × Stop) EngineError)
    → r.status ≡ RecordStatus.pending
    → EvolvedWalk rs rest
    → EvolvedWalk (r ∷ rs) (visit kind loop r rs rest)
visit-Evolved RecordKind.human loop r rs rest e k = (moved r e reach, Evolved-refl rs)
visit-Evolved RecordKind.agent loop r rs rest e k = (Evolves-refl r, Evolved-refl rs)
visit-Evolved RecordKind.loop_end none r rs rest e k = tt
visit-Evolved RecordKind.loop_end (some loop) r rs rest e k =
    elim (Bool-cases (loop.iteration == loop.max)) [
      | inl q ↦ rw q (moved r e exhaust, Evolved-refl rs)
      | inr q ↦ rw q (behind-Evolved r _ rs rest (moved r e pass) k)
    ]

walk-Evolved : (rs : List ExecutionRecord) → EvolvedWalk rs (walk rs)
unfolding walk
walk-Evolved [] = tt
walk-Evolved (r ∷ rs) = elim (Bool-cases (is_pending r)) [
  | inl q ↦
      rw q
        (visit-Evolved r.kind (get_last? r.loops) r rs (walk rs) (ground arith) (walk-Evolved rs))
  | inr q ↦ rw q (behind-Evolved r r rs (walk rs) (Evolves-refl r) (walk-Evolved rs))
]

conclude_records : (s : EngineState) (stop : Stop) → (conclude s stop).records ≡ s.records
unfolding pause
conclude_records s (Stop.at_human p) = refl
conclude_records s Stop.at_agent = refl
conclude_records s (Stop.exhausted l) = refl
conclude_records s Stop.at_end = refl

-- Only the records change, and these by the walk.
abbrev pub Grows : List ExecutionRecord → Result EngineState EngineError → Type 0
Grows rs = OnOk (λ t. Evolved rs t.records)

pub advance-Grows : (s : EngineState) → Grows s.records (advance s)
unfolding advance
advance-Grows s =
    OnOk-bind (λ out. Evolved s.records out.0) _ (walk s.records) _ (walk-Evolved s.records)
      λ out h. rw (conclude_records _ out.1) h

skip_loop-Evolved : (loop : LoopScope) (rs : List ExecutionRecord) → Evolved rs (skip_loop loop rs)
skip_loop-Evolved loop rs =
    update_where-Evolved (λ r. is_pending r && in_loop loop r) (set_status RecordStatus.skipped) rs
      (All-of (λ r h. moved r {s = RecordStatus.pending} (ground arith) skip) rs)

close_for-Evolved :
    (r : ExecutionRecord) (loop : Option LoopScope) (later rs : List ExecutionRecord)
    → Evolved rs (close_for r loop later rs)
unfolding close_for
close_for-Evolved r none later rs = Evolved-refl rs
close_for-Evolved r (some loop) later rs = elim (Bool-cases (succeeds r)) [
  | inl q ↦ elim (Bool-cases (has_role "implementor" r && any (awaits_review loop) later)) [
    | inl w ↦ rw (q, w) (Evolved-refl rs)
    | inr w ↦ rw (q, w) (skip_loop-Evolved loop rs)
  ]
  | inr q ↦ rw q (Evolved-refl rs)
]

close_at-Evolved : (i : ℕ) (rs : List ExecutionRecord) → Evolved rs (close_at i rs)
unfolding close_at
close_at-Evolved i rs = elim (Option-cases (get_elem? rs i)) [
  | inl e ↦ rw (e, close_at) (Evolved-refl rs)
  | inr (r, e) ↦ rw (e, close_at) (close_for-Evolved r (get_last? r.loops) (drop (suc i) rs) rs)
]

close_each-Evolved : (is : List ℕ) (rs : List ExecutionRecord) → Evolved rs (close_each is rs)
unfolding close_each
close_each-Evolved [] rs = Evolved-refl rs
close_each-Evolved (i ∷ is) rs =
    Evolved-trans rs (close_at i rs) _ (close_at-Evolved i rs)
      (close_each-Evolved is (close_at i rs))

pub close_loops-Evolved :
    (batch : Option String) (rs : List ExecutionRecord) → Evolved rs (close_loops batch rs)
unfolding close_loops
close_loops-Evolved batch rs =
    elim (Bool-cases (any changes_requested (filter (in_batch batch) rs))) [
      | inl e ↦ rw e (Evolved-refl rs)
      | inr e ↦ rw e (close_each-Evolved (places batch 0 rs) rs)
    ]

can_begin :
    (first : ExecutionRecord) (rs : List ExecutionRecord)
    → cannot_begin first rs ≡ false
    → any (has_started first) rs ≡ false
can_begin first rs h = ground arith

sibling_pending :
    (first r : ExecutionRecord) (b : String)
    → first.batch ≡ b
    → has_started first r ≡ false
    → in_batch (some b) r ≡ true
    → is_pending r ≡ true
sibling_pending first r b e h k = ground (arith, ap (λ c. str_eq r.batch c) e)

-- Every record of the batch that may begin is pending.
pub batch_to_begin-pending :
    (rs : List ExecutionRecord) (b : String)
    → batch_to_begin rs ≡ some b
    → All (λ r. in_batch (some b) r ≡ true → is_pending r ≡ true) rs
unfolding batch_to_begin
batch_to_begin-pending rs b h = elim (Option-cases (find is_pending rs)) [
  | inl e ↦ absurd (none-ne-some b (rw (e, batch_to_begin) at h))
  | inr (first, e) ↦
      let h' = rw (e, batch_to_begin) at h in
      elim (Bool-cases (cannot_begin first rs)) [
        | inl q ↦ absurd (none-ne-some b (rw q at h'))
        | inr q ↦
            All-map (λ r k. sibling_pending first r b (some-injective _ _ (rw q at h')) k) rs
              (any-false (has_started first) rs (can_begin first rs q))
      ]
]

pub begin_batch-Grows : (s : EngineState) → Grows s.records (begin_batch s)
unfolding begin_batch
begin_batch-Grows s = elim (Bool-cases (is_ready s.status)) [
  | inr e ↦ rw e tt
  | inl e ↦ rw e (elim (Option-cases (batch_to_begin s.records)) [
    | inl n ↦ rw n tt
    | inr (b, n) ↦ rw n (
        update_where-Evolved _ (set_status RecordStatus.running) s.records (
          All-map {P = λ r. in_batch (some b) r ≡ true → is_pending r ≡ true}
            (λ r h k. moved r {s = RecordStatus.pending} (ground (arith, h k)) start) s.records
            (batch_to_begin-pending s.records b n)))
  ])
]

reported : (st : ReportStatus) → Move RecordStatus.running (status_of st)
reported ReportStatus.completed = finish
reported ReportStatus.blocked = break_off
reported ReportStatus.needs_human = ask

settle_record-Evolves :
    (o : Option WorkflowOutcome) (error : Option String) (r : ExecutionRecord)
    → r.status ≡ RecordStatus.running
    → Evolves r (settle_record o error r)
unfolding topology
settle_record-Evolves none error r h = record { same = refl; life = rw h (next break_off here) }
settle_record-Evolves (some o) error r h = elim (Bool-cases (is_truthy error)) [
  | inl e ↦ rw e (record { same = refl; life = rw h (next break_off here) })
  | inr e ↦ rw e (record { same = refl; life = rw h (next (reported o.status) here) })
]

running_of :
    (s : EngineState) (r : ExecutionRecord)
    → is_inactive s r ≡ false
    → r.status ≡ RecordStatus.running
running_of s r h = ground arith

pub record_outcome-Grows :
    (s : EngineState) (id : String) (o : Reported) (error : Option String)
    → Grows s.records (record_outcome s id o error)
unfolding record_outcome
record_outcome-Grows s id o error = elim (Option-cases (find (has_id id) s.records)) [
  | inl e ↦ rw (e, record_outcome) tt
  | inr (r, e) ↦ elim (Bool-cases (is_inactive s r)) [
    | inl q ↦ rw (e, record_outcome, q) tt
    | inr q ↦
        rw (e, record_outcome, q)
          (update_first-Evolved (has_id id) (settle_record (parse_outcome o) error) s.records r e
            (settle_record-Evolves _ error r (running_of s r q)))
  ]
]
