-- ===== src/Engine/Settlement.antt =====
-- core/engine.ts: what settling, answering and interrupting do to the records, one lemma for each.
use Prim.Native.String.{String}
use d3r.Base.{
  ◌&&◌, true, ◌≡◌, refl, Option, none, some, inl, inr, find, arith, Bool-cases, Option-cases,
}
use d3r.Base.Text.{is_blank}
use d3r.Base.Outcome.{OnOk-map, OnOk-bind, Result-cases}
use d3r.Engine.State.{RecordStatus, ExecutionRecord, PauseKind, EngineState, is_running, set_status}
use d3r.Engine.Advance.{pause, advance}
use d3r.Engine.Transition.{update_first, is_ready}
use d3r.Engine.Settle.{
  pause_between, settle_with, settle_batch, summary_of, failure_of, waits_for_human, answer_human,
  answer_mode, answer_for, mode_of, answer_checkpoint, interrupt_engine, is_unsettled, is_semi,
  refuses_answer, answer_record,
}
use d3r.Engine.Loops.{close_loops}
use d3r.Engine.Checkpoint.{topology}
use d3r.Engine.Lifecycle.{
  answer, interrupt, here, next, Evolves, Evolved, Evolved-refl, Evolved-trans,
  update_where-Evolved, update_first-Evolved, All-of, find-some,
}
use d3r.Engine.Steps.{Grows, moved, advance-Grows, close_loops-Evolved}

pub pause_between_records : (s : EngineState) → (pause_between s).records ≡ s.records
unfolding pause
pause_between_records s = elim (Bool-cases (is_semi s.mode && is_ready s.status)) [
  | inl e ↦ rw e refl
  | inr e ↦ rw e refl
]

pub settle_with-Grows :
    (blocked human : Option ExecutionRecord) (batch : Option String) (s : EngineState)
    → Grows s.records (settle_with blocked human batch s)
unfolding settle_with pause
settle_with-Grows (some b) human batch s = elim (Result-cases (failure_of b)) [
  | inl (m, e) ↦ rw e (Evolved-refl s.records)
  | inr (m, e) ↦ rw e tt
]
settle_with-Grows none (some h) batch s = elim (Result-cases (summary_of h)) [
  | inl (m, e) ↦ rw e (Evolved-refl s.records)
  | inr (m, e) ↦ rw e tt
]
settle_with-Grows none none batch s =
    let closed = close_loops batch s.records in
    OnOk-bind (λ t. Evolved closed t.records) _ (advance (record s { records = closed })) _
      (advance-Grows (record s { records = close_loops batch s.records }))
      λ t h.
        rw (pause_between_records t)
          (Evolved-trans s.records closed t.records (close_loops-Evolved batch s.records) h)

pub settle_batch-Grows : (s : EngineState) → Grows s.records (settle_batch s)
unfolding settle_batch
settle_batch-Grows s = elim (Bool-cases (is_unsettled s)) [
  | inl e ↦ rw e tt
  | inr e ↦ rw e (settle_with-Grows _ _ s.active_batch (record s { active_batch = none }))
]

pub waiting_of : (r : ExecutionRecord) → waits_for_human r ≡ true → r.status ≡ RecordStatus.waiting
waiting_of r h = ground arith

pub answer_record-Evolves :
    (text : String) (r : ExecutionRecord)
    → waits_for_human r ≡ true
    → Evolves r (answer_record text r)
unfolding topology
answer_record-Evolves text r h = record {
  same = refl;
  life = rw (waiting_of r h) (next answer here);
}

pub answer_human-Grows : (text : String) (s : EngineState) → Grows s.records (answer_human text s)
unfolding answer_human
answer_human-Grows text s = elim (Option-cases (find waits_for_human s.records)) [
  | inl e ↦ rw (e, answer_human) tt
  | inr (r, e) ↦
      let answered = update_first waits_for_human (answer_record text) s.records in
      rw (e, answer_human)
        (OnOk-map (λ t. Evolved answered t.records) (λ t. Evolved s.records t.records)
          (advance (record s { records = answered }))
          (λ t h.
            Evolved-trans s.records answered t.records
              (update_first-Evolved waits_for_human (answer_record text) s.records r e
                (answer_record-Evolves text r (find-some waits_for_human s.records r e)))
              h)
          (advance-Grows (record s { records = answered })))
]

pub answer_mode-Grows : (text : String) (s : EngineState) → Grows s.records (answer_mode text s)
unfolding answer_mode
answer_mode-Grows text s = elim (Option-cases (mode_of text)) [
  | inl e ↦ rw (e, answer_mode) tt
  | inr (m, e) ↦ rw (e, answer_mode) (advance-Grows (record s { mode = some m }))
]

pub answer_for-Grows :
    (kind : PauseKind) (text : String) (s : EngineState) → Grows s.records (answer_for kind text s)
unfolding answer_for
answer_for-Grows PauseKind.mode text s = answer_mode-Grows text s
answer_for-Grows PauseKind.human text s = answer_human-Grows text s
answer_for-Grows PauseKind.semi text s = advance-Grows s
answer_for-Grows _ text s = tt

pub answer_checkpoint-Grows :
    (s : EngineState) (text : String) → Grows s.records (answer_checkpoint s text)
unfolding answer_checkpoint
answer_checkpoint-Grows s text = elim (Option-cases s.pause) [
  | inl e ↦ rw (e, answer_checkpoint) tt
  | inr (p, e) ↦ elim (Bool-cases (refuses_answer s p.kind)) [
    | inl q ↦ rw (e, answer_checkpoint, q) tt
    | inr q ↦ elim (Bool-cases (is_blank text)) [
      | inl w ↦ rw (e, answer_checkpoint, q, w) tt
      | inr w ↦ rw (e, answer_checkpoint, q, w) (answer_for-Grows p.kind text s)
    ]
  ]
]

pub interrupt_engine-Evolved :
    (s : EngineState) (message : String) → Evolved s.records (interrupt_engine s message).records
unfolding interrupt_engine pause
interrupt_engine-Evolved s message =
    update_where-Evolved is_running (set_status RecordStatus.interrupted) s.records
      (All-of (λ r h. moved r {s = RecordStatus.running} (ground arith) interrupt) s.records)
