-- ===== src/Engine/Continue.antt =====
-- core/engine.ts: what checking and continuing do to the records, one lemma for each.
use d3r.Base.{
  true, ◌≡◌, refl, List, [], ◌∷◌, inl, inr, find, arith, Bool-cases, Option-cases, any, not, all,
}
use d3r.Base.Outcome.{ok, ◌>>=◌, OnOk, OnOk-map, OnOk-bind, OnOk-then}
use d3r.Engine.State.{RecordStatus, ExecutionRecord, EngineState, set_status}
use d3r.Engine.Transition.{is_active}
use d3r.Engine.Settle.{interrupt_message}
use d3r.Engine.Checkpoint.{
  topology, breaks_schema, loop_ok, parse_stored, parse_record, parse_records, parse_schema,
  validate, parse_engine_state,
}
use d3r.Engine.Resume.{
  not_interrupted_here, not_reported_here, not_blocked_here, unreported, Held, is_held, rerun,
  check_resumable, restarted, resume_interrupted_batch, resume_reported_batch,
  restart_blocked_batch, restore_engine,
}
use d3r.Engine.Lifecycle.{
  Move, resume_waiting, resume_interrupted, restart, here, next, Evolves, Evolved, Evolved-trans,
  update_where-Evolved, All-of,
}
use d3r.Engine.Steps.{Grows, moved}
use d3r.Engine.Settlement.{interrupt_engine-Evolved}

parse_record-Evolves : (r : ExecutionRecord) → OnOk (Evolves r) (parse_record r)
unfolding parse_record topology
parse_record-Evolves r = elim (Bool-cases (not (all loop_ok r.loops))) [
  | inl q ↦ rw q tt
  | inr q ↦ elim (Option-cases (parse_stored r.outcome)) [
    | inl e ↦ rw (q, e, parse_record) tt
    | inr (o, e) ↦ rw (q, e, parse_record) (record { same = refl; life = here })
  ]
]

parse_records-Evolved : (rs : List ExecutionRecord) → OnOk (Evolved rs) (parse_records rs)
unfolding parse_records
parse_records-Evolved [] = tt
parse_records-Evolved (r ∷ rs) =
    OnOk-bind (Evolves r) (Evolved (r ∷ rs)) (parse_record r) _ (parse_record-Evolves r) λ r' h.
      OnOk-bind (Evolved rs) (Evolved (r ∷ rs)) (parse_records rs) _ (parse_records-Evolved rs)
        λ rs' hs. (h, hs)

parse_schema-Grows : (s : EngineState) → Grows s.records (parse_schema s)
unfolding parse_schema
parse_schema-Grows s = elim (Bool-cases (breaks_schema s)) [
  | inl q ↦ rw q tt
  | inr q ↦ rw q (
      OnOk-bind (Evolved s.records) (λ t. Evolved s.records t.records) (parse_records s.records) _
        (parse_records-Evolved s.records) (λ rs h. h))
]

pub parse-Grows : (s : EngineState) → Grows s.records (parse_engine_state s)
unfolding parse_engine_state
parse-Grows s =
    OnOk-bind (λ t. Evolved s.records t.records) _ (parse_schema s) _ (parse_schema-Grows s)
      λ t h. OnOk-then (λ u. Evolved s.records u.records) (validate t) (ok t) h

held_status : Held → RecordStatus
held_status Held.interrupted = RecordStatus.interrupted
held_status Held.waiting = RecordStatus.waiting
held_status Held.blocked = RecordStatus.blocked

status_of_held :
    (status : Held) (r : ExecutionRecord) → is_held status r ≡ true → r.status ≡ held_status status
unfolding held_status
status_of_held Held.interrupted r h = ground arith
status_of_held Held.waiting r h = ground arith
status_of_held Held.blocked r h = ground arith

back_to_running : (status : Held) → Move (held_status status) RecordStatus.running
unfolding held_status
back_to_running Held.interrupted = resume_interrupted
back_to_running Held.waiting = resume_waiting
back_to_running Held.blocked = restart

running-Evolves :
    (status : Held) (r : ExecutionRecord)
    → is_held status r ≡ true
    → Evolves r (set_status RecordStatus.running r)
running-Evolves status r h = moved r (status_of_held status r h) (back_to_running status)

rerun-Evolves :
    (status : Held) (r : ExecutionRecord) → is_held status r ≡ true → Evolves r (rerun r)
unfolding topology
rerun-Evolves status r h = record {
  same = refl;
  life = rw (status_of_held status r h) (next (back_to_running status) here);
}

module _ (status : Held) (change : ExecutionRecord → ExecutionRecord)
    (h : (r : ExecutionRecord) → is_held status r ≡ true → Evolves r (change r)) where
  restarted-Grows : (s : EngineState) → Grows s.records (restarted status change s)
  unfolding restarted
  restarted-Grows s = elim (Option-cases (find (is_held status) s.records)) [
    | inl e ↦ rw (e, restarted) tt
    | inr (r, e) ↦
        rw (e, restarted)
          (update_where-Evolved (is_held status) change s.records (All-of h s.records))
  ]

  -- A batch that is run again, once more checked.
  rechecked-Grows :
      (rs : List ExecutionRecord) (t : EngineState)
      → Evolved rs t.records
      → Grows rs (restarted status change t >>= parse_engine_state)
  rechecked-Grows rs t k =
      OnOk-bind (λ u. Evolved rs u.records) (λ u. Evolved rs u.records) (restarted status change t)
        parse_engine_state
        (OnOk-map (λ u. Evolved t.records u.records) (λ u. Evolved rs u.records)
          (restarted status change t) (λ u q. Evolved-trans rs t.records u.records k q)
          (restarted-Grows t))
        λ u q.
          OnOk-map (λ v. Evolved u.records v.records) (λ v. Evolved rs v.records)
            (parse_engine_state u) (λ v w. Evolved-trans rs u.records v.records q w) (parse-Grows u)

pub resume_interrupted-Grows : (s : EngineState) → Grows s.records (resume_interrupted_batch s)
unfolding resume_interrupted_batch
resume_interrupted-Grows s =
    OnOk-bind (λ t. Evolved s.records t.records) (λ t. Evolved s.records t.records)
      (parse_engine_state s) _ (parse-Grows s)
      λ t h. elim (Bool-cases (not_interrupted_here t)) [
        | inl q ↦ rw q tt
        | inr q ↦ rw q (
            OnOk-then (λ u. Evolved s.records u.records) (check_resumable t Held.interrupted) _
              (rechecked-Grows Held.interrupted (set_status RecordStatus.running)
                (running-Evolves Held.interrupted) s.records t h))
      ]

pub restart_blocked-Grows : (s : EngineState) → Grows s.records (restart_blocked_batch s)
unfolding restart_blocked_batch
restart_blocked-Grows s =
    OnOk-bind (λ t. Evolved s.records t.records) (λ t. Evolved s.records t.records)
      (parse_engine_state s) _ (parse-Grows s)
      λ t h. elim (Bool-cases (not_blocked_here t)) [
        | inl q ↦ rw q tt
        | inr q ↦ rw q (
            OnOk-then (λ u. Evolved s.records u.records) (check_resumable t Held.blocked) _
              (rechecked-Grows Held.blocked rerun (rerun-Evolves Held.blocked) s.records t h))
      ]

pub resume_reported-Grows : (s : EngineState) → Grows s.records (resume_reported_batch s)
unfolding resume_reported_batch
resume_reported-Grows s =
    OnOk-bind (λ t. Evolved s.records t.records) (λ t. Evolved s.records t.records)
      (parse_engine_state s) _ (parse-Grows s)
      λ t h. elim (Bool-cases (not_reported_here t)) [
        | inl q ↦ rw q tt
        | inr q ↦ rw q (
            OnOk-then (λ u. Evolved s.records u.records) (check_resumable t Held.waiting) _
              (elim (Bool-cases (any unreported t.records)) [
                | inl w ↦ rw w tt
                | inr w ↦
                    rw w (
                      rechecked-Grows Held.waiting rerun (rerun-Evolves Held.waiting) s.records t h)
              ]))
      ]

pub restore-Grows : (s : EngineState) → Grows s.records (restore_engine s)
unfolding restore_engine
restore-Grows s =
    OnOk-bind (λ t. Evolved s.records t.records) (λ t. Evolved s.records t.records)
      (parse_engine_state s) _ (parse-Grows s)
      λ t h. elim (Bool-cases (is_active t.status)) [
        | inl q ↦
            rw q
              (Evolved-trans s.records t.records _ h (interrupt_engine-Evolved t interrupt_message))
        | inr q ↦ rw q h
      ]
