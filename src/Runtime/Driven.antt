-- ===== src/Runtime/Driven.antt =====
-- cli/src/workflow-runtime.ts, `drive`: the command of the engine while its batches run.
use d3r.Base.{
  Bool, true, false, not, ◌||◌, refl, ◌∙◌, List, [], ◌∷◌, ◌++◌, filter, inl, inr, Bool-cases,
  if◌then◌else◌,
}
use d3r.Base.Outcome.{ok, fail, OnOk-if}
use d3r.Engine.State.{ExecutionRecord, EngineState, is_running}
use d3r.Engine.Transition.{Next, begin_batch, record_outcome, is_ready}
use d3r.Engine.Settle.{settle_batch}
use d3r.Runtime.Turn.{Turned, run_role}
use d3r.Runtime.Drive.{
  Work, Done, goes_on, thrown, state_of, is_thrown, put_engine, finish_role, Round, is_going,
  Driven, paused, broken, unfinished, end_role, end_all, begin_if_ready, is_aborted, settle_round,
  run_batch, run_round, drive_loop, role_of, drop_row, row_of, as_report,
}
use d3r.Runtime.Commands.{Named, Keeps, begin_batch-Keeps, record_outcome-Keeps, settle_batch-Keeps}

abbrev pub work_of : {C : Type 0} → Driven C → Work C
work_of (paused w) = w
work_of (broken w) = w
work_of (unfinished w) = w

begun-Keeps : (e : EngineState) → Keeps e (begin_if_ready e)
unfolding begin_if_ready
begun-Keeps e =
    OnOk-if (Named e) (is_ready e.status) (begin_batch e) (ok e) (begin_batch-Keeps e) (λ _. refl)

module _ {C : Type 0} where
  abbrev Stays : EngineState → Work C → Type 0
  Stays e w = Named e w.engine

  put_engine-Stays :
      (e : EngineState) (w : Work C) (m : Next)
      → Stays e w
      → Keeps w.engine m
      → Stays e (state_of (put_engine w m))
  put_engine-Stays e w (ok t) h k = k ∙ h
  put_engine-Stays e w (fail x) h k = h

  either-Stays :
      (e : EngineState) (b : Bool) (x y : Done (Work C))
      → Stays e (state_of x)
      → Stays e (state_of y)
      → Stays e (state_of (if b then x else y))
  either-Stays e true x y h k = h
  either-Stays e false x y h k = k

  finish_role-Stays :
      (e : EngineState) (r : ExecutionRecord) (turned : Turned C) (w : Work C)
      → Stays e w
      → Stays e (state_of (finish_role r turned w))
  unfolding finish_role
  finish_role-Stays e r turned w h =
      let kept : Work C = record w {
        continuations = drop_row r.id w.continuations ++ row_of r.id turned.retained;
      } in
      let o = as_report turned.result.outcome in
      either-Stays e turned.recorded
        (put_engine kept (record_outcome w.engine r.id o turned.result.error)) (goes_on kept)
        (put_engine-Stays e kept (record_outcome w.engine r.id o turned.result.error) h
          (record_outcome-Keeps w.engine r.id o turned.result.error))
        h

module _ {C : Type 0} (orchestrated : Bool) where
  end_all-Stays :
      (round : Round C) (rs : List ExecutionRecord) (e : EngineState) (w : Work C)
      → Stays e w
      → Stays e (state_of (end_all orchestrated round rs w))
  unfolding end_all end_role
  end_all-Stays round [] e w h = h
  end_all-Stays round (r ∷ rs) e w h =
      let done = end_role orchestrated round r w in
      let rest = end_all orchestrated round rs (state_of done) in
      let k =
        end_all-Stays round rs e (state_of done)
          (finish_role-Stays e r (run_role (role_of r) orchestrated (round.attempt r.id)) w h) in
      either-Stays e (is_thrown done || not (round.delivered r.id)) (thrown (state_of rest)) rest k
        k

  settle_round-Stays :
      (round : Round C) (batch : List ExecutionRecord) (e : EngineState) (done : Done (Work C))
      → Stays e (state_of done)
      → Stays e (state_of (settle_round orchestrated round batch done))
  unfolding settle_round
  settle_round-Stays round batch e (thrown w) h = h
  settle_round-Stays round batch e (goes_on w) h =
      either-Stays e (is_aborted orchestrated round batch) (thrown w)
        (put_engine w (settle_batch w.engine)) h
        (put_engine-Stays e w (settle_batch w.engine) h (settle_batch-Keeps w.engine))

  run_batch-Stays :
      (round : Round C) (e : EngineState) (done : Done (Work C))
      → Stays e (state_of done)
      → Stays e (state_of (run_batch orchestrated round done))
  unfolding run_batch
  run_batch-Stays round e (thrown w) h = h
  run_batch-Stays round e (goes_on w) h =
      let batch = filter is_running w.engine.records in
      let done = end_all orchestrated round (round.order batch) w in
      either-Stays e round.planned (settle_round orchestrated round batch done) (thrown w)
        (settle_round-Stays round batch e done (end_all-Stays round (round.order batch) e w h)) h

  run_round-Stays :
      (round : Round C) (e : EngineState) (w : Work C)
      → Stays e w
      → Stays e (state_of (run_round orchestrated round w))
  unfolding run_round
  run_round-Stays round e w h =
      let settled = run_batch orchestrated round (put_engine w (begin_if_ready w.engine)) in
      let k =
        run_batch-Stays round e (put_engine w (begin_if_ready w.engine))
          (put_engine-Stays e w (begin_if_ready w.engine) h (begun-Keeps w.engine)) in
      either-Stays e round.aborted_before (thrown w) _ h (
        either-Stays e (is_thrown settled || not round.planned_after) (thrown (state_of settled))
          settled k k)

  pub drive_loop-Stays :
      (rounds : List (Round C)) (e : EngineState) (w : Work C)
      → Stays e w
      → Stays e (work_of (drive_loop orchestrated rounds w))
  unfolding drive_loop
  drive_loop-Stays [] e w h = elim (Bool-cases (is_going w.engine.status)) [
    | inl q ↦ rw q h
    | inr q ↦ rw q h
  ]
  drive_loop-Stays (round ∷ rounds) e w h =
      let next = run_round orchestrated round w in
      let k = run_round-Stays round e w h in
      elim (Bool-cases (is_going w.engine.status)) [
        | inr q ↦ rw q h
        | inl q ↦ elim (Bool-cases (is_thrown next)) [
          | inl t ↦ rw (q, t) k
          | inr t ↦ rw (q, t) (drive_loop-Stays rounds e (state_of next) k)
        ]
      ]
