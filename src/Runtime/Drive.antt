-- ===== src/Runtime/Drive.antt =====
-- cli/src/workflow-runtime.ts: what a role that ends does to the session, and `drive`, which runs one
-- batch after the other. What the environment does while a batch runs is a `Round`.
use Prim.Native.String.{String}
use d3r.Base.{
  Bool, true, false, not, ◌||◌, List, [], ◌∷◌, ◌++◌, Option, none, some, str_eq, any, filter,
  if◌then◌else◌,
}
use d3r.Base.Outcome.{ok, fail}
use d3r.Engine.State.{WorkflowOutcome, EngineStatus, ExecutionRecord, EngineState, is_running}
use d3r.Engine.Transition.{Next, Reported, malformed, report, begin_batch, record_outcome, is_ready}
use d3r.Engine.Settle.{settle_batch}
use d3r.Cli.Continuations.{WorkflowContinuation}
use d3r.Runtime.Turn.{Turned, run_role, is_cut_off}
use d3r.Runtime.Events.{Attempt}

-- The parts of a session that its roles change.
pub record Work (C : Type 0) : Type 0 where
  pub engine : EngineState
  pub continuations : List (WorkflowContinuation C)

-- `record.role!`, as it shows in a text.
abbrev pub role_of : ExecutionRecord → String
role_of r = elim r.role [ none ↦ "undefined" | some name ↦ name ]

abbrev pub as_report : Option WorkflowOutcome → Reported
as_report none = malformed
as_report (some o) = report o

-- What is done under a signal and may throw keeps what it did before.
pub data Done (W : Type 0) : Type 0 where
  goes_on thrown : W → Done W

abbrev pub state_of : {W : Type 0} → Done W → W
state_of (goes_on w) = w
state_of (thrown w) = w

abbrev pub is_thrown : {W : Type 0} → Done W → Bool
is_thrown (goes_on w) = false
is_thrown (thrown w) = true

abbrev pub drop_row :
    {C : Type 0} → String → List (WorkflowContinuation C) → List (WorkflowContinuation C)
drop_row id = filter (λ row. not (str_eq row.record_id id))

abbrev pub row_of : {C : Type 0} → String → Option C → List (WorkflowContinuation C)
row_of id none = []
row_of id (some saved) = record { record_id = id; checkpoint = saved } ∷ []

module _ {C : Type 0} where
  abbrev pub put_engine : Work C → Next → Done (Work C)
  put_engine w (ok e) = goes_on (record w { engine = e })
  put_engine w (fail error) = thrown w

  unfoldable pub finish_role : ExecutionRecord → Turned C → Work C → Done (Work C)
  unfolding record_outcome
  finish_role r turned w =
      let kept : Work C = record w {
        continuations = drop_row r.id w.continuations ++ row_of r.id turned.retained;
      } in
      if turned.recorded
      then put_engine kept
          (record_outcome w.engine r.id (as_report turned.result.outcome) turned.result.error)
      else goes_on kept

-- What the environment does from one barrier to the next: the signal at the start and at the end, whether
-- the client takes the plans, in which order the roles end, what happens to each, and whether the client
-- takes the last message about it.
pub record Round (C : Type 0) : Type 0 where
  pub aborted_before : Bool
  pub planned : Bool
  pub order : List ExecutionRecord → List ExecutionRecord
  pub attempt : String → Attempt C
  pub delivered : String → Bool
  pub aborted_after : Bool
  pub planned_after : Bool

abbrev pub is_going : EngineStatus → Bool
is_going EngineStatus.ready = true
is_going EngineStatus.running = true
is_going _ = false

pub data Driven (C : Type 0) : Type 0 where
  paused broken unfinished : Work C → Driven C

unfoldable pub begin_if_ready : EngineState → Next
unfolding begin_batch
begin_if_ready e = if is_ready e.status then begin_batch e else ok e

module _ {C : Type 0} (orchestrated : Bool) where
  unfoldable pub end_role : Round C → ExecutionRecord → Work C → Done (Work C)
  unfolding finish_role run_role
  end_role round r = finish_role r (run_role (role_of r) orchestrated (round.attempt r.id))

  -- All roles of the batch end, also when one of them has failed.
  unfoldable pub end_all : Round C → List ExecutionRecord → Work C → Done (Work C)
  unfolding end_role
  end_all round [] w = goes_on w
  end_all round (r ∷ rs) w =
      let done = end_role round r w in
      let rest = end_all round rs (state_of done) in
      if is_thrown done || not (round.delivered r.id) then thrown (state_of rest) else rest

  abbrev pub is_aborted : Round C → List ExecutionRecord → Bool
  is_aborted round batch = round.aborted_after || any (λ r. is_cut_off (round.attempt r.id)) batch

  -- The barrier behind a batch.
  unfoldable pub settle_round : Round C → List ExecutionRecord → Done (Work C) → Done (Work C)
  unfolding settle_batch
  settle_round round batch (thrown w) = thrown w
  settle_round round batch (goes_on w) =
      if is_aborted round batch then thrown w else put_engine w (settle_batch w.engine)

  unfoldable pub run_batch : Round C → Done (Work C) → Done (Work C)
  unfolding settle_round end_all
  run_batch round (thrown w) = thrown w
  run_batch round (goes_on w) =
      let batch = filter is_running w.engine.records in
      if round.planned
      then settle_round round batch (end_all round (round.order batch) w)
      else thrown w

  -- One turn of the loop.
  unfoldable pub run_round : Round C → Work C → Done (Work C)
  unfolding run_batch begin_if_ready
  run_round round w =
      let settled = run_batch round (put_engine w (begin_if_ready w.engine)) in
      if round.aborted_before
      then thrown w
      else if is_thrown settled || not round.planned_after
      then thrown (state_of settled)
      else settled

  -- The loop, for as many rounds as are given.
  unfoldable pub drive_loop : List (Round C) → Work C → Driven C
  unfolding run_round
  drive_loop [] w = if is_going w.engine.status then unfinished w else paused w
  drive_loop (round ∷ rounds) w =
      let next = run_round round w in
      let rest = drive_loop rounds (state_of next) in
      if not (is_going w.engine.status)
      then paused w
      else if is_thrown next
      then broken (state_of next)
      else rest
