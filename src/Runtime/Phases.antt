-- ===== src/Runtime/Phases.antt =====
-- cli/src/workflow-runtime.ts, `drive` and `runPhase`: the phase tools of an orchestrator. The text of a
-- reply that describes the state is left as that: `with_state`.
use Prim.Native.String.{String}
use d3r.Base.{ℕ, zero, suc, ◌+◌, Bool, true, false, List, [], ◌∷◌, none, some, any, if◌then◌else◌}
use d3r.Base.Outcome.{ok, fail}
use d3r.Engine.State.{EngineState, is_running}
use d3r.Engine.Transition.{Next, is_active}
use d3r.Engine.Settle.{settle_batch, interrupt_engine, interrupt_message}
use d3r.Runtime.Graph.{is_completed_status}
use d3r.Runtime.Drive.{Work, Round, Driven, paused, broken, unfinished, drive_loop}
use d3r.Runtime.Load.{load}
use d3r.Runtime.Session.{Session}

-- What the environment does during a drive: whether the client takes the first plan, and every round;
-- and of the last message of a session that is not orchestrated, the summary and whether the client takes
-- it, or the signal is aborted before.
pub record Weather (C : Type 0) : Type 0 where
  pub announced : Bool
  pub rounds : ℕ → Round C
  pub summary : String
  pub summarized : Bool
  pub said : Bool

abbrev pub take_rounds : {C : Type 0} → ℕ → ℕ → (ℕ → Round C) → List (Round C)
take_rounds zero first rounds = []
take_rounds (suc n) first rounds = rounds first ∷ take_rounds n (suc first) rounds

-- A session behind a step that may throw.
pub data After (T : Type 0) : Type 0 where
  returned threw : T → After T

module _ {C S : Type 0} where
  abbrev pub with_work : Session C S → Work C → Session C S
  with_work s w = record s { engine = some w.engine; continuations = w.continuations }

  abbrev pub say_if : Bool → Session C S → After (Session C S)
  say_if true s = returned s
  say_if false s = threw s

  module _ (orchestrated : Bool) (weather : Weather C) where
    -- What `drive` does when the loop is over.
    unfoldable pub conclude_drive : EngineState → Session C S → After (Session C S)
    conclude_drive e s =
        if orchestrated
        then returned (if is_completed_status e.status then record s { phase = "routing" } else s)
        else if is_completed_status e.status
        then if weather.summarized
          then say_if weather.said (record s { phase = "routing"; summary = some weather.summary })
          else threw (record s { phase = "routing" })
        else say_if weather.said s

    unfoldable pub end_drive : Session C S → Driven C → After (Session C S)
    unfolding conclude_drive
    end_drive s (paused w) = conclude_drive w.engine (with_work s w)
    end_drive s (broken w) = threw (with_work s w)
    end_drive s (unfinished w) = threw (with_work s w)

    unfoldable pub drive : EngineState → Session C S → After (Session C S)
    unfolding end_drive drive_loop
    drive e s =
        if weather.announced
        then end_drive s (
            drive_loop orchestrated (take_rounds (load e + 1) 0 weather.rounds)
              (record { engine = e; continuations = s.continuations }))
        else threw (record s { engine = some e })

  -- What `runPhase` does with an error of the drive.
  abbrev pub take_settled : Session C S → Next → Session C S
  take_settled s (ok e) =
      if is_completed_status e.status
      then record s { engine = some e; phase = "routing" }
      else record s { engine = some e }
  take_settled s (fail x) = s

  unfoldable pub recover : Session C S → Session C S
  unfolding interrupt_engine settle_batch
  recover s = elim s.engine [
    | none ↦ s
    | some e ↦
        if is_active e.status
        then if any is_running e.records
          then record s { engine = some (interrupt_engine e interrupt_message) }
          else take_settled s (settle_batch e)
        else s
  ]

-- `RuntimeToolResult`
pub data Reply : Type 0 where
  says : (is_error : Bool) → String → Reply
  with_state : (is_error : Bool) → (before : String) → Reply

-- `runPhase` returns a reply or throws.
pub data Phased (T : Type 0) : Type 0 where
  replied : T → Reply → Phased T
  failed : T → Phased T
