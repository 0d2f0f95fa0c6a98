-- ===== src/Runtime/Belongs.antt =====
-- cli/src/workflow-runtime.ts, `runPhase`: the phase that unfinished work belongs to.
use Prim.Native.String.{String}
use d3r.Base.{
  Bool, true, false, not, ◌&&◌, ◌||◌, ◌≡◌, refl, sym, List, Option, none, some, inl, inr,
  Option-cases, if◌then◌else◌, str_eq, any, ◌+◌,
}
use d3r.Base.Outcome.{ok, fail}
use d3r.Engine.State.{EngineState, is_running}
use d3r.Engine.Transition.{Next, is_active}
use d3r.Engine.Settle.{settle_batch, interrupt_engine, interrupt_message}
use d3r.Runtime.Events.{is_there}
use d3r.Runtime.Graph.{is_completed_status}
use d3r.Runtime.Drive.{Work, Driven, paused, broken, unfinished, drive_loop}
use d3r.Runtime.Load.{load}
use d3r.Runtime.Session.{Output, Session, archive_workflow}
use d3r.Runtime.Phases.{
  Weather, After, threw, with_work, take_rounds, conclude_drive, end_drive, drive, take_settled,
  recover, Phased,
}
use d3r.Runtime.Tasks.{run_drive, launch}
use d3r.Runtime.Routing.{session_of}
use d3r.Runtime.Commands.{Named, Keeps, settle_batch-Keeps, interrupt_engine-Keeps}
use d3r.Runtime.Driven.{work_of, drive_loop-Stays}

pub or_true : (b : Bool) → (b || true) ≡ true
or_true true = refl
or_true false = refl

and_not : (b c : Bool) → c ≡ true → (b && not c) ≡ false
and_not true c h = rw h refl
and_not false c h = refl

pub owned : (b c : Bool) → b ≡ false → (not b && not c) ≡ false → c ≡ true
owned b true e h = refl
owned true false e h = sym e
owned false false e h = sym h

module _ {C S : Type 0} where
  abbrev pub owns : Session C S → EngineState → Bool
  owns s e = is_there s.standalone_role || str_eq s.phase e.command

  -- Work that is not finished, and that `restore` would refuse.
  abbrev pub is_stray : Session C S → Option EngineState → Bool
  is_stray s none = false
  is_stray s (some e) = not (is_completed_status e.status) && not (owns s e)

  abbrev pub Fits : Session C S → Type 0
  Fits s = is_stray s s.engine ≡ false

  abbrev pub Settles : Phased (Session C S) → Type 0
  Settles p = Fits (session_of p)

  pub Settles-if :
      (b : Bool) (x y : Phased (Session C S))
      → Settles x
      → (b ≡ false → Settles y)
      → Settles (if b then x else y)
  Settles-if true x y h k = h
  Settles-if false x y h k = k refl

  pub owns-Fits :
      (s : Session C S) (e : EngineState) → owns s e ≡ true → is_stray s (some e) ≡ false
  owns-Fits s e h = and_not (not (is_completed_status e.status)) (owns s e) h

  pub owns-Named :
      (s : Session C S) (e t : EngineState) → owns s e ≡ true → Named e t → owns s t ≡ true
  owns-Named s e t h k = rw k h

  Fits-if :
      (b : Bool) (x y : Session C S)
      → (b ≡ true → Fits x)
      → (b ≡ false → Fits y)
      → Fits (if b then x else y)
  Fits-if true x y h k = h refl
  Fits-if false x y h k = k refl

  completed-Fits :
      (s : Session C S) (e : EngineState)
      → is_completed_status e.status ≡ true
      → is_stray s (some e) ≡ false
  completed-Fits s e h = rw h refl

  take_settled-Fits :
      (s : Session C S) (e : EngineState) (m : Next)
      → owns s e ≡ true
      → Keeps e m
      → Fits (take_settled (record s { engine = some e }) m)
  take_settled-Fits s e (fail x) h k = owns-Fits s e h
  take_settled-Fits s e (ok t) h k =
      Fits-if (is_completed_status t.status) _ _
        (completed-Fits (record s { engine = some t; phase = "routing" }) t)
        (λ _. owns-Fits s t (owns-Named s e t h k))

  recover-Fits :
      (s : Session C S) (e : EngineState)
      → owns s e ≡ true
      → Fits (recover (record s { engine = some e }))
  unfolding recover
  recover-Fits s e h =
      Fits-if (is_active e.status) _ _
        (λ _.
          Fits-if (any is_running e.records) _ _
            (λ _. owns-Fits s (interrupt_engine e interrupt_message) (
              owns-Named s e (interrupt_engine e interrupt_message) h
                (interrupt_engine-Keeps e interrupt_message)))
            (λ _. take_settled-Fits s e (settle_batch e) h (settle_batch-Keeps e)))
        (λ _. owns-Fits s e h)

  pub archive_workflow-engine :
      (stringify : List Output → String) (s : Session C S)
      → (archive_workflow stringify s).engine ≡ none
  unfolding archive_workflow
  archive_workflow-engine stringify s = elim (Option-cases s.engine) [
    | inl e ↦ rw (archive_workflow, e) e
    | inr (t, e) ↦ rw (archive_workflow, e) refl
  ]

  module _ (weather : Weather C) where
    conclude_drive-Fits :
        (s : Session C S) (e : EngineState) (w : Work C)
        → owns s e ≡ true
        → Named e w.engine
        → Settles (run_drive (conclude_drive true weather w.engine (with_work s w)))
    unfolding conclude_drive run_drive
    conclude_drive-Fits s e w h k =
        Fits-if (is_completed_status w.engine.status) _ _
          (completed-Fits (record (with_work s w) { phase = "routing" }) w.engine)
          (λ _. owns-Fits (with_work s w) w.engine (owns-Named s e w.engine h k))

    end_drive-Fits :
        (s : Session C S) (e : EngineState) (d : Driven C)
        → owns s e ≡ true
        → Named e (work_of d).engine
        → Settles (run_drive (end_drive true weather s d))
    unfolding end_drive run_drive
    end_drive-Fits s e (paused w) h k = conclude_drive-Fits s e w h k
    end_drive-Fits s e (broken w) h k =
        recover-Fits (with_work s w) w.engine (owns-Named s e w.engine h k)
    end_drive-Fits s e (unfinished w) h k =
        recover-Fits (with_work s w) w.engine (owns-Named s e w.engine h k)

    either_way :
        (b : Bool) (x y : After (Session C S))
        → Settles (run_drive x)
        → Settles (run_drive y)
        → Settles (run_drive (if b then x else y))
    either_way true x y h k = h
    either_way false x y h k = k

    pub launch-Fits :
        (e : EngineState) (s : Session C S) → owns s e ≡ true → Settles (launch weather e s)
    unfolding launch drive run_drive
    launch-Fits e s h =
        let entered : Session C S = record s { engine = some e; phase_used = true } in
        let driven =
          drive_loop true (take_rounds (load e + 1) 0 weather.rounds)
            (record { engine = e; continuations = s.continuations }) in
        either_way weather.announced (end_drive true weather entered driven) (threw entered)
          (end_drive-Fits entered e driven h (
            drive_loop-Stays true (take_rounds (load e + 1) 0 weather.rounds) e
              (record { engine = e; continuations = s.continuations }) refl))
          (recover-Fits entered e h)
