-- ===== src/Runtime/Once.antt =====
-- cli/src/workflow-runtime.ts, `runPhase`: an orchestrator's turn starts or continues work once.
use Prim.Native.String.{String}
use d3r.Base.{
  Bool, true, false, not, ◌||◌, ◌+◌, ◌≡◌, ◌≢◌, ◌⊎◌, refl, List, [], ◌∷◌, ◌++◌, Option, none, some,
  inl, inr, Option-cases, if◌then◌else◌, any,
}
use d3r.Base.Text.{◌<>◌}
use d3r.Base.Outcome.{Result, ok, fail}
use d3r.Engine.State.{Mode, Pause, EngineState, is_running}
use d3r.Engine.Transition.{Next, create_engine, is_active, is_ready}
use d3r.Engine.Settle.{
  settle_batch, interrupt_engine, interrupt_message, answer_checkpoint, is_waiting_status,
  is_checkpoint,
}
use d3r.Schema.{Workflow}
use d3r.Cli.Names.{IsUuid}
use d3r.Cli.Continuations.{can_resume_workflow, resume_workflow}
use d3r.Runtime.Graph.{
  is_completed_status, GraphError, standalone_workflow, standalone_command, has_command,
}
use d3r.Runtime.Drive.{Driven, paused, broken, unfinished, drive_loop}
use d3r.Runtime.Load.{load}
use d3r.Runtime.Session.{Content, Session, is_unfinished}
use d3r.Runtime.Actions.{
  WorkflowBrief, PhaseAction, start, go_on, abandon, status, run_role, parse_action,
}
use d3r.Runtime.Phases.{
  Weather, After, threw, with_work, take_rounds, conclude_drive, end_drive, drive, take_settled,
  recover, Phased, failed,
}
use d3r.Runtime.Tasks.{
  PhaseCall, Host, is_status, is_implementor_unset, run_drive, launch, enter_task, begin_named,
  topic_for, begin_task, begin_if_ok, begin_role, start_phase, start_role, abandon_phase,
}
use d3r.Runtime.Control.{
  continue_with, answer_with, resume_with, answer_pause, continue_engine, continue_phase, act,
  perform, run_phase,
}
use d3r.Runtime.Routing.{TurnEvent, session_of, run_turn}
use d3r.Runtime.Belongs.{archive_workflow-engine}
use d3r.Runtime.Placed.{topic_for-found}
use d3r.Runtime.Refusals.{run_turn-used}

module _ {C S : Type 0} where
  -- The phase tools are used up.
  abbrev IsUsed : Session C S → Type 0
  IsUsed s = s.phase_used ≡ true

  -- They are used up, or there is no work that was not there before.
  abbrev Spent : Session C S → Phased (Session C S) → Type 0
  Spent s0 p =
      IsUsed (session_of p) ⊎ ((session_of p).engine ≡ s0.engine) ⊎ ((session_of p).engine ≡ none)

  unspent : (s : Session C S) → (s.phase_used ≡ true) ⊎ (s.engine ≡ s.engine) ⊎ (s.engine ≡ none)
  unspent s = inr (inl refl)

  Spent-if :
      (s0 : Session C S) (b : Bool) (x y : Phased (Session C S))
      → Spent s0 x
      → Spent s0 y
      → Spent s0 (if b then x else y)
  Spent-if s0 true x y h k = h
  Spent-if s0 false x y h k = k

  IsUsed-if : (b : Bool) (x y : Session C S) → IsUsed x → IsUsed y → IsUsed (if b then x else y)
  IsUsed-if true x y h k = h
  IsUsed-if false x y h k = k

  take_settled-IsUsed : (s : Session C S) (m : Next) → IsUsed s → IsUsed (take_settled s m)
  take_settled-IsUsed s (ok e) h =
      IsUsed-if (is_completed_status e.status) (record s { engine = some e; phase = "routing" })
        (record s { engine = some e }) h h
  take_settled-IsUsed s (fail x) h = h

  recover-IsUsed :
      (s : Session C S) (e : EngineState)
      → IsUsed s
      → IsUsed (recover (record s { engine = some e }))
  unfolding recover
  recover-IsUsed s e h =
      IsUsed-if (is_active e.status) _ _
        (IsUsed-if (any is_running e.records)
          (record s { engine = some (interrupt_engine e interrupt_message) })
          (take_settled (record s { engine = some e }) (settle_batch e)) h
          (take_settled-IsUsed (record s { engine = some e }) (settle_batch e) h))
        h

  module _ (weather : Weather C) where
    end_drive-IsUsed :
        (s : Session C S) (d : Driven C)
        → IsUsed s
        → IsUsed (session_of (run_drive (end_drive true weather s d)))
    unfolding end_drive conclude_drive run_drive
    end_drive-IsUsed s (paused w) h =
        IsUsed-if (is_completed_status w.engine.status)
          (record (with_work s w) { phase = "routing" }) (with_work s w) h h
    end_drive-IsUsed s (broken w) h = recover-IsUsed (with_work s w) w.engine h
    end_drive-IsUsed s (unfinished w) h = recover-IsUsed (with_work s w) w.engine h

    either_way :
        (b : Bool) (x y : After (Session C S))
        → IsUsed (session_of (run_drive x))
        → IsUsed (session_of (run_drive y))
        → IsUsed (session_of (run_drive (if b then x else y)))
    either_way true x y h k = h
    either_way false x y h k = k

    launch-IsUsed : (e : EngineState) (s : Session C S) → IsUsed (session_of (launch weather e s))
    unfolding launch drive run_drive
    launch-IsUsed e s =
        let entered : Session C S = record s { engine = some e; phase_used = true } in
        let driven =
          drive_loop true (take_rounds (load e + 1) 0 weather.rounds)
            (record { engine = e; continuations = s.continuations }) in
        either_way weather.announced (end_drive true weather entered driven) (threw entered)
          (end_drive-IsUsed entered driven refl) (recover-IsUsed entered e refl)

module _ {C S : Type 0} (host : Host) (weather : Weather C) (s0 : Session C S) where
  begin_named-Spent :
      (topic : Option String) (e : EngineState) (role : Option String) (phase brief : String)
      (s : Session C S)
      → ((t : String) × (topic ≡ some t))
      → Spent s0 (begin_named host weather topic e role phase brief s)
  unfolding begin_named
  begin_named-Spent none e role phase brief s (t, k) = absurd (let wrong : none ≡ some t = k in cc)
  begin_named-Spent (some topic) e role phase brief s k =
      inl (launch-IsUsed weather e (enter_task host weather role phase topic brief s))

  begin_task-Spent :
      (e : EngineState) (role : Option String) (phase : String) (topic : Option String)
      (brief : WorkflowBrief) (heading : String) (s : Session C S)
      → IsUuid host.uuid
      → Spent s0 (begin_task host weather e role phase topic brief heading s)
  unfolding begin_task
  begin_task-Spent e role phase topic brief heading s drawn =
      begin_named-Spent (topic_for host topic brief.goal) e role phase _ _
        (topic_for-found host topic brief.goal drawn)

  begin_if_ok-Spent :
      (m : Next) (go : EngineState → Phased (Session C S))
      → ((e : EngineState) → Spent s0 (go e))
      → Spent s0 (begin_if_ok host weather m go s0)
  begin_if_ok-Spent (ok e) go h = h e
  begin_if_ok-Spent (fail x) go h = unspent s0

  start_phase-Spent :
      (phase : String) (brief : WorkflowBrief) (mode : Option Mode) (topic : Option String)
      → IsUuid host.uuid
      → Spent s0 (start_phase host weather phase brief mode topic s0)
  unfolding start_phase
  start_phase-Spent phase brief mode topic drawn =
      Spent-if s0 (is_unfinished s0.engine || not (has_command s0.workflow phase)) _ _ (unspent s0)
        (begin_if_ok-Spent (create_engine s0.workflow phase mode) _
          λ e. begin_task-Spent e none phase topic brief _ s0 drawn)

  begin_role-Spent :
      (graph : Result Workflow GraphError) (role : String) (brief : WorkflowBrief)
      (mode : Option Mode) (topic : Option String)
      → IsUuid host.uuid
      → Spent s0 (begin_role host weather graph role brief mode topic s0)
  unfolding begin_role
  begin_role-Spent (fail x) role brief mode topic drawn = unspent s0
  begin_role-Spent (ok graph) role brief mode topic drawn =
      begin_if_ok-Spent (create_engine graph standalone_command mode) _
        λ e. begin_task-Spent e (some role) "routing" topic brief _ s0 drawn

  start_role-Spent :
      (role : String) (brief : WorkflowBrief) (mode : Option Mode) (topic : Option String)
      → IsUuid host.uuid
      → Spent s0 (start_role host weather role brief mode topic s0)
  unfolding start_role
  start_role-Spent role brief mode topic drawn =
      Spent-if s0 (is_unfinished s0.engine) _ _ (unspent s0) (
        Spent-if s0 (is_implementor_unset role mode) _ _ (unspent s0) (
          begin_role-Spent (standalone_workflow s0.workflow host.agents role) role brief mode topic
            drawn))

  abandon_phase-Spent : (reason : String) → Spent s0 (abandon_phase host weather reason s0)
  unfolding abandon_phase
  abandon_phase-Spent reason = Spent-if s0 (not (is_unfinished s0.engine)) _ _ (unspent s0) (
      inr (
        inr (
          archive_workflow-engine host.stringify (record s0 {
            input = s0.input ++ Content.text ("User-directed abandonment: " <> reason) ∷ [];
          }))))

  continue_with-Spent :
      (e : EngineState) (more : List Content) (text : String)
      → Spent s0 (continue_with host weather e more text s0)
  unfolding continue_with
  continue_with-Spent e more text = inl (
      launch-IsUsed weather e (record s0 {
        input =
            (s0.input ++ more)
            ++ s0.routing_input
            ++ Content.text ("Latest user correction or checkpoint answer:\n" <> text) ∷ [];
      }))

  answer_with-Spent : (m : Next) (text : String) → Spent s0 (answer_with host weather m text s0)
  unfolding answer_with
  answer_with-Spent (ok t) text = continue_with-Spent t [] text
  answer_with-Spent (fail x) text = unspent s0

  resume_with-Spent :
      (m : Next) (e : EngineState) (text : String) → Spent s0 (resume_with host weather m e text s0)
  unfolding resume_with
  resume_with-Spent (ok t) e text = continue_with-Spent t _ text
  resume_with-Spent (fail x) e text = unspent s0

  answer_pause-Spent :
      (p : Option Pause) (e : EngineState) (text : String)
      → Spent s0 (answer_pause host weather p e text s0)
  unfolding answer_pause
  answer_pause-Spent none e text = unspent s0
  answer_pause-Spent (some p) e text =
      Spent-if s0 (is_checkpoint p.kind) _ _ (answer_with-Spent (answer_checkpoint e text) text)
        (unspent s0)

  continue_engine-Spent :
      (engine : Option EngineState) (text : String)
      → Spent s0 (continue_engine host weather engine text s0)
  unfolding continue_engine
  continue_engine-Spent none text = unspent s0
  continue_engine-Spent (some e) text =
      Spent-if s0 (is_completed_status e.status) _ _ (unspent s0) (
        Spent-if s0 (can_resume_workflow (some e) s0.continuations) _ _
          (resume_with-Spent (resume_workflow e) e text)
          (Spent-if s0 (is_waiting_status e.status) _ _ (answer_pause-Spent e.pause e text)
            (Spent-if s0 (is_ready e.status) _ _ (continue_with-Spent e [] text) (unspent s0))))

  act-Spent : (action : PhaseAction) → IsUuid host.uuid → Spent s0 (act host weather action s0)
  unfolding act continue_phase
  act-Spent (start phase brief mode topic) drawn = start_phase-Spent phase brief mode topic drawn
  act-Spent (go_on text) drawn = continue_engine-Spent s0.engine text
  act-Spent (abandon reason) drawn = abandon_phase-Spent reason
  act-Spent status drawn = unspent s0
  act-Spent (run_role role brief mode topic) drawn = start_role-Spent role brief mode topic drawn

  perform-Spent :
      (call : PhaseCall) (action : PhaseAction)
      → IsUuid host.uuid
      → Spent s0 (perform host weather call action s0)
  unfolding perform
  perform-Spent call action drawn =
      Spent-if s0 (not call.in_turn || call.aborted) (failed s0) _ (unspent s0) (
        Spent-if s0 (is_status action) _ _ (unspent s0)
          (Spent-if s0 (call.busy || s0.phase_used) _ _ (unspent s0) (act-Spent action drawn)))

  run_phase-Spent :
      (call : PhaseCall) (action : PhaseAction)
      → IsUuid host.uuid
      → Spent s0 (run_phase host weather call action s0)
  unfolding run_phase
  run_phase-Spent call action drawn = elim (Option-cases (parse_action action)) [
    | inl e ↦ rw (e, run_phase) (unspent s0)
    | inr (parsed, e) ↦ rw (e, run_phase) (perform-Spent call parsed drawn)
  ]

  -- If a call of a phase tool leaves work that is not the work from before, so that it has started or
  -- continued some, then no call in the rest of the turn changes the session, whatever is called
  -- and in whatever order; if the host's UUID begins with eight lower case hexadecimal digits.
  pub run_turn-once :
      (orchestrated : Bool) (call : PhaseCall) (action : PhaseAction) (events : List (TurnEvent C))
      (texts : List (String × String))
      → IsUuid host.uuid
      → (session_of (run_phase host weather call action s0)).engine ≢ s0.engine
      → (session_of (run_phase host weather call action s0)).engine ≢ none
      → let after = session_of (run_phase host weather call action s0) in
        (run_turn orchestrated host events (after, texts)).0 ≡ after
  run_turn-once orchestrated call action events texts drawn changed there =
      elim (run_phase-Spent call action drawn) [
        | inl used ↦
            run_turn-used host orchestrated events
              (session_of (run_phase host weather call action s0)) texts used
        | inr (inl same) ↦ absurd (changed same)
        | inr (inr gone) ↦ absurd (there gone)
      ]
