-- ===== src/Runtime/Refusals.antt =====
-- cli/src/workflow-runtime.ts, `runPhase`: what a phase tool leaves unchanged.
use Prim.Native.String.{String}
use mathlib.Core.Path.{subst}
use d3r.Base.{
  Bool, true, false, not, ◌&&◌, ◌||◌, ◌≡◌, refl, sym, ◌∙◌, List, [], ◌∷◌, Option, none, some, inl,
  inr, Bool-cases, Option-cases, if◌then◌else◌,
}
use d3r.Base.Outcome.{Result, ok, fail}
use d3r.Engine.Transition.{create_engine}
use d3r.Runtime.Graph.{is_completed_status, GraphError, standalone_workflow, standalone_command}
use d3r.Runtime.Tasks.{
  is_implementor_unset, run_drive, launch, enter_task, begin_named, topic_for, begin_task,
  begin_if_ok, begin_role, start_phase, start_role, abandon_phase,
}
use d3r.Engine.State.{Mode, Pause, EngineState}
use d3r.Engine.Transition.{Next}
use d3r.Runtime.Actions.{
  WorkflowBrief, PhaseAction, start, go_on, abandon, status, run_role, parse_action,
}
use d3r.Runtime.Phases.{
  Weather, After, returned, threw, Reply, says, with_state, Phased, replied, failed,
}
use d3r.Runtime.Tasks.{PhaseCall, Host, is_status}
use d3r.Runtime.Control.{
  continue_with, answer_with, resume_with, answer_pause, continue_engine, continue_phase, act,
  perform, run_phase,
}
use d3r.Runtime.Routing.{TurnEvent, calls, chunk, session_of, run_turn}
use d3r.Runtime.Session.{is_unfinished, Content, Session, archive_workflow}
use d3r.Schema.{Workflow}
use d3r.Engine.Settle.{answer_checkpoint, is_waiting_status}
use d3r.Engine.Transition.{is_ready}
use d3r.Cli.Continuations.{can_resume_workflow, resume_workflow}

module _ {C S : Type 0} (host : Host) where
  perform-used :
      (weather : Weather C) (call : PhaseCall) (action : PhaseAction) (s : Session C S)
      → s.phase_used ≡ true
      → session_of (perform host weather call action s) ≡ s
  unfolding perform
  perform-used weather call action s used = elim (Bool-cases (not call.in_turn || call.aborted)) [
    | inl e ↦ rw (e, perform) refl
    | inr e ↦ elim (Bool-cases (is_status action)) [
      | inl k ↦ rw (e, perform, k) refl
      | inr k ↦ elim (Bool-cases call.busy) [
        | inl b ↦ rw (e, perform, k, b) refl
        | inr b ↦ rw (e, perform, k, b, used) refl
      ]
    ]
  ]

  run_phase-used :
      (weather : Weather C) (call : PhaseCall) (action : PhaseAction) (s : Session C S)
      → s.phase_used ≡ true
      → session_of (run_phase host weather call action s) ≡ s
  unfolding run_phase
  run_phase-used weather call action s used = elim (Option-cases (parse_action action)) [
    | inl e ↦ rw (e, run_phase) refl
    | inr (parsed, e) ↦ rw (e, run_phase) (perform-used weather call parsed s used)
  ]

  -- Once the phase tools are used up, no call in the rest of the turn changes the session.
  pub run_turn-used :
      (orchestrated : Bool) (events : List (TurnEvent C)) (s : Session C S)
      (texts : List (String × String))
      → s.phase_used ≡ true
      → (run_turn orchestrated host events (s, texts)).0 ≡ s
  unfolding run_turn
  run_turn-used orchestrated [] s texts used = refl
  run_turn-used orchestrated (calls call action weather ∷ events) s texts used =
      let called : PhaseCall = record call { in_turn = orchestrated && call.in_turn } in
      subst (λ x. (run_turn orchestrated host events (x, texts)).0 ≡ s)
        (sym (run_phase-used weather called action s used))
        (run_turn-used orchestrated events s texts used)
  run_turn-used orchestrated (chunk id part ∷ events) s texts used =
      run_turn-used orchestrated events s _ used

abbrev pub is_error : Reply → Bool
is_error (says error message) = error
is_error (with_state error before) = error

abbrev Unchanged : {T : Type 0} → T → Phased T → Type 0
Unchanged s (replied t reply) = is_error reply ≡ true → t ≡ s
Unchanged s (failed t) = Unit

-- A reply that is an error comes with the session `s`.
record Held {T : Type 0} (s : T) (p : Phased T) : Type 0 where
  holds : Unchanged s p

Held-if :
    {T : Type 0} (s : T) (b : Bool) (x y : Phased T)
    → Held s x
    → Held s y
    → Held s (if b then x else y)
Held-if s true x y h k = h
Held-if s false x y h k = k

unchanged : {T : Type 0} (s : T) (r : Reply) → Held s (replied s r)
unchanged s r = record { holds = λ h. refl }

fine : {T : Type 0} (s t : T) (r : Reply) → is_error r ≡ false → Held s (replied t r)
fine s t r e = record { holds = λ h. absurd (let wrong : false ≡ true = sym e ∙ h in cc) }

thrown_away : {T : Type 0} (s t : T) → Held s (failed t)
thrown_away s t = record { holds = tt }

abbrev pub is_refused : {T : Type 0} → Phased T → Bool
is_refused (replied t reply) = is_error reply
is_refused (failed t) = false

Held-refused :
    {C S : Type 0} (s : Session C S) (p : Phased (Session C S))
    → Held s p
    → is_refused p ≡ true
    → session_of p ≡ s
Held-refused s (replied t reply) h e = h.holds e
Held-refused s (failed t) h e = absurd (let wrong : false ≡ true = e in cc)

module _ {C S : Type 0} (host : Host) (weather : Weather C) (s0 : Session C S) where
  run_drive-Held : (after : After (Session C S)) → Held s0 (run_drive after)
  unfolding run_drive
  run_drive-Held (returned s) = fine s0 s _ refl
  run_drive-Held (threw s) = thrown_away s0 _

  launch-Held : (e : EngineState) (s : Session C S) → Held s0 (launch weather e s)
  unfolding launch
  launch-Held e s = run_drive-Held _

  begin_named-Held :
      (topic : Option String) (e : EngineState) (role : Option String) (phase brief : String)
      (s : Session C S)
      → Held s0 (begin_named host weather topic e role phase brief s)
  unfolding begin_named
  begin_named-Held none e role phase brief s = thrown_away s0 s
  begin_named-Held (some topic) e role phase brief s =
      launch-Held e (enter_task host weather role phase topic brief s)

  begin_task-Held :
      (e : EngineState) (role : Option String) (phase : String) (topic : Option String)
      (brief : WorkflowBrief) (heading : String)
      → Held s0 (begin_task host weather e role phase topic brief heading s0)
  unfolding begin_task
  begin_task-Held e role phase topic brief heading =
      begin_named-Held (topic_for host topic brief.goal) e role phase _
        (record (archive_workflow host.stringify s0) { engine = some e })

  begin_if_ok-Held :
      (m : Next) (go : EngineState → Phased (Session C S)) (s : Session C S)
      → ((e : EngineState) → Held s0 (go e))
      → Held s0 (begin_if_ok host weather m go s)
  begin_if_ok-Held (ok e) go s h = h e
  begin_if_ok-Held (fail x) go s h = thrown_away s0 s

  begin_role-Held :
      (graph : Result Workflow GraphError) (role : String) (brief : WorkflowBrief)
      (mode : Option Mode) (topic : Option String)
      → Held s0 (begin_role host weather graph role brief mode topic s0)
  unfolding begin_role
  begin_role-Held (fail x) role brief mode topic = thrown_away s0 s0
  begin_role-Held (ok graph) role brief mode topic =
      begin_if_ok-Held (create_engine graph standalone_command mode) _ s0
        λ e. begin_task-Held e (some role) "routing" topic brief _

  start_phase-Held :
      (phase : String) (brief : WorkflowBrief) (mode : Option Mode) (topic : Option String)
      → Held s0 (start_phase host weather phase brief mode topic s0)
  unfolding start_phase
  start_phase-Held phase brief mode topic = Held-if s0 _ _ _ (unchanged s0 _) (
      begin_if_ok-Held (create_engine s0.workflow phase mode) _ s0
        λ e. begin_task-Held e none phase topic brief _)

  start_role-Held :
      (role : String) (brief : WorkflowBrief) (mode : Option Mode) (topic : Option String)
      → Held s0 (start_role host weather role brief mode topic s0)
  unfolding start_role
  start_role-Held role brief mode topic =
      Held-if s0 (is_unfinished s0.engine) _ _ (unchanged s0 _) (
        Held-if s0 (is_implementor_unset role mode) _ _ (unchanged s0 _) (
          begin_role-Held (standalone_workflow s0.workflow host.agents role) role brief mode topic))

  abandon_phase-Held : (reason : String) → Held s0 (abandon_phase host weather reason s0)
  unfolding abandon_phase
  abandon_phase-Held reason = Held-if s0 _ _ _ (unchanged s0 _) (fine s0 _ _ refl)

  continue_with-Held :
      (e : EngineState) (more : List Content) (text : String)
      → Held s0 (continue_with host weather e more text s0)
  unfolding continue_with
  continue_with-Held e more text = run_drive-Held _

  answer_with-Held : (m : Next) (text : String) → Held s0 (answer_with host weather m text s0)
  unfolding answer_with
  answer_with-Held (ok e) text = continue_with-Held e [] text
  answer_with-Held (fail x) text = unchanged s0 _

  resume_with-Held :
      (m : Next) (e : EngineState) (text : String) → Held s0 (resume_with host weather m e text s0)
  unfolding resume_with
  resume_with-Held (ok t) e text = continue_with-Held t _ text
  resume_with-Held (fail x) e text = thrown_away s0 s0

  answer_pause-Held :
      (p : Option Pause) (e : EngineState) (text : String)
      → Held s0 (answer_pause host weather p e text s0)
  unfolding answer_pause
  answer_pause-Held none e text = thrown_away s0 s0
  answer_pause-Held (some p) e text =
      Held-if s0 _ _ _ (answer_with-Held (answer_checkpoint e text) text) (unchanged s0 _)

  continue_engine-Held :
      (engine : Option EngineState) (text : String)
      → Held s0 (continue_engine host weather engine text s0)
  unfolding continue_engine
  continue_engine-Held none text = unchanged s0 _
  continue_engine-Held (some e) text =
      Held-if s0 (is_completed_status e.status) _ _ (unchanged s0 _) (
        Held-if s0 (can_resume_workflow (some e) s0.continuations) _ _
          (resume_with-Held (resume_workflow e) e text)
          (Held-if s0 (is_waiting_status e.status) _ _ (answer_pause-Held e.pause e text)
            (Held-if s0 (is_ready e.status) _ _ (continue_with-Held e [] text) (unchanged s0 _))))

  continue_phase-Held : (text : String) → Held s0 (continue_phase host weather text s0)
  unfolding continue_phase
  continue_phase-Held text = continue_engine-Held s0.engine text

  act-Held : (action : PhaseAction) → Held s0 (act host weather action s0)
  unfolding act
  act-Held (start phase brief mode topic) = start_phase-Held phase brief mode topic
  act-Held (go_on text) = continue_phase-Held text
  act-Held (abandon reason) = abandon_phase-Held reason
  act-Held status = unchanged s0 _
  act-Held (run_role role brief mode topic) = start_role-Held role brief mode topic

  perform-Held :
      (call : PhaseCall) (action : PhaseAction) → Held s0 (perform host weather call action s0)
  unfolding perform
  perform-Held call action =
      Held-if s0 (not call.in_turn || call.aborted) (failed s0) _ (thrown_away s0 s0) (
        Held-if s0 (is_status action) _ _ (unchanged s0 _)
          (Held-if s0 (call.busy || s0.phase_used) _ _ (unchanged s0 _) (act-Held action)))

  run_phase-Held :
      (call : PhaseCall) (action : PhaseAction) → Held s0 (run_phase host weather call action s0)
  unfolding run_phase
  run_phase-Held call action = elim (Option-cases (parse_action action)) [
    | inl e ↦ rw (e, run_phase) (thrown_away s0 s0)
    | inr (parsed, e) ↦ rw (e, run_phase) (perform-Held call parsed)
  ]

  -- A call of a phase tool that is answered with an error leaves the session as it was.
  pub run_phase-refused :
      (call : PhaseCall) (action : PhaseAction)
      → is_refused (run_phase host weather call action s0) ≡ true
      → session_of (run_phase host weather call action s0) ≡ s0
  run_phase-refused call action = Held-refused s0 _ (run_phase-Held call action)
