-- ===== src/Runtime/Placed.antt =====
-- cli/src/workflow-runtime.ts, `runPhase`: unfinished work belongs to the phase, or to a single role.
use Prim.Native.String.{String}
use d3r.Base.{
  true, false, not, ◌||◌, ◌≡◌, refl, List, [], ◌∷◌, Option, none, some, inl, inr, Option-cases,
  str_eq,
}
use d3r.Base.Outcome.{Result, ok, fail, OnOk}
use d3r.Engine.State.{Mode, Pause, EngineState}
use d3r.Engine.Transition.{Next, create_engine, is_ready}
use d3r.Engine.Settle.{answer_checkpoint, is_waiting_status, is_checkpoint}
use d3r.Schema.{Workflow}
use d3r.Cli.Names.{IsUuid, create_topic_name_total}
use d3r.Cli.Continuations.{can_resume_workflow, resume_workflow}
use d3r.Runtime.Events.{is_there}
use d3r.Runtime.Graph.{
  is_completed_status, GraphError, standalone_workflow, standalone_command, has_command,
}
use d3r.Runtime.Session.{Content, Session, is_unfinished}
use d3r.Runtime.Actions.{
  WorkflowBrief, PhaseAction, start, go_on, abandon, status, run_role, parse_action,
}
use d3r.Runtime.Phases.{Weather, Phased, failed}
use d3r.Runtime.Tasks.{
  PhaseCall, Host, is_status, is_implementor_unset, enter_task, begin_named, topic_for, begin_task,
  begin_if_ok, begin_role, start_phase, start_role, abandon_phase,
}
use d3r.Runtime.Control.{
  continue_with, answer_with, resume_with, answer_pause, continue_engine, continue_phase, act,
  perform, run_phase,
}
use d3r.Runtime.Routing.{session_of}
use d3r.Runtime.Commands.{
  Keeps, answer_checkpoint-Keeps, resume_workflow-Keeps, create_engine-command,
}
use d3r.Runtime.Belongs.{
  archive_workflow-engine, or_true, owned, owns, is_stray, Fits, Settles, Settles-if, owns-Named,
  launch-Fits,
}
use d3r.Base.{arith, eq_iff, ◌++◌}
use d3r.Base.Text.{◌<>◌}

pub topic_for-found :
    (host : Host) (topic : Option String) (goal : String)
    → IsUuid host.uuid
    → (t : String) × (topic_for host topic goal ≡ some t)
unfolding topic_for
topic_for-found host (some topic) goal drawn = (topic, refl)
topic_for-found host none goal drawn =
    let (prefix, named, short, slug) = create_topic_name_total host.fold host.uuid goal drawn in
    (_, named)

str_eq-same : (s t : String) → t ≡ s → str_eq s t ≡ true
str_eq-same s t h = ground (arith, eq_iff s t)

module _ {C S : Type 0} (host : Host) (weather : Weather C) where
  begin_named-Fits :
      (topic : Option String) (e : EngineState) (role : Option String) (phase brief : String)
      (s : Session C S)
      → (is_there role || str_eq phase e.command) ≡ true
      → ((t : String) × (topic ≡ some t))
      → Settles (begin_named host weather topic e role phase brief s)
  unfolding begin_named
  begin_named-Fits none e role phase brief s h (t, k) = absurd (let wrong : none ≡ some t = k in cc)
  begin_named-Fits (some topic) e (some role) phase brief s h k =
      launch-Fits weather e (enter_task host weather (some role) phase topic brief s) refl
  begin_named-Fits (some topic) e none phase brief s h k =
      launch-Fits weather e (enter_task host weather none phase topic brief s)
        (rw h (or_true (is_there s.standalone_role)))

  begin_task-Fits :
      (e : EngineState) (role : Option String) (phase : String) (topic : Option String)
      (brief : WorkflowBrief) (heading : String) (s : Session C S)
      → IsUuid host.uuid
      → (is_there role || str_eq phase e.command) ≡ true
      → Settles (begin_task host weather e role phase topic brief heading s)
  unfolding begin_task
  begin_task-Fits e role phase topic brief heading s drawn h =
      begin_named-Fits (topic_for host topic brief.goal) e role phase _ _ h
        (topic_for-found host topic brief.goal drawn)

  begin_if_ok-Fits :
      (P : EngineState → Type 0) (m : Next) (go : EngineState → Phased (Session C S))
      (s : Session C S)
      → Fits s
      → OnOk P m
      → ((e : EngineState) → P e → Settles (go e))
      → Settles (begin_if_ok host weather m go s)
  begin_if_ok-Fits P (ok e) go s h k f = f e k
  begin_if_ok-Fits P (fail x) go s h k f = h

  continue_with-Fits :
      (e : EngineState) (more : List Content) (text : String) (s : Session C S)
      → owns s e ≡ true
      → Settles (continue_with host weather e more text s)
  unfolding continue_with
  continue_with-Fits e more text s h =
      launch-Fits weather e
        (record s {
          input =
              (s.input ++ more)
              ++ s.routing_input
              ++ Content.text ("Latest user correction or checkpoint answer:\n" <> text) ∷ [];
        })
        h

  answer_with-Fits :
      (e : EngineState) (m : Next) (text : String) (s : Session C S)
      → Fits s
      → owns s e ≡ true
      → Keeps e m
      → Settles (answer_with host weather m text s)
  unfolding answer_with
  answer_with-Fits e (ok t) text s f h k = continue_with-Fits t [] text s (owns-Named s e t h k)
  answer_with-Fits e (fail x) text s f h k = f

  resume_with-Fits :
      (e : EngineState) (m : Next) (text : String) (s : Session C S)
      → Fits s
      → owns s e ≡ true
      → Keeps e m
      → Settles (resume_with host weather m e text s)
  unfolding resume_with
  resume_with-Fits e (ok t) text s f h k = continue_with-Fits t _ text s (owns-Named s e t h k)
  resume_with-Fits e (fail x) text s f h k = f

  answer_pause-Fits :
      (p : Option Pause) (e : EngineState) (text : String) (s : Session C S)
      → Fits s
      → owns s e ≡ true
      → Settles (answer_pause host weather p e text s)
  unfolding answer_pause
  answer_pause-Fits none e text s f h = f
  answer_pause-Fits (some p) e text s f h =
      Settles-if (is_checkpoint p.kind) _ _
        (answer_with-Fits e (answer_checkpoint e text) text s f h (answer_checkpoint-Keeps e text))
        (λ _. f)

  continue_engine-Fits :
      (engine : Option EngineState) (text : String) (s : Session C S)
      → Fits s
      → is_stray s engine ≡ false
      → Settles (continue_engine host weather engine text s)
  unfolding continue_engine
  continue_engine-Fits none text s f h = f
  continue_engine-Fits (some e) text s f h = Settles-if (is_completed_status e.status) _ _ f λ q.
      let own : owns s e ≡ true = owned (is_completed_status e.status) (owns s e) q h in
      Settles-if (can_resume_workflow (some e) s.continuations) _ _
        (resume_with-Fits e (resume_workflow e) text s f own (resume_workflow-Keeps e))
        λ _.
          Settles-if (is_waiting_status e.status) _ _ (answer_pause-Fits e.pause e text s f own)
            λ _. Settles-if (is_ready e.status) _ _ (continue_with-Fits e [] text s own) λ _. f

  start_phase-Fits :
      (phase : String) (brief : WorkflowBrief) (mode : Option Mode) (topic : Option String)
      (s : Session C S)
      → IsUuid host.uuid
      → Fits s
      → Settles (start_phase host weather phase brief mode topic s)
  unfolding start_phase
  start_phase-Fits phase brief mode topic s drawn f =
      Settles-if (is_unfinished s.engine || not (has_command s.workflow phase)) _ _ f λ _.
        begin_if_ok-Fits (λ e. e.command ≡ phase) (create_engine s.workflow phase mode) _ s f
          (create_engine-command s.workflow phase mode)
          λ e k. begin_task-Fits e none phase topic brief _ s drawn (str_eq-same phase e.command k)

  begin_role-Fits :
      (graph : Result Workflow GraphError) (role : String) (brief : WorkflowBrief)
      (mode : Option Mode) (topic : Option String) (s : Session C S)
      → IsUuid host.uuid
      → Fits s
      → Settles (begin_role host weather graph role brief mode topic s)
  unfolding begin_role
  begin_role-Fits (fail x) role brief mode topic s drawn f = f
  begin_role-Fits (ok graph) role brief mode topic s drawn f =
      begin_if_ok-Fits (λ e. e.command ≡ standalone_command)
        (create_engine graph standalone_command mode) _ s f
        (create_engine-command graph standalone_command mode)
        λ e k. begin_task-Fits e (some role) "routing" topic brief _ s drawn refl

  start_role-Fits :
      (role : String) (brief : WorkflowBrief) (mode : Option Mode) (topic : Option String)
      (s : Session C S)
      → IsUuid host.uuid
      → Fits s
      → Settles (start_role host weather role brief mode topic s)
  unfolding start_role
  start_role-Fits role brief mode topic s drawn f = Settles-if (is_unfinished s.engine) _ _ f λ _.
      Settles-if (is_implementor_unset role mode) _ _ f λ _.
        begin_role-Fits (standalone_workflow s.workflow host.agents role) role brief mode topic s
          drawn f

  abandon_phase-Fits :
      (reason : String) (s : Session C S) → Fits s → Settles (abandon_phase host weather reason s)
  unfolding abandon_phase
  abandon_phase-Fits reason s f =
      Settles-if (not (is_unfinished s.engine)) _ _ f
        λ _. rw (archive_workflow-engine host.stringify _) refl

  act-Fits :
      (action : PhaseAction) (s : Session C S)
      → IsUuid host.uuid
      → Fits s
      → Settles (act host weather action s)
  unfolding act continue_phase
  act-Fits (start phase brief mode topic) s drawn f =
      start_phase-Fits phase brief mode topic s drawn f
  act-Fits (go_on text) s drawn f = continue_engine-Fits s.engine text s f f
  act-Fits (abandon reason) s drawn f = abandon_phase-Fits reason s f
  act-Fits status s drawn f = f
  act-Fits (run_role role brief mode topic) s drawn f =
      start_role-Fits role brief mode topic s drawn f

  perform-Fits :
      (call : PhaseCall) (action : PhaseAction) (s : Session C S)
      → IsUuid host.uuid
      → Fits s
      → Settles (perform host weather call action s)
  unfolding perform
  perform-Fits call action s drawn f =
      Settles-if (not call.in_turn || call.aborted) (failed s) _ f λ _.
        Settles-if (is_status action) _ _ f
          λ _. Settles-if (call.busy || s.phase_used) _ _ f λ _. act-Fits action s drawn f

  pub run_phase-Fits :
      (call : PhaseCall) (action : PhaseAction) (s : Session C S)
      → IsUuid host.uuid
      → is_stray s s.engine ≡ false
      → let after = session_of (run_phase host weather call action s) in
        is_stray after after.engine ≡ false
  unfolding run_phase
  run_phase-Fits call action s drawn f = elim (Option-cases (parse_action action)) [
    | inl e ↦ rw (e, run_phase) f
    | inr (parsed, e) ↦ rw (e, run_phase) (perform-Fits call parsed s drawn f)
  ]
