-- ===== src/Runtime/Control.antt =====
-- cli/src/workflow-runtime.ts, `runPhase`: going on with a phase, and the guards that all actions share.
use Prim.Native.String.{String}
use d3r.Base.{
  true, false, not, ◌||◌, List, [], ◌∷◌, ◌++◌, Option, none, some, filter, map, if◌then◌else◌,
}
use d3r.Base.Text.{◌<>◌, join}
use d3r.Base.Outcome.{ok, fail}
use d3r.Engine.State.{Pause, EngineState, is_running}
use d3r.Engine.Transition.{Next, is_ready}
use d3r.Engine.Settle.{answer_checkpoint, is_waiting_status, is_checkpoint}
use d3r.Engine.Checkpoint.{is_blocked_status}
use d3r.Cli.Continuations.{can_resume_workflow, resume_workflow, is_kept}
use d3r.Runtime.Graph.{is_completed_status}
use d3r.Runtime.Actions.{PhaseAction, start, go_on, abandon, status, run_role, parse_action}
use d3r.Runtime.Session.{Content, text, Session, outputs}
use d3r.Runtime.Phases.{Weather, says, with_state, Phased, replied, failed}
use d3r.Runtime.Tasks.{
  PhaseCall, Host, is_status, already_ran, retry_line, retry_text, launch, start_phase, start_role,
  abandon_phase,
}

module _ {C S : Type 0} (host : Host) (weather : Weather C) where
  unfoldable pub retry_items : EngineState → EngineState → Session C S → List Content
  unfolding join
  retry_items e resumed s =
      if is_blocked_status e.status
      then outputs host.stringify (some e)
        ++ text (
            join "\n" (
              retry_text
              ∷ map (λ r. retry_line (is_kept s.continuations r) r)
                  (filter is_running resumed.records)))
          ∷ []
      else []

  -- `engine` is what continues, `more` what the roles are told first.
  unfoldable pub continue_with :
      EngineState
      → (more : List Content) → (instructions : String) → Session C S
      → Phased (Session C S)
  unfolding launch
  continue_with e more instructions s = launch weather e (record s {
    input =
        (s.input ++ more)
        ++ s.routing_input
        ++ text ("Latest user correction or checkpoint answer:\n" <> instructions) ∷ [];
  })

  abbrev pub not_accepted : Session C S → Phased (Session C S)
  not_accepted s = replied s (with_state true "The checkpoint answer was not accepted.\n\n")

  abbrev pub cannot_continue : Session C S → Phased (Session C S)
  cannot_continue s = replied s (with_state true "This phase cannot safely continue.\n\n")

  unfoldable pub answer_with : Next → (instructions : String) → Session C S → Phased (Session C S)
  unfolding continue_with
  answer_with (ok e) instructions s = continue_with e [] instructions s
  answer_with (fail x) instructions s = not_accepted s

  unfoldable pub resume_with :
      Next → EngineState → (instructions : String) → Session C S → Phased (Session C S)
  unfolding continue_with retry_items
  resume_with (ok resumed) e instructions s =
      continue_with resumed (retry_items e resumed s) instructions s
  resume_with (fail x) e instructions s = failed s

  -- A workflow that is not resumed: it waits for an answer, is ready, or cannot go on.
  unfoldable pub answer_pause :
      Option Pause → EngineState → (instructions : String) → Session C S → Phased (Session C S)
  unfolding answer_with answer_checkpoint
  answer_pause none e instructions s = failed s
  answer_pause (some p) e instructions s =
      if is_checkpoint p.kind
      then answer_with (answer_checkpoint e instructions) instructions s
      else cannot_continue s

  unfoldable pub continue_engine :
      Option EngineState → (instructions : String) → Session C S → Phased (Session C S)
  unfolding resume_with answer_pause continue_with can_resume_workflow resume_workflow
  continue_engine none instructions s =
      replied s (says true "There is no unfinished phase to continue.")
  continue_engine (some e) instructions s =
      if is_completed_status e.status
      then replied s (says true "There is no unfinished phase to continue.")
      else if can_resume_workflow (some e) s.continuations
      then resume_with (resume_workflow e) e instructions s
      else if is_waiting_status e.status
      then answer_pause e.pause e instructions s
      else if is_ready e.status
      then continue_with e [] instructions s
      else cannot_continue s

  unfoldable pub continue_phase : (instructions : String) → Session C S → Phased (Session C S)
  unfolding continue_engine
  continue_phase instructions s = continue_engine s.engine instructions s

  unfoldable pub act : PhaseAction → Session C S → Phased (Session C S)
  unfolding start_phase start_role abandon_phase continue_phase
  act (start phase brief mode topic) s = start_phase host weather phase brief mode topic s
  act (go_on instructions) s = continue_phase instructions s
  act (abandon reason) s = abandon_phase host weather reason s
  act status s = replied s (with_state false "")
  act (run_role role brief mode topic) s = start_role host weather role brief mode topic s

  unfoldable pub perform : PhaseCall → PhaseAction → Session C S → Phased (Session C S)
  unfolding act
  perform call action s =
      if not call.in_turn || call.aborted
      then failed s
      else if is_status action
      then replied s (with_state false "")
      else if call.busy || s.phase_used
      then replied s (says true already_ran)
      else act action s

  unfoldable pub run_phase : PhaseCall → PhaseAction → Session C S → Phased (Session C S)
  unfolding perform parse_action
  run_phase call action s = elim (parse_action action) [
    | none ↦ failed s
    | some parsed ↦ perform call parsed s
  ]
