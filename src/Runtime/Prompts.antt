-- ===== src/Runtime/Prompts.antt =====
-- cli/src/workflow-runtime.ts, `execute`, `prompt` and `setConfig`: what a prompt does to a session.
use Prim.Native.Char.{code}
use Prim.Native.String.{String, [], ◌∷◌}
use d3r.Base.{
  Bool, true, false, not, ◌&&◌, ◌||◌, List, ◌++◌, Option, none, some, str_eq, if◌then◌else◌,
}
use d3r.Base.Text.{trim, is_space, join}
use d3r.Base.Outcome.{Result, ok, fail, ◌>>◌, reject_if}
use d3r.Engine.State.{PauseKind, EngineState}
use d3r.Engine.Transition.{Next, create_engine, is_active}
use d3r.Engine.Settle.{answer_checkpoint, interrupt_engine, interrupt_message, is_waiting_status}
use d3r.Engine.Checkpoint.{kind_is, is_blocked_status, is_interrupted_status}
use d3r.Runtime.Events.{StopReason, is_there}
use d3r.Runtime.Graph.{has_command}
use d3r.Runtime.Session.{
  Content, text, image, resource_link, Session, is_unfinished, archive_workflow,
}
use d3r.Runtime.Session.{SessionError, still_active, unknown_phase}
use d3r.Runtime.Phases.{Weather, After, returned, threw, drive}
use d3r.Runtime.Tasks.{Host}
use d3r.Runtime.Routing.{Turn, Answered, answered, raised, route}

-- What the environment does during a prompt: whether the client takes a notice, whether the routing
-- conversation can be brought back, and the signal behind either; the turn and the drive.
pub record Surroundings (C S : Type 0) : Type 0 where
  pub said : Bool
  pub recovered : Bool
  pub aborted : Bool
  pub turn : Turn C S
  pub weather : Weather C

unfoldable pub texts_of : List Content → List String
texts_of List.[] = List.[]
texts_of (List.◌∷◌ (text t) rest) = List.◌∷◌ t (texts_of rest)
texts_of (List.◌∷◌ (image content mime) rest) = texts_of rest
texts_of (List.◌∷◌ (resource_link uri name description mime) rest) = texts_of rest

unfoldable pub text_of : List Content → String
unfolding texts_of join trim
text_of content = trim (join "\n" (texts_of content))

-- `[^\s]+` at the start
unfoldable pub word : String → String
unfolding is_space
word [] = []
word (c ∷ s) = let rest = word s in if is_space (code c) then [] else c ∷ rest

abbrev pub non_empty : String → Option String
non_empty [] = none
non_empty (c ∷ s) = some (c ∷ s)

-- `/^\/([^\s]+)/.exec(text)?.[1]`
unfoldable pub directive_of : String → Option String
unfolding word
directive_of [] = none
directive_of (c ∷ s) = let found = non_empty (word s) in if str_eq (c ∷ []) "/" then found else none

abbrev pub wants_decision : EngineState → Bool
wants_decision e =
    is_blocked_status e.status || is_interrupted_status e.status || kind_is PauseKind.report e

module _ {C S : Type 0} where
  -- A notice is the whole answer.
  abbrev pub notice : Surroundings C S → Session C S → Answered (Session C S)
  notice sky s = if sky.said then answered s StopReason.completed else raised s

  abbrev pub after_drive : After (Session C S) → Answered (Session C S)
  after_drive (returned s) = answered s StopReason.completed
  after_drive (threw s) = raised s

  module _ (host : Host) (sky : Surroundings C S) where
    unfoldable pub go : EngineState → Session C S → Answered (Session C S)
    unfolding drive
    go e s = after_drive (drive false sky.weather e (record s { engine = some e }))

    unfoldable pub go_if_ok : Next → Session C S → Answered (Session C S)
    unfolding go
    go_if_ok (ok e) s = go e s
    go_if_ok (fail x) s = raised s

    unfoldable pub go_or_say : Next → List Content → Session C S → Answered (Session C S)
    unfolding go
    go_or_say (ok e) content s = go e (record s { input = s.input ++ content })
    go_or_say (fail x) content s = notice sky s

    -- An answer to an unfinished workflow.
    unfoldable pub answer_active :
        EngineState → String → List Content → Session C S → Answered (Session C S)
    unfolding go_if_ok go_or_say archive_workflow create_engine answer_checkpoint
    answer_active e said content s =
        if str_eq said "abandon"
        then notice sky (record (archive_workflow host.stringify s) { phase = "routing" })
        else if wants_decision e
        then if str_eq said "restart"
          then go_if_ok (create_engine e.workflow e.command e.mode) s
          else go e s
        else if is_waiting_status e.status
        then go_or_say (answer_checkpoint e said) content s
        else go e (record s { input = s.input ++ content })

    abbrev pub is_restored : String → Session C S → Bool
    is_restored said s =
        (str_eq said "abandon" || str_eq said "restart") && is_there s.routing_before

    -- An answer to a routing turn that was interrupted.
    unfoldable pub answer_interrupted : String → Session C S → Answered (Session C S)
    unfolding route
    answer_interrupted said s =
        if is_restored said s && (not sky.recovered || sky.aborted)
        then raised s
        else if str_eq said "abandon"
        then notice sky (record s { routing_interrupted = false })
        else if not (str_eq said "restart")
        then notice sky s
        else route false host sky.turn s.routing_input (record s { routing_interrupted = false })

    unfoldable pub start_workflow : String → List Content → Session C S → Answered (Session C S)
    unfolding archive_workflow go_if_ok create_engine
    start_workflow phase content s =
        let entered : Session C S =
          record (archive_workflow host.stringify (record s { phase = phase })) {
            input = content;
          } in
        go_if_ok (create_engine s.workflow phase none) entered

    -- A prompt to a session that is idle.
    unfoldable pub begin_prompt :
        Option String → List Content → Session C S → Answered (Session C S)
    unfolding route start_workflow
    begin_prompt none content s =
        if str_eq s.phase "routing"
        then route false host sky.turn content s
        else start_workflow s.phase content s
    begin_prompt (some name) content s =
        if has_command s.workflow name
        then start_workflow name content s
        else route false host sky.turn content s

    unfoldable pub answer_engine :
        Option EngineState
        → Option String
        → String
        → List Content
        → Session C S
        → Answered (Session C S)
    unfolding answer_active begin_prompt
    answer_engine none directive said content s = begin_prompt directive content s
    answer_engine (some e) directive said content s =
        if is_unfinished (some e)
        then answer_active e said content s
        else begin_prompt directive content s

    -- A slash command does not replace unfinished work. A notice that is cancelled changes nothing.
    abbrev pub refuse_command : Session C S → Answered (Session C S)
    refuse_command s =
        if sky.said
        then answered s StopReason.completed
        else if sky.aborted
        then answered s StopReason.cancelled
        else raised s

    unfoldable pub execute :
        (orchestrated : Bool) → List Content → Session C S → Answered (Session C S)
    unfolding route answer_interrupted answer_engine text_of directive_of
    execute orchestrated content s =
        let said = text_of content in
        let directive = directive_of said in
        if orchestrated
        then route true host sky.turn content s
        else if (is_unfinished s.engine || s.routing_interrupted) && is_there directive
        then refuse_command s
        else if s.routing_interrupted
        then answer_interrupted said s
        else answer_engine s.engine directive said content s

module _ {C S : Type 0} (orchestrated : Bool) where
  abbrev pub is_running_now : Session C S → Bool
  is_running_now s = elim s.engine [ none ↦ false | some e ↦ is_active e.status ]

  unfoldable pub interrupt_session : (aborted : Bool) → Session C S → Session C S
  unfolding interrupt_engine
  interrupt_session aborted s =
      if is_running_now s || (not orchestrated && is_unfinished s.engine && aborted)
      then record s {
        engine = elim s.engine [
          | none ↦ none
          | some e ↦ some (interrupt_engine e interrupt_message)
        ];
      }
      else s

  -- The `then` and the `catch` of `prompt`; the signal is the one of the prompt, at its end.
  unfoldable pub end_prompt : (aborted : Bool) → Answered (Session C S) → Answered (Session C S)
  unfolding interrupt_session
  end_prompt aborted (answered s reason) =
      answered s (if aborted then StopReason.cancelled else reason)
  end_prompt aborted (raised s) =
      if aborted
      then answered (interrupt_session aborted s) StopReason.cancelled
      else raised (interrupt_session aborted s)

  unfoldable pub prompt :
      Host
      → Surroundings C S
      → (aborted_before aborted_after : Bool) → List Content
      → Session C S
      → Answered (Session C S)
  unfolding end_prompt execute
  prompt host sky aborted_before aborted_after content s =
      if aborted_before
      then answered s StopReason.cancelled
      else end_prompt aborted_after (execute host sky orchestrated content s)

-- `setConfig("phase", value)`
unfoldable pub set_phase : {C S : Type 0} → String → Session C S → Result (Session C S) SessionError
set_phase value s = do
  reject_if (is_unfinished s.engine || s.routing_interrupted) still_active
  reject_if (not (str_eq value "routing") && not (has_command s.workflow value)) unknown_phase
  ok (record s { phase = value })
