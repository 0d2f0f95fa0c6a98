-- ===== src/Runtime/Routing.antt =====
-- cli/src/workflow-runtime.ts, `route`: a turn of the routing conversation, in which the orchestrator may
-- call the phase tools.
use Prim.Native.String.{String}
use d3r.Base.{
  Bool, true, false, not, ◌&&◌, ◌||◌, List, [], ◌∷◌, ◌++◌, Option, str_eq, length, map,
  if◌then◌else◌,
}
use d3r.Base.Text.{◌<>◌}
use d3r.Runtime.Events.{StopReason}
use d3r.Runtime.Actions.{PhaseAction}
use d3r.Runtime.Phases.{Weather, Phased, replied, failed}
use d3r.Runtime.Tasks.{PhaseCall, Host}
use d3r.Runtime.Control.{run_phase}
use d3r.Runtime.Session.{
  Content, text, image, resource_link, Session, is_unfinished, archive_workflow,
}

-- What happens while the routing runtime has the prompt: a call of a phase tool, or a text chunk that the
-- client took.
pub data TurnEvent (C : Type 0) : Type 0 where
  calls : PhaseCall → PhaseAction → Weather C → TurnEvent C
  chunk : (message_id part : String) → TurnEvent C

pub data TurnEnd : Type 0 where
  ends : StopReason → (aborted : Bool) → TurnEnd
  breaks : TurnEnd

-- `before` is the routing runtime's snapshot; `prepared`, that the host's context is there and the signal
-- is not aborted.
pub record Turn (C S : Type 0) : Type 0 where
  pub before : Option S
  pub prepared : Bool
  pub events : List (TurnEvent C)
  pub ending : TurnEnd

-- `text.set(id, (text.get(id) ?? "") + part)`
unfoldable pub add_chunk :
    (message_id part : String) → List (String × String) → List (String × String)
add_chunk id part [] = (id, part) ∷ []
add_chunk id part ((k, v) ∷ rest) =
    let later = add_chunk id part rest in
    if str_eq k id then (k, v <> part) ∷ rest else (k, v) ∷ later

abbrev pub is_cancelled : StopReason → Bool
is_cancelled StopReason.cancelled = true
is_cancelled _ = false

abbrev pub is_completed : StopReason → Bool
is_completed StopReason.completed = true
is_completed _ = false

-- The texts of a prompt, as the history keeps them.
unfoldable pub user_texts : List Content → List Content
user_texts [] = []
user_texts (text t ∷ rest) = text ("Routing user:\n" <> t) ∷ user_texts rest
user_texts (image content mime ∷ rest) = user_texts rest
user_texts (resource_link uri name description mime ∷ rest) = user_texts rest

abbrev pub responses : List (String × String) → List Content
responses = map λ message. text ("Routing response:\n" <> message.1)

-- How a prompt ends.
pub data Answered (T : Type 0) : Type 0 where
  answered : T → StopReason → Answered T
  raised : T → Answered T

module _ {C S : Type 0} where
  abbrev pub session_of : Phased (Session C S) → Session C S
  session_of (replied s reply) = s
  session_of (failed s) = s

  module _ (orchestrated : Bool) (host : Host) where
    -- The session and the messages of the turn. A phase tool that throws fails for the model alone.
    unfoldable pub run_turn :
        List (TurnEvent C)
        → Session C S × List (String × String)
        → Session C S × List (String × String)
    unfolding run_phase add_chunk
    run_turn [] st = st
    run_turn (calls call action weather ∷ events) (s, texts) =
        let called = record call { in_turn = orchestrated && call.in_turn } in
        run_turn events (session_of (run_phase host weather called action s), texts)
    run_turn (chunk id part ∷ events) (s, texts) = run_turn events (s, add_chunk id part texts)

    -- Behind `routing.prompt`.
    unfoldable pub end_turn :
        TurnEnd → Session C S × List (String × String) → Answered (Session C S)
    unfolding user_texts
    end_turn breaks (s, texts) = raised (record s { routing_interrupted = not orchestrated })
    end_turn (ends reason aborted) (s, texts) =
        let interrupted : Bool = not orchestrated && (is_cancelled reason || aborted) in
        let heard : List Content =
          (s.history ++ user_texts s.routing_input)
          ++ (if is_completed reason then responses texts else []) in
        let kept : Session C S =
          if not interrupted && not (is_cancelled reason) && not aborted
          then record s {
            routing_interrupted = interrupted;
            history = heard;
            routing_history = length heard;
          }
          else record s { routing_interrupted = interrupted } in
        answered kept (if aborted then StopReason.cancelled else reason)

    unfoldable pub enter_turn : Turn C S → List Content → Session C S → Session C S
    unfolding archive_workflow
    enter_turn turn content s =
        record (if not orchestrated || not (is_unfinished s.engine)
          then archive_workflow host.stringify s
          else s) { routing_before = turn.before; routing_input = content; phase_used = false }

    unfoldable pub route : Turn C S → List Content → Session C S → Answered (Session C S)
    unfolding enter_turn end_turn run_turn
    route turn content s =
        let entered = enter_turn turn content s in
        if turn.prepared
        then end_turn turn.ending (run_turn turn.events (entered, []))
        else raised (record entered { routing_interrupted = not orchestrated })
