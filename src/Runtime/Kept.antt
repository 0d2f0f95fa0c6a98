-- ===== src/Runtime/Kept.antt =====
-- cli/src/workflow-runtime.ts, `prompt` of an orchestrated session: the unfinished work that it leaves.
use Prim.Native.String.{String}
use d3r.Base.{
  Bool, true, false, not, ◌&&◌, ◌||◌, ◌≡◌, refl, sym, List, [], ◌∷◌, Option, none, some, inl, inr,
  Bool-cases,
}
use d3r.Engine.State.{EngineStatus, EngineState}
use d3r.Engine.Transition.{is_active}
use d3r.Engine.Settle.{interrupt_engine, interrupt_message}
use d3r.Cli.Names.{IsUuid}
use d3r.Runtime.Graph.{is_completed_status}
use d3r.Runtime.Session.{Content, Session, is_unfinished, archive_workflow}
use d3r.Runtime.Tasks.{Host}
use d3r.Runtime.Control.{run_phase}
use d3r.Runtime.Routing.{
  TurnEvent, calls, chunk, TurnEnd, ends, breaks, Turn, Answered, answered, raised, session_of,
  run_turn, end_turn, enter_turn, route, is_cancelled,
}
use d3r.Runtime.Prompts.{
  Surroundings, execute, is_running_now, interrupt_session, end_prompt, prompt,
}
use d3r.Runtime.Commands.{interrupt_engine-Keeps}
use d3r.Runtime.Belongs.{
  archive_workflow-engine, owned, owns, is_stray, Fits, owns-Fits, owns-Named,
}
use d3r.Runtime.Placed.{run_phase-Fits}

active_unfinished :
    (status : EngineStatus) → is_active status ≡ true → is_completed_status status ≡ false
active_unfinished EngineStatus.ready h = refl
active_unfinished EngineStatus.running h = refl
active_unfinished EngineStatus.waiting h = refl
active_unfinished EngineStatus.blocked h = refl
active_unfinished EngineStatus.interrupted h = refl
active_unfinished EngineStatus.completed h = sym h

or_false : (a b : Bool) → (a || b) ≡ false → a ≡ false
or_false true b h = h
or_false false b h = refl

module _ {C S : Type 0} where
  -- What a prompt leaves.
  abbrev pub session_in : Answered (Session C S) → Session C S
  session_in (answered s reason) = s
  session_in (raised s) = s

  -- Unfinished work that `restore` refuses.
  abbrev pub is_refusable : Session C S → Bool
  is_refusable s = is_stray s s.engine || (is_unfinished s.engine && s.routing_interrupted)

  unrefused : (s : Session C S) → Fits s → s.routing_interrupted ≡ false → is_refusable s ≡ false
  unrefused s f h = elim (Bool-cases (is_unfinished s.engine)) [
    | inl e ↦ rw (f, h, e) refl
    | inr e ↦ rw (f, e) refl
  ]

  abbrev Sound : Session C S → Type 0
  Sound s = Fits s × (s.routing_interrupted ≡ false)

  interrupted-Fits :
      (engine : Option EngineState) (s : Session C S)
      → (elim engine as (λ x. Bool) [ none ↦ false | some e ↦ is_active e.status ]) ≡ true
      → is_stray s engine ≡ false
      → is_stray s (elim engine as (λ x. Option EngineState) [
        | none ↦ none
        | some e ↦ some (interrupt_engine e interrupt_message)
      ])
        ≡ false
  interrupted-Fits none s h f = refl
  interrupted-Fits (some e) s h f = owns-Fits s (interrupt_engine e interrupt_message) (
      owns-Named s e (interrupt_engine e interrupt_message)
        (owned (is_completed_status e.status) (owns s e) (active_unfinished e.status h) f)
        (interrupt_engine-Keeps e interrupt_message))

  interrupt_session-Fits :
      (aborted : Bool) (s : Session C S)
      → Fits s
      → s.routing_interrupted ≡ false
      → Sound (interrupt_session true aborted s)
  unfolding interrupt_session
  interrupt_session-Fits aborted s f h = elim (Bool-cases (is_running_now true s)) [
    | inl e ↦ rw (interrupt_session, e) (interrupted-Fits s.engine s e f, h)
    | inr e ↦ rw (interrupt_session, e) (f, h)
  ]

module _ {C S : Type 0} (host : Host) where
  run_turn-Fits :
      (events : List (TurnEvent C)) (s : Session C S) (texts : List (String × String))
      → IsUuid host.uuid
      → Fits s
      → Fits (run_turn true host events (s, texts)).0
  unfolding run_turn
  run_turn-Fits [] s texts drawn f = f
  run_turn-Fits (calls call action weather ∷ events) s texts drawn f =
      run_turn-Fits events (session_of (run_phase host weather call action s)) texts drawn
        (run_phase-Fits host weather call action s drawn f)
  run_turn-Fits (chunk id part ∷ events) s texts drawn f = run_turn-Fits events s _ drawn f

  archived-Fits : (s : Session C S) → Fits (archive_workflow host.stringify s)
  archived-Fits s = rw (archive_workflow-engine host.stringify s) refl

  enter_turn-Fits :
      (turn : Turn C S) (content : List Content) (s : Session C S)
      → Fits s
      → Fits (enter_turn true host turn content s)
  unfolding enter_turn
  enter_turn-Fits turn content s f = elim (Bool-cases (not (is_unfinished s.engine))) [
    | inl e ↦ rw (e, archive_workflow-engine host.stringify s) refl
    | inr e ↦ rw e f
  ]

  end_turn-Sound :
      (ending : TurnEnd) (s : Session C S) (texts : List (String × String))
      → Fits s
      → Sound (session_in (end_turn true host ending (s, texts)))
  unfolding end_turn
  end_turn-Sound breaks s texts f = (f, refl)
  end_turn-Sound (ends reason aborted) s texts f =
      elim (Bool-cases (not (is_cancelled reason) && not aborted)) [
        | inl e ↦ rw e (f, refl)
        | inr e ↦ rw e (f, refl)
      ]

  route-Sound :
      (turn : Turn C S) (content : List Content) (s : Session C S)
      → IsUuid host.uuid
      → Fits s
      → Sound (session_in (route true host turn content s))
  unfolding route
  route-Sound turn content s drawn f =
      let entered : Session C S = enter_turn true host turn content s in
      let g = enter_turn-Fits turn content s f in
      elim (Bool-cases turn.prepared) [
        | inl e ↦
            rw (route, e)
              (end_turn-Sound turn.ending (run_turn true host turn.events (entered, [])).0
                (run_turn true host turn.events (entered, [])).1
                (run_turn-Fits turn.events entered [] drawn g))
        | inr e ↦ rw (route, e) (g, refl)
      ]

  end_prompt-Sound :
      (aborted : Bool) (a : Answered (Session C S))
      → Sound (session_in a)
      → Sound (session_in (end_prompt true aborted a))
  unfolding end_prompt
  end_prompt-Sound aborted (answered s reason) h = h
  end_prompt-Sound true (raised s) (f, h) = interrupt_session-Fits true s f h
  end_prompt-Sound false (raised s) (f, h) = interrupt_session-Fits false s f h

  -- A prompt to an orchestrated session leaves no unfinished work that `restore` would refuse because of the
  -- phase: work that belongs neither to the session's phase nor to a single role, or comes with an
  -- interrupted turn. It holds whatever the turn calls and however the prompt ends, provided that there was
  -- no such work before and that the host's UUID begins with eight lower case hexadecimal digits.
  pub prompt-restorable :
      (sky : Surroundings C S) (aborted_before aborted_after : Bool) (content : List Content)
      (s : Session C S)
      → IsUuid host.uuid
      → is_refusable s ≡ false
      → is_refusable (session_in (prompt true host sky aborted_before aborted_after content s))
        ≡ false
  unfolding prompt execute
  prompt-restorable sky true aborted_after content s drawn h = h
  prompt-restorable sky false aborted_after content s drawn h =
      let fits =
        or_false (is_stray s s.engine) (is_unfinished s.engine && s.routing_interrupted) h in
      let done = end_prompt true aborted_after (route true host sky.turn content s) in
      let (g, k) =
        end_prompt-Sound aborted_after (route true host sky.turn content s)
          (route-Sound sky.turn content s drawn fits) in
      unrefused (session_in done) g k
