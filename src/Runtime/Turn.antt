-- ===== src/Runtime/Turn.antt =====
-- cli/src/workflow-runtime.ts, `runRole`: one role, from its announcement to what is recorded. What the
-- child, the client and the clock of cancellation do is an `Attempt`.
use Prim.Native.String.{String}
use d3r.Base.{Bool, true, false, not, ◌&&◌, ◌||◌, List, Option, none, some, if◌then◌else◌}
use d3r.Base.Text.{◌<>◌}
use d3r.Engine.State.{ReportStatus}
use d3r.Failure.Codes.{Stage, Category}
use d3r.Failure.Parse.{RuntimeFailure}
use d3r.Failure.Report.{as_fields, format_runtime_failure}
use d3r.Runtime.Graph.{is_document_role}
use d3r.Runtime.Events.{
  StopReason, Happening, Thrown, Setup, fails, shared, ready, Ending, returns, throws, Attempt,
  ResourceStop, TurnResult, nothing_yet, or_error, is_there, all_happen,
}

abbrev pub reason_name : StopReason → String
reason_name StopReason.completed = "completed"
reason_name StopReason.token_limit = "token_limit"
reason_name StopReason.request_limit = "request_limit"
reason_name StopReason.refused = "refused"
reason_name StopReason.cancelled = "cancelled"
reason_name StopReason.other = ""

abbrev pub stopped_with : String → StopReason → String
stopped_with role StopReason.other = "Role returned an invalid completion reason; workflow paused."
stopped_with role reason =
    "Role " <> role <> " stopped with " <> reason_name reason <> "; completion was not established."

abbrev pub stop_of : StopReason → Option ResourceStop
stop_of StopReason.token_limit = some ResourceStop.token_limit
stop_of StopReason.request_limit = some ResourceStop.request_limit
stop_of _ = none

abbrev pub is_context_limit : RuntimeFailure → Bool
is_context_limit f = elim f.stage [
  | Stage.model_request ↦ elim f.category [ Category.context_limit ↦ true | _ ↦ false ]
  | _ ↦ false
]

abbrev pub is_finished : StopReason → Bool
is_finished StopReason.completed = true
is_finished _ = false

abbrev pub failed_with : String → Thrown → String
failed_with role none =
    "Role setup or execution failed; effects may have occurred. Workflow paused."
failed_with role (some f) = "Role " <> role <> ": " <> format_runtime_failure (as_fields f)

-- What the `try` and its `catch` leave.
pub record Settled : Type 0 where
  pub result : TurnResult
  pub stop : Option ResourceStop
  pub accepting : Bool
  pub completed_before_cancellation : Bool
  pub has_child : Bool

module _ (role : String) (orchestrated : Bool) where
  abbrev pub preserves : Bool
  preserves = orchestrated && not (is_document_role role)

  abbrev pub on_return : StopReason → (aborted : Bool) → TurnResult → Settled
  on_return reason aborted r =
      let stop : Option ResourceStop =
        if preserves && not (is_there r.error) then stop_of reason else none in
      record {
        result =
            if is_there stop || is_finished reason
            then r
            else or_error (stopped_with role reason) r;
        stop = stop;
        accepting = true;
        completed_before_cancellation = orchestrated && is_finished reason && not aborted;
        has_child = true;
      }

  abbrev pub on_throw : Thrown → TurnResult → Settled
  on_throw thrown r =
      let full : Bool =
        preserves
        && not (is_there r.error)
        && (elim thrown [ none ↦ false | some f ↦ is_context_limit f ]) in
      record {
        result = if full then r else or_error (failed_with role thrown) r;
        stop = if full then some ResourceStop.context_limit else none;
        accepting = true;
        completed_before_cancellation = false;
        has_child = true;
      }

  abbrev pub refused_with : (with_child : Bool) → String → TurnResult → Settled
  refused_with with_child text r = record {
    result = or_error text r;
    stop = none;
    accepting = false;
    completed_before_cancellation = false;
    has_child = with_child;
  }

  unfoldable pub settle_prompt : Setup → List Happening → Ending → TurnResult → Settled
  unfolding all_happen is_document_role format_runtime_failure
  settle_prompt (fails with_child thrown) hs ending r =
      refused_with with_child (failed_with role thrown) r
  settle_prompt shared hs ending r =
      refused_with false "createAgent must return a fresh, isolated runtime" r
  settle_prompt ready hs (returns reason aborted) r =
      on_return reason aborted (all_happen true hs r)
  settle_prompt ready hs (throws thrown) r = on_throw thrown (all_happen true hs r)

abbrev pub is_completed_report : ReportStatus → Bool
is_completed_report ReportStatus.completed = true
is_completed_report _ = false

-- `retainAttempt`
abbrev pub retains : Settled → Bool
retains s =
    s.accepting
    && (not s.completed_before_cancellation
        || is_there s.result.error
        || not (elim s.result.outcome [ none ↦ false | some o ↦ is_completed_report o.status ]))

-- What `finally` leaves: the result, and the conversation that is kept.
pub record Kept (C : Type 0) : Type 0 where
  pub result : TurnResult
  pub retained : Option C

abbrev pub stop_summary : String → ResourceStop → String
stop_summary role ResourceStop.context_limit =
    "Role " <> role
    <> " reached the model's context window. Its conversation and settled tool results are retained, and existing edits remain in place. Select a model with a larger context window, then ask to continue this work; no abandonment or restart is required. D3R cannot automatically compact this conversation yet."
stop_summary role _ =
    "Role " <> role
    <> " reached an inference limit. Its conversation and settled tool results are retained, and existing edits remain in place. Ask to continue this work; no abandonment or restart is required."

abbrev pub stop_name : ResourceStop → String
stop_name ResourceStop.context_limit = "context_limit"
stop_name ResourceStop.token_limit = "token_limit"
stop_name ResourceStop.request_limit = "request_limit"

module _ {C : Type 0} where
  unfoldable pub clean_up : (orchestrated : Bool) → Attempt C → Settled → Kept C
  unfolding all_happen
  clean_up orchestrated a s =
      let kept : Option C =
        if s.has_child && orchestrated && retains s && a.can_save then a.saved else none in
      let result = all_happen false a.late s.result in
      if s.has_child && not a.disposed
      then record {
        result = or_error "Role cleanup failed; workflow paused." result;
        retained = none;
      }
      else record { result = result; retained = kept }

  -- A resource limit asks the human if the conversation was kept, and is an error otherwise.
  abbrev pub after_stop : String → Option ResourceStop → Kept C → Kept C
  after_stop role none k = k
  after_stop role (some stop) k =
      if is_there k.retained && not (is_there k.result.error)
      then record k {
        result = record {
          outcome = some (record {
            status = ReportStatus.needs_human;
            summary = stop_summary role stop;
            review = none;
            all_done = none;
          });
          error = none;
        };
      }
      else record {
        retained = none;
        result =
            or_error
              ("Role "
                <> role
                <> " stopped with "
                <> stop_name stop
                <> ", but its continuation could not be saved. Existing edits remain; inspect the workspace before deciding how to recover.")
              k.result;
      }

-- A child that was cancelled cancels the whole prompt.
abbrev pub cancels : Setup → Ending → Bool
cancels ready (returns StopReason.cancelled aborted) = true
cancels _ _ = false

abbrev pub is_cut_off : {C : Type 0} → Attempt C → Bool
is_cut_off a = a.aborted || cancels a.setup a.ending

-- What a role leaves behind: its result, its conversation, and whether the result is recorded.
pub record Turned (C : Type 0) : Type 0 where
  pub result : TurnResult
  pub retained : Option C
  pub recorded : Bool

module _ {C : Type 0} (role : String) (orchestrated : Bool) where
  unfoldable pub run_role : Attempt C → Turned C
  unfolding settle_prompt clean_up all_happen
  run_role a =
      let s =
        settle_prompt role orchestrated a.setup a.during a.ending
          (all_happen false a.early nothing_yet) in
      let k = after_stop role s.stop (clean_up orchestrated a s) in
      record {
        result = k.result;
        retained = k.retained;
        recorded = not (is_cut_off a) || s.completed_before_cancellation;
      }
