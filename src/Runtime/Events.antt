-- ===== src/Runtime/Events.antt =====
-- cli/src/workflow-runtime.ts, `runRole`: what happens while a role runs, and what its report does to the result.
use Prim.Native.String.{String}
use d3r.Base.{Bool, true, false, not, ◌||◌, List, [], ◌∷◌, Option, none, some, if◌then◌else◌}
use d3r.Engine.State.{WorkflowOutcome}
use d3r.Engine.Transition.{Reported, parse_outcome}
use d3r.Failure.Parse.{RuntimeFailure}

-- `other` is a value that a runtime should not return.
pub data StopReason : Type 0 where
  completed token_limit request_limit refused cancelled other : StopReason

-- What happens while the child exists: `report` is called, at a signal that may be aborted; or the
-- client hears that the report tool failed.
pub data Happening : Type 0 where
  reports : (value : Reported) (aborted : Bool) → Happening
  report_fails : Happening

-- A thrown error, by what `readRuntimeFailure` finds in it.
abbrev pub Thrown : Type 0
Thrown = Option RuntimeFailure

-- How far the role comes before its prompt: an error before or after there is a child, a runtime that
-- is in use already, or a prompt.
pub data Setup : Type 0 where
  fails : (with_child : Bool) → Thrown → Setup
  shared ready : Setup

pub data Ending : Type 0 where
  returns : StopReason → (aborted : Bool) → Ending
  throws : Thrown → Ending

pub record Attempt (C : Type 0) : Type 0 where
  -- before the prompt, during it and after it
  pub early : List Happening
  pub setup : Setup
  pub during : List Happening
  pub ending : Ending
  -- `child.snapshot && child.restore`; then the snapshot, if it succeeds
  pub can_save : Bool
  pub saved : Option C
  pub late : List Happening
  pub disposed : Bool
  -- the signal when the outcome is recorded
  pub aborted : Bool

pub data ResourceStop : Type 0 where
  context_limit token_limit request_limit : ResourceStop

-- `result`, without the flag `accepting`.
pub record TurnResult : Type 0 where
  pub outcome : Option WorkflowOutcome
  pub error : Option String

abbrev pub nothing_yet : TurnResult
nothing_yet = record { outcome = none; error = none }

-- `result.error ??= text`
abbrev pub or_error : String → TurnResult → TurnResult
or_error text r = elim r.error [ none ↦ record r { error = some text } | some e ↦ r ]

abbrev pub is_there : {A : Type 0} → Option A → Bool
is_there none = false
is_there (some a) = true

-- `report`
abbrev pub take_report : (accepting : Bool) → Reported → (aborted : Bool) → TurnResult → TurnResult
take_report accepting value aborted r =
    if not accepting || aborted
    then or_error "Report callback is outside its active role turn" r
    else if is_there r.outcome || not (is_there (parse_outcome value))
    then or_error "Invalid or duplicate d3r_report; workflow paused." r
    else record r { outcome = parse_outcome value }

-- The client's `activity` is the child's only during its prompt.
abbrev pub happen : (accepting : Bool) → Happening → TurnResult → TurnResult
happen accepting (reports value aborted) r = take_report accepting value aborted r
happen accepting report_fails r =
    or_error "d3r_report validation or execution failed; workflow paused." r

unfoldable pub all_happen : (accepting : Bool) → List Happening → TurnResult → TurnResult
unfolding parse_outcome
all_happen accepting [] r = r
all_happen accepting (h ∷ hs) r = all_happen accepting hs (happen accepting h r)
