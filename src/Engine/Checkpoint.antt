-- ===== src/Engine/Checkpoint.antt =====
-- core/engine.ts, `parseEngineState`: a persisted state is accepted only if its records are those of
-- the pinned workflow and its fields agree with one another. The schemas (zod) are written out as the
-- tests that a value of the right shape must still pass.
use Prim.Native.String.{String}
use native.Mathlib.Decide.{ℕ_discrete}
use mathlib.Core.Option
use d3r.Base.{
  ap, ◌≡◌, Bool, true, false, not, ◌&&◌, ◌||◌, List, [], ◌∷◌, Option, none, some, str_eq, any, all,
  filter, length, leb, ltb, map, refl, eq_iff,
}
use d3r.Base.Text.{is_blank}
use d3r.Base.Outcome.{Result, ok, fail, ◌>>=◌, ◌>>◌, reject_if}
use d3r.Engine.State.{
  ReportStatus, WorkflowOutcome, max_records, LoopScope, RecordKind, RecordStatus, ExecutionRecord,
  Mode, semi, EngineStatus, PauseKind, Pause, EngineState, EngineError, is_pending, is_running,
  is_completed, is_settled, is_waiting, is_agent, is_human, reports, in_batch,
}
use d3r.Engine.State
use d3r.Engine.Compile.{compile_workflow}
use d3r.Engine.Transition.{Next, no_mode, is_ready, is_active, is_truthy, report, parse_outcome}
use d3r.Engine.Settle.{is_semi, is_waiting_status}

abbrev pub loop_ok : LoopScope → Bool
loop_ok scope = leb 1 scope.iteration && leb 1 scope.max

-- An optional outcome; `none` is a refusal.
unfoldable pub parse_stored : Option WorkflowOutcome → Option (Option WorkflowOutcome)
unfolding parse_outcome
parse_stored none = some none
parse_stored (some o) = Option.map some (parse_outcome (report o))

-- The element of `records` in the schema: an outcome's summary is trimmed.
unfoldable pub parse_record : ExecutionRecord → Result ExecutionRecord EngineError
unfolding parse_stored
parse_record r = do
  reject_if (not (all loop_ok r.loops)) State.schema
  elim (parse_stored r.outcome) [
    | none ↦ fail State.schema
    | some o ↦ ok (record r { outcome = o })
  ]

unfoldable pub parse_records : List ExecutionRecord → Result (List ExecutionRecord) EngineError
parse_records [] = ok []
parse_records (r ∷ rs) = do r' ← parse_record r; rs' ← parse_records rs; ok (r' ∷ rs')

abbrev pub pause_ok : Option Pause → Bool
pause_ok none = true
pause_ok (some p) = elim p.message [ none ↦ false | some m ↦ true ]

abbrev pub breaks_schema : EngineState → Bool
breaks_schema state = not (pause_ok state.pause) || ltb max_records (length state.records)

-- `EngineState.parse`
unfoldable pub parse_schema : EngineState → Next
unfolding parse_records parse_record
parse_schema state = do
  reject_if (breaks_schema state) State.schema
  records ← parse_records state.records
  ok (record state { records = records })

pub record Topology : Type 0 where
  pub id : String
  pub kind : RecordKind
  pub batch : String
  pub role : Option String
  pub prompt : Option String
  pub loops : List LoopScope

unfoldable pub topology : ExecutionRecord → Topology
topology r = record {
  id = r.id;
  kind = r.kind;
  batch = r.batch;
  role = r.role;
  prompt = r.prompt;
  loops = r.loops;
}

pub str_eq-false : (s t : String) → str_eq s t ≡ false → ¬ (s ≡ t)
str_eq-false s t e p = cc (e, (eq_iff s t).1 p)

abbrev pub decide_eq : (s t : String) (b : Bool) → str_eq s t ≡ b → Dec (s ≡ t)
decide_eq s t true e = yes ((eq_iff s t).0 e)
decide_eq s t false e = no (str_eq-false s t e)

abbrev pub String-discrete : Discrete String
String-discrete s t = decide_eq s t (str_eq s t) refl

-- `JSON.stringify` of two lists of topologies is the same text exactly if the lists are equal.
unfoldable pub Topologies-discrete : Discrete (List Topology)
Topologies-discrete = hlevel (String-discrete, ℕ_discrete)

same_list : List Topology → List Topology → Bool
unfolding Topologies-discrete
same_list xs ys = elim (Topologies-discrete xs ys) [ yes p ↦ true | no p ↦ false ]

unfoldable pub same_topology : List ExecutionRecord → List ExecutionRecord → Bool
unfolding topology same_list
same_topology xs ys = same_list (map topology xs) (map topology ys)

pub same_topology_of_eq :
    (rs xs ys : List ExecutionRecord)
    → map topology ys ≡ map topology xs
    → same_topology rs ys ≡ same_topology rs xs
unfolding same_topology
same_topology_of_eq rs xs ys e = ap (same_list (map topology rs)) e

abbrev pub incomplete : ExecutionRecord → Bool
incomplete r =
    is_agent r && is_completed r && (not (reports ReportStatus.completed r) || is_truthy r.error)

abbrev pub unanswered : ExecutionRecord → Bool
unanswered r = is_human r && is_completed r && (elim r.answer [ none ↦ true | some a ↦ is_blank a ])

abbrev pub strays : EngineState → ExecutionRecord → Bool
strays state r =
    is_running r && (not (is_active state.status) || not (in_batch state.active_batch r))

abbrev Checked : Type 0
Checked = Result (Unit {0}) EngineError

unfoldable pub check_record : EngineState → ExecutionRecord → Checked
check_record state r = do
  reject_if (incomplete r) State.incomplete_report
  reject_if (unanswered r) State.no_human_answer
  reject_if (strays state r) State.stray_running

unfoldable pub check_records : EngineState → List ExecutionRecord → Checked
unfolding check_record
check_records state [] = ok tt
check_records state (r ∷ rs) = do check_record state r; check_records state rs

abbrev pub has_pause : EngineState → Bool
has_pause state = elim state.pause [ none ↦ false | some p ↦ true ]

abbrev pub has_active_batch : EngineState → Bool
has_active_batch state = elim state.active_batch [ none ↦ false | some b ↦ true ]

abbrev pub is_paused_status : EngineStatus → Bool
is_paused_status EngineStatus.waiting = true
is_paused_status EngineStatus.blocked = true
is_paused_status EngineStatus.interrupted = true
is_paused_status _ = false

-- `a !== b` on Booleans
abbrev pub differ : Bool → Bool → Bool
differ true b = not b
differ false b = b

abbrev pub same_kind : PauseKind → PauseKind → Bool
same_kind PauseKind.mode PauseKind.mode = true
same_kind PauseKind.human PauseKind.human = true
same_kind PauseKind.semi PauseKind.semi = true
same_kind PauseKind.report PauseKind.report = true
same_kind PauseKind.failure PauseKind.failure = true
same_kind PauseKind.interrupted PauseKind.interrupted = true
same_kind _ _ = false

-- `state.pause?.kind === k`
abbrev pub kind_is : PauseKind → EngineState → Bool
kind_is k state = elim state.pause [ none ↦ false | some p ↦ same_kind k p.kind ]

abbrev pub is_done : EngineStatus → Bool
is_done EngineStatus.completed = true
is_done _ = false

abbrev pub unfinished : List ExecutionRecord → List ExecutionRecord
unfinished = filter (λ r. not (is_settled r))

abbrev pub undecided : EngineState → Bool
undecided state =
    str_eq state.command "develop"
    && no_mode state.mode
    && (any (λ r. not (is_pending r)) state.records
        || (not (kind_is PauseKind.mode state) && not (kind_is PauseKind.interrupted state)))

-- `unfinished[0]?.kind !== "agent" || unfinished.some(…)`
abbrev pub starts_agents : List ExecutionRecord → Bool
starts_agents [] = false
starts_agents (r ∷ rs) = is_agent r && all is_pending (r ∷ rs)

abbrev pub bypasses : EngineState → Bool
bypasses state =
    (is_ready state.status || kind_is PauseKind.semi state)
    && (not (starts_agents (unfinished state.records))
        || (kind_is PauseKind.semi state && not (is_semi state.mode)))

abbrev pub starts_human : List ExecutionRecord → Bool
starts_human [] = false
starts_human (r ∷ rs) = is_human r && is_waiting r && all is_pending rs

abbrev pub lacks_human : EngineState → Bool
lacks_human state = kind_is PauseKind.human state && not (starts_human (unfinished state.records))

abbrev pub needs_human : ExecutionRecord → Bool
needs_human r = is_waiting r && reports ReportStatus.needs_human r

abbrev pub lacks_report : EngineState → Bool
lacks_report state =
    kind_is PauseKind.report state && not (any needs_human (unfinished state.records))

abbrev pub is_blocked_status : EngineStatus → Bool
is_blocked_status EngineStatus.blocked = true
is_blocked_status _ = false

abbrev pub is_interrupted_status : EngineStatus → Bool
is_interrupted_status EngineStatus.interrupted = true
is_interrupted_status _ = false

abbrev pub mismatches : EngineState → Bool
mismatches state =
    (is_blocked_status state.status && not (kind_is PauseKind.failure state))
    || (is_interrupted_status state.status && not (kind_is PauseKind.interrupted state))
    || (is_waiting_status state.status
        && not (
            kind_is PauseKind.human state
            || kind_is PauseKind.mode state
            || kind_is PauseKind.semi state
            || kind_is PauseKind.report state))

-- The checks after the schema's, in order.
unfoldable pub validate : EngineState → Checked
unfolding compile_workflow same_topology check_records
validate state = do
  compiled ← compile_workflow state.workflow state.command
  reject_if (not (same_topology compiled state.records)) State.topology
  check_records state state.records
  reject_if (differ (is_active state.status) (has_active_batch state)) State.bad_active_batch
  reject_if (is_done state.status && any (λ r. not (is_settled r)) state.records)
      State.unfinished_records
  reject_if (differ (is_paused_status state.status) (has_pause state)) State.bad_pause
  reject_if (undecided state) State.no_mode
  reject_if (bypasses state) State.would_bypass
  reject_if (lacks_human state) State.bad_human
  reject_if (lacks_report state) State.no_needs_human
  reject_if (mismatches state) State.pause_mismatch

unfoldable pub parse_engine_state : EngineState → Next
unfolding parse_schema validate
parse_engine_state input = do state ← parse_schema input; validate state; ok state
