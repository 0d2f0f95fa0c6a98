-- ===== src/Cli/Resumption.antt =====
-- cli/src/workflow-continuations.ts: the workflows that `canResumeWorkflow` accepts.
use d3r.Base.{
  and-true_parts, Bool, true, false, ◌&&◌, ◌||◌, List, [], ◌∷◌, some, any, all, filter, find, ◌≡◌,
  sym, ap, ◌∙◌, ◌⊎◌, inl, inr, Bool-cases, Option-cases, arith, All,
}
use d3r.Base.Outcome.{
  Result, ok, ◌>>=◌, reject_if, >>=-eq-ok, guard-eq-ok, fail-ne-ok, Result-cases, OnOk, OnOk-of,
  OnOk-behind, OnOk-use, OnOk-then,
}
use d3r.Engine.State.{
  EngineStatus, RecordStatus, set_status, ExecutionRecord, EngineState, EngineError, is_running,
}
use d3r.Engine.Checkpoint.{
  parse_engine_state, parse_schema, parse_records, breaks_schema, validate, is_blocked_status,
}
use d3r.Engine.Accepted.{ok-injective}
use d3r.Engine.Trust.{parse_engine_state_idem}
use d3r.Engine.Resume.{
  Held, is_held, check_resumable, restarted, unreported, rerun, not_interrupted_here,
  not_reported_here, not_blocked_here, restart_blocked_batch, resume_interrupted_batch,
  resume_reported_batch,
}
use d3r.Engine.Reach.{Step, resumes_interrupted, resumes_reported, restarts}
use d3r.Cli.Continuations.{
  WorkflowContinuation, resume_by, resume_workflow, can_start, is_kept, can_resume_workflow,
}

parse-status : (s t : EngineState) → parse_engine_state s ≡ ok t → t.status ≡ s.status
unfolding parse_engine_state parse_schema
parse-status s t h =
    let (u, e, h) = >>=-eq-ok (parse_schema s) _ h in
    let (_, _, h) = >>=-eq-ok (validate u) _ h in
    let again : List ExecutionRecord → Result EngineState EngineError =
      λ rs. ok (record s { records = rs }) in
    let (_, e) =
      guard-eq-ok (breaks_schema s) EngineError.schema (parse_records s.records >>= again) e in
    let (rs, _, e) = >>=-eq-ok (parse_records s.records) again e in
    sym (ap (λ x. x.status) (ok-injective e ∙ ok-injective h))

-- A batch runs again, in a state that is a valid checkpoint.
abbrev pub IsResumed : EngineState → Type 0
IsResumed t = (t.status ≡ EngineStatus.running) × (parse_engine_state t ≡ ok t)

restarted-running :
    (status : Held) (change : ExecutionRecord → ExecutionRecord) (s u : EngineState)
    → restarted status change s ≡ ok u
    → u.status ≡ EngineStatus.running
unfolding restarted
restarted-running status change s u h = elim (Option-cases (find (is_held status) s.records)) [
  | inl e ↦ absurd (fail-ne-ok (rw (e, restarted) at h))
  | inr (r, e) ↦ sym (ap (λ x. x.status) (ok-injective (rw (e, restarted) at h)))
]

rechecked-IsResumed :
    (status : Held) (change : ExecutionRecord → ExecutionRecord) (s : EngineState)
    → OnOk IsResumed (restarted status change s >>= parse_engine_state)
rechecked-IsResumed status change s = OnOk-of IsResumed _ λ t h.
    let (u, e, h) = >>=-eq-ok (restarted status change s) parse_engine_state h in
    (parse-status u t h ∙ restarted-running status change s u e, parse_engine_state_idem u t h)

resume_interrupted-IsResumed : (s : EngineState) → OnOk IsResumed (resume_interrupted_batch s)
unfolding resume_interrupted_batch
resume_interrupted-IsResumed s = OnOk-behind IsResumed (parse_engine_state s) _ λ u.
    OnOk-then IsResumed (reject_if (not_interrupted_here u) EngineError.not_interrupted) _ (
      OnOk-then IsResumed (check_resumable u Held.interrupted) _
        (rechecked-IsResumed Held.interrupted (set_status RecordStatus.running) u))

restart_blocked-IsResumed : (s : EngineState) → OnOk IsResumed (restart_blocked_batch s)
unfolding restart_blocked_batch
restart_blocked-IsResumed s = OnOk-behind IsResumed (parse_engine_state s) _ λ u.
    OnOk-then IsResumed (reject_if (not_blocked_here u) EngineError.not_blocked) _ (
      OnOk-then IsResumed (check_resumable u Held.blocked) _
        (rechecked-IsResumed Held.blocked rerun u))

resume_reported-IsResumed : (s : EngineState) → OnOk IsResumed (resume_reported_batch s)
unfolding resume_reported_batch
resume_reported-IsResumed s = OnOk-behind IsResumed (parse_engine_state s) _ λ u.
    OnOk-then IsResumed (reject_if (not_reported_here u) EngineError.not_reported) _ (
      OnOk-then IsResumed (check_resumable u Held.waiting) _ (
        OnOk-then IsResumed (reject_if (any unreported u.records) EngineError.bad_report) _
          (rechecked-IsResumed Held.waiting rerun u)))

resume_by-Step :
    (status : EngineStatus) (s t : EngineState) → resume_by status s ≡ ok t → Step s t × IsResumed t
unfolding resume_by
resume_by-Step EngineStatus.blocked s t h =
    (restarts h, OnOk-use IsResumed _ (restart_blocked-IsResumed s) h)
resume_by-Step EngineStatus.interrupted s t h =
    (resumes_interrupted h, OnOk-use IsResumed _ (resume_interrupted-IsResumed s) h)
resume_by-Step EngineStatus.ready s t h =
    (resumes_reported h, OnOk-use IsResumed _ (resume_reported-IsResumed s) h)
resume_by-Step EngineStatus.running s t h =
    (resumes_reported h, OnOk-use IsResumed _ (resume_reported-IsResumed s) h)
resume_by-Step EngineStatus.waiting s t h =
    (resumes_reported h, OnOk-use IsResumed _ (resume_reported-IsResumed s) h)
resume_by-Step EngineStatus.completed s t h =
    (resumes_reported h, OnOk-use IsResumed _ (resume_reported-IsResumed s) h)

-- Each record that runs has its conversation among the rows.
abbrev pub IsCovered : {C : Type 0} → List (WorkflowContinuation C) → ExecutionRecord → Type 0
IsCovered rows r = is_running r ≡ true → is_kept rows r ≡ true

all_kept :
    {C : Type 0} (rows : List (WorkflowContinuation C)) (rs : List ExecutionRecord)
    → all (is_kept rows) (filter is_running rs) ≡ true
    → All (IsCovered rows) rs
all_kept rows [] h = tt
all_kept rows (r ∷ rs) h = elim (Bool-cases (is_running r)) [
  | inl e ↦
      let (now, later) = and-true_parts (is_kept rows r) _ (rw e at h) in
      (λ _. now, all_kept rows rs later)
  | inr e ↦ (λ k. absurd (not_both e k), all_kept rows rs (rw e at h))
]
  where
    not_both : {b : Bool} → b ≡ false → b ≡ true → ⊥
    not_both e k = cc

-- A workflow that `canResumeWorkflow` accepts does resume: one step of the engine leads to a running
-- state that is a valid checkpoint, and each record that runs in it has a retained conversation,
-- unless the workflow was blocked.
pub can_resume_workflow-IsResumed :
    {C : Type 0} (s : EngineState) (rows : List (WorkflowContinuation C))
    → can_resume_workflow (some s) rows ≡ true
    → (t : EngineState) × (resume_workflow s ≡ ok t)
      × Step s t
      × IsResumed t
      × ((is_blocked_status s.status ≡ true) ⊎ All (IsCovered rows) t.records)
unfolding can_resume_workflow resume_workflow
can_resume_workflow-IsResumed s rows h = elim (Result-cases (resume_by s.status s)) [
  | inl (t, e) ↦
      let (step, resumed) = resume_by-Step s.status s t e in
      (t, e, step, resumed, covered t (rw (e, can_resume_workflow) at h))
  | inr (x, e) ↦ absurd (refused (can_start s) (rw (e, can_resume_workflow) at h))
]
  where
    refused : (a : Bool) → (a && false) ≡ true → ⊥
    refused a h = ground arith

    either : (a b c : Bool) → (a && (b || c)) ≡ true → (b ≡ true) ⊎ (c ≡ true)
    either a b c h = ground arith

    covered :
        (t : EngineState)
        → (can_start s
            && (is_blocked_status s.status || all (is_kept rows) (filter is_running t.records)))
          ≡ true
        → (is_blocked_status s.status ≡ true) ⊎ All (IsCovered rows) t.records
    covered t k = elim (either (can_start s) (is_blocked_status s.status) _ k) [
      | inl b ↦ inl b
      | inr a ↦ inr (all_kept rows t.records a)
    ]
