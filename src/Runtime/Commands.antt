-- ===== src/Runtime/Commands.antt =====
-- core/engine.ts, seen from cli/src/workflow-runtime.ts: the command of an engine, through each transition.
use Prim.Native.String.{String}
use d3r.Base.{
  str_eq, ◌&&◌, ◌≡◌, refl, ◌∙◌, Option, none, some, inl, inr, any, find, Bool-cases, Option-cases,
}
use d3r.Base.Text.{is_blank}
use d3r.Base.Outcome.{ok, ◌>>=◌, OnOk, OnOk-bind, OnOk-map, OnOk-guard, OnOk-behind, OnOk-then}
use d3r.Engine.State.{
  RecordStatus, ExecutionRecord, PauseKind, Mode, EngineStatus, EngineState, set_status,
}
use d3r.Engine.Advance.{Stop, conclude, advance, walk, pause}
use d3r.Engine.Transition.{
  Next, no_mode, create_engine, Reported, batch_to_begin, begin_batch, record_outcome, is_ready,
  is_inactive, has_id, update_first,
}
use d3r.Engine.Settle.{
  interrupt_engine, pause_between, settle_with, settle_batch, is_unsettled, is_semi, failure_of,
  summary_of, waits_for_human, answer_record, answer_human, answer_mode, answer_for, mode_of,
  answer_checkpoint, refuses_answer,
}
use d3r.Engine.Checkpoint.{parse_schema, parse_records, breaks_schema, validate, parse_engine_state}
use d3r.Engine.Resume.{
  Held, interrupted, waiting, blocked, is_held, rerun, restarted, check_resumable,
  not_interrupted_here, not_reported_here, not_blocked_here, unreported, resume_interrupted_batch,
  resume_reported_batch, restart_blocked_batch,
}
use d3r.Engine.Loops.{close_loops}
use d3r.Engine.Compile.{compile_workflow}
use d3r.Schema.{Workflow}
use d3r.Cli.Continuations.{resume_by, resume_workflow}

-- The command stays.
abbrev pub Named : EngineState → EngineState → Type 0
Named s t = t.command ≡ s.command

abbrev pub Keeps : EngineState → Next → Type 0
Keeps s = OnOk (Named s)

pub begin_batch-Keeps : (s : EngineState) → Keeps s (begin_batch s)
unfolding begin_batch
begin_batch-Keeps s = elim (Bool-cases (is_ready s.status)) [
  | inr e ↦ rw e tt
  | inl e ↦
      rw e (elim (Option-cases (batch_to_begin s.records)) [
        | inl n ↦ rw n tt
        | inr (b, n) ↦ rw n refl
      ])
]

pub record_outcome-Keeps :
    (s : EngineState) (id : String) (o : Reported) (error : Option String)
    → Keeps s (record_outcome s id o error)
unfolding record_outcome
record_outcome-Keeps s id o error = elim (Option-cases (find (has_id id) s.records)) [
  | inl e ↦ rw (e, record_outcome) tt
  | inr (r, e) ↦ elim (Bool-cases (is_inactive s r)) [
    | inl q ↦ rw (e, record_outcome, q) tt
    | inr q ↦ rw (e, record_outcome, q) refl
  ]
]

conclude-Keeps : (s : EngineState) (stop : Stop) → Named s (conclude s stop)
unfolding pause
conclude-Keeps s (Stop.at_human prompt) = refl
conclude-Keeps s Stop.at_agent = refl
conclude-Keeps s (Stop.exhausted loop) = refl
conclude-Keeps s Stop.at_end = refl

pub advance-Keeps : (s : EngineState) → Keeps s (advance s)
unfolding advance
advance-Keeps s =
    OnOk-behind (Named s) (walk s.records) _
      λ out. conclude-Keeps (record s { pause = none; records = out.0 }) out.1

pause_between-Keeps : (s : EngineState) → Named s (pause_between s)
unfolding pause
pause_between-Keeps s = elim (Bool-cases (is_semi s.mode && is_ready s.status)) [
  | inl e ↦ rw e refl
  | inr e ↦ rw e refl
]

settle_with-Keeps :
    (blocked human : Option ExecutionRecord) (batch : Option String) (s : EngineState)
    → Keeps s (settle_with blocked human batch s)
unfolding settle_with pause
settle_with-Keeps (some b) human batch s = OnOk-behind (Named s) (failure_of b) _ λ m. refl
settle_with-Keeps none (some h) batch s = OnOk-behind (Named s) (summary_of h) _ λ m. refl
settle_with-Keeps none none batch s =
    OnOk-bind (Named s) (Named s) (advance (record s { records = close_loops batch s.records })) _
      (advance-Keeps (record s { records = close_loops batch s.records }))
      λ t h. pause_between-Keeps t ∙ h

pub settle_batch-Keeps : (s : EngineState) → Keeps s (settle_batch s)
unfolding settle_batch
settle_batch-Keeps s =
    OnOk-guard (Named s) (is_unsettled s) _ _
      λ _. settle_with-Keeps _ _ s.active_batch (record s { active_batch = none })

answer_human-Keeps : (text : String) (s : EngineState) → Keeps s (answer_human text s)
unfolding answer_human
answer_human-Keeps text s = elim (Option-cases (find waits_for_human s.records)) [
  | inl e ↦ rw (e, answer_human) tt
  | inr (r, e) ↦
      rw (e, answer_human)
        (advance-Keeps
          (record s { records = update_first waits_for_human (answer_record text) s.records }))
]

answer_mode-Keeps : (text : String) (s : EngineState) → Keeps s (answer_mode text s)
unfolding answer_mode
answer_mode-Keeps text s = elim (Option-cases (mode_of text)) [
  | inl e ↦ rw (e, answer_mode) tt
  | inr (m, e) ↦ rw (e, answer_mode) (advance-Keeps (record s { mode = some m }))
]

answer_for-Keeps :
    (kind : PauseKind) (text : String) (s : EngineState) → Keeps s (answer_for kind text s)
unfolding answer_for
answer_for-Keeps PauseKind.mode text s = answer_mode-Keeps text s
answer_for-Keeps PauseKind.human text s = answer_human-Keeps text s
answer_for-Keeps PauseKind.semi text s = advance-Keeps s
answer_for-Keeps _ text s = tt

pub answer_checkpoint-Keeps : (s : EngineState) (text : String) → Keeps s (answer_checkpoint s text)
unfolding answer_checkpoint
answer_checkpoint-Keeps s text = elim (Option-cases s.pause) [
  | inl e ↦ rw (e, answer_checkpoint) tt
  | inr (p, e) ↦
      rw (e, answer_checkpoint)
        (OnOk-guard (Named s) (refuses_answer s p.kind) _ _
          λ _. OnOk-guard (Named s) (is_blank text) _ _ λ _. answer_for-Keeps p.kind text s)
]

parse_schema-Keeps : (s : EngineState) → Keeps s (parse_schema s)
unfolding parse_schema
parse_schema-Keeps s =
    OnOk-guard (Named s) (breaks_schema s) _ _
      λ _. OnOk-behind (Named s) (parse_records s.records) _ λ rs. refl

parse-Keeps : (s : EngineState) → Keeps s (parse_engine_state s)
unfolding parse_engine_state
parse-Keeps s =
    OnOk-bind (Named s) (Named s) (parse_schema s) _ (parse_schema-Keeps s)
      λ t h. OnOk-then (Named s) (validate t) (ok t) h

rechecked-Keeps :
    (status : Held) (change : ExecutionRecord → ExecutionRecord) (s t : EngineState)
    → Named s t
    → Keeps s (restarted status change t >>= parse_engine_state)
unfolding restarted
rechecked-Keeps status change s t h = elim (Option-cases (find (is_held status) t.records)) [
  | inl e ↦ rw (e, restarted) tt
  | inr (r, e) ↦
      rw (e, restarted) (OnOk-map _ (Named s) (parse_engine_state _) (λ u k. k ∙ h) (parse-Keeps _))
]

resume_interrupted-Keeps : (s : EngineState) → Keeps s (resume_interrupted_batch s)
unfolding resume_interrupted_batch
resume_interrupted-Keeps s =
    OnOk-bind (Named s) (Named s) (parse_engine_state s) _ (parse-Keeps s) λ t h.
      OnOk-guard (Named s) (not_interrupted_here t) _ _ λ _.
        OnOk-then (Named s) (check_resumable t interrupted) _
          (rechecked-Keeps interrupted (set_status RecordStatus.running) s t h)

restart_blocked-Keeps : (s : EngineState) → Keeps s (restart_blocked_batch s)
unfolding restart_blocked_batch
restart_blocked-Keeps s =
    OnOk-bind (Named s) (Named s) (parse_engine_state s) _ (parse-Keeps s) λ t h.
      OnOk-guard (Named s) (not_blocked_here t) _ _
        λ _. OnOk-then (Named s) (check_resumable t blocked) _ (rechecked-Keeps blocked rerun s t h)

resume_reported-Keeps : (s : EngineState) → Keeps s (resume_reported_batch s)
unfolding resume_reported_batch
resume_reported-Keeps s =
    OnOk-bind (Named s) (Named s) (parse_engine_state s) _ (parse-Keeps s) λ t h.
      OnOk-guard (Named s) (not_reported_here t) _ _ λ _.
        OnOk-then (Named s) (check_resumable t waiting) _ (
          OnOk-guard (Named s) (any unreported t.records) _ _
            λ _. rechecked-Keeps waiting rerun s t h)

resume_by-Keeps : (status : EngineStatus) (s : EngineState) → Keeps s (resume_by status s)
unfolding resume_by
resume_by-Keeps EngineStatus.blocked s = restart_blocked-Keeps s
resume_by-Keeps EngineStatus.interrupted s = resume_interrupted-Keeps s
resume_by-Keeps _ s = resume_reported-Keeps s

pub resume_workflow-Keeps : (s : EngineState) → Keeps s (resume_workflow s)
unfolding resume_workflow
resume_workflow-Keeps s = resume_by-Keeps s.status s

pub interrupt_engine-Keeps :
    (s : EngineState) (message : String) → Named s (interrupt_engine s message)
unfolding interrupt_engine pause
interrupt_engine-Keeps s message = refl

-- A new engine has the command that it is made for.
pub create_engine-command :
    (w : Workflow) (command : String) (mode : Option Mode)
    → OnOk (λ t. t.command ≡ command) (create_engine w command mode)
unfolding create_engine pause
create_engine-command w command mode =
    OnOk-behind (λ t. t.command ≡ command) (compile_workflow w command) _
      λ records.
        let state : EngineState = record {
          workflow = w;
          command = command;
          mode = mode;
          status = EngineStatus.ready;
          pause = none;
          active_batch = none;
          records = records;
        } in
        elim (Bool-cases (str_eq command "develop" && no_mode mode)) [
          | inl q ↦ rw q refl
          | inr q ↦ rw q (advance-Keeps state)
        ]
