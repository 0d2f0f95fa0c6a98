-- ===== src/Engine/Reach.antt =====
-- core/engine.ts: every transition that the engine offers, as one step relation, and what holds of
-- all that can be reached by it.
use Prim.Native.String.{String}
use mathlib.Core.Path.{subst}
use mathlib.Core.Option.{some-injective, none-ne-some}
use d3r.Base.{sym, ◌≡◌, refl, List, [], ◌∷◌, Option, map, get_elem?, some, ℕ, zero, suc}
use d3r.Base.Outcome.{ok, OnOk-use}
use d3r.Engine.State.{ExecutionRecord, EngineState}
use d3r.Engine.Transition.{Reported, begin_batch, record_outcome}
use d3r.Engine.Settle.{settle_batch, answer_checkpoint, interrupt_engine}
use d3r.Engine.Checkpoint.{topology, parse_engine_state}
use d3r.Engine.Resume.{
  resume_interrupted_batch, resume_reported_batch, restart_blocked_batch, restore_engine,
}
use d3r.Engine.Lifecycle.{
  Evolved, Evolved-refl, Evolved-trans, Evolved-topology, IsFinal, Life-final,
}
use d3r.Engine.Steps.{begin_batch-Grows, record_outcome-Grows}
use d3r.Engine.Settlement.{settle_batch-Grows, answer_checkpoint-Grows, interrupt_engine-Evolved}
use d3r.Engine.Continue.{
  parse-Grows, resume_interrupted-Grows, resume_reported-Grows, restart_blocked-Grows,
  restore-Grows,
}

pub data Step (s t : EngineState) : Type 0 where
  begins : begin_batch s ≡ ok t → Step s t
  records_outcome :
      (id : String) (outcome : Reported) (error : Option String)
      → record_outcome s id outcome error ≡ ok t
      → Step s t
  settles : settle_batch s ≡ ok t → Step s t
  answers : (text : String) → answer_checkpoint s text ≡ ok t → Step s t
  interrupts : (message : String) → interrupt_engine s message ≡ t → Step s t
  parses : parse_engine_state s ≡ ok t → Step s t
  resumes_interrupted : resume_interrupted_batch s ≡ ok t → Step s t
  resumes_reported : resume_reported_batch s ≡ ok t → Step s t
  restarts : restart_blocked_batch s ≡ ok t → Step s t
  restores : restore_engine s ≡ ok t → Step s t

pub data Reach (s : EngineState) : EngineState → Type 0 where
  here : Reach s s
  step : {t u : EngineState} → Reach s t → Step t u → Reach s u

Step-Evolved : {s t : EngineState} → Step s t → Evolved s.records t.records
Step-Evolved {s} (begins e) = OnOk-use _ _ (begin_batch-Grows s) e
Step-Evolved {s} (records_outcome id o x e) = OnOk-use _ _ (record_outcome-Grows s id o x) e
Step-Evolved {s} (settles e) = OnOk-use _ _ (settle_batch-Grows s) e
Step-Evolved {s} (answers text e) = OnOk-use _ _ (answer_checkpoint-Grows s text) e
Step-Evolved {s} (interrupts m e) =
    subst (λ u. Evolved s.records u.records) e (interrupt_engine-Evolved s m)
Step-Evolved {s} (parses e) = OnOk-use _ _ (parse-Grows s) e
Step-Evolved {s} (resumes_interrupted e) = OnOk-use _ _ (resume_interrupted-Grows s) e
Step-Evolved {s} (resumes_reported e) = OnOk-use _ _ (resume_reported-Grows s) e
Step-Evolved {s} (restarts e) = OnOk-use _ _ (restart_blocked-Grows s) e
Step-Evolved {s} (restores e) = OnOk-use _ _ (restore-Grows s) e

pub Reach-Evolved : {s t : EngineState} → Reach s t → Evolved s.records t.records
Reach-Evolved {s} here = Evolved-refl s.records
Reach-Evolved {s} (step {t} {u} r st) =
    Evolved-trans s.records t.records u.records (Reach-Evolved r) (Step-Evolved st)

-- Whatever the engine does, in whatever order, the graph of the records stays the one that the
-- workflow was expanded to: the records keep their number, order, identities, batches, roles,
-- prompts and loops.
pub Reach-topology :
    {s t : EngineState} → Reach s t → map topology t.records ≡ map topology s.records
Reach-topology {s} {t} r = Evolved-topology s.records t.records (Reach-Evolved r)

Evolved-final :
    (rs ss : List ExecutionRecord) (i : ℕ) (r : ExecutionRecord)
    → Evolved rs ss
    → get_elem? rs i ≡ some r
    → IsFinal r.status
    → (r' : ExecutionRecord) × (get_elem? ss i ≡ some r') × (r'.status ≡ r.status)
Evolved-final [] ss i r h e f = absurd (none-ne-some r e)
Evolved-final (x ∷ rs) [] i r h e f = absurd h
Evolved-final (x ∷ rs) (y ∷ ss) zero r h e f =
    let same : x ≡ r = some-injective x r e in
    (
      y,
      refl,
      subst (λ z. y.status ≡ z.status) same
          (Life-final h.0.life (subst (λ z. IsFinal z.status) (sym same) f)),
    )
Evolved-final (x ∷ rs) (y ∷ ss) (suc i) r h e f = Evolved-final rs ss i r h.1 e f

-- A completed or skipped record is final: in every state that can be reached from one where the
-- record at place `i` has such a status, it is still there with the same status. So no work that
-- was established as done is ever run again.
pub Reach-final :
    {s t : EngineState} (i : ℕ) (r : ExecutionRecord)
    → Reach s t
    → get_elem? s.records i ≡ some r
    → IsFinal r.status
    → (r' : ExecutionRecord) × (get_elem? t.records i ≡ some r') × (r'.status ≡ r.status)
Reach-final {s} {t} i r h = Evolved-final s.records t.records i r (Reach-Evolved h)
