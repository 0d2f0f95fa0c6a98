-- ===== src/Engine/Standing.antt =====
-- core/engine.ts, `advance`: where the walk over the records stops, and what it does to them.
use Prim.Native.String.{String}
use d3r.Base.{
  true, false, ◌||◌, ◌≡◌, refl, List, [], ◌∷◌, Option, none, some, inl, inr, find, All, arith,
  Bool-cases, ◌⊎◌, get_last?, ◌==◌,
}
use d3r.Base.Outcome.{Result, ok, fail, OnOk, OnOk-bind, OnOk-use, OnOk-both}
use d3r.Engine.State.{
  LoopScope, RecordKind, RecordStatus, ExecutionRecord, EngineStatus, EngineState, EngineError,
  is_pending, is_agent, is_human, PauseKind, is_blocked, is_waiting, set_status,
}
use d3r.Engine.Advance.{Stop, behind, visit, walk, conclude, advance, pause, exhausted_message}

-- Why the walk stopped, read off the records that it leaves.
abbrev pub StopsAt : Stop → List ExecutionRecord → Type 0
StopsAt Stop.at_end rs = All (λ r. is_pending r ≡ false) rs
StopsAt Stop.at_agent rs =
    (r : ExecutionRecord) × (find is_pending rs ≡ some r) × (is_agent r ≡ true)
StopsAt (Stop.at_human prompt) rs =
    (r : ExecutionRecord) × (find is_waiting rs ≡ some r)
    × (is_human r ≡ true)
    × (r.prompt ≡ prompt)
StopsAt (Stop.exhausted loop) rs =
    (r : ExecutionRecord) × (find is_blocked rs ≡ some r)
    × (get_last? r.loops ≡ some loop)
    × (loop.iteration ≡ loop.max)

-- No record waits or is blocked yet.
abbrev pub IsClear : List ExecutionRecord → Type 0
IsClear rs = All (λ r. (is_waiting r || is_blocked r) ≡ false) rs

abbrev Stopped : Result (List ExecutionRecord × Stop) EngineError → Type 0
Stopped = OnOk (λ out. StopsAt out.1 out.0)

StopsAt-behind :
    (r : ExecutionRecord) (rs : List ExecutionRecord) (stop : Stop)
    → is_pending r ≡ false
    → (is_waiting r || is_blocked r) ≡ false
    → StopsAt stop rs
    → StopsAt stop (r ∷ rs)
StopsAt-behind r rs Stop.at_end p c h = (p, h)
StopsAt-behind r rs Stop.at_agent p c (x, e, k) = (x, rw p e, k)
StopsAt-behind r rs (Stop.at_human prompt) p c (x, e, k, q) = (x, rw (not_waiting r c) e, k, q)
  where
    not_waiting :
        (r : ExecutionRecord) → (is_waiting r || is_blocked r) ≡ false → is_waiting r ≡ false
    not_waiting r c = ground arith
StopsAt-behind r rs (Stop.exhausted loop) p c (x, e, k, q) = (x, rw (not_blocked r c) e, k, q)
  where
    not_blocked :
        (r : ExecutionRecord) → (is_waiting r || is_blocked r) ≡ false → is_blocked r ≡ false
    not_blocked r c = ground arith

Stopped-behind :
    (r : ExecutionRecord) (rest : Result (List ExecutionRecord × Stop) EngineError)
    → is_pending r ≡ false
    → (is_waiting r || is_blocked r) ≡ false
    → Stopped rest
    → Stopped (behind r rest)
Stopped-behind r (ok (rs, stop)) p c h = StopsAt-behind r rs stop p c h
Stopped-behind r (fail e) p c h = tt

visit-Stopped :
    (kind : RecordKind) (loop : Option LoopScope) (r : ExecutionRecord) (rs : List ExecutionRecord)
    (rest : Result (List ExecutionRecord × Stop) EngineError)
    → r.kind ≡ kind
    → get_last? r.loops ≡ loop
    → is_pending r ≡ true
    → Stopped rest
    → Stopped (visit kind loop r rs rest)
visit-Stopped RecordKind.human loop r rs rest k l p h =
    (set_status RecordStatus.waiting r, refl, ground arith, refl)
visit-Stopped RecordKind.agent loop r rs rest k l p h = (r, rw p refl, ground arith)
visit-Stopped RecordKind.loop_end none r rs rest k l p h = tt
visit-Stopped RecordKind.loop_end (some loop) r rs rest k l p h =
    elim (Bool-cases (loop.iteration == loop.max)) [
      | inl q ↦ rw q (set_status RecordStatus.blocked r, refl, l, ground arith)
      | inr q ↦ rw q (Stopped-behind (set_status RecordStatus.completed r) rest refl refl h)
    ]

walk-Stopped : (rs : List ExecutionRecord) → IsClear rs → Stopped (walk rs)
unfolding walk
walk-Stopped [] c = tt
walk-Stopped (r ∷ rs) (c, cs) = elim (Bool-cases (is_pending r)) [
  | inl q ↦
      rw q
        (visit-Stopped r.kind (get_last? r.loops) r rs (walk rs) refl refl q (walk-Stopped rs cs))
  | inr q ↦ rw q (Stopped-behind r (walk rs) q c (walk-Stopped rs cs))
]

-- The walk passes a record over: it is not pending and stays as it is, or it is the end of a loop that
-- has a further iteration, and is completed.
abbrev IsPassed : ExecutionRecord → ExecutionRecord → Type 0
IsPassed r t =
    ((is_pending r ≡ false) × (t ≡ r))
    ⊎ ((is_pending r ≡ true)
        × (r.kind ≡ RecordKind.loop_end)
        × (loop : LoopScope) × (get_last? r.loops ≡ some loop)
        × ((loop.iteration == loop.max) ≡ false)
        × (t ≡ set_status RecordStatus.completed r))

-- The walk stops at a pending record, and what it makes of it.
abbrev IsHalted : Stop → ExecutionRecord → ExecutionRecord → Type 0
IsHalted Stop.at_end r t = ⊥
IsHalted Stop.at_agent r t = (is_pending r ≡ true) × (is_agent r ≡ true) × (t ≡ r)
IsHalted (Stop.at_human prompt) r t =
    (is_pending r ≡ true)
    × (is_human r ≡ true)
    × (r.prompt ≡ prompt)
    × (t ≡ set_status RecordStatus.waiting r)
IsHalted (Stop.exhausted loop) r t =
    (is_pending r ≡ true)
    × (r.kind ≡ RecordKind.loop_end)
    × (get_last? r.loops ≡ some loop)
    × (loop.iteration ≡ loop.max)
    × (t ≡ set_status RecordStatus.blocked r)

-- The records before and after: those in front of the one where the walk stops are passed over, those
-- behind it stay as they are.
abbrev pub Walked : Stop → List ExecutionRecord → List ExecutionRecord → Type 0
Walked stop [] [] = stop ≡ Stop.at_end
Walked stop (r ∷ rs) (t ∷ ts) = (IsHalted stop r t × (ts ≡ rs)) ⊎ (IsPassed r t × Walked stop rs ts)
Walked stop _ _ = ⊥

abbrev Walks : List ExecutionRecord → Result (List ExecutionRecord × Stop) EngineError → Type 0
Walks rs = OnOk (λ out. Walked out.1 rs out.0)

Walks-behind :
    (r t : ExecutionRecord) (rs : List ExecutionRecord)
    (rest : Result (List ExecutionRecord × Stop) EngineError)
    → IsPassed r t
    → Walks rs rest
    → Walks (r ∷ rs) (behind t rest)
Walks-behind r t rs (ok out) p h = inr (p, h)
Walks-behind r t rs (fail e) p h = tt

visit-Walks :
    (kind : RecordKind) (loop : Option LoopScope) (r : ExecutionRecord) (rs : List ExecutionRecord)
    (rest : Result (List ExecutionRecord × Stop) EngineError)
    → r.kind ≡ kind
    → get_last? r.loops ≡ loop
    → is_pending r ≡ true
    → Walks rs rest
    → Walks (r ∷ rs) (visit kind loop r rs rest)
visit-Walks RecordKind.human loop r rs rest k l p h = inl ((p, ground arith, refl, refl), refl)
visit-Walks RecordKind.agent loop r rs rest k l p h = inl ((p, ground arith, refl), refl)
visit-Walks RecordKind.loop_end none r rs rest k l p h = tt
visit-Walks RecordKind.loop_end (some loop) r rs rest k l p h =
    elim (Bool-cases (loop.iteration == loop.max)) [
      | inl q ↦ rw q (inl ((p, k, l, ground arith, refl), refl))
      | inr q ↦ rw q (
          Walks-behind r (set_status RecordStatus.completed r) rs rest
            (inr (p, k, loop, l, q, refl)) h)
    ]

walk-Walks : (rs : List ExecutionRecord) → Walks rs (walk rs)
unfolding walk
walk-Walks [] = refl
walk-Walks (r ∷ rs) = elim (Bool-cases (is_pending r)) [
  | inl q ↦ rw q (visit-Walks r.kind (get_last? r.loops) r rs (walk rs) refl refl q (walk-Walks rs))
  | inr q ↦ rw q (Walks-behind r r rs (walk rs) (inl (q, refl)) (walk-Walks rs))
]

-- Why an engine stopped: the state and the records that it has, and how it came to them.
abbrev Found : Stop → List ExecutionRecord → List ExecutionRecord → Type 0
Found stop rs ts = StopsAt stop ts × Walked stop rs ts

-- Where an engine stands after it has advanced: what its status and pause say of its records, and of those
-- before.
abbrev pub Stands : EngineState → EngineState → Type 0
Stands s t =
    ((t.status ≡ EngineStatus.completed) × (t.pause ≡ none) × Found Stop.at_end s.records t.records)
    ⊎ ((t.status ≡ EngineStatus.ready) × (t.pause ≡ none) × Found Stop.at_agent s.records t.records)
    ⊎ ((prompt : Option String) × (t.status ≡ EngineStatus.waiting)
        × (t.pause ≡ some (record { kind = PauseKind.human; message = prompt }))
        × Found (Stop.at_human prompt) s.records t.records)
    ⊎ ((loop : LoopScope) × (t.status ≡ EngineStatus.blocked)
        × (t.pause
            ≡ some (record { kind = PauseKind.failure; message = some (exhausted_message loop) }))
        × Found (Stop.exhausted loop) s.records t.records)

conclude-Stands :
    (s : EngineState) (rs : List ExecutionRecord) (stop : Stop)
    → Found stop s.records rs
    → Stands s (conclude (record s { pause = none; records = rs }) stop)
unfolding pause
conclude-Stands s rs Stop.at_end h = inl (refl, refl, h)
conclude-Stands s rs Stop.at_agent h = inr (inl (refl, refl, h))
conclude-Stands s rs (Stop.at_human prompt) h = inr (inr (inl (prompt, refl, refl, h)))
conclude-Stands s rs (Stop.exhausted loop) h = inr (inr (inr (loop, refl, refl, h)))

-- Advancing from records of which none waits or is blocked ends in one of four ways: completed with
-- no record pending; ready with an agent as the first pending record; waiting at a human checkpoint, with
-- its prompt; or blocked at the end of a loop whose last iteration is used up. The record where it stops was
-- pending, and those behind it stay as they are. Of those before it, a record that was not pending
-- stays as it is, and any other is the end of a loop with a further iteration, and is completed; so no
-- agent and no human checkpoint is passed over.
pub advance-Stands : (s t : EngineState) → IsClear s.records → advance s ≡ ok t → Stands s t
unfolding advance
advance-Stands s t c h =
    OnOk-use (Stands s) (advance s)
      (OnOk-bind (λ out. StopsAt out.1 out.0 × Walked out.1 s.records out.0) (Stands s)
        (walk s.records) _
        (OnOk-both (λ out. StopsAt out.1 out.0) (λ out. Walked out.1 s.records out.0)
          (walk s.records) (walk-Stopped s.records c) (walk-Walks s.records))
        λ out k. conclude-Stands s out.0 out.1 k)
      h
