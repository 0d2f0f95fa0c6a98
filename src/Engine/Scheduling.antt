-- ===== src/Engine/Scheduling.antt =====
-- core/engine.ts: which batch runs, and what a blocked record does to it.
use Prim.Native.String.{String}
use mathlib.Core.Path.{subst}
use mathlib.Core.Option.{some-injective, none-ne-some}
use d3r.Base.{
  ℕ, zero, suc, get_elem?, Bool, true, false, not, ◌≡◌, refl, sym, ap, List, [], ◌∷◌, Option, none,
  some, inl, inr, find, filter, All, Bool-cases, Option-cases, update_where,
}
use d3r.Base.Outcome.{ok, fail, >>=-eq-ok, fail-ne-ok, guard-eq-ok}
use d3r.Engine.State.{
  RecordStatus, ExecutionRecord, EngineStatus, EngineState, is_pending, is_running, is_blocked,
  is_waiting, set_status, in_batch,
}
use d3r.Engine.Advance.{pause}
use d3r.Engine.Transition.{
  Next, Reported, record_outcome, has_id, is_ready, is_active, batch_to_begin, begin_batch,
}
use d3r.Engine.Settle.{is_unsettled, settle_with, settle_batch, failure_of, answer_checkpoint}
use d3r.Engine.Steps.{batch_to_begin-pending}
use d3r.Engine.Accepted.{IsIdle, ok-injective}

running_is_batch :
    (b : String) (rs : List ExecutionRecord)
    → All (λ r. is_running r ≡ false) rs
    → All
        (λ r. is_running r ≡ in_batch (some b) r)
        (update_where (in_batch (some b)) (set_status RecordStatus.running) rs)
running_is_batch b [] h = tt
running_is_batch b (r ∷ rs) (h, hs) = (
  elim (Bool-cases (in_batch (some b) r)) [
    | inl q ↦ rw q (rw q refl)
    | inr q ↦ rw q (rw (h, q) refl)
  ],
  running_is_batch b rs hs,
)

-- A batch that begins on an idle engine is exactly what runs: a record runs if and only if it is in
-- the active batch, and all records of that batch were pending before.
pub begin_batch-running :
    (s t : EngineState)
    → IsIdle s
    → begin_batch s ≡ ok t
    → (b : String) × (t.active_batch ≡ some b)
      × (is_active t.status ≡ true)
      × All (λ r. is_running r ≡ in_batch (some b) r) t.records
      × All (λ r. in_batch (some b) r ≡ true → is_pending r ≡ true) s.records
unfolding begin_batch
begin_batch-running s t idle h = elim (Option-cases (batch_to_begin s.records)) [
  | inl e ↦
      absurd (fail-ne-ok (guard-eq-ok (not (is_ready s.status)) _ _ (rw (e, begin_batch) at h)).1)
  | inr (b, e) ↦
      let (_, made) = guard-eq-ok (not (is_ready s.status)) _ _ (rw (e, begin_batch) at h) in
      let same = ok-injective made in
      (
        b,
        ap (λ u. u.active_batch) (sym same),
        ap (λ u. is_active u.status) (sym same),
        subst (λ u. All (λ r. is_running r ≡ in_batch (some b) r) u.records) same
            (running_is_batch b s.records idle.none_runs),
        batch_to_begin-pending s.records b e,
      )
]

settle_with-blocked :
    (r : ExecutionRecord) (human : Option ExecutionRecord) (batch : Option String)
    (s t : EngineState)
    → settle_with (some r) human batch s ≡ ok t
    → (t.status ≡ EngineStatus.blocked)
      × (t.records ≡ s.records)
      × (t.active_batch ≡ s.active_batch)
unfolding settle_with pause
settle_with-blocked r human batch s t h =
    let (m, _, made) = >>=-eq-ok (failure_of r) _ h in
    let same = ok-injective made in
    (
      ap (λ u. u.status) (sym same),
      ap (λ u. u.records) (sym same),
      ap (λ u. u.active_batch) (sym same),
    )

batch-found :
    (p q : ExecutionRecord → Bool) (rs : List ExecutionRecord) (i : ℕ) (r : ExecutionRecord)
    → get_elem? rs i ≡ some r
    → p r ≡ true
    → q r ≡ true
    → (b : ExecutionRecord) × (find q (filter p rs) ≡ some b)
batch-found p q [] i r at h k = absurd (none-ne-some r at)
batch-found p q (x ∷ rs) zero r at h k =
    let same = some-injective x r at in (x, rw (same, h, k) refl)
batch-found p q (x ∷ rs) (suc i) r at h k =
    let (b, found) = batch-found p q rs i r at h k in
    elim (Bool-cases (p x)) [
      | inr e ↦ (b, rw e found)
      | inl e ↦ elim (Bool-cases (q x)) [
        | inl f ↦ (x, rw (e, f) refl)
        | inr f ↦ (b, rw (e, f) found)
      ]
    ]

-- The transition throws.
abbrev pub IsRefused : Next → Type 0
IsRefused (ok t) = ⊥
IsRefused (fail e) = Unit

-- No batch begins, nothing is reported, no batch settles and no checkpoint is answered.
abbrev pub IsStuck :
    (id : String) (o : Reported) (error : Option String) (answer : String) → EngineState → Type 0
IsStuck id o error answer t =
    IsRefused (begin_batch t)
    × IsRefused (record_outcome t id o error)
    × IsRefused (settle_batch t)
    × IsRefused (answer_checkpoint t answer)

record_outcome-IsRefused :
    (t : EngineState) (id : String) (o : Reported) (error : Option String)
    → t.status ≡ EngineStatus.blocked
    → IsRefused (record_outcome t id o error)
unfolding record_outcome
record_outcome-IsRefused t id o error h = elim (Option-cases (find (has_id id) t.records)) [
  | inl e ↦ rw (e, record_outcome) tt
  | inr (r, e) ↦ rw (e, record_outcome, h) tt
]

answer_checkpoint-IsRefused :
    (t : EngineState) (answer : String)
    → t.status ≡ EngineStatus.blocked
    → IsRefused (answer_checkpoint t answer)
unfolding answer_checkpoint
answer_checkpoint-IsRefused t answer h = elim (Option-cases t.pause) [
  | inl e ↦ rw (e, answer_checkpoint) tt
  | inr (p, e) ↦ rw (e, answer_checkpoint, h) tt
]

blocked-IsStuck :
    (id : String) (o : Reported) (error : Option String) (answer : String) (t : EngineState)
    → t.status ≡ EngineStatus.blocked
    → IsStuck id o error answer t
unfolding begin_batch settle_batch
blocked-IsStuck id o error answer t h = (
  rw h tt,
  record_outcome-IsRefused t id o error h,
  rw h tt,
  answer_checkpoint-IsRefused t answer h,
)

-- If any record of the active batch is blocked and the batch settles, the engine is blocked, no record is
-- changed, whether or not another one waits, and the engine is stuck: until the blocked batch is
-- restarted no batch begins, no outcome is taken, nothing settles and no answer is accepted.
pub settle_batch-blocked :
    (s t : EngineState) (i : ℕ) (r : ExecutionRecord) (id : String) (o : Reported)
    (error : Option String) (answer : String)
    → get_elem? s.records i ≡ some r
    → in_batch s.active_batch r ≡ true
    → is_blocked r ≡ true
    → settle_batch s ≡ ok t
    → (t.status ≡ EngineStatus.blocked) × (t.records ≡ s.records) × IsStuck id o error answer t
unfolding settle_batch settle_with pause
settle_batch-blocked s t i r id o error answer at member failed h =
    let batch = filter (in_batch s.active_batch) s.records in
    let (b, found) =
      batch-found (in_batch s.active_batch) is_blocked s.records i r at member failed in
    let (_, h') = guard-eq-ok (is_unsettled s) _ _ h in
    let (blocked, kept, _) =
      settle_with-blocked b (find is_waiting batch) s.active_batch
        (record s { active_batch = none }) t
        (subst
          (λ o.
            settle_with o (find is_waiting batch) s.active_batch (record s { active_batch = none })
            ≡ ok t)
          found h') in
    (blocked, kept, blocked-IsStuck id o error answer t blocked)
