-- ===== src/Cli/Rows.antt =====
-- cli/src/workflow-continuations.ts: the rows that `validateContinuations` accepts.
use Prim.Native.String.{String}
use d3r.Base.{
  and-true_parts, or-false_parts, ℕ, Bool, true, false, not, ◌&&◌, ◌||◌, List, [], ◌∷◌, Option,
  none, some, zero, suc, str_eq, any, ◌≡◌, ◌≢◌, ◌⊎◌, ◌↔◌, refl, arith, All, eq_iff, get_elem?,
  any-found, inl, inr, Bool-cases,
}
use mathlib.Core.Option.{some-injective, none-ne-some}
use d3r.Base.Outcome.{ok, reject_if}
use d3r.Engine.State.{
  ReportStatus, ExecutionRecord, EngineState, is_agent, is_waiting, is_blocked, is_interrupted,
  reports,
}
use d3r.Engine.Transition.{is_truthy}
use d3r.Engine.Checkpoint.{is_paused_status}
use d3r.Cli.Continuations.{
  WorkflowContinuation, invalid, is_retainable, is_record_of, has_record, repeats, is_foreign,
  validate_continuations,
}

-- An agent that may go on: it was interrupted, is blocked, or reported that it needs a human.
abbrev pub IsRetained : ExecutionRecord → Type 0
IsRetained r =
    (is_agent r ≡ true)
    × ((is_interrupted r ≡ true)
        ⊎ (is_blocked r ≡ true)
        ⊎ ((is_waiting r ≡ true)
            × (reports ReportStatus.needs_human r ≡ true)
            × (is_truthy r.error ≡ false)))

is_retainable-IsRetained : (r : ExecutionRecord) → is_retainable r ≡ true → IsRetained r
is_retainable-IsRetained r h =
    let (agent, paused) = and-true_parts (is_agent r) _ h in
    (
      agent,
      cases (is_interrupted r) (is_blocked r) (is_waiting r) (reports ReportStatus.needs_human r)
          (is_truthy r.error) paused,
    )
  where
    cases :
        (a b c d e : Bool)
        → (a || b || (c && d && not e)) ≡ true
        → (a ≡ true) ⊎ (b ≡ true) ⊎ ((c ≡ true) × (d ≡ true) × (e ≡ false))
    cases true b c d e k = inl refl
    cases false true c d e k = inr (inl refl)
    cases false false true true false k = inr (inr (refl, refl, refl))
    cases false false true true true k = cc
    cases false false true false e k = cc
    cases false false false d e k = cc

IsRetained-is_retainable : (r : ExecutionRecord) → IsRetained r → is_retainable r ≡ true
IsRetained-is_retainable r (agent, inl h) = rw (agent, h) refl
IsRetained-is_retainable r (agent, inr (inl h)) = rw (agent, h) (middle (is_interrupted r) _)
  where
    middle : (a b : Bool) → (a || true || b) ≡ true
    middle a b = ground arith
IsRetained-is_retainable r (agent, inr (inr (w, n, e))) =
    rw (agent, w, n, e) (last (is_interrupted r) (is_blocked r))
  where
    last : (a b : Bool) → (a || b || true) ≡ true
    last a b = ground arith

any-at :
    {A : Type 0} (p : A → Bool) (xs : List A) (i : ℕ) (x : A)
    → get_elem? xs i ≡ some x
    → p x ≡ true
    → any p xs ≡ true
any-at p [] i x at h = absurd (none-ne-some x at)
any-at p (y ∷ ys) zero x at h = rw (some-injective y x at, h) refl
any-at p (y ∷ ys) (suc i) x at h = rw (any-at p ys i x at h) (or_true (p y))
  where
    or_true : (b : Bool) → (b || true) ≡ true
    or_true b = ground arith

true_of : (a : Bool) → not a ≡ false → a ≡ true
true_of a h = ground arith

never : (a : Bool) → (a || true || true) ≡ false → ⊥
never a h = ground arith

str_eq-apart : (s t : String) → str_eq s t ≡ false → s ≢ t
str_eq-apart s t h = λ e. absurd (ground (arith, eq_iff s t, e))

apart-str_eq : (s t : String) → s ≢ t → str_eq s t ≡ false
apart-str_eq s t h = elim (Bool-cases (str_eq s t)) [
  | inl q ↦ absurd (h (ground (arith, eq_iff s t)))
  | inr q ↦ q
]

module _ {C : Type 0} where
  -- No two rows name the same record.
  abbrev pub AreDistinct : List (WorkflowContinuation C) → Type 0
  AreDistinct [] = Unit
  AreDistinct (row ∷ rows) = All (λ other. other.record_id ≢ row.record_id) rows × AreDistinct rows

  -- The row is about a record of a paused, orchestrated workflow, an agent that may go on.
  abbrev pub IsRowOf : Option EngineState → (orchestrated : Bool) → WorkflowContinuation C → Type 0
  IsRowOf engine orchestrated row =
      (orchestrated ≡ true)
      × (e : EngineState) × (engine ≡ some e)
      × (is_paused_status e.status ≡ true)
      × (i : ℕ) × (r : ExecutionRecord) × (get_elem? e.records i ≡ some r)
      × (row.record_id ≡ r.id)
      × IsRetained r

  all_apart :
      (id : String) (rows : List (WorkflowContinuation C))
      → any (λ other. str_eq other.record_id id) rows ≡ false
      → All (λ other. other.record_id ≢ id) rows
  all_apart id [] h = tt
  all_apart id (row ∷ rows) h =
      let (now, later) = or-false_parts (str_eq row.record_id id) _ h in
      (str_eq-apart row.record_id id now, all_apart id rows later)

  none_same :
      (id : String) (rows : List (WorkflowContinuation C))
      → All (λ other. other.record_id ≢ id) rows
      → any (λ other. str_eq other.record_id id) rows ≡ false
  none_same id [] h = refl
  none_same id (row ∷ rows) (h, hs) =
      rw (apart-str_eq row.record_id id h, none_same id rows hs) refl

  repeats-AreDistinct :
      (rows : List (WorkflowContinuation C)) → repeats rows ≡ false → AreDistinct rows
  repeats-AreDistinct [] h = tt
  repeats-AreDistinct (row ∷ rows) h =
      let (now, later) =
        or-false_parts (any (λ other. str_eq other.record_id row.record_id) rows) (repeats rows)
          h in
      (all_apart row.record_id rows now, repeats-AreDistinct rows later)

  AreDistinct-repeats :
      (rows : List (WorkflowContinuation C)) → AreDistinct rows → repeats rows ≡ false
  AreDistinct-repeats [] h = refl
  AreDistinct-repeats (row ∷ rows) (h, hs) =
      rw (none_same row.record_id rows h, AreDistinct-repeats rows hs) refl

  row-IsRowOf :
      (engine : Option EngineState) (orchestrated : Bool) (row : WorkflowContinuation C)
      → is_foreign engine orchestrated row ≡ false
      → IsRowOf engine orchestrated row
  row-IsRowOf none orchestrated row h = absurd (never (not orchestrated) h)
  row-IsRowOf (some e) orchestrated row h =
      let (ab, c) =
        or-false_parts (not orchestrated || not (is_paused_status e.status))
          (not (has_record (some e) row.record_id)) h in
      let (a, b) = or-false_parts (not orchestrated) (not (is_paused_status e.status)) ab in
      let (i, r, at, good) = any-found (is_record_of row.record_id) e.records (true_of _ c) in
      let (same, kept) = and-true_parts (str_eq r.id row.record_id) (is_retainable r) good in
      (
        true_of orchestrated a,
        e,
        refl,
        true_of _ b,
        i,
        r,
        at,
        ground (arith, eq_iff r.id row.record_id),
        is_retainable-IsRetained r kept,
      )

  IsRowOf-row :
      (engine : Option EngineState) (orchestrated : Bool) (row : WorkflowContinuation C)
      → IsRowOf engine orchestrated row
      → is_foreign engine orchestrated row ≡ false
  IsRowOf-row engine orchestrated row (o, e, same, paused, i, r, at, named, kept) =
      let same_id : str_eq r.id row.record_id ≡ true = ground (arith, eq_iff r.id row.record_id) in
      let good : is_record_of row.record_id r ≡ true =
        rw (same_id, IsRetained-is_retainable r kept) refl in
      rw (o, same, paused, any-at (is_record_of row.record_id) e.records i r at good) refl

  rows-IsRowOf :
      (engine : Option EngineState) (orchestrated : Bool) (rows : List (WorkflowContinuation C))
      → any (is_foreign engine orchestrated) rows ≡ false
      → All (IsRowOf engine orchestrated) rows
  rows-IsRowOf engine orchestrated [] h = tt
  rows-IsRowOf engine orchestrated (row ∷ rows) h =
      let (now, later) = or-false_parts (is_foreign engine orchestrated row) _ h in
      (row-IsRowOf engine orchestrated row now, rows-IsRowOf engine orchestrated rows later)

  IsRowOf-rows :
      (engine : Option EngineState) (orchestrated : Bool) (rows : List (WorkflowContinuation C))
      → All (IsRowOf engine orchestrated) rows
      → any (is_foreign engine orchestrated) rows ≡ false
  IsRowOf-rows engine orchestrated [] h = refl
  IsRowOf-rows engine orchestrated (row ∷ rows) (h, hs) =
      rw (IsRowOf-row engine orchestrated row h, IsRowOf-rows engine orchestrated rows hs) refl

accepted : (b : Bool) → reject_if b invalid ≡ ok tt → b ≡ false
accepted true h = cc
accepted false h = refl

-- Rows are accepted exactly if no two of them name the same record and each belongs to an orchestrated
-- and paused workflow and names one of its agent records, one that was interrupted, is blocked, or waits
-- without an error since its role reported that it needs a human.
pub validate_continuations-IsRowOf :
    {C : Type 0} (engine : Option EngineState) (rows : List (WorkflowContinuation C))
    (orchestrated : Bool)
    → (validate_continuations engine rows orchestrated ≡ ok tt)
      ↔ (AreDistinct rows × All (IsRowOf engine orchestrated) rows)
unfolding validate_continuations
validate_continuations-IsRowOf engine rows orchestrated = (
  λ h.
      let (fresh, known) =
        or-false_parts (repeats rows) (any (is_foreign engine orchestrated) rows) (accepted _ h) in
      (repeats-AreDistinct rows fresh, rows-IsRowOf engine orchestrated rows known),
  λ h.
      let fresh = AreDistinct-repeats rows h.0 in
      let known = IsRowOf-rows engine orchestrated rows h.1 in rw (fresh, known) refl,
)
