-- ===== src/Engine/Loops.antt =====
-- core/engine.ts, `closeLoops`: success closes the innermost loop of a record. The loop changes
-- records that it also reads, so these are indexed by their place.
use Prim.Native.String.{String}
use d3r.Base.{
  ℕ, suc, Bool, true, false, not, ◌&&◌, ◌||◌, List, ◌∷◌, Option, none, some, str_eq, any, filter,
  update_where, get_elem?, get_last?, drop, ◌==◌, if◌then◌else◌,
}
use d3r.Engine.State.{
  Review, LoopScope, RecordStatus, ExecutionRecord, is_pending, is_agent, set_status, in_batch,
}

abbrev asks_changes : Option Review → Bool
asks_changes (some Review.changes_requested) = true
asks_changes _ = false

abbrev approves : Option Review → Bool
approves (some Review.approved) = true
approves _ = false

-- `=== true`
abbrev says_true : Option Bool → Bool
says_true (some true) = true
says_true _ = false

-- `record.outcome?.review === …`
abbrev pub changes_requested : ExecutionRecord → Bool
changes_requested r = elim r.outcome [ none ↦ false | some o ↦ asks_changes o.review ]

abbrev is_approved : ExecutionRecord → Bool
is_approved r = elim r.outcome [ none ↦ false | some o ↦ approves o.review ]

abbrev is_all_done : ExecutionRecord → Bool
is_all_done r = elim r.outcome [ none ↦ false | some o ↦ says_true o.all_done ]

-- `record.role === "…"`
abbrev pub has_role : String → ExecutionRecord → Bool
has_role role r = elim r.role [ none ↦ false | some name ↦ str_eq name role ]

abbrev pub succeeds : ExecutionRecord → Bool
succeeds r = (has_role "reviewer" r && is_approved r) || (has_role "implementor" r && is_all_done r)

abbrev pub in_loop : LoopScope → ExecutionRecord → Bool
in_loop loop r = any (λ scope. str_eq scope.id loop.id) r.loops

abbrev pub in_iteration : LoopScope → ExecutionRecord → Bool
in_iteration loop r =
    any (λ scope. str_eq scope.id loop.id && scope.iteration == loop.iteration) r.loops

-- A reviewer of this iteration that is still to come.
abbrev pub awaits_review : LoopScope → ExecutionRecord → Bool
awaits_review loop r = is_agent r && has_role "reviewer" r && is_pending r && in_iteration loop r

abbrev pub skip_loop : LoopScope → List ExecutionRecord → List ExecutionRecord
skip_loop loop =
    update_where (λ r. is_pending r && in_loop loop r) (set_status RecordStatus.skipped)

-- One record of the batch; `later` are the records behind it.
unfoldable pub close_for :
    ExecutionRecord
    → Option LoopScope
    → (later records : List ExecutionRecord) → List ExecutionRecord
close_for r none later records = records
close_for r (some loop) later records =
    if not (succeeds r)
    then records
    else if has_role "implementor" r && any (awaits_review loop) later
    then records
    else skip_loop loop records

-- The batch holds the objects of `state.records`; each is read at its place, as it is by then.
unfoldable pub close_at : ℕ → List ExecutionRecord → List ExecutionRecord
unfolding close_for
close_at i records = elim (get_elem? records i) [
  | none ↦ records
  | some r ↦ close_for r (get_last? r.loops) (drop (suc i) records) records
]

-- The places of the batch, from `i` on.
unfoldable pub places : Option String → ℕ → List ExecutionRecord → List ℕ
places batch i List.[] = List.[]
places batch i (r ∷ rs) =
    let rest = places batch (suc i) rs in if in_batch batch r then i ∷ rest else rest

unfoldable pub close_each : List ℕ → List ExecutionRecord → List ExecutionRecord
unfolding close_at
close_each List.[] records = records
close_each (i ∷ is) records = close_each is (close_at i records)

unfoldable pub close_loops : Option String → List ExecutionRecord → List ExecutionRecord
unfolding close_each places
close_loops batch records =
    if any changes_requested (filter (in_batch batch) records)
    then records
    else close_each (places batch 0 records) records
