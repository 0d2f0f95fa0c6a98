-- ===== src/Runtime/Established.antt =====
-- cli/src/workflow-runtime.ts, `runRole`: when a role counts as done.
use Prim.Native.String.{String}
use mathlib.Core.Path.{subst}
use mathlib.Core.Option.{none-ne-some, some-injective}
use d3r.Base.{
  Bool, true, false, not, ◌&&◌, ◌||◌, ◌≡◌, ◌↔◌, refl, sym, ap, List, [], ◌∷◌, Option, none, some,
  inl, inr, arith, Bool-cases, if◌then◌else◌,
}
use d3r.Engine.State.{ReportStatus, WorkflowOutcome}
use d3r.Engine.Transition.{Reported, parse_outcome}
use d3r.Runtime.Turn.{
  Kept, after_stop, clean_up, settle_prompt, on_return, on_throw, run_role, Settled, is_finished,
  preserves, stop_summary,
}
use d3r.Runtime.Events.{
  StopReason, Happening, reports, Setup, ready, shared, fails, Ending, returns, throws, Attempt,
  ResourceStop, TurnResult, nothing_yet, or_error, all_happen, is_there, Thrown,
}
use d3r.Runtime.Reports.{or_error-dirty, all_happen-IsClean, closed-clean, open-clean}

-- The role did what it should, and reported it once.
pub record IsEstablished {C : Type 0} (a : Attempt C) (o : WorkflowOutcome) : Type 0 where
  pub quiet_before : a.early ≡ []
  pub prepared : a.setup ≡ ready
  pub reported : (v : Reported) × (a.during ≡ reports v false ∷ []) × (parse_outcome v ≡ some o)
  pub returned : (aborted : Bool) × (a.ending ≡ returns StopReason.completed aborted)
  pub quiet_after : a.late ≡ []
  pub disposed : a.disposed ≡ true

-- The result of a role that is done.
abbrev pub done_with : WorkflowOutcome → TurnResult
done_with o = record { outcome = some o; error = none }

-- What a resource limit asks of the human.
abbrev pub asking : String → ResourceStop → WorkflowOutcome
asking role stop = record {
  status = ReportStatus.needs_human;
  summary = stop_summary role stop;
  review = none;
  all_done = none;
}

asked :
    (role : String) (stop : ResourceStop) (o : WorkflowOutcome)
    → o.status ≡ ReportStatus.completed
    → asking role stop ≡ o
    → ⊥
asked role stop o full h = cc (ap (λ t. t.status) h, full)

clean_choice :
    (b : Bool) (text : String) (r : TurnResult) (o : WorkflowOutcome)
    → (if b then r else or_error text r) ≡ done_with o
    → (b ≡ true) × (r ≡ done_with o)
clean_choice true text r o h = (refl, h)
clean_choice false text r o h = absurd (or_error-dirty text r (ap (λ t. t.error) h))

module _ {C : Type 0} (role : String) (o : WorkflowOutcome)
    (full : o.status ≡ ReportStatus.completed) where
  after_stop-done :
      (stop : Option ResourceStop) (k : Kept C)
      → (after_stop role stop k).result ≡ done_with o
      → (stop ≡ none) × (k.result ≡ done_with o)
  after_stop-done none k h = (refl, h)
  after_stop-done (some stop) k h =
      elim (Bool-cases (is_there k.retained && not (is_there k.result.error))) [
        | inl q ↦ absurd (
            asked role stop o full
              (some-injective (asking role stop) o (ap (λ t. t.outcome) (rw (q, after_stop) at h))))
        | inr q ↦ absurd (or_error-dirty _ k.result (ap (λ t. t.error) (rw (q, after_stop) at h)))
      ]

module _ {C : Type 0} (o : WorkflowOutcome) where
  clean_up-done :
      (orchestrated : Bool) (a : Attempt C) (s : Settled)
      → (clean_up orchestrated a s).result ≡ done_with o
      → ((s.has_child && not a.disposed) ≡ false) × (a.late ≡ []) × (s.result ≡ done_with o)
  unfolding clean_up all_happen
  clean_up-done orchestrated a s h = elim (Bool-cases (s.has_child && not a.disposed)) [
    | inl q ↦ absurd (
        or_error-dirty _ (all_happen false a.late s.result)
          (ap (λ t. t.error) (rw (q, clean_up) at h)))
    | inr q ↦
        let h' : all_happen false a.late s.result ≡ done_with o = rw (q, clean_up) at h in
        let quiet = closed-clean a.late s.result (ap (λ t. t.error) h') in
        (q, quiet, subst (λ l. all_happen false l s.result ≡ done_with o) quiet h')
  ]

is_disposed :
    (child disposed : Bool) → child ≡ true → (child && not disposed) ≡ false → disposed ≡ true
is_disposed child disposed h k = ground arith

is_finished-completed :
    (reason : StopReason) → is_finished reason ≡ true → reason ≡ StopReason.completed
is_finished-completed reason h = ground arith

module _ (role : String) (orchestrated : Bool) (o : WorkflowOutcome) where
  on_return-done :
      (reason : StopReason) (aborted : Bool) (r : TurnResult)
      → (on_return role orchestrated reason aborted r).stop ≡ none
      → (on_return role orchestrated reason aborted r).result ≡ done_with o
      → (reason ≡ StopReason.completed) × (r ≡ done_with o)
  on_return-done reason aborted r n h =
      let (b, e) = clean_choice _ _ r o h in
      (is_finished-completed reason (subst (λ x. (is_there x || is_finished reason) ≡ true) n b), e)

  on_throw-done :
      (thrown : Thrown) (r : TurnResult)
      → (on_throw role orchestrated thrown r).stop ≡ none
      → (on_throw role orchestrated thrown r).result ≡ done_with o
      → ⊥
  on_throw-done thrown r n h =
      let (b, e) = clean_choice _ _ r o h in
      let stopped : some ResourceStop.context_limit ≡ none = rw (b, on_throw) at n in
      none-ne-some _ (sym stopped)

  settle_prompt-done :
      (setup : Setup) (hs : List Happening) (ending : Ending) (r : TurnResult)
      → (settle_prompt role orchestrated setup hs ending r).stop ≡ none
      → (settle_prompt role orchestrated setup hs ending r).result ≡ done_with o
      → (setup ≡ ready)
        × ((aborted : Bool) × (ending ≡ returns StopReason.completed aborted))
        × (all_happen true hs r ≡ done_with o)
        × ((settle_prompt role orchestrated setup hs ending r).has_child ≡ true)
  unfolding settle_prompt
  settle_prompt-done (fails with_child thrown) hs ending r n h =
      absurd (or_error-dirty _ r (ap (λ t. t.error) h))
  settle_prompt-done shared hs ending r n h = absurd (or_error-dirty _ r (ap (λ t. t.error) h))
  settle_prompt-done ready hs (returns reason aborted) r n h =
      let (f, e) = on_return-done reason aborted (all_happen true hs r) n h in
      (refl, (aborted, ap (λ x. returns x aborted) f), e, refl)
  settle_prompt-done ready hs (throws thrown) r n h =
      absurd (on_throw-done thrown (all_happen true hs r) n h)

module _ {C : Type 0} (role : String) (orchestrated : Bool) (a : Attempt C) (o : WorkflowOutcome)
    (full : o.status ≡ ReportStatus.completed) where
  pub run_role-Established : (run_role role orchestrated a).result ≡ done_with o → IsEstablished a o
  unfolding run_role settle_prompt
  run_role-Established h =
      let r0 = all_happen false a.early nothing_yet in
      let s = settle_prompt role orchestrated a.setup a.during a.ending r0 in
      let (n, kept) = after_stop-done role o full s.stop (clean_up orchestrated a s) h in
      let (tidy, quiet, settled) = clean_up-done o orchestrated a s kept in
      let (ready_now, finished, reported, child) =
        settle_prompt-done role orchestrated o a.setup a.during a.ending r0 n settled in
      let before =
        closed-clean a.early nothing_yet
          (all_happen-IsClean true a.during r0 (ap (λ t. t.error) reported)) in
      let alone : all_happen true a.during nothing_yet ≡ done_with o =
        subst (λ l. all_happen true a.during (all_happen false l nothing_yet) ≡ done_with o) before
          reported in
      record {
        quiet_before = before;
        prepared = ready_now;
        reported =
            open-clean a.during nothing_yet o refl (ap (λ t. t.error) alone)
              (ap (λ t. t.outcome) alone);
        returned = finished;
        quiet_after = quiet;
        disposed = is_disposed s.has_child a.disposed child tidy;
      }

  pub Settled-done :
      (v : Reported) (aborted : Bool)
      → a.early ≡ []
      → a.setup ≡ ready
      → a.during ≡ reports v false ∷ []
      → parse_outcome v ≡ some o
      → a.ending ≡ returns StopReason.completed aborted
      → let s =
          settle_prompt role orchestrated a.setup a.during a.ending
            (all_happen false a.early nothing_yet) in
        (s.result ≡ done_with o) × (s.stop ≡ none)
  unfolding settle_prompt all_happen
  Settled-done v aborted early setup during p ending =
      elim (Bool-cases (preserves role orchestrated)) [
        | inl q ↦ rw (early, setup, during, ending, p, q) (refl, refl)
        | inr q ↦ rw (early, setup, during, ending, p, q) (refl, refl)
      ]

  tidied :
      (s : Settled)
      → a.late ≡ []
      → a.disposed ≡ true
      → s.result ≡ done_with o
      → (clean_up orchestrated a s).result ≡ done_with o
  unfolding clean_up all_happen
  tidied s late disposed h = elim (Bool-cases s.has_child) [
    | inl e ↦ rw (clean_up, e, disposed, late) h
    | inr e ↦ rw (clean_up, e, late) h
  ]

  after_stop-result :
      (stop : Option ResourceStop) (k : Kept C)
      → stop ≡ none
      → k.result ≡ done_with o
      → (after_stop role stop k).result ≡ done_with o
  after_stop-result none k n h = h
  after_stop-result (some stop) k n h = absurd (none-ne-some stop (sym n))

  pub Established-run_role : IsEstablished a o → (run_role role orchestrated a).result ≡ done_with o
  unfolding run_role settle_prompt clean_up all_happen
  Established-run_role h =
      let (v, once, parsed) = h.reported in
      let (aborted, ended) = h.returned in
      let r0 = all_happen false a.early nothing_yet in
      let s = settle_prompt role orchestrated a.setup a.during a.ending r0 in
      let (settled, free) = Settled-done v aborted h.quiet_before h.prepared once parsed ended in
      after_stop-result s.stop (clean_up orchestrated a s) free
        (tidied s h.quiet_after h.disposed settled)

  -- A role counts as done, with an outcome whose status is completed and no error, if and only if it
  -- got as far as its prompt, the prompt ended as completed, the child was disposed of, and of all
  -- calls of its report and failures of the report tool there was exactly one report, made during the
  -- prompt, before it was aborted, that is valid and holds this outcome.
  pub run_role-done : ((run_role role orchestrated a).result ≡ done_with o) ↔ IsEstablished a o
  run_role-done = (run_role-Established, Established-run_role)
