-- ===== src/Runtime/Retained.antt =====
-- cli/src/workflow-runtime.ts, `runRole`: the roles whose conversation is kept.
use Prim.Native.String.append
use Prim.Native.String.{String}
use mathlib.Core.Path.{subst}
use mathlib.Core.Option.{none-ne-some}
use d3r.Base.{
  Bool, true, false, not, ◌&&◌, ◌||◌, ◌≡◌, refl, sym, ap, ◌∙◌, List, [], ◌∷◌, Option, none, some,
  inl, inr, arith, Bool-cases, Option-cases, if◌then◌else◌,
}
use d3r.Base.Text.{◌<>◌, is_empty, is_blank, trim}
use d3r.Engine.State.{ReportStatus, WorkflowOutcome, ExecutionRecord, is_agent}
use d3r.Engine.Transition.{parse_outcome, settle_record}
use d3r.Cli.Continuations.{is_retainable}
use d3r.Runtime.Events.{
  StopReason, Happening, reports, report_fails, Thrown, Setup, ready, shared, fails, Ending,
  returns, throws, Attempt, ResourceStop, TurnResult, nothing_yet, or_error, happen, all_happen,
  is_there,
}
use d3r.Runtime.Turn.{
  Settled, Kept, settle_prompt, clean_up, after_stop, run_role, stopped_with, failed_with,
  is_cut_off, cancels,
}
use d3r.Runtime.Drive.{as_report}
use d3r.Runtime.Reports.{or_error-keeps}
use d3r.Runtime.Established.{IsEstablished, Settled-done, done_with, run_role-done}

-- An error, where there is one, says something.
abbrev HasText : Option String → Type 0
HasText none = Unit
HasText (some e) = is_empty e ≡ false

abbrev Told : TurnResult → Type 0
Told r = HasText r.error

or_error-Told :
    (text : String) (r : TurnResult) → is_empty text ≡ false → Told r → Told (or_error text r)
or_error-Told text r h t = elim (Option-cases r.error) [
  | inl e ↦ rw (e, or_error) h
  | inr (x, e) ↦ subst HasText (sym (or_error-keeps text x r e)) (subst HasText e t)
]

choice-Told : (b : Bool) (x y : TurnResult) → Told x → Told y → Told (if b then x else y)
choice-Told true x y h k = h
choice-Told false x y h k = k

happen-Told :
    (accepting : Bool) (h : Happening) (r : TurnResult) → Told r → Told (happen accepting h r)
happen-Told accepting (reports v aborted) r t =
    choice-Told (not accepting || aborted) _ _ (or_error-Told _ r refl t) (
      choice-Told (is_there r.outcome || not (is_there (parse_outcome v))) _
        (record r { outcome = parse_outcome v }) (or_error-Told _ r refl t) t)
happen-Told accepting report_fails r t = or_error-Told _ r refl t

all_happen-Told :
    (accepting : Bool) (hs : List Happening) (r : TurnResult)
    → Told r
    → Told (all_happen accepting hs r)
unfolding all_happen
all_happen-Told accepting [] r t = t
all_happen-Told accepting (h ∷ hs) r t =
    all_happen-Told accepting hs (happen accepting h r) (happen-Told accepting h r t)

role_text : (x : String) → is_empty ("Role " <> x) ≡ false
role_text x = ap is_empty (append.cons "R" "ole " x)

stopped_with-text :
    (role : String) (reason : StopReason) → is_empty (stopped_with role reason) ≡ false
stopped_with-text role StopReason.other = refl
stopped_with-text role StopReason.completed = role_text _
stopped_with-text role StopReason.token_limit = role_text _
stopped_with-text role StopReason.request_limit = role_text _
stopped_with-text role StopReason.refused = role_text _
stopped_with-text role StopReason.cancelled = role_text _

failed_with-text : (role : String) (thrown : Thrown) → is_empty (failed_with role thrown) ≡ false
failed_with-text role none = refl
failed_with-text role (some f) = role_text _

module _ (role : String) (orchestrated : Bool) where
  settle_prompt-Told :
      (setup : Setup) (hs : List Happening) (ending : Ending) (r : TurnResult)
      → Told r
      → Told (settle_prompt role orchestrated setup hs ending r).result
  unfolding settle_prompt
  settle_prompt-Told (fails with_child thrown) hs ending r t =
      or_error-Told _ r (failed_with-text role thrown) t
  settle_prompt-Told shared hs ending r t = or_error-Told _ r refl t
  settle_prompt-Told ready hs (returns reason aborted) r t =
      let told = all_happen-Told true hs r t in
      choice-Told _ (all_happen true hs r) _ told
        (or_error-Told _ (all_happen true hs r) (stopped_with-text role reason) told)
  settle_prompt-Told ready hs (throws thrown) r t =
      let told = all_happen-Told true hs r t in
      choice-Told _ (all_happen true hs r) _ told
        (or_error-Told _ (all_happen true hs r) (failed_with-text role thrown) told)

-- What the `try` leaves of a role that is done.
abbrev finished : (orchestrated aborted : Bool) → WorkflowOutcome → Settled
finished orchestrated aborted o = record {
  result = done_with o;
  stop = none;
  accepting = true;
  completed_before_cancellation = orchestrated && true && not aborted;
  has_child = true;
}

module _ {C : Type 0} (role : String) (orchestrated : Bool) where
  clean_up-Told :
      (a : Attempt C) (s : Settled) → Told s.result → Told (clean_up orchestrated a s).result
  unfolding clean_up
  clean_up-Told a s t =
      let late = all_happen-Told false a.late s.result t in
      elim (Bool-cases (s.has_child && not a.disposed)) [
        | inl e ↦ rw (clean_up, e) (or_error-Told _ (all_happen false a.late s.result) refl late)
        | inr e ↦ rw (clean_up, e) late
      ]

  after_stop-Told :
      (stop : Option ResourceStop) (k : Kept C)
      → Told k.result
      → Told (after_stop role stop k).result
  after_stop-Told none k t = t
  after_stop-Told (some stop) k t =
      elim (Bool-cases (is_there k.retained && not (is_there k.result.error))) [
        | inl e ↦ rw (after_stop, e) tt
        | inr e ↦ rw (after_stop, e) (or_error-Told _ k.result (role_text _) t)
      ]

  run_role-Told : (a : Attempt C) → Told (run_role role orchestrated a).result
  unfolding run_role
  run_role-Told a =
      let r0 = all_happen false a.early nothing_yet in
      let s = settle_prompt role orchestrated a.setup a.during a.ending r0 in
      after_stop-Told s.stop (clean_up orchestrated a s) (
        clean_up-Told a s (
          settle_prompt-Told role orchestrated a.setup a.during a.ending r0
            (all_happen-Told false a.early nothing_yet tt)))

  finished-retained :
      (a : Attempt C) (o : WorkflowOutcome) (aborted : Bool)
      → o.status ≡ ReportStatus.completed
      → a.disposed ≡ true
      → (clean_up orchestrated a (finished orchestrated aborted o)).retained
        ≡ (if orchestrated && aborted && a.can_save then a.saved else none)
  unfolding clean_up
  finished-retained a o aborted full disposed = elim (Bool-cases orchestrated) [
    | inl q ↦ elim (Bool-cases aborted) [
      | inl k ↦ rw (clean_up, disposed, full, q, k) refl
      | inr k ↦ rw (clean_up, disposed, full, q, k) refl
    ]
    | inr q ↦ rw (clean_up, disposed, full, q) refl
  ]

  settle-finished :
      (a : Attempt C) (o : WorkflowOutcome) (aborted : Bool)
      → IsEstablished a o
      → a.ending ≡ returns StopReason.completed aborted
      → o.status ≡ ReportStatus.completed
      → settle_prompt role orchestrated a.setup a.during a.ending
          (all_happen false a.early nothing_yet)
        ≡ finished orchestrated aborted o
  unfolding settle_prompt
  settle-finished a o aborted h ended full =
      let (v, once, parsed) = h.reported in
      let (settled, free) =
        Settled-done role orchestrated a o full v aborted h.quiet_before h.prepared once parsed
          ended in
      let s =
        settle_prompt role orchestrated a.setup a.during a.ending
          (all_happen false a.early nothing_yet) in
      let accepting : s.accepting ≡ true = rw (h.prepared, ended) refl in
      let child : s.has_child ≡ true = rw (h.prepared, ended) refl in
      let before : s.completed_before_cancellation ≡ (orchestrated && true && not aborted) =
        rw (h.prepared, ended) refl in
      λ i. record {
        result = settled i;
        stop = free i;
        accepting = accepting i;
        completed_before_cancellation = before i;
        has_child = child i;
      }

kept_needs :
    {C : Type 0} (orchestrated aborted can_save : Bool) (saved : Option C) (c : C)
    → (if orchestrated && aborted && can_save then saved else none) ≡ some c
    → (orchestrated ≡ true) × (aborted ≡ true)
kept_needs true true can_save saved c h = (refl, refl)
kept_needs true false can_save saved c h = absurd (none-ne-some c h)
kept_needs false aborted can_save saved c h = absurd (none-ne-some c h)

unrecorded :
    (cut cancelled orchestrated aborted : Bool)
    → cut ≡ true
    → aborted ≡ true
    → (not (cut || cancelled) || (orchestrated && true && not aborted)) ≡ true
    → ⊥
unrecorded cut cancelled orchestrated aborted h k e = ground arith

-- The signal stays aborted.
abbrev pub StaysAborted : {C : Type 0} → Attempt C → Type 0
StaysAborted a = a.ending ≡ returns StopReason.completed true → a.aborted ≡ true

module _ {C : Type 0} (role : String) (orchestrated : Bool) where
  done-unkept :
      (a : Attempt C) (o : WorkflowOutcome) (c : C)
      → StaysAborted a
      → o.status ≡ ReportStatus.completed
      → IsEstablished a o
      → (run_role role orchestrated a).retained ≡ some c
      → (run_role role orchestrated a).recorded ≡ true
      → ⊥
  unfolding run_role
  done-unkept a o c stays full h kept recorded =
      let (aborted, ended) = h.returned in
      let same = settle-finished role orchestrated a o aborted h ended full in
      let kept' : (clean_up orchestrated a (finished orchestrated aborted o)).retained ≡ some c =
        subst (λ s. (after_stop role s.stop (clean_up orchestrated a s)).retained ≡ some c) same
          kept in
      let recorded' =
        subst (λ s. (not (is_cut_off a) || s.completed_before_cancellation) ≡ true) same recorded in
      let (_, late) =
        kept_needs orchestrated aborted a.can_save a.saved c
          (sym (finished-retained role orchestrated a o aborted full h.disposed) ∙ kept') in
      unrecorded a.aborted (cancels a.setup a.ending) orchestrated aborted
        (stays (ended ∙ ap (λ x. returns StopReason.completed x) late)) late recorded'

blocked-IsRetainable :
    (error : Option String) (r : ExecutionRecord)
    → is_agent r ≡ true
    → is_retainable (settle_record none error r) ≡ true
blocked-IsRetainable error r agent = rw agent refl

reported-IsRetainable :
    (o : WorkflowOutcome) (error : Option String) (r : ExecutionRecord)
    → is_agent r ≡ true
    → r.error ≡ none
    → HasText error
    → (error ≡ none → o.status ≡ ReportStatus.completed → ⊥)
    → is_retainable (settle_record (some o) error r) ≡ true
reported-IsRetainable o (some e) r agent clear told undone = rw (told, agent) refl
reported-IsRetainable o none r agent clear told undone = go o.status refl
  where
    go : (st : ReportStatus) → o.status ≡ st → is_retainable (settle_record (some o) none r) ≡ true
    go ReportStatus.completed e = absurd (undone refl e)
    go ReportStatus.blocked e = rw (e, agent) refl
    go ReportStatus.needs_human e = rw (e, agent, clear) refl

settled-IsRetainable :
    (outcome : Option WorkflowOutcome) (error : Option String) (r : ExecutionRecord)
    → is_agent r ≡ true
    → r.error ≡ none
    → HasText error
    → ((o : WorkflowOutcome)
        → outcome ≡ some o
        → error ≡ none
        → o.status ≡ ReportStatus.completed
        → ⊥)
    → is_retainable (settle_record (parse_outcome (as_report outcome)) error r) ≡ true
unfolding parse_outcome
settled-IsRetainable none error r agent clear told undone = blocked-IsRetainable error r agent
settled-IsRetainable (some o) error r agent clear told undone =
    elim (Bool-cases (is_blank o.summary)) [
      | inl e ↦ rw e (blocked-IsRetainable error r agent)
      | inr e ↦ rw e (
          reported-IsRetainable (record o { summary = trim o.summary }) error r agent clear told
            (undone o refl))
    ]

-- The conversation of a role is kept only where the record can have one: if a role that is recorded
-- leaves its conversation, then what is written into its record, an agent's without an error, makes it a
-- record that validateContinuations accepts; provided that the signal, once it was aborted at the end of
-- a completed prompt, is aborted when the outcome is recorded.
pub run_role-retained :
    {C : Type 0} (role : String) (orchestrated : Bool) (a : Attempt C) (r : ExecutionRecord) (c : C)
    → StaysAborted a
    → is_agent r ≡ true
    → r.error ≡ none
    → (run_role role orchestrated a).recorded ≡ true
    → (run_role role orchestrated a).retained ≡ some c
    → let result = (run_role role orchestrated a).result in
      is_retainable (settle_record (parse_outcome (as_report result.outcome)) result.error r) ≡ true
run_role-retained role orchestrated a r c stays agent clear recorded kept =
    let result = (run_role role orchestrated a).result in
    settled-IsRetainable result.outcome result.error r agent clear
      (run_role-Told role orchestrated a)
      λ o made free full.
        done-unkept role orchestrated a o c stays full
          ((run_role-done role orchestrated a o full).0
            (λ i. record { outcome = made i; error = free i }))
          kept recorded
