-- ===== src/Runtime/Reports.antt =====
-- cli/src/workflow-runtime.ts, `runRole`: when a role counts as done, and what is kept of one that is
-- not.
use Prim.Native.String.{String}
use d3r.Base.{
  Bool, true, false, not, ◌||◌, ◌≡◌, refl, sym, ap, ◌∙◌, List, [], ◌∷◌, Option, none, some, inl,
  inr, arith, Bool-cases, Option-cases, or-false_parts,
}
use mathlib.Core.Path.{subst}
use mathlib.Core.Option.{none-ne-some}
use d3r.Engine.State.{WorkflowOutcome}
use d3r.Engine.Transition.{Reported, parse_outcome}
use d3r.Runtime.Events.{
  Happening, reports, report_fails, TurnResult, or_error, take_report, happen, all_happen, is_there,
}

-- No error so far.
abbrev pub IsClean : TurnResult → Type 0
IsClean r = r.error ≡ none

pub or_error-dirty : (text : String) (r : TurnResult) → IsClean (or_error text r) → ⊥
or_error-dirty text r h = elim (Option-cases r.error) [
  | inl e ↦ none-ne-some text (sym (rw (e, or_error) at h))
  | inr (x, e) ↦ none-ne-some x (sym (rw (e, or_error, e) at h))
]

pub or_error-keeps :
    (text x : String) (r : TurnResult) → r.error ≡ some x → (or_error text r).error ≡ some x
or_error-keeps text x r e = rw (e, or_error) e

take_report-keeps :
    (accepting : Bool) (v : Reported) (aborted : Bool) (x : String) (r : TurnResult)
    → r.error ≡ some x
    → (take_report accepting v aborted r).error ≡ some x
take_report-keeps accepting v aborted x r e = elim (Bool-cases (not accepting || aborted)) [
  | inl p ↦ rw p (or_error-keeps _ x r e)
  | inr p ↦ elim (Bool-cases (is_there r.outcome || not (is_there (parse_outcome v)))) [
    | inl q ↦ rw (p, q) (or_error-keeps _ x r e)
    | inr q ↦ rw (p, q) e
  ]
]

happen-keeps :
    (accepting : Bool) (h : Happening) (x : String) (r : TurnResult)
    → r.error ≡ some x
    → (happen accepting h r).error ≡ some x
happen-keeps accepting (reports v aborted) x r e = take_report-keeps accepting v aborted x r e
happen-keeps accepting report_fails x r e = or_error-keeps _ x r e

all_happen-keeps :
    (accepting : Bool) (hs : List Happening) (x : String) (r : TurnResult)
    → r.error ≡ some x
    → (all_happen accepting hs r).error ≡ some x
unfolding all_happen
all_happen-keeps accepting [] x r e = e
all_happen-keeps accepting (h ∷ hs) x r e =
    all_happen-keeps accepting hs x (happen accepting h r) (happen-keeps accepting h x r e)

-- An error is not forgotten.
pub all_happen-IsClean :
    (accepting : Bool) (hs : List Happening) (r : TurnResult)
    → IsClean (all_happen accepting hs r)
    → IsClean r
all_happen-IsClean accepting hs r c = elim (Option-cases r.error) [
  | inl e ↦ e
  | inr (x, e) ↦ absurd (none-ne-some x (sym c ∙ all_happen-keeps accepting hs x r e))
]

closed-dirty : (h : Happening) (r : TurnResult) → IsClean (happen false h r) → ⊥
closed-dirty (reports v aborted) r c = or_error-dirty _ r c
closed-dirty report_fails r c = or_error-dirty _ r c

-- Outside its turn nothing may happen.
pub closed-clean :
    (hs : List Happening) (r : TurnResult) → IsClean (all_happen false hs r) → hs ≡ []
unfolding all_happen
closed-clean [] r c = refl
closed-clean (h ∷ hs) r c = absurd (closed-dirty h r (all_happen-IsClean false hs _ c))

none_of : {A : Type 0} (x : Option A) → is_there x ≡ false → x ≡ none
none_of none h = refl
none_of (some a) h = ground arith

take_report-clean :
    (v : Reported) (aborted : Bool) (r : TurnResult)
    → IsClean (take_report true v aborted r)
    → (o : WorkflowOutcome) × (aborted ≡ false)
      × (r.outcome ≡ none)
      × (parse_outcome v ≡ some o)
      × (take_report true v aborted r ≡ record r { outcome = some o })
take_report-clean v true r c = absurd (or_error-dirty _ r c)
take_report-clean v false r c =
    elim (Bool-cases (is_there r.outcome || not (is_there (parse_outcome v)))) [
      | inl q ↦ absurd (or_error-dirty _ r (rw (q, take_report) at c))
      | inr q ↦ elim (Option-cases (parse_outcome v)) [
        | inl e ↦
            (let wrong : true ≡ false =
                rw e at
                  (or-false_parts (is_there r.outcome) (not (is_there (parse_outcome v))) q).1 in
              cc)
        | inr (o, e) ↦ (o, refl, none_of r.outcome (or-false_parts _ _ q).0, e, rw (q, e) refl)
      ]
    ]

-- Once there is an outcome, a further report is an error.
reported-clean :
    (hs : List Happening) (r : TurnResult) (o : WorkflowOutcome)
    → r.outcome ≡ some o
    → IsClean (all_happen true hs r)
    → hs ≡ []
unfolding all_happen
reported-clean [] r o e c = refl
reported-clean (reports v aborted ∷ hs) r o e c =
    let (_, _, none_yet, _, _) = take_report-clean v aborted r (all_happen-IsClean true hs _ c) in
    absurd (none-ne-some o (sym none_yet ∙ e))
reported-clean (report_fails ∷ hs) r o e c =
    absurd (or_error-dirty _ r (all_happen-IsClean true hs _ c))

-- A turn without an error has at most one report, which stands.
pub open-clean :
    (hs : List Happening) (r : TurnResult) (o : WorkflowOutcome)
    → r.outcome ≡ none
    → IsClean (all_happen true hs r)
    → (all_happen true hs r).outcome ≡ some o
    → (v : Reported) × (hs ≡ reports v false ∷ []) × (parse_outcome v ≡ some o)
unfolding all_happen
open-clean [] r o n c e = absurd (none-ne-some o (sym n ∙ e))
open-clean (report_fails ∷ hs) r o n c e =
    absurd (or_error-dirty _ r (all_happen-IsClean true hs _ c))
open-clean (reports v aborted ∷ hs) r o n c e =
    let (o', on, _, p, made) = take_report-clean v aborted r (all_happen-IsClean true hs _ c) in
    let done : hs ≡ [] =
      reported-clean hs (take_report true v aborted r) o' (ap (λ t. t.outcome) made) c in
    let same : some o' ≡ some o =
      ap (λ t. t.outcome) (sym made)
      ∙ subst (λ l. (all_happen true l (take_report true v aborted r)).outcome ≡ some o) done e in
    (v, rw (on, done) refl, p ∙ same)
