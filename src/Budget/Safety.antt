-- ===== src/Budget/Safety.antt =====
-- adapters/pi/embedded-budget.ts: what no sequence of events can do to a budget.
use d3r.Base.{
  ◌+◌, ◌≤◌, ◌≡◌, refl, ◌∙◌, Bool, true, false, List, [], ◌∷◌, Option, none, some, arith, ◌≢◌,
}
use d3r.Base.Outcome.{ok}
use d3r.Schema.{Number}
use d3r.Budget.Limits.{
  Turns, RequestBudgetLimits, parse_request_budget_limits, parse_request_budget_limits-AreOrdered,
  RequestBudget, create_request_budget,
}
use d3r.Budget.Requests.{begin_budgeted_request, max_extension_requests}
use d3r.Budget.Extension.{approved, ask, settle}
use d3r.Budget.Run.{
  Event, request, call, answer, abort, close, Invocation, step, run, IsValid, step-IsValid,
}

abbrev pub start : RequestBudget → Invocation
start b = record { budget = b; waiting = none; charged = 0 }

run-IsValid : (es : List Event) (v : Invocation) → IsValid v → IsValid (run es v)
unfolding run
run-IsValid [] v h = h
run-IsValid (e ∷ es) v h = run-IsValid es (step e v) (step-IsValid e v h)

step-hard : (e : Event) (v : Invocation) → (step e v).budget.hard ≡ v.budget.hard
unfolding step begin_budgeted_request ask settle
step-hard (request prompt) v = ground arith
step-hard (call signal args has_client) v = ground arith
step-hard (answer signal a) v = ground arith
step-hard abort v = refl
step-hard close v = refl

run-hard : (es : List Event) (v : Invocation) → (run es v).budget.hard ≡ v.budget.hard
unfolding run
run-hard [] v = refl
run-hard (e ∷ es) v = run-hard es (step e v) ∙ step-hard e v

-- From limits that were accepted, no sequence of model requests, extension calls, answers, aborts and
-- closing lets through more model requests than the hard cap; the requests are counted exactly, and
-- the limit stays between them and the cap, which never moves.
pub run_bounded :
    (t : Turns) (total : Option Number) (l : RequestBudgetLimits) (b : RequestBudget)
    (aborted has_tools : Bool) (es : List Event)
    → parse_request_budget_limits t total ≡ ok (some l)
    → create_request_budget (some l) aborted has_tools ≡ some b
    → let v = run es (start b) in
      (v.charged ≡ v.budget.used)
      × (v.budget.used ≤ v.budget.limit)
      × (v.budget.limit ≤ l.hard)
      × (v.charged ≤ l.hard)
unfolding create_request_budget
run_bounded t total l b aborted has_tools es h k =
    let (ordered, _) = parse_request_budget_limits-AreOrdered t total (some l) h in
    let valid : IsValid (start b) = ground arith in
    let later = run-IsValid es (start b) valid in
    let cap = run-hard es (start b) in
    let same : b.hard ≡ l.hard = ground arith in
    omega (arith, later.within, later.spent, later.counted, cap, same)

denied_step :
    (e : Event) (v : Invocation)
    → v.budget.denied ≡ true
    → v.waiting ≡ none
    → ((step e v).budget.denied ≡ true)
      × ((step e v).waiting ≡ none)
      × ((step e v).budget.limit ≡ v.budget.limit)
unfolding step begin_budgeted_request ask settle
denied_step (request prompt) v d w = ground arith
denied_step (call signal args has_client) v d w = ground arith
denied_step (answer signal a) v d w = ground arith
denied_step abort v d w = ground arith
denied_step close v d w = ground arith

-- A denial is final: once an extension was denied and no call waits for the client, the limit of the
-- invocation is never changed again, and the denial stays.
pub denied_final :
    (es : List Event) (v : Invocation)
    → v.budget.denied ≡ true
    → v.waiting ≡ none
    → ((run es v).budget.denied ≡ true) × ((run es v).budget.limit ≡ v.budget.limit)
unfolding run
denied_final [] v d w = (d, refl)
denied_final (e ∷ es) v d w =
    let (d', w', same) = denied_step e v d w in
    let (d'', same') = denied_final es (step e v) d' w' in (d'', same' ∙ same)

-- The limit is changed only by the client's approval of the call that waits, while neither the call
-- nor the budget is aborted and the invocation is active; it grows by at most 50, within the cap.
pub limit_change :
    (e : Event) (v : Invocation)
    → IsValid v
    → (step e v).budget.limit ≢ v.budget.limit
    → (e ≡ answer false approved)
      × (v.budget.aborted ≡ false)
      × (v.budget.active ≡ true)
      × (v.budget.limit ≤ (step e v).budget.limit)
      × ((step e v).budget.limit ≤ v.budget.limit + max_extension_requests)
      × ((step e v).budget.limit ≤ v.budget.hard)
unfolding step begin_budgeted_request ask settle
limit_change (request prompt) v h c = absurd (c (ground arith))
limit_change (call signal args has_client) v h c = absurd (c (ground arith))
limit_change (answer signal a) v h c = ground arith
limit_change abort v h c = absurd (c refl)
limit_change close v h c = absurd (c refl)
