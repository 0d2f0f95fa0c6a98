-- ===== src/Budget/Tests.antt =====
-- adapters/pi/embedded-budget.ts: the theorems about the budget, each at an invocation of three
-- requests of which one more is granted.
use d3r.Base.{
  ◌≡◌, refl, ◌≤◌, ◌≢◌, ℕ, ◌+◌, Bool, true, false, List, [], ◌∷◌, Option, none, some, arith,
}
use d3r.Schema.{whole}
use d3r.Budget.Limits.{
  Turns, turns, RequestBudgetLimits, RequestBudget, parse_request_budget_limits, AreOrdered,
  parse_request_budget_limits-AreOrdered,
}
use d3r.Budget.Requests.{max_extension_requests}
use d3r.Budget.Extension.{approved, refused}
use d3r.Budget.Run.{Event, request, call, answer, Invocation, step, run, IsValid}
use d3r.Budget.Safety.{start, run_bounded, denied_final, limit_change}

abbrev limits : RequestBudgetLimits
limits = record { initial = 2; hard = 3 }

abbrev budget : RequestBudget
budget = record {
  hard = 3;
  aborted = false;
  has_tools = true;
  limit = 2;
  used = 0;
  active = true;
  pending = false;
  denied = false;
  last_requested_response = none;
}

abbrev asking : Event
asking = call false (some (record { reason = "more"; additional_requests = none })) true

abbrev events : List Event
events =
    request none ∷ asking ∷ answer false approved ∷ request none ∷ request none ∷ request none ∷ []

parse_request_budget_limits-AreOrdered_example :
    AreOrdered (some limits)
    × (◌≡◌ {A = Option RequestBudgetLimits} (some limits) none
        → (turns (whole 2) ≡ Turns.unlimited) × (some (whole 3) ≡ none))
unfolding parse_request_budget_limits
parse_request_budget_limits-AreOrdered_example =
    parse_request_budget_limits-AreOrdered (turns (whole 2)) (some (whole 3)) (some limits) refl

run_bounded_example :
    let v = run events (start budget) in
    (v.charged ≡ v.budget.used)
    × (v.budget.used ≤ v.budget.limit)
    × (v.budget.limit ≤ 3)
    × (v.charged ≤ 3)
unfolding parse_request_budget_limits d3r.Budget.Limits.create_request_budget
run_bounded_example =
    run_bounded (turns (whole 2)) (some (whole 3)) limits budget false true events refl refl

-- The budget after the client has refused.
abbrev denied_budget : RequestBudget
denied_budget = record budget { denied = true }

denied_final_example :
    ((run events (start denied_budget)).budget.denied ≡ true)
    × ((run events (start denied_budget)).budget.limit ≡ 2)
denied_final_example = denied_final events (start denied_budget) refl refl

-- One request is charged, and the client is being asked for one more.
abbrev waiting : Invocation
waiting = record {
  budget = record budget { used = 1; pending = true; last_requested_response = some 1 };
  waiting = some 3;
  charged = 1;
}

granted : ((run (request none ∷ asking ∷ []) (start budget)).waiting ≡ waiting.waiting)
unfolding run step d3r.Budget.Requests.begin_budgeted_request d3r.Budget.Extension.ask
    d3r.Base.Text.is_blank d3r.Base.Text.is_space
granted = refl

waiting-IsValid : IsValid waiting
waiting-IsValid = record {
  within = omega arith;
  spent = omega arith;
  counted = refl;
  held = (refl, omega arith, omega arith, omega arith);
}

raised : (step (answer false approved) waiting).budget.limit ≢ 2
unfolding step d3r.Budget.Extension.settle
raised = omega arith

limit_change_example :
    (answer false approved ≡ answer false approved)
    × (waiting.budget.aborted ≡ false)
    × (waiting.budget.active ≡ true)
    × (2 ≤ (step (answer false approved) waiting).budget.limit)
    × ((step (answer false approved) waiting).budget.limit ≤ 2 + max_extension_requests)
    × ((step (answer false approved) waiting).budget.limit ≤ 3)
limit_change_example = limit_change (answer false approved) waiting waiting-IsValid raised
