-- ===== src/Budget/Limits.antt =====
-- adapters/pi/embedded-budget.ts: `parseRequestBudgetLimits` and `createRequestBudget`.
use mathlib.Core.Path.{subst}
use d3r.Base.{
  ◌≢◌, ℕ, ◌≤◌, Bool, true, false, not, ◌≡◌, refl, Option, none, some, max, ltb, ltb-false, arith,
}
use d3r.Base.Outcome.{
  Result, ok, fail, ◌>>=◌, ◌>>◌, reject_if, fail-ne-ok, OnOk, OnOk-bind, OnOk-guard, OnOk-use,
}
use d3r.Schema.{Number, whole, other, in_range, max_safe_integer}

abbrev pub default_initial_requests : ℕ
default_initial_requests = 50

abbrev pub default_hard_requests : ℕ
default_hard_requests = 100

-- `maxTurns?: number | null`
pub data Turns : Type 0 where
  omitted unlimited : Turns
  turns : Number → Turns

pub record RequestBudgetLimits : Type 0 where
  pub initial : ℕ
  pub hard : ℕ

pub data LimitsError : Type 0 where
  combined bad_turns bad_total total_below_turns : LimitsError

-- `Number.isSafeInteger(n) && n >= 1`, with the number that it is.
unfoldable pub positive : LimitsError → Number → Result ℕ LimitsError
positive e other = fail e
positive e (whole n) = do reject_if (not (in_range 1 max_safe_integer (whole n))) e; ok n

abbrev pub initial_of : Turns → Number
initial_of (turns n) = n
initial_of _ = whole default_initial_requests

abbrev pub hard_of : ℕ → Option Number → Number
hard_of initial none = whole (max initial default_hard_requests)
hard_of initial (some n) = n

abbrev pub is_some {ℓ} : {A : Type ℓ} → Option A → Bool
is_some none = false
is_some (some a) = true

unfoldable pub finite_limits :
    Number → Option Number → Result (Option RequestBudgetLimits) LimitsError
unfolding positive
finite_limits first max_total = do
  initial ← positive bad_turns first
  hard ← positive bad_total (hard_of initial max_total)
  reject_if (ltb hard initial) total_below_turns
  ok (some (record { initial = initial; hard = hard }))

unfoldable pub parse_request_budget_limits :
    (max_turns : Turns) (max_total_turns : Option Number)
    → Result (Option RequestBudgetLimits) LimitsError
unfolding finite_limits
parse_request_budget_limits unlimited max_total = do reject_if (is_some max_total) combined; ok none
parse_request_budget_limits omitted max_total = finite_limits (initial_of omitted) max_total
parse_request_budget_limits (turns n) max_total = finite_limits (initial_of (turns n)) max_total

-- The state of a budget. `aborted` is that of its abort signal.
pub record RequestBudget : Type 0 where
  pub hard : ℕ
  pub aborted : Bool
  pub has_tools : Bool
  pub limit : ℕ
  pub used : ℕ
  pub active : Bool
  pub pending : Bool
  pub denied : Bool
  pub last_requested_response : Option ℕ

unfoldable pub create_request_budget :
    Option RequestBudgetLimits → (aborted has_tools : Bool) → Option RequestBudget
create_request_budget none aborted has_tools = none
create_request_budget (some limits) aborted has_tools = some (record {
  hard = limits.hard;
  aborted = aborted;
  has_tools = has_tools;
  limit = limits.initial;
  used = 0;
  active = true;
  pending = false;
  denied = false;
  last_requested_response = none;
})

-- Limits that were parsed are positive, and the initial allowance is within the hard cap.
abbrev pub AreOrdered : Option RequestBudgetLimits → Type 0
AreOrdered none = Unit
AreOrdered (some l) = (1 ≤ l.initial) × (l.initial ≤ l.hard) × (l.hard ≤ max_safe_integer)

positive-bounds :
    (e : LimitsError) (n : Number) → OnOk (λ k. (1 ≤ k) × (k ≤ max_safe_integer)) (positive e n)
unfolding positive
positive-bounds e other = tt
positive-bounds e (whole n) =
    OnOk-guard (λ k. (1 ≤ k) × (k ≤ max_safe_integer)) (not (in_range 1 max_safe_integer (whole n)))
      e (ok n) (λ h. ground arith)

abbrev IsBound : Option RequestBudgetLimits → Type 0
IsBound l = AreOrdered l × (l ≢ none)

finite_limits-IsBound : (n : Number) (total : Option Number) → OnOk IsBound (finite_limits n total)
unfolding finite_limits
finite_limits-IsBound n total =
    OnOk-bind (λ k. (1 ≤ k) × (k ≤ max_safe_integer)) IsBound (positive bad_turns n) _
      (positive-bounds bad_turns n)
      λ initial a.
        OnOk-bind (λ k. (1 ≤ k) × (k ≤ max_safe_integer)) IsBound
          (positive bad_total (hard_of initial total)) _
          (positive-bounds bad_total (hard_of initial total))
          λ hard b.
            OnOk-guard IsBound (ltb hard initial) total_below_turns
              (ok (some (record { initial = initial; hard = hard })))
              (λ h. ((a.0, ltb-false hard initial h, b.1), λ e. cc))

ok-injective :
    {a b : Option RequestBudgetLimits}
    → ◌≡◌ {A = Result (Option RequestBudgetLimits) LimitsError} (ok a) (ok b)
    → a ≡ b
ok-injective h = cc

-- Limits that are accepted are positive, safe integers, and the initial allowance is no more than the
-- hard cap; a budget is unlimited only if `maxTurns` is null and no total is given.
pub parse_request_budget_limits-AreOrdered :
    (t : Turns) (total : Option Number) (l : Option RequestBudgetLimits)
    → parse_request_budget_limits t total ≡ ok l
    → AreOrdered l × (l ≡ none → (t ≡ unlimited) × (total ≡ none))
unfolding parse_request_budget_limits
parse_request_budget_limits-AreOrdered omitted total l h =
    let (ordered, bound) =
      OnOk-use IsBound _ (finite_limits-IsBound (initial_of omitted) total) h in
    (ordered, λ e. absurd (bound e))
parse_request_budget_limits-AreOrdered (turns n) total l h =
    let (ordered, bound) = OnOk-use IsBound _ (finite_limits-IsBound n total) h in
    (ordered, λ e. absurd (bound e))
parse_request_budget_limits-AreOrdered unlimited none l h =
    (subst AreOrdered (ok-injective h) tt, λ e. (refl, refl))
parse_request_budget_limits-AreOrdered unlimited (some n) l h = absurd (fail-ne-ok h)
