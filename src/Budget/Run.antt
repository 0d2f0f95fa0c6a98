-- ===== src/Budget/Run.antt =====
-- adapters/pi/embedded-budget.ts: the budget of one invocation over any sequence of model requests,
-- extension calls, answers, aborts and the end of the invocation.
use Prim.Native.String.{String}
use d3r.Base.{ℕ, ◌+◌, ◌≤◌, ◌≡◌, Bool, true, false, List, [], ◌∷◌, Option, none, some, arith}
use d3r.Base.Outcome.{Result, ok, fail}
use d3r.Budget.Limits.{RequestBudget}
use d3r.Budget.Requests.{RequestError, begin_budgeted_request, max_extension_requests}
use d3r.Budget.Extension.{Arguments, Asked, asks, ask, Answer, settle}

pub data Event : Type 0 where
  request : (system_prompt : Option String) → Event
  call : (signal : Bool) (args : Option Arguments) (has_client : Bool) → Event
  answer : (signal : Bool) (answer : Answer) → Event
  abort : Event
  -- `budget.active = false` at the end of the invocation (adapters/pi/embedded.ts)
  close : Event

-- The budget, the limit that the call which waits for the client has asked for, and how many model
-- requests were let through.
pub record Invocation : Type 0 where
  pub budget : RequestBudget
  pub waiting : Option ℕ
  pub charged : ℕ

abbrev await : Asked × RequestBudget → Invocation → Invocation
await (asks n limit, b) v = record v { budget = b; waiting = some limit }
await (other, b) v = record v { budget = b }

abbrev charge : Result (String × RequestBudget) RequestError → Invocation → Invocation
charge (ok (text, b)) v = record v { budget = b; charged = v.charged + 1 }
charge (fail e) v = v

unfoldable pub step : Event → Invocation → Invocation
step (request prompt) v = charge (begin_budgeted_request v.budget prompt) v
step (call signal args has_client) v = await (ask v.budget signal args has_client) v
step (answer signal a) v = elim v.waiting [
  | none ↦ v
  | some limit ↦ record v { budget = (settle v.budget limit signal a).1; waiting = none }
]
step abort v = record v { budget = record v.budget { aborted = true } }
step close v = record v { budget = record v.budget { active = false } }

unfoldable pub run : List Event → Invocation → Invocation
run [] v = v
run (e ∷ es) v = run es (step e v)

-- A call that waits holds the budget: no other can be asked, and the limit that it asked for is within
-- the hard cap and at most 50 above the present one.
abbrev pub Holds : Option ℕ → RequestBudget → Type 0
Holds none b = Unit
Holds (some limit) b =
    (b.pending ≡ true)
    × (b.limit ≤ limit)
    × (limit ≤ b.hard)
    × (limit ≤ b.limit + max_extension_requests)

-- What holds between two events.
pub record IsValid (v : Invocation) : Type 0 where
  pub within : v.budget.limit ≤ v.budget.hard
  pub spent : v.budget.used ≤ v.budget.limit
  pub counted : v.charged ≡ v.budget.used
  pub held : Holds v.waiting v.budget

request-IsValid :
    (prompt : Option String) (v : Invocation)
    → IsValid v
    → IsValid (charge (begin_budgeted_request v.budget prompt) v)
unfolding begin_budgeted_request
request-IsValid prompt v h = ground arith

call-IsValid :
    (signal : Bool) (args : Option Arguments) (has_client : Bool) (v : Invocation)
    → IsValid v
    → IsValid (await (ask v.budget signal args has_client) v)
unfolding ask
call-IsValid signal args has_client v h = ground arith

pub step-IsValid : (e : Event) (v : Invocation) → IsValid v → IsValid (step e v)
unfolding step
step-IsValid (request prompt) v h = request-IsValid prompt v h
step-IsValid (call signal args has_client) v h = call-IsValid signal args has_client v h
step-IsValid (answer signal a) v h = unfold settle in ground arith
step-IsValid abort v h = ground arith
step-IsValid close v h = ground arith
