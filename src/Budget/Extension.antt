-- ===== src/Budget/Extension.antt =====
-- adapters/pi/embedded-budget.ts: the tool that asks the client for more requests. Its `execute`
-- waits for the client, so it is two steps: `ask` up to the request and `settle` after the answer.
use Prim.Native.String.{String}
use d3r.Base.{
  ℕ, ◌+◌, Bool, true, false, not, ◌&&◌, ◌||◌, Option, none, some, min, leb, ltb, ◌==◌,
  if◌then◌else◌,
}
use d3r.Base.Text.{is_blank}
use d3r.Budget.Limits.{RequestBudget}
use d3r.Budget.Requests.{max_extension_requests, headroom}

-- The arguments of a call, as the schema's types allow them: a reason, and a number if one is given.
pub record Arguments : Type 0 where
  pub reason : String
  pub additional_requests : Option ℕ

abbrev number_ok : Option ℕ → Bool
number_ok none = true
number_ok (some n) = leb 1 n && leb n max_extension_requests

-- `extensionSchema.parse` throws on these.
abbrev pub is_invalid : Arguments → Bool
is_invalid a = is_blank a.reason || not (number_ok a.additional_requests)

-- What a call comes to before the client answers. The texts of the refusals are left out.
pub data Asked : Type 0 where
  throws : Asked
  inactive already_denied duplicate invalid no_headroom no_client : Asked
  -- The client is asked to raise the limit to this.
  asks : (additional requested_limit : ℕ) → Asked

abbrev requested_already : RequestBudget → Bool
requested_already b = elim b.last_requested_response [ none ↦ false | some n ↦ n == b.used ]

abbrev pub additional : RequestBudget → Arguments → ℕ
additional b a = elim a.additional_requests [
  | none ↦ min max_extension_requests (headroom b)
  | some n ↦ n
]

unfoldable pub ask_client :
    RequestBudget → (amount : ℕ) → (has_client : Bool) → Asked × RequestBudget
ask_client b amount has_client =
    if leb amount 0 || ltb (headroom b) amount
    then (no_headroom, b)
    else if not has_client
    then (no_client, record b { denied = true })
    else (
      asks amount (b.limit + amount),
      record b { pending = true; last_requested_response = some b.used },
    )

-- `signal` is the call's own signal; the arguments are `none` if they have not even the right types.
unfoldable pub ask :
    RequestBudget → (signal : Bool) → Option Arguments → (has_client : Bool) → Asked × RequestBudget
unfolding ask_client
ask b signal args has_client =
    if signal
    then (throws, b)
    else if not b.active || b.aborted
    then (inactive, b)
    else if b.denied
    then (already_denied, b)
    else if b.pending || requested_already b
    then (duplicate, b)
    else elim args [
      | none ↦ (invalid, b)
      | some a ↦ if is_invalid a then (invalid, b) else ask_client b (additional b a) has_client
    ]

-- What the client's permission service gives back; `failed` is a rejected promise.
pub data Answer : Type 0 where
  approved refused failed : Answer

pub data Settled : Type 0 where
  granted denied_now failed_now inactive_now : Settled

-- The `finally` clause.
abbrev release : RequestBudget → RequestBudget
release b = record b { pending = false }

abbrev is_failed : Answer → Bool
is_failed failed = true
is_failed _ = false

abbrev is_approved : Answer → Bool
is_approved approved = true
is_approved _ = false

unfoldable pub settle :
    RequestBudget → (requested_limit : ℕ) → (signal : Bool) → Answer → Settled × RequestBudget
settle b requested_limit signal answer =
    if is_failed answer || signal || b.aborted
    then (failed_now, release (record b { denied = true }))
    else if not b.active
    then (inactive_now, release b)
    else if not (is_approved answer)
    then (denied_now, release (record b { denied = true }))
    else (granted, release (record b { limit = requested_limit }))
