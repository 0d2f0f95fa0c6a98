-- ===== src/Budget/Requests.antt =====
-- adapters/pi/embedded-budget.ts: `beginBudgetedRequest` charges a model request and writes the
-- reminder that goes with it.
use Prim.Native.String.{String}
use d3r.Base.{
  ℕ, ◌+◌, ◌-◌, Bool, not, ◌&&◌, ◌||◌, List, [], ◌∷◌, ◌++◌, Option, none, some, min, leb, ltb,
  filter, if◌then◌else◌,
}
use d3r.Base.Text.{◌<>◌, decimal, is_empty, join}
use d3r.Base.Outcome.{Result, ok, ◌>>◌, reject_if}
use d3r.Budget.Limits.{RequestBudget}

abbrev pub request_extension_tool : String
request_extension_tool = "d3r_request_extension"

abbrev pub max_extension_requests : ℕ
max_extension_requests = 50

abbrev warning_requests : ℕ
warning_requests = 5

pub data RequestError : Type 0 where
  aborted exhausted : RequestError

abbrev pub is_exhausted : RequestBudget → Bool
is_exhausted b = not b.active || leb b.limit b.used || leb b.hard b.used

-- The guard lets `used < limit` through, so no difference here is cut off at 0 as long as the limit
-- is within the hard cap.
abbrev pub headroom : RequestBudget → ℕ
headroom b = b.hard - b.limit

abbrev pub remaining : RequestBudget → ℕ
remaining b = b.limit - b.used + 1

extension_text : RequestBudget → String
extension_text b =
    if b.has_tools && not b.denied && ltb 0 (headroom b)
    then "You may call "
      <> request_extension_tool
      <> " with a nonempty reason and optional additionalRequests (1-"
      <> decimal (min max_extension_requests (headroom b))
      <> "). Only explicit client approval extends this invocation. The response requesting an extension counts against this budget; you may request it on the last permitted response. Never assume approval or increase the limit yourself."
    else "No extension is available for this invocation. Do not retry a denied extension."

counts_text : RequestBudget → String
counts_text b =
    "Response "
    <> decimal b.used
    <> " of "
    <> decimal b.limit
    <> ". Remaining model requests: "
    <> decimal (remaining b)
    <> ", including this response and any final synthesis. Hard cap: "
    <> decimal b.hard
    <> ". Extension headroom: "
    <> decimal (headroom b)
    <> "."

abbrev pub warning : String
warning =
    "WARNING: 5 or fewer requests remain. Save work and report/finalize now, or request an available extension before the budget runs out."

abbrev warnings : RequestBudget → List String
warnings b = if leb (remaining b) warning_requests then warning ∷ [] else []

abbrev prompt_lines : Option String → List String
prompt_lines none = []
prompt_lines (some s) = s ∷ []

-- The lines of the reminder, on the budget that is already charged.
unfoldable pub reminder : Option String → RequestBudget → List String
unfolding extension_text counts_text
reminder system_prompt b =
    filter (λ line. not (is_empty line))
      (prompt_lines system_prompt
        ++ ("[D3R request budget - current invocation only]"
            ∷ counts_text b
            ∷ "Reserve requests to save work, report results, and provide a final response. There is no extra final-response allowance. Earlier invocation budgets do not apply. Extensions still require this tool call; the client may reuse an explicitly remembered identical-request approval within this thread."
            ∷ extension_text b
            ∷ (warnings b ++ "[/D3R request budget]" ∷ [])))

unfoldable pub begin_budgeted_request :
    RequestBudget → (system_prompt : Option String) → Result (String × RequestBudget) RequestError
unfolding reminder
begin_budgeted_request b system_prompt = do
  reject_if b.aborted aborted
  reject_if (is_exhausted b) exhausted
  let charged = record b { used = b.used + 1 }
  ok (join "\n\n" (reminder system_prompt charged), charged)
