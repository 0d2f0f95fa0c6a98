-- ===== src/Failure/Report.antt =====
-- core/runtime-failure.ts: the message of a failure, and the error that carries one.
use Prim.Native.String.{String}
use d3r.Base.{Bool, true, false, Option, none, some, List, [], ◌∷◌, ◌++◌}
use d3r.Base.Text.{◌<>◌, decimal, join, is_empty}
use d3r.Base.Outcome.{Result, ok, fail}
use d3r.Schema.{whole}
use d3r.Failure.Codes.{
  Category, auth, access, rate_limit, quota, invalid_request, model_unavailable, context_limit,
  network, timeout, provider_error, unknown, category_name, Detail, invalid_tool_schema,
  invalid_thinking_options, detail_name, Stage, model_request, output, stage_name,
}
use d3r.Failure.Parse.{Fields, Field, text, truth, number, RuntimeFailure, parse_failure}

unfoldable pub guidance : Category → String
guidance auth =
    "Provider authentication failed. Check the configured provider credentials or sign in again."
guidance access =
    "The provider denied access. Check account permissions and access to the configured model."
guidance rate_limit =
    "The provider reported a rate limit. Wait for the limit to reset before another request."
guidance quota =
    "The provider reported an account quota or billing limit. Check usage allowance and billing with the provider."
guidance invalid_request =
    "The provider rejected the request configuration. Check model options and tool definitions for compatibility."
guidance model_unavailable =
    "The requested model or endpoint is unavailable. Check the configured model ID and provider availability."
guidance context_limit =
    "The request exceeded the model's input or context limit. Reduce the conversation or attached content."
guidance network =
    "The provider connection failed. Check network connectivity and provider availability."
guidance timeout =
    "The provider request timed out. Check connectivity and provider status before another request."
guidance provider_error =
    "The provider reported a service error. Check provider status before another request."
guidance unknown =
    "Safe failure details are unavailable. Check the runtime and provider configuration; contact support if the problem persists."

unfoldable pub detail_guidance : Detail → String
detail_guidance invalid_tool_schema =
    "The provider rejected a tool schema. Check tool definitions against the configured model's supported schema format."
detail_guidance invalid_thinking_options =
    "The provider rejected thinking or reasoning options. Check the configured thinking level and model option compatibility."

-- A failure as the data that the next reader finds; an optional field is there or not.
abbrev pub field_of : {A : Type 0} → (A → Field) → Option A → Option Field
field_of make none = none
field_of make (some a) = some (make a)

unfoldable pub as_fields : RuntimeFailure → Fields
as_fields r = record {
  stage = some (text (stage_name r.stage));
  category = some (text (category_name r.category));
  http_status = field_of (λ n. number (whole n)) r.http_status;
  provider = field_of text r.provider;
  model = field_of text r.model;
  tools_started = some (truth r.tools_started);
  code_field = field_of text r.failure_code;
  detail = field_of (λ d. text (detail_name d)) r.detail;
}

-- The part of the metadata for a text that is there and not empty.
unfoldable pub quoted : String → Option String → List String
quoted label none = []
quoted label (some s) = elim (is_empty s) [ true ↦ [] | false ↦ (label <> " `" <> s <> "`") ∷ [] ]

unfoldable pub metadata : RuntimeFailure → List String
unfolding quoted
metadata r =
    quoted "provider" r.provider
    ++ quoted "model" r.model
    ++ (elim r.http_status [ none ↦ [] | some n ↦ ("HTTP " <> decimal n) ∷ [] ])
    ++ quoted "code" r.failure_code

unfoldable pub prefix : Stage → String
prefix output = "Runtime output delivery failed"
prefix model_request = "Model request failed"

unfoldable pub explanation : Stage → Category → Option Detail → String
unfolding guidance detail_guidance
explanation output category detail =
    "The client could not receive runtime output. Check the client connection before continuing."
explanation model_request invalid_request (some d) = detail_guidance d
explanation model_request category detail = guidance category

unfoldable pub effects : (tools_started : Bool) → String
effects true =
    "Tools started in this invocation and may have had effects. Review prior tool results before repeating work."
effects false = "No tool execution started in this invocation."

unfoldable pub parenthesized : List String → String
parenthesized [] = ""
parenthesized (m ∷ rest) = " (" <> join "; " (m ∷ rest) <> ")"

unfoldable pub describe : RuntimeFailure → String
unfolding prefix metadata parenthesized explanation effects
describe r =
    prefix r.stage
    <> parenthesized (metadata r)
    <> ". "
    <> explanation r.stage r.category r.detail
    <> " "
    <> effects r.tools_started

unfoldable pub report : Option RuntimeFailure → String
unfolding describe guidance
report none = "Model request failed. " <> guidance unknown
report (some r) = describe r

unfoldable pub format_runtime_failure : Fields → String
unfolding report
format_runtime_failure f = report (parse_failure f)

-- The error, which has no stack any more.
pub record Reported : Type 0 where
  pub message : String
  pub runtime_failure : Fields

pub data InvalidFailure : Type 0 where
  invalid_failure : InvalidFailure

unfoldable pub created : Option RuntimeFailure → Result Reported InvalidFailure
unfolding format_runtime_failure as_fields
created none = fail invalid_failure
created (some r) =
    ok (record { message = format_runtime_failure (as_fields r); runtime_failure = as_fields r })

unfoldable pub create_runtime_failure : Fields → Result Reported InvalidFailure
unfolding created
create_runtime_failure f = created (parse_failure f)

unfoldable pub read_runtime_failure : Reported → Option RuntimeFailure
read_runtime_failure e = parse_failure e.runtime_failure
