-- ===== src/Failure/Codes.antt =====
-- The enumerations of core/runtime-failure.ts, the words that a report may hold.
use Prim.Native.String.{String}
use d3r.Base.{Option, some, List, [], ◌∷◌, find, str_eq, any, Bool, ◌≡◌, refl}

pub data Category : Type 0 where
  auth : Category
  access : Category
  rate_limit : Category
  quota : Category
  invalid_request : Category
  model_unavailable : Category
  context_limit : Category
  network : Category
  timeout : Category
  provider_error : Category
  unknown : Category

abbrev pub category_name : Category → String
category_name auth = "auth"
category_name access = "access"
category_name rate_limit = "rate_limit"
category_name quota = "quota"
category_name invalid_request = "invalid_request"
category_name model_unavailable = "model_unavailable"
category_name context_limit = "context_limit"
category_name network = "network"
category_name timeout = "timeout"
category_name provider_error = "provider_error"
category_name unknown = "unknown"

abbrev pub categories : List Category
categories =
    auth ∷ access ∷ rate_limit ∷ quota ∷ invalid_request ∷ model_unavailable ∷ context_limit
    ∷ network ∷ timeout ∷ provider_error ∷ unknown ∷ []

pub data Detail : Type 0 where
  invalid_tool_schema : Detail
  invalid_thinking_options : Detail

abbrev pub detail_name : Detail → String
detail_name invalid_tool_schema = "invalid_tool_schema"
detail_name invalid_thinking_options = "invalid_thinking_options"

abbrev pub details : List Detail
details = invalid_tool_schema ∷ invalid_thinking_options ∷ []

pub data Stage : Type 0 where
  model_request : Stage
  output : Stage

abbrev pub stage_name : Stage → String
stage_name model_request = "model_request"
stage_name output = "output"

abbrev pub stages : List Stage
stages = model_request ∷ output ∷ []

-- The codes are only passed on, so they stay texts.
abbrev pub codes : List String
codes =
    "auth" ∷ "oauth" ∷ "authentication_error" ∷ "invalid_api_key" ∷ "invalid_token"
    ∷ "invalid_grant" ∷ "token_expired" ∷ "unauthorized" ∷ "permission_error" ∷ "permission_denied"
    ∷ "access_denied" ∷ "forbidden" ∷ "insufficient_permissions" ∷ "rate_limit_error"
    ∷ "rate_limit_exceeded" ∷ "too_many_requests" ∷ "insufficient_quota" ∷ "quota_exceeded"
    ∷ "billing_hard_limit_reached" ∷ "usage_limit_reached" ∷ "usage_not_included"
    ∷ "invalid_request_error" ∷ "invalid_request_body" ∷ "invalid_request" ∷ "bad_request"
    ∷ "unsupported_parameter" ∷ "unsupported_value" ∷ "invalid_value"
    ∷ "invalid_function_parameters" ∷ "invalid_tool_schema" ∷ "model_not_found"
    ∷ "model_not_supported" ∷ "model_unavailable" ∷ "not_found_error" ∷ "context_length_exceeded"
    ∷ "context_window_exceeded" ∷ "prompt_too_long" ∷ "request_too_large" ∷ "timeout"
    ∷ "request_timeout" ∷ "ETIMEDOUT" ∷ "ESOCKETTIMEDOUT" ∷ "UND_ERR_CONNECT_TIMEOUT"
    ∷ "UND_ERR_HEADERS_TIMEOUT" ∷ "UND_ERR_BODY_TIMEOUT" ∷ "ECONNRESET" ∷ "ECONNREFUSED"
    ∷ "ENOTFOUND" ∷ "EAI_AGAIN" ∷ "ENETUNREACH" ∷ "EHOSTUNREACH" ∷ "EPIPE" ∷ "UND_ERR_SOCKET"
    ∷ "network_error" ∷ "api_error" ∷ "server_error" ∷ "internal_error" ∷ "internal_server_error"
    ∷ "overloaded_error" ∷ "service_unavailable" ∷ []

unfoldable pub is_code : String → Bool
is_code s = any (str_eq s) codes

-- `z.enum` of the names
unfoldable pub parse_enum : {A : Type 0} → (A → String) → List A → String → Option A
parse_enum name xs s = find (λ x. str_eq (name x) s) xs

-- Every word of the enumerations is read back as itself.
pub parse_enum-category_name :
    (c : Category) → parse_enum category_name categories (category_name c) ≡ some c
unfolding parse_enum
parse_enum-category_name auth = refl
parse_enum-category_name access = refl
parse_enum-category_name rate_limit = refl
parse_enum-category_name quota = refl
parse_enum-category_name invalid_request = refl
parse_enum-category_name model_unavailable = refl
parse_enum-category_name context_limit = refl
parse_enum-category_name network = refl
parse_enum-category_name timeout = refl
parse_enum-category_name provider_error = refl
parse_enum-category_name unknown = refl

pub parse_enum-detail_name : (d : Detail) → parse_enum detail_name details (detail_name d) ≡ some d
unfolding parse_enum
parse_enum-detail_name invalid_tool_schema = refl
parse_enum-detail_name invalid_thinking_options = refl

pub parse_enum-stage_name : (s : Stage) → parse_enum stage_name stages (stage_name s) ≡ some s
unfolding parse_enum
parse_enum-stage_name model_request = refl
parse_enum-stage_name output = refl
