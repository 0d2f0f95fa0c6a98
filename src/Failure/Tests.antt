-- ===== src/Failure/Tests.antt =====
-- core/runtime-failure.ts: the theorems about reported failures, at one that a provider refused.
use d3r.Base.{◌≡◌, refl, Bool, true, false, Option, none, some}
use d3r.Schema.{whole}
use d3r.Failure.Codes.{model_request, rate_limit}
use d3r.Failure.Parse.{Fields, text, truth, number, RuntimeFailure, parse_failure}
use d3r.Failure.Report.{as_fields, create_runtime_failure, format_runtime_failure}
use d3r.Failure.ReadBack.{IsReportable, IsPlain, Holds}
use d3r.Failure.Laws.{IsCreated, parse_failure-IsReportable, create_runtime_failure-IsCreated}

-- The model's name holds a back quote, so it is left out.
abbrev fields : Fields
fields = record {
  stage = some (text "model_request");
  category = some (text "rate_limit");
  http_status = some (number (whole 429));
  provider = some (text "acme/eu");
  model = some (text "a`b");
  tools_started = some (truth false);
  code_field = some (text "rate_limit_error");
  detail = none;
}

abbrev failure : RuntimeFailure
failure = record {
  stage = model_request;
  category = rate_limit;
  http_status = some 429;
  provider = some "acme/eu";
  model = none;
  tools_started = false;
  failure_code = some "rate_limit_error";
  detail = none;
}

message :
    format_runtime_failure fields
    ≡ "Model request failed (provider `acme/eu`; HTTP 429; code `rate_limit_error`). The provider reported a rate limit. Wait for the limit to reset before another request. No tool execution started in this invocation."
unfolding format_runtime_failure parse_failure d3r.Base.Text.decimal d3r.Base.Text.join
message = refl

parse_failure-IsReportable_example :
    IsReportable failure
    × Holds IsPlain failure.provider
    × Holds IsPlain failure.model
    × (parse_failure (as_fields failure) ≡ some failure)
unfolding parse_failure
parse_failure-IsReportable_example = parse_failure-IsReportable fields failure refl

create_runtime_failure-IsCreated_example :
    IsCreated fields (parse_failure fields) (create_runtime_failure fields)
create_runtime_failure-IsCreated_example = create_runtime_failure-IsCreated fields
