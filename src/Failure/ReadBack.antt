-- ===== src/Failure/ReadBack.antt =====
-- core/runtime-failure.ts: reading a reportable failure from the data that it is stored as.
use Prim.Native.Char.{code}
use Prim.Native.String.{String, [], ◌∷◌}
use d3r.Base.{
  ℕ, Bool, true, false, not, ◌&&◌, ◌||◌, Option, none, some, leb, ◌≡◌, refl, and-left, and-right,
  or-cases, inl, inr, Bool-cases, arith,
}
use d3r.Schema.{whole}
use d3r.Failure.Codes.{
  category_name, categories, detail_name, details, stage_name, stages, is_code, parse_enum,
  parse_enum-category_name, parse_enum-detail_name, parse_enum-stage_name, auth, access, rate_limit,
  quota, invalid_request, model_unavailable, context_limit, network, timeout, provider_error,
  unknown, Category, Stage, Detail, model_request, output, invalid_tool_schema,
  invalid_thinking_options,
}
use d3r.Failure.Parse.{
  Field, Fields, object, text, number, truth, RuntimeFailure, is_identity, is_part, is_separator,
  is_alphanumeric, matches_identity, read_identity, is_status, combine, ◌>>=◌, read_status,
  read_code, read_enum, read_optional, read_truth, is_refused, refuses, parse_schema, parse_failure,
  size, max_identity_length, has_dots,
}
use d3r.Failure.Report.{as_fields, field_of}

-- `Holds P o`: what is there has the property.
abbrev pub Holds : {A : Type 0} → (A → Type 0) → Option A → Type 0
Holds P none = Unit
Holds P (some a) = P a

-- The text is made of letters, digits and `. _ - / :`, so it ends no code span and no parenthesis.
abbrev pub IsPlain : String → Type 0
IsPlain [] = Unit
IsPlain (c ∷ s) = ((is_part (code c) || is_separator (code c)) ≡ true) × IsPlain s

pub alphanumeric-IsPlain : (a p s : Bool) → a ≡ true → ((a || p) || s) ≡ true
alphanumeric-IsPlain a p s = grind arith

pub part-IsPlain : (p s : Bool) → p ≡ true → (p || s) ≡ true
part-IsPlain p s = grind arith

pub separator-IsPlain : (p s : Bool) → s ≡ true → (p || s) ≡ true
separator-IsPlain p s = grind arith

pub matches_identity-IsPlain : (b : Bool) (s : String) → matches_identity b s ≡ true → IsPlain s
unfolding matches_identity
matches_identity-IsPlain b [] h = tt
matches_identity-IsPlain true (c ∷ s) h = (
  grind (arith, and-left (is_alphanumeric (code c)) (matches_identity false s) h),
  matches_identity-IsPlain false s
      (and-right (is_alphanumeric (code c)) (matches_identity false s) h),
)
matches_identity-IsPlain false (c ∷ s) h =
    elim (or-cases (is_separator (code c) && matches_identity true s)
      (is_part (code c) && matches_identity false s) h) [
        | inl q ↦ (
          separator-IsPlain (is_part (code c)) (is_separator (code c))
              (and-left (is_separator (code c)) (matches_identity true s) q),
          matches_identity-IsPlain true s
              (and-right (is_separator (code c)) (matches_identity true s) q),
        )
        | inr q ↦ (
          part-IsPlain (is_part (code c)) (is_separator (code c))
              (and-left (is_part (code c)) (matches_identity false s) q),
          matches_identity-IsPlain false s
              (and-right (is_part (code c)) (matches_identity false s) q),
        )
      ]

pub is_identity-IsPlain : (s : String) → is_identity s ≡ true → IsPlain s
unfolding is_identity
is_identity-IsPlain s h = matches_identity-IsPlain true s (
    and-right (leb (size s) max_identity_length) (matches_identity true s)
      (and-left (leb (size s) max_identity_length && matches_identity true s) (not (has_dots s)) h))

-- What a failure that was read holds.
abbrev pub IsReportable : RuntimeFailure → Type 0
IsReportable r =
    Holds (λ n. is_status n ≡ true) r.http_status
    × Holds (λ s. is_identity s ≡ true) r.provider
    × Holds (λ s. is_identity s ≡ true) r.model
    × Holds (λ s. (is_code s ≡ true) × (leb (size s) max_identity_length ≡ true)) r.failure_code

pub read_identity-Holds : (f : Option Field) → Holds (λ s. is_identity s ≡ true) (read_identity f)
unfolding read_identity
read_identity-Holds none = tt
read_identity-Holds (some (text s)) = elim (Bool-cases (is_identity s)) [
  | inl q ↦ rw q q
  | inr q ↦ rw q tt
]
read_identity-Holds (some _) = tt

-- Each field of a reportable failure is read back.
pub read_status-field_of :
    (o : Option ℕ)
    → Holds (λ n. is_status n ≡ true) o
    → read_optional read_status (field_of (λ n. number (whole n)) o) ≡ some o
unfolding read_optional read_status
read_status-field_of none h = refl
read_status-field_of (some n) h = rw h refl

pub read_identity-field_of :
    (o : Option String) → Holds (λ s. is_identity s ≡ true) o → read_identity (field_of text o) ≡ o
unfolding read_identity
read_identity-field_of none h = refl
read_identity-field_of (some s) h = rw h refl

abbrev pub IsCode : String → Type 0
IsCode s = (is_code s ≡ true) × (leb (size s) max_identity_length ≡ true)

pub read_code-field_of :
    (o : Option String) → Holds IsCode o → read_optional read_code (field_of text o) ≡ some o
unfolding read_optional read_code
read_code-field_of none h = refl
read_code-field_of (some s) h = rw h.0 refl

pub code-is_refused : (o : Option String) → Holds IsCode o → is_refused (field_of text o) ≡ false
unfolding is_refused
code-is_refused none h = refl
code-is_refused (some s) h = rw h.1 refl

pub read_detail-field_of :
    (o : Option Detail)
    → read_optional
        (read_enum (parse_enum detail_name details))
        (field_of (λ d. text (detail_name d)) o)
      ≡ some o
unfolding read_optional read_enum
read_detail-field_of none = refl
read_detail-field_of (some d) = rw (parse_enum-detail_name d) refl

pub stage-is_refused : (s : Stage) → is_refused (some (text (stage_name s))) ≡ false
unfolding is_refused size
stage-is_refused model_request = refl
stage-is_refused output = refl

pub category-is_refused : (c : Category) → is_refused (some (text (category_name c))) ≡ false
unfolding is_refused size
category-is_refused auth = refl
category-is_refused access = refl
category-is_refused rate_limit = refl
category-is_refused quota = refl
category-is_refused invalid_request = refl
category-is_refused model_unavailable = refl
category-is_refused context_limit = refl
category-is_refused network = refl
category-is_refused timeout = refl
category-is_refused provider_error = refl
category-is_refused unknown = refl

pub detail-is_refused :
    (o : Option Detail) → is_refused (field_of (λ d. text (detail_name d)) o) ≡ false
unfolding is_refused size
detail-is_refused none = refl
detail-is_refused (some invalid_tool_schema) = refl
detail-is_refused (some invalid_thinking_options) = refl

pub status-is_refused : (o : Option ℕ) → is_refused (field_of (λ n. number (whole n)) o) ≡ false
unfolding is_refused
status-is_refused none = refl
status-is_refused (some n) = refl

pub truth-is_refused : (b : Bool) → is_refused (some (truth b)) ≡ false
unfolding is_refused
truth-is_refused b = refl

-- The enumerations of a reportable failure, as the schema reads them.
pub read_stage :
    (s : Stage) → read_enum (parse_enum stage_name stages) (some (text (stage_name s))) ≡ some s
unfolding read_enum
read_stage s = parse_enum-stage_name s

pub read_category :
    (c : Category)
    → read_enum (parse_enum category_name categories) (some (text (category_name c))) ≡ some c
unfolding read_enum
read_category c = parse_enum-category_name c

pub all_false :
    (a b c d e f : Bool)
    → a ≡ false
    → b ≡ false
    → c ≡ false
    → d ≡ false
    → e ≡ false
    → f ≡ false
    → (a || b || c || d || e || f) ≡ false
all_false a b c d e f = grind arith

pub refuses-as_fields : (r : RuntimeFailure) → IsReportable r → refuses (as_fields r) ≡ false
unfolding as_fields
refuses-as_fields r h =
    all_false (is_refused (as_fields r).stage) (is_refused (as_fields r).category)
      (is_refused (as_fields r).http_status) (is_refused (as_fields r).tools_started)
      (is_refused (as_fields r).code_field) (is_refused (as_fields r).detail)
      (stage-is_refused r.stage) (category-is_refused r.category) (status-is_refused r.http_status)
      (truth-is_refused r.tools_started) (code-is_refused r.failure_code h.3)
      (detail-is_refused r.detail)

pub parse_schema-as_fields :
    (r : RuntimeFailure) → IsReportable r → parse_schema (as_fields r) ≡ some r
unfolding as_fields d3r.Failure.Parse.parse_schema
parse_schema-as_fields r (status, provider, model, c) =
    rw
      (
        read_stage r.stage,
        read_category r.category,
        read_status-field_of r.http_status status,
        read_code-field_of r.failure_code c,
        read_detail-field_of r.detail,
        read_identity-field_of r.provider provider,
        read_identity-field_of r.model model,
      )
      refl

pub parse_failure-as_fields :
    (r : RuntimeFailure) → IsReportable r → parse_failure (as_fields r) ≡ some r
unfolding parse_failure
parse_failure-as_fields r h = rw (refuses-as_fields r h) (parse_schema-as_fields r h)
