-- ===== src/Failure/Parse.antt =====
-- core/runtime-failure.ts: reading a failure from a value that nobody vouches for.
use Prim.Native.Char.{code}
use Prim.Native.String.{String, [], ◌∷◌}
use d3r.Base.{
  ℕ, suc, Bool, true, false, not, ◌&&◌, ◌||◌, Option, none, some, leb, ◌==◌, if◌then◌else◌,
}
use d3r.Schema.{Number, whole, in_range}
use d3r.Failure.Codes.{
  Category, Detail, Stage, category_name, categories, detail_name, details, stage_name, stages,
  is_code, parse_enum,
}

-- What `typeof` tells of an own data property; a property that is missing, an accessor or
-- undefined is `none` (`ownValue`), and so is every property of a proxy.
pub data Field : Type 0 where
  text : String → Field
  truth : Bool → Field
  number : Number → Field
  object : Field

-- The named own data properties of a value.
pub record Fields : Type 0 where
  pub stage : Option Field
  pub category : Option Field
  pub http_status : Option Field
  pub provider : Option Field
  pub model : Option Field
  pub tools_started : Option Field
  pub code_field : Option Field
  pub detail : Option Field

pub record RuntimeFailure : Type 0 where
  pub stage : Stage
  pub category : Category
  pub http_status : Option ℕ
  pub provider : Option String
  pub model : Option String
  pub tools_started : Bool
  pub failure_code : Option String
  pub detail : Option Detail

-- `s.length`, in characters
unfoldable pub size : String → ℕ
size [] = 0
size (c ∷ s) = suc (size s)

abbrev pub max_identity_length : ℕ
max_identity_length = 160

abbrev pub is_alphanumeric : ℕ → Bool
is_alphanumeric c =
    (leb b'A' c && leb c b'Z') || (leb b'a' c && leb c b'z') || (leb b'0' c && leb c b'9')

abbrev pub is_part : ℕ → Bool
is_part c = is_alphanumeric c || c == b'.' || c == b'_' || c == b'-'

abbrev pub is_separator : ℕ → Bool
is_separator c = c == b'/' || c == b':'

-- The regular expression of `identitySchema`, where a separator is never part of a name: at the start
-- of a name, and inside of one.
unfoldable pub matches_identity : (at_start : Bool) → String → Bool
matches_identity at_start [] = not at_start
matches_identity true (c ∷ s) = is_alphanumeric (code c) && matches_identity false s
matches_identity false (c ∷ s) =
    (is_separator (code c) && matches_identity true s)
    || (is_part (code c) && matches_identity false s)

-- `value.includes("..")`
unfoldable pub has_dots : String → Bool
has_dots [] = false
has_dots (c ∷ []) = false
has_dots (c ∷ d ∷ s) = (code c == b'.' && code d == b'.') || has_dots (d ∷ s)

unfoldable pub is_identity : String → Bool
unfolding size matches_identity has_dots
is_identity s = leb (size s) max_identity_length && matches_identity true s && not (has_dots s)

-- The provider or the model: what is not an identity is left out.
unfoldable pub read_identity : Option Field → Option String
unfolding is_identity
read_identity (some (text s)) = if is_identity s then some s else none
read_identity _ = none

-- A field of another key that the check before the schema refuses.
unfoldable pub is_refused : Option Field → Bool
unfolding size
is_refused (some (text s)) = not (leb (size s) max_identity_length)
is_refused (some object) = true
is_refused _ = false

-- The schema's own reading of a field; an optional one is there or not.
unfoldable pub read_enum : {A : Type 0} → (String → Option A) → Option Field → Option A
read_enum parse (some (text s)) = parse s
read_enum parse _ = none

unfoldable pub read_truth : Option Field → Option Bool
read_truth (some (truth b)) = some b
read_truth _ = none

-- `.int().min(100).max(599)`
unfoldable pub is_status : ℕ → Bool
is_status n = in_range 100 599 (whole n)

unfoldable pub read_status : Option Field → Option ℕ
unfolding is_status
read_status (some (number (whole n))) = if is_status n then some n else none
read_status _ = none

unfoldable pub read_code : Option Field → Option String
unfolding is_code
read_code (some (text s)) = if is_code s then some s else none
read_code _ = none

infixl 5 ◌>>=◌
abbrev pub ◌>>=◌ : {A B : Type 0} → Option A → (A → Option B) → Option B
none >>= k = none
some a >>= k = k a

-- `.optional()`
unfoldable pub read_optional :
    {A : Type 0} → (Option Field → Option A) → Option Field → Option (Option A)
read_optional read none = some none
read_optional read (some f) = do value ← read (some f); some (some value)

-- The object that the schema makes when every field is accepted.
unfoldable pub combine :
    Option Stage
    → Option Category
    → Option (Option ℕ)
    → (provider model : Option String) → Option Bool
    → Option (Option String)
    → Option (Option Detail)
    → Option RuntimeFailure
combine (some stage) (some category) (some http_status) provider model (some tools_started)
      (some failure_code) (some detail) =
    some (record {
      stage = stage;
      category = category;
      http_status = http_status;
      provider = provider;
      model = model;
      tools_started = tools_started;
      failure_code = failure_code;
      detail = detail;
    })
combine _ _ _ _ _ _ _ _ = none

unfoldable pub parse_schema : Fields → Option RuntimeFailure
unfolding combine read_identity read_enum read_truth read_status read_code read_optional parse_enum
parse_schema f =
    combine (read_enum (parse_enum stage_name stages) f.stage)
      (read_enum (parse_enum category_name categories) f.category)
      (read_optional read_status f.http_status) (read_identity f.provider) (read_identity f.model)
      (read_truth f.tools_started) (read_optional read_code f.code_field)
      (read_optional (read_enum (parse_enum detail_name details)) f.detail)

abbrev pub refuses : Fields → Bool
refuses f =
    is_refused f.stage
    || is_refused f.category
    || is_refused f.http_status
    || is_refused f.tools_started
    || is_refused f.code_field
    || is_refused f.detail

unfoldable pub parse_failure : Fields → Option RuntimeFailure
unfolding is_refused parse_schema
parse_failure f = if refuses f then none else parse_schema f
