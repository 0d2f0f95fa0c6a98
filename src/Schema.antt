-- ===== src/Schema.antt =====
-- core/schema.ts: the workflow that a project pins, as `Workflow.parse` returns it. A chain step
-- may be a loop over further steps, so steps and their lists are one block of types.
use Prim.Native.String.{String}
use d3r.Base.{ℕ, Bool, false, List, [], ◌∷◌, Option, none, some, str_eq, if◌then◌else◌, leb, ◌&&◌}

-- A JavaScript number: what is not a natural number (negative, fractional, not finite) fails every
-- bound that the program checks.
pub data Number : Type 0 where
  whole : ℕ → Number
  other : Number

mutual
  pub data ChainStep : Type 0 where
    agent : (name : String) → ChainStep
    parallel : (agents : List String) → ChainStep
    human : (prompt : String) → ChainStep
    loop : (max : Number) (body : Steps) → ChainStep

  -- `ChainStep[]`
  pub data Steps : Type 0 where
    nil : Steps
    cons : ChainStep → Steps → Steps

pub record Command : Type 0 where
  pub description : String
  pub chain : Steps
  pub reviews_default : Option Number

pub record Vault : Type 0 where
  pub dirs : List String
  pub template_kinds : List String

pub record Workflow : Type 0 where
  pub commands : List (String × Command)
  pub vault : Vault

-- A record of the source is a list of its own keys; `Object.hasOwn` and the index agree on it.
unfoldable pub lookup {ℓ} : {A : Type ℓ} → String → List (String × A) → Option A
lookup key [] = none
lookup key ((k, v) ∷ rest) = if str_eq k key then some v else lookup key rest

-- 2 ^ 53 - 1
abbrev pub max_safe_integer : ℕ
max_safe_integer = 9_007_199_254_740_991

-- `Number.isSafeInteger(n) && n >= low && n <= high` for a positive `low`.
abbrev pub in_range : ℕ → ℕ → Number → Bool
in_range low high (whole n) = leb n max_safe_integer && leb low n && leb n high
in_range low high other = false
