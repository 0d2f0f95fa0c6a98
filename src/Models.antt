-- ===== src/Models.antt =====
-- core/model-config.ts: model presets in layers. A later layer replaces a preset of the same
-- identifier, and its default.
use Prim.Native.String.{String}
use d3r.Base.{
  ℕ, Bool, true, false, List, [], ◌∷◌, ◌++◌, Option, none, some, str_eq, any, map, ◌==◌, not, ◌||◌,
  if◌then◌else◌,
}
use d3r.Base.Text.{trim, is_blank}
use d3r.Base.Optional.{◌>>=◌}
use d3r.Base.Outcome.{Result, ok, fail}
pub mod Laws
pub mod Parsing
mod Tests

pub data ThinkingLevel : Type 0 where
  off minimal low medium high xhigh max : ThinkingLevel

pub record ModelPreset : Type 0 where
  pub id : String
  pub provider : String
  pub model : String
  pub thinking_level : Option ThinkingLevel

-- `default_preset` is `none` where a layer does not name it, and `some none` where it is null.
pub record ModelConfig : Type 0 where
  pub presets : List ModelPreset
  pub default_preset : Option (Option String)

-- A layer as a file holds it.
pub record Layer : Type 0 where
  pub version : ℕ
  pub presets : Option (List ModelPreset)
  pub default_preset : Option (Option String)

-- `Identifier`
unfoldable pub identifier : String → Option String
unfolding trim is_blank
identifier s = if is_blank s then none else some (trim s)

unfoldable pub parse_preset : ModelPreset → Option ModelPreset
unfolding identifier
parse_preset p = do
  id ← identifier p.id
  provider ← identifier p.provider
  model ← identifier p.model
  some (record { id = id; provider = provider; model = model; thinking_level = p.thinking_level })

unfoldable pub parse_presets : List ModelPreset → Option (List ModelPreset)
unfolding parse_preset
parse_presets [] = some []
parse_presets (p ∷ ps) = do preset ← parse_preset p; rest ← parse_presets ps; some (preset ∷ rest)

abbrev pub has_id : String → List ModelPreset → Bool
has_id id ps = any (λ p. str_eq p.id id) ps

-- The test of `superRefine`, from the identifiers seen so far.
abbrev pub repeats : (seen : List String) → List ModelPreset → Bool
repeats seen [] = false
repeats seen (p ∷ ps) =
    let rest = repeats (p.id ∷ seen) ps in if any (str_eq p.id) seen then true else rest

abbrev pub parse_default : Option (Option String) → Option (Option (Option String))
unfolding identifier
parse_default none = some none
parse_default (some none) = some (some none)
parse_default (some (some id)) = do name ← identifier id; some (some (some name))

-- `.default([])`
abbrev pub presets_or_none : Option (List ModelPreset) → List ModelPreset
presets_or_none none = []
presets_or_none (some ps) = ps

-- `ModelConfig.parse`
unfoldable pub parse_config : Layer → Option ModelConfig
unfolding parse_presets identifier
parse_config l = do
  presets ← parse_presets (presets_or_none l.presets)
  selection ← parse_default l.default_preset
  if not (l.version == 1) || repeats [] presets
      then none
      else some (record { presets = presets; default_preset = selection })

-- `presets.set(preset.id, preset)`: a key that is there keeps its place.
abbrev pub put : ModelPreset → List ModelPreset → List ModelPreset
put p [] = p ∷ []
put p (q ∷ qs) = let rest = put p qs in if str_eq q.id p.id then p ∷ qs else q ∷ rest

abbrev pub put_all : List ModelPreset → List ModelPreset → List ModelPreset
put_all [] presets = presets
put_all (p ∷ ps) presets = put_all ps (put p presets)

pub record ResolvedModelConfig : Type 0 where
  pub presets : List ModelPreset
  pub default_preset : Option String

pub data ModelConfigError : Type 0 where
  unknown_default_preset : String → ModelConfigError

-- The loop over the layers, and what has been gathered.
abbrev pub gather : List ModelConfig → ResolvedModelConfig → ResolvedModelConfig
gather [] found = found
gather (l ∷ ls) found = gather ls (record {
  presets = put_all l.presets found.presets;
  default_preset = elim l.default_preset [ none ↦ found.default_preset | some id ↦ id ];
})

abbrev pub check_default : ResolvedModelConfig → Result ResolvedModelConfig ModelConfigError
check_default found = elim found.default_preset [
  | none ↦ ok found
  | some id ↦ if has_id id found.presets then ok found else fail (unknown_default_preset id)
]

unfoldable pub resolve_model_config : List ModelConfig → Result ResolvedModelConfig ModelConfigError
resolve_model_config layers =
    check_default (gather layers (record { presets = []; default_preset = none }))
