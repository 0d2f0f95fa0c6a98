-- ===== src/Models/Tests.antt =====
-- core/model-config.ts: layers of two files, and the theorems at them.
use Prim.Native.String.{String}
use d3r.Base.{◌≡◌, refl, false, [], ◌∷◌, none, some}
use d3r.Base.Text.{is_space}
use d3r.Base.Outcome.{ok, fail}
use d3r.Models.{
  ThinkingLevel, ModelPreset, ModelConfig, Layer, unknown_default_preset, parse_config,
  resolve_model_config, repeats,
}
use d3r.Models.Laws.{IsResolution, resolve_model_config-IsResolution}
use d3r.Models.Parsing.{written, parse_config_idem}

abbrev preset : String → String → ModelPreset
preset id model = record {
  id = id;
  provider = "p";
  model = model;
  thinking_level = some ThinkingLevel.high;
}

abbrev shared : ModelConfig
shared = record {
  presets = preset "fast" "m1" ∷ preset "deep" "m2" ∷ [];
  default_preset = some (some "fast");
}

abbrev own : ModelConfig
own = record { presets = preset "new" "m3" ∷ preset "fast" "m4" ∷ []; default_preset = none }

resolved :
    resolve_model_config (shared ∷ own ∷ [])
    ≡ ok (record {
      presets = preset "fast" "m4" ∷ preset "deep" "m2" ∷ preset "new" "m3" ∷ [];
      default_preset = some "fast";
    })
unfolding resolve_model_config
resolved = refl

unresolved :
    resolve_model_config (own ∷ record shared { default_preset = some (some "gone") } ∷ [])
    ≡ fail (unknown_default_preset "gone")
unfolding resolve_model_config
unresolved = refl

resolve_model_config-IsResolution_example :
    IsResolution (shared ∷ own ∷ []) (resolve_model_config (shared ∷ own ∷ []))
resolve_model_config-IsResolution_example = resolve_model_config-IsResolution (shared ∷ own ∷ [])

abbrev padded : Layer
padded = record {
  version = 1;
  presets = some (preset " fast" "m1" ∷ preset "deep " "m2" ∷ []);
  default_preset = some (some " fast ");
}

padded_read : parse_config padded ≡ some shared
unfolding parse_config is_space
padded_read = refl

padded_twice :
    parse_config (record padded { presets = some (preset "a" "m" ∷ preset " a " "m" ∷ []) }) ≡ none
unfolding parse_config is_space
padded_twice = refl

parse_config_idem_example :
    (repeats [] shared.presets ≡ false) × (parse_config (written shared) ≡ some shared)
parse_config_idem_example = parse_config_idem padded shared padded_read
