-- ===== src/Models/Parsing.antt =====
-- core/model-config.ts: reading one layer.
use Prim.Native.String.{String}
use mathlib.Core.Path.{subst}
use d3r.Base.{
  Bool, false, List, [], ◌∷◌, Option, none, some, not, ◌||◌, ◌==◌, ◌≡◌, refl, arith, Bool-cases,
  inl, inr,
}
use d3r.Base.Text.{trim, is_blank, trim_idem, is_blank-trim}
use d3r.Base.Optional.{some-eq, none-eq-some, bound}
use d3r.Models.{
  ModelPreset, ModelConfig, Layer, identifier, parse_preset, parse_presets, parse_default,
  parse_config, presets_or_none, repeats,
}

identifier_idem : (s t : String) → identifier s ≡ some t → identifier t ≡ some t
unfolding identifier
identifier_idem s t h = elim (Bool-cases (is_blank s)) [
  | inl e ↦ absurd (none-eq-some (rw e at h))
  | inr e ↦
      let same : trim s ≡ t = some-eq (rw e at h) in
      subst (λ x. identifier x ≡ some x) same (rw (is_blank-trim s, e, trim_idem s) refl)
]

parse_preset_idem : (p q : ModelPreset) → parse_preset p ≡ some q → parse_preset q ≡ some q
unfolding parse_preset
parse_preset_idem p q h =
    let (id, e, h) = bound (identifier p.id) _ h in
    let (provider, f, h) = bound (identifier p.provider) _ h in
    let (model, g, h) = bound (identifier p.model) _ h in
    subst (λ x. parse_preset x ≡ some x) (some-eq h)
      (rw
        (
          identifier_idem p.id id e,
          identifier_idem p.provider provider f,
          identifier_idem p.model model g,
        )
        refl)

parse_presets_idem :
    (ps qs : List ModelPreset) → parse_presets ps ≡ some qs → parse_presets qs ≡ some qs
unfolding parse_presets
parse_presets_idem [] qs h = subst (λ x. parse_presets x ≡ some x) (some-eq h) refl
parse_presets_idem (p ∷ ps) qs h =
    let (q, e, h) = bound (parse_preset p) _ h in
    let (rest, f, h) = bound (parse_presets ps) _ h in
    subst (λ x. parse_presets x ≡ some x) (some-eq h)
      (rw (parse_preset_idem p q e, parse_presets_idem ps rest f) refl)

parse_default_idem :
    (d e : Option (Option String)) → parse_default d ≡ some e → parse_default e ≡ some e
unfolding parse_default
parse_default_idem none e h = subst (λ x. parse_default x ≡ some x) (some-eq h) refl
parse_default_idem (some none) e h = subst (λ x. parse_default x ≡ some x) (some-eq h) refl
parse_default_idem (some (some id)) e h =
    let (name, f, h) = bound (identifier id) _ h in
    subst (λ x. parse_default x ≡ some x) (some-eq h) (rw (identifier_idem id name f) refl)

-- A layer as it is written back.
abbrev pub written : ModelConfig → Layer
written c = record { version = 1; presets = some c.presets; default_preset = c.default_preset }

-- A layer that is accepted has no identifier twice, and what was read from it is accepted again and
-- read as the same.
pub parse_config_idem :
    (l : Layer) (c : ModelConfig)
    → parse_config l ≡ some c
    → (repeats [] c.presets ≡ false) × (parse_config (written c) ≡ some c)
unfolding parse_config
parse_config_idem l c h =
    let (ps, e, h) = bound (parse_presets (presets_or_none l.presets)) _ h in
    let (d, f, h) = bound (parse_default l.default_preset) _ h in
    elim (Bool-cases (not (l.version == 1) || repeats [] ps)) [
      | inl bad ↦ absurd (none-eq-some (rw bad at h))
      | inr good ↦
          let fresh = of_or (not (l.version == 1)) (repeats [] ps) good in
          subst (λ x. (repeats [] x.presets ≡ false) × (parse_config (written x) ≡ some x))
            (some-eq (rw good at h))
            (
              fresh,
              rw
                  (
                    parse_presets_idem (presets_or_none l.presets) ps e,
                    parse_default_idem l.default_preset d f,
                    fresh,
                  )
                  refl,
            )
    ]
  where
    of_or : (a b : Bool) → (a || b) ≡ false → b ≡ false
    of_or a b h = ground arith
