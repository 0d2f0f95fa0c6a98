-- ===== src/Models/Laws.antt =====
-- core/model-config.ts: the results of `resolveModelConfig`, against the layers.
use Prim.Native.String.{String}
use mathlib.Core.Path.{subst}
use d3r.Base.Optional.{some-eq}
use d3r.Base.{
  Bool, true, false, List, [], ◌∷◌, ◌++◌, Option, none, some, str_eq, any, map, if◌then◌else◌, ◌≡◌,
  refl, sym, ap, ◌∙◌, ◌≢◌, find, append-nil, append_assoc, eq_iff, arith, Bool-cases, inl, inr, ◌⊎◌,
}
use d3r.Base.Outcome.{Result, ok, fail}
use d3r.Models.{
  ModelPreset, ModelConfig, ResolvedModelConfig, ModelConfigError, unknown_default_preset, has_id,
  put, put_all, gather, check_default, resolve_model_config,
}

abbrev pub find_preset : String → List ModelPreset → Option ModelPreset
find_preset id = find (λ p. str_eq p.id id)

-- The presets of all layers, in the order of the files.
abbrev pub entries : List ModelConfig → List ModelPreset
entries [] = []
entries (l ∷ ls) = l.presets ++ entries ls

-- The last of these that has an identifier, or else what was there before.
abbrev pub last_or : Option ModelPreset → String → List ModelPreset → Option ModelPreset
last_or before id [] = before
last_or before id (p ∷ ps) = last_or (if str_eq p.id id then some p else before) id ps

-- Each identifier where it comes first, without those that were seen.
abbrev pub first_seen : (seen : List String) → List String → List String
first_seen seen [] = []
first_seen seen (x ∷ xs) =
    let old = first_seen seen xs in
    let new = first_seen (seen ++ (x ∷ [])) xs in
    if any (λ y. str_eq y x) seen then old else x ∷ new

-- The last layer that names a default decides; null names none.
abbrev pub last_selection : Option String → List ModelConfig → Option String
last_selection before [] = before
last_selection before (l ∷ ls) =
    last_selection (elim l.default_preset [ none ↦ before | some id ↦ id ]) ls

abbrev pub id_of : ModelPreset → String
id_of p = p.id

abbrev pub ids : List ModelPreset → List String
ids ps = map id_of ps

str_eq-true : (s t : String) → str_eq s t ≡ true → s ≡ t
str_eq-true s t h = ground (arith, eq_iff s t)

put_all-append :
    (ps qs found : List ModelPreset) → put_all (ps ++ qs) found ≡ put_all qs (put_all ps found)
put_all-append [] qs found = refl
put_all-append (p ∷ ps) qs found = put_all-append ps qs (put p found)

gather-entries :
    (ls : List ModelConfig) (found : ResolvedModelConfig)
    → gather ls found ≡ record {
      presets = put_all (entries ls) found.presets;
      default_preset = last_selection found.default_preset ls;
    }
gather-entries [] found = refl
gather-entries (l ∷ ls) found =
    gather-entries ls _
    ∙ ap
        (λ ps. record {
          presets = ps;
          default_preset = last_selection found.default_preset (l ∷ ls);
        })
        (sym (put_all-append l.presets (entries ls) found.presets))

other_id : (s t u : String) → str_eq s t ≡ false → str_eq s u ≡ true → str_eq t u ≡ false
other_id s t u h k = elim (Bool-cases (str_eq t u)) [
  | inl e ↦ absurd (clash (str_eq-true s u k ∙ sym (str_eq-true t u e)))
  | inr e ↦ e
]
  where
    clash : s ≡ t → ⊥
    clash e = ground (arith, eq_iff s t, e)

find_preset-put :
    (id : String) (p : ModelPreset) (qs : List ModelPreset)
    → find_preset id (put p qs) ≡ (if str_eq p.id id then some p else find_preset id qs)
find_preset-put id p [] = refl
find_preset-put id p (q ∷ qs) = elim (Bool-cases (str_eq q.id p.id)) [
  | inl e ↦
      rw (e, str_eq-true q.id p.id e)
        (elim (Bool-cases (str_eq p.id id)) [ inl f ↦ rw f refl | inr f ↦ rw f refl ])
  | inr e ↦ rw e (elim (Bool-cases (str_eq q.id id)) [
    | inl f ↦ rw (f, other_id q.id p.id id e f) refl
    | inr f ↦ rw f (find_preset-put id p qs)
  ])
]

find_preset-put_all :
    (id : String) (ps found : List ModelPreset)
    → find_preset id (put_all ps found) ≡ last_or (find_preset id found) id ps
find_preset-put_all id [] found = refl
find_preset-put_all id (p ∷ ps) found =
    find_preset-put_all id ps (put p found) ∙ ap (λ b. last_or b id ps) (find_preset-put id p found)

ids-put :
    (p : ModelPreset) (qs : List ModelPreset)
    → ids (put p qs) ≡ (if any (λ y. str_eq y p.id) (ids qs) then ids qs else ids qs ++ (p.id ∷ []))
ids-put p [] = refl
ids-put p (q ∷ qs) = elim (Bool-cases (str_eq q.id p.id)) [
  | inl e ↦ rw e (ap (λ x. x ∷ ids qs) (sym (str_eq-true q.id p.id e)))
  | inr e ↦
      rw (e, ids-put p qs)
        (elim (Bool-cases (any (λ y. str_eq y p.id) (ids qs))) [
          | inl f ↦ rw f refl
          | inr f ↦ rw f refl
        ])
]

ids-put_all :
    (ps found : List ModelPreset)
    → ids (put_all ps found) ≡ ids found ++ first_seen (ids found) (ids ps)
ids-put_all [] found = sym (append-nil (ids found))
ids-put_all (p ∷ ps) found = elim (Bool-cases (any (λ y. str_eq y p.id) (ids found))) [
  | inl f ↦ rw f (ids-put_all ps (put p found) ∙ ap onward (ids-put p found ∙ chosen f))
  | inr f ↦ rw f (
      ids-put_all ps (put p found)
      ∙ ap onward (ids-put p found ∙ chosen f)
      ∙ append_assoc (ids found) (p.id ∷ []) (first_seen (ids found ++ (p.id ∷ [])) (ids ps)))
]
  where
    onward : List String → List String
    onward seen = seen ++ first_seen seen (ids ps)

    chosen :
        {b : Bool}
        → any (λ y. str_eq y p.id) (ids found) ≡ b
        → (if any (λ y. str_eq y p.id) (ids found) then ids found else ids found ++ (p.id ∷ []))
          ≡ (if b then ids found else ids found ++ (p.id ∷ []))
    chosen e = ap (λ b. if b then ids found else ids found ++ (p.id ∷ [])) e

has_id-find :
    (id : String) (ps : List ModelPreset)
    → ((has_id id ps ≡ true) × (find_preset id ps ≢ none))
      ⊎ ((has_id id ps ≡ false) × (find_preset id ps ≡ none))
has_id-find id [] = inr (refl, refl)
has_id-find id (p ∷ ps) = elim (Bool-cases (str_eq p.id id)) [
  | inl e ↦ rw e (inl (refl, λ h. cc))
  | inr e ↦ rw e (has_id-find id ps)
]

-- What a result says of the layers.
abbrev pub IsResolution : List ModelConfig → Result ResolvedModelConfig ModelConfigError → Type 0
IsResolution ls (ok r) =
    (ids r.presets ≡ first_seen [] (ids (entries ls)))
    × ((id : String) → find_preset id r.presets ≡ last_or none id (entries ls))
    × (r.default_preset ≡ last_selection none ls)
    × ((id : String) → last_selection none ls ≡ some id → last_or none id (entries ls) ≢ none)
IsResolution ls (fail (unknown_default_preset id)) =
    (last_selection none ls ≡ some id) × (last_or none id (entries ls) ≡ none)

-- Every result of `resolveModelConfig` is the one that the layers ask for: the identifiers stand in
-- the order in which they come first, each once; each names the last preset that a layer gives it;
-- the default is what the last layer that names one says, and it names a preset. An error means that
-- it does not.
pub resolve_model_config-IsResolution :
    (ls : List ModelConfig) → IsResolution ls (resolve_model_config ls)
unfolding resolve_model_config
resolve_model_config-IsResolution ls =
    subst (λ r. IsResolution ls (check_default r)) (sym (gather-entries ls _))
      (by_default (last_selection none ls) refl)
  where
    all_presets : List ModelPreset
    all_presets = put_all (entries ls) []

    by_default :
        (d : Option String)
        → last_selection none ls ≡ d
        → IsResolution ls (check_default (record { presets = all_presets; default_preset = d }))
    by_default none e = (
      ids-put_all (entries ls) [],
      λ id. find_preset-put_all id (entries ls) [],
      sym e,
      λ id h k. cc,
    )
    by_default (some d) e = elim (has_id-find d all_presets) [
      | inl (h, found) ↦ rw h (
        ids-put_all (entries ls) [],
        λ id. find_preset-put_all id (entries ls) [],
        sym e,
        λ id k lacking. found (
            find_preset-put_all d (entries ls) []
            ∙ ap (λ x. last_or none x (entries ls)) (same k)
            ∙ lacking),
      )
      | inr (h, lacking) ↦ rw h (e, sym (find_preset-put_all d (entries ls) []) ∙ lacking)
    ]
      where
        same : {id : String} → last_selection none ls ≡ some id → d ≡ id
        same k = some-eq (sym e ∙ k)
