-- ===== src/Cli/Slugs.antt =====
-- cli/src/workflow-topic.ts: slugs, and what the replacements make of a text.
use Prim.Native.Char.{Char, code}
use Prim.Native.String.append
use Prim.Native.String.{String, [], ◌∷◌}
use d3r.Base.{
  ℕ, zero, suc, Bool, true, false, not, ◌&&◌, ◌==◌, if◌then◌else◌, ◌≡◌, refl, ◌⊎◌, inl, inr, arith,
  Bool-cases,
}
use d3r.Base.Text.{◌<>◌, is_space, is_empty}
use d3r.Cli.Topic.{is_slug_char, is_slug, has_space, dashed, drop_dashes, drop_last_dashes, slice}

-- Slug characters, and no dash behind another one, or at the start if one is `due`.
unfoldable pub calm : (due : Bool) → String → Bool
calm due [] = true
calm due (c ∷ s) =
    let letter = calm false s in
    let dash = calm true s in
    if is_slug_char (code c) then letter else code c == b'-' && not due && dash

not_dash : (c : ℕ) → is_slug_char c ≡ true → c == 45 ≡ false
not_dash c h = ground arith

-- The two ways in which a text of slug characters goes on.
pub calm_cases :
    (due : Bool) (c : Char) (s : String)
    → calm due (c ∷ s) ≡ true
    → ((is_slug_char (code c) ≡ true) × (code c == 45 ≡ false) × (calm false s ≡ true))
      ⊎ ((is_slug_char (code c) ≡ false)
          × (code c == 45 ≡ true)
          × (due ≡ false)
          × (calm true s ≡ true))
unfolding calm
calm_cases due c s h = elim (Bool-cases (is_slug_char (code c))) [
  | inl e ↦ inl (e, not_dash (code c) e, rw e at h)
  | inr e ↦ let (a, b, d) = split (code c == 45) due (calm true s) (rw e at h) in inr (e, a, b, d)
]
  where
    split : (a b d : Bool) → (a && not b && d) ≡ true → (a ≡ true) × (b ≡ false) × (d ≡ true)
    split a b d h = ground arith

pub dashed-calm : (inside : Bool) (s : String) → calm inside (dashed inside s) ≡ true
unfolding calm dashed
dashed-calm inside [] = refl
dashed-calm true (c ∷ s) = elim (Bool-cases (is_slug_char (code c))) [
  | inl e ↦ rw (e, e) (dashed-calm false s)
  | inr e ↦ rw e (dashed-calm true s)
]
dashed-calm false (c ∷ s) = elim (Bool-cases (is_slug_char (code c))) [
  | inl e ↦ rw (e, e) (dashed-calm false s)
  | inr e ↦ rw e (dashed-calm true s)
]

pub drop_dashes-calm :
    (due : Bool) (s : String) → calm due s ≡ true → calm true (drop_dashes s) ≡ true
unfolding calm drop_dashes
drop_dashes-calm due [] h = refl
drop_dashes-calm due (c ∷ s) h = elim (calm_cases due c s h) [
  | inl (e, f, k) ↦ rw (f, e) k
  | inr (e, f, _, k) ↦ rw f (drop_dashes-calm true s k)
]

pub drop_last-slug :
    (due : Bool) (s : String)
    → calm due s ≡ true
    → (drop_last_dashes s ≡ []) ⊎ (is_slug due (drop_last_dashes s) ≡ true)
unfolding calm drop_last_dashes is_slug
drop_last-slug due [] h = inl refl
drop_last-slug due (c ∷ s) h = elim (calm_cases due c s h) [
  | inl (e, f, k) ↦ rw f (inr (rw e (short (drop_last-slug false s k))))
  | inr (e, f, g, k) ↦ rw (f, g) (behind_dash e f (drop_last-slug true s k))
]
  where
    short :
        (drop_last_dashes s ≡ []) ⊎ (is_slug false (drop_last_dashes s) ≡ true)
        → is_slug false (drop_last_dashes s) ≡ true
    short (inl q) = rw q refl
    short (inr q) = q

    behind_dash :
        is_slug_char (code c) ≡ false
        → code c == 45 ≡ true
        → (drop_last_dashes s ≡ []) ⊎ (is_slug true (drop_last_dashes s) ≡ true)
        → ((if is_empty (drop_last_dashes s) then [] else c ∷ drop_last_dashes s) ≡ [])
          ⊎ (is_slug false (if is_empty (drop_last_dashes s) then [] else c ∷ drop_last_dashes s)
              ≡ true)
    behind_dash e f (inl q) = rw q (inl refl)
    behind_dash e f (inr q) = elim (Bool-cases (is_empty (drop_last_dashes s))) [
      | inl w ↦ rw w (inl refl)
      | inr w ↦ rw w (inr (rw (e, f) q))
    ]

pub slug-calm : (due : Bool) (s : String) → is_slug due s ≡ true → calm due s ≡ true
unfolding calm is_slug
slug-calm due [] h = refl
slug-calm due (c ∷ s) h = ground (arith, slug-calm false s, slug-calm true s)

pub slice-calm : (n : ℕ) (due : Bool) (s : String) → calm due s ≡ true → calm due (slice n s) ≡ true
unfolding calm slice
slice-calm zero due s h = refl
slice-calm (suc n) due [] h = refl
slice-calm (suc n) due (c ∷ s) h = ground (arith, slice-calm n false s, slice-calm n true s)

pub append-nil : (t : String) → [] <> t ≡ t
append-nil t = append.nil t

pub append-cons : (c : Char) (s t : String) → (c ∷ s) <> t ≡ c ∷ (s <> t)
append-cons c s t = append.cons c s t

-- The two ways in which a slug goes on.
slug_cases :
    (due : Bool) (c : Char) (s : String)
    → is_slug due (c ∷ s) ≡ true
    → ((is_slug_char (code c) ≡ true) × (is_slug false s ≡ true))
      ⊎ ((is_slug_char (code c) ≡ false)
          × (code c == 45 ≡ true)
          × (due ≡ false)
          × (is_slug true s ≡ true))
unfolding is_slug
slug_cases due c s h = ground arith

pub slug-append :
    (due : Bool) (s t : String)
    → is_slug due s ≡ true
    → is_slug true t ≡ true
    → is_slug due (s <> ("-" ∷ t)) ≡ true
unfolding is_slug
slug-append false [] t h k = rw (append-nil ("-" ∷ t)) k
slug-append true [] t h k = cc
slug-append due (c ∷ s) t h k = rw (append-cons c s ("-" ∷ t)) (elim (slug_cases due c s h) [
  | inl (e, q) ↦ rw e (slug-append false s t q k)
  | inr (e, f, g, q) ↦ rw (e, f, g) (slug-append true s t q k)
])

char_no_space : (c : ℕ) → is_slug_char c ≡ true → is_space c ≡ false
unfolding is_space
char_no_space c h = ground arith

dash_no_space : (c : ℕ) → c == 45 ≡ true → is_space c ≡ false
unfolding is_space
dash_no_space c h = ground arith

pub slug-has_space : (due : Bool) (s : String) → is_slug due s ≡ true → has_space s ≡ false
unfolding has_space
slug-has_space due [] h = refl
slug-has_space due (c ∷ s) h = elim (slug_cases due c s h) [
  | inl (e, q) ↦ rw (char_no_space (code c) e) (slug-has_space false s q)
  | inr (e, f, g, q) ↦ rw (dash_no_space (code c) f) (slug-has_space true s q)
]
