-- ===== src/Cli/Names.antt =====
-- cli/src/workflow-topic.ts: the names that `createWorkflowTopicName` makes.
use Prim.Native.Char.{code}
use Prim.Native.String.{String, [], ◌∷◌}
use d3r.Base.{
  and-true_parts, ℕ, zero, suc, ◌+◌, ◌≤◌, Bool, true, false, ◌&&◌, ◌||◌, some, leb, ltb, ◌==◌,
  str_eq, ◌≡◌, refl, ap, ◌∙◌, ◌⊎◌, inl, inr, arith, Bool-cases, eq_iff,
}
use d3r.Base.Text.{◌<>◌, units, is_digit, every}
use d3r.Cli.Topic.{
  is_slug_char, is_slug, is_port, is_reserved, parse_topic_name, dashed, drop_dashes,
  drop_last_dashes, slice, or_topic, prefix_of, create_topic_name,
}
use d3r.Cli.Slugs.{
  calm, calm_cases, dashed-calm, drop_dashes-calm, drop_last-slug, slug-calm, slice-calm,
  append-nil, append-cons, slug-append, slug-has_space,
}

-- Slug characters are one unit each.
char_unit : (c : ℕ) → is_slug_char c ≡ true → ltb c 65536 ≡ true
char_unit c h = ground arith

dash_unit : (c : ℕ) → c == 45 ≡ true → ltb c 65536 ≡ true
dash_unit c h = ground arith

calm-slice-units : (n : ℕ) (due : Bool) (s : String) → calm due s ≡ true → units (slice n s) ≤ n
unfolding slice units
calm-slice-units zero due s h = omega arith
calm-slice-units (suc n) due [] h = omega arith
calm-slice-units (suc n) due (c ∷ s) h = elim (calm_cases due c s h) [
  | inl (e, f, k) ↦ rw (char_unit (code c) e) (omega (arith, calm-slice-units n false s k))
  | inr (e, f, g, k) ↦ rw (dash_unit (code c) f) (omega (arith, calm-slice-units n true s k))
]

drop_last_dashes-units : (s : String) → units (drop_last_dashes s) ≤ units s
unfolding drop_last_dashes units
drop_last_dashes-units [] = omega arith
drop_last_dashes-units (c ∷ s) = ground (arith, drop_last_dashes-units s)

units-append : (s t : String) → units (s <> t) ≡ units s + units t
unfolding units
units-append [] t = rw (append-nil t) (omega arith)
units-append (c ∷ s) t = rw (append-cons c s t) (omega (arith, units-append s t))

slug_units : (s : String) → is_slug true s ≡ true → 1 ≤ units s
unfolding is_slug units
slug_units [] h = cc
slug_units (c ∷ s) h = ground arith

units_of : (s t : String) → str_eq s t ≡ true → units s ≡ units t
units_of s t h = ap (λ x. units x) ((eq_iff s t).0 h)

is_port-units : (s : String) → is_port s ≡ true → units s ≤ 8
unfolding units
is_port-units (a ∷ b ∷ c ∷ d ∷ []) h = ground arith
is_port-units _ h = cc

one_of :
    {P : Type 0} (a b c d e : Bool)
    → (a || b || c || d || e) ≡ true
    → (a ≡ true → P)
    → (b ≡ true → P)
    → (c ≡ true → P)
    → (d ≡ true → P)
    → (e ≡ true → P)
    → P
one_of true b c d e h p q r s t = p refl
one_of false true c d e h p q r s t = q refl
one_of false false true d e h p q r s t = r refl
one_of false false false true e h p q r s t = s refl
one_of false false false false true h p q r s t = t refl
one_of false false false false false h p q r s t = cc

is_reserved-units : (s : String) → is_reserved s ≡ true → units s ≤ 8
unfolding is_reserved units
is_reserved-units s h =
    one_of (str_eq s "con") (str_eq s "prn") (str_eq s "aux") (str_eq s "nul") (is_port s) h
      (λ e. rw (units_of s "con" e) (omega arith)) (λ e. rw (units_of s "prn" e) (omega arith))
      (λ e. rw (units_of s "aux" e) (omega arith)) (λ e. rw (units_of s "nul" e) (omega arith))
      (is_port-units s)

or_topic-slug : (s : String) → (s ≡ []) ⊎ (is_slug true s ≡ true) → is_slug true (or_topic s) ≡ true
unfolding is_slug
or_topic-slug [] h = refl
or_topic-slug (c ∷ s) (inl e) = cc
or_topic-slug (c ∷ s) (inr h) = h

or_topic-units : (s : String) → units s ≤ 71 → units (or_topic s) ≤ 71
unfolding units
or_topic-units [] h = omega arith
or_topic-units (c ∷ s) h = h

-- The text that is cut, and what it is.
trimmed : String → String
trimmed folded = drop_last_dashes (drop_dashes (dashed false folded))

trimmed-calm : (folded : String) → calm true (trimmed folded) ≡ true
unfolding trimmed calm
trimmed-calm folded =
    elim (drop_last-slug true (drop_dashes (dashed false folded))
      (drop_dashes-calm false (dashed false folded) (dashed-calm false folded))) [
        | inl e ↦ rw e refl
        | inr h ↦ slug-calm true (trimmed folded) h
      ]

prefix_of-slug : (folded : String) → is_slug true (prefix_of folded) ≡ true
unfolding prefix_of trimmed
prefix_of-slug folded = or_topic-slug _ (
    drop_last-slug true (slice 71 (trimmed folded))
      (slice-calm 71 true (trimmed folded) (trimmed-calm folded)))

prefix_of-units : (folded : String) → units (prefix_of folded) ≤ 71
unfolding prefix_of trimmed
prefix_of-units folded = or_topic-units _ (
    omega (
      arith,
      drop_last_dashes-units (slice 71 (trimmed folded)),
      calm-slice-units 71 true (trimmed folded) (trimmed-calm folded),
    ))

-- A UUID begins with eight lower case hexadecimal digits.
abbrev pub IsUuid : String → Type 0
IsUuid uuid =
    (every (λ c. is_digit c || (leb b'a' c && leb c b'f')) (slice 8 uuid) ≡ true)
    × (units (slice 8 uuid) ≡ 8)

hex_char : (c : ℕ) → (is_digit c || (leb b'a' c && leb c b'f')) ≡ true → is_slug_char c ≡ true
hex_char c h = ground arith

hex-slug :
    (s : String)
    → every (λ c. is_digit c || (leb b'a' c && leb c b'f')) s ≡ true
    → is_slug false s ≡ true
unfolding is_slug
hex-slug [] h = refl
hex-slug (c ∷ s) h =
    let (now, later) =
      and-true_parts _ (every (λ c. is_digit c || (leb b'a' c && leb c b'f')) s) h in
    rw (hex_char (code c) now) (hex-slug s later)

hex_text-slug :
    (s : String)
    → every (λ c. is_digit c || (leb b'a' c && leb c b'f')) s ≡ true
    → units s ≡ 8
    → is_slug true s ≡ true
unfolding is_slug units
hex_text-slug [] h k = absurd (none_of k refl)
  where
    none_of : {n : ℕ} → n ≡ 8 → n ≡ 0 → ⊥
    none_of e f = omega (arith, e, f)
hex_text-slug (c ∷ s) h k =
    let (now, later) =
      and-true_parts _ (every (λ c. is_digit c || (leb b'a' c && leb c b'f')) s) h in
    rw (hex_char (code c) now) (hex-slug s later)

accepted :
    (s : String) → is_slug true s ≡ true → units s ≤ 80 → 9 ≤ units s → parse_topic_name s ≡ some s
unfolding parse_topic_name
accepted s h k l = elim (Bool-cases (is_reserved s)) [
  | inl e ↦ absurd (too_long (is_reserved-units s e))
  | inr e ↦ rw (e, h, slug-has_space true s h, least, most) refl
]
  where
    too_long : units s ≤ 8 → ⊥
    too_long m = omega (arith, l, m)

    least : leb 1 (units s) ≡ true
    least = ground (arith, l)

    most : leb (units s) 80 ≡ true
    most = ground (arith, k)

-- `createWorkflowTopicName` never throws: whatever the goal is and whatever the platform makes of its
-- characters, the name is accepted; it has at most 80 characters and is a slug, a dash and the start
-- of the UUID, if that begins with eight lower case hexadecimal digits.
pub create_topic_name_total :
    (fold : String → String) (uuid goal : String)
    → IsUuid uuid
    → (prefix : String) × (create_topic_name fold uuid goal ≡ some (prefix <> ("-" ∷ slice 8 uuid)))
      × (units (prefix <> ("-" ∷ slice 8 uuid)) ≤ 80)
      × (is_slug true prefix ≡ true)
unfolding create_topic_name
create_topic_name_total fold uuid goal (hex, eight) =
    (prefix_of (fold goal), accepted _ slug most least, most, prefix_of-slug (fold goal))
  where
    slug : is_slug true (prefix_of (fold goal) <> ("-" ∷ slice 8 uuid)) ≡ true
    slug =
        slug-append true (prefix_of (fold goal)) (slice 8 uuid) (prefix_of-slug (fold goal))
          (hex_text-slug (slice 8 uuid) hex eight)

    total :
        units (prefix_of (fold goal) <> ("-" ∷ slice 8 uuid)) ≡ units (prefix_of (fold goal)) + 9
    total = units-append (prefix_of (fold goal)) ("-" ∷ slice 8 uuid) ∙ rw eight refl

    most : units (prefix_of (fold goal) <> ("-" ∷ slice 8 uuid)) ≤ 80
    most = rw total (omega (arith, prefix_of-units (fold goal)))

    least : 9 ≤ units (prefix_of (fold goal) <> ("-" ∷ slice 8 uuid))
    least = rw total (omega arith)
