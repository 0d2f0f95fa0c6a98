-- ===== src/Base/Text.antt =====
-- Text as the program uses it: JavaScript's `trim`, decimal numbers in template strings,
-- `encodeURIComponent` and ASCII lower case.
use Prim.Native.Nat.{ℕ, zero, suc, ◌+◌, ◌-◌, ◌*◌, ◌/◌, ◌%◌, ◌<◌}
use Prim.Native.Char.{Char, code}
use Prim.Native.String
use Prim.Native.String.{String, [], ◌∷◌}
use mathlib.Core.Path.{◌≡◌, refl, ap, ◌∙◌}
use mathlib.Core.Logic.{inl, inr}
use mathlib.Core.Bool.{Bool, true, false, not, ◌&&◌, ◌||◌}
use mathlib.Core.List.{List}
use native.Mathlib.Omega.{arith}
use d3r.Base.Tests.{ltb, leb, ◌==◌, if◌then◌else◌, Bool-cases}

infixr 66 ◌<>◌
abbrev pub ◌<>◌ : String → String → String
s <> t = String.◌++◌ s t

-- White space and line ends of ECMAScript, which `trim` and `\s` go by.
unfoldable pub is_space : ℕ → Bool
is_space c =
    (leb 9 c && leb c 13)
    || c == 32
    || c == 160
    || c == 5760
    || (leb 8192 c && leb c 8202)
    || c == 8232
    || c == 8233
    || c == 8239
    || c == 8287
    || c == 12288
    || c == 65279

abbrev pub is_empty : String → Bool
is_empty [] = true
is_empty (c ∷ s) = false

unfoldable pub trim_start : String → String
trim_start [] = []
trim_start (c ∷ s) = if is_space (code c) then trim_start s else c ∷ s

unfoldable pub trim_end : String → String
trim_end [] = []
trim_end (c ∷ s) = let t = trim_end s in if is_space (code c) && is_empty t then [] else c ∷ t

unfoldable pub trim : String → String
unfolding trim_start trim_end
trim s = trim_end (trim_start s)

-- `!s.trim()`
unfoldable pub is_blank : String → Bool
unfolding trim
is_blank s = is_empty (trim s)

trim_end_idem : (s : String) → trim_end (trim_end s) ≡ trim_end s
unfolding trim_end
trim_end_idem [] = refl
trim_end_idem (c ∷ s) = ground (arith, trim_end_idem s)

-- A text with no space in front keeps none when its end is trimmed.
trim_start-trim_end :
    (c : Char) (s : String)
    → is_space (code c) ≡ false
    → trim_start (trim_end (c ∷ s)) ≡ trim_end (c ∷ s)
unfolding trim_start trim_end
trim_start-trim_end c s h = ground arith

trim_start_step : (c : Char) (s : String) → is_space (code c) ≡ true → trim (c ∷ s) ≡ trim s
unfolding trim
trim_start_step c s h = ground arith

trim_kept : (c : Char) (s : String) → is_space (code c) ≡ false → trim (c ∷ s) ≡ trim_end (c ∷ s)
unfolding trim
trim_kept c s h = ground arith

pub trim_idem : (s : String) → trim (trim s) ≡ trim s
unfolding trim
trim_idem [] = refl
trim_idem (c ∷ s) = elim (Bool-cases (is_space (code c))) [
  | inl e ↦ rw (trim_start_step c s e) (trim_idem s)
  | inr e ↦ rw (trim_kept c s e) (ap trim_end (trim_start-trim_end c s e) ∙ trim_end_idem (c ∷ s))
]

-- A text that is not blank is not blank once trimmed.
pub is_blank-trim : (s : String) → is_blank (trim s) ≡ is_blank s
unfolding is_blank
is_blank-trim s = ap is_empty (trim_idem s)

-- One letter, as a text.
lower_char : Char → String
lower_char c =
    let k = code c in
    if k == b'A'
    then "a"
    else if k == b'B'
    then "b"
    else if k == b'C'
    then "c"
    else if k == b'D'
    then "d"
    else if k == b'E'
    then "e"
    else if k == b'F'
    then "f"
    else if k == b'G'
    then "g"
    else if k == b'H'
    then "h"
    else if k == b'I'
    then "i"
    else if k == b'J'
    then "j"
    else if k == b'K'
    then "k"
    else if k == b'L'
    then "l"
    else if k == b'M'
    then "m"
    else if k == b'N'
    then "n"
    else if k == b'O'
    then "o"
    else if k == b'P'
    then "p"
    else if k == b'Q'
    then "q"
    else if k == b'R'
    then "r"
    else if k == b'S'
    then "s"
    else if k == b'T'
    then "t"
    else if k == b'U'
    then "u"
    else if k == b'V'
    then "v"
    else if k == b'W'
    then "w"
    else if k == b'X'
    then "x"
    else if k == b'Y'
    then "y"
    else if k == b'Z'
    then "z"
    else (c ∷ [])

-- `toLowerCase` on ASCII letters. Other letters stay; none of them has a lower case that is a
-- single ASCII letter but the Kelvin sign, whose `k` the program's words do not hold.
unfoldable pub to_lower : String → String
unfolding lower_char
to_lower [] = []
to_lower (c ∷ s) = lower_char c <> to_lower s

-- Decimal digits of a number, as `${n}` prints them.
digit : ℕ → String
digit n =
    if n == 0
    then "0"
    else if n == 1
    then "1"
    else if n == 2
    then "2"
    else if n == 3
    then "3"
    else if n == 4
    then "4"
    else if n == 5
    then "5"
    else if n == 6
    then "6"
    else if n == 7
    then "7"
    else if n == 8
    then "8"
    else "9"

decimal_from : ℕ → ℕ → String → String
decimal_from zero n acc = acc
decimal_from (suc fuel) n acc = elim (ltb n 10) [
  | true ↦ digit n <> acc
  | false ↦ decimal_from fuel (n / 10) (digit (n % 10) <> acc)
]

-- `n + 1` rounds are enough: each one but the last divides `n`, which is then at least 10, by 10.
unfoldable pub decimal : ℕ → String
unfolding digit decimal_from
decimal n = decimal_from (suc n) n ""

-- Enough fuel gives the same digits as any more of it.
decimal_from_fuel :
    (f g n : ℕ) (acc : String) → n < f → n < g → decimal_from f n acc ≡ decimal_from g n acc
unfolding decimal_from
decimal_from_fuel zero g n acc h k = absurd (omega arith)
decimal_from_fuel (suc f) zero n acc h k = absurd (omega arith)
decimal_from_fuel (suc f) (suc g) n acc h k =
    ground (arith, decimal_from_fuel f g (n / 10) (digit (n % 10) <> acc))

hex_digit : ℕ → String
unfolding digit
hex_digit n =
    if ltb n 10
    then digit n
    else if n == 10
    then "A"
    else if n == 11
    then "B"
    else if n == 12
    then "C"
    else if n == 13
    then "D"
    else if n == 14
    then "E"
    else "F"

percent : ℕ → String
unfolding hex_digit
percent b = "%" <> hex_digit (b / 16) <> hex_digit (b % 16)

-- The UTF-8 bytes of a character, each as `%XX`.
percent_utf8 : ℕ → String
unfolding percent
percent_utf8 c =
    if ltb c 128
    then percent c
    else if ltb c 2048
    then percent (192 + c / 64) <> percent (128 + c % 64)
    else if ltb c 65536
    then percent (224 + c / 4096) <> percent (128 + c / 64 % 64) <> percent (128 + c % 64)
    else percent (240 + c / 262144)
      <> percent (128 + c / 4096 % 64)
      <> percent (128 + c / 64 % 64)
      <> percent (128 + c % 64)

-- Letters, digits and - _ . ! ~ * ' ( ) stay as they are.
is_unreserved : ℕ → Bool
is_unreserved c =
    (leb b'A' c && leb c b'Z')
    || (leb b'a' c && leb c b'z')
    || (leb b'0' c && leb c b'9')
    || c == b'-'
    || c == b'_'
    || c == b'.'
    || c == b'!'
    || c == b'~'
    || (leb 39 c && leb c 42)

unfoldable pub encode_uri_component : String → String
unfolding percent_utf8 is_unreserved
encode_uri_component [] = []
encode_uri_component (c ∷ s) =
    (if is_unreserved (code c) then c ∷ [] else percent_utf8 (code c)) <> encode_uri_component s

-- `xs.join(sep)`
unfoldable pub join : String → List String → String
join sep List.[] = []
join sep (List.◌∷◌ x List.[]) = x
join sep (List.◌∷◌ x (List.◌∷◌ y xs)) = x <> sep <> join sep (List.◌∷◌ y xs)

tests : (decimal 10203 ≡ "10203") × (encode_uri_component "a/é" ≡ "a%2F%C3%A9")
unfolding decimal encode_uri_component
tests = (refl, refl)

-- `s.length`, in UTF-16 units
unfoldable pub units : String → ℕ
units [] = 0
units (c ∷ s) = (if ltb (code c) 65536 then 1 else 2) + units s

abbrev pub starts_class : (ℕ → Bool) → String → Bool
starts_class p [] = false
starts_class p (c ∷ s) = p (code c)

-- A character put in front of the first piece.
abbrev pub onto_first : Char → List String → List String
onto_first c List.[] = List.◌∷◌ (c ∷ []) List.[]
onto_first c (List.◌∷◌ piece pieces) = List.◌∷◌ (c ∷ piece) pieces

-- `s.split(/[…]+/)` on runs of a class of characters, and `s.split("\n")` on each one.
unfoldable pub split_runs : (ℕ → Bool) → String → List String
split_runs p [] = List.◌∷◌ "" List.[]
split_runs p (c ∷ s) =
    let rest = split_runs p s in
    if not (p (code c))
    then onto_first c rest
    else if starts_class p s
    then rest
    else List.◌∷◌ "" rest

unfoldable pub split_each : (ℕ → Bool) → String → List String
split_each p [] = List.◌∷◌ "" List.[]
split_each p (c ∷ s) =
    let rest = split_each p s in if p (code c) then List.◌∷◌ "" rest else onto_first c rest

-- Every character is of the class.
abbrev pub every : (ℕ → Bool) → String → Bool
every p [] = true
every p (c ∷ s) = p (code c) && every p s

abbrev pub is_digit : ℕ → Bool
is_digit c = leb b'0' c && leb c b'9'

-- The number that decimal digits write.
abbrev digits_onto : ℕ → String → ℕ
digits_onto acc [] = acc
digits_onto acc (c ∷ s) = digits_onto (acc * 10 + (code c - 48)) s

unfoldable pub number_of : String → ℕ
number_of s = digits_onto 0 s

split_tests :
    (split_runs is_space " ab  c" ≡ List.◌∷◌ "" (List.◌∷◌ "ab" (List.◌∷◌ "c" List.[])))
    × (number_of "0120" ≡ 120)
unfolding split_runs is_space number_of
split_tests = (refl, refl)
