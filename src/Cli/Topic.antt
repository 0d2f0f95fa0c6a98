-- ===== src/Cli/Topic.antt =====
-- cli/src/workflow-topic.ts: the name of a task's topic, which is a part of paths in the vault.
use Prim.Native.Char.{code}
use Prim.Native.String.{String, [], ◌∷◌}
use d3r.Base.{
  ℕ, zero, suc, Bool, true, false, not, ◌&&◌, ◌||◌, Option, none, some, leb, ◌==◌, if◌then◌else◌,
  str_eq,
}
use d3r.Base.Text.{◌<>◌, units, is_space, is_empty, is_digit}

abbrev pub max_topic_length : ℕ
max_topic_length = 80

abbrev pub topic_suffix_length : ℕ
topic_suffix_length = 8

-- `[a-z0-9]`
abbrev pub is_slug_char : ℕ → Bool
is_slug_char c = is_digit c || (leb b'a' c && leb c b'z')

-- `/^[a-z0-9]+(?:-[a-z0-9]+)*$/`, where a letter or a digit is `due` at the start and behind a dash.
unfoldable pub is_slug : (due : Bool) → String → Bool
is_slug due [] = not due
is_slug due (c ∷ s) =
    let letter = is_slug false s in
    let dash = is_slug true s in
    if is_slug_char (code c) then letter else code c == b'-' && not due && dash

unfoldable pub has_space : String → Bool
unfolding is_space
has_space [] = false
has_space (c ∷ s) = is_space (code c) || has_space s

-- `(?:com|lpt)[1-9]`
abbrev pub is_port : String → Bool
is_port (a ∷ b ∷ c ∷ d ∷ []) =
    (str_eq (a ∷ b ∷ c ∷ []) "com" || str_eq (a ∷ b ∷ c ∷ []) "lpt")
    && (leb b'1' (code d) && leb (code d) b'9')
is_port _ = false

-- The names of devices under Windows.
unfoldable pub is_reserved : String → Bool
is_reserved s = str_eq s "con" || str_eq s "prn" || str_eq s "aux" || str_eq s "nul" || is_port s

-- `WorkflowTopicName`
unfoldable pub parse_topic_name : String → Option String
unfolding units is_slug has_space is_reserved
parse_topic_name s =
    if leb 1 (units s)
      && leb (units s) max_topic_length
      && is_slug true s
      && not (has_space s)
      && not (is_reserved s)
    then some s
    else none

-- `.replace(/[^a-z0-9]+/g, "-")`: each run of other characters becomes one dash.
unfoldable pub dashed : (inside : Bool) → String → String
dashed inside [] = []
dashed inside (c ∷ s) =
    let letter = dashed false s in
    let other = dashed true s in
    if is_slug_char (code c) then c ∷ letter else if inside then other else "-" ∷ other

-- `/^-+/` and `/-+$/`
unfoldable pub drop_dashes : String → String
drop_dashes [] = []
drop_dashes (c ∷ s) = let rest = drop_dashes s in if code c == b'-' then rest else c ∷ s

unfoldable pub drop_last_dashes : String → String
drop_last_dashes [] = []
drop_last_dashes (c ∷ s) =
    let t = drop_last_dashes s in if code c == b'-' && is_empty t then [] else c ∷ t

-- `.slice(0, n)`; here every character is one unit, a letter, a digit or a dash.
unfoldable pub slice : ℕ → String → String
slice zero s = []
slice (suc n) [] = []
slice (suc n) (c ∷ s) = c ∷ slice n s

abbrev pub or_topic : String → String
or_topic [] = "topic"
or_topic (c ∷ s) = c ∷ s

unfoldable pub prefix_of : String → String
unfolding dashed drop_dashes drop_last_dashes slice
prefix_of folded =
    or_topic (drop_last_dashes (slice 71 (drop_last_dashes (drop_dashes (dashed false folded)))))

-- `fold` is the platform's work on Unicode: decomposition, removal of marks, lower case. The UUID that
-- is drawn is an argument.
unfoldable pub create_topic_name : (fold : String → String) → (uuid goal : String) → Option String
unfolding prefix_of parse_topic_name
create_topic_name fold uuid goal =
    parse_topic_name (prefix_of (fold goal) <> ("-" ∷ slice topic_suffix_length uuid))
