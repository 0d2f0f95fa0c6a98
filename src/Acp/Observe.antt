-- ===== src/Acp/Observe.antt =====
-- adapters/acp/lock-owner.ts: reading procfs, and `currentLockOwner`, the description of this process.
use Prim.Native.Char.{Char, code}
use Prim.Native.String.{String, [], ◌∷◌}
use mathlib.Core.List
use d3r.Base.{
  ℕ, suc, Bool, true, false, not, ◌&&◌, ◌||◌, Option, none, some, leb, ◌==◌, if◌then◌else◌, str_eq,
  get_elem?, length, all, filter,
}
use d3r.Base.Text.{
  trim, units, is_space, is_empty, every, is_digit, number_of, split_runs, split_each,
}
use d3r.Acp.Owner.{
  metadata_bytes, decimal_digits, start_time_index, stat_fields, LockOwner, Linux, is_pid, is_ticks,
  is_namespace, parse_machine_id, parse_boot_id, parse_owner, after,
}
use d3r.Base.Optional.{check, ◌>>=◌}

-- `metadataText.parse`
unfoldable pub metadata : String → Option String
unfolding units
metadata s = check (leb (units s) metadata_bytes) s

-- The digits in front, and what follows them.
abbrev digits_of : String → String × String
digits_of [] = ([], [])
digits_of (c ∷ s) =
    let (ds, rest) = digits_of s in if is_digit (code c) then (c ∷ ds, rest) else ([], c ∷ s)

abbrev is_letter : ℕ → Bool
is_letter c = (leb b'A' c && leb c b'Z') || (leb b'a' c && leb c b'z')

-- `([^\r\n]*)\n?$`
abbrev line_of : String → Option String
line_of [] = some []
line_of (c ∷ s) =
    let line = line_of s in
    if code c == 10
    then check (is_empty s) []
    else if code c == 13
    then none
    else (do rest ← line; some (c ∷ rest))

-- `" ([A-Za-z]) ([^\r\n]+)\n?$"`: the state and the numbers.
abbrev stat_tail : String → Option (Char × String)
stat_tail (a ∷ state ∷ b ∷ s) = do
  line ← line_of s
  check (code a == 32 && is_letter (code state) && code b == 32 && not (is_empty line))
      (state, line)
stat_tail _ = none

-- `[\s\S]*\)` takes as much as it can, so the last parenthesis that lets the rest match counts.
abbrev last_close : String → Option (Char × String)
last_close [] = none
last_close (c ∷ s) =
    let here = check (code c == b')') s >>= stat_tail in
    elim (last_close s) [ none ↦ here | some found ↦ some found ]

abbrev holds_char : String → Char → Bool
holds_char [] c = false
holds_char (k ∷ ks) c = code k == code c || holds_char ks c

abbrev is_state : Char → Bool
is_state = holds_char "RSDZTtXxKWPI"

-- `/^-?[0-9]+$/` with at most 21 characters
abbrev is_number : String → Bool
is_number [] = false
is_number (c ∷ s) =
    leb (units (c ∷ s)) (suc decimal_digits)
    && ((code c == b'-' && not (is_empty s) && every is_digit s) || every is_digit (c ∷ s))

abbrev leads_positive : String → Bool
leads_positive [] = false
leads_positive (c ∷ s) = not (code c == b'0')

-- The start time in `/proc/<pid>/stat`, if that is about the process that is expected.
unfoldable pub parse_stat : String → (expected : ℕ) → Option String
unfolding metadata split_runs trim number_of is_ticks
parse_stat raw expected = do
  text ← metadata raw
  let (digits, rest) = digits_of text
  pid ← check (leads_positive digits) digits
  body ← after " (" rest
  (state, suffix) ← last_close body
  let fields = split_runs is_space (trim suffix)
  start ← get_elem? fields start_time_index
  check
      (all is_number fields
        && leb (length fields) stat_fields
        && is_pid (number_of pid)
        && is_state state
        && is_ticks start
        && number_of pid == expected)
      start

abbrev is_blank_mark : ℕ → Bool
is_blank_mark c = c == 32 || c == 9

abbrev only : {A : Type 0} → List.List A → Option A
only (List.◌∷◌ x List.[]) = some x
only _ = none

abbrev is_there : Option String → Bool
is_there none = false
is_there (some s) = true

-- The process number in `/proc/self/status`, if it is the only one and is the expected one.
unfoldable pub parse_namespace_pid : String → (expected : ℕ) → Option ℕ
unfolding metadata split_runs split_each trim number_of is_ticks
parse_namespace_pid raw expected = do
  text ← metadata raw
  line ← only (filter (λ l. is_there (after "NSpid:" l)) (split_each (λ c. c == 10) text))
  rest ← after "NSpid:" line
  pid ← only (split_runs is_blank_mark (trim rest))
  check (is_ticks pid && is_pid (number_of pid) && number_of pid == expected) expected

-- A read of a file or a link: its text, or the code of the error, if that has one.
pub data Read : Type 0 where
  content : String → Read
  failed : (code : Option String) → Read

-- What the operating system answers while one status is made out, in the order of the questions.
pub record Observations : Type 0 where
  pub host : String
  pub platform : String
  pub pid : ℕ
  pub boot_id : Read
  pub machine_id : Read
  pub pid_namespace : Read
  pub self_stat : Read
  pub self_status : Read
  -- signal zero, the owner's stat, and signal zero once more
  pub probe : Option (Option String)
  pub owner_stat : Read
  pub probe_again : Option (Option String)

-- `optionalObservation`: what cannot be read or parsed is no evidence.
unfoldable pub observe : {A : Type 0} → (String → Option A) → Read → Option A
observe parse (content text) = parse text
observe parse (failed error) = none

-- `readIdentifier`
unfoldable pub identifier : (String → Option String) → String → Option String
unfolding metadata trim
identifier parse raw = do text ← metadata raw; parse (trim text)

module _ (is_uuid : String → Bool) where
  abbrev pub own_linux : LockOwner → Observations → Option Linux
  own_linux owner o = do
    boot ← observe (identifier (parse_boot_id is_uuid)) o.boot_id
    namespace ← observe (identifier (λ s. check (is_namespace s) s)) o.pid_namespace
    start ← observe (λ s. parse_stat s owner.pid) o.self_stat
    pid ← observe (λ s. parse_namespace_pid s owner.pid) o.self_status
    some (record {
      boot_id = boot;
      machine_id = observe (identifier parse_machine_id) o.machine_id;
      pid_namespace = namespace;
      start_time = start;
    })

  -- `none` where the source throws.
  unfoldable pub current_lock_owner : Observations → Option LockOwner
  unfolding parse_owner observe identifier parse_boot_id is_namespace parse_machine_id parse_stat
      parse_namespace_pid
  current_lock_owner o = do
    owner ←
        parse_owner is_uuid
          (record { host = o.host; platform = o.platform; pid = o.pid; linux = none })
    if not (str_eq owner.platform "linux") then some owner else elim (own_linux owner o) [
      | none ↦ some owner
      | some linux ↦ parse_owner is_uuid (record owner { linux = some linux })
    ]
