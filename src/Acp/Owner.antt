-- ===== src/Acp/Owner.antt =====
-- adapters/acp/lock-owner.ts: who owns a session lock, and what the operating system tells of this
-- process. Each read of a file, and each probe, is one observation.
use Prim.Native.Char.{code}
use Prim.Native.String.{String, [], ◌∷◌}
use d3r.Base.{ℕ, suc, Bool, false, ◌&&◌, ◌||◌, Option, none, some, leb, ◌==◌, if◌then◌else◌}
use d3r.Base.Text.{to_lower, units, is_empty, every, is_digit}
use d3r.Base.Optional.{check, optionally, ◌>>=◌}
use d3r.Schema.{max_safe_integer}

abbrev pub metadata_bytes : ℕ
metadata_bytes = 4096

abbrev pub decimal_digits : ℕ
decimal_digits = 20

abbrev pub start_time_index : ℕ
start_time_index = 18

abbrev pub stat_fields : ℕ
stat_fields = 64

-- Evidence that is good within one boot of one machine.
pub record Linux : Type 0 where
  pub boot_id : String
  pub machine_id : Option String
  pub pid_namespace : String
  pub start_time : String

pub record LockOwner : Type 0 where
  pub host : String
  pub platform : String
  pub pid : ℕ
  pub linux : Option Linux

-- `pidSchema`, `ticksSchema` and the schemas of `linuxSchema`; `none` is a refusal.
abbrev pub is_pid : ℕ → Bool
is_pid n = leb 1 n && leb n max_safe_integer

unfoldable pub is_ticks : String → Bool
unfolding units
is_ticks s = leb 1 (units s) && leb (units s) decimal_digits && every is_digit s

abbrev is_hex : ℕ → Bool
is_hex c = is_digit c || (leb b'a' c && leb c b'f') || (leb b'A' c && leb c b'F')

unfoldable pub parse_machine_id : String → Option String
unfolding units to_lower
parse_machine_id s = if units s == 32 && every is_hex s then some (to_lower s) else none

-- One to twenty digits and the closing bracket.
abbrev closes : ℕ → String → Bool
closes n [] = false
closes n (c ∷ s) =
    let more = closes (suc n) s in
    if is_digit (code c)
    then more
    else code c == b']' && is_empty s && leb 1 n && leb n decimal_digits

abbrev pub after : String → String → Option String
after [] s = some s
after (p ∷ ps) [] = none
after (p ∷ ps) (c ∷ s) = if code p == code c then after ps s else none

-- `/^pid:\[[0-9]{1,20}\]$/`
unfoldable pub is_namespace : String → Bool
unfolding units
is_namespace s =
    leb (units s) 26 && (elim (after "pid:[" s) [ none ↦ false | some rest ↦ closes 0 rest ])

-- The schema library's test for a UUID is a parameter.
module _ (is_uuid : String → Bool) where
  unfoldable pub parse_boot_id : String → Option String
  unfolding units to_lower
  parse_boot_id s = check (leb (units s) 36 && is_uuid s) (to_lower s)

  unfoldable pub parse_linux : Linux → Option Linux
  unfolding parse_boot_id parse_machine_id is_namespace is_ticks
  parse_linux l = do
    boot ← parse_boot_id l.boot_id
    machine ← optionally parse_machine_id l.machine_id
    namespace ← check (is_namespace l.pid_namespace) l.pid_namespace
    start ← check (is_ticks l.start_time) l.start_time
    some (record {
      boot_id = boot;
      machine_id = machine;
      pid_namespace = namespace;
      start_time = start;
    })

  -- `LockOwner.parse`
  unfoldable pub parse_owner : LockOwner → Option LockOwner
  unfolding parse_linux
  parse_owner o = do
    host ← check (leb 1 (units o.host) && leb (units o.host) 255) o.host
    platform ← check (leb 1 (units o.platform) && leb (units o.platform) 32) o.platform
    pid ← check (is_pid o.pid) o.pid
    linux ← optionally parse_linux o.linux
    some (record { host = host; platform = platform; pid = pid; linux = linux })
