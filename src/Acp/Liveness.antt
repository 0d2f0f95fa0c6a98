-- ===== src/Acp/Liveness.antt =====
-- adapters/acp/lock-owner.ts, `lockOwnerStatus`: what the observations say of the process that owns a
-- lock. Only `dead` lets another process take the lock.
use Prim.Native.String.{String}
use d3r.Base.{
  ℕ, Bool, true, false, not, ◌&&◌, ◌||◌, Option, none, some, ◌==◌, if◌then◌else◌, str_eq,
}
use d3r.Base.Text.{number_of}
use d3r.Acp.Owner.{LockOwner, Linux, parse_owner}
use d3r.Acp.Observe.{Read, content, failed, Observations, parse_stat, current_lock_owner}

pub data Status : Type 0 where
  live dead unknown : Status

-- `errorCode(error) === …`
abbrev pub has_code : String → Option String → Bool
has_code name none = false
has_code name (some code) = str_eq code name

-- The probe succeeds, or fails with the code of an error.
unfoldable pub probe_status : Option (Option String) → Status
probe_status none = live
probe_status (some code) = if has_code "ESRCH" code then dead else unknown

abbrev pub same_status : Status → Status → Bool
same_status live live = true
same_status dead dead = true
same_status unknown unknown = true
same_status _ _ = false

abbrev pub both_known : Option String → Option String → (String → String → Bool) → Bool
both_known (some a) (some b) test = test a b
both_known _ _ test = false

abbrev pub from_start : Linux → Option String → Status
from_start prior none = unknown
from_start prior (some start) = if number_of start == number_of prior.start_time then live else dead

-- `/proc/<pid>/stat`, and the second probe where it cannot be read.
abbrev pub stat_status : Linux → ℕ → (again : Option (Option String)) → Read → Status
stat_status prior pid again (content text) = from_start prior (parse_stat text pid)
stat_status prior pid again (failed code) =
    if (has_code "ENOENT" code || has_code "ESRCH" code) && same_status (probe_status again) dead
    then dead
    else unknown

abbrev pub probed_status : Status → Status → Status
probed_status live otherwise = otherwise
probed_status dead otherwise = dead
probed_status unknown otherwise = unknown

unfoldable pub linux_status : Linux → Linux → ℕ → Observations → Status
unfolding probe_status
linux_status prior local pid o =
    if both_known prior.machine_id local.machine_id (λ a b. not (str_eq a b))
    then unknown
    else if not (str_eq prior.boot_id local.boot_id)
    then (if both_known prior.machine_id local.machine_id str_eq then dead else unknown)
    else if not (str_eq prior.pid_namespace local.pid_namespace)
    then unknown
    else probed_status (probe_status o.probe) (stat_status prior pid o.probe_again o.owner_stat)

abbrev pub by_linux : Option Linux → Option Linux → ℕ → Observations → Status
by_linux (some prior) (some local) pid o = linux_status prior local pid o
by_linux _ _ pid o = unknown

abbrev pub is_known : Option Linux → Bool
is_known none = false
is_known (some l) = true

unfoldable pub compare_owners : LockOwner → LockOwner → Observations → Status
unfolding linux_status
compare_owners recorded current o =
    if not (str_eq recorded.host current.host) || not (str_eq recorded.platform current.platform)
    then unknown
    else if not (str_eq current.platform "linux")
    then (if is_known recorded.linux then unknown else probe_status o.probe)
    else by_linux recorded.linux current.linux recorded.pid o

module _ (is_uuid : String → Bool) where
  -- No observations: the host cannot even be asked for its name.
  unfoldable pub lock_owner_status : LockOwner → Option Observations → Status
  unfolding compare_owners parse_owner current_lock_owner
  lock_owner_status owner none = unknown
  lock_owner_status owner (some o) = elim (parse_owner is_uuid owner) [
    | none ↦ unknown
    | some recorded ↦ elim (current_lock_owner is_uuid o) [
      | none ↦ unknown
      | some current ↦ compare_owners recorded current o
    ]
  ]
