-- ===== src/Acp/Evidence.antt =====
-- adapters/acp/lock-owner.ts, `lockOwnerStatus`: what an owner that is called dead is known to be.
use Prim.Native.String.{String}
use d3r.Base.{
  or-false_parts, ℕ, ◌≡◌, ◌≢◌, refl, Bool, true, false, not, ◌&&◌, ◌||◌, Option, none, some,
  if◌then◌else◌, str_eq, eq_iff, Bool-cases, Option-cases, inl, inr, arith, ◌⊎◌,
}
use d3r.Base.Text.{number_of}
use d3r.Acp.Owner.{LockOwner, Linux, parse_owner}
use d3r.Acp.Liveness.{
  Status, live, dead, unknown, has_code, probe_status, same_status, both_known, from_start,
  stat_status, probed_status, linux_status, by_linux, is_known, compare_owners, lock_owner_status,
}
use d3r.Acp.Observe.{Read, content, failed, Observations, parse_stat, current_lock_owner}

-- The process is gone: a probe finds none, or its number belongs to a process that started later.
abbrev pub IsGone : ℕ → Linux → Observations → Type 0
IsGone pid prior o =
    (probe_status o.probe ≡ dead)
    ⊎ (probe_status o.probe_again ≡ dead)
    ⊎ ((text start : String) × (o.owner_stat ≡ content text)
        × (parse_stat text pid ≡ some start)
        × (number_of start ≢ number_of prior.start_time))

-- The machine is known to be the same one, and has been started again.
abbrev pub IsRebooted : Linux → Linux → Type 0
IsRebooted prior local =
    (m : String) × (prior.machine_id ≡ some m)
    × (local.machine_id ≡ some m)
    × (prior.boot_id ≢ local.boot_id)

abbrev pub IsSameNamespace : Linux → Linux → Type 0
IsSameNamespace prior local =
    (prior.boot_id ≡ local.boot_id) × (prior.pid_namespace ≡ local.pid_namespace)

str_eq-true : (s t : String) → not (str_eq s t) ≡ false → s ≡ t
str_eq-true s t h = ground (arith, eq_iff s t)

str_eq-false : (s t : String) → not (str_eq s t) ≡ true → s ≢ t
str_eq-false s t h p = ground (arith, eq_iff s t)

same_known :
    (a b : Option String)
    → both_known a b str_eq ≡ true
    → (m : String) × (a ≡ some m) × (b ≡ some m)
same_known (some a) (some b) h = (a, refl, ground (arith, eq_iff a b))
same_known none b h = cc
same_known (some a) none h = cc

is_dead : (s : Status) → same_status s dead ≡ true → s ≡ dead
is_dead live h = cc
is_dead dead h = refl
is_dead unknown h = cc

second : (a b : Bool) → (a && b) ≡ true → b ≡ true
second a b h = ground arith

dead_if : (b : Bool) → (if b then dead else unknown) ≡ dead → b ≡ true
dead_if b h = ground arith

start_gone :
    (prior : Linux) (found : Option String)
    → from_start prior found ≡ dead
    → (start : String) × (found ≡ some start) × (number_of start ≢ number_of prior.start_time)
start_gone prior none h = cc
start_gone prior (some start) h = (start, refl, ground arith)

stat-IsGone :
    (prior : Linux) (pid : ℕ) (o : Observations) (r : Read)
    → o.owner_stat ≡ r
    → stat_status prior pid o.probe_again r ≡ dead
    → IsGone pid prior o
stat-IsGone prior pid o (content text) e h =
    let (start, found, other) = start_gone prior (parse_stat text pid) h in
    inr (inr (text, start, e, found, other))
stat-IsGone prior pid o (failed code) e h = inr (
    inl (
      is_dead (probe_status o.probe_again) (
        second (has_code "ENOENT" code || has_code "ESRCH" code)
          (same_status (probe_status o.probe_again) dead) (dead_if _ h))))

probed-IsGone :
    (prior : Linux) (pid : ℕ) (o : Observations) (s : Status)
    → probe_status o.probe ≡ s
    → probed_status s (stat_status prior pid o.probe_again o.owner_stat) ≡ dead
    → IsGone pid prior o
probed-IsGone prior pid o live e h = stat-IsGone prior pid o o.owner_stat refl h
probed-IsGone prior pid o dead e h = inl e
probed-IsGone prior pid o unknown e h = cc

-- What `dead` rests on for an owner that was recorded with evidence of Linux.
abbrev pub Evidence : Linux → Linux → ℕ → Observations → Type 0
Evidence prior local pid o =
    IsRebooted prior local ⊎ (IsSameNamespace prior local × IsGone pid prior o)

linux-Evidence :
    (prior local : Linux) (pid : ℕ) (o : Observations)
    → linux_status prior local pid o ≡ dead
    → Evidence prior local pid o
unfolding linux_status
linux-Evidence prior local pid o h =
    elim (Bool-cases (both_known prior.machine_id local.machine_id (λ a b. not (str_eq a b)))) [
      | inl q ↦ absurd (never (rw q at h))
      | inr q ↦ elim (Bool-cases (not (str_eq prior.boot_id local.boot_id))) [
        | inl w ↦
            let (m, a, b) =
              same_known prior.machine_id local.machine_id (dead_if _ (rw (q, w) at h)) in
            inl (m, a, b, str_eq-false prior.boot_id local.boot_id w)
        | inr w ↦ elim (Bool-cases (not (str_eq prior.pid_namespace local.pid_namespace))) [
          | inl x ↦ absurd (never (rw (q, w, x) at h))
          | inr x ↦ inr (
            (
              str_eq-true prior.boot_id local.boot_id w,
              str_eq-true prior.pid_namespace local.pid_namespace x,
            ),
            probed-IsGone prior pid o (probe_status o.probe) refl (rw (q, w, x) at h),
          )
        ]
      ]
    ]
  where
    never : unknown ≡ dead → ⊥
    never e = cc

-- What `dead` rests on for the owner that is recorded: the evidence above, if both sides have evidence
-- of Linux; a probe that finds no process, if the recorded owner has none.
abbrev pub IsDeadOwner : LockOwner → LockOwner → Observations → Type 0
IsDeadOwner recorded current o =
    (recorded.host ≡ current.host)
    × (recorded.platform ≡ current.platform)
    × (((recorded.linux ≡ none) × (probe_status o.probe ≡ dead))
        ⊎ ((prior local : Linux) × (recorded.linux ≡ some prior)
            × (current.linux ≡ some local)
            × Evidence prior local recorded.pid o))

by_linux-Evidence :
    (a b : Option Linux) (pid : ℕ) (o : Observations)
    → by_linux a b pid o ≡ dead
    → (prior local : Linux) × (a ≡ some prior) × (b ≡ some local) × Evidence prior local pid o
by_linux-Evidence (some prior) (some local) pid o h =
    (prior, local, refl, refl, linux-Evidence prior local pid o h)
by_linux-Evidence none b pid o h = cc
by_linux-Evidence (some prior) none pid o h = cc

elsewhere :
    (l : Option Linux) (s : Status)
    → (if is_known l then unknown else s) ≡ dead
    → (l ≡ none) × (s ≡ dead)
elsewhere none s h = (refl, h)
elsewhere (some l) s h = cc

compare-IsDeadOwner :
    (recorded current : LockOwner) (o : Observations)
    → compare_owners recorded current o ≡ dead
    → IsDeadOwner recorded current o
unfolding compare_owners
compare-IsDeadOwner r c o h =
    elim (Bool-cases (not (str_eq r.host c.host) || not (str_eq r.platform c.platform))) [
      | inl q ↦ absurd (never (rw q at h))
      | inr q ↦
          let (x, y) =
            or-false_parts (not (str_eq r.host c.host)) (not (str_eq r.platform c.platform)) q in
          let host = str_eq-true r.host c.host x in
          let platform = str_eq-true r.platform c.platform y in
          elim (Bool-cases (not (str_eq c.platform "linux"))) [
            | inl w ↦
                (host, platform, inl (elsewhere r.linux (probe_status o.probe) (rw (q, w) at h)))
            | inr w ↦
                (host, platform, inr (by_linux-Evidence r.linux c.linux r.pid o (rw (q, w) at h)))
          ]
    ]
  where
    never : unknown ≡ dead → ⊥
    never e = cc

-- An owner is called dead only on evidence: the recorded owner and this process are well formed and
-- on the same host and platform, and either the same machine has been booted again, or, within one
-- boot and one process namespace, a probe finds no process or the number belongs to a process with
-- another start time; or the record holds no evidence of Linux and a probe finds no process.
pub dead-IsDeadOwner :
    (is_uuid : String → Bool) (owner : LockOwner) (o : Observations)
    → lock_owner_status is_uuid owner (some o) ≡ dead
    → (recorded current : LockOwner) × (parse_owner is_uuid owner ≡ some recorded)
      × (current_lock_owner is_uuid o ≡ some current)
      × IsDeadOwner recorded current o
unfolding lock_owner_status
dead-IsDeadOwner is_uuid owner o h = elim (Option-cases (parse_owner is_uuid owner)) [
  | inl e ↦ absurd (never (rw (e, lock_owner_status) at h))
  | inr (r, e) ↦ elim (Option-cases (current_lock_owner is_uuid o)) [
    | inl f ↦ absurd (never (rw (e, f, lock_owner_status) at h))
    | inr (c, f) ↦ (r, c, e, f, compare-IsDeadOwner r c o (rw (e, f, lock_owner_status) at h))
  ]
]
  where
    never : unknown ≡ dead → ⊥
    never e = cc
