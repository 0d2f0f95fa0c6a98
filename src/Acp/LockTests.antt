-- ===== src/Acp/LockTests.antt =====
-- adapters/acp/lock-owner.ts and session-lock.ts, at small observations and short runs.
use Prim.Native.String.{String}
use d3r.Base.{ℕ, ◌≡◌, ◌≢◌, refl, arith, ◌==◌, Bool, true, false, List, [], ◌∷◌, none, some}
use d3r.Base.Text.{is_space}
use d3r.Acp.Owner.{LockOwner, parse_owner}
use d3r.Acp.Observe.{content, failed, Observations, current_lock_owner, parse_stat}
use d3r.Acp.Liveness.{live, dead, unknown, lock_owner_status}
use d3r.Acp.Evidence.{IsDeadOwner, dead-IsDeadOwner}
use d3r.Acp.Lock.{
  Phase, holding, failed as lost, Registry, Event, publishes, opens, visits, finishes, dies, run,
  start,
}
use d3r.Acp.Exclusion.{run-exclusive}
use d3r.Acp.Takeover.{IsAt, acquisition, acquisition-holding}

abbrev any_text : String → Bool
any_text s = true

abbrev status_line : String
status_line = "Name:\tnode\nNSpid:\t41\nThreads:\t1\n"

-- A process of Linux that is called `node (main) x`.
abbrev self_stat : String
self_stat = "41 (node (main) x) S 1 1 1 0 -1 4194560 0 0 0 0 0 0 0 0 20 0 1 0 7700 0 0\n"

stat_of_self : parse_stat self_stat 41 ≡ some "7700"
unfolding parse_stat is_space
stat_of_self = refl

stat_of_other : parse_stat self_stat 42 ≡ none
unfolding parse_stat is_space
stat_of_other = refl

-- The owner has the number 40, and the process that has it now started later.
abbrev seen : Observations
seen = record {
  host = "here";
  platform = "linux";
  pid = 41;
  boot_id = content "6f0b\n";
  machine_id = failed (some "ENOENT");
  pid_namespace = content "pid:[4026531836]";
  self_stat = content self_stat;
  self_status = content status_line;
  probe = none;
  owner_stat = content "40 (sh) R 1 1 1 0 -1 4194560 0 0 0 0 0 0 0 0 20 0 1 0 8800 0 0\n";
  probe_again = none;
}

abbrev owner : LockOwner
owner = record {
  host = "here";
  platform = "linux";
  pid = 40;
  linux = some (record {
    boot_id = "6F0B";
    machine_id = none;
    pid_namespace = "pid:[4026531836]";
    start_time = "8799";
  });
}

owner_dead : lock_owner_status any_text owner (some seen) ≡ dead
unfolding lock_owner_status is_space
owner_dead = refl

-- The same start time, and a probe that is not permitted.
owner_live :
    lock_owner_status any_text
      (record owner {
        linux = some (record {
          boot_id = "6f0b";
          machine_id = none;
          pid_namespace = "pid:[4026531836]";
          start_time = "8800";
        });
      })
      (some seen)
    ≡ live
unfolding lock_owner_status is_space
owner_live = refl

owner_unknown :
    lock_owner_status any_text owner (some (record seen { probe = some (some "EPERM") })) ≡ unknown
unfolding lock_owner_status is_space
owner_unknown = refl

dead-IsDeadOwner_example :
    (recorded current : LockOwner) × (parse_owner any_text owner ≡ some recorded)
    × (current_lock_owner any_text seen ≡ some current)
    × IsDeadOwner recorded current seen
dead-IsDeadOwner_example = dead-IsDeadOwner any_text owner seen owner_dead

-- The first claimant holds the lock and its process ends; the second one takes over, and a third one
-- finds it alive.
abbrev events : List Event
events =
    publishes 1
    ∷ opens 1
    ∷ visits 1 live true
    ∷ finishes 1 true
    ∷ publishes 2
    ∷ dies 1
    ∷ opens 2
    ∷ visits 2 unknown true
    ∷ visits 2 dead true
    ∷ finishes 2 true
    ∷ publishes 3
    ∷ opens 3
    ∷ visits 3 live true
    ∷ visits 3 live true
    ∷ []

second_holds : (run events start).phase 2 ≡ holding
unfolding run start
second_holds = refl

third_fails : (run events start).phase 3 ≡ lost
unfolding run start
third_fails = refl

second_runs : (run events start).runs 2 ≡ true
unfolding run start
second_runs = refl

third_runs : (run events start).runs 3 ≡ true
unfolding run start
third_runs = refl

abbrev second : ℕ
second = 2

abbrev third : ℕ
third = 3

of_numbers : (m n : ℕ) → (m == n) ≡ false → m ≢ n
of_numbers m n h e = ground arith

different : second ≢ third
different = of_numbers 2 3 refl

run-exclusive_example : (run events start).phase 3 ≢ holding
unfolding run start
run-exclusive_example =
    run-exclusive events second third
      (tt, (tt, (tt, (tt, (tt, (tt, (tt, (tt, (refl, (tt, (tt, (tt, (tt, (tt, tt))))))))))))))
      different second_runs third_runs second_holds

-- Two claims of ended processes.
abbrev left : Registry
left = record { claims = 5 ∷ 6 ∷ []; phase = λ n. Phase.staged; runs = λ n. true }

acquisition-holding_example : IsAt 7 holding (run (acquisition 7 (5 ∷ 6 ∷ [])) left)
acquisition-holding_example = acquisition-holding 7 left refl refl refl
