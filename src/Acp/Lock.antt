-- ===== src/Acp/Lock.antt =====
-- adapters/acp/session-lock.ts: the lock of a session is a directory of claims. A claimant is one call
-- of `acquireSessionLock`, named by the identity that it draws, which is never drawn again; the events
-- are its steps on the directory and the ends of processes, in any order.
use d3r.Base.{ℕ, suc, Bool, true, false, not, ◌||◌, List, [], ◌∷◌, ltb, ◌==◌, if◌then◌else◌}
use d3r.Acp.Liveness.{Status, dead}

abbrev pub max_claims : ℕ
max_claims = 128

abbrev pub mem : ℕ → List ℕ → Bool
mem n [] = false
mem n (k ∷ ks) = n == k || mem n ks

-- `unlink` of a claim; one that is gone is no error.
abbrev pub withdraw : ℕ → List ℕ → List ℕ
withdraw n [] = []
withdraw n (k ∷ ks) = let rest = withdraw n ks in if n == k then rest else k ∷ rest

-- How far a call has come. While it scans, `seen` entries have been counted and `rest` are to come.
pub data Phase : Type 0 where
  staged published : Phase
  scanning : (seen : ℕ) (rest : List ℕ) → Phase
  holding failed released : Phase

pub record Registry : Type 0 where
  pub claims : List ℕ
  pub phase : ℕ → Phase
  -- whether the claimant's process runs
  pub runs : ℕ → Bool

abbrev pub update {ℓ} : {A : Type ℓ} → ℕ → A → (ℕ → A) → ℕ → A
update n a f k = if k == n then a else f k

abbrev pub enter : ℕ → Phase → Registry → Registry
enter n p s = record s { phase = update n p s.phase }

-- The `catch` of `acquireSessionLock`: the claim is withdrawn, if that works.
abbrev pub give_up : ℕ → (withdrawn : Bool) → Registry → Registry
give_up n withdrawn s =
    enter n failed (record s { claims = if withdrawn then withdraw n s.claims else s.claims })

-- One entry of `collectClaims`: `answer` is what `lockOwnerStatus` says of its owner.
abbrev pub collect :
    ℕ → (entry seen : ℕ) → List ℕ → (answer : Status) (withdrawn : Bool) → Registry → Registry
collect n entry seen rest answer withdrawn s =
    if ltb max_claims (suc seen)
    then give_up n withdrawn s
    else if entry == n || not (mem entry s.claims)
    then enter n (scanning (suc seen) rest) s
    else elim answer [
      | dead ↦ enter n (scanning (suc seen) rest) (record s { claims = withdraw entry s.claims })
      | _ ↦ give_up n withdrawn s
    ]

-- After the scan the own claim is read once more.
abbrev pub retain : ℕ → (withdrawn : Bool) → Registry → Registry
retain n withdrawn s = if mem n s.claims then enter n holding s else give_up n withdrawn s

pub data Event : Type 0 where
  -- `rename` of the staged claim to its name
  publishes : ℕ → Event
  -- `opendir`
  opens : ℕ → Event
  -- the directory hands out an entry that came after `opendir`
  notices : ℕ → (entry : ℕ) → Event
  visits : ℕ → (answer : Status) (withdrawn : Bool) → Event
  finishes : ℕ → (withdrawn : Bool) → Event
  -- any error: of the file system, a substituted directory, a foreign entry
  errs : ℕ → (withdrawn : Bool) → Event
  releases : ℕ → Event
  dies : ℕ → Event

abbrev pub publish : Phase → ℕ → Registry → Registry
publish staged n s = enter n published (record s { claims = n ∷ s.claims })
publish _ n s = s

abbrev pub open_directory : Phase → ℕ → Registry → Registry
open_directory published n s = enter n (scanning 0 s.claims) s
open_directory _ n s = s

abbrev pub notice : Phase → ℕ → (entry : ℕ) → Registry → Registry
notice (scanning seen rest) n entry s = enter n (scanning seen (entry ∷ rest)) s
notice _ n entry s = s

abbrev pub visit : Phase → ℕ → Status → (withdrawn : Bool) → Registry → Registry
visit (scanning seen (entry ∷ rest)) n answer withdrawn s =
    collect n entry seen rest answer withdrawn s
visit _ n answer withdrawn s = s

abbrev pub finish : Phase → ℕ → (withdrawn : Bool) → Registry → Registry
finish (scanning seen []) n withdrawn s = retain n withdrawn s
finish _ n withdrawn s = s

-- An error before the claim is published leaves nothing to withdraw; a lease is not given up.
abbrev pub err : Phase → ℕ → (withdrawn : Bool) → Registry → Registry
err staged n withdrawn s = enter n failed s
err published n withdrawn s = give_up n withdrawn s
err (scanning seen rest) n withdrawn s = give_up n withdrawn s
err _ n withdrawn s = s

abbrev pub release : Phase → ℕ → Registry → Registry
release holding n s = enter n released (record s { claims = withdraw n s.claims })
release _ n s = s

-- A process that has ended takes no more steps.
unfoldable pub step : Event → Registry → Registry
step (publishes n) s = if s.runs n then publish (s.phase n) n s else s
step (opens n) s = if s.runs n then open_directory (s.phase n) n s else s
step (notices n entry) s = if s.runs n then notice (s.phase n) n entry s else s
step (visits n answer withdrawn) s = if s.runs n then visit (s.phase n) n answer withdrawn s else s
step (finishes n withdrawn) s = if s.runs n then finish (s.phase n) n withdrawn s else s
step (errs n withdrawn) s = if s.runs n then err (s.phase n) n withdrawn s else s
step (releases n) s = if s.runs n then release (s.phase n) n s else s
step (dies n) s = record s { runs = update n false s.runs }

unfoldable pub run : List Event → Registry → Registry
unfolding step
run [] s = s
run (e ∷ es) s = run es (step e s)

unfoldable pub start : Registry
start = record { claims = []; phase = λ n. staged; runs = λ n. true }
