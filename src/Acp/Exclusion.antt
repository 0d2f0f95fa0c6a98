-- ===== src/Acp/Exclusion.antt =====
-- adapters/acp/session-lock.ts: every event of the lock and what holds between the claimants, and the
-- exclusion of other claimants while one holds the lock.
use d3r.Base.{
  ℕ, ◌≡◌, ◌≢◌, refl, Bool, true, false, List, [], ◌∷◌, ◌==◌, if◌then◌else◌, ◌⊎◌, inl, inr, arith,
  Bool-cases,
}
use mathlib.Core.Path.{ap}
use d3r.Acp.Liveness.{Status}
use d3r.Acp.Lock.{
  Phase, staged, published, scanning, holding, failed, released, Registry, Event, publishes, opens,
  notices, visits, finishes, errs, releases, dies, mem, withdraw, update, publish, open_directory,
  notice, visit, finish, err, release, step, run, start,
}
use d3r.Acp.Contention.{remaining, IsFair, leaves-IsFair, give_up-IsFair, mem-withdraw}
use d3r.Acp.Moves.{
  HonestVisit, publish-IsFair, open-IsFair, collect-IsFair, retain-IsFair, notice-IsFair,
}

abbrev pub IsHonest : Event → Registry → Type 0
IsHonest (visits n answer withdrawn) s = HonestVisit (s.phase n) answer s
IsHonest _ s = Unit

abbrev pub IsHonestRun : List Event → Registry → Type 0
unfolding step
IsHonestRun [] s = Unit
IsHonestRun (e ∷ es) s = IsHonest e s × IsHonestRun es (step e s)

-- Each event, by the phase that its claimant is in.
module _ (s : Registry) (a : ℕ) (fair : IsFair s) (runs : s.runs a ≡ true) where
  publishes-IsFair : (p : Phase) → s.phase a ≡ p → IsFair (publish p a s)
  publishes-IsFair staged e = publish-IsFair s a fair runs
  publishes-IsFair published e = fair
  publishes-IsFair (scanning seen rest) e = fair
  publishes-IsFair holding e = fair
  publishes-IsFair failed e = fair
  publishes-IsFair released e = fair

  opens-IsFair : (p : Phase) → s.phase a ≡ p → IsFair (open_directory p a s)
  opens-IsFair published e = open-IsFair s a fair runs e
  opens-IsFair staged e = fair
  opens-IsFair (scanning seen rest) e = fair
  opens-IsFair holding e = fair
  opens-IsFair failed e = fair
  opens-IsFair released e = fair

  notices-IsFair : (p : Phase) (entry : ℕ) → s.phase a ≡ p → IsFair (notice p a entry s)
  notices-IsFair (scanning seen rest) entry e = notice-IsFair s a fair runs seen entry rest e
  notices-IsFair staged entry e = fair
  notices-IsFair published entry e = fair
  notices-IsFair holding entry e = fair
  notices-IsFair failed entry e = fair
  notices-IsFair released entry e = fair

  visits-IsFair :
      (p : Phase) (answer : Status) (b : Bool)
      → s.phase a ≡ p
      → HonestVisit p answer s
      → IsFair (visit p a answer b s)
  visits-IsFair (scanning seen (entry ∷ rest)) answer b e h =
      collect-IsFair s a fair runs seen entry rest answer b e h
  visits-IsFair (scanning seen []) answer b e h = fair
  visits-IsFair staged answer b e h = fair
  visits-IsFair published answer b e h = fair
  visits-IsFair holding answer b e h = fair
  visits-IsFair failed answer b e h = fair
  visits-IsFair released answer b e h = fair

  finishes-IsFair : (p : Phase) (b : Bool) → s.phase a ≡ p → IsFair (finish p a b s)
  finishes-IsFair (scanning seen []) b e = retain-IsFair s a fair runs seen b e
  finishes-IsFair (scanning seen (entry ∷ rest)) b e = fair
  finishes-IsFair staged b e = fair
  finishes-IsFair published b e = fair
  finishes-IsFair holding b e = fair
  finishes-IsFair failed b e = fair
  finishes-IsFair released b e = fair

  errs-IsFair : (p : Phase) (b : Bool) → IsFair (err p a b s)
  errs-IsFair staged b = leaves-IsFair s a failed s.claims fair refl (λ m d r h. h)
  errs-IsFair published b = give_up-IsFair s a b fair
  errs-IsFair (scanning seen rest) b = give_up-IsFair s a b fair
  errs-IsFair holding b = fair
  errs-IsFair failed b = fair
  errs-IsFair released b = fair

  releases-IsFair : (p : Phase) → IsFair (release p a s)
  releases-IsFair holding =
      leaves-IsFair s a released (withdraw a s.claims) fair refl
        (λ m d r h. mem-withdraw m a s.claims d h)
  releases-IsFair staged = fair
  releases-IsFair published = fair
  releases-IsFair (scanning seen rest) = fair
  releases-IsFair failed = fair
  releases-IsFair released = fair

-- An end of a process takes claimants away only.
ends-IsFair : (s : Registry) (a : ℕ) → IsFair s → IsFair (record s { runs = update a false s.runs })
ends-IsFair s a fair = record {
  present = λ n r c. fair.present n (ran n r) c;
  ahead = λ m n t u d rm rn h k. fair.ahead m n t u d (ran m rm) (ran n rn) h k;
}
  where
    ran : (n : ℕ) → (if n == a then false else s.runs n) ≡ true → s.runs n ≡ true
    ran n r = ground arith

-- Only a process that runs acts.
acts-IsFair :
    (s t : Registry) (a : ℕ)
    → IsFair s
    → (s.runs a ≡ true → IsFair t)
    → IsFair (if s.runs a then t else s)
acts-IsFair s t a fair next = elim (Bool-cases (s.runs a)) [
  | inl r ↦ rw r (next r)
  | inr r ↦ rw r fair
]

step-IsFair : (e : Event) (s : Registry) → IsHonest e s → IsFair s → IsFair (step e s)
unfolding step
step-IsFair (publishes n) s h fair =
    acts-IsFair s _ n fair (λ r. publishes-IsFair s n fair r (s.phase n) refl)
step-IsFair (opens n) s h fair =
    acts-IsFair s _ n fair (λ r. opens-IsFair s n fair r (s.phase n) refl)
step-IsFair (notices n entry) s h fair =
    acts-IsFair s _ n fair (λ r. notices-IsFair s n fair r (s.phase n) entry refl)
step-IsFair (visits n answer b) s h fair =
    acts-IsFair s _ n fair (λ r. visits-IsFair s n fair r (s.phase n) answer b refl h)
step-IsFair (finishes n b) s h fair =
    acts-IsFair s _ n fair (λ r. finishes-IsFair s n fair r (s.phase n) b refl)
step-IsFair (errs n b) s h fair = acts-IsFair s _ n fair (λ r. errs-IsFair s n fair r (s.phase n) b)
step-IsFair (releases n) s h fair =
    acts-IsFair s _ n fair (λ r. releases-IsFair s n fair r (s.phase n))
step-IsFair (dies n) s h fair = ends-IsFair s n fair

run-IsFair : (es : List Event) (s : Registry) → IsHonestRun es s → IsFair s → IsFair (run es s)
unfolding run
run-IsFair [] s h fair = fair
run-IsFair (e ∷ es) s (h, hs) fair = run-IsFair es (step e s) hs (step-IsFair e s h fair)

start-IsFair : IsFair start
unfolding start
start-IsFair = record { present = λ n r c. cc; ahead = λ m n t u d rm rn h k. cc }

-- Whatever the interleaving of publications, scans, withdrawals, errors, releases and ends of
-- processes from an empty registry: while a claimant whose process runs holds the lock, no other one
-- whose process runs holds it, if a scan takes a process for dead only when it has ended.
pub run-exclusive :
    (es : List Event) (m n : ℕ)
    → IsHonestRun es start
    → m ≢ n
    → (run es start).runs m ≡ true
    → (run es start).runs n ≡ true
    → (run es start).phase m ≡ holding
    → (run es start).phase n ≢ holding
run-exclusive es m n honest other rm rn hm hn = neither (
    (run-IsFair es start honest start-IsFair).ahead m n [] [] other rm rn (ap remaining hm)
      (ap remaining hn))
  where
    neither : (mem n [] ≡ true) ⊎ (mem m [] ≡ true) → ⊥
    neither (inl h) = cc
    neither (inr h) = cc
