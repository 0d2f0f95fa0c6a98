-- ===== src/Acp/Takeover.antt =====
-- adapters/acp/session-lock.ts: a claimant among the claims that ended processes have left.
use mathlib.Core.Path.{subst}
use d3r.Base.{
  ℕ, suc, ◌+◌, ◌≡◌, refl, true, false, not, ◌||◌, List, [], ◌∷◌, ltb, leb, ◌==◌, inl, inr, arith,
  Bool-cases, length,
}
use d3r.Acp.Liveness.{dead}
use d3r.Acp.Lock.{
  Phase, staged, published, scanning, holding, Registry, Event, publishes, opens, visits, finishes,
  max_claims, mem, enter, step, run,
}
use d3r.Acp.Contention.{mem-withdraw}

-- The steps of a scan that finds every other owner dead, and the reading of the own claim.
abbrev pub sweep : ℕ → List ℕ → List Event
sweep n [] = finishes n true ∷ []
sweep n (entry ∷ rest) = visits n dead true ∷ sweep n rest

-- A whole `acquireSessionLock`, where every entry of the registry belongs to a dead owner.
abbrev pub acquisition : ℕ → List ℕ → List Event
acquisition n claims = publishes n ∷ opens n ∷ sweep n (n ∷ claims)

abbrev pub IsAt : ℕ → Phase → Registry → Type 0
IsAt n p s = (s.phase n ≡ p) × (s.runs n ≡ true) × (mem n s.claims ≡ true)

same : (n : ℕ) → (n == n) ≡ true
same n = ground arith

enter-phase : (n : ℕ) (p : Phase) (s : Registry) → (enter n p s).phase n ≡ p
enter-phase n p s = rw (same n) refl

visit-IsAt :
    (n seen entry : ℕ) (rest : List ℕ) (s : Registry)
    → ltb max_claims (suc seen) ≡ false
    → IsAt n (scanning seen (entry ∷ rest)) s
    → IsAt n (scanning (suc seen) rest) (step (visits n dead true) s)
unfolding step
visit-IsAt n seen entry rest s few (at, runs, own) =
    rw (runs, at, few)
      (elim (Bool-cases (entry == n || not (mem entry s.claims))) [
        | inl q ↦ rw (q, same n) (refl, runs, own)
        | inr q ↦
            rw (q, same n) (refl, runs, mem-withdraw n entry s.claims (λ e. ground (arith, e)) own)
      ])

sweep-holding :
    (n seen : ℕ) (rest : List ℕ) (s : Registry)
    → leb (seen + length rest) max_claims ≡ true
    → IsAt n (scanning seen rest) s
    → IsAt n holding (run (sweep n rest) s)
unfolding run step
sweep-holding n seen [] s few (at, runs, own) = rw (runs, at, own, same n) (refl, runs, own)
sweep-holding n seen (entry ∷ rest) s few here =
    sweep-holding n (suc seen) rest (step (visits n dead true) s) (ground arith)
      (visit-IsAt n seen entry rest s (ground arith) here)

publish-IsAt :
    (n : ℕ) (s : Registry)
    → s.phase n ≡ staged
    → s.runs n ≡ true
    → IsAt n published (step (publishes n) s) × ((step (publishes n) s).claims ≡ n ∷ s.claims)
unfolding step
publish-IsAt n s at runs = rw (runs, at, same n) ((refl, runs, refl), refl)

open-IsAt :
    (n : ℕ) (s : Registry) → IsAt n published s → IsAt n (scanning 0 s.claims) (step (opens n) s)
unfolding step
open-IsAt n s (at, runs, own) = rw (runs, at, same n) (refl, runs, own)

-- A claimant that has staged its claim acquires the lock by publishing, scanning and reading its own
-- claim once more, if it finds every other owner dead and the registry holds fewer claims than the
-- limit; it then holds the lock with its claim in place.
pub acquisition-holding :
    (n : ℕ) (s : Registry)
    → s.phase n ≡ staged
    → s.runs n ≡ true
    → ltb (length s.claims) max_claims ≡ true
    → IsAt n holding (run (acquisition n s.claims) s)
unfolding run
acquisition-holding n s at runs few =
    let (there, all) = publish-IsAt n s at runs in
    sweep-holding n 0 (n ∷ s.claims) (step (opens n) (step (publishes n) s)) (ground arith) (
      subst (λ l. IsAt n (scanning 0 l) (step (opens n) (step (publishes n) s))) all
        (open-IsAt n (step (publishes n) s) there))
