-- ===== src/Acp/Moves.antt =====
-- adapters/acp/session-lock.ts: the steps of one claimant, and what holds between the claimants.
use d3r.Base.{
  ℕ, suc, ◌≡◌, ◌≢◌, refl, sym, Bool, true, false, not, ◌||◌, List, [], ◌∷◌, some, ltb, ◌==◌, inl,
  inr, arith, Bool-cases,
}
use mathlib.Core.Path.{subst, ap}
use d3r.Acp.Liveness.{Status, live, dead, unknown}
use d3r.Acp.Lock.{
  Phase, published, scanning, holding, Registry, max_claims, mem, withdraw, enter, give_up, collect,
  retain,
}
use d3r.Base.Optional.{some-eq}
use d3r.Acp.Contention.{
  remaining, is_claiming, IsFair, After, act-IsFair, give_up-IsFair, goes_on-IsFair, mem-withdraw,
  mem-rest, mem-later, mem-own, remaining-is_claiming, same_of, other_of,
}

-- `dead` is said of the entry in turn only if its process has ended.
abbrev pub HonestVisit : Phase → Status → Registry → Type 0
HonestVisit (scanning seen (entry ∷ rest)) dead s = s.runs entry ≡ false
HonestVisit _ _ s = Unit

module _ (s : Registry) (a : ℕ) (fair : IsFair s) (runs : s.runs a ≡ true) where
  pub publish-IsFair : IsFair (After a published (a ∷ s.claims) s)
  publish-IsFair =
      act-IsFair s a published (a ∷ s.claims) fair (λ m d r h. mem-later m a s.claims h)
        (λ h. mem-own a s.claims) (λ m t u d r h k. cc)

  pub open-IsFair : s.phase a ≡ published → IsFair (After a (scanning 0 s.claims) s.claims s)
  open-IsFair e =
      act-IsFair s a (scanning 0 s.claims) s.claims fair (λ m d r h. h)
        (λ h. fair.present a runs (claiming (s.phase a) e))
        (λ m t u d r h k. inl (
          subst (λ l. mem m l ≡ true) (some-eq k)
            (fair.present m r (remaining-is_claiming (s.phase m) u h))))
    where
      claiming : (p : Phase) → p ≡ published → is_claiming p ≡ true
      claiming p e = subst (λ q. is_claiming q ≡ true) (sym e) refl

  -- The part that is left of a scan, or all of it once the claim is kept.
  goes_on :
      (seen : ℕ) (p : Phase) (rest old claims : List ℕ)
      → remaining p ≡ some rest
      → s.phase a ≡ scanning seen old
      → ((m : ℕ) → s.runs m ≡ true → mem m s.claims ≡ true → mem m claims ≡ true)
      → ((m : ℕ)
          → m ≢ a
          → s.runs m ≡ true
          → mem m s.claims ≡ true
          → mem m old ≡ true
          → mem m rest ≡ true)
      → IsFair (After a p claims s)
  goes_on seen p rest old claims now e =
      goes_on-IsFair s a fair runs p rest old claims now (ap remaining e)

  skip-IsFair :
      (seen entry : ℕ) (rest : List ℕ)
      → s.phase a ≡ scanning seen (entry ∷ rest)
      → (entry == a || not (mem entry s.claims)) ≡ true
      → IsFair (After a (scanning (suc seen) rest) s.claims s)
  skip-IsFair seen entry rest e q =
      goes_on seen (scanning (suc seen) rest) rest (entry ∷ rest) s.claims refl e (λ m r h. h)
        (λ m d r h k. skipped m d h k)
    where
      skipped :
          (m : ℕ) → m ≢ a → mem m s.claims ≡ true → mem m (entry ∷ rest) ≡ true → mem m rest ≡ true
      skipped m d h k = elim (Bool-cases (m == entry)) [
        | inl x ↦ absurd (clash (same_of m entry x))
        | inr x ↦ mem-rest m entry rest (other_of m entry x) k
      ]
        where
          clash : m ≡ entry → ⊥
          clash x = ground (arith, x)

  collect_dead-IsFair :
      (seen entry : ℕ) (rest : List ℕ)
      → s.phase a ≡ scanning seen (entry ∷ rest)
      → s.runs entry ≡ false
      → IsFair (After a (scanning (suc seen) rest) (withdraw entry s.claims) s)
  collect_dead-IsFair seen entry rest e ended =
      goes_on seen (scanning (suc seen) rest) rest (entry ∷ rest) (withdraw entry s.claims) refl e
        (λ m r h. mem-withdraw m entry s.claims (differs m r) h)
        (λ m d r h k. mem-rest m entry rest (differs m r) k)
    where
      differs : (m : ℕ) → s.runs m ≡ true → m ≢ entry
      differs m r x = not_both (subst (λ k. s.runs k ≡ true) x r)
        where
          not_both : s.runs entry ≡ true → ⊥
          not_both r = cc

  pub collect-IsFair :
      (seen entry : ℕ) (rest : List ℕ) (answer : Status) (b : Bool)
      → s.phase a ≡ scanning seen (entry ∷ rest)
      → HonestVisit (scanning seen (entry ∷ rest)) answer s
      → IsFair (collect a entry seen rest answer b s)
  collect-IsFair seen entry rest answer b e honest = elim (Bool-cases (ltb max_claims (suc seen))) [
    | inl q ↦ rw q (give_up-IsFair s a b fair)
    | inr q ↦ elim (Bool-cases (entry == a || not (mem entry s.claims))) [
      | inl w ↦ rw (q, w) (skip-IsFair seen entry rest e w)
      | inr w ↦ rw (q, w) (by_answer answer honest)
    ]
  ]
    where
      by_answer :
          (answer : Status)
          → HonestVisit (scanning seen (entry ∷ rest)) answer s
          → IsFair (elim answer [
            | dead ↦
                enter a (scanning (suc seen) rest) (record s { claims = withdraw entry s.claims })
            | _ ↦ give_up a b s
          ])
      by_answer dead honest = collect_dead-IsFair seen entry rest e honest
      by_answer live honest = give_up-IsFair s a b fair
      by_answer unknown honest = give_up-IsFair s a b fair

  pub retain-IsFair : (seen : ℕ) (b : Bool) → s.phase a ≡ scanning seen [] → IsFair (retain a b s)
  retain-IsFair seen b e = elim (Bool-cases (mem a s.claims)) [
    | inl q ↦ rw q (goes_on seen holding [] [] s.claims refl e (λ m r h. h) (λ m d r h k. k))
    | inr q ↦ rw q (give_up-IsFair s a b fair)
  ]

  pub notice-IsFair :
      (seen entry : ℕ) (rest : List ℕ)
      → s.phase a ≡ scanning seen rest
      → IsFair (After a (scanning seen (entry ∷ rest)) s.claims s)
  notice-IsFair seen entry rest e =
      goes_on seen (scanning seen (entry ∷ rest)) (entry ∷ rest) rest s.claims refl e (λ m r h. h)
        (λ m d r h k. mem-later m entry rest k)
