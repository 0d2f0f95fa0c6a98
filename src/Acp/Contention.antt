-- ===== src/Acp/Contention.antt =====
-- adapters/acp/session-lock.ts: what holds between the claimants of a lock while they publish, scan and
-- give up.
use d3r.Base.{
  ℕ, ◌≡◌, ◌≢◌, refl, sym, ◌∙◌, Bool, true, false, List, [], ◌∷◌, Option, none, some, ◌==◌, ==_iff,
  if◌then◌else◌, ◌⊎◌, inl, inr, arith,
}
use mathlib.Core.Path.{subst}
use d3r.Base.Optional.{some-eq}
use d3r.Acp.Lock.{
  Phase, staged, published, scanning, holding, failed, released, Registry, mem, withdraw, update,
  give_up,
}

-- The entries that are still to be looked at, once the directory is open.
abbrev pub remaining : Phase → Option (List ℕ)
remaining (scanning seen rest) = some rest
remaining holding = some []
remaining _ = none

abbrev pub is_claiming : Phase → Bool
is_claiming published = true
is_claiming (scanning seen rest) = true
is_claiming holding = true
is_claiming _ = false

-- Every claimant that runs and may still win has its claim in the directory; and of two that have
-- opened it, one is still to look at the other.
pub record IsFair (s : Registry) : Type 0 where
  pub present : (n : ℕ) → s.runs n ≡ true → is_claiming (s.phase n) ≡ true → mem n s.claims ≡ true
  pub ahead :
      (m n : ℕ) (t u : List ℕ)
      → m ≢ n
      → s.runs m ≡ true
      → s.runs n ≡ true
      → remaining (s.phase m) ≡ some t
      → remaining (s.phase n) ≡ some u
      → (mem n t ≡ true) ⊎ (mem m u ≡ true)

pub remaining-is_claiming : (p : Phase) (t : List ℕ) → remaining p ≡ some t → is_claiming p ≡ true
remaining-is_claiming staged t h = cc
remaining-is_claiming published t h = refl
remaining-is_claiming (scanning seen rest) t h = refl
remaining-is_claiming holding t h = refl
remaining-is_claiming failed t h = cc
remaining-is_claiming released t h = cc

pub same_of : (m n : ℕ) → (m == n) ≡ true → m ≡ n
same_of m n h = (==_iff m n).0 h

pub other_of : (m n : ℕ) → (m == n) ≡ false → m ≢ n
other_of m n h e = ground arith

pub mem-withdraw : (m k : ℕ) (xs : List ℕ) → m ≢ k → mem m xs ≡ true → mem m (withdraw k xs) ≡ true
mem-withdraw m k [] d h = h
mem-withdraw m k (x ∷ xs) d h = ground (arith, mem-withdraw m k xs d)

pub mem-rest : (m k : ℕ) (xs : List ℕ) → m ≢ k → mem m (k ∷ xs) ≡ true → mem m xs ≡ true
mem-rest m k xs d h = ground arith

pub mem-later : (m k : ℕ) (xs : List ℕ) → mem m xs ≡ true → mem m (k ∷ xs) ≡ true
mem-later m k xs h = ground arith

pub mem-own : (m : ℕ) (xs : List ℕ) → mem m (m ∷ xs) ≡ true
mem-own m xs = ground arith

mem-if :
    (m k : ℕ) (b : Bool) (xs : List ℕ)
    → m ≢ k
    → mem m xs ≡ true
    → mem m (if b then withdraw k xs else xs) ≡ true
mem-if m k true xs d h = mem-withdraw m k xs d h
mem-if m k false xs d h = h

swapped : {A B : Type 0} → A ⊎ B → B ⊎ A
swapped (inl a) = inr a
swapped (inr b) = inl b

-- The claimant `a` takes a step; the others keep their phases.
abbrev pub After : ℕ → Phase → List ℕ → Registry → Registry
After a p claims s = record { claims = claims; phase = update a p s.phase; runs = s.runs }

module _ (s : Registry) (a : ℕ) (p : Phase) (claims : List ℕ) (fair : IsFair s)
    (others : (m : ℕ) → m ≢ a → s.runs m ≡ true → mem m s.claims ≡ true → mem m claims ≡ true)
    (own : is_claiming p ≡ true → mem a claims ≡ true)
    (pairs : (m : ℕ) (t u : List ℕ)
      → m ≢ a
      → s.runs m ≡ true
      → remaining (s.phase m) ≡ some u
      → remaining p ≡ some t
      → (mem m t ≡ true) ⊎ (mem a u ≡ true)) where
  act_present :
      (n : ℕ) (b : Bool)
      → (n == a) ≡ b
      → s.runs n ≡ true
      → is_claiming (if b then p else s.phase n) ≡ true
      → mem n claims ≡ true
  act_present n true e r c = subst (λ k. mem k claims ≡ true) (sym (same_of n a e)) (own c)
  act_present n false e r c = others n (other_of n a e) r (fair.present n r c)

  act_ahead :
      (m n : ℕ) (t u : List ℕ) (b c : Bool)
      → (m == a) ≡ b
      → (n == a) ≡ c
      → m ≢ n
      → s.runs m ≡ true
      → s.runs n ≡ true
      → remaining (if b then p else s.phase m) ≡ some t
      → remaining (if c then p else s.phase n) ≡ some u
      → (mem n t ≡ true) ⊎ (mem m u ≡ true)
  act_ahead m n t u true true e f d rm rn h k = absurd (d (same_of m a e ∙ sym (same_of n a f)))
  act_ahead m n t u true false e f d rm rn h k =
      subst (λ x. (mem n t ≡ true) ⊎ (mem x u ≡ true)) (sym (same_of m a e))
        (pairs n t u (other_of n a f) rn k h)
  act_ahead m n t u false true e f d rm rn h k =
      subst (λ x. (mem x t ≡ true) ⊎ (mem m u ≡ true)) (sym (same_of n a f))
        (swapped (pairs m u t (other_of m a e) rm h k))
  act_ahead m n t u false false e f d rm rn h k = fair.ahead m n t u d rm rn h k

  pub act-IsFair : IsFair (After a p claims s)
  act-IsFair = record {
    present = λ n r c. act_present n (n == a) refl r c;
    ahead = λ m n t u d rm rn h k. act_ahead m n t u (m == a) (n == a) refl refl d rm rn h k;
  }

-- A claimant that cannot win any more.
pub leaves-IsFair :
    (s : Registry) (a : ℕ) (p : Phase) (claims : List ℕ)
    → IsFair s
    → is_claiming p ≡ false
    → ((m : ℕ) → m ≢ a → s.runs m ≡ true → mem m s.claims ≡ true → mem m claims ≡ true)
    → IsFair (After a p claims s)
leaves-IsFair s a p claims fair q others =
    act-IsFair s a p claims fair others (λ h. cc)
      λ m t u d r h k. absurd (impossible (remaining-is_claiming p t k))
  where
    impossible : is_claiming p ≡ true → ⊥
    impossible h = cc

pub give_up-IsFair : (s : Registry) (a : ℕ) (b : Bool) → IsFair s → IsFair (give_up a b s)
give_up-IsFair s a b fair =
    leaves-IsFair s a failed (if b then withdraw a s.claims else s.claims) fair refl
      (λ m d r h. mem-if m a b s.claims d h)

-- A claimant goes on to the rest of its entries.
module _ (s : Registry) (a : ℕ) (fair : IsFair s) (runs : s.runs a ≡ true) where
  pub goes_on-IsFair :
      (p : Phase) (rest old claims : List ℕ)
      → remaining p ≡ some rest
      → remaining (s.phase a) ≡ some old
      → ((m : ℕ) → s.runs m ≡ true → mem m s.claims ≡ true → mem m claims ≡ true)
      → ((m : ℕ)
          → m ≢ a
          → s.runs m ≡ true
          → mem m s.claims ≡ true
          → mem m old ≡ true
          → mem m rest ≡ true)
      → IsFair (After a p claims s)
  goes_on-IsFair p rest old claims now before kept skipped =
      act-IsFair s a p claims fair (λ m d r h. kept m r h)
        (λ c. kept a runs (fair.present a runs (remaining-is_claiming (s.phase a) old before)))
        λ m t u d r h k.
          still m t u d r h (some-eq (sym now ∙ k)) (fair.ahead m a u old d r runs h before)
    where
      still :
          (m : ℕ) (t u : List ℕ)
          → m ≢ a
          → s.runs m ≡ true
          → remaining (s.phase m) ≡ some u
          → rest ≡ t
          → (mem a u ≡ true) ⊎ (mem m old ≡ true)
          → (mem m t ≡ true) ⊎ (mem a u ≡ true)
      still m t u d r h e (inl x) = inr x
      still m t u d r h e (inr x) = inl (
          subst (λ l. mem m l ≡ true) e
            (skipped m d r (fair.present m r (remaining-is_claiming (s.phase m) u h)) x))
