-- ===== src/Engine/Lifecycle.antt =====
-- core/engine.ts: the life of one record, as the transitions move it. A record keeps its identity
-- in the graph, and its status follows the edges of `Move`; nothing leads out of `completed` and
-- `skipped`.
use d3r.Base.{
  Bool, true, false, ◌≡◌, refl, sym, ◌∙◌, List, [], ◌∷◌, some, inl, inr, any, find, update_where,
  All, arith, Bool-cases, map, ◌⊎◌, if◌then◌else◌,
}
use mathlib.Core.Path.{subst}
use mathlib.Core.Option.{some-injective, none-ne-some}
use d3r.Engine.State.{
  RecordStatus, pending, running, completed, skipped, waiting, blocked, interrupted,
  ExecutionRecord,
}
use d3r.Engine.Transition.{update_first}
use d3r.Engine.Checkpoint.{topology}

pub data Move : RecordStatus → RecordStatus → Type 0 where
  start : Move pending running
  reach : Move pending waiting
  pass : Move pending completed
  exhaust : Move pending blocked
  skip : Move pending skipped
  finish : Move running completed
  break_off : Move running blocked
  ask : Move running waiting
  interrupt : Move running interrupted
  answer : Move waiting completed
  resume_waiting : Move waiting running
  resume_interrupted : Move interrupted running
  restart : Move blocked running

pub data Life : RecordStatus → RecordStatus → Type 0 where
  here : {s : RecordStatus} → Life s s
  next : {s t u : RecordStatus} → Move s t → Life t u → Life s u

pub Life-trans : {s t u : RecordStatus} → Life s t → Life t u → Life s u
Life-trans here k = k
Life-trans (next m l) k = next m (Life-trans l k)

abbrev pub IsFinal : RecordStatus → Type 0
IsFinal s = (s ≡ completed) ⊎ (s ≡ skipped)

Move-live : {s t : RecordStatus} → Move s t → IsFinal s → ⊥
Move-live start h = ground arith
Move-live reach h = ground arith
Move-live pass h = ground arith
Move-live exhaust h = ground arith
Move-live skip h = ground arith
Move-live finish h = ground arith
Move-live break_off h = ground arith
Move-live ask h = ground arith
Move-live interrupt h = ground arith
Move-live answer h = ground arith
Move-live resume_waiting h = ground arith
Move-live resume_interrupted h = ground arith
Move-live restart h = ground arith

-- A settled record is never moved again.
pub Life-final : {s t : RecordStatus} → Life s t → IsFinal s → t ≡ s
Life-final here h = refl
Life-final (next m l) h = absurd (Move-live m h)

pub record Evolves (r r' : ExecutionRecord) : Type 0 where
  pub same : topology r' ≡ topology r
  pub life : Life r.status r'.status

pub Evolves-refl : (r : ExecutionRecord) → Evolves r r
Evolves-refl r = record { same = refl; life = here }

pub Evolves-trans : {r s t : ExecutionRecord} → Evolves r s → Evolves s t → Evolves r t
Evolves-trans h k = record { same = k.same ∙ h.same; life = Life-trans h.life k.life }

-- Place by place, and so with the same number of records.
abbrev pub Evolved : List ExecutionRecord → List ExecutionRecord → Type 0
Evolved [] [] = Unit
Evolved (r ∷ rs) (s ∷ ss) = Evolves r s × Evolved rs ss
Evolved _ _ = ⊥

pub Evolved-refl : (rs : List ExecutionRecord) → Evolved rs rs
Evolved-refl [] = tt
Evolved-refl (r ∷ rs) = (Evolves-refl r, Evolved-refl rs)

pub Evolved-trans :
    (rs ss ts : List ExecutionRecord) → Evolved rs ss → Evolved ss ts → Evolved rs ts
Evolved-trans [] [] [] h k = tt
Evolved-trans (r ∷ rs) (s ∷ ss) (t ∷ ts) (h, hs) (k, ks) =
    (Evolves-trans h k, Evolved-trans rs ss ts hs ks)
Evolved-trans [] [] (t ∷ ts) h k = absurd k
Evolved-trans [] (s ∷ ss) ts h k = absurd h
Evolved-trans (r ∷ rs) [] ts h k = absurd h
Evolved-trans (r ∷ rs) (s ∷ ss) [] h k = absurd k

pub Evolved-topology :
    (rs ss : List ExecutionRecord) → Evolved rs ss → map topology ss ≡ map topology rs
Evolved-topology [] [] h = refl
Evolved-topology (r ∷ rs) (s ∷ ss) (h, hs) = cc (h.same, Evolved-topology rs ss hs)
Evolved-topology [] (s ∷ ss) h = absurd h
Evolved-topology (r ∷ rs) [] h = absurd h

module _ (p : ExecutionRecord → Bool) (f : ExecutionRecord → ExecutionRecord) where
  pub update_where-Evolved :
      (rs : List ExecutionRecord)
      → All (λ r. p r ≡ true → Evolves r (f r)) rs
      → Evolved rs (update_where p f rs)
  update_where-Evolved [] h = tt
  update_where-Evolved (r ∷ rs) (h, hs) = (go (p r) refl, update_where-Evolved rs hs)
    where
      go : (b : Bool) → p r ≡ b → Evolves r (if b then f r else r)
      go true e = h e
      go false e = Evolves-refl r

  pub update_first-Evolved :
      (rs : List ExecutionRecord) (r : ExecutionRecord)
      → find p rs ≡ some r
      → Evolves r (f r)
      → Evolved rs (update_first p f rs)
  unfolding update_first
  update_first-Evolved [] r e h = tt
  update_first-Evolved (s ∷ rs) r e h = elim (Bool-cases (p s)) [
    | inl q ↦
        rw q
          (subst (λ t. Evolves t (f t)) (sym (some-injective s r (rw q at e))) h, Evolved-refl rs)
    | inr q ↦ rw q (Evolves-refl s, update_first-Evolved rs r (rw q at e) h)
  ]

-- What holds of every record holds where the transition asks for it.
pub All-of {ℓ} : {A : Type ℓ} {P : A → Type 0} → ((a : A) → P a) → (xs : List A) → All P xs
All-of h [] = tt
All-of h (x ∷ xs) = (h x, All-of h xs)

pub any-false {ℓ} :
    {A : Type ℓ} (p : A → Bool) (xs : List A) → any p xs ≡ false → All (λ x. p x ≡ false) xs
any-false p [] h = tt
any-false p (x ∷ xs) h = (ground arith, any-false p xs (ground arith))

pub All-map {ℓ} :
    {A : Type ℓ} {P Q : A → Type 0} → ((a : A) → P a → Q a) → (xs : List A) → All P xs → All Q xs
All-map f [] h = tt
All-map f (x ∷ xs) (h, hs) = (f x h, All-map f xs hs)

pub find-some {ℓ} :
    {A : Type ℓ} (p : A → Bool) (xs : List A) (x : A) → find p xs ≡ some x → p x ≡ true
find-some p [] x e = absurd (none-ne-some x e)
find-some p (y ∷ xs) x e = elim (Bool-cases (p y)) [
  | inl q ↦ subst (λ z. p z ≡ true) (some-injective y x (rw q at e)) q
  | inr q ↦ find-some p xs x (rw q at e)
]
