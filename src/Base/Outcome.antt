-- ===== src/Base/Outcome.antt =====
-- core/result.ts: the result type that tells a refusal apart from a value. The models use it for
-- thrown errors too: `throw` is `fail`, and a `do` block stops at the first one.
use mathlib.Core.Path.{◌≡◌, refl, subst}
use mathlib.Core.Logic.{◌⊎◌, inl, inr}
use mathlib.Core.Bool.{Bool, true, false}
use d3r.Base.Tests.{if◌then◌else◌}

pub data Result {ℓ} (A : Type ℓ) (E : Type 0) : Type ℓ where
  ok : A → Result A E
  fail : E → Result A E

infixl 5 ◌>>=◌ ◌>>◌
abbrev pub ◌>>=◌ {ℓ κ} :
    {A : Type ℓ} {B : Type κ} {E : Type 0} → Result A E → (A → Result B E) → Result B E
ok a >>= f = f a
fail e >>= f = fail e

abbrev pub ◌>>◌ {ℓ} : {B : Type ℓ} {E : Type 0} → Result (Unit {0}) E → Result B E → Result B E
m >> k = m >>= λ _. k

-- `if (bad) throw e`
abbrev pub reject_if : {E : Type 0} → Bool → E → Result (Unit {0}) E
reject_if true e = fail e
reject_if false e = ok tt

-- A sequence that ends well has a first step that ends well, and the second runs on its value.
pub >>=-eq-ok {ℓ κ} :
    {V : Type ℓ} {W : Type κ} {E : Type 0} (first : Result V E) (next : V → Result W E) {out : W}
    → (first >>= next) ≡ ok out
    → (v : V) × (first ≡ ok v) × (next v ≡ ok out)
>>=-eq-ok (ok v) next same = (v, refl, same)
>>=-eq-ok (fail e) next same = cc

-- What holds of the value, where there is one.
abbrev pub OnOk {ℓ} : {A : Type ℓ} {E : Type 0} → (A → Type 0) → Result A E → Type 0
OnOk P (ok a) = P a
OnOk P (fail e) = Unit

pub OnOk-bind {ℓ κ} :
    {A : Type ℓ} {B : Type κ} {E : Type 0} (P : A → Type 0) (Q : B → Type 0) (m : Result A E)
    (f : A → Result B E)
    → OnOk P m
    → ((a : A) → P a → OnOk Q (f a))
    → OnOk Q (m >>= f)
OnOk-bind P Q (ok a) f h k = k a h
OnOk-bind P Q (fail e) f h k = tt

pub OnOk-use {ℓ} :
    {A : Type ℓ} {E : Type 0} (P : A → Type 0) (m : Result A E) {a : A} → OnOk P m → m ≡ ok a → P a
OnOk-use P m h e = subst (OnOk P) e h

pub OnOk-reject_if : {E : Type 0} (b : Bool) (e : E) → OnOk (λ _. b ≡ false) (reject_if b e)
OnOk-reject_if true e = tt
OnOk-reject_if false e = refl

-- Behind a test that throws, its negation holds.
pub OnOk-guard {ℓ} :
    {A : Type ℓ} {E : Type 0} (Q : A → Type 0) (b : Bool) (e : E) (m : Result A E)
    → (b ≡ false → OnOk Q m)
    → OnOk Q (reject_if b e >> m)
OnOk-guard Q true e m k = tt
OnOk-guard Q false e m k = k refl

pub Result-cases {ℓ} :
    {A : Type ℓ} {E : Type 0} (m : Result A E) → ((a : A) × (m ≡ ok a)) ⊎ ((e : E) × (m ≡ fail e))
Result-cases (ok a) = inl (a, refl)
Result-cases (fail e) = inr (e, refl)

pub OnOk-then {ℓ} :
    {A : Type ℓ} {E : Type 0} (Q : A → Type 0) (m : Result (Unit {0}) E) (k : Result A E)
    → OnOk Q k
    → OnOk Q (m >> k)
OnOk-then Q (ok a) k h = h
OnOk-then Q (fail e) k h = tt

pub OnOk-map {ℓ} :
    {A : Type ℓ} {E : Type 0} (P Q : A → Type 0) (m : Result A E)
    → ((a : A) → P a → Q a)
    → OnOk P m
    → OnOk Q m
OnOk-map P Q (ok a) f h = f a h
OnOk-map P Q (fail e) f h = tt

pub fail-ne-ok {ℓ} :
    {A : Type ℓ} {E : Type 0} {e : E} {a : A} → ◌≡◌ {A = Result A E} (fail e) (ok a) → ⊥
fail-ne-ok h = cc

pub guard-eq-ok {ℓ} :
    {A : Type ℓ} {E : Type 0} (b : Bool) (e : E) (m : Result A E) {a : A}
    → (reject_if b e >> m) ≡ ok a
    → (b ≡ false) × (m ≡ ok a)
guard-eq-ok true e m h = absurd (fail-ne-ok h)
guard-eq-ok false e m h = (refl, h)

pub OnOk-behind {ℓ κ} :
    {A : Type ℓ} {B : Type κ} {E : Type 0} (Q : B → Type 0) (m : Result A E) (f : A → Result B E)
    → ((a : A) → OnOk Q (f a))
    → OnOk Q (m >>= f)
OnOk-behind Q (ok a) f k = k a
OnOk-behind Q (fail e) f k = tt

pub OnOk-of {ℓ} :
    {A : Type ℓ} {E : Type 0} (P : A → Type 0) (m : Result A E)
    → ((a : A) → m ≡ ok a → P a)
    → OnOk P m
OnOk-of P (ok a) k = k a refl
OnOk-of P (fail e) k = tt

pub OnOk-if :
    {A : Type 0} {E : Type 0} (P : A → Type 0) (b : Bool) (x y : Result A E)
    → OnOk P x
    → (b ≡ false → OnOk P y)
    → OnOk P (if b then x else y)
OnOk-if P true x y h k = h
OnOk-if P false x y h k = k refl

pub OnOk-both :
    {A E : Type 0} (P Q : A → Type 0) (m : Result A E)
    → OnOk P m
    → OnOk Q m
    → OnOk (λ a. P a × Q a) m
OnOk-both P Q (ok a) h k = (h, k)
OnOk-both P Q (fail e) h k = tt
