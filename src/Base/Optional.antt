-- ===== src/Base/Optional.antt =====
-- Values that may be missing: `do` blocks that stop at the first one, and the schema library's tests and
-- optional fields.
use mathlib.Core.Path.{◌≡◌, refl}
use mathlib.Core.Bool.{Bool, true, false}
use mathlib.Core.Option.{Option, none, some}

infixl 5 ◌>>=◌
abbrev pub ◌>>=◌ : {A B : Type 0} → Option A → (A → Option B) → Option B
none >>= k = none
some a >>= k = k a

abbrev pub check : {A : Type 0} → Bool → A → Option A
check true a = some a
check false a = none

-- `.optional()`
abbrev pub optionally : {A : Type 0} → (A → Option A) → Option A → Option (Option A)
optionally parse none = some none
optionally parse (some a) = do b ← parse a; some (some b)

pub some-eq {ℓ} : {A : Type ℓ} {a b : A} → some a ≡ some b → a ≡ b
some-eq h = cc

pub none-eq-some {ℓ} : {A : Type ℓ} {a : A} → ◌≡◌ {A = Option A} none (some a) → ⊥
none-eq-some h = cc

-- A sequence that gives a value has a first step that does.
pub bound :
    {A B : Type 0} (m : Option A) (k : A → Option B) {b : B}
    → (m >>= k) ≡ some b
    → (a : A) × (m ≡ some a) × (k a ≡ some b)
bound none k h = absurd (none-eq-some h)
bound (some a) k h = (a, refl, h)
