-- ===== src/Prelude/Options.antt =====
-- Steps that may fault: `none` is an access outside an object, which C leaves undefined.
use mathlib.Core.Path.{◌≡◌, refl, subst}
use mathlib.Core.Logic.{◌⊎◌, inl, inr}
use mathlib.Core.Option.{Option, none, some}
use mathlib.Core.Bool.{Bool, true, false}
use awale_online.Prelude.Tests.{if◌then◌else◌}

infixl 5 ◌>>=◌ ◌>>◌
abbrev pub ◌>>=◌ {ℓ κ} : {A : Type ℓ} {B : Type κ} → Option A → (A → Option B) → Option B
none >>= f = none
some a >>= f = f a

abbrev pub ◌>>◌ {ℓ} : {B : Type ℓ} → Option (Unit {0}) → Option B → Option B
m >> k = m >>= λ _. k

-- Faults unless the test holds.
abbrev pub guard : Bool → Option (Unit {0})
guard true = some tt
guard false = none

pub Option-cases {ℓ} : {A : Type ℓ} (o : Option A) → (o ≡ none) ⊎ ((a : A) × (o ≡ some a))
Option-cases none = inl refl
Option-cases (some a) = inr (a, refl)

-- What holds of the result of a step that does not fault.
abbrev pub Ensures : {A : Type 0} → (A → Type 0) → Option A → Type 0
Ensures P none = Unit {0}
Ensures P (some a) = P a

module _ {A B : Type 0} (P : B → Type 0) where
  pub Ensures-bind :
      (m : Option A) (f : A → Option B) → ((a : A) → Ensures P (f a)) → Ensures P (m >>= f)
  Ensures-bind none f h = tt
  Ensures-bind (some a) f h = h a

  -- The same, where something is known of the first step's result.
  pub Ensures-then :
      (Q : A → Type 0) (m : Option A) (f : A → Option B)
      → Ensures Q m
      → ((a : A) → Q a → Ensures P (f a))
      → Ensures P (m >>= f)
  Ensures-then Q none f q h = tt
  Ensures-then Q (some a) f q h = h a q

-- The branches of a test.
pub Ensures-if :
    {A : Type 0} (P : A → Type 0) (b : Bool) (x y : Option A)
    → (b ≡ true → Ensures P x)
    → (b ≡ false → Ensures P y)
    → Ensures P (if b then x else y)
Ensures-if P true x y hx hy = hx refl
Ensures-if P false x y hx hy = hy refl

-- A step that is known to give a value ensures what holds of it.
pub Ensures-some :
    {A : Type 0} (P : A → Type 0) (m : Option A) {a : A} → Ensures P m → m ≡ some a → P a
Ensures-some P m h e = subst (Ensures P) e h

pub Ensures-self : {A : Type 0} (m : Option A) → Ensures (λ a. m ≡ some a) m
Ensures-self none = tt
Ensures-self (some a) = refl

pub Ensures-map :
    {A : Type 0} (P Q : A → Type 0) (m : Option A)
    → Ensures P m
    → ((a : A) → P a → Q a)
    → Ensures Q m
Ensures-map P Q none h f = tt
Ensures-map P Q (some a) h f = f a h

-- A step that does not fault.
abbrev pub Succeeds : {A : Type 0} → Option A → Type 0
Succeeds {A} m = (a : A) × (m ≡ some a)

pub Succeeds-bind :
    {A B : Type 0} (m : Option A) (f : A → Option B)
    → Succeeds m
    → ((a : A) → Succeeds (f a))
    → Succeeds (m >>= f)
Succeeds-bind none f (a, e) h = cc
Succeeds-bind (some b) f (a, e) h = h b

pub Succeeds-if :
    {A : Type 0} (b : Bool) (x y : Option A)
    → Succeeds x
    → Succeeds y
    → Succeeds (if b then x else y)
Succeeds-if true x y hx hy = hx
Succeeds-if false x y hx hy = hy
