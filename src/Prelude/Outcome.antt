-- ===== src/Prelude/Outcome.antt =====
-- The outcome of a parser: a value, the NULL of a refused input, or fuel that did not suffice,
-- which the program knows nothing of.
use mathlib.Core.Path.{◌≡◌, refl, subst}
use mathlib.Core.Logic.{◌≢◌}
use mathlib.Core.Bool.{Bool, true, false}
use frostlake_pdo.Prelude.Tests.{if◌then◌else◌}

pub data Parsed {ℓ} (A : Type ℓ) : Type ℓ where
  parsed : A → Parsed A
  refused out_of_fuel : Parsed A

infixl 5 ◌>>=◌
abbrev pub ◌>>=◌ {ℓ κ} : {A : Type ℓ} {B : Type κ} → Parsed A → (A → Parsed B) → Parsed B
parsed a >>= f = f a
refused >>= f = refused
out_of_fuel >>= f = out_of_fuel

-- The run kept within its fuel, and what it gave, if anything, has `P`.
pub data Ensures {ℓ κ} {A : Type ℓ} (P : A → Type κ) : Parsed A → Type (ℓ ⊔ κ) where
  holds : {a : A} → P a → Ensures P (parsed a)
  rejected : Ensures P refused

module _ {ℓ κ} {A : Type ℓ} {P : A → Type κ} where
  pub Ensures-parsed : {r : Parsed A} {a : A} → Ensures P r → r ≡ parsed a → P a
  Ensures-parsed (holds h) e = subst P (cc) h
  Ensures-parsed rejected e = cc

  pub Ensures-ne : {r : Parsed A} → Ensures P r → r ≢ out_of_fuel
  Ensures-ne (holds h) = cc
  Ensures-ne rejected = cc

  pub Ensures-if :
      (b : Bool) {x y : Parsed A}
      → (b ≡ true → Ensures P x)
      → (b ≡ false → Ensures P y)
      → Ensures P (if b then x else y)
  Ensures-if true hx hy = hx refl
  Ensures-if false hx hy = hy refl

  pub Ensures-bind {ℓ' κ'} :
      {B : Type ℓ'} {Q : B → Type κ'} {r : Parsed A} {f : A → Parsed B}
      → Ensures P r
      → ((a : A) → P a → Ensures Q (f a))
      → Ensures Q (r >>= f)
  Ensures-bind (holds {a} h) k = k a h
  Ensures-bind rejected k = rejected

  pub Ensures-map {κ'} :
      {Q : A → Type κ'} {r : Parsed A} → Ensures P r → ((a : A) → P a → Q a) → Ensures Q r
  Ensures-map (holds {a} h) k = holds (k a h)
  Ensures-map rejected k = rejected
