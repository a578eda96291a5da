-- ===== src/Base/Result.antt =====
-- `Result<A, E>`, and actions that pass a state on until they fail.

use mathlib.Core.Path.{◌≡◌, refl}
use mathlib.Core.Logic.{◌⊎◌, inl, inr}

pub data Result {ℓ} (E A : Type ℓ) : Type ℓ where
  ok : A → Result E A
  err : E → Result E A

module _ {ℓ} {E A B : Type ℓ} where
  infixl 5 ◌>>=◌
  abbrev pub ◌>>=◌ : Result E A → (A → Result E B) → Result E B
  ok a >>= f = f a
  err e >>= f = err e

module _ {ℓ} {E F A : Type ℓ} where
  -- `Result::map_err`
  abbrev pub map_err : (E → F) → Result E A → Result F A
  map_err g (ok a) = ok a
  map_err g (err e) = err (g e)

module _ {ℓ} {E A : Type ℓ} where
  pub Result-cases : (r : Result E A) → ((a : A) × (r ≡ ok a)) ⊎ ((e : E) × (r ≡ err e))
  Result-cases (ok a) = inl (a, refl)
  Result-cases (err e) = inr (e, refl)

module _ {ℓ} {E A B : Type ℓ} where
  -- `Result::map`
  abbrev pub map_ok : (A → B) → Result E A → Result E B
  map_ok f (ok a) = ok (f a)
  map_ok f (err e) = err e

module _ {ℓ} {E A B : Type ℓ} where
  pub >>=-ok :
      (r : Result E A) (f : A → Result E B) (b : B)
      → (r >>= f) ≡ ok b
      → (a : A) × (r ≡ ok a) × (f a ≡ ok b)
  >>=-ok (ok a) f b e = (a, refl, e)
  >>=-ok (err x) f b e = absurd (cc e)
