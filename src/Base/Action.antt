-- ===== src/Base/Action.antt =====
-- A method of an object that it mutates, under `?`: an error ends the rest of the method, and what
-- was changed before it stays changed.
use mathlib.Core.Path.{◌≡◌, refl, ap, subst₂}
use mathlib.Core.Logic.{◌⊎◌, inl, inr}
use crosspuck.Base.Result.{Result, ok, err, map_err}

abbrev pub Action {ℓ} : Type ℓ → Type ℓ → Type ℓ → Type ℓ
Action E S A = S → Result E A × S

module _ {ℓ} {E S A : Type ℓ} where
  abbrev pub pure : A → Action E S A
  pure a s = (ok a, s)

  abbrev pub raise : E → Action E S A
  raise e s = (err e, s)

  -- `r?` for a result that no state goes into.
  abbrev pub lift : Result E A → Action E S A
  lift r s = (r, s)

module _ {ℓ} {E S A B : Type ℓ} where
  abbrev pub and_then : Result E A × S → (A → Action E S B) → Result E B × S
  and_then (ok a, s) f = f a s
  and_then (err e, s) f = (err e, s)

  infixl 5 ◌>>=◌ ◌>>◌
  abbrev pub ◌>>=◌ : Action E S A → (A → Action E S B) → Action E S B
  ◌>>=◌ m f s = and_then (m s) f

  abbrev pub ◌>>◌ : Action E S A → Action E S B → Action E S B
  m >> n = m >>= λ _. n

module _ {ℓ} {E S A : Type ℓ} where
  -- To split on how a call ended, and keep the equation.
  pub outcome_cases :
      (r : Result E A × S)
      → ((a : A) × (s : S) × (r ≡ (ok a, s))) ⊎ ((e : E) × (s : S) × (r ≡ (err e, s)))
  outcome_cases (ok a, s) = inl (a, s, refl)
  outcome_cases (err e, s) = inr (e, s, refl)

module _ {ℓ} {E F S A : Type ℓ} where
  abbrev pub or_err : (E → F) → Result E A × S → Result F A × S
  or_err g (ok a, s) = (ok a, s)
  or_err g (err e, s) = (err (g e), s)

  -- `.map_err(g)?`
  abbrev pub convert : (E → F) → Action E S A → Action F S A
  convert g m s = or_err g (m s)

-- How an action succeeds that is made of others.
module _ {ℓ} {E S A B : Type ℓ} where
  pub and_then-ok :
      (r : Result E A × S) (f : A → Action E S B) (b : B) (t : S)
      → and_then r f ≡ (ok b, t)
      → (a : A) × (s : S) × (r ≡ (ok a, s)) × (f a s ≡ (ok b, t))
  and_then-ok (ok a, s) f b t e = (a, s, refl, e)
  and_then-ok (err x, s) f b t e = absurd (cc e)

module _ {ℓ} {E S A : Type ℓ} where
  abbrev value_or : A → Result E A × S → A
  value_or a (ok b, s) = b
  value_or a (err e, s) = a

  pub ok_inv : (a b : A) (s t : S) → Path (Result E A × S) (ok a, s) (ok b, t) → (a ≡ b) × (s ≡ t)
  ok_inv a b s t e = (ap (value_or a) e, ap (λ r. r.1) e)

module _ {ℓ} {E F S A : Type ℓ} where
  pub or_err-ok :
      (g : E → F) (r : Result E A × S) (a : A) (t : S) → or_err g r ≡ (ok a, t) → r ≡ (ok a, t)
  or_err-ok g (ok b, s) a t e =
      let (same, left) = ok_inv b a s t e in
      subst₂ (λ x y. Path (Result E A × S) (ok b, s) (ok x, y)) same left refl
  or_err-ok g (err x, s) a t e = absurd (cc e)

  -- `map_err` of a result beside a state
  pub map_err-ok :
      (g : E → F) (r : Result E A × S) (a : A) (t : S)
      → Path (Result F A × S) (map_err g r.0, r.1) (ok a, t)
      → r ≡ (ok a, t)
  map_err-ok g (ok b, s) a t e = or_err-ok g (ok b, s) a t e
  map_err-ok g (err x, s) a t e = absurd (cc e)

-- What an action keeps of the state, however it ends.
module _ {ℓ} {E S A B : Type ℓ} where
  pub and_then-keeps {κ} :
      (P : S → Type κ) (r : Result E A × S) (f : A → Action E S B)
      → P r.1
      → ((a : A) (s : S) → P s → P (f a s).1)
      → P (and_then r f).1
  and_then-keeps P (ok a, s) f first next = next a s first
  and_then-keeps P (err e, s) f first next = first

module _ {ℓ} {E F S A : Type ℓ} where
  pub or_err-keeps {κ} :
      (P : S → Type κ) (g : E → F) (r : Result E A × S) → P r.1 → P (or_err g r).1
  or_err-keeps P g (ok a, s) h = h
  or_err-keeps P g (err e, s) h = h
