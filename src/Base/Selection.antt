-- ===== src/Base/Selection.antt =====
-- What `VecDeque` and `Iterator` offer to find, take out and keep elements by a test:
-- `rposition`, `position`, `remove`, `retain`, `last`.
use Prim.Native.Nat.{ℕ, zero, suc}
use mathlib.Core.Path.{◌≡◌, refl, ap, ◌∙◌}
use mathlib.Core.Bool.{Bool, true, false, not}
use mathlib.Core.Option.{Option, none, some}
use mathlib.Core.List.{List, [], ◌∷◌, ◌++◌}
use native.Mathlib.Omega.{arith}
use crosspuck.Base.Tests.{Bool-cases, Option-cases, if◌then◌else◌}
use crosspuck.Base.Lists.{length, drop}
use mathlib.Core.Logic.{inl, inr}

module _ {ℓ} {A : Type ℓ} where
  abbrev pub retain : (A → Bool) → List A → List A
  retain p [] = []
  retain p (x ∷ xs) = if p x then x ∷ retain p xs else retain p xs

  abbrev pub last : List A → Option A
  last [] = none
  last (x ∷ xs) = elim (last xs) [ none ↦ some x | some y ↦ some y ]

  abbrev pub position : (A → Bool) → List A → Option ℕ
  position p [] = none
  position p (x ∷ xs) = elim (p x) [
    | true ↦ some 0
    | false ↦ elim (position p xs) [ none ↦ none | some i ↦ some (suc i) ]
  ]

  abbrev pub rposition : (A → Bool) → List A → Option ℕ
  rposition p [] = none
  rposition p (x ∷ xs) = elim (rposition p xs) [
    | some i ↦ some (suc i)
    | none ↦ if p x then some 0 else none
  ]

  abbrev pub remove : ℕ → List A → Option A × List A
  remove i [] = (none, [])
  remove zero (x ∷ xs) = (some x, xs)
  remove (suc i) (x ∷ xs) = let (y, ys) = remove i xs in (y, x ∷ ys)

module _ {ℓ} {A : Type ℓ} where
  -- Where no element passes the test, none is found.
  pub rposition-none :
      (p : A → Bool) (xs : List A)
      → rposition p xs ≡ none
      → (last (retain p xs) ≡ none) × (retain p xs ≡ [])
  rposition-none p [] e = (refl, refl)
  rposition-none p (x ∷ xs) e = ground (arith, rposition-none p xs)

  -- The element at the last position is the last that passes; the others that fail stay.
  pub rposition-some :
      (p : A → Bool) (xs : List A) (i : ℕ)
      → rposition p xs ≡ some i
      → (y : A) × ((remove i xs).0 ≡ some y)
        × (last (retain p xs) ≡ some y)
        × (retain (λ x. not (p x)) (remove i xs).1 ≡ retain (λ x. not (p x)) xs)
        × (length xs ≡ suc (length (remove i xs).1))
  rposition-some p [] i e = ground arith
  rposition-some p (x ∷ xs) zero e = elim (Option-cases (rposition p xs)) [
    | inl empty ↦
        let none_left = (rposition-none p xs empty).1 in
        let kept : p x ≡ true = ground (arith, empty) in
        (x, refl, rw (kept, none_left) refl, rw kept refl, refl)
    | inr (j, found) ↦ absurd (ground (arith, found))
  ]
  rposition-some p (x ∷ xs) (suc i) e = elim (Option-cases (rposition p xs)) [
    | inl empty ↦ absurd (ground (arith, empty))
    | inr (j, found) ↦
        let same : j ≡ i = ground (arith, found) in
        let (y, at, newest, rest, one) = rposition-some p xs i (found ∙ ap some same) in
        (y, at, ground (arith, newest), ground (arith, rest), omega (arith, one))
  ]

  pub last-retain : (p : A → Bool) (xs : List A) (x : A) → last (retain p xs) ≡ some x → p x ≡ true
  last-retain p [] x e = ground arith
  last-retain p (y ∷ ys) x e = elim (Option-cases (last (retain p ys))) [
    | inl empty ↦ ground (arith, empty)
    | inr (z, newest) ↦
        let here : z ≡ x = ground (arith, newest) in last-retain p ys x (newest ∙ ap some here)
  ]

  -- Taking out elements that fail another test changes nothing for that test.
  pub retain-retain :
      (p q : A → Bool) (xs : List A)
      → ((x : A) → p x ≡ true → q x ≡ false)
      → retain q (retain (λ x. not (p x)) xs) ≡ retain q xs
  retain-retain p q [] h = refl
  retain-retain p q (x ∷ xs) h = ground (arith, retain-retain p q xs h, h x)

  -- The first element that passes is taken out of those that pass, and the others stay.
  pub position-some :
      (p : A → Bool) (xs : List A) (i : ℕ)
      → position p xs ≡ some i
      → (retain p (remove i xs).1 ≡ drop 1 (retain p xs))
        × (retain (λ x. not (p x)) (remove i xs).1 ≡ retain (λ x. not (p x)) xs)
  position-some p [] i e = ground arith
  position-some p (x ∷ xs) zero e = elim (Bool-cases (p x)) [
    | inl passes ↦ rw passes (refl, refl)
    | inr fails ↦ ground (arith, fails)
  ]
  position-some p (x ∷ xs) (suc i) e = elim (Bool-cases (p x)) [
    | inl passes ↦ ground (arith, passes)
    | inr fails ↦ ground (arith, fails, position-some p xs i)
  ]

  pub position-none : (p : A → Bool) (xs : List A) → position p xs ≡ none → retain p xs ≡ []
  position-none p [] e = refl
  position-none p (x ∷ xs) e = ground (arith, position-none p xs)

  pub retain-append :
      (p : A → Bool) (xs ys : List A) → retain p (xs ++ ys) ≡ retain p xs ++ retain p ys
  retain-append p [] ys = refl
  retain-append p (x ∷ xs) ys = ground (arith, retain-append p xs ys)
