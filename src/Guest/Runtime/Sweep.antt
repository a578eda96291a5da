-- ===== src/Guest/Runtime/Sweep.antt =====
-- crates/crosspuck-core/src/guest_driver/runtime.rs: the loop that takes out of a list, with
-- `swap_remove`, what nobody else holds. It ends after as many rounds as the list is long.
use crosspuck.Base.{
  ℕ, zero, suc, ◌+◌, ◌≤◌, ◌≡◌, refl, Bool, true, false, none, some, List, [], ◌∷◌, ◌++◌, arith, All,
  All-append, length, get_elem?, take, take_all, subst, if◌then◌else◌, Bool-cases, Option-cases,
  inl, inr,
}

module _ {ℓ} {A : Type ℓ} where
  abbrev pub init : List A → List A
  init [] = []
  init (x ∷ []) = []
  init (x ∷ y ∷ ys) = x ∷ init (y ∷ ys)

  -- The last of `x ∷ xs`.
  abbrev pub last_of : A → List A → A
  last_of x [] = x
  last_of x (y ∷ ys) = last_of y ys

  -- `Vec::swap_remove`, without its result: the last element takes the place of the one removed.
  abbrev pub swap_remove : ℕ → List A → List A
  swap_remove i [] = []
  swap_remove zero (x ∷ []) = []
  swap_remove zero (x ∷ y ∷ ys) = last_of y ys ∷ init (y ∷ ys)
  swap_remove (suc i) (x ∷ xs) = x ∷ swap_remove i xs

  -- The loop, with what is left and what was taken out.
  unfoldable pub sweep : ℕ → (A → Bool) → ℕ → List A → List A → List A × List A
  sweep zero free i xs taken = (xs, taken)
  sweep (suc rounds) free i xs taken = elim (get_elem? xs i) [
    | none ↦ (xs, taken)
    | some x ↦ elim (free x) [
      | true ↦ sweep rounds free i (swap_remove i xs) (taken ++ (x ∷ []))
      | false ↦ sweep rounds free (suc i) xs taken
    ]
  ]

  abbrev pub weight : (A → Bool) → A → ℕ
  weight q x = if q x then 1 else 0

  -- How many elements pass.
  abbrev pub count : (A → Bool) → List A → ℕ
  count q [] = 0
  count q (x ∷ xs) = weight q x + count q xs

module _ {ℓ} {A : Type ℓ} where
  pub count-append : (q : A → Bool) (xs ys : List A) → count q (xs ++ ys) ≡ count q xs + count q ys
  count-append q [] ys = omega arith
  count-append q (x ∷ xs) ys = omega (arith, count-append q xs ys)

  count-init :
      (q : A → Bool) (x : A) (xs : List A)
      → count q (x ∷ xs) ≡ weight q (last_of x xs) + count q (init (x ∷ xs))
  count-init q x [] = refl
  count-init q x (y ∷ ys) = omega (arith, count-init q y ys)

  length-init : (x : A) (xs : List A) → length (init (x ∷ xs)) ≡ length xs
  length-init x [] = refl
  length-init x (y ∷ ys) = omega (arith, length-init y ys)

  pub record Removed (i : ℕ) (x : A) (xs ys : List A) : Type ℓ where
    pub counts : (q : A → Bool) → count q xs ≡ weight q x + count q ys
    pub shorter : length xs ≡ suc (length ys)
    pub before : take i ys ≡ take i xs

  swap_remove-Removed :
      (i : ℕ) (x : A) (xs : List A) → get_elem? xs i ≡ some x → Removed i x xs (swap_remove i xs)
  swap_remove-Removed i x [] e = absurd (ground arith)
  swap_remove-Removed zero x (y ∷ []) e = record {
    counts = λ q. ground arith;
    shorter = refl;
    before = refl;
  }
  swap_remove-Removed zero x (y ∷ z ∷ zs) e =
      let same : y ≡ x = ground arith in
      rw (← same) (record {
        counts = λ q. omega (arith, count-init q z zs);
        shorter = omega (arith, length-init z zs);
        before = refl;
      })
  swap_remove-Removed (suc i) x (y ∷ ys) e =
      let tail = swap_remove-Removed i x ys e in
      record {
        counts = λ q. omega (arith, tail.counts q);
        shorter = omega (arith, tail.shorter);
        before = rw (tail.before) refl;
      }

  -- What the loop is to do: nothing free is left, nothing else was taken out, and nothing was lost.
  pub record Sweeps (free : A → Bool) (xs taken : List A) (r : List A × List A) : Type ℓ where
    pub kept : All (λ x. free x ≡ false) r.0
    pub freed : All (λ x. free x ≡ true) r.1
    pub counts : (q : A → Bool) → count q r.0 + count q r.1 ≡ count q xs + count q taken

  All-take_next {κ} :
      (P : A → Type κ) (i : ℕ) (xs : List A) (x : A)
      → get_elem? xs i ≡ some x
      → All P (take i xs)
      → P x
      → All P (take (suc i) xs)
  All-take_next P i [] x e h p = absurd (ground arith)
  All-take_next P zero (y ∷ ys) x e h p = let same : x ≡ y = ground arith in (subst P same p, tt)
  All-take_next P (suc i) (y ∷ ys) x e h p = (h.0, All-take_next P i ys x e h.1 p)

  All-take-none {κ} :
      (P : A → Type κ) (i : ℕ) (xs : List A) → get_elem? xs i ≡ none → All P (take i xs) → All P xs
  All-take-none P i [] e h = tt
  All-take-none P zero (y ∷ ys) e h = absurd (ground arith)
  All-take-none P (suc i) (y ∷ ys) e h = (h.0, All-take-none P i ys e h.1)

  -- With as many rounds as the list is long past the start, the sweep leaves nothing that is free,
  -- takes out nothing else, and loses and doubles nothing, if what stands before the start is not
  -- free and what was taken is.
  pub sweep-Sweeps :
      (rounds : ℕ) (free : A → Bool) (i : ℕ) (xs taken : List A)
      → length xs ≤ i + rounds
      → All (λ x. free x ≡ false) (take i xs)
      → All (λ x. free x ≡ true) taken
      → Sweeps free xs taken (sweep rounds free i xs taken)
  unfolding sweep
  sweep-Sweeps zero free i xs taken enough before out = record {
    kept = rw (take_all i xs (omega arith)) at before;
    freed = out;
    counts = λ q. refl;
  }
  sweep-Sweeps (suc rounds) free i xs taken enough before out =
      elim (Option-cases (get_elem? xs i)) [
        | inl past ↦
            rw (past, sweep)
              (record { kept = All-take-none _ i xs past before; freed = out; counts = λ q. refl })
        | inr (x, at) ↦
            let removed = swap_remove-Removed i x xs at in
            elim (Bool-cases (free x)) [
              | inl is_free ↦
                  let rest =
                    sweep-Sweeps rounds free i (swap_remove i xs) (taken ++ (x ∷ []))
                      (omega (arith, removed.shorter)) (rw removed.before before)
                      (All-append _ taken (x ∷ []) out (is_free, tt)) in
                  rw (at, is_free, sweep)
                    (record {
                      kept = rest.kept;
                      freed = rest.freed;
                      counts = λ q.
                          omega
                            (arith, rest.counts q, removed.counts q, count-append q taken (x ∷ []));
                    })
              | inr held ↦
                  rw (at, held, sweep)
                    (sweep-Sweeps rounds free (suc i) xs taken (omega arith)
                      (All-take_next _ i xs x at before held) out)
            ]
      ]
