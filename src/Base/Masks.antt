-- ===== src/Base/Masks.antt =====
-- A mask of the `k` low bits: it keeps the numbers below `2 ^ k`, and gives no others.
use Prim.Native.Nat.{
  ℕ, zero, suc, ◌-◌, ◌/◌, ◌%◌, ◌^◌, ◌≤◌, ◌<◌, min, bit_and, digits, bit_and-bitwise,
}
use mathlib.Core.Path.{◌≡◌, refl, ◌∙◌}
use native.Mathlib.Nat.{pow-suc, one-le-pow}
use native.Mathlib.Omega.{arith}

-- The digit recursion that `bit_and` stands for, at the mask.
abbrev masked : ℕ → ℕ → ℕ → ℕ
masked fuel a k = digits (λ _. 0) min fuel a (2 ^ k - 1)

half_mask : (k : ℕ) → ((2 ^ suc k - 1) / 2 ≡ 2 ^ k - 1) × ((2 ^ suc k - 1) % 2 ≡ 1)
half_mask k = (
  omega (arith, pow-suc 2 k, one-le-pow k 2 (omega arith)),
  omega (arith, pow-suc 2 k, one-le-pow k 2 (omega arith)),
)

masked_keeps : (fuel a k : ℕ) → a ≤ fuel → a < 2 ^ k → masked fuel a k ≡ a
masked_keeps zero zero k h lt = refl
masked_keeps zero (suc a) k h lt = absurd (omega arith)
masked_keeps (suc fuel) zero k h lt = refl
masked_keeps (suc fuel) (suc a) zero h lt = absurd (omega arith)
masked_keeps (suc fuel) (suc a) (suc k) h lt =
    let (high, low) = half_mask k in
    rw (high, low)
      (rw (masked_keeps fuel (suc a / 2) k (omega arith) (omega (arith, pow-suc 2 k)))
        (omega arith))

masked_bound : (fuel a k : ℕ) → a ≤ fuel → masked fuel a k < 2 ^ k
masked_bound zero zero k h = one-le-pow k 2 (omega arith)
masked_bound zero (suc a) k h = absurd (omega arith)
masked_bound (suc fuel) zero k h = one-le-pow k 2 (omega arith)
masked_bound (suc fuel) (suc a) zero h =
    omega (arith, masked_bound fuel (suc a / 2) zero (omega arith))
masked_bound (suc fuel) (suc a) (suc k) h =
    let (high, low) = half_mask k in
    rw (high, low) (omega (arith, masked_bound fuel (suc a / 2) k (omega arith), pow-suc 2 k))

pub mask_keeps : (a k : ℕ) → a < 2 ^ k → bit_and a (2 ^ k - 1) ≡ a
mask_keeps a k lt = bit_and-bitwise a (2 ^ k - 1) ∙ masked_keeps a a k (omega arith) lt

pub mask_bound : (a k : ℕ) → bit_and a (2 ^ k - 1) < 2 ^ k
mask_bound a k = rw (bit_and-bitwise a (2 ^ k - 1)) (masked_bound a a k (omega arith))
