-- ===== src/Base/Words.antt =====
-- Unsigned machine words as bounded numbers, and their little-endian bytes
-- (`to_le_bytes` and `from_le_bytes` of the standard library).
use Prim.Native.Nat.{ℕ, zero, suc, ◌+◌, ◌*◌, ◌/◌, ◌%◌, ◌^◌, ◌<◌}
use mathlib.Core.Bool.{Bool, true, ◌&&◌}
use crosspuck.Base.Tests.{ltb}
use mathlib.Core.Path.{◌≡◌, refl, ap}
use mathlib.Core.List.{List, [], ◌∷◌}
use native.Mathlib.Omega.{arith}
use native.Mathlib.Nat.{pow-suc}
use crosspuck.Base.Lists.{length, All}

abbrev pub IsU8 : ℕ → Type 0
IsU8 n = n < 256

abbrev pub IsU16 : ℕ → Type 0
IsU16 n = n < 65536

abbrev pub IsU32 : ℕ → Type 0
IsU32 n = n < 2 ^ 32

abbrev pub IsU64 : ℕ → Type 0
IsU64 n = n < 2 ^ 64

-- The program is built for 64-bit targets: `usize` has 64 bits.
abbrev pub IsUsize : ℕ → Type 0
IsUsize n = n < 2 ^ 64

abbrev pub Bytes : Type 0
Bytes = List ℕ

abbrev pub AreBytes : Bytes → Type 0
AreBytes = All IsU8

-- The `k` low bytes of a word, lowest first.
unfoldable pub to_le_bytes : ℕ → ℕ → Bytes
to_le_bytes zero v = []
to_le_bytes (suc k) v = v % 256 ∷ to_le_bytes k (v / 256)

unfoldable pub from_le_bytes : Bytes → ℕ
from_le_bytes [] = 0
from_le_bytes (b ∷ bs) = b + 256 * from_le_bytes bs

pub length-to_le_bytes : (k v : ℕ) → length (to_le_bytes k v) ≡ k
unfolding to_le_bytes
length-to_le_bytes zero v = refl
length-to_le_bytes (suc k) v = ap suc (length-to_le_bytes k (v / 256))

pub to_le_bytes-AreBytes : (k v : ℕ) → AreBytes (to_le_bytes k v)
unfolding to_le_bytes
to_le_bytes-AreBytes zero v = tt
to_le_bytes-AreBytes (suc k) v = (omega arith, to_le_bytes-AreBytes k (v / 256))

pub from-to_le_bytes : (k v : ℕ) → v < 256 ^ k → from_le_bytes (to_le_bytes k v) ≡ v
unfolding from_le_bytes to_le_bytes
from-to_le_bytes zero v h = omega arith
from-to_le_bytes (suc k) v h =
    omega (arith, from-to_le_bytes k (v / 256) (omega (arith, pow-suc 256 k)))

pub to-from_le_bytes : (bs : Bytes) → AreBytes bs → to_le_bytes (length bs) (from_le_bytes bs) ≡ bs
unfolding from_le_bytes to_le_bytes
to-from_le_bytes [] h = refl
to-from_le_bytes (b ∷ bs) h =
    let low : (b + 256 * from_le_bytes bs) % 256 ≡ b = omega arith in
    let high : (b + 256 * from_le_bytes bs) / 256 ≡ from_le_bytes bs = omega arith in
    rw (low, high) (ap (◌∷◌ b) (to-from_le_bytes bs h.1))

pub from_le_bytes-lt : (bs : Bytes) → AreBytes bs → from_le_bytes bs < 256 ^ length bs
unfolding from_le_bytes
from_le_bytes-lt [] h = omega arith
from_le_bytes-lt (b ∷ bs) h = omega (arith, from_le_bytes-lt bs h.1, pow-suc 256 (length bs), h.0)

-- The test that every number of a list is a byte, for lists of literals.
abbrev pub are_bytes : Bytes → Bool
are_bytes [] = true
are_bytes (b ∷ bs) = ltb b 256 && are_bytes bs

pub are_bytes-AreBytes : (bs : Bytes) → are_bytes bs ≡ true → AreBytes bs
are_bytes-AreBytes [] h = tt
are_bytes-AreBytes (b ∷ bs) h = ground (arith, are_bytes-AreBytes bs)
