-- ===== src/Common/Int.antt =====
-- Signed integers over the native numbers: the `long` and `t_atom_long` of the sources.
use Prim.Native.Nat.{ℕ, suc, ◌+◌, ◌-◌, ◌%◌, ◌^◌, ◌≤◌, ◌<◌}
use mathlib.Core.Path.{◌≡◌}
use mathlib.Core.Bool.{Bool}
use native.Mathlib.Omega.{arith}
use lxmax.Common.Tests.{ltb, leb, if◌then◌else◌}

-- `negsuc n` is -(n + 1).
pub data ℤ : Type 0 where
  pos : ℕ → ℤ
  negsuc : ℕ → ℤ

abbrev pub pos_part : ℤ → ℕ
pos_part (pos n) = n
pos_part (negsuc n) = 0

abbrev pub neg_part : ℤ → ℕ
neg_part (pos n) = 0
neg_part (negsuc n) = suc n

abbrev pub sub_ℕ : ℕ → ℕ → ℤ
sub_ℕ a b = if leb b a then pos (a - b) else negsuc (b - a - 1)

infixl 65 ◌+ℤ◌
unfoldable pub ◌+ℤ◌ : ℤ → ℤ → ℤ
a +ℤ b = sub_ℕ (pos_part a + pos_part b) (neg_part a + neg_part b)

infix 50 ◌≤ℤ◌
abbrev pub ◌≤ℤ◌ : ℤ → ℤ → Type 0
a ≤ℤ b = pos_part a + neg_part b ≤ pos_part b + neg_part a

abbrev pub ltb_ℤ : ℤ → ℤ → Bool
ltb_ℤ a b = ltb (pos_part a + neg_part b) (pos_part b + neg_part a)

-- The two's complement pattern of a `long`.
unfoldable pub bits64 : ℤ → ℕ
bits64 (pos n) = n % 2 ^ 64
bits64 (negsuc n) = 2 ^ 64 - 1 - n % 2 ^ 64

-- The value of a `long` with a given pattern, and of an `int`.
unfoldable pub signed64 : ℕ → ℤ
signed64 n = if ltb n (2 ^ 63) then pos n else negsuc (2 ^ 64 - 1 - n)

unfoldable pub signed32 : ℕ → ℤ
signed32 n = if ltb n (2 ^ 31) then pos n else negsuc (2 ^ 32 - 1 - n)

-- The values of a `long`.
pub record IsLong (a : ℤ) : Type 0 where
  pub above : pos_part a < 2 ^ 63
  pub below : neg_part a ≤ 2 ^ 63

-- A sum of two `long`s, which wraps around.
unfoldable pub add_long : ℤ → ℤ → ℤ
unfolding signed64 bits64
add_long a b = signed64 ((bits64 a + bits64 b) % 2 ^ 64)

-- A value of a `long` is the value of its pattern.
pub signed64-bits64 : (a : ℤ) → IsLong a → signed64 (bits64 a) ≡ a
unfolding signed64 bits64
signed64-bits64 (pos n) h = ground arith
signed64-bits64 (negsuc n) h = ground arith

-- A sum that a `long` can hold is exact.
pub add_long_exact : (a b : ℤ) → IsLong (a +ℤ b) → add_long a b ≡ a +ℤ b
unfolding add_long ◌+ℤ◌
add_long_exact (pos n) (pos m) h = ground arith
add_long_exact (pos n) (negsuc m) h = ground arith
add_long_exact (negsuc n) (pos m) h = ground arith
add_long_exact (negsuc n) (negsuc m) h = ground arith
