-- ===== src/Common/Bits.antt =====
-- `&` with a mask and `|` with low ones as arithmetic, at every width. The native operations mean
-- a recursion on binary digits with fuel; `bit_and_step` and `bit_or_step` drop the fuel.
use Prim.Native.Nat.{ℕ, zero, suc, ◌+◌, ◌-◌, ◌*◌, ◌/◌, ◌%◌, ◌^◌, ◌≤◌, min, max, bit_and, bit_or}
use Prim.Native.Nat.{digits, bitwise, bit_and-bitwise, bit_or-bitwise}
use mathlib.Core.Path.{◌≡◌, refl, sym, ap, ◌∙◌}
use native.Mathlib.Nat.{le_refl, pow-suc, one-le-pow, mul_comm, div-add-mod', div-div-eq-div-mul}
use native.Mathlib.Omega.{arith}

module _ (rest : ℕ → ℕ) (op : ℕ → ℕ → ℕ) where
  one_more : (n x y : ℕ) → x ≤ n → digits rest op (suc n) x y ≡ digits rest op n x y
  one_more zero (suc x) y h = absurd (omega arith)
  one_more zero zero y h = refl
  one_more (suc n) (suc x) y h =
      ap (λ (t : ℕ). t * 2 + op (suc x % 2) (y % 2)) (one_more n (suc x / 2) (y / 2) (omega arith))
  one_more (suc n) zero y h = refl

  -- Fuel beyond the first number changes nothing.
  spare : (k x y : ℕ) → digits rest op (k + x) x y ≡ bitwise rest op x y
  spare zero x y = ap (λ (n : ℕ). digits rest op n x y) (omega arith)
  spare (suc k) x y =
      let e : suc k + x ≡ suc (k + x) = omega arith in
      ap (λ (n : ℕ). digits rest op n x y) e ∙ one_more (k + x) x y (omega arith) ∙ spare k x y

  halved : (x y : ℕ) → digits rest op x (suc x / 2) (y / 2) ≡ bitwise rest op (suc x / 2) (y / 2)
  halved x y =
      ap (λ (n : ℕ). digits rest op n (suc x / 2) (y / 2)) (omega arith)
      ∙ spare (x - suc x / 2) (suc x / 2) (y / 2)

-- The lowest digit and the others.
bit_or_step : (x y : ℕ) → bit_or x y ≡ max (x % 2) (y % 2) + 2 * bit_or (x / 2) (y / 2)
bit_or_step zero y = simp bit_or-bitwise (omega arith)
bit_or_step (suc x) y = simp bit_or-bitwise (omega (arith, halved (λ d. d) max x y))

bit_and_step : (x y : ℕ) → bit_and x y ≡ min (x % 2) (y % 2) + 2 * bit_and (x / 2) (y / 2)
bit_and_step zero y = simp bit_and-bitwise (omega arith)
bit_and_step (suc x) y = simp bit_and-bitwise (omega (arith, halved (λ d. 0) min x y))

bit_and-zero_below : (n a : ℕ) → a ≤ n → bit_and a 0 ≡ 0
bit_and-zero_below n zero h = refl
bit_and-zero_below zero (suc a) h = absurd (omega arith)
bit_and-zero_below (suc n) (suc a) h =
    omega (arith, bit_and_step (suc a) 0, bit_and-zero_below n (suc a / 2) (omega arith))

bit_or-zero_below : (n a : ℕ) → a ≤ n → bit_or a 0 ≡ a
bit_or-zero_below n zero h = refl
bit_or-zero_below zero (suc a) h = absurd (omega arith)
bit_or-zero_below (suc n) (suc a) h =
    omega (arith, bit_or_step (suc a) 0, bit_or-zero_below n (suc a / 2) (omega arith))

-- One more binary digit of a quotient and a remainder by `2 ^ k`.
div-two_pow-suc : (k a : ℕ) → a / 2 ^ suc k ≡ a / 2 / 2 ^ k
div-two_pow-suc k a = rw pow-suc (rw (mul_comm (2 ^ k) 2) (sym (div-div-eq-div-mul a 2 (2 ^ k))))

mod-two_pow-suc : (k a : ℕ) → a % 2 ^ suc k ≡ a / 2 % 2 ^ k * 2 + a % 2
mod-two_pow-suc k a = omega (
  arith,
  div-add-mod' a (2 ^ suc k),
  div-add-mod' (a / 2) (2 ^ k),
  ap (λ (t : ℕ). t * 2 ^ suc k) (div-two_pow-suc k a),
  ap (λ (t : ℕ). a / 2 / 2 ^ k * t) (pow-suc 2 k),
)

-- A mask of `k` low ones is the remainder by `2 ^ k`.
pub bit_and_mask : (k a : ℕ) → bit_and a (2 ^ k - 1) ≡ a % 2 ^ k
bit_and_mask zero a = omega (arith, bit_and-zero_below a a (le_refl _))
bit_and_mask (suc k) a = ground (
  arith,
  bit_and_step a (2 ^ suc k - 1),
  bit_and_mask k (a / 2),
  mod-two_pow-suc k a,
  pow-suc 2 k,
  one-le-pow k 2,
)

-- A mask that stands above `k` zeros sees the digits above.
pub bit_and_shifted : (k a m : ℕ) → bit_and a (m * 2 ^ k) ≡ bit_and (a / 2 ^ k) m * 2 ^ k
bit_and_shifted zero a m = ground arith
bit_and_shifted (suc k) a m = ground (
  arith,
  bit_and_step a (m * 2 ^ suc k),
  bit_and_shifted k (a / 2) m,
  div-two_pow-suc k a,
  pow-suc 2 k,
  ap (λ (t : ℕ). m * t) (pow-suc 2 k),
  ap (λ (t : ℕ). bit_and (a / 2 / 2 ^ k) m * t) (pow-suc 2 k),
)

-- `|` with `k` low ones sets those and keeps the digits above.
pub bit_or_ones : (k a : ℕ) → bit_or a (2 ^ k - 1) ≡ a / 2 ^ k * 2 ^ k + (2 ^ k - 1)
bit_or_ones zero a = omega (arith, bit_or-zero_below a a (le_refl _))
bit_or_ones (suc k) a = ground (
  arith,
  bit_or_step a (2 ^ suc k - 1),
  bit_or_ones k (a / 2),
  div-two_pow-suc k a,
  pow-suc 2 k,
  ap (λ (t : ℕ). a / 2 / 2 ^ k * t) (pow-suc 2 k),
  one-le-pow k 2,
)

mod-one : (a : ℕ) → a % 1 ≡ 0
mod-one a = omega arith

-- The low `k` digits of `|` depend on the low `k` digits alone.
pub bit_or-mod : (k a b : ℕ) → bit_or a b % 2 ^ k ≡ bit_or (a % 2 ^ k) (b % 2 ^ k)
bit_or-mod zero a b =
    ground (arith, bit_or-zero_below 0 0 (le_refl _), mod-one a, mod-one b, mod-one (bit_or a b))
bit_or-mod (suc k) a b = ground (
  arith,
  bit_or_step a b,
  bit_or_step (a % 2 ^ suc k) (b % 2 ^ suc k),
  bit_or-mod k (a / 2) (b / 2),
  mod-two_pow-suc k a,
  mod-two_pow-suc k b,
  mod-two_pow-suc k (bit_or a b),
)
