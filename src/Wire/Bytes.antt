-- ===== src/Wire/Bytes.antt =====
-- endian_ints.hpp, and what `memcpy` and `strcmp` do to the bytes of a packet.
use lxmax.Common.{
  ℕ, zero, suc, ◌+◌, ◌-◌, ◌*◌, ◌/◌, ◌%◌, ◌^◌, ◌<◌, bit_and, ◌==◌, ◌≡◌, refl, sym, ap, ap₂, ◌∙◌,
  if◌then◌else◌, Bool, true, false, List, [], ◌∷◌, ◌++◌, length, take, drop, arith, All,
}
use lxmax.Common.Bits.{bit_and_mask, bit_and_shifted}

-- `uint16_t_be`
pub record U16be : Type 0 where
  pub hi : ℕ
  pub lo : ℕ

-- The constructor from a `uint16_t`.
unfoldable pub u16be : ℕ → U16be
u16be value = record { hi = value / 2 ^ 8 % 2 ^ 8; lo = bit_and value 0x00FF % 2 ^ 8 }

-- The conversion to a `uint16_t`.
unfoldable pub u16 : U16be → ℕ
u16 x = (x.hi * 2 ^ 8 + x.lo) % 2 ^ 16

-- `uint32_t_be`
pub record U32be : Type 0 where
  pub b0 : ℕ
  pub b1 : ℕ
  pub b2 : ℕ
  pub b3 : ℕ

-- The constructor from a `uint32_t`.
unfoldable pub u32be : ℕ → U32be
u32be value = record {
  b0 = value / 2 ^ 24 % 2 ^ 8;
  b1 = bit_and value 0x00FF0000 / 2 ^ 16 % 2 ^ 8;
  b2 = bit_and value 0x0000FF00 / 2 ^ 8 % 2 ^ 8;
  b3 = bit_and value 0x00FF % 2 ^ 8;
}

-- The conversion to a `uint32_t`.
unfoldable pub u32 : U32be → ℕ
u32 x = (x.b0 * 2 ^ 24 + x.b1 * 2 ^ 16 + x.b2 * 2 ^ 8 + x.b3) % 2 ^ 32

-- Both pairs of conversions are inverse to one another on the values of the C types.
pub endian_round_trip :
    (m n : ℕ) → m < 2 ^ 16 → n < 2 ^ 32 → (u16 (u16be m) ≡ m) × (u32 (u32be n) ≡ n)
unfolding u16 u16be u32 u32be
endian_round_trip m n h k = (
  omega (arith, bit_and_mask 8 m),
  omega (
    arith,
    bit_and_mask 8 n,
    bit_and_shifted 8 n 255,
    bit_and_mask 8 (n / 2 ^ 8),
    bit_and_shifted 16 n 255,
    bit_and_mask 8 (n / 2 ^ 16),
  ),
)

-- The bytes of a packed member, in front of those of the members after it.
abbrev pub u16_bytes : U16be → List ℕ → List ℕ
u16_bytes x rest = x.hi ∷ x.lo ∷ rest

abbrev pub u32_bytes : U32be → List ℕ → List ℕ
u32_bytes x rest = x.b0 ∷ x.b1 ∷ x.b2 ∷ x.b3 ∷ rest

-- The members that a `memcpy` reads at the start of its source. The callers test the length before
-- they copy, so the 0 behind the end is not read.
abbrev pub byte_at : List ℕ → ℕ → ℕ
byte_at [] i = 0
byte_at (c ∷ s) zero = c
byte_at (c ∷ s) (suc i) = byte_at s i

abbrev pub u16_at : List ℕ → ℕ → U16be
u16_at s i = record { hi = byte_at s i; lo = byte_at s (1 + i) }

abbrev pub u32_at : List ℕ → ℕ → U32be
u32_at s i = record {
  b0 = byte_at s i;
  b1 = byte_at s (1 + i);
  b2 = byte_at s (2 + i);
  b3 = byte_at s (3 + i);
}

-- `memcpy(buffer, bytes, length)`
abbrev pub overwrite : List ℕ → List ℕ → List ℕ
overwrite buffer bytes = bytes ++ drop (length bytes) buffer

-- `strcmp(s, t) == 0`, for a `t` that ends in a 0.
unfoldable pub str_eq : List ℕ → List ℕ → Bool
str_eq (a ∷ s) (b ∷ t) =
    let rest = str_eq s t in if a == b then if a == 0 then true else rest else false
str_eq _ _ = false

-- A member that is an array, and what stands behind it.
pub take_exact {ℓ} : {A : Type ℓ} (n : ℕ) (s t : List A) → length s ≡ n → take n (s ++ t) ≡ s
take_exact zero [] t h = refl
take_exact zero (c ∷ s) t h = absurd (omega (arith, h))
take_exact (suc n) [] t h = absurd (omega (arith, h))
take_exact (suc n) (c ∷ s) t h = ap (◌∷◌ c) (take_exact n s t (omega (arith, h)))

pub drop_exact {ℓ} : {A : Type ℓ} (n : ℕ) (s t : List A) → length s ≡ n → drop n (s ++ t) ≡ t
drop_exact zero [] t h = refl
drop_exact zero (c ∷ s) t h = absurd (omega (arith, h))
drop_exact (suc n) [] t h = absurd (omega (arith, h))
drop_exact (suc n) (c ∷ s) t h = drop_exact n s t (omega (arith, h))

-- The values of a list are bytes.
abbrev pub IsBytes : List ℕ → Type 0
IsBytes = All (λ c. c < 2 ^ 8)

-- A list of bytes at and behind a position.
pub take-drop {ℓ} : {A : Type ℓ} (n : ℕ) (s : List A) → take n s ++ drop n s ≡ s
take-drop zero s = refl
take-drop (suc n) [] = refl
take-drop (suc n) (c ∷ s) = ap (◌∷◌ c) (take-drop n s)

pub drop_step : (n : ℕ) (s : List ℕ) → n < length s → drop n s ≡ byte_at s n ∷ drop (suc n) s
drop_step n [] h = absurd (omega (arith, h))
drop_step zero (c ∷ s) h = refl
drop_step (suc n) (c ∷ s) h = drop_step n s (omega (arith, h))

pub length-drop {ℓ} : {A : Type ℓ} (n : ℕ) (s : List A) → length (drop n s) ≡ length s - n
length-drop zero s = omega arith
length-drop (suc n) [] = omega arith
length-drop (suc n) (c ∷ s) = omega (arith, length-drop n s)

drop-nil {ℓ} : {A : Type ℓ} (n : ℕ) → ◌≡◌ {A = List A} (drop n []) []
drop-nil zero = refl
drop-nil (suc n) = refl

pub drop-drop {ℓ} : {A : Type ℓ} (m n : ℕ) (s : List A) → drop m (drop n s) ≡ drop (n + m) s
drop-drop m zero s = ap (λ (k : ℕ). drop k s) (omega arith)
drop-drop m (suc n) [] = drop-nil m ∙ sym (drop-nil (suc n + m))
drop-drop m (suc n) (c ∷ s) =
    drop-drop m n s
    ∙ ap (λ (k : ℕ). drop k (c ∷ s)) (let e : suc (n + m) ≡ suc n + m = omega arith in e)

pub byte_at_lt : (n : ℕ) (s : List ℕ) → IsBytes s → byte_at s n < 2 ^ 8
byte_at_lt n [] b = omega arith
byte_at_lt zero (c ∷ s) b = b.0
byte_at_lt (suc n) (c ∷ s) b = byte_at_lt n s b.1

pub IsBytes-drop : (n : ℕ) (s : List ℕ) → IsBytes s → IsBytes (drop n s)
IsBytes-drop zero s b = b
IsBytes-drop (suc n) [] b = b
IsBytes-drop (suc n) (c ∷ s) b = IsBytes-drop n s b.1

-- `strcmp` on two strings with their terminators behind as many bytes.
pub str_eq_sound :
    (s k : List ℕ)
    → All (λ c. 0 < c) k
    → length s ≡ suc (length k)
    → str_eq s (k ++ (0 ∷ [])) ≡ true
    → s ≡ k ++ (0 ∷ [])
unfolding str_eq
str_eq_sound [] k a n h = absurd (omega (arith, n))
str_eq_sound (c ∷ []) [] a n h = ground arith
str_eq_sound (c ∷ d ∷ s) [] a n h = absurd (omega (arith, n))
str_eq_sound (c ∷ s) (b ∷ k) a n h =
    let e : str_eq s (k ++ (0 ∷ [])) ≡ true = ground (arith, a.0) in
    let ih = str_eq_sound s k a.1 (omega (arith, n)) e in
    let e2 : c ≡ b = ground (arith, a.0) in ap₂ ◌∷◌ e2 ih

-- Dropping an array and some of what stands behind it.
pub drop_past {ℓ} :
    {A : Type ℓ} (n m : ℕ) (s t : List A) → length s ≡ n → drop (n + m) (s ++ t) ≡ drop m t
drop_past n m s t h = sym (drop-drop m n (s ++ t)) ∙ ap (drop m) (drop_exact n s t h)
