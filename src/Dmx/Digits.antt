-- ===== src/Dmx/Digits.antt =====
-- Decimal numbers in texts, as `snprintf("%0*lld")` prints them and `strtol(s, NULL, 10)` reads
-- them, on numbers that are not negative.
use lxmax.Common.{
  ℕ, zero, suc, ◌+◌, ◌-◌, ◌*◌, ◌/◌, ◌%◌, ◌^◌, ◌<◌, min, ltb, if◌then◌else◌, ◌≡◌, refl, [], ◌∷◌,
  ◌++◌, arith, length, replicate, length-append, ◌∙◌, Bool-cases, inl, inr,
}
use lxmax.Max.{Text}
use lxmax.Text.{IsDigits}

-- The digits of a number, most significant first; one round of fuel for each.
digits_fuel : ℕ → ℕ → Text
digits_fuel zero n = []
digits_fuel (suc f) n =
    let more = digits_fuel f (n / 10) ++ (b'0' + n % 10) ∷ [] in
    if ltb n 10 then (b'0' + n) ∷ [] else more

unfoldable pub decimal : ℕ → Text
unfolding digits_fuel
decimal n = digits_fuel (suc n) n

-- `%0<width>lld`
unfoldable pub padded : ℕ → ℕ → Text
unfolding decimal
padded width n = replicate (width - length (decimal n)) b'0' ++ decimal n

-- The value of a run of digits behind the value `acc`.
unfoldable pub value : ℕ → Text → ℕ
value acc [] = acc
value acc (c ∷ s) = value (acc * 10 + (c - b'0')) s

abbrev pub long_max : ℕ
long_max = 2 ^ 63 - 1

-- `strtol` on a run of digits: out of range it returns `LONG_MAX`.
unfoldable pub strtol : Text → ℕ
unfolding value
strtol s = min (value 0 s) long_max

pub value-append : (acc : ℕ) (s t : Text) → value acc (s ++ t) ≡ value (value acc s) t
unfolding value
value-append acc [] t = refl
value-append acc (c ∷ s) t = value-append (acc * 10 + (c - b'0')) s t

value-digits_fuel : (f n : ℕ) → n < f → value 0 (digits_fuel f n) ≡ n
unfolding digits_fuel value
value-digits_fuel zero n h = absurd (omega arith)
value-digits_fuel (suc f) n h = ground (
  arith,
  value-digits_fuel f (n / 10),
  value-append 0 (digits_fuel f (n / 10)) ((b'0' + n % 10) ∷ []),
)

value-zeros : (k : ℕ) (s : Text) → value 0 (replicate k b'0' ++ s) ≡ value 0 s
unfolding value
value-zeros zero s = refl
value-zeros (suc k) s = value-zeros k s

-- A padded print has the value that was printed.
pub value-padded : (width n : ℕ) → value 0 (padded width n) ≡ n
unfolding padded
value-padded width n =
    value-zeros (width - length (decimal n)) (decimal n) ∙ value-digits_fuel (suc n) n (omega arith)

IsDigits-append : (s t : Text) → IsDigits s → IsDigits t → IsDigits (s ++ t)
IsDigits-append [] t hs ht = ht
IsDigits-append (c ∷ s) t hs ht = (hs.0, IsDigits-append s t hs.1 ht)

IsDigits-digits_fuel : (f n : ℕ) → IsDigits (digits_fuel f n)
unfolding digits_fuel
IsDigits-digits_fuel zero n = tt
IsDigits-digits_fuel (suc f) n =
    let last =
      IsDigits-append (digits_fuel f (n / 10)) ((b'0' + n % 10) ∷ [])
        (IsDigits-digits_fuel f (n / 10)) (ground arith, tt) in
    elim (Bool-cases (ltb n 10)) [
      | inl small ↦ rw small (ground arith, tt)
      | inr large ↦ rw large last
    ]

IsDigits-zeros : (k : ℕ) → IsDigits (replicate k b'0')
IsDigits-zeros zero = tt
IsDigits-zeros (suc k) = (refl, IsDigits-zeros k)

pub IsDigits-padded : (width n : ℕ) → IsDigits (padded width n)
unfolding padded
IsDigits-padded width n =
    IsDigits-append (replicate (width - length (decimal n)) b'0') (decimal n)
      (IsDigits-zeros (width - length (decimal n))) (IsDigits-digits_fuel (suc n) n)

length-digits_fuel : (f n : ℕ) → 0 < length (digits_fuel (suc f) n)
unfolding digits_fuel
length-digits_fuel f n = elim (Bool-cases (ltb n 10)) [
  | inl small ↦ rw small (omega arith)
  | inr large ↦
      rw large (omega (arith, length-append (digits_fuel f (n / 10)) ((b'0' + n % 10) ∷ [])))
]

-- A padded print is not empty.
pub length-padded : (width n : ℕ) → 0 < length (padded width n)
unfolding padded
length-padded width n = omega (
  arith,
  length-append (replicate (width - length (decimal n)) b'0') (decimal n),
  length-digits_fuel n n,
)
