-- ===== src/Label.antt =====
-- lx_helpers.cpp: a label is counted up in the number at its end.
use mathlib.Core.List.{append-nil}
use lxmax.Common.{
  ℕ, suc, ◌+◌, ◌-◌, ◌≤◌, ltb, if◌then◌else◌, ◌≡◌, refl, ap, sym, ◌∙◌, ◌↔◌, true, false, not, ◌||◌,
  Bool-cases, inl, inr, [], ◌∷◌, ◌++◌, arith, length, replicate, ℤ, pos, negsuc, subst, add_long,
  signed64, bits64,
}
use lxmax.Max.{Text, Symbol, codes}
use lxmax.Text.{is_cons, not_digit, IsDigits}
use lxmax.Dmx.Digits.{decimal, padded, value, long_max}

-- `find_last_not_of` splits a text at its last byte that is no digit: what stands up to that byte,
-- and the digits behind it.
unfoldable pub split_digits : Text → Text × Text
split_digits [] = ([], [])
split_digits (c ∷ s) =
    let rest = split_digits s in
    if is_cons rest.0 || not_digit c then (c ∷ rest.0, rest.1) else ([], c ∷ rest.1)

-- `MAX_ERR_GENERIC`, the exception of `std::stol`, which nothing catches, or the new symbol.
pub data Increment : Type 0 where
  refused out_of_range : Increment
  counted : Symbol → Increment

-- `std::to_string`
pub long_text : ℤ → Text
long_text (pos n) = decimal n
long_text (negsuc n) = codes "-" ++ decimal (suc n)

-- The zeros and the number: as many bytes as the digits had, or more.
unfoldable pub counted_text : ℕ → ℤ → Text
unfolding long_text
counted_text width n = replicate (width - length (long_text n)) b'0' ++ long_text n

-- `lx_helpers_symbol_increment`
unfoldable pub symbol_increment : Symbol → ℤ → Increment
unfolding split_digits counted_text
symbol_increment src count =
    let (prefix, digits) = split_digits src in
    if not (is_cons digits)
    then refused
    else if ltb long_max (value 0 digits)
    then out_of_range
    else counted (prefix ++ counted_text (length digits) (add_long (pos (value 0 digits)) count))

-- The text is empty, or its last byte is no digit.
abbrev pub Ends : Text → Type 0
Ends [] = Unit {0}
Ends (c ∷ []) = not_digit c ≡ true
Ends (c ∷ d ∷ s) = Ends (d ∷ s)

split_digits-digits : (ds : Text) → IsDigits ds → split_digits ds ≡ ([], ds)
unfolding split_digits
split_digits-digits [] h = refl
split_digits-digits (c ∷ ds) h = rw (split_digits-digits ds h.1, h.0)

pub split_digits-append : (s ds : Text) → Ends s → IsDigits ds → split_digits (s ++ ds) ≡ (s, ds)
unfolding split_digits
split_digits-append [] ds e h = split_digits-digits ds h
split_digits-append (c ∷ []) ds e h = rw (split_digits-digits ds h, e)
split_digits-append (c ∷ d ∷ s) ds e h = rw (split_digits-append (d ∷ s) ds e h)

counted_text-pos : (width n : ℕ) → counted_text width (pos n) ≡ padded width n
unfolding counted_text padded
counted_text-pos width n = refl

add_long-pos : (a b : ℕ) → a + b ≤ long_max → add_long (pos a) (pos b) ≡ pos (a + b)
unfolding add_long signed64 bits64
add_long-pos a b h = ground (arith, h)

-- A label that ends in digits, whose number and its sum with `count` are in the range of a `long`,
-- keeps what stands before the digits, and the sum is padded with zeros to the old width.
pub symbol_increment_lem :
    (s ds : Text) (count : ℕ)
    → Ends s
    → is_cons ds ≡ true
    → IsDigits ds
    → value 0 ds + count ≤ long_max
    → symbol_increment (s ++ ds) (pos count)
      ≡ counted (s ++ padded (length ds) (value 0 ds + count))
unfolding symbol_increment
symbol_increment_lem s ds count e nonempty h fits =
    let small : ltb long_max (value 0 ds) ≡ false = ground (arith, fits) in
    rw
      (
        split_digits-append s ds e h,
        nonempty,
        small,
        add_long-pos (value 0 ds) count fits,
        counted_text-pos,
      )
      refl

no_cons : (s : Text) → is_cons s ≡ false → s ≡ []
no_cons [] h = refl
no_cons (c ∷ s) h = absurd (ground arith)

Ends-cons : (c : ℕ) (p : Text) → Ends p → (is_cons p || not_digit c) ≡ true → Ends (c ∷ p)
Ends-cons c [] e h = ground arith
Ends-cons c (d ∷ p) e h = e

split_digits-Ends :
    (s : Text) → Ends (split_digits s).0 × ((split_digits s).0 ++ (split_digits s).1 ≡ s)
unfolding split_digits
split_digits-Ends [] = (tt, refl)
split_digits-Ends (c ∷ s) =
    let (ends, whole) = split_digits-Ends s in
    elim (Bool-cases (is_cons (split_digits s).0 || not_digit c)) [
      | inl front ↦ rw front (Ends-cons c (split_digits s).0 ends front, ap (◌∷◌ c) whole)
      | inr back ↦ rw back (
        tt,
        ap (◌∷◌ c) (
            ap (λ (p : Text). p ++ (split_digits s).1)
              (sym (no_cons (split_digits s).0 (ground (arith, back))))
            ∙ whole),
      )
    ]

symbol_increment-cases :
    (s : Symbol) (count : ℤ)
    → symbol_increment s count ≡ refused
    → is_cons (split_digits s).1 ≡ false
unfolding symbol_increment
symbol_increment-cases s count h = ground (arith, h)

-- A label is refused exactly when it does not end in a digit.
pub symbol_increment-refused :
    (s : Symbol) (count : ℤ) → (symbol_increment s count ≡ refused) ↔ Ends s
unfolding symbol_increment
symbol_increment-refused s count = (
  λ h.
      let (ends, whole) = split_digits-Ends s in
      let none_left : (split_digits s).1 ≡ [] = no_cons _ (symbol_increment-cases s count h) in
      subst Ends
        (sym (append-nil (split_digits s).0)
          ∙ sym (ap (λ (t : Text). (split_digits s).0 ++ t) none_left)
          ∙ whole)
        ends,
  λ e. rw (rw append-nil at (split_digits-append s [] e tt)) refl,
)
