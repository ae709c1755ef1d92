-- ===== src/Text.antt =====
-- What the regular expressions of the sources match piece by piece: bytes by their class, and runs
-- of bytes.
use lxmax.Common.{
  ◌==◌, Option, none, some, ℕ, ◌≡◌, refl, Bool, true, false, not, ◌&&◌, leb, if◌then◌else◌, ◌++◌,
  [], ◌∷◌, All, arith, Bool-cases, inl, inr,
}
use lxmax.Max.{Text}

-- A byte that `\d` matches.
abbrev pub is_digit : ℕ → Bool
is_digit c = leb b'0' c && leb c b'9'

-- `.` of a regular expression: any byte but the ends of lines.
abbrev pub is_dot : ℕ → Bool
is_dot c = not (c == b'\n') && not (c == b'\r')

-- A given text, and what follows it.
unfoldable pub literal : Text → Text → Option Text
literal [] s = some s
literal (c ∷ l) [] = none
literal (c ∷ l) (d ∷ s) = let rest = literal l s in if c == d then rest else none

abbrev pub IsDigits : Text → Type 0
IsDigits = All (λ c. is_digit c ≡ true)

-- The longest run of bytes that pass a test, and what follows.
unfoldable pub span : (ℕ → Bool) → Text → Text × Text
span p [] = ([], [])
span p (c ∷ s) = let rest = span p s in if p c then (c ∷ rest.0, rest.1) else ([], c ∷ s)

abbrev pub is_cons : Text → Bool
is_cons [] = false
is_cons (c ∷ s) = true

-- The text ends, or goes on with a byte that fails the test.
abbrev pub Stops : (ℕ → Bool) → Text → Type 0
Stops p [] = Unit {0}
Stops p (c ∷ s) = p c ≡ false

abbrev pub not_digit : ℕ → Bool
not_digit c = not (is_digit c)

pub span-whole : (p : ℕ → Bool) (s : Text) → (span p s).0 ++ (span p s).1 ≡ s
unfolding span
span-whole p [] = refl
span-whole p (c ∷ s) = ground (arith, span-whole p s)

pub span-front : (p : ℕ → Bool) (s : Text) → All (λ c. p c ≡ true) (span p s).0
unfolding span
span-front p [] = tt
span-front p (c ∷ s) = elim (Bool-cases (p c)) [
  | inl hit ↦ rw hit (hit, span-front p s)
  | inr miss ↦ rw miss tt
]

pub span-back : (p : ℕ → Bool) (s : Text) → Stops p (span p s).1
unfolding span
span-back p [] = tt
span-back p (c ∷ s) = elim (Bool-cases (p c)) [
  | inl hit ↦ rw hit (span-back p s)
  | inr miss ↦ rw miss miss
]

pub span-append :
    (p : ℕ → Bool) (s t : Text) → All (λ c. p c ≡ true) s → Stops p t → span p (s ++ t) ≡ (s, t)
unfolding span
span-append p [] [] h k = refl
span-append p [] (c ∷ t) h k = rw k
span-append p (c ∷ s) t h k = rw (h.0, span-append p s t h.1 k)

-- A digit run ends where a byte that is no digit follows, and the other way round.
pub Stops-append :
    (p q : ℕ → Bool) (s t : Text)
    → ((c : ℕ) → q c ≡ true → p c ≡ false)
    → is_cons s ≡ true
    → All (λ c. q c ≡ true) s
    → Stops p (s ++ t)
Stops-append p q [] t other h all = absurd (ground arith)
Stops-append p q (c ∷ s) t other h all = other c all.0

pub digit_stops : (c : ℕ) → is_digit c ≡ true → not_digit c ≡ false
digit_stops c h = rw h

pub not_digit_stops : (c : ℕ) → not_digit c ≡ true → is_digit c ≡ false
not_digit_stops c h = ground arith
