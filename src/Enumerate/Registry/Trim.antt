-- ===== src/Enumerate/Registry/Trim.antt =====
-- lx_serial_macos.cpp: what `rtrim` leaves of a text.
use mathlib.Core.Option.{some-injective}
use lxmax.Common.{
  ℕ, suc, ◌≡◌, refl, sym, true, false, Bool-cases, Option-cases, inl, inr, none, some, [], ◌∷◌,
  ◌++◌, take, drop, All, arith,
}
use lxmax.Max.{Text}
use lxmax.Wire.Bytes.{take-drop}
use lxmax.Enumerate.Registry.{is_space, find_last_not_of, rtrim}

abbrev pub IsSpaces : Text → Type 0
IsSpaces = All (λ c. is_space c ≡ true)

-- The text is empty, or its last byte is not white space.
abbrev pub NoTrailing : Text → Type 0
NoTrailing [] = Unit {0}
NoTrailing (c ∷ []) = is_space c ≡ false
NoTrailing (c ∷ d ∷ s) = NoTrailing (d ∷ s)

-- Without a byte that passes, all are white space.
find_last_not_of-none : (s : Text) → find_last_not_of is_space s ≡ none → IsSpaces s
unfolding find_last_not_of
find_last_not_of-none [] h = tt
find_last_not_of-none (c ∷ s) h = elim (Option-cases (find_last_not_of is_space s)) [
  | inl e ↦ elim (Bool-cases (is_space c)) [
    | inl space ↦ (space, find_last_not_of-none s e)
    | inr other ↦ absurd (ground (arith, (rw (e, find_last_not_of, other) at h)))
  ]
  | inr (i, e) ↦ absurd (ground (arith, (rw (e, find_last_not_of) at h)))
]

NoTrailing-cons :
    (c i : ℕ) (s : Text)
    → find_last_not_of is_space s ≡ some i
    → NoTrailing (take (suc i) s)
    → NoTrailing (c ∷ take (suc i) s)
unfolding find_last_not_of
NoTrailing-cons c i [] e h = absurd (ground (arith, e))
NoTrailing-cons c i (d ∷ s) e h = h

find_last_not_of-some :
    (s : Text) (i : ℕ)
    → find_last_not_of is_space s ≡ some i
    → NoTrailing (take (suc i) s) × IsSpaces (drop (suc i) s)
unfolding find_last_not_of
find_last_not_of-some [] i h = absurd (ground (arith, h))
find_last_not_of-some (c ∷ s) i h = elim (Option-cases (find_last_not_of is_space s)) [
  | inl e ↦ elim (Bool-cases (is_space c)) [
    | inl space ↦ absurd (ground (arith, (rw (e, find_last_not_of, space) at h)))
    | inr other ↦
        let i0 = some-injective 0 i (rw (e, find_last_not_of, other) at h) in
        rw (← i0) (other, find_last_not_of-none s e)
  ]
  | inr (j, e) ↦
      let i0 = some-injective (suc j) i (rw (e, find_last_not_of) at h) in
      let ih = find_last_not_of-some s j e in rw (← i0) (NoTrailing-cons c j s e ih.0, ih.1)
]

-- A text is what `rtrim` leaves of it and white space behind that, and what is left is empty or does
-- not end in white space.
pub rtrim_lem :
    (s : Text) → NoTrailing (rtrim s) × (spaces : Text) × IsSpaces spaces × (s ≡ rtrim s ++ spaces)
unfolding rtrim
rtrim_lem s = elim (Option-cases (find_last_not_of is_space s)) [
  | inl e ↦ rw (e, rtrim) (tt, s, find_last_not_of-none s e, refl)
  | inr (i, e) ↦
      let r = find_last_not_of-some s i e in
      rw (e, rtrim) (r.0, drop (suc i) s, r.1, sym (take-drop (suc i) s))
]
