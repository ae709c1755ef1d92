-- ===== src/Enumerate/Registry/Parents.antt =====
-- lx_serial_macos.cpp: the way from a port up to its USB device.
use mathlib.Core.WellFounded.{Acc}
use lxmax.Common.{
  ℕ, ◌≡◌, ◌⊎◌, refl, true, false, Bool, Bool-cases, Option-cases, inl, inr, none, some,
  if◌then◌else◌,
}
use lxmax.Enumerate.Registry.{Registry, is_usb_device, climb, get_parent_iousb_device}

module _ (reg : Registry) where
  -- `p` is the first USB device above `d`.
  pub data Nearest : ℕ → ℕ → Type 0 where
    next : {d p : ℕ} → reg.get_parent_entry d ≡ some p → is_usb_device reg p ≡ true → Nearest d p
    above :
        {d q p : ℕ}
        → reg.get_parent_entry d ≡ some q
        → is_usb_device reg q ≡ false
        → Nearest q p
        → Nearest d p

  -- No entry above `d` is a USB device.
  pub data NoDevice : ℕ → Type 0 where
    root : {d : ℕ} → reg.get_parent_entry d ≡ none → NoDevice d
    under :
        {d q : ℕ}
        → reg.get_parent_entry d ≡ some q
        → is_usb_device reg q ≡ false
        → NoDevice q
        → NoDevice d

  -- The first USB device above an entry, or 0 where there is none.
  abbrev pub Found : ℕ → ℕ → Type 0
  Found d r = Nearest d r ⊎ (NoDevice d × (r ≡ 0))

  -- What the walk from `d` returns.
  abbrev Climbed : Bool → ℕ → ℕ → Type 0
  Climbed success d r =
      ((is_usb_device reg d ≡ true) × (r ≡ (if success then d else 0)))
      ⊎ ((is_usb_device reg d ≡ false) × (Found d r))

  -- The result of the walk from the parent, in terms of the entry below it.
  step-Climbed : (d p : ℕ) (r : ℕ) → reg.get_parent_entry d ≡ some p → Climbed true p r → Found d r
  step-Climbed d p r e (inl (usb, same)) = inl (next (rw (← same) at e) (rw (← same) at usb))
  step-Climbed d p r e (inr (plain, inl n)) = inl (above e plain n)
  step-Climbed d p r e (inr (plain, inr (n, zero))) = inr (under e plain n, zero)

  top-Climbed : (d r : ℕ) → reg.get_parent_entry d ≡ none → r ≡ 0 → Found d r
  top-Climbed d r e z = inr (root e, z)

  climb-Climbed :
      (d : ℕ) (success : Bool) (w : Acc (λ (p : ℕ) (e : ℕ). reg.get_parent_entry e ≡ some p) d)
      → Climbed success d (climb reg d success w)
  unfolding climb
  climb-Climbed d success (Acc.intro _ up) = elim (Bool-cases (is_usb_device reg d)) [
    | inl usb ↦ inl (usb, rw (usb, climb) refl)
    | inr plain ↦ inr (
      plain,
      rw (plain, climb)
          (elim (Option-cases (reg.get_parent_entry d))
            as (λ c. Found d (elim c [ inl e ↦ 0 | inr (p, e) ↦ climb reg p true (up p e) ])) [
              | inl e ↦ top-Climbed d 0 e refl
              | inr (p, e) ↦ step-Climbed d p _ e (climb-Climbed p true (up p e))
            ]),
    )
  ]

  -- The walk ends. From an entry that is not a USB device it returns the first one above it, or 0
  -- where there is none; from a USB device it returns 0.
  pub get_parent_iousb_device_lem :
      (d : ℕ)
      → ((is_usb_device reg d ≡ true) × (get_parent_iousb_device reg d ≡ 0))
        ⊎ ((is_usb_device reg d ≡ false) × Found d (get_parent_iousb_device reg d))
  unfolding get_parent_iousb_device
  get_parent_iousb_device_lem d = climb-Climbed d false (reg.is_tree d)
