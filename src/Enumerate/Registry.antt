-- ===== src/Enumerate/Registry.antt =====
-- lx_serial_macos.cpp: the entries of the system's registry, and what is read of them.
pub mod Parents
pub mod Trim
pub mod Ports
use mathlib.Core.WellFounded.{Acc}
use lxmax.Common.{
  ℕ, zero, suc, ◌≡◌, ◌==◌, if◌then◌else◌, Bool, true, false, not, ◌||◌, List, [], ◌∷◌, take, Option,
  none, some, Option-cases, inl, inr,
}
use lxmax.Max.{Text, codes, sym_eq}

-- A property of an entry: a string with its bytes, if they can be had as ASCII; a number, if it has
-- 16 bits; or a value of another type.
pub data CfValue : Type 0 where
  cf_string : Option Text → CfValue
  cf_number : Option ℕ → CfValue
  cf_other : CfValue

-- The IOKit registry. An entry is its handle, and 0 is none. The entries are a tree, so the way up
-- from an entry ends.
pub record Registry : Type 0 where
  pub object_get_class : ℕ → Option Text
  pub get_parent_entry : ℕ → Option ℕ
  pub create_property : ℕ → Text → Option CfValue
  pub callout_device_key : Text
  pub is_tree : (d : ℕ) → Acc (λ (p : ℕ) (e : ℕ). get_parent_entry e ≡ some p) d

-- `" \t\f\v\n\r"`
abbrev pub is_space : ℕ → Bool
is_space c = c == 32 || c == 9 || c == 12 || c == 11 || c == 10 || c == 13

-- `std::string::find_last_not_of`, with `std::string::npos` as `none`.
unfoldable pub find_last_not_of : (ℕ → Bool) → Text → Option ℕ
find_last_not_of p [] = none
find_last_not_of p (c ∷ s) = elim (find_last_not_of p s) [
  | some i ↦ some (suc i)
  | none ↦ if p c then none else some 0
]

-- `rtrim`
unfoldable pub rtrim : Text → Text
unfolding find_last_not_of
rtrim s = elim (find_last_not_of is_space s) [ none ↦ [] | some i ↦ take (suc i) s ]

-- `cfstring_to_string`
unfoldable pub cfstring_to_string : Option Text → Text
cfstring_to_string none = []
cfstring_to_string (some s) = s

-- The string of a property, which is empty if there is none or it has another type.
unfoldable pub string_of : Option CfValue → Text
unfolding cfstring_to_string
string_of (some (cf_string s)) = cfstring_to_string s
string_of _ = []

unfoldable pub int_of : Option CfValue → ℕ
int_of (some (cf_number (some n))) = n
int_of _ = 0

module _ (reg : Registry) where
  -- `get_class_name`
  unfoldable pub get_class_name : ℕ → Text
  unfolding cfstring_to_string
  get_class_name d = cfstring_to_string (reg.object_get_class d)

  unfoldable pub is_usb_device : ℕ → Bool
  unfolding get_class_name
  is_usb_device d = sym_eq (get_class_name d) (codes "IOUSBDevice")

  -- The loop of `get_parent_iousb_device` at a device; the flag is `kern_result == KERN_SUCCESS`.
  unfoldable pub climb :
      (d : ℕ) → Bool → Acc (λ (p : ℕ) (e : ℕ). reg.get_parent_entry e ≡ some p) d → ℕ
  unfolding is_usb_device
  climb d success (Acc.intro _ up) = elim (is_usb_device d) [
    | true ↦ if success then d else 0
    | false ↦ elim (Option-cases (reg.get_parent_entry d)) [
      | inl e ↦ 0
      | inr (p, e) ↦ climb p true (up p e)
    ]
  ]

  -- `get_parent_iousb_device`
  unfoldable pub get_parent_iousb_device : ℕ → ℕ
  unfolding climb
  get_parent_iousb_device d = climb d false (reg.is_tree d)

  -- `get_device_path`
  unfoldable pub get_device_path : ℕ → Text
  unfolding string_of
  get_device_path port = string_of (reg.create_property port reg.callout_device_key)

  -- `get_string_property` and `get_int_property`
  unfoldable pub get_string_property : ℕ → Text → Text
  unfolding string_of
  get_string_property device property =
      if not (device == 0) then string_of (reg.create_property device property) else []

  unfoldable pub get_int_property : ℕ → Text → ℕ
  unfolding int_of
  get_int_property device property =
      if not (device == 0) then int_of (reg.create_property device property) else 0
