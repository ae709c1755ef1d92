-- ===== src/Settings/Values.antt =====
-- lxmax/lx.service.cpp: the attributes of the service object by their names, as `ext_main` adds them.
use lxmax.Common.{ℕ, ◌≡◌, if◌then◌else◌, List, [], ◌∷◌, Option, none, some, ℤ, pos}
use lxmax.Max.{System, Symbol, sym_eq, Atom, a_long, a_float, a_sym}
use lxmax.Symbols.{
  global_config_global_artnet_interface, global_config_global_artnet_unicast_addresses,
  global_config_artnet_sync_packets_enable, global_config_global_sacn_interface,
  global_config_global_sacn_unicast_addresses, global_config_sacn_sync_packets_enable,
  global_config_sacn_sync_address, global_config_max_framerate,
  global_config_allow_non_dmx_framerate, global_config_force_framerate,
  global_config_output_empty_universes,
}
use lxmax.Settings.{
  ServiceObject, global_artnet_unicast_addresses_get, global_sacn_unicast_addresses_get,
}
use lxmax.Settings.Loading.{
  ServiceSetting, set_artnet_interface, set_sacn_interface, set_artnet_addresses,
  set_sacn_addresses, set_artnet_sync, set_sacn_sync, set_sync_address, set_allow_nondmx,
  set_force_framerate, set_output_empty, set_max_framerate, service_attr_set,
}

-- The type of an attribute and its `CLASS_ATTR_FILTER_CLIP`; the bounds of a double are bit patterns.
pub data AttrType : Type 0 where
  attr_symbol attr_char attr_long attr_float64 : AttrType

pub data Clip : Type 0 where
  no_clip : Clip
  clip : ℤ → ℤ → Clip
  clip_double : ℕ → ℕ → Clip

-- The SDK's setter of a `CLASS_ATTR_DOUBLE` member under `CLASS_ATTR_FILTER_CLIP(lo, hi)`, with the
-- old value, and its comparison of doubles, all of them bit patterns.
pub record Doubles : Type 0 where
  pub clamp_double : ℕ → ℕ → ℕ → ℕ
  pub store_double : ℕ → ℕ → ℕ → List Atom → ℕ
  pub store_double_lem :
      (lo hi old d : ℕ) → store_double lo hi old (a_float d ∷ []) ≡ clamp_double d lo hi

-- `LX_DMX_FRAMERATE_MIN` and `LX_DMX_FRAMERATE_MAX`: the doubles 0.1 and 44.
abbrev pub framerate_min : ℕ
framerate_min = 0x3fb999999999999a

abbrev pub framerate_max : ℕ
framerate_max = 0x4046000000000000

-- The attributes in the order of `ext_main`.
unfoldable pub service_attributes : List (Symbol × AttrType × Clip)
service_attributes =
    (global_config_global_artnet_interface, attr_symbol, no_clip)
    ∷ (global_config_global_artnet_unicast_addresses, attr_symbol, no_clip)
    ∷ (global_config_artnet_sync_packets_enable, attr_char, clip (pos 0) (pos 1))
    ∷ (global_config_global_sacn_interface, attr_symbol, no_clip)
    ∷ (global_config_global_sacn_unicast_addresses, attr_symbol, no_clip)
    ∷ (global_config_sacn_sync_packets_enable, attr_char, clip (pos 0) (pos 1))
    ∷ (global_config_sacn_sync_address, attr_long, clip (pos 1) (pos 63999))
    ∷ (global_config_max_framerate, attr_float64, clip_double framerate_min framerate_max)
    ∷ (global_config_allow_non_dmx_framerate, attr_char, clip (pos 0) (pos 1))
    ∷ (global_config_force_framerate, attr_char, clip (pos 0) (pos 1))
    ∷ (global_config_output_empty_universes, attr_char, clip (pos 0) (pos 1))
    ∷ []

-- The write that a name and its atoms stand for; there is at least one atom, the first.
unfoldable pub setting_of :
    Doubles → ServiceObject → Symbol → Atom → List Atom → Option ServiceSetting
setting_of doubles x name first rest =
    if sym_eq name global_config_global_artnet_interface
    then some (set_artnet_interface first)
    else if sym_eq name global_config_global_artnet_unicast_addresses
    then some (set_artnet_addresses (first ∷ rest))
    else if sym_eq name global_config_artnet_sync_packets_enable
    then some (set_artnet_sync (first ∷ rest))
    else if sym_eq name global_config_global_sacn_interface
    then some (set_sacn_interface first)
    else if sym_eq name global_config_global_sacn_unicast_addresses
    then some (set_sacn_addresses (first ∷ rest))
    else if sym_eq name global_config_sacn_sync_packets_enable
    then some (set_sacn_sync (first ∷ rest))
    else if sym_eq name global_config_sacn_sync_address
    then some (set_sync_address (first ∷ rest))
    else if sym_eq name global_config_max_framerate
    then some (
        set_max_framerate
          (doubles.store_double framerate_min framerate_max x.max_framerate (first ∷ rest)))
    else if sym_eq name global_config_allow_non_dmx_framerate
    then some (set_allow_nondmx (first ∷ rest))
    else if sym_eq name global_config_force_framerate
    then some (set_force_framerate (first ∷ rest))
    else if sym_eq name global_config_output_empty_universes
    then some (set_output_empty (first ∷ rest))
    else none

module _ (sys : System) where
  -- `object_attr_setvalueof` on the service object.
  unfoldable pub service_setvalueof :
      Doubles → ServiceObject → Symbol → Atom → List Atom → ServiceObject
  unfolding setting_of
  service_setvalueof doubles x name first rest = elim (setting_of doubles x name first rest) [
    | none ↦ x
    | some s ↦ service_attr_set sys x s
  ]

  -- `object_attr_getvalueof` on the service object; `none` for a name that it does not have.
  unfoldable pub service_getvalueof : ServiceObject → Symbol → Option (List Atom)
  service_getvalueof x name =
      if sym_eq name global_config_global_artnet_interface
      then some (a_sym x.global_artnet_interface ∷ [])
      else if sym_eq name global_config_global_artnet_unicast_addresses
      then some (global_artnet_unicast_addresses_get sys x)
      else if sym_eq name global_config_artnet_sync_packets_enable
      then some (a_long x.artnet_sync_packets_enable ∷ [])
      else if sym_eq name global_config_global_sacn_interface
      then some (a_sym x.global_sacn_interface ∷ [])
      else if sym_eq name global_config_global_sacn_unicast_addresses
      then some (global_sacn_unicast_addresses_get sys x)
      else if sym_eq name global_config_sacn_sync_packets_enable
      then some (a_long x.sacn_sync_packets_enable ∷ [])
      else if sym_eq name global_config_sacn_sync_address
      then some (a_long x.sacn_sync_address ∷ [])
      else if sym_eq name global_config_max_framerate
      then some (a_float x.max_framerate ∷ [])
      else if sym_eq name global_config_allow_non_dmx_framerate
      then some (a_long x.allow_nondmx_framerate ∷ [])
      else if sym_eq name global_config_force_framerate
      then some (a_long x.force_framerate ∷ [])
      else if sym_eq name global_config_output_empty_universes
      then some (a_long x.output_empty_universes ∷ [])
      else none
