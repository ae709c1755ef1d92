-- ===== src/Settings/Dictionary.antt =====
-- lxmax/lx.service.cpp: the dictionary of the preferences, and saving it.
use lxmax.Common.{false, List, [], ◌∷◌, map, take, Option, none, some, ℤ, ◌≡◌}
use lxmax.Max.{System, MaxErr, err_none, Symbol, Hashtab}
use lxmax.Symbols.{
  universe_config_label, universe_config_type, universe_config_enable, universe_config_protocol,
  universe_config_protocol_mode, universe_config_protocol_interface,
  universe_config_internal_universe, universe_config_protocol_universe, universe_config_priority,
  universe_config_unicast_addresses, global_config_global_artnet_interface,
  global_config_global_artnet_unicast_addresses, global_config_artnet_sync_packets_enable,
  global_config_global_sacn_interface, global_config_global_sacn_unicast_addresses,
  global_config_sacn_sync_packets_enable, global_config_sacn_sync_address,
  global_config_max_framerate, global_config_allow_non_dmx_framerate, global_config_force_framerate,
  global_config_output_empty_universes, lxmax_version_major, lxmax_version_minor,
  lxmax_version_bugfix,
}
use lxmax.Universe.Kinds.{universe_type_to_sym, universe_protocol_to_sym}
use lxmax.Universe.Config.{UniverseConfig}
use lxmax.Universe.Getters.{address_atom}
use lxmax.Settings.{
  Entry, append_long, append_float, append_sym, append_atoms, Preferences, ServiceObject,
  global_artnet_unicast_addresses_get, global_sacn_unicast_addresses_get,
}

-- What the service object uses of the build and of the system: the version, and `dictionary_write`
-- with the file before and after.
pub record Files : Type 0 where
  pub version_major : ℤ
  pub version_minor : ℤ
  pub version_bugfix : ℤ
  pub dictionary_write : Preferences → Option Preferences → MaxErr × Option Preferences
  pub dictionary_write_lem :
      (p : Preferences) (old : Option Preferences)
      → (dictionary_write p old).0 ≡ err_none
      → (dictionary_write p old).1 ≡ some p

module _ (sys : System) where
  -- `lx_universe_config_to_dictionary`
  unfoldable pub universe_config_to_dictionary : UniverseConfig → List Entry
  universe_config_to_dictionary x =
      append_sym universe_config_label (some x.label)
      ∷ append_sym universe_config_type (universe_type_to_sym x.type)
      ∷ append_long universe_config_enable x.enable
      ∷ append_sym universe_config_protocol (some (universe_protocol_to_sym x.protocol))
      ∷ append_sym universe_config_protocol_mode (some x.protocol_mode)
      ∷ append_sym universe_config_protocol_interface (some x.protocol_interface)
      ∷ append_long universe_config_internal_universe x.internal_universe
      ∷ append_long universe_config_protocol_universe x.protocol_universe
      ∷ append_long universe_config_priority x.priority
      ∷ append_atoms universe_config_unicast_addresses
          (map (address_atom sys) (take x.unicast_addresses_count x.unicast_addresses))
      ∷ []

  -- The loop of `lx_service_preferences_save` over the keys of the universes.
  unfoldable saved_universes : Hashtab UniverseConfig → List Symbol → List (List Entry)
  unfolding universe_config_to_dictionary
  saved_universes universes [] = []
  saved_universes universes (key ∷ keys) = elim (universes.lookup key) [
    | none ↦ saved_universes universes keys
    | some c ↦ universe_config_to_dictionary c ∷ saved_universes universes keys
  ]

  unfoldable listed_universes : Hashtab UniverseConfig → List (List Entry)
  unfolding saved_universes
  listed_universes universes = elim universes.getkeys [
    | none ↦ []
    | some keys ↦ saved_universes universes keys
  ]

  module _ (files : Files) where
    -- The dictionary that `lx_service_preferences_save` writes.
    unfoldable pub preferences : ServiceObject → Preferences
    unfolding listed_universes
    preferences x = record {
      entries =
          append_long lxmax_version_major files.version_major
          ∷ append_long lxmax_version_minor files.version_minor
          ∷ append_long lxmax_version_bugfix files.version_bugfix
          ∷ append_sym global_config_global_artnet_interface (some x.global_artnet_interface)
          ∷ append_atoms global_config_global_artnet_unicast_addresses
              (global_artnet_unicast_addresses_get sys x)
          ∷ append_long global_config_artnet_sync_packets_enable x.artnet_sync_packets_enable
          ∷ append_sym global_config_global_sacn_interface (some x.global_sacn_interface)
          ∷ append_atoms global_config_global_sacn_unicast_addresses
              (global_sacn_unicast_addresses_get sys x)
          ∷ append_long global_config_sacn_sync_packets_enable x.sacn_sync_packets_enable
          ∷ append_long global_config_sacn_sync_address x.sacn_sync_address
          ∷ append_float global_config_max_framerate x.max_framerate
          ∷ append_long global_config_allow_non_dmx_framerate x.allow_nondmx_framerate
          ∷ append_long global_config_force_framerate x.force_framerate
          ∷ append_long global_config_output_empty_universes x.output_empty_universes
          ∷ [];
      universes = listed_universes x.service.universes;
    }

    -- `lx_service_preferences_save`: its result, and the object with the file.
    unfoldable pub preferences_save : ServiceObject → MaxErr × ServiceObject
    preferences_save x =
        let written = files.dictionary_write (preferences x) x.file in
        (written.0, record x { file = written.1 })

    -- `lx_service_qelem_save`
    unfoldable pub qelem_save : ServiceObject → ServiceObject
    qelem_save x = record ((preferences_save x).1) { save_pending = false }
