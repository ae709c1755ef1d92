-- ===== src/Settings/Loading.antt =====
-- lxmax/lx.service.cpp: reading the preferences, and the creation of the service object.
use lxmax.Common.{suc, true, List, [], ◌∷◌, Option, none, some, ℕ, pos}
use lxmax.Max.{System, MaxErr, err_none, err_generic, Atom}
use lxmax.Universe.Config.{universe_config_new}
use lxmax.Universe.Attributes.{Setting}
use lxmax.Universe.Invariant.History.{attr_set_all}
use lxmax.Service.{Tables, Service, universes_add, universes_clear}
use lxmax.Settings.{
  Entry, Preferences, ServiceObject, find_global_artnet_interface, find_global_sacn_interface,
  global_artnet_interface_set, global_sacn_interface_set, global_artnet_unicast_addresses_set,
  global_sacn_unicast_addresses_set, preferences_clear,
}
use lxmax.Settings.Dictionary.{Files, preferences_save}

-- A write to an attribute of the service object: its atoms, or the double that is stored.
pub data ServiceSetting : Type 0 where
  set_artnet_interface set_sacn_interface : Atom → ServiceSetting
  set_artnet_addresses set_sacn_addresses : List Atom → ServiceSetting
  set_artnet_sync set_sacn_sync set_sync_address : List Atom → ServiceSetting
  set_allow_nondmx set_force_framerate set_output_empty : List Atom → ServiceSetting
  set_max_framerate : ℕ → ServiceSetting

-- What the SDK does to read the preferences. `dictionary_read` gives from the file the dictionary
-- without its universes, and these if it has them. The others are `attr_dictionary_process`: the writes
-- that a dictionary stands for, to a configuration and to the service object.
pub record Reading : Type 0 where
  pub dictionary_read : Option Preferences → Option (List Entry × Option (List (List Entry)))
  pub config_settings : List Entry → List Setting
  pub service_settings : List Entry → List ServiceSetting

module _ (sys : System) where
  -- `object_attr_setvalueof` on the service object, by the table of `ext_main`.
  unfoldable pub service_attr_set : ServiceObject → ServiceSetting → ServiceObject
  service_attr_set x (set_artnet_interface atom) = global_artnet_interface_set sys x atom
  service_attr_set x (set_sacn_interface atom) = global_sacn_interface_set sys x atom
  service_attr_set x (set_artnet_addresses argv) = global_artnet_unicast_addresses_set sys x argv
  service_attr_set x (set_sacn_addresses argv) = global_sacn_unicast_addresses_set sys x argv
  service_attr_set x (set_artnet_sync argv) = record x {
    artnet_sync_packets_enable =
        sys.max.store_clip (pos 0) (pos 1) x.artnet_sync_packets_enable argv;
  }
  service_attr_set x (set_sacn_sync argv) = record x {
    sacn_sync_packets_enable = sys.max.store_clip (pos 0) (pos 1) x.sacn_sync_packets_enable argv;
  }
  service_attr_set x (set_sync_address argv) = record x {
    sacn_sync_address = sys.max.store_clip (pos 1) (pos 63999) x.sacn_sync_address argv;
  }
  service_attr_set x (set_allow_nondmx argv) = record x {
    allow_nondmx_framerate = sys.max.store_clip (pos 0) (pos 1) x.allow_nondmx_framerate argv;
  }
  service_attr_set x (set_force_framerate argv) = record x {
    force_framerate = sys.max.store_clip (pos 0) (pos 1) x.force_framerate argv;
  }
  service_attr_set x (set_output_empty argv) = record x {
    output_empty_universes = sys.max.store_clip (pos 0) (pos 1) x.output_empty_universes argv;
  }
  service_attr_set x (set_max_framerate d) = record x { max_framerate = d }

  -- The writes in order.
  unfoldable pub service_attr_set_all : ServiceObject → List ServiceSetting → ServiceObject
  service_attr_set_all x [] = x
  service_attr_set_all x (s ∷ settings) = service_attr_set_all (service_attr_set x s) settings

  module _ (tables : Tables) (reading : Reading) where
    -- The loop of `lx_service_preferences_load`: a new configuration from each dictionary.
    unfoldable pub load_universes : List (List Entry) → Service → Service
    load_universes [] x = x
    load_universes (dict ∷ dicts) x = load_universes dicts (
        universes_add tables (record x { names_used = suc x.names_used })
          (attr_set_all sys x.interfaces (universe_config_new (tables.unique x.names_used))
            (reading.config_settings dict)))

    -- The table is replaced if the dictionary has universes.
    unfoldable pub load_table : Option (List (List Entry)) → ServiceObject → ServiceObject
    load_table none x = x
    load_table (some dicts) x = record x {
      service = load_universes dicts (universes_clear tables x.service);
    }

    -- `lx_service_preferences_load`. What the attributes notify comes while
    -- `is_initial_load_complete` is false, where `lx_service_notify` does nothing.
    unfoldable pub preferences_load : ServiceObject → MaxErr × ServiceObject
    preferences_load x = elim (reading.dictionary_read x.file) [
      | none ↦ (err_generic, x)
      | some dict ↦ (
        err_none,
        find_global_sacn_interface sys (
            find_global_artnet_interface sys
              (service_attr_set_all (load_table dict.1 x) (reading.service_settings dict.0))),
      )
    ]

    -- `lx_service_new`, on the object that is allocated and holds its tables: from
    -- `lx_service_preferences_clear` on, where the thread starts.
    unfoldable pub service_new : Files → ServiceObject → ServiceObject
    service_new files x =
        record ((preferences_save sys files
          ((preferences_load (preferences_clear tables x)).1)).1) {
            is_initial_load_complete = true;
          }
