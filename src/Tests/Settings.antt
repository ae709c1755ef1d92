-- ===== src/Tests/Settings.antt =====
-- Runs and instances for the service object.
use lxmax.Common.{
  ◌≡◌, refl, false, true, inl, inr, ℕ, List, [], ◌∷◌, Option, none, some, pos, replicate, arith,
  min, ltb, if◌then◌else◌,
}
use lxmax.Max.{Atom, err_none, codes, a_long, a_float, a_sym, IpAddress, IsIp}
use lxmax.Symbols.{interface_ip_adapter_all}
use lxmax.Net.Adapter.{network_adapter_to_sym}
use lxmax.Universe.Config.{ip_zero}
use lxmax.Settings.{Entry, Preferences, ServiceObject}
use lxmax.Settings.Dictionary.{Files, preferences}
use lxmax.Settings.Interface.{IsBound}
use lxmax.Remote.Reach.{Message}
use lxmax.Service.Linked.{Deletes, IsLinked}
use lxmax.Settings.Steps.{Step, run_steps, settle}
use lxmax.Settings.Saving.{run_steps-saved}
use lxmax.Service.Invariant.{HoldsValid}
use lxmax.Universe.Attributes.{Setting}
use lxmax.Settings.Loading.{ServiceSetting, Reading, service_new}
use lxmax.Settings.Startup.{service_new-IsReady}
use lxmax.Settings.Values.{clip}
use lxmax.Remote.Attributes.{
  AttrStyle, ConfigAttribute, config_attributes, config_attr_get, config_attr_set,
}
use lxmax.Remote.Attributes.Table.{config_attr_get-set}
use lxmax.Remote.Attributes.Kept.{config_attr_set-IsReady, config_attr_set-others}
use lxmax.Settings.Values.{
  attr_symbol, attr_long, attr_float64, no_clip, clip_double, Doubles, framerate_min, framerate_max,
}
use lxmax.Symbols.{
  global_config_max_framerate, global_config_sacn_sync_address,
  global_config_global_artnet_interface,
}
use lxmax.Tests.Remote.{empty-HoldsValid}
use lxmax.Tests.Fixture.{sys, tables, adapter, service}

-- A disk that takes every file.
abbrev files : Files
files = record {
  version_major = pos 1;
  version_minor = pos 0;
  version_bugfix = pos 0;
  dictionary_write = λ (p : Preferences) (old : Option Preferences). (err_none, some p);
  dictionary_write_lem = λ p old h. refl;
}

abbrev y0 : ServiceObject
y0 = record {
  service = service;
  is_initial_load_complete = true;
  save_pending = true;
  file = none;
  global_artnet_interface = network_adapter_to_sym sys.inet adapter;
  global_artnet_unicast_addresses = replicate 32 ip_zero;
  global_artnet_unicast_addresses_count = 0;
  artnet_sync_packets_enable = pos 1;
  global_sacn_interface = interface_ip_adapter_all;
  global_sacn_unicast_addresses = replicate 32 ip_zero;
  global_sacn_unicast_addresses_count = 0;
  sacn_sync_packets_enable = pos 1;
  sacn_sync_address = pos 1;
  max_framerate = 0x4046000000000000;
  allow_nondmx_framerate = pos 0;
  force_framerate = pos 0;
  output_empty_universes = pos 0;
}

y0-IsBound : IsBound sys y0
y0-IsBound = record { artnet_bound = refl; sacn_bound = refl }

abbrev target : IpAddress
target = record { a = 10; b = 0; c = 0; d = 7 }

target-IsIp : IsIp target
target-IsIp = record {
  a_lt = omega arith;
  b_lt = omega arith;
  c_lt = omega arith;
  d_lt = omega arith;
}

-- Two settings, the first clipped, a universe that is added and
-- one that is written, a refused quick patch, and a cleared table.
abbrev steps : List Step
steps =
    Step.queue
    ∷ Step.setting (ServiceSetting.set_sync_address (a_long (pos 70000) ∷ []))
    ∷ Step.setting (ServiceSetting.set_artnet_addresses (a_long (pos 3) ∷ []))
    ∷ Step.queue
    ∷ Step.message Message.add
    ∷ Step.message (Message.write (5 ∷ []) (Setting.priority (a_long (pos 7))))
    ∷ Step.message (Message.patch [])
    ∷ Step.message Message.clear
    ∷ []

tables-Deletes : Deletes tables
tables-Deletes t key h = absurd (ground (arith, h))

y0-IsLinked : IsLinked y0.service
y0-IsLinked k c found = absurd (ground (arith, found))

run_steps-saved_example :
    (settle sys tables files (run_steps sys tables files steps y0)).file
    ≡ some (preferences sys files (run_steps sys tables files steps y0))
run_steps-saved_example =
    run_steps-saved sys tables files steps y0 (λ p old. refl) tables-Deletes
      (record { loaded = refl; linked = y0-IsLinked; covered = inl refl })

-- A file with two universes and an interface.
abbrev stored_dictionary : List Entry × Option (List (List Entry))
stored_dictionary = ([], some ([] ∷ [] ∷ []))

abbrev reading : Reading
reading = record {
  dictionary_read = λ (file : Option Preferences). some stored_dictionary;
  config_settings = λ (dict : List Entry). Setting.priority (a_long (pos 7)) ∷ [];
  service_settings = λ (dict : List Entry).
      ServiceSetting.set_artnet_interface (a_sym (codes "en0"))
      ∷ ServiceSetting.set_sync_address (a_long (pos 9) ∷ [])
      ∷ [];
}

-- The object before its preferences are read.
abbrev y_new : ServiceObject
y_new = record y0 {
  is_initial_load_complete = false;
  service = record service {
    interfaces = record service.interfaces { global_artnet_adapter = none };
  };
}

service_new_example :
    HoldsValid (service_new sys tables reading files y_new).service.universes
    × IsBound sys (service_new sys tables reading files y_new)
service_new_example = service_new-IsReady sys tables reading files y_new refl refl

abbrev sync_address : ConfigAttribute
sync_address = record {
  name = global_config_sacn_sync_address;
  type = attr_long;
  range = clip (pos 1) (pos 63999);
  style = AttrStyle.plain;
  label = codes "sACN Sync Address";
  order = 4;
  category = codes "LXMax - sACN";
}

abbrev framerate : ConfigAttribute
framerate = record {
  name = global_config_max_framerate;
  type = attr_float64;
  range = clip_double framerate_min framerate_max;
  style = AttrStyle.plain;
  label = codes "Output Framerate";
  order = 1;
  category = codes "LXMax - Output";
}

abbrev artnet_interface : ConfigAttribute
artnet_interface = record {
  name = global_config_global_artnet_interface;
  type = attr_symbol;
  range = no_clip;
  style = AttrStyle.enum;
  label = codes "Global Art-Net Network Interface";
  order = 1;
  category = codes "LXMax - Art-Net";
}

abbrev double_of : Atom → ℕ
double_of (a_float d) = d
double_of _ = 0

abbrev clamp_bits : ℕ → ℕ → ℕ → ℕ
clamp_bits d lo hi = if ltb d lo then lo else min d hi

-- Positive doubles compare as their bit patterns.
abbrev doubles : Doubles
doubles = record {
  clamp_double = clamp_bits;
  store_double = λ (lo hi old : ℕ) (argv : List Atom). elim argv [
    | [] ↦ old
    | atom ∷ rest ↦ clamp_bits (double_of atom) lo hi
  ];
  store_double_lem = λ lo hi old d. refl;
}

-- The frame rate 50.
config_attr_get-set_example :
    config_attr_get sys
      (config_attr_set sys doubles y0 framerate (a_float 0x4049000000000000) [])
      framerate
    ≡ some (a_float framerate_max ∷ [])
unfolding config_attributes
config_attr_get-set_example =
    config_attr_get-set sys doubles y0 framerate (a_float 0x4049000000000000)
      (inr (inr (inr (inr (inr (inr (inr (inl refl)))))))) tt

config_attr_set-IsReady_example :
    HoldsValid
      (config_attr_set sys doubles y0 artnet_interface (a_sym (codes "en0")) []).service.universes
    × IsBound sys (config_attr_set sys doubles y0 artnet_interface (a_sym (codes "en0")) [])
config_attr_set-IsReady_example =
    config_attr_set-IsReady sys doubles y0 artnet_interface (a_sym (codes "en0")) []
      empty-HoldsValid y0-IsBound

config_attr_set-others_example :
    config_attr_get sys
      (config_attr_set sys doubles y0 artnet_interface (a_sym (codes "en0")) [])
      sync_address
    ≡ config_attr_get sys y0 sync_address
config_attr_set-others_example =
    config_attr_set-others sys doubles y0 artnet_interface sync_address (a_sym (codes "en0")) []
      (λ e. ground (arith, e))
