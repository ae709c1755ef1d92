-- ===== src/Tests/Restored.antt =====
-- An instance for a configuration that is stored and read back.
use lxmax.Common.{
  ◌∷◌, ◌++◌, ◌↔◌, In, ◌≡◌, pos, refl, List, [], Option, none, inl, inr, replicate, arith,
}
use lxmax.Max.{codes}
use lxmax.Symbols.{sacn_mode_multicast, interface_ip_adapter_global, sym_nothing}
use lxmax.Universe.Kinds.{
  input, sacn, universe_type_to_sym, universe_type_get_list, universe_protocol_mode_get_list,
}
use lxmax.Universe.Config.{UniverseConfig, universe_config_new, ip_zero}
use lxmax.Universe.Invariant.{IsValid}
use lxmax.Universe.Invariant.History.{attr_set_all}
use lxmax.Universe.Attributes.{Setting}
use lxmax.Settings.{Entry, Preferences}
use lxmax.Settings.Dictionary.{universe_config_to_dictionary}
use lxmax.Settings.Loading.{Reading}
use lxmax.Settings.Writes.{all_writes}
use lxmax.Settings.Restored.{restored_fields, restored_in_order}
use lxmax.Tests.Fixture.{sys, interfaces}

-- The first write comes last.
abbrev rotated : List Setting → List Setting
rotated [] = []
rotated (s ∷ settings) = settings ++ (s ∷ [])

In-rotated :
    (settings : List Setting) (s r : Setting) → In r (settings ++ (s ∷ [])) → In r (s ∷ settings)
In-rotated [] s r i = i
In-rotated (u ∷ settings) s r (inl e) = inr (inl e)
In-rotated (u ∷ settings) s r (inr i) = elim (In-rotated settings s r i) [
  | inl e ↦ inl e
  | inr j ↦ inr (inr j)
]

rotated-In :
    (settings : List Setting) (s r : Setting) → In r (s ∷ settings) → In r (settings ++ (s ∷ []))
rotated-In [] s r i = i
rotated-In (u ∷ settings) s r (inl e) = inr (rotated-In settings s r (inl e))
rotated-In (u ∷ settings) s r (inr (inl e)) = inl e
rotated-In (u ∷ settings) s r (inr (inr j)) = inr (rotated-In settings s r (inr j))

rotated_iff : (settings : List Setting) (r : Setting) → In r (rotated settings) ↔ In r settings
rotated_iff [] r = (λ i. i, λ i. i)
rotated_iff (s ∷ settings) r = (In-rotated settings s r, rotated-In settings s r)

abbrev label_last : Reading
label_last = record {
  dictionary_read = λ (file : Option Preferences). none;
  config_settings = λ (dict : List Entry). rotated (all_writes dict);
  service_settings = λ (dict : List Entry). [];
}

abbrev c0 : UniverseConfig
c0 = record {
  name = codes "stage";
  adapter = none;
  serial_port = none;
  label = codes "front";
  type = input;
  enable = pos 0;
  protocol = sacn;
  protocol_mode = sacn_mode_multicast;
  protocol_interface = interface_ip_adapter_global;
  internal_universe = pos 3;
  protocol_universe = pos 7;
  priority = pos 150;
  unicast_addresses = replicate 32 ip_zero;
  unicast_addresses_count = 0;
  status = sym_nothing;
}

c0-IsValid : IsValid c0
unfolding universe_type_to_sym universe_type_get_list universe_protocol_mode_get_list
c0-IsValid = record {
  type_offered = inr (inl refl);
  mode_offered = inl refl;
  universe_range = omega arith;
  enable_range = omega arith;
  internal_range = omega arith;
  priority_range = omega arith;
  slots = refl;
  count_fits = omega arith;
}

restored_example :
    let y =
      attr_set_all sys interfaces
        (universe_config_new (codes "u9"))
        (label_last.config_settings (universe_config_to_dictionary sys c0)) in
    (y.name ≡ codes "u9")
    × (y.label ≡ c0.label)
    × (y.type ≡ c0.type)
    × (y.enable ≡ c0.enable)
    × (y.protocol ≡ c0.protocol)
    × (y.internal_universe ≡ c0.internal_universe)
restored_example =
    restored_fields sys label_last interfaces c0 (codes "u9") c0-IsValid
      (λ dict s. rotated_iff (all_writes dict) s)

restored_in_order_example :
    let y =
      attr_set_all sys interfaces
        (universe_config_new (codes "u9"))
        (all_writes (universe_config_to_dictionary sys c0)) in
    (y.name ≡ codes "u9")
    × (y.label ≡ c0.label)
    × (y.type ≡ c0.type)
    × (y.enable ≡ c0.enable)
    × (y.protocol ≡ c0.protocol)
    × (y.protocol_mode ≡ c0.protocol_mode)
    × (y.internal_universe ≡ c0.internal_universe)
    × (y.protocol_universe ≡ c0.protocol_universe)
    × (y.priority ≡ pos 150)
restored_in_order_example = restored_in_order sys interfaces c0 (codes "u9") c0-IsValid
