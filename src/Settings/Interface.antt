-- ===== src/Settings/Interface.antt =====
-- lx.service.cpp: the interfaces of the settings and their adapters.
use lxmax.Common.{◌≡◌, inl, inr, refl, Bool-cases, Option-cases, Option, some, none}
use lxmax.Max.{System, Symbol, sym_eq, sym_eq_iff, Atom, a_long, a_float, a_sym, a_other, Hashtab}
use lxmax.Symbols.{interface_ip_adapter_all}
use lxmax.Net.Adapter.{NetworkAdapter, network_adapter_find, network_adapter_to_sym}
use lxmax.Settings.{
  ServiceObject, find_global, find_global_artnet_interface, find_global_sacn_interface,
  global_artnet_interface_set, global_sacn_interface_set,
}

module _ (sys : System) where
  -- An interface and the adapter that it stands for: all of them, or the one whose text it is.
  abbrev pub Bound : Symbol → Option NetworkAdapter → Type 0
  Bound s none = s ≡ interface_ip_adapter_all
  Bound s (some a) = s ≡ network_adapter_to_sym sys.inet a

  -- Both interfaces of the settings.
  pub record IsBound (x : ServiceObject) : Type 0 where
    pub artnet_bound : Bound x.global_artnet_interface x.service.interfaces.global_artnet_adapter
    pub sacn_bound : Bound x.global_sacn_interface x.service.interfaces.global_sacn_adapter

  pub find_global-Bound :
      (adapters : Hashtab NetworkAdapter) (s : Symbol)
      → Bound ((find_global sys adapters s).0) ((find_global sys adapters s).1)
  unfolding find_global
  find_global-Bound adapters s = elim (Bool-cases (sym_eq s interface_ip_adapter_all)) [
    | inl e ↦ rw e ((sym_eq_iff s interface_ip_adapter_all).0 e)
    | inr e ↦ elim (Option-cases ((network_adapter_find sys.inet adapters s none).1)) [
      | inl f ↦ rw (e, f) refl
      | inr (a, f) ↦ rw (e, f) refl
    ]
  ]

  -- Setting either interface, by any atom, keeps both bound to their adapters: afterwards each is
  -- "All (0.0.0.0)" with no adapter, or the text of its adapter.
  pub interface_set-IsBound :
      (x : ServiceObject) (atom : Atom)
      → IsBound x
      → IsBound (global_artnet_interface_set sys x atom)
        × IsBound (global_sacn_interface_set sys x atom)
  unfolding global_artnet_interface_set global_sacn_interface_set find_global_artnet_interface
      find_global_sacn_interface
  interface_set-IsBound x (a_sym s) v =
      let b = find_global-Bound x.service.interfaces.network_adapters s in
      (
        record { artnet_bound = b; sacn_bound = v.sacn_bound },
        record { artnet_bound = v.artnet_bound; sacn_bound = b },
      )
  interface_set-IsBound x (a_long n) v = (v, v)
  interface_set-IsBound x (a_float n) v = (v, v)
  interface_set-IsBound x (a_other n) v = (v, v)
