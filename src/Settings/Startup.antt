-- ===== src/Settings/Startup.antt =====
-- lx.service.cpp: what holds of the service object once it is made.
use lxmax.Common.{
  ◌≡◌, refl, sym, ◌∙◌, ap, subst, List, [], ◌∷◌, Option, none, some, Option-cases, inl, inr, suc,
}
use lxmax.Max.{System, a_long, a_float, a_sym, a_other}
use lxmax.Universe.Config.{UniverseConfig, Interfaces, universe_config_new}
use lxmax.Universe.Invariant.{universe_config_new-IsValid}
use lxmax.Universe.Invariant.History.{history-IsValid}
use lxmax.Service.{Tables, Service, universes_add, universes_clear}
use lxmax.Service.Invariant.{HoldsValid, universes-HoldsValid}
use lxmax.Settings.{
  Entry, ServiceObject, find_global_artnet_interface, find_global_sacn_interface,
  global_artnet_interface_set, global_sacn_interface_set, global_artnet_unicast_addresses_set,
  global_sacn_unicast_addresses_set, preferences_clear,
}
use lxmax.Settings.Dictionary.{Files, preferences_save}
use lxmax.Settings.Interface.{Bound, IsBound, find_global-Bound}
use lxmax.Settings.Loading.{
  ServiceSetting, set_artnet_interface, set_sacn_interface, set_artnet_addresses,
  set_sacn_addresses, set_artnet_sync, set_sacn_sync, set_sync_address, set_allow_nondmx,
  set_force_framerate, set_output_empty, set_max_framerate, Reading, service_attr_set,
  service_attr_set_all, load_universes, load_table, preferences_load, service_new,
}

module _ (tables : Tables) where
  cleared-HoldsValid : (x : Service) → HoldsValid (universes_clear tables x).universes
  unfolding universes_clear
  cleared-HoldsValid x k d found = cc (tables.hashtab_clear_lem x.universes k, found)

  interfaces-universes_add :
      (x : Service) (c : UniverseConfig) → (universes_add tables x c).interfaces ≡ x.interfaces
  unfolding universes_add
  interfaces-universes_add x c = elim (Option-cases (tables.hashtab_store x.universes c.name c)) [
    | inl e ↦ rw (e, universes_add) refl
    | inr (t, e) ↦ rw (e, universes_add) refl
  ]

  preferences_clear-HoldsValid :
      (x : ServiceObject) → HoldsValid (preferences_clear tables x).service.universes
  unfolding preferences_clear universes_clear
  preferences_clear-HoldsValid x =
      let cleared = universes_clear tables x.service in
      (universes-HoldsValid tables (record cleared { names_used = suc cleared.names_used })
        (universe_config_new (tables.unique cleared.names_used))
        (universe_config_new-IsValid (tables.unique cleared.names_used))
        (cleared-HoldsValid x.service)).0

  -- The interfaces of the service are left as they are.
  interfaces-preferences_clear :
      (x : ServiceObject) → (preferences_clear tables x).service.interfaces ≡ x.service.interfaces
  unfolding preferences_clear universes_clear
  interfaces-preferences_clear x =
      let cleared = universes_clear tables x.service in
      interfaces-universes_add (record cleared { names_used = suc cleared.names_used })
        (universe_config_new (tables.unique cleared.names_used))

module _ (sys : System) where
  pub universes-service_attr_set :
      (x : ServiceObject) (s : ServiceSetting)
      → (service_attr_set sys x s).service.universes ≡ x.service.universes
  unfolding service_attr_set global_artnet_interface_set global_sacn_interface_set
      find_global_artnet_interface find_global_sacn_interface global_artnet_unicast_addresses_set
      global_sacn_unicast_addresses_set
  universes-service_attr_set x (set_artnet_interface (a_sym s)) = refl
  universes-service_attr_set x (set_artnet_interface (a_long n)) = refl
  universes-service_attr_set x (set_artnet_interface (a_float n)) = refl
  universes-service_attr_set x (set_artnet_interface (a_other n)) = refl
  universes-service_attr_set x (set_sacn_interface (a_sym s)) = refl
  universes-service_attr_set x (set_sacn_interface (a_long n)) = refl
  universes-service_attr_set x (set_sacn_interface (a_float n)) = refl
  universes-service_attr_set x (set_sacn_interface (a_other n)) = refl
  universes-service_attr_set x (set_artnet_addresses argv) = refl
  universes-service_attr_set x (set_sacn_addresses argv) = refl
  universes-service_attr_set x (set_artnet_sync argv) = refl
  universes-service_attr_set x (set_sacn_sync argv) = refl
  universes-service_attr_set x (set_sync_address argv) = refl
  universes-service_attr_set x (set_allow_nondmx argv) = refl
  universes-service_attr_set x (set_force_framerate argv) = refl
  universes-service_attr_set x (set_output_empty argv) = refl
  universes-service_attr_set x (set_max_framerate d) = refl

  universes-service_attr_set_all :
      (x : ServiceObject) (settings : List ServiceSetting)
      → (service_attr_set_all sys x settings).service.universes ≡ x.service.universes
  unfolding service_attr_set_all
  universes-service_attr_set_all x [] = refl
  universes-service_attr_set_all x (s ∷ settings) =
      universes-service_attr_set_all (service_attr_set sys x s) settings
      ∙ universes-service_attr_set x s

  found-IsBound :
      (x : ServiceObject)
      → IsBound sys (find_global_sacn_interface sys (find_global_artnet_interface sys x))
  unfolding find_global_artnet_interface find_global_sacn_interface
  found-IsBound x =
      let adapters = x.service.interfaces.network_adapters in
      record {
        artnet_bound = find_global-Bound sys adapters x.global_artnet_interface;
        sacn_bound = find_global-Bound sys adapters x.global_sacn_interface;
      }

module _ (sys : System) (tables : Tables) where
  preferences_clear-IsBound :
      (x : ServiceObject)
      → x.service.interfaces.global_artnet_adapter ≡ none
      → x.service.interfaces.global_sacn_adapter ≡ none
      → IsBound sys (preferences_clear tables x)
  unfolding preferences_clear
  preferences_clear-IsBound x a s =
      let kept = interfaces-preferences_clear tables x in
      let a0 = ap (λ (i : Interfaces). i.global_artnet_adapter) kept ∙ a in
      let s0 = ap (λ (i : Interfaces). i.global_sacn_adapter) kept ∙ s in
      record {
        artnet_bound =
            subst (Bound sys ((preferences_clear tables x).global_artnet_interface)) (sym a0) refl;
        sacn_bound =
            subst (Bound sys ((preferences_clear tables x).global_sacn_interface)) (sym s0) refl;
      }

  module _ (reading : Reading) where
    load_universes-HoldsValid :
        (dicts : List (List Entry)) (x : Service)
        → HoldsValid x.universes
        → HoldsValid (load_universes sys tables reading dicts x).universes
    unfolding load_universes
    load_universes-HoldsValid [] x h = h
    load_universes-HoldsValid (dict ∷ dicts) x h =
        load_universes-HoldsValid dicts _
          (universes-HoldsValid tables (record x { names_used = suc x.names_used }) _
            (history-IsValid sys x.interfaces (tables.unique x.names_used)
              (reading.config_settings dict))
            h).0

    load_table-HoldsValid :
        (r : Option (List (List Entry))) (x : ServiceObject)
        → HoldsValid x.service.universes
        → HoldsValid (load_table sys tables reading r x).service.universes
    unfolding load_table
    load_table-HoldsValid none x h = h
    load_table-HoldsValid (some dicts) x h =
        load_universes-HoldsValid dicts (universes_clear tables x.service)
          (cleared-HoldsValid tables x.service)

    -- If every entry of the table is a valid configuration under its own name, and both interfaces
    -- are bound to their adapters, this is so after the preferences are read, whatever the file
    -- holds and also where it cannot be read.
    pub preferences_load-IsReady :
        (x : ServiceObject)
        → HoldsValid x.service.universes
        → IsBound sys x
        → HoldsValid ((preferences_load sys tables reading x).1).service.universes
          × IsBound sys ((preferences_load sys tables reading x).1)
    unfolding preferences_load find_global_artnet_interface find_global_sacn_interface
    preferences_load-IsReady x h b = elim (Option-cases (reading.dictionary_read x.file)) [
      | inl e ↦ rw (e, preferences_load) (h, b)
      | inr (dict, e) ↦
          let loaded = load_table sys tables reading dict.1 x in
          let settings = reading.service_settings dict.0 in
          rw (e, preferences_load)
            (
              subst HoldsValid (sym (universes-service_attr_set_all sys loaded settings))
                  (load_table-HoldsValid dict.1 x h),
              found-IsBound sys (service_attr_set_all sys loaded settings),
            )
    ]

    -- A service object that starts without adapters has, once it is made, only valid configurations
    -- in its table, each under its own name, and both interfaces bound to their adapters, whatever
    -- the file of the preferences holds.
    pub service_new-IsReady :
        (files : Files) (x : ServiceObject)
        → x.service.interfaces.global_artnet_adapter ≡ none
        → x.service.interfaces.global_sacn_adapter ≡ none
        → HoldsValid (service_new sys tables reading files x).service.universes
          × IsBound sys (service_new sys tables reading files x)
    unfolding service_new preferences_save
    service_new-IsReady files x a s =
        let r =
          preferences_load-IsReady (preferences_clear tables x)
            (preferences_clear-HoldsValid tables x) (preferences_clear-IsBound x a s) in
        (r.0, record { artnet_bound = r.1.artnet_bound; sacn_bound = r.1.sacn_bound })
