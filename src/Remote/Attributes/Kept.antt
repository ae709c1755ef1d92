-- ===== src/Remote/Attributes/Kept.antt =====
-- lx.config.c: what a write to an attribute of lx.config leaves as it is.
use lxmax.Common.{
  ◌≡◌, ◌≢◌, refl, sym, subst, ◌∙◌, Bool-cases, Option-cases, inl, inr, true, List, some, arith,
}
use lxmax.Max.{System, Symbol, sym_eq, sym_eq_iff, Atom}
use lxmax.Service.Invariant.{HoldsValid}
use lxmax.Settings.{
  ServiceObject, global_artnet_unicast_addresses_set, global_sacn_unicast_addresses_set,
}
use lxmax.Settings.Interface.{IsBound, interface_set-IsBound}
use lxmax.Settings.Startup.{universes-service_attr_set}
use lxmax.Settings.Loading.{
  ServiceSetting, set_artnet_interface, set_sacn_interface, set_artnet_addresses,
  set_sacn_addresses, set_artnet_sync, set_sacn_sync, set_sync_address, set_allow_nondmx,
  set_force_framerate, set_output_empty, set_max_framerate, service_attr_set,
}
use lxmax.Settings.Values.{Doubles, setting_of, service_setvalueof}
use lxmax.Settings.Frame.{name_set, service_attr_set-others}
use lxmax.Remote.Attributes.{ConfigAttribute, config_attr_get, config_attr_set}

module _ (sys : System) where
  service_attr_set-IsBound :
      (x : ServiceObject) (s : ServiceSetting)
      → IsBound sys x
      → IsBound sys (service_attr_set sys x s)
  unfolding service_attr_set global_artnet_unicast_addresses_set global_sacn_unicast_addresses_set
  service_attr_set-IsBound x (set_artnet_interface first) v =
      (interface_set-IsBound sys x first v).0
  service_attr_set-IsBound x (set_sacn_interface first) v = (interface_set-IsBound sys x first v).1
  service_attr_set-IsBound x (set_artnet_addresses argv) v = record {
    artnet_bound = v.artnet_bound;
    sacn_bound = v.sacn_bound;
  }
  service_attr_set-IsBound x (set_sacn_addresses argv) v = record {
    artnet_bound = v.artnet_bound;
    sacn_bound = v.sacn_bound;
  }
  service_attr_set-IsBound x (set_artnet_sync argv) v = record {
    artnet_bound = v.artnet_bound;
    sacn_bound = v.sacn_bound;
  }
  service_attr_set-IsBound x (set_sacn_sync argv) v = record {
    artnet_bound = v.artnet_bound;
    sacn_bound = v.sacn_bound;
  }
  service_attr_set-IsBound x (set_sync_address argv) v = record {
    artnet_bound = v.artnet_bound;
    sacn_bound = v.sacn_bound;
  }
  service_attr_set-IsBound x (set_allow_nondmx argv) v = record {
    artnet_bound = v.artnet_bound;
    sacn_bound = v.sacn_bound;
  }
  service_attr_set-IsBound x (set_force_framerate argv) v = record {
    artnet_bound = v.artnet_bound;
    sacn_bound = v.sacn_bound;
  }
  service_attr_set-IsBound x (set_output_empty argv) v = record {
    artnet_bound = v.artnet_bound;
    sacn_bound = v.sacn_bound;
  }
  service_attr_set-IsBound x (set_max_framerate d) v = record {
    artnet_bound = v.artnet_bound;
    sacn_bound = v.sacn_bound;
  }

  module _ (doubles : Doubles) where
    name-setting_of :
        (x : ServiceObject) (name : Symbol) (first : Atom) (rest : List Atom) (s : ServiceSetting)
        → setting_of doubles x name first rest ≡ some s
        → sym_eq name (name_set s) ≡ true
    unfolding setting_of
    name-setting_of x name first rest s h = ground (arith, h)

    -- If every entry of the table of universes is a valid configuration under its own name, and both
    -- interfaces are bound to their adapters, this is so after any atoms are written to any attribute
    -- of lx.config.
    pub config_attr_set-IsReady :
        (x : ServiceObject) (attr : ConfigAttribute) (first : Atom) (rest : List Atom)
        → HoldsValid x.service.universes
        → IsBound sys x
        → HoldsValid (config_attr_set sys doubles x attr first rest).service.universes
          × IsBound sys (config_attr_set sys doubles x attr first rest)
    unfolding config_attr_set service_setvalueof
    config_attr_set-IsReady x attr first rest h v =
        elim (Option-cases (setting_of doubles x attr.name first rest)) [
          | inl e ↦ rw (e, config_attr_set, service_setvalueof) (h, v)
          | inr (s, e) ↦
              rw (e, config_attr_set, service_setvalueof)
                (
                  subst HoldsValid (sym (universes-service_attr_set sys x s)) h,
                  service_attr_set-IsBound x s v,
                )
        ]

    -- Writing any atoms to an attribute of lx.config leaves what is read of all attributes of other
    -- names.
    pub config_attr_set-others :
        (x : ServiceObject) (attr other : ConfigAttribute) (first : Atom) (rest : List Atom)
        → other.name ≢ attr.name
        → config_attr_get sys (config_attr_set sys doubles x attr first rest) other
          ≡ config_attr_get sys x other
    unfolding config_attr_get config_attr_set service_setvalueof
    config_attr_set-others x attr other first rest differ =
        elim (Option-cases (setting_of doubles x attr.name first rest)) [
          | inl e ↦ rw (e, config_attr_set, service_setvalueof) refl
          | inr (s, e) ↦
              let named : attr.name ≡ name_set s =
                (sym_eq_iff _ _).0 (name-setting_of x attr.name first rest s e) in
              elim (Bool-cases (sym_eq other.name (name_set s))) [
                | inl same ↦ absurd (differ ((sym_eq_iff _ _).0 same ∙ sym named))
                | inr apart ↦
                    rw (e, config_attr_set, service_setvalueof)
                      (service_attr_set-others sys x s other.name apart)
              ]
        ]
