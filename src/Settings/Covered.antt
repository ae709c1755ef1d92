-- ===== src/Settings/Covered.antt =====
-- lx.service.cpp: a file that is up to date, or a save that is pending, whatever happens.
use lxmax.Common.{
  Bool-cases, ◌≡◌, ◌⊎◌, inl, inr, refl, ap, sym, subst, ◌∙◌, Bool, true, false, Option-cases, some,
  List, [], ◌∷◌, if◌then◌else◌, drop, length, suc, arith,
}
use lxmax.Max.{Symbol, System, a_long, a_float, a_sym, a_other, Hashtab}
use lxmax.Wire.Bytes.{drop_exact}
use lxmax.Universe.Config.{UniverseConfig, universe_config_new}
use lxmax.Service.{Tables, Service, Event, attach, detach, universes_updated}
use lxmax.Service.Announced.{
  Announced, announces, unchanged, universes_add-Announced, universes_remove-Announced,
  universes_clear-Announced,
}
use lxmax.Service.Linked.{
  attached_after, Deletes, IsLinked, universes_add-IsLinked, universes_remove-IsLinked,
  universes_clear-IsLinked,
}
use lxmax.Universe.Attributes.{Setting}
use lxmax.Remote.{add_universe, remove_universe, clear_universes, quick_patch}
use lxmax.Remote.Linked.{quick_patch-Announced, quick_patch-IsLinked, write-IsLinked, write-same}
use lxmax.Remote.Reach.{Message, add, clear, remove, patch, write, step, written, write_universe}
use lxmax.Settings.{
  ServiceObject, request_save, notify, global_artnet_unicast_addresses_get,
  global_sacn_unicast_addresses_get, global_artnet_interface_set, global_sacn_interface_set,
  find_global_artnet_interface, find_global_sacn_interface, global_artnet_unicast_addresses_set,
  global_sacn_unicast_addresses_set,
}
use lxmax.Settings.Loading.{
  ServiceSetting, set_artnet_interface, set_sacn_interface, set_artnet_addresses,
  set_sacn_addresses, set_artnet_sync, set_sacn_sync, set_sync_address, set_allow_nondmx,
  set_force_framerate, set_output_empty, set_max_framerate, service_attr_set,
}
use lxmax.Settings.Dictionary.{Files, preferences}
use lxmax.Settings.Steps.{notified, after_call, happen}

module _ (sys : System) (tables : Tables) (files : Files) where
  -- The preferences have been read, the service is attached to the configurations in its table, and
  -- the file holds the preferences as they are or a save is pending.
  pub record IsCovered (x : ServiceObject) : Type 0 where
    pub loaded : x.is_initial_load_complete ≡ true
    pub linked : IsLinked x.service
    pub covered : (x.save_pending ≡ true) ⊎ (x.file ≡ some (preferences sys files x))

  pub request-IsCovered :
      (x : ServiceObject)
      → x.is_initial_load_complete ≡ true
      → IsLinked x.service
      → IsCovered (request_save x)
  unfolding request_save
  request-IsCovered x l k =
      subst IsCovered (sym (ap (λ (b : Bool). if b then record x { save_pending = true } else x) l))
        (record { loaded = l; linked = k; covered = inl refl })

  pub setting-kept :
      (x : ServiceObject) (s : ServiceSetting)
      → IsLinked x.service
      → ((service_attr_set sys x s).is_initial_load_complete ≡ x.is_initial_load_complete)
        × IsLinked (service_attr_set sys x s).service
  unfolding service_attr_set global_artnet_interface_set global_sacn_interface_set
      find_global_artnet_interface find_global_sacn_interface global_artnet_unicast_addresses_set
      global_sacn_unicast_addresses_set
  setting-kept x (set_artnet_interface (a_sym s)) k = (refl, k)
  setting-kept x (set_artnet_interface (a_long n)) k = (refl, k)
  setting-kept x (set_artnet_interface (a_float n)) k = (refl, k)
  setting-kept x (set_artnet_interface (a_other n)) k = (refl, k)
  setting-kept x (set_sacn_interface (a_sym s)) k = (refl, k)
  setting-kept x (set_sacn_interface (a_long n)) k = (refl, k)
  setting-kept x (set_sacn_interface (a_float n)) k = (refl, k)
  setting-kept x (set_sacn_interface (a_other n)) k = (refl, k)
  setting-kept x (set_artnet_addresses argv) k = (refl, k)
  setting-kept x (set_sacn_addresses argv) k = (refl, k)
  setting-kept x (set_artnet_sync argv) k = (refl, k)
  setting-kept x (set_sacn_sync argv) k = (refl, k)
  setting-kept x (set_sync_address argv) k = (refl, k)
  setting-kept x (set_allow_nondmx argv) k = (refl, k)
  setting-kept x (set_force_framerate argv) k = (refl, k)
  setting-kept x (set_output_empty argv) k = (refl, k)
  setting-kept x (set_max_framerate argv) k = (refl, k)

  notified-IsCovered :
      (es : List Event) (x : ServiceObject) → IsCovered x → IsCovered (notified es x)
  unfolding notified notify
  notified-IsCovered [] x v = v
  notified-IsCovered (universes_updated ∷ es) x v =
      notified-IsCovered es (request_save x) (request-IsCovered x v.loaded v.linked)
  notified-IsCovered (attach s ∷ es) x v = notified-IsCovered es x v
  notified-IsCovered (detach s ∷ es) x v = notified-IsCovered es x v

  announced-IsCovered :
      (es : List Event) (x : ServiceObject)
      → x.is_initial_load_complete ≡ true
      → IsLinked x.service
      → announces es ≡ true
      → IsCovered (notified es x)
  unfolding notified notify
  announced-IsCovered [] x l k h = absurd (ground (arith, h))
  announced-IsCovered (universes_updated ∷ es) x l k h =
      notified-IsCovered es (request_save x) (request-IsCovered x l k)
  announced-IsCovered (attach s ∷ es) x l k h = announced-IsCovered es x l k h
  announced-IsCovered (detach s ∷ es) x l k h = announced-IsCovered es x l k h

  -- The preferences depend on the service by its table only.
  preferences-same :
      (x : ServiceObject) (s : Service)
      → s.universes ≡ x.service.universes
      → preferences sys files (record x { service = s }) ≡ preferences sys files x
  unfolding preferences global_artnet_unicast_addresses_get global_sacn_unicast_addresses_get
  preferences-same x s e =
      ap
        (λ (t : Hashtab UniverseConfig).
          preferences sys files (record x { service = record s { universes = t } }))
        e

  after_call-IsCovered :
      (x : ServiceObject) (s : Service)
      → Announced x.service s
      → IsLinked s
      → IsCovered x
      → IsCovered (after_call sys tables files x s)
  unfolding after_call
  after_call-IsCovered x s p k v =
      let new : drop (length x.service.events) s.events ≡ p.sent =
        ap (drop (length x.service.events)) p.sent_after
        ∙ drop_exact (length x.service.events) x.service.events p.sent refl in
      subst (λ es. IsCovered (notified es (record x { service = s }))) (sym new)
        (elim p.told [
          | inr told ↦ announced-IsCovered p.sent (record x { service = s }) v.loaded k told
          | inl same ↦
              notified-IsCovered p.sent (record x { service = s })
                (record {
                  loaded = v.loaded;
                  linked = k;
                  covered = elim v.covered [
                    | inl pending ↦ inl pending
                    | inr written ↦ inr (written ∙ ap some (sym (preferences-same x s same)))
                  ];
                })
        ])

  write-IsCovered :
      (x : ServiceObject) (name : Symbol) (s : Setting)
      → IsCovered x
      → IsCovered (happen sys tables files (write name s) x)
  unfolding happen notify
  write-IsCovered x name s v =
      let w = write_universe sys tables x.service name s in
      let k : IsLinked w = write-IsLinked sys tables x.service name s v.linked in
      elim (Bool-cases (attached_after name false x.service.events)) [
        | inl here ↦ rw (here, happen) (request-IsCovered (record x { service = w }) v.loaded k)
        | inr away ↦
            rw (away, happen)
              (record {
                loaded = v.loaded;
                linked = k;
                covered = elim v.covered [
                  | inl pending ↦ inl pending
                  | inr file ↦ inr (
                      file
                      ∙ ap some (
                          sym (
                            preferences-same x w
                              (write-same sys tables x.service name s v.linked away))))
                ];
              })
      ]

  pub happen-IsCovered :
      (m : Message) (x : ServiceObject)
      → Deletes tables
      → IsCovered x
      → IsCovered (happen sys tables files m x)
  unfolding happen step add_universe remove_universe clear_universes quick_patch
  happen-IsCovered add x deletes v =
      let named = record x.service { names_used = suc x.service.names_used } in
      let c = universe_config_new (tables.unique x.service.names_used) in
      let p = universes_add-Announced tables named c in
      after_call-IsCovered x _ (record { sent = p.sent; sent_after = p.sent_after; told = p.told })
        (universes_add-IsLinked tables named c v.linked) v
  happen-IsCovered clear x deletes v =
      after_call-IsCovered x _ (universes_clear-Announced tables x.service)
        (universes_clear-IsLinked tables x.service) v
  happen-IsCovered (remove name) x deletes v =
      elim (Option-cases (x.service.universes.lookup name)) [
        | inl missing ↦
            after_call-IsCovered x _ (rw (missing, remove_universe) (unchanged x.service))
              (rw (missing, remove_universe) v.linked) v
        | inr (c, found) ↦
            after_call-IsCovered x _
              (rw (found, remove_universe) (universes_remove-Announced tables x.service c))
              (rw (found, remove_universe)
                (universes_remove-IsLinked tables x.service c deletes v.linked))
              v
      ]
  happen-IsCovered (patch argv) x deletes v =
      after_call-IsCovered x _ (quick_patch-Announced sys tables x.service _)
        (quick_patch-IsLinked sys tables x.service _ v.linked) v
  happen-IsCovered (write name s) x deletes v = write-IsCovered x name s v
