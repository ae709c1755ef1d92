-- ===== src/Settings/Saving.antt =====
-- lx.service.cpp: when the preferences are written.
use lxmax.Common.{
  ◌≡◌, inl, inr, refl, ap, sym, subst, ◌∙◌, Bool, true, false, Bool-cases, Option, some, List, [],
  ◌∷◌, if◌then◌else◌,
}
use lxmax.Max.{System, err_none}
use lxmax.Service.{Tables}
use lxmax.Settings.{
  ServiceObject, Preferences, notify, global_artnet_unicast_addresses_get,
  global_sacn_unicast_addresses_get,
}
use lxmax.Settings.Loading.{service_attr_set}
use lxmax.Settings.Dictionary.{Files, preferences, preferences_save, qelem_save}
use lxmax.Service.Linked.{IsLinked, Deletes}
use lxmax.Settings.Steps.{Step, setting, message, queue, happen, settle, run_steps}
use lxmax.Settings.Covered.{IsCovered, request-IsCovered, setting-kept, happen-IsCovered}

module _ (sys : System) (tables : Tables) (files : Files) where
  -- `dictionary_write` returns no error.
  abbrev pub Writes : Type 0
  Writes =
      (p : Preferences) (old : Option Preferences) → (files.dictionary_write p old).0 ≡ err_none

  qelem_save-file :
      (x : ServiceObject)
      → Writes
      → ((qelem_save sys files x).file ≡ some (preferences sys files x))
        × (preferences sys files (qelem_save sys files x) ≡ preferences sys files x)
        × ((qelem_save sys files x).is_initial_load_complete ≡ x.is_initial_load_complete)
        × ((qelem_save sys files x).service ≡ x.service)
  unfolding qelem_save preferences_save preferences global_artnet_unicast_addresses_get
      global_sacn_unicast_addresses_get
  qelem_save-file x w = (
    files.dictionary_write_lem (preferences sys files x) x.file
        (w (preferences sys files x) x.file),
    refl,
    refl,
    refl,
  )

  settle-pending :
      (x : ServiceObject)
      → x.save_pending ≡ true
      → settle sys tables files x ≡ qelem_save sys files x
  unfolding settle
  settle-pending x e = ap (λ (b : Bool). if b then qelem_save sys files x else x) e

  settle-idle : (x : ServiceObject) → x.save_pending ≡ false → settle sys tables files x ≡ x
  unfolding settle
  settle-idle x e = ap (λ (b : Bool). if b then qelem_save sys files x else x) e

  -- The run of the queue writes the preferences as they are, and changes none of them.
  settle-file :
      (x : ServiceObject)
      → Writes
      → IsCovered sys tables files x
      → ((settle sys tables files x).file ≡ some (preferences sys files x))
        × IsCovered sys tables files (settle sys tables files x)
  settle-file x w v = elim (Bool-cases x.save_pending) [
    | inl e ↦
        let q = qelem_save-file x w in
        subst
          (λ (y : ServiceObject).
            (y.file ≡ some (preferences sys files x)) × IsCovered sys tables files y)
          (sym (settle-pending x e))
          (
            q.0,
            record {
              loaded = q.2 ∙ v.loaded;
              linked = subst IsLinked (sym q.3) v.linked;
              covered = inr (q.0 ∙ ap some (sym q.1));
            },
          )
    | inr e ↦
        subst
          (λ (y : ServiceObject).
            (y.file ≡ some (preferences sys files x)) × IsCovered sys tables files y)
          (sym (settle-idle x e)) (elim v.covered [ inl p ↦ cc (p, e) | inr f ↦ f ], v)
  ]

  run_steps-IsCovered :
      (steps : List Step) (x : ServiceObject)
      → Writes
      → Deletes tables
      → IsCovered sys tables files x
      → IsCovered sys tables files (run_steps sys tables files steps x)
  unfolding run_steps notify
  run_steps-IsCovered [] x w deletes v = v
  run_steps-IsCovered (setting s ∷ steps) x w deletes v =
      let kept = setting-kept sys tables files x s v.linked in
      run_steps-IsCovered steps _ w deletes
        (request-IsCovered sys tables files (service_attr_set sys x s) (kept.0 ∙ v.loaded) kept.1)
  run_steps-IsCovered (message m ∷ steps) x w deletes v =
      run_steps-IsCovered steps (happen sys tables files m x) w deletes
        (happen-IsCovered sys tables files m x deletes v)
  run_steps-IsCovered (queue ∷ steps) x w deletes v =
      run_steps-IsCovered steps (settle sys tables files x) w deletes ((settle-file x w v).1)

  -- If writing the file succeeds and the table deletes every key that it has, then after any sequence
  -- of writes to attributes of the service object and of stored configurations, messages to
  -- `lx.config` and runs of the queue, the next run of the queue leaves in the file the preferences as
  -- they then are. At the start the preferences have been read, the service is attached to the
  -- configurations in its table, and the file is up to date or a save is pending.
  pub run_steps-saved :
      (steps : List Step) (x : ServiceObject)
      → Writes
      → Deletes tables
      → IsCovered sys tables files x
      → ((settle sys tables files (run_steps sys tables files steps x)).file
          ≡ some (preferences sys files (run_steps sys tables files steps x)))
  run_steps-saved steps x w deletes v =
      let r = run_steps-IsCovered steps x w deletes v in
      (settle-file (run_steps sys tables files steps x) w r).0
