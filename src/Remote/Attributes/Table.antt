-- ===== src/Remote/Attributes/Table.antt =====
-- lx.config.c: the attributes of lx.config and those of the service object.
use lxmax.Common.{All-In, ℕ, ◌≡◌, refl, ap, [], ◌∷◌, map, some, ℤ, pos, In, All}
use lxmax.Max.{System, sym_eq, Atom, a_long, a_float, a_sym, a_other}
use lxmax.Settings.{ServiceObject}
use lxmax.Settings.Loading.{service_attr_set}
use lxmax.Settings.Values.{
  Clip, clip, clip_double, Doubles, framerate_min, framerate_max, service_attributes, setting_of,
  service_setvalueof, service_getvalueof,
}
use lxmax.Remote.Attributes.{ConfigAttribute, config_attributes, config_attr_get, config_attr_set}

-- Both classes have the same attributes, of the same types and with the same clips.
pub config_attributes-service_attributes :
    map (λ (a : ConfigAttribute). (a.name, a.type, a.range)) config_attributes ≡ service_attributes
unfolding config_attributes service_attributes
config_attributes-service_attributes = refl

-- An atom of the kind of number that a range is for, and what is read back of it.
abbrev pub Fits : Clip → Atom → Type 0
Fits (clip lo hi) (a_long n) = Unit {0}
Fits (clip_double lo hi) (a_float d) = Unit {0}
Fits _ _ = ⊥

module _ (sys : System) (doubles : Doubles) where
  abbrev pub clipped : Clip → Atom → Atom
  clipped (clip lo hi) (a_long n) = a_long (sys.max.clamp n lo hi)
  clipped (clip_double lo hi) (a_float d) = a_float (doubles.clamp_double d lo hi)
  clipped _ atom = atom

  stored-clip :
      (lo hi old : ℤ) (atom : Atom)
      → Fits (clip lo hi) atom
      → some (a_long (sys.max.store_clip lo hi old (atom ∷ [])) ∷ [])
        ≡ some (clipped (clip lo hi) atom ∷ [])
  stored-clip lo hi old (a_long n) h =
      ap (λ (v : ℤ). some (a_long v ∷ [])) (sys.max.store_clip_lem lo hi old n)
  stored-clip lo hi old (a_float d) h = absurd h
  stored-clip lo hi old (a_sym s) h = absurd h
  stored-clip lo hi old (a_other n) h = absurd h

  stored-clip_double :
      (lo hi old : ℕ) (atom : Atom)
      → Fits (clip_double lo hi) atom
      → some (a_float (doubles.store_double lo hi old (atom ∷ [])) ∷ [])
        ≡ some (clipped (clip_double lo hi) atom ∷ [])
  stored-clip_double lo hi old (a_float d) h =
      ap (λ (v : ℕ). some (a_float v ∷ [])) (doubles.store_double_lem lo hi old d)
  stored-clip_double lo hi old (a_long n) h = absurd h
  stored-clip_double lo hi old (a_sym s) h = absurd h
  stored-clip_double lo hi old (a_other n) h = absurd h

  -- What is read back of a number.
  abbrev ReadsBack : ServiceObject → ConfigAttribute → Type 0
  ReadsBack x attr =
      (atom : Atom)
      → Fits attr.range atom
      → config_attr_get sys (config_attr_set sys doubles x attr atom []) attr
        ≡ some (clipped attr.range atom ∷ [])

  config_attributes-ReadsBack : (x : ServiceObject) → All (ReadsBack x) config_attributes
  unfolding config_attributes config_attr_get config_attr_set service_setvalueof setting_of
      service_attr_set service_getvalueof sym_eq
  config_attributes-ReadsBack x = (
    λ atom h. absurd h,
    (
      λ atom h. absurd h,
      (
        stored-clip (pos 0) (pos 1) x.artnet_sync_packets_enable,
        (
          λ atom h. absurd h,
          (
            λ atom h. absurd h,
            (
              stored-clip (pos 0) (pos 1) x.sacn_sync_packets_enable,
              (
                stored-clip (pos 1) (pos 63999) x.sacn_sync_address,
                (
                  stored-clip_double framerate_min framerate_max x.max_framerate,
                  (
                    stored-clip (pos 0) (pos 1) x.allow_nondmx_framerate,
                    (
                      stored-clip (pos 0) (pos 1) x.force_framerate,
                      (stored-clip (pos 0) (pos 1) x.output_empty_universes, tt),
                    ),
                  ),
                ),
              ),
            ),
          ),
        ),
      ),
    ),
  )

  -- A number that is written to an attribute of lx.config with a range is read back, clipped to this
  -- range: an integer for the six attributes of integers, a double for the frame rate.
  pub config_attr_get-set :
      (x : ServiceObject) (attr : ConfigAttribute) (atom : Atom)
      → In attr config_attributes
      → Fits attr.range atom
      → config_attr_get sys (config_attr_set sys doubles x attr atom []) attr
        ≡ some (clipped attr.range atom ∷ [])
  config_attr_get-set x attr atom i fits =
      All-In (ReadsBack x) attr config_attributes i (config_attributes-ReadsBack x) atom fits
