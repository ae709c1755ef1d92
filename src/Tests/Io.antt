-- ===== src/Tests/Io.antt =====
-- Runs and instances for the service of input and output.
use lxmax.Common.{◌≡◌, ◌↔◌, refl, some, none, List, [], ◌∷◌, In}
use lxmax.Max.{Symbol, codes, Hashtab}
use lxmax.Universe.Config.{UniverseConfig, universe_config_new}
use lxmax.Buffer.{dmx_buffer}
use lxmax.Io.{DmxIoService, set_universes}
use lxmax.Io.Active.{IsActive}
use lxmax.Io.Universes.{set_universes_iff}

abbrev one_key : List Symbol
one_key = codes "u1" ∷ []

-- The table of a new service: one new configuration.
abbrev one_universe : Hashtab UniverseConfig
one_universe = record {
  getkeys = some one_key;
  lookup = λ (k : Symbol). some (universe_config_new (codes "u1"));
}

abbrev idle_service : DmxIoService
idle_service = record { input_buffer = dmx_buffer; output_buffer = dmx_buffer; protocols = [] }

set_universes_example :
    (set_universes one_universe idle_service ≡ none)
    ↔ (key : Symbol) × In key one_key
      × (c : UniverseConfig) × (one_universe.lookup key ≡ some c)
      × IsActive c
set_universes_example = set_universes_iff one_universe one_key idle_service refl
