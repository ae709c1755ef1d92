-- ===== src/Remote/Attributes.antt =====
-- lx.config.c: the attributes of lx.config, which it passes on to the service object, and the menu
-- of interfaces that a new lx.config makes.
pub mod Table
pub mod Kept
use lxmax.Common.{ℕ, List, [], ◌∷◌, drop, Option, none, some, ◌>>=◌, ℤ, pos}
use lxmax.Max.{System, Symbol, codes, Atom, Hashtab}
use lxmax.Net.Adapter.{NetworkAdapter, network_adapter_get_menu_items}
use lxmax.Symbols.{
  global_config_global_artnet_interface, global_config_global_artnet_unicast_addresses,
  global_config_artnet_sync_packets_enable, global_config_global_sacn_interface,
  global_config_global_sacn_unicast_addresses, global_config_sacn_sync_packets_enable,
  global_config_sacn_sync_address, global_config_max_framerate,
  global_config_allow_non_dmx_framerate, global_config_force_framerate,
  global_config_output_empty_universes,
}
use lxmax.Settings.{ServiceObject}
use lxmax.Settings.Values.{
  AttrType, attr_symbol, attr_char, attr_long, attr_float64, Clip, no_clip, clip_double,
  framerate_min, framerate_max, Doubles, clip, service_setvalueof, service_getvalueof,
}

-- A style of `CLASS_ATTR_ENUM` or `CLASS_ATTR_STYLE_LABEL`.
pub data AttrStyle : Type 0 where
  plain enum onoff : AttrStyle

-- An attribute of the class: its name, type and clip, and how the inspector shows it.
pub record ConfigAttribute : Type 0 where
  pub name : Symbol
  pub type : AttrType
  pub range : Clip
  pub style : AttrStyle
  pub label : Symbol
  pub order : ℕ
  pub category : Symbol

attribute : Symbol → AttrType → Clip → AttrStyle → Symbol → ℕ → Symbol → ConfigAttribute
attribute name type range style label order category = record {
  name = name;
  type = type;
  range = range;
  style = style;
  label = label;
  order = order;
  category = category;
}

-- The attributes in the order of `ext_main`.
unfoldable pub config_attributes : List ConfigAttribute
unfolding attribute
config_attributes =
    attribute global_config_global_artnet_interface attr_symbol no_clip enum
      (codes "Global Art-Net Network Interface") 1 (codes "LXMax - Art-Net")
    ∷ attribute global_config_global_artnet_unicast_addresses attr_symbol no_clip plain
        (codes "Global Art-Net Unicast Addresses") 2 (codes "LXMax - Art-Net")
    ∷ attribute global_config_artnet_sync_packets_enable attr_char (clip (pos 0) (pos 1)) onoff
        (codes "Enable Art-Net Sync Packets") 3 (codes "LXMax - Art-Net")
    ∷ attribute global_config_global_sacn_interface attr_symbol no_clip enum
        (codes "Global sACN Network Interface") 1 (codes "LXMax - sACN")
    ∷ attribute global_config_global_sacn_unicast_addresses attr_symbol no_clip plain
        (codes "Global sACN Unicast Addresses") 2 (codes "LXMax - sACN")
    ∷ attribute global_config_sacn_sync_packets_enable attr_char (clip (pos 0) (pos 1)) onoff
        (codes "Enable sACN Sync Packets") 3 (codes "LXMax - sACN")
    ∷ attribute global_config_sacn_sync_address attr_long (clip (pos 1) (pos 63999)) plain
        (codes "sACN Sync Address") 4 (codes "LXMax - sACN")
    ∷ attribute global_config_max_framerate attr_float64 (clip_double framerate_min framerate_max)
        plain (codes "Output Framerate") 1 (codes "LXMax - Output")
    ∷ attribute global_config_allow_non_dmx_framerate attr_char (clip (pos 0) (pos 1)) onoff
        (codes "Allow Non-DMX Framerates") 2 (codes "LXMax - Output")
    ∷ attribute global_config_force_framerate attr_char (clip (pos 0) (pos 1)) onoff
        (codes "Force Output At Framerate") 3 (codes "LXMax - Output")
    ∷ attribute global_config_output_empty_universes attr_char (clip (pos 0) (pos 1)) onoff
        (codes "Output Empty Universes") 4 (codes "LXMax - Output")
    ∷ []

module _ (sys : System) where
  -- `lx_config_attr_get`
  unfoldable pub config_attr_get : ServiceObject → ConfigAttribute → Option (List Atom)
  unfolding service_getvalueof
  config_attr_get x attr = service_getvalueof sys x attr.name

  -- `lx_config_attr_set`
  unfoldable pub config_attr_set :
      Doubles → ServiceObject → ConfigAttribute → Atom → List Atom → ServiceObject
  unfolding service_setvalueof
  config_attr_set doubles x attr first rest = service_setvalueof sys doubles x attr.name first rest

  -- The menu that `lx_config_new` gives both attributes for interfaces: the items without the first.
  -- `none` where there are no items: the code then reads from `av + 1` with `ac - 1` atoms.
  unfoldable pub interface_enum : Hashtab NetworkAdapter → Option (List Atom)
  interface_enum adapters =
      network_adapter_get_menu_items sys.inet sys.max adapters
      >>= (λ (atoms : List Atom). some (drop 1 atoms))
