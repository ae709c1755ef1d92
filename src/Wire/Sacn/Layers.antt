-- ===== src/Wire/Sacn/Layers.antt =====
-- packets/dmx_packet_sacn.hpp: the root layer and the DMP layer of sACN packets.
use lxmax.Common.{ℕ, ◌+◌, ◌-◌, ◌%◌, ◌^◌, bit_and, List, [], ◌∷◌, ◌++◌, drop, take}
use lxmax.Wire.Bytes.{U16be, u16be, U32be, u32be, u16_bytes, u32_bytes, u16_at, u32_at, byte_at}

-- `k_sacn_id`
abbrev pub k_sacn_id : List ℕ
k_sacn_id = 0x41 ∷ 0x53 ∷ 0x43 ∷ 0x2d ∷ 0x45 ∷ 0x31 ∷ 0x2e ∷ 0x31 ∷ 0x37 ∷ 0x00 ∷ 0x00 ∷ 0x00 ∷ []

-- `k_sacn_root_flags`
abbrev pub k_sacn_root_flags : ℕ
k_sacn_root_flags = 0x7000

-- `sacn_root_vector`, `sacn_e131_vector`, `sacn_e131_extended_vector` and `sacn_dmp_vector`
abbrev pub e131_data : ℕ
e131_data = 0x00000004

abbrev pub e131_extended : ℕ
e131_extended = 0x00000008

abbrev pub data_packet : ℕ
data_packet = 0x00000002

abbrev pub sync_packet : ℕ
sync_packet = 0x00000001

abbrev pub set_property : ℕ
set_property = 0x02

-- `sacn_root_layer`; `id` has 12 bytes, `cid` 16.
pub record SacnRootLayer : Type 0 where
  pub root_preamble_length : U16be
  pub root_postamble_length : U16be
  pub id : List ℕ
  pub root_flags_length : U16be
  pub root_vector : U32be
  pub cid : List ℕ

-- `sizeof(sacn_root_layer)`
abbrev pub root_size : ℕ
root_size = 38

-- `sacn_root_layer(system_id, vector)`
unfoldable pub sacn_root_layer : List ℕ → ℕ → SacnRootLayer
sacn_root_layer system_id vector = record {
  root_preamble_length = u16be 0x0010;
  root_postamble_length = u16be 0x0000;
  id = k_sacn_id;
  root_flags_length = u16be (k_sacn_root_flags + bit_and (root_size - 16) 0xFFF);
  root_vector = u32be vector;
  cid = system_id;
}

-- `sacn_root_layer::set_length`
unfoldable pub root_set_length : ℕ → SacnRootLayer → SacnRootLayer
root_set_length length layer = record layer {
  root_flags_length = u16be (k_sacn_root_flags + bit_and (length + (root_size - 16)) 0xFFF);
}

-- The bytes of the layer, in front of `rest`, and the layer that is copied from bytes.
unfoldable pub root_bytes : SacnRootLayer → List ℕ → List ℕ
root_bytes l rest = u16_bytes l.root_preamble_length (
    u16_bytes l.root_postamble_length
      (l.id ++ u16_bytes l.root_flags_length (u32_bytes l.root_vector (l.cid ++ rest))))

unfoldable pub root_of : List ℕ → SacnRootLayer
root_of s =
    let t = drop 12 (drop 4 s) in
    record {
      root_preamble_length = u16_at s 0;
      root_postamble_length = u16_at s 2;
      id = take 12 (drop 4 s);
      root_flags_length = u16_at t 0;
      root_vector = u32_at t 2;
      cid = take 16 (drop 6 t);
    }

-- `sacn_dmp_layer`
pub record SacnDmpLayer : Type 0 where
  pub dmp_flags_length : U16be
  pub dmp_vector : ℕ
  pub address_data_type : ℕ
  pub first_property_address : U16be
  pub address_increment : U16be
  pub property_value_count : U16be
  pub dmx_start_code : ℕ

-- `sizeof(sacn_dmp_layer)`
abbrev pub dmp_size : ℕ
dmp_size = 11

-- The constructor of the layer.
unfoldable pub sacn_dmp_layer : SacnDmpLayer
sacn_dmp_layer = record {
  dmp_flags_length = u16be 0x7000;
  dmp_vector = set_property;
  address_data_type = 0xa1;
  first_property_address = u16be 0x0000;
  address_increment = u16be 0x0001;
  property_value_count = u16be 0x0001;
  dmx_start_code = 0x00;
}

-- `sacn_dmp_layer::set_length`
unfoldable pub dmp_set_length : ℕ → SacnDmpLayer → SacnDmpLayer
dmp_set_length length layer = record layer {
  dmp_flags_length = u16be (k_sacn_root_flags + bit_and (length + dmp_size) 0xFFF);
}

-- `sacn_dmp_layer::set_channel_count`
unfoldable pub set_channel_count : ℕ → SacnDmpLayer → SacnDmpLayer
set_channel_count count layer = record layer { property_value_count = u16be ((count + 1) % 2 ^ 16) }

unfoldable pub dmp_bytes : SacnDmpLayer → List ℕ → List ℕ
dmp_bytes l rest = u16_bytes l.dmp_flags_length (
    l.dmp_vector
    ∷ l.address_data_type
    ∷ u16_bytes l.first_property_address (
        u16_bytes l.address_increment (u16_bytes l.property_value_count (l.dmx_start_code ∷ rest))))

unfoldable pub dmp_of : List ℕ → SacnDmpLayer
dmp_of s = record {
  dmp_flags_length = u16_at s 0;
  dmp_vector = byte_at s 2;
  address_data_type = byte_at s 3;
  first_property_address = u16_at s 4;
  address_increment = u16_at s 6;
  property_value_count = u16_at s 8;
  dmx_start_code = byte_at s 10;
}
