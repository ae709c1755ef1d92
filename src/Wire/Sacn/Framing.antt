-- ===== src/Wire/Sacn/Framing.antt =====
-- packets/dmx_packet_sacn.hpp: the framing layers of data and synchronization packets.
use lxmax.Common.{
  ℕ, zero, suc, ◌+◌, bit_and, ◌==◌, if◌then◌else◌, List, [], ◌∷◌, ◌++◌, drop, take, replicate,
}
use lxmax.Wire.Bytes.{U16be, u16be, U32be, u32be, u16_bytes, u32_bytes, u16_at, u32_at, byte_at}
use lxmax.Wire.Sacn.Layers.{k_sacn_root_flags, data_packet, sync_packet}

-- `sacn_framing_layer_data`; `source_name` has 64 bytes.
pub record SacnFramingLayerData : Type 0 where
  pub framing_flags_length : U16be
  pub framing_vector : U32be
  pub source_name : List ℕ
  pub priority : ℕ
  pub sync_address : U16be
  pub sequence : ℕ
  pub options : ℕ
  pub universe : U16be

-- `sizeof(sacn_framing_layer_data)`
abbrev pub framing_size : ℕ
framing_size = 77

-- `strncpy` of a string without its terminator: `n` bytes, filled up with 0.
abbrev pub strncpy : ℕ → List ℕ → List ℕ
strncpy zero s = []
strncpy (suc n) [] = replicate (suc n) 0
strncpy (suc n) (c ∷ s) = let rest = strncpy n s in if c == 0 then replicate (suc n) 0 else c ∷ rest

-- `sacn_framing_layer_data(source_name, priority, sync_address, sequence, options, universe)`
unfoldable pub sacn_framing_layer_data : List ℕ → ℕ → ℕ → ℕ → ℕ → ℕ → SacnFramingLayerData
sacn_framing_layer_data name priority_value sync_value sequence_value options_value universe_value =
    record {
      framing_flags_length = u16be (k_sacn_root_flags + bit_and framing_size 0xFFF);
      framing_vector = u32be data_packet;
      source_name = strncpy 64 name;
      priority = priority_value;
      sync_address = u16be sync_value;
      sequence = sequence_value;
      options = options_value;
      universe = u16be universe_value;
    }

-- `sacn_framing_layer_data::set_length`
unfoldable pub framing_set_length : ℕ → SacnFramingLayerData → SacnFramingLayerData
framing_set_length length layer = record layer {
  framing_flags_length = u16be (k_sacn_root_flags + bit_and (length + framing_size) 0xFFF);
}

unfoldable pub framing_bytes : SacnFramingLayerData → List ℕ → List ℕ
framing_bytes l rest = u16_bytes l.framing_flags_length (
    u32_bytes l.framing_vector (
      l.source_name
      ++ (l.priority
          ∷ u16_bytes l.sync_address (l.sequence ∷ l.options ∷ u16_bytes l.universe rest))))

unfoldable pub framing_of : List ℕ → SacnFramingLayerData
framing_of s =
    let t = drop 64 (drop 6 s) in
    record {
      framing_flags_length = u16_at s 0;
      framing_vector = u32_at s 2;
      source_name = take 64 (drop 6 s);
      priority = byte_at t 0;
      sync_address = u16_at t 1;
      sequence = byte_at t 3;
      options = byte_at t 4;
      universe = u16_at t 5;
    }

-- `sacn_framing_layer_sync`
pub record SacnFramingLayerSync : Type 0 where
  pub framing_flags_length : U16be
  pub framing_vector : U32be
  pub sequence : ℕ
  pub sync_address : U16be
  pub reserved : U16be

-- `sizeof(sacn_framing_layer_sync)`
abbrev pub framing_sync_size : ℕ
framing_sync_size = 11

-- `sacn_framing_layer_sync(sequence, sync_address)`
unfoldable pub sacn_framing_layer_sync : ℕ → ℕ → SacnFramingLayerSync
sacn_framing_layer_sync sequence_value sync_value = record {
  framing_flags_length = u16be (k_sacn_root_flags + bit_and framing_sync_size 0xFFF);
  framing_vector = u32be sync_packet;
  sequence = sequence_value;
  sync_address = u16be sync_value;
  reserved = u16be 0;
}

unfoldable pub framing_sync_bytes : SacnFramingLayerSync → List ℕ
framing_sync_bytes l =
    u16_bytes l.framing_flags_length
      (u32_bytes l.framing_vector (l.sequence ∷ u16_bytes l.sync_address (u16_bytes l.reserved [])))

unfoldable pub framing_sync_of : List ℕ → SacnFramingLayerSync
framing_sync_of s = record {
  framing_flags_length = u16_at s 0;
  framing_vector = u32_at s 2;
  sequence = byte_at s 6;
  sync_address = u16_at s 7;
  reserved = u16_at s 9;
}
