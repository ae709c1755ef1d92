-- ===== src/Wire/Sacn.antt =====
-- packets/dmx_packet_sacn.hpp: the sACN packets, made of layers.
pub mod Layers
pub mod Framing
pub mod RoundTrip
pub mod Lengths
pub mod Sync
use lxmax.Common.{
  ℕ, ◌+◌, ◌-◌, ◌*◌, ◌/◌, ◌%◌, ◌^◌, bit_and, ltb, not, ◌||◌, ◌&&◌, ◌==◌, if◌then◌else◌, Bool, true,
  false, List, [], ◌∷◌, ◌++◌, length, drop, take, ℤ, bits64,
}
use lxmax.Max.{IpAddress}
use lxmax.Wire.Bytes.{u16, overwrite}
use lxmax.Wire.Sacn.Layers.{
  k_sacn_id, e131_data, e131_extended, root_size, SacnRootLayer, sacn_root_layer, root_set_length,
  root_bytes, root_of, dmp_size, SacnDmpLayer, sacn_dmp_layer, dmp_set_length, set_channel_count,
  dmp_bytes, dmp_of,
}
use lxmax.Wire.Sacn.Framing.{
  framing_size, SacnFramingLayerData, sacn_framing_layer_data, framing_set_length, framing_bytes,
  framing_of, framing_sync_size, SacnFramingLayerSync, sacn_framing_layer_sync, framing_sync_bytes,
  framing_sync_of,
}

-- `get_sacn_multicast_address`
unfoldable pub get_sacn_multicast_address : ℤ → IpAddress
unfolding bits64
get_sacn_multicast_address address = record {
  a = 239;
  b = 255;
  c = bit_and (bits64 address) 0xFF00 / 2 ^ 8 % 2 ^ 8;
  d = bit_and (bits64 address) 0x00FF % 2 ^ 8;
}

-- `dmx_packet_sacn`
pub record DmxPacketSacn : Type 0 where
  pub root_layer : SacnRootLayer
  pub framing_layer : SacnFramingLayerData
  pub dmp_layer : SacnDmpLayer
  pub dmx_channels : List ℕ

-- The constructor of the DMX packet; `values` has 512 entries. An address becomes a `uint16_t`.
unfoldable pub dmx_packet_sacn : List ℕ → List ℕ → ℕ → ℤ → ℕ → ℕ → ℤ → List ℕ → DmxPacketSacn
dmx_packet_sacn system_id name priority sync_address sequence options universe values =
    let n = length values in
    record {
      root_layer =
          root_set_length ((framing_size + dmp_size + n) % 2 ^ 16)
            (sacn_root_layer system_id e131_data);
      framing_layer = framing_set_length ((dmp_size + n) % 2 ^ 16) (
          sacn_framing_layer_data name priority (bits64 sync_address % 2 ^ 16) sequence options
            (bits64 universe % 2 ^ 16));
      dmp_layer = set_channel_count (n % 2 ^ 16) (dmp_set_length (n % 2 ^ 16) sacn_dmp_layer);
      dmx_channels = values;
    }

-- The loop over the bytes of `k_sacn_id`: whether `id` has all of them.
unfoldable pub id_matches : List ℕ → List ℕ → Bool
id_matches id [] = true
id_matches [] (k ∷ expected) = false
id_matches (c ∷ id) (k ∷ expected) =
    let rest = id_matches id expected in if not (c == k) then false else rest

-- The difference of `size_t`, as a `uint16_t`.
unfoldable pub sacn_dmx_length : SacnDmpLayer → ℕ
sacn_dmx_length layer =
    (bit_and (u16 layer.dmp_flags_length) 0x1000 + 2 ^ 64 - dmp_size) % 2 ^ 64 % 2 ^ 16

-- `dmx_packet_sacn::deserialize` on the bytes received: its result, and the packet, which keeps the
-- layers that are read before the bytes are refused.
unfoldable pub sacn_deserialize : List ℕ → DmxPacketSacn → Bool × DmxPacketSacn
sacn_deserialize s packet =
    if ltb (length s) (root_size + framing_size + dmp_size)
    then (false, packet)
    else let p = record packet { root_layer = root_of s } in
      if not (id_matches p.root_layer.id k_sacn_id)
      then (false, p)
      else let p2 = record p {
        framing_layer = framing_of (drop root_size s);
        dmp_layer = dmp_of (drop (root_size + framing_size) s);
      } in
        let dmx_length = sacn_dmx_length p2.dmp_layer in
        if ltb dmx_length 1 || ltb 513 dmx_length
        then (false, p2)
        else if ltb (length s) (root_size + framing_size + dmp_size + dmx_length)
        then (false, p2)
        else (
          true,
          record p2 {
            dmx_channels = take dmx_length (drop (root_size + framing_size + dmp_size) s);
          },
        )

-- The bytes of a packet.
abbrev pub sacn_bytes : DmxPacketSacn → List ℕ
sacn_bytes p =
    root_bytes p.root_layer (framing_bytes p.framing_layer (dmp_bytes p.dmp_layer p.dmx_channels))

-- `dmx_packet_sacn::serialize` into a buffer: its result, and the buffer.
unfoldable pub sacn_serialize : DmxPacketSacn → List ℕ → ℕ × List ℕ
sacn_serialize p buffer =
    let n = root_size + framing_size + dmp_size + length p.dmx_channels in
    if ltb (length buffer) n then (0, buffer) else (n, overwrite buffer (sacn_bytes p))

-- `sync_packet_sacn`
pub record SyncPacketSacn : Type 0 where
  pub root_layer : SacnRootLayer
  pub framing_layer : SacnFramingLayerSync

-- `sync_packet_sacn(system_id, sequence, sync_address)`
unfoldable pub sync_packet_sacn : List ℕ → ℕ → ℤ → SyncPacketSacn
sync_packet_sacn system_id sequence sync_address = record {
  root_layer = root_set_length framing_sync_size (sacn_root_layer system_id e131_extended);
  framing_layer = sacn_framing_layer_sync sequence (bits64 sync_address % 2 ^ 16);
}

abbrev pub sacn_sync_bytes : SyncPacketSacn → List ℕ
sacn_sync_bytes p = root_bytes p.root_layer (framing_sync_bytes p.framing_layer)

-- `sync_packet_sacn::deserialize`
unfoldable pub sacn_sync_deserialize : List ℕ → SyncPacketSacn → Bool × SyncPacketSacn
sacn_sync_deserialize s packet =
    if ltb (length s) (root_size + framing_sync_size)
    then (false, packet)
    else let p : SyncPacketSacn = record {
      root_layer = root_of s;
      framing_layer = framing_sync_of (drop root_size s);
    } in
      if not (id_matches p.root_layer.id k_sacn_id) then (false, p) else (true, p)

-- `sync_packet_sacn::serialize`
unfoldable pub sacn_sync_serialize : SyncPacketSacn → List ℕ → ℕ × List ℕ
sacn_sync_serialize p buffer =
    if ltb (length buffer) (root_size + framing_sync_size)
    then (0, buffer)
    else (root_size + framing_sync_size, overwrite buffer (sacn_sync_bytes p))
