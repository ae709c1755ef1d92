-- ===== src/Tests/Wire.antt =====
-- Runs and instances for the packets of Art-Net and sACN.
use lxmax.Common.{
  ℕ, ◌+◌, ◌≡◌, ◌↔◌, refl, true, false, List, [], ◌∷◌, ◌++◌, take, drop, length, replicate, pos,
  arith,
}
use lxmax.Wire.Bytes.{u16be, u16}
use lxmax.Wire.Artnet.{
  k_artnet_id, artdmx_header, header_bytes, DmxPacketArtnet, dmx_packet_artnet, artnet_deserialize,
}
use lxmax.Wire.Artnet.RoundTrip.{IsSound}
use lxmax.Wire.Artnet.Accept.{artnet_deserialize_iff}
use lxmax.Wire.Sacn.{
  DmxPacketSacn, dmx_packet_sacn, sacn_deserialize, sacn_bytes, sync_packet_sacn, SyncPacketSacn,
  sacn_sync_deserialize, sacn_sync_serialize,
}
use lxmax.Wire.Sacn.RoundTrip.{sacn_deserialize-refuses, IsSoundSacn}
use lxmax.Wire.Sacn.Lengths.{dmx_packet_sacn-lengths}
use lxmax.Wire.Sacn.Sync as SacnSync

-- A packet with two channels.
abbrev pair_packet : DmxPacketArtnet
unfolding artdmx_header
pair_packet = record {
  header = record artdmx_header { length = u16be 2; sub_uni = 5 };
  dmx_channels = 10 ∷ 20 ∷ [];
}

pair_packet-IsSound : IsSound pair_packet
unfolding artdmx_header u16be u16 pair_packet
pair_packet-IsSound = record {
  id_eq = refl;
  opcode_lt = omega arith;
  version = omega arith;
  counted = refl;
  at_least = omega arith;
  at_most = omega arith;
}

abbrev pair_bytes : List ℕ
pair_bytes = k_artnet_id ++ (0 ∷ 80 ∷ 0 ∷ 14 ∷ 0 ∷ 0 ∷ 5 ∷ 0 ∷ 0 ∷ 2 ∷ 10 ∷ 20 ∷ 99 ∷ [])

artnet_accepts_example :
    (artnet_deserialize pair_bytes (dmx_packet_artnet (pos 7) 1 []) ≡ (true, pair_packet))
    ↔ IsSound pair_packet
      × (rest : List ℕ) × (pair_bytes
          ≡ header_bytes pair_packet.header (pair_packet.dmx_channels ++ rest))
artnet_accepts_example =
    artnet_deserialize_iff pair_bytes (dmx_packet_artnet (pos 7) 1 []) pair_packet (omega arith)

abbrev full : List ℕ
full = replicate 512 9

abbrev cid : List ℕ
cid = replicate 16 1

abbrev small_sacn : DmxPacketSacn
small_sacn = dmx_packet_sacn cid (b'L' ∷ b'X' ∷ []) 100 (pos 0) 1 0 (pos 7) (1 ∷ 2 ∷ 3 ∷ [])

sacn_refuses_example :
    ((sacn_deserialize full small_sacn).0 ≡ false)
    × ((sacn_deserialize full small_sacn).1.dmx_channels ≡ small_sacn.dmx_channels)
sacn_refuses_example = sacn_deserialize-refuses full small_sacn

abbrev full_sacn : DmxPacketSacn
full_sacn = dmx_packet_sacn cid (b'L' ∷ b'X' ∷ []) 100 (pos 0) 1 0 (pos 7) full

dmx_packet_sacn-lengths_example :
    IsSoundSacn full_sacn
    × (length (sacn_bytes full_sacn) ≡ 638)
    × (u16 full_sacn.root_layer.root_flags_length
        ≡ 0x7000 + length (drop 16 (sacn_bytes full_sacn)))
    × (u16 full_sacn.framing_layer.framing_flags_length
        ≡ 0x7000 + length (drop 38 (sacn_bytes full_sacn)))
    × (u16 full_sacn.dmp_layer.dmp_flags_length ≡ 0x7000 + length (drop 115 (sacn_bytes full_sacn)))
    × (u16 full_sacn.dmp_layer.property_value_count ≡ 1 + length full_sacn.dmx_channels)
dmx_packet_sacn-lengths_example =
    dmx_packet_sacn-lengths cid (b'L' ∷ b'X' ∷ []) 100 (pos 0) 1 0 (pos 7) full refl refl

abbrev sync_sacn : SyncPacketSacn
sync_sacn = sync_packet_sacn cid 4 (pos 9)

sync_sacn-IsSoundSync : SacnSync.IsSoundSync sync_sacn
sync_sacn-IsSoundSync = (SacnSync.sync_packet_sacn-lengths cid 4 (pos 9) refl).0

sacn_sync_example :
    ((sacn_sync_serialize sync_sacn (replicate 60 0)).0 ≡ 49)
    × (sacn_sync_deserialize
          (take
            ((sacn_sync_serialize sync_sacn (replicate 60 0)).0)
            ((sacn_sync_serialize sync_sacn (replicate 60 0)).1))
          sync_sacn
        ≡ (true, sync_sacn))
sacn_sync_example =
    SacnSync.sacn_sync_deserialize-serialize sync_sacn sync_sacn (replicate 60 0)
      sync_sacn-IsSoundSync (omega arith)
