-- ===== src/Wire/Artnet/Sync.antt =====
-- dmx_packet_artnet.hpp: the sync packet, written and read.
use lxmax.Common.{ℕ, ◌^◌, ◌≤◌, ◌<◌, ◌≡◌, refl, ap, true, List, length, take, drop, arith}
use lxmax.Wire.Bytes.{u16, take_exact, str_eq, overwrite}
use lxmax.Wire.Artnet.{
  k_artnet_id, header_bytes, DmxPacketArtnet, SyncPacketArtnet, sync_of, sync_bytes,
  artnet_sync_deserialize, artnet_sync_serialize,
}
use lxmax.Wire.Artnet.RoundTrip.{IsSound}

-- A sync packet that a sender may make.
pub record IsSoundSync (p : SyncPacketArtnet) : Type 0 where
  pub id_eq : p.id ≡ k_artnet_id
  pub opcode_lt : p.opcode < 2 ^ 16
  pub version : 14 ≤ u16 p.prot_ver

artnet_sync_deserialize-bytes :
    (p q : SyncPacketArtnet) → IsSoundSync p → artnet_sync_deserialize (sync_bytes p) q ≡ (true, p)
unfolding artnet_sync_deserialize sync_of sync_bytes str_eq
artnet_sync_deserialize-bytes p q v = rw v.id_eq (ground (arith, v.opcode_lt, v.version))

artnet_sync_serialize-fits :
    (p : SyncPacketArtnet) (buffer : List ℕ)
    → 14 ≤ length buffer
    → artnet_sync_serialize p buffer ≡ (14, overwrite buffer (sync_bytes p))
unfolding artnet_sync_serialize
artnet_sync_serialize-fits p buffer h = ground arith

length-sync_bytes : (p : SyncPacketArtnet) → p.id ≡ k_artnet_id → length (sync_bytes p) ≡ 14
unfolding sync_bytes
length-sync_bytes p h = rw h refl

-- A sync packet that is written into a buffer with room for it, then read from the 14 bytes that
-- `serialize` counts, is the packet, whatever the buffer held and the packet that is filled was.
pub artnet_sync_deserialize-serialize :
    (p q : SyncPacketArtnet) (buffer : List ℕ)
    → IsSoundSync p
    → 14 ≤ length buffer
    → ((artnet_sync_serialize p buffer).0 ≡ 14)
      × (artnet_sync_deserialize
            (take ((artnet_sync_serialize p buffer).0) ((artnet_sync_serialize p buffer).1))
            q
          ≡ (true, p))
artnet_sync_deserialize-serialize p q buffer v h =
    let f = artnet_sync_serialize-fits p buffer h in
    let bytes = sync_bytes p in
    (
      ap (λ (r : ℕ × List ℕ). r.0) f,
      rw (f, take_exact 14 bytes (drop (length bytes) buffer) (length-sync_bytes p v.id_eq))
          (artnet_sync_deserialize-bytes p q v),
    )

-- The bytes of every sound DMX packet are accepted as a sync packet as well, with the packet's own
-- opcode: `deserialize` does not look at it.
pub sync_accepts_dmx :
    (p : DmxPacketArtnet) (q : SyncPacketArtnet)
    → IsSound p
    → let r = artnet_sync_deserialize (header_bytes p.header p.dmx_channels) q in
      (r.0 ≡ true) × (r.1.opcode ≡ p.header.opcode)
unfolding artnet_sync_deserialize sync_of header_bytes str_eq
sync_accepts_dmx p q v = rw v.id_eq (ground (arith, v.opcode_lt, v.version))
