-- ===== src/Wire/Artnet/RoundTrip.antt =====
-- dmx_packet_artnet.hpp: a packet that is written, then read.
use mathlib.Core.List.{append-nil}
use lxmax.Common.{
  ℕ, ◌+◌, ◌^◌, ◌≤◌, ◌<◌, ◌≡◌, refl, ap, true, List, [], ◌++◌, length, length-append, take, drop,
  arith,
}
use lxmax.Wire.Bytes.{u16, overwrite, take_exact, str_eq}
use lxmax.Wire.Artnet.{
  k_artnet_id, ArtdmxHeader, header_bytes, header_of, DmxPacketArtnet, artnet_deserialize,
  artnet_serialize,
}

-- A packet that a sender may make: the identifier, a version from 14 on, and 2 to 512 channels, as
-- many as the header says.
pub record IsSound (p : DmxPacketArtnet) : Type 0 where
  pub id_eq : p.header.id ≡ k_artnet_id
  pub opcode_lt : p.header.opcode < 2 ^ 16
  pub version : 14 ≤ u16 p.header.prot_ver
  pub counted : u16 p.header.length ≡ length p.dmx_channels
  pub at_least : 2 ≤ length p.dmx_channels
  pub at_most : length p.dmx_channels ≤ 512

header_of-bytes :
    (h : ArtdmxHeader) (rest : List ℕ)
    → h.id ≡ k_artnet_id
    → h.opcode < 2 ^ 16
    → header_of (header_bytes h rest) ≡ h
unfolding header_of header_bytes
header_of-bytes h rest e k = rw e (ground arith)

length-header_bytes :
    (h : ArtdmxHeader) (rest : List ℕ)
    → h.id ≡ k_artnet_id
    → length (header_bytes h rest) ≡ 18 + length rest
unfolding header_bytes
length-header_bytes h rest e = rw e (omega arith)

drop-header_bytes :
    (h : ArtdmxHeader) (rest : List ℕ) → h.id ≡ k_artnet_id → drop 18 (header_bytes h rest) ≡ rest
unfolding header_bytes
drop-header_bytes h rest e = rw e refl

-- `deserialize` on bytes that start with those of a sound packet, whatever the packet was before.
pub artnet_deserialize-bytes :
    (p q : DmxPacketArtnet) (rest : List ℕ)
    → IsSound p
    → artnet_deserialize (header_bytes p.header (p.dmx_channels ++ rest)) q ≡ (true, p)
unfolding artnet_deserialize str_eq
artnet_deserialize-bytes p q rest v =
    let all = p.dmx_channels ++ rest in
    let b = header_of-bytes p.header all v.id_eq v.opcode_lt in
    let n = length-header_bytes p.header all v.id_eq in
    let t = drop-header_bytes p.header all v.id_eq in
    rw (b, n, t, v.id_eq, v.counted, take_exact (length p.dmx_channels) p.dmx_channels rest refl)
      (ground (arith, v.version, v.at_least, v.at_most, length-append p.dmx_channels rest))

artnet_serialize-fits :
    (p : DmxPacketArtnet) (buffer : List ℕ)
    → 18 + length p.dmx_channels ≤ length buffer
    → artnet_serialize p buffer
      ≡ (18 + length p.dmx_channels, overwrite buffer (header_bytes p.header p.dmx_channels))
unfolding artnet_serialize
artnet_serialize-fits p buffer h = ground arith

-- A sound packet that is written into a buffer with room for it, then read from the bytes that
-- `serialize` counts, is the packet, whatever the buffer held and the packet that is filled was.
pub artnet_deserialize-serialize :
    (p q : DmxPacketArtnet) (buffer : List ℕ)
    → IsSound p
    → 18 + length p.dmx_channels ≤ length buffer
    → ((artnet_serialize p buffer).0 ≡ 18 + length p.dmx_channels)
      × (artnet_deserialize (take ((artnet_serialize p buffer).0) ((artnet_serialize p buffer).1)) q
          ≡ (true, p))
artnet_deserialize-serialize p q buffer v h =
    let bytes = header_bytes p.header p.dmx_channels in
    let n = length-header_bytes p.header p.dmx_channels v.id_eq in
    let f = artnet_serialize-fits p buffer h in
    (
      ap (λ (r : ℕ × List ℕ). r.0) f,
      rw (f, take_exact (18 + length p.dmx_channels) bytes (drop (length bytes) buffer) n)
          (rw (append-nil p.dmx_channels) at (artnet_deserialize-bytes p q [] v)),
    )
