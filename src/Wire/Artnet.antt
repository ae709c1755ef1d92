-- ===== src/Wire/Artnet.antt =====
-- packets/dmx_packet_artnet.hpp: the DMX packet and the sync packet of Art-Net.
pub mod Accept
pub mod RoundTrip
pub mod Sync
pub mod Address
use lxmax.Common.{
  ℕ, ◌+◌, ◌*◌, ◌/◌, ◌%◌, ◌^◌, bit_and, ltb, not, ◌||◌, if◌then◌else◌, Bool, true, false, List, [],
  ◌∷◌, ◌++◌, length, take, drop, ℤ, bits64,
}
use lxmax.Wire.Bytes.{U16be, u16be, u16, u16_bytes, u16_at, byte_at, overwrite, str_eq}

-- `k_artnet_id`, with its terminator.
abbrev pub k_artnet_id : List ℕ
k_artnet_id = b'A' ∷ b'r' ∷ b't' ∷ b'-' ∷ b'N' ∷ b'e' ∷ b't' ∷ 0 ∷ []

abbrev pub k_artnet_prot_ver : ℕ
k_artnet_prot_ver = 14

abbrev pub k_artnet_opcode_sync : ℕ
k_artnet_opcode_sync = 0x5200

-- `artdmx_header`; `id` has eight bytes.
pub record ArtdmxHeader : Type 0 where
  pub id : List ℕ
  pub opcode : ℕ
  pub prot_ver : U16be
  pub sequence : ℕ
  pub physical : ℕ
  pub sub_uni : ℕ
  pub net : ℕ
  pub length : U16be

-- `sizeof(artdmx_header)`
abbrev pub header_size : ℕ
header_size = 18

-- The default constructor of the header.
unfoldable pub artdmx_header : ArtdmxHeader
artdmx_header = record {
  id = k_artnet_id;
  opcode = 0x5000;
  prot_ver = u16be k_artnet_prot_ver;
  sequence = 0;
  physical = 0;
  sub_uni = 0;
  net = 0;
  length = u16be 0;
}

-- The bytes of a header, in front of `rest`. `opcode` has the order of the host, low byte first.
unfoldable pub header_bytes : ArtdmxHeader → List ℕ → List ℕ
header_bytes h rest =
    h.id
    ++ (h.opcode % 2 ^ 8
        ∷ h.opcode / 2 ^ 8
        ∷ u16_bytes h.prot_ver
            (h.sequence ∷ h.physical ∷ h.sub_uni ∷ h.net ∷ u16_bytes h.length rest))

-- The header that is copied from the first 18 bytes.
unfoldable pub header_of : List ℕ → ArtdmxHeader
header_of s =
    let t = drop 8 s in
    record {
      id = take 8 s;
      opcode = byte_at t 0 + byte_at t 1 * 2 ^ 8;
      prot_ver = u16_at t 2;
      sequence = byte_at t 4;
      physical = byte_at t 5;
      sub_uni = byte_at t 6;
      net = byte_at t 7;
      length = u16_at t 8;
    }

-- `dmx_packet_artnet`
pub record DmxPacketArtnet : Type 0 where
  pub header : ArtdmxHeader
  pub dmx_channels : List ℕ

-- `dmx_packet_artnet(address, sequence, data)`; `data` has 512 values.
unfoldable pub dmx_packet_artnet : ℤ → ℕ → List ℕ → DmxPacketArtnet
unfolding artdmx_header
dmx_packet_artnet address sequence values = record {
  header = record artdmx_header {
    sub_uni = bit_and (bits64 address) 0x00FF % 2 ^ 8;
    net = bit_and (bits64 address) 0x7F00 / 2 ^ 8 % 2 ^ 8;
    sequence = sequence;
    length = u16be 512;
  };
  dmx_channels = values;
}

-- `dmx_packet_artnet::deserialize` on the bytes received: its result, and the packet, which keeps the
-- new header also where the bytes are refused.
unfoldable pub artnet_deserialize : List ℕ → DmxPacketArtnet → Bool × DmxPacketArtnet
artnet_deserialize s packet =
    if ltb (length s) (header_size + 2)
    then (false, packet)
    else let p = record packet { header = header_of s } in
      if not (str_eq p.header.id k_artnet_id)
      then (false, p)
      else if ltb (u16 p.header.prot_ver) k_artnet_prot_ver
      then (false, p)
      else let dmx_length = u16 p.header.length in
        if ltb dmx_length 2 || ltb 512 dmx_length
        then (false, p)
        else if ltb (length s) (header_size + dmx_length)
        then (false, p)
        else (true, record p { dmx_channels = take dmx_length (drop header_size s) })

-- `dmx_packet_artnet::serialize` into a buffer: its result, and the buffer.
unfoldable pub artnet_serialize : DmxPacketArtnet → List ℕ → ℕ × List ℕ
artnet_serialize p buffer =
    if ltb (length buffer) (header_size + length p.dmx_channels) then (0, buffer) else (
      header_size + length p.dmx_channels,
      overwrite buffer (header_bytes p.header p.dmx_channels),
    )

-- `sync_packet_artnet`
pub record SyncPacketArtnet : Type 0 where
  pub id : List ℕ
  pub opcode : ℕ
  pub prot_ver : U16be
  pub aux_1 : ℕ
  pub aux_2 : ℕ

-- `sizeof(sync_packet_artnet)`
abbrev pub sync_size : ℕ
sync_size = 14

-- The constructor of the sync packet.
unfoldable pub sync_packet_artnet : SyncPacketArtnet
sync_packet_artnet = record {
  id = k_artnet_id;
  opcode = k_artnet_opcode_sync;
  prot_ver = u16be k_artnet_prot_ver;
  aux_1 = 0;
  aux_2 = 0;
}

unfoldable pub sync_bytes : SyncPacketArtnet → List ℕ
sync_bytes p =
    p.id ++ (p.opcode % 2 ^ 8 ∷ p.opcode / 2 ^ 8 ∷ u16_bytes p.prot_ver (p.aux_1 ∷ p.aux_2 ∷ []))

unfoldable pub sync_of : List ℕ → SyncPacketArtnet
sync_of s =
    let t = drop 8 s in
    record {
      id = take 8 s;
      opcode = byte_at t 0 + byte_at t 1 * 2 ^ 8;
      prot_ver = u16_at t 2;
      aux_1 = byte_at t 4;
      aux_2 = byte_at t 5;
    }

-- `sync_packet_artnet::deserialize`
unfoldable pub artnet_sync_deserialize : List ℕ → SyncPacketArtnet → Bool × SyncPacketArtnet
artnet_sync_deserialize s packet =
    if ltb (length s) sync_size
    then (false, packet)
    else let p = sync_of s in
      if not (str_eq p.id k_artnet_id)
      then (false, p)
      else if ltb (u16 p.prot_ver) k_artnet_prot_ver
      then (false, p)
      else (true, p)

-- `sync_packet_artnet::serialize`
unfoldable pub artnet_sync_serialize : SyncPacketArtnet → List ℕ → ℕ × List ℕ
artnet_sync_serialize p buffer =
    if ltb (length buffer) sync_size
    then (0, buffer)
    else (sync_size, overwrite buffer (sync_bytes p))
