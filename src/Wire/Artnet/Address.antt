-- ===== src/Wire/Artnet/Address.antt =====
-- dmx_packet_artnet.hpp: the packet that is constructed for an address.
use lxmax.Common.{ℕ, ◌+◌, ◌*◌, ◌/◌, ◌%◌, ◌^◌, ◌≡◌, refl, List, length, arith, ℤ, bits64}
use lxmax.Common.Bits.{bit_and_mask, bit_and_shifted}
use lxmax.Wire.Bytes.{u16be, u16}
use lxmax.Wire.Artnet.{artdmx_header, dmx_packet_artnet}
use lxmax.Wire.Artnet.RoundTrip.{IsSound}

-- The packet that is made of 512 values is one that `deserialize` accepts, and its header carries the
-- low 15 bits of the address: the net and sub-net, and the universe.
pub dmx_packet_artnet-IsSound :
    (address : ℤ) (sequence : ℕ) (values : List ℕ)
    → length values ≡ 512
    → let p = dmx_packet_artnet address sequence values in
      IsSound p × (p.header.net * 2 ^ 8 + p.header.sub_uni ≡ bits64 address % 2 ^ 15)
unfolding dmx_packet_artnet artdmx_header u16be u16
dmx_packet_artnet-IsSound address sequence values h =
    let n : ℕ = bits64 address in
    (
      record {
        id_eq = refl;
        opcode_lt = omega arith;
        version = omega arith;
        counted = omega (arith, h);
        at_least = omega (arith, h);
        at_most = omega (arith, h);
      },
      omega (arith, bit_and_mask 8 n, bit_and_shifted 8 n 127, bit_and_mask 7 (n / 2 ^ 8)),
    )
