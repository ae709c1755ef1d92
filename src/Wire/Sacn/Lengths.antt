-- ===== src/Wire/Sacn/Lengths.antt =====
-- packets/dmx_packet_sacn.hpp: the lengths that a constructed packet states.
use lxmax.Common.{
  ℕ, zero, suc, replicate, [], ◌∷◌, ◌∙◌, ◌+◌, ◌-◌, ◌%◌, ◌^◌, ◌<◌, ◌≡◌, refl, List, length, drop,
  arith, ℤ, bit_and,
}
use lxmax.Common.Bits.{bit_and_mask}
use lxmax.Wire.Bytes.{u16be, u16, length-drop, endian_round_trip}
use lxmax.Wire.Sacn.Layers.{
  root_size, dmp_size, sacn_root_layer, root_set_length, dmp_set_length, set_channel_count,
}
use lxmax.Wire.Sacn.Framing.{framing_size, strncpy, sacn_framing_layer_data, framing_set_length}
use lxmax.Wire.Sacn.{dmx_packet_sacn, sacn_bytes}
use lxmax.Wire.Sacn.RoundTrip.{IsSoundSacn, sacn_bytes-layers}

length-replicate : (n : ℕ) → length {A = ℕ} (replicate n 0) ≡ n
length-replicate zero = refl
length-replicate (suc n) = omega (arith, length-replicate n)

-- `strncpy` fills all of its target.
length-strncpy : (n : ℕ) (s : List ℕ) → length (strncpy n s) ≡ n
length-strncpy zero s = refl
length-strncpy (suc n) [] = omega (arith, length-replicate n)
length-strncpy (suc n) (c ∷ s) = ground (arith, length-strncpy n s, length-replicate n)

-- A flags-and-length field whose length has at most 12 bits.
pub flags_length :
    (n length : ℕ)
    → n ≡ length
    → n < 2 ^ 12
    → u16 (u16be (0x7000 + bit_and n 0xFFF)) ≡ 0x7000 + length
flags_length n length e h =
    let m : bit_and n 0xFFF ≡ n % 2 ^ 12 = bit_and_mask 12 n in
    let r = (endian_round_trip (0x7000 + bit_and n 0xFFF) 0 (omega (arith, m)) (omega arith)).0 in
    omega (arith, r, m, e, h)

dmx_packet_sacn-IsSoundSacn :
    (system_id name : List ℕ) (priority : ℕ) (sync : ℤ) (sequence options : ℕ) (universe : ℤ)
    (values : List ℕ)
    → length system_id ≡ 16
    → IsSoundSacn (dmx_packet_sacn system_id name priority sync sequence options universe values)
unfolding dmx_packet_sacn root_set_length framing_set_length sacn_root_layer sacn_framing_layer_data
dmx_packet_sacn-IsSoundSacn system_id name priority sync sequence options universe values h =
    record { id_eq = refl; cid_length = h; name_length = length-strncpy 64 name }

-- The packet that is made of 512 values has the identifier and arrays of the declared lengths, and
-- is 638 bytes long. Each layer states the flags 7 and the number of bytes from its own length to the
-- end of the packet, and the property count is the number of channels and the start code.
pub dmx_packet_sacn-lengths :
    (system_id name : List ℕ) (priority : ℕ) (sync : ℤ) (sequence options : ℕ) (universe : ℤ)
    (values : List ℕ)
    → length system_id ≡ 16
    → length values ≡ 512
    → let p = dmx_packet_sacn system_id name priority sync sequence options universe values in
      IsSoundSacn p
      × (length (sacn_bytes p) ≡ 638)
      × (u16 p.root_layer.root_flags_length ≡ 0x7000 + length (drop 16 (sacn_bytes p)))
      × (u16 p.framing_layer.framing_flags_length ≡ 0x7000 + length (drop 38 (sacn_bytes p)))
      × (u16 p.dmp_layer.dmp_flags_length ≡ 0x7000 + length (drop 115 (sacn_bytes p)))
      × (u16 p.dmp_layer.property_value_count ≡ 1 + length p.dmx_channels)
unfolding dmx_packet_sacn root_set_length framing_set_length dmp_set_length set_channel_count
dmx_packet_sacn-lengths system_id name priority sync sequence options universe values h k =
    let p = dmx_packet_sacn system_id name priority sync sequence options universe values in
    let bytes : List ℕ = sacn_bytes p in
    let v =
      dmx_packet_sacn-IsSoundSacn system_id name priority sync sequence options universe values h in
    let l : length bytes ≡ 126 + length values = (sacn_bytes-layers p v).0 in
    let a : length values ≡ 512 = k in
    (
      v,
      omega (arith, l, k),
      flags_length ((framing_size + dmp_size + length values) % 2 ^ 16 + (root_size - 16))
          (length (drop 16 bytes)) (omega (arith, l, k, length-drop 16 bytes)) (omega (arith, k)),
      flags_length ((dmp_size + length values) % 2 ^ 16 + framing_size) (length (drop 38 bytes))
          (omega (arith, l, k, length-drop 38 bytes)) (omega (arith, k)),
      flags_length (length values % 2 ^ 16 + dmp_size) (length (drop 115 bytes))
          (omega (arith, l, k, length-drop 115 bytes)) (omega (arith, k)),
      (endian_round_trip ((length values % 2 ^ 16 + 1) % 2 ^ 16) 0 (omega arith) (omega arith)).0
          ∙ omega (arith, k),
    )
