-- ===== src/Dmx/Multicast.antt =====
-- lx_dmx.c: the sACN multicast address of a universe, 239.255.high.low.
use lxmax.Common.{
  ℕ, ◌+◌, ◌*◌, ◌/◌, ◌%◌, ◌^◌, ◌≤◌, ◌<◌, bit_and, ltb, ◌==◌, if◌then◌else◌, ◌≡◌, ◌↔◌, not, ◌||◌,
  Option, none, some, ℤ, pos, bits64, arith,
}
use lxmax.Common.Bits.{bit_and_mask, bit_and_shifted}
use lxmax.Max.{IpAddress, IsIp}

-- `LX_UNIVERSE_SACN_MIN` and `LX_UNIVERSE_SACN_MAX`
abbrev pub sacn_min : ℕ
sacn_min = 1

abbrev pub sacn_max : ℕ
sacn_max = 63999

-- `lx_dmx_universe_to_sacn_multicast_ip`. The octets are `uint8_t`.
unfoldable pub to_sacn_multicast_ip : ℤ → IpAddress
unfolding bits64
to_sacn_multicast_ip address = record {
  a = 239;
  b = 255;
  c = bit_and (bits64 address) 0xFF00 / 2 ^ 8 % 2 ^ 8;
  d = bit_and (bits64 address) 0x00FF % 2 ^ 8;
}

-- `lx_dmx_universe_from_sacn_multicast_ip`: the new `*address`, or `none` for `MAX_ERR_GENERIC`.
pub from_sacn_multicast_ip : IpAddress → Option ℤ
from_sacn_multicast_ip ip =
    if not (ip.a == 239) || not (ip.b == 255)
    then none
    else let value = ip.c * 2 ^ 8 + ip.d in
      if ltb value sacn_min || ltb sacn_max value then none else some (pos value)

high_octet : (x : ℕ) → bit_and x 0xFF00 / 2 ^ 8 % 2 ^ 8 ≡ x / 2 ^ 8 % 2 ^ 8
high_octet x = omega (arith, bit_and_shifted 8 x 255, bit_and_mask 8 (x / 2 ^ 8))

low_octet : (x : ℕ) → bit_and x 0x00FF % 2 ^ 8 ≡ x % 2 ^ 8
low_octet x = omega (arith, bit_and_mask 8 x)

octets :
    (address : ℤ)
    → to_sacn_multicast_ip address
      ≡ record { a = 239; b = 255; c = bits64 address / 2 ^ 8 % 2 ^ 8; d = bits64 address % 2 ^ 8 }
unfolding to_sacn_multicast_ip
octets address = ground (arith, high_octet (bits64 address), low_octet (bits64 address))

-- Every address made for a universe is one of four octets.
pub to_sacn_multicast_ip-IsIp : (address : ℤ) → IsIp (to_sacn_multicast_ip address)
unfolding to_sacn_multicast_ip
to_sacn_multicast_ip-IsIp address = omega arith

-- The address of a universe number is read back exactly when the number is in the sACN range: the
-- numbers from 64000 to 65535 and 0 give an address that is refused.
pub from_sacn-to_sacn :
    (n : ℕ)
    → n < 2 ^ 16
    → from_sacn_multicast_ip (to_sacn_multicast_ip (pos n))
      ≡ (if ltb n sacn_min || ltb sacn_max n then none else some (pos n))
unfolding from_sacn_multicast_ip bits64
from_sacn-to_sacn n h = rw octets (ground arith)

-- An address is accepted exactly when it is the multicast address of the number in the sACN range
-- that is returned.
pub from_sacn_iff :
    (ip : IpAddress) (n : ℕ)
    → IsIp ip
    → (from_sacn_multicast_ip ip ≡ some (pos n))
      ↔ ((ip ≡ to_sacn_multicast_ip (pos n)) × (sacn_min ≤ n) × (n ≤ sacn_max))
unfolding from_sacn_multicast_ip bits64
from_sacn_iff ip n h = rw octets (ground arith)
