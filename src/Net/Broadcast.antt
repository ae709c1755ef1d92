-- ===== src/Net/Broadcast.antt =====
-- lx_net.c: the directed broadcast address of a subnet.
use lxmax.Common.{ℕ, ◌+◌, ◌-◌, ◌*◌, ◌/◌, ◌%◌, ◌^◌, ◌≤◌, ◌<◌, bit_or, ◌≡◌, arith}
use native.Mathlib.Nat.{one-le-pow, pow-le-pow_right}
use lxmax.Common.Bits.{bit_or_ones, bit_or-mod}
use lxmax.Max.{IpAddress, IsIp}

-- `address | ~subnet`, stored in a `uint8_t`: both are promoted to `int`, so `~` flips 32 bits.
octet_broadcast : ℕ → ℕ → ℕ
octet_broadcast address subnet = bit_or address (2 ^ 32 - 1 - subnet) % 2 ^ 8

-- `lx_ip_address_to_directed_broadcast`
unfoldable pub to_directed_broadcast : IpAddress → IpAddress → IpAddress
unfolding octet_broadcast
to_directed_broadcast address subnet = record {
  a = octet_broadcast address.a subnet.a;
  b = octet_broadcast address.b subnet.b;
  c = octet_broadcast address.c subnet.c;
  d = octet_broadcast address.d subnet.d;
}

-- A subnet octet with `k` host bits: ones, then `k` zeros.
abbrev pub octet_mask : ℕ → ℕ
octet_mask k = 2 ^ 8 - 2 ^ k

-- The subnet mask whose octets have so many host bits.
abbrev pub subnet_mask : ℕ → ℕ → ℕ → ℕ → IpAddress
subnet_mask i j k l = record {
  a = octet_mask i;
  b = octet_mask j;
  c = octet_mask k;
  d = octet_mask l;
}

-- Network bits kept, host bits all one.
abbrev pub fill_host : ℕ → ℕ → ℕ
fill_host k address = address / 2 ^ k * 2 ^ k + (2 ^ k - 1)

two_pow-le : (k : ℕ) → k ≤ 8 → 2 ^ k ≤ 2 ^ 8
two_pow-le k h = pow-le-pow_right (omega arith) h

octet_broadcast_lem :
    (k address : ℕ)
    → k ≤ 8
    → address < 2 ^ 8
    → octet_broadcast address (octet_mask k) ≡ fill_host k address
unfolding octet_broadcast
octet_broadcast_lem k address h fits = ground (
  arith,
  bit_or-mod 8 address (2 ^ 32 - 1 - octet_mask k),
  bit_or_ones k address,
  two_pow-le k h,
  one-le-pow k 2,
)

octet_broadcast-lt : (address subnet : ℕ) → octet_broadcast address subnet < 2 ^ 8
unfolding octet_broadcast
octet_broadcast-lt address subnet = omega arith

-- For a subnet mask whose octets are runs of ones followed by zeros, each octet of the broadcast
-- address keeps the network bits of the address and has all host bits set.
pub to_directed_broadcast_lem :
    (address : IpAddress) (i j k l : ℕ)
    → IsIp address
    → i ≤ 8
    → j ≤ 8
    → k ≤ 8
    → l ≤ 8
    → to_directed_broadcast address (subnet_mask i j k l) ≡ record {
      a = fill_host i address.a;
      b = fill_host j address.b;
      c = fill_host k address.c;
      d = fill_host l address.d;
    }
unfolding to_directed_broadcast
to_directed_broadcast_lem address i j k l ip hi hj hk hl = ground (
  arith,
  octet_broadcast_lem i address.a hi ip.a_lt,
  octet_broadcast_lem j address.b hj ip.b_lt,
  octet_broadcast_lem k address.c hk ip.c_lt,
  octet_broadcast_lem l address.d hl ip.d_lt,
)

-- With any mask the result is an address.
pub to_directed_broadcast-IsIp :
    (address subnet : IpAddress) → IsIp (to_directed_broadcast address subnet)
unfolding to_directed_broadcast octet_broadcast
to_directed_broadcast-IsIp address subnet = omega arith
