-- ===== src/Tests/Dmx.antt =====
-- Universe numbers and addresses at concrete inputs.
use lxmax.Common.{
  ◌+◌, ◌*◌, ◌%◌, ◌^◌, ◌≤◌, ◌≡◌, refl, ◌↔◌, some, pos, negsuc, bits64, signed32, arith,
}
use lxmax.Max.{Text, codes, IpAddress, IsIp}
use lxmax.Dmx.Digits.{padded, strtol}
use lxmax.Dmx.Artnet.{to_artnet_format, from_artnet_format}
use lxmax.Dmx.Artnet.Parse.{Groups, from_artnet_format_sound}
use lxmax.Dmx.Artnet.RoundTrip.{from_artnet_format-to_artnet_format}
use lxmax.Dmx.Multicast.{to_sacn_multicast_ip, from_sacn_multicast_ip, from_sacn_iff}
use lxmax.Net.Broadcast.{to_directed_broadcast, subnet_mask, to_directed_broadcast_lem}

to_artnet_format_run : to_artnet_format (pos 0x1234) ≡ codes "018.03.04"
unfolding to_artnet_format padded
to_artnet_format_run = refl

round_trip_example :
    from_artnet_format (to_artnet_format (negsuc 0)) (pos 7)
    ≡ some (pos (bits64 (negsuc 0) % 2 ^ 15))
round_trip_example = from_artnet_format-to_artnet_format (negsuc 0) (pos 7)

parse_run : from_artnet_format (codes "1.2.3") (pos 0) ≡ some (pos 291)
unfolding from_artnet_format
parse_run = refl

from_artnet_format_sound_example :
    (net : Text) × (sep1 : Text) × (subnet : Text) × (sep2 : Text) × (universe : Text) × Groups
      (codes "1.2.3")
      net
      sep1
      subnet
      sep2
      universe
    × (pos 291
        ≡ signed32 (
            (strtol net % 2 ^ 32 * 2 ^ 8
              + strtol subnet % 2 ^ 32 * 2 ^ 4
              + strtol universe % 2 ^ 32)
            % 2 ^ 32))
from_artnet_format_sound_example =
    from_artnet_format_sound (codes "1.2.3") (pos 0) (pos 291) parse_run

abbrev pub group : IpAddress
group = record { a = 239; b = 255; c = 1; d = 2 }

abbrev pub group-IsIp : IsIp group
group-IsIp = record {
  a_lt = omega arith;
  b_lt = omega arith;
  c_lt = omega arith;
  d_lt = omega arith;
}

from_sacn_iff_example :
    (from_sacn_multicast_ip group ≡ some (pos 258))
    ↔ ((group ≡ to_sacn_multicast_ip (pos 258)) × (1 ≤ 258) × (258 ≤ 63999))
from_sacn_iff_example = from_sacn_iff group 258 group-IsIp

broadcast_example :
    to_directed_broadcast group (subnet_mask 0 0 4 8) ≡ record { a = 239; b = 255; c = 15; d = 255 }
broadcast_example =
    to_directed_broadcast_lem group 0 0 4 8 group-IsIp (omega arith) (omega arith) (omega arith)
      (omega arith)
