-- ===== src/Dmx/Artnet.antt =====
-- lx_dmx.c: the Art-Net format of a universe number, `net.subnet.universe`.
pub mod Parse
pub mod Refused
pub mod RoundTrip
use lxmax.Common.{
  ℕ, suc, true, false, ◌+◌, ◌*◌, ◌/◌, ◌%◌, ◌^◌, bit_and, if◌then◌else◌, ◌≡◌, refl, Bool, not, ◌&&◌,
  List, [], ◌∷◌, ◌++◌, Option, none, some, ℤ, bits64, signed32,
}
use lxmax.Max.{Text, Symbol, codes}
use lxmax.Text.{span, is_cons}
use lxmax.Dmx.Digits.{padded, strtol}
use lxmax.Text.{is_digit}

-- `lx_dmx_universe_to_artnet_format`. `&` and `>>` work on the pattern of `address`, and the
-- masked value is not negative. The text has nine characters, so `snprintf` cuts nothing off.
unfoldable pub to_artnet_format : ℤ → Symbol
unfolding bits64
to_artnet_format address =
    let net = bit_and (bits64 address) 0x7F00 / 2 ^ 8 in
    let subnet = bit_and (bits64 address) 0x00F0 / 2 ^ 4 in
    let universe = bit_and (bits64 address) 0x000F in
    padded 3 net ++ (codes "." ++ (padded 2 subnet ++ (codes "." ++ padded 2 universe)))

-- `std::regex_match` with `(?:(\d+)[^\d]+)(?:(\d+)[^\d]+)(\d+)`: the whole match and the three
-- groups. A run of digits and a run of other bytes cannot share a byte, so a match takes each run
-- whole and there is nothing to try again.
pub artnet_matches : Text → Option (List Text)
unfolding span
artnet_matches s =
    let (net, s1) = span is_digit s in
    let (sep1, s2) = span (λ c. not (is_digit c)) s1 in
    let (subnet, s3) = span is_digit s2 in
    let (sep2, s4) = span (λ c. not (is_digit c)) s3 in
    let (universe, s5) = span is_digit s4 in
    if is_cons net
      && is_cons sep1
      && is_cons subnet
      && is_cons sep2
      && is_cons universe
      && not (is_cons s5)
    then some (s ∷ net ∷ subnet ∷ universe ∷ [])
    else none

-- The low half of `strtol`'s result, which is stored in an `int`.
abbrev int_of : Text → ℕ
int_of s = strtol s % 2 ^ 32

-- The `switch` on the number of matches. The sums are made in `int`; a sum that does not fit wraps
-- around. `address` is what `*address` holds before.
pub address_of_matches : List Text → ℤ → ℤ
unfolding signed32 strtol
address_of_matches (all ∷ universe ∷ []) address = signed32 (int_of universe)
address_of_matches (all ∷ subnet ∷ universe ∷ []) address =
    signed32 ((int_of subnet * 2 ^ 4 + int_of universe) % 2 ^ 32)
address_of_matches (all ∷ net ∷ subnet ∷ universe ∷ []) address =
    signed32 ((int_of net * 2 ^ 8 + int_of subnet * 2 ^ 4 + int_of universe) % 2 ^ 32)
address_of_matches _ address = address

-- `lx_dmx_universe_from_artnet_format`: the new `*address`, or `none` for `MAX_ERR_GENERIC`.
unfoldable pub from_artnet_format : Symbol → ℤ → Option ℤ
unfolding artnet_matches address_of_matches
from_artnet_format s address = elim (artnet_matches s) [
  | none ↦ none
  | some matches ↦ some (address_of_matches matches address)
]
