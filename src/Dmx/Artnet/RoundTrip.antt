-- ===== src/Dmx/Artnet/RoundTrip.antt =====
-- lx_dmx.c: printing a universe in the Art-Net format, then reading it.
use lxmax.Common.{
  ℕ, ◌<◌, ◌≤◌, ◌+◌, ◌*◌, ◌/◌, ◌%◌, ◌^◌, bit_and, ◌≡◌, refl, ap, ◌∙◌, true, [], ◌∷◌, ◌++◌, some,
  arith, ℤ, pos, bits64, signed32, length,
}
use lxmax.Common.Bits.{bit_and_mask, bit_and_shifted}
use lxmax.Max.{Text, codes}
use lxmax.Dmx.Digits.{padded, strtol, value-padded, IsDigits-padded, length-padded}
use lxmax.Text.{is_cons}
use lxmax.Dmx.Artnet.{to_artnet_format, from_artnet_format}
use lxmax.Dmx.Artnet.Parse.{Groups, artnet_matches_complete}

net_field : (x : ℕ) → bit_and x 0x7F00 / 2 ^ 8 ≡ x / 2 ^ 8 % 2 ^ 7
net_field x = omega (arith, bit_and_shifted 8 x 127, bit_and_mask 7 (x / 2 ^ 8))

subnet_field : (x : ℕ) → bit_and x 0x00F0 / 2 ^ 4 ≡ x / 2 ^ 4 % 2 ^ 4
subnet_field x = omega (arith, bit_and_shifted 4 x 15, bit_and_mask 4 (x / 2 ^ 4))

universe_field : (x : ℕ) → bit_and x 0x000F ≡ x % 2 ^ 4
universe_field x = bit_and_mask 4 x

is_cons-length : (s : Text) → 0 < length s → is_cons s ≡ true
is_cons-length [] h = absurd (omega arith)
is_cons-length (c ∷ s) h = refl

strtol-padded : (width n : ℕ) → n < 2 ^ 31 → strtol (padded width n) % 2 ^ 32 ≡ n
unfolding strtol
strtol-padded width n h = rw value-padded (omega arith)

padded-cons : (width n : ℕ) → is_cons (padded width n) ≡ true
padded-cons width n = is_cons-length (padded width n) (length-padded width n)

format-Groups :
    (a b c : ℕ)
    → let s = padded 3 a ++ (codes "." ++ (padded 2 b ++ (codes "." ++ padded 2 c))) in
      Groups s (padded 3 a) (codes ".") (padded 2 b) (codes ".") (padded 2 c)
format-Groups a b c = record {
  whole = refl;
  net_cons = padded-cons 3 a;
  sep1_cons = refl;
  subnet_cons = padded-cons 2 b;
  sep2_cons = refl;
  universe_cons = padded-cons 2 c;
  net_digits = IsDigits-padded 3 a;
  sep1_others = (refl, tt);
  subnet_digits = IsDigits-padded 2 b;
  sep2_others = (refl, tt);
  universe_digits = IsDigits-padded 2 c;
}

from_fields :
    (a b c : ℕ) (old : ℤ)
    → a < 2 ^ 7
    → b < 2 ^ 4
    → c < 2 ^ 4
    → from_artnet_format
        (padded 3 a ++ (codes "." ++ (padded 2 b ++ (codes "." ++ padded 2 c))))
        old
      ≡ some (pos (a * 2 ^ 8 + b * 2 ^ 4 + c))
unfolding from_artnet_format signed32
from_fields a b c old ha hb hc =
    rw (artnet_matches_complete (format-Groups a b c), from_artnet_format)
      (ground (
        arith,
        strtol-padded 3 a (omega arith),
        strtol-padded 2 b (omega arith),
        strtol-padded 2 c (omega arith),
      ))

-- What `to_artnet_format` writes for any `long`, `from_artnet_format` reads as its low fifteen bits.
pub from_artnet_format-to_artnet_format :
    (address old : ℤ)
    → from_artnet_format (to_artnet_format address) old ≡ some (pos (bits64 address % 2 ^ 15))
unfolding to_artnet_format
from_artnet_format-to_artnet_format address old =
    let x = bits64 address in
    rw (net_field x, subnet_field x, universe_field x)
      (rw
        (from_fields (x / 2 ^ 8 % 2 ^ 7) (x / 2 ^ 4 % 2 ^ 4) (x % 2 ^ 4) old (omega arith)
          (omega arith) (omega arith))
        (ap (λ (n : ℕ). some (pos n)) (omega arith)))

-- So every number of the Art-Net range is read back unchanged.
pub artnet_round_trip :
    (n : ℕ) (old : ℤ) → n ≤ 32767 → from_artnet_format (to_artnet_format (pos n)) old ≡ some (pos n)
unfolding bits64
artnet_round_trip n old h =
    from_artnet_format-to_artnet_format (pos n) old ∙ ap (λ (k : ℕ). some (pos k)) (omega arith)
