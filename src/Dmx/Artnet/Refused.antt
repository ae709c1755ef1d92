-- ===== src/Dmx/Artnet/Refused.antt =====
-- lx_dmx.c: texts with fewer than three numbers in `lx_dmx_universe_from_artnet_format`.
use mathlib.Core.List.{append-nil}
use lxmax.Common.{◌≡◌, true, false, [], ◌++◌, none, arith, ℤ, All}
use lxmax.Max.{Text}
use lxmax.Text.{
  is_digit, IsDigits, span, is_cons, not_digit, span-append, Stops-append, digit_stops,
  not_digit_stops,
}
use lxmax.Dmx.Artnet.{from_artnet_format}
use lxmax.Dmx.Artnet.Parse.{all_runs, artnet_matches-all_runs}

lone_number : (s : Text) → IsDigits s → all_runs s ≡ false
unfolding all_runs span
lone_number s h =
    let e : span is_digit s ≡ (s, []) = rw append-nil at (span-append is_digit s [] h tt) in
    ground (arith, e)

two_numbers :
    (a sep b : Text)
    → IsDigits a
    → is_cons sep ≡ true
    → All (λ c. not_digit c ≡ true) sep
    → is_cons b ≡ true
    → IsDigits b
    → all_runs (a ++ (sep ++ b)) ≡ false
unfolding all_runs span
two_numbers a sep b ha sep_cons hsep b_cons hb =
    let e1 : span is_digit (a ++ (sep ++ b)) ≡ (a, sep ++ b) =
      span-append is_digit a _ ha
        (Stops-append is_digit not_digit sep b not_digit_stops sep_cons hsep) in
    let e2 : span not_digit (sep ++ b) ≡ (sep, b) =
      span-append not_digit sep b hsep
        (rw append-nil at (Stops-append not_digit is_digit b [] digit_stops b_cons hb)) in
    let e3 : span is_digit b ≡ (b, []) = rw append-nil at (span-append is_digit b [] hb tt) in
    ground (arith, e1, e2, e3)

refused : (s : Text) (old : ℤ) → all_runs s ≡ false → from_artnet_format s old ≡ none
unfolding from_artnet_format
refused s old h = ground (arith, rw h at (artnet_matches-all_runs s))

-- A single number, or two numbers with one separator, is refused, whatever the numbers are.
pub from_artnet_format_short :
    (a sep b : Text) (old : ℤ)
    → IsDigits a
    → is_cons sep ≡ true
    → All (λ c. not_digit c ≡ true) sep
    → is_cons b ≡ true
    → IsDigits b
    → (from_artnet_format a old ≡ none) × (from_artnet_format (a ++ (sep ++ b)) old ≡ none)
from_artnet_format_short a sep b old ha sep_cons hsep b_cons hb = (
  refused a old (lone_number a ha),
  refused (a ++ (sep ++ b)) old (two_numbers a sep b ha sep_cons hsep b_cons hb),
)
