-- ===== src/Dmx/Artnet/Parse.antt =====
-- What the regular expression of `lx_dmx_universe_from_artnet_format` matches, and which case of
-- the `switch` runs.
use mathlib.Core.List.{append-nil}
use lxmax.Common.{
  ◌+◌, ◌*◌, ◌%◌, ◌^◌, ◌≡◌, refl, sym, ap, ◌∙◌, ◌↔◌, Bool, true, not, ◌&&◌, List, [], ◌∷◌, ◌++◌,
  none, some, arith, ℤ, All, signed32, Bool-cases, inl, inr, if◌then◌else◌,
}
use lxmax.Max.{Text}
use lxmax.Dmx.Digits.{strtol}
use lxmax.Text.{
  is_digit, IsDigits, span, is_cons, not_digit, span-whole, span-front, span-append, Stops-append,
  digit_stops, not_digit_stops,
}
use lxmax.Dmx.Artnet.{artnet_matches, from_artnet_format}

-- `s` is three runs of digits with a run of other bytes between each two; no run is empty.
pub record Groups (s net sep1 subnet sep2 universe : Text) : Type 0 where
  pub whole : net ++ (sep1 ++ (subnet ++ (sep2 ++ universe))) ≡ s
  pub net_cons : is_cons net ≡ true
  pub sep1_cons : is_cons sep1 ≡ true
  pub subnet_cons : is_cons subnet ≡ true
  pub sep2_cons : is_cons sep2 ≡ true
  pub universe_cons : is_cons universe ≡ true
  pub net_digits : IsDigits net
  pub sep1_others : All (λ c. not_digit c ≡ true) sep1
  pub subnet_digits : IsDigits subnet
  pub sep2_others : All (λ c. not_digit c ≡ true) sep2
  pub universe_digits : IsDigits universe

module _ {s net sep1 subnet sep2 universe : Text} (g : Groups s net sep1 subnet sep2 universe) where
  span_net : span is_digit s ≡ (net, sep1 ++ (subnet ++ (sep2 ++ universe)))
  span_net = rw (← g.whole) (
      span-append is_digit net _ g.net_digits
        (Stops-append is_digit not_digit sep1 _ not_digit_stops g.sep1_cons g.sep1_others))

  span_sep1 :
      span not_digit (sep1 ++ (subnet ++ (sep2 ++ universe))) ≡ (sep1, subnet ++ (sep2 ++ universe))
  span_sep1 =
      span-append not_digit sep1 _ g.sep1_others
        (Stops-append not_digit is_digit subnet _ digit_stops g.subnet_cons g.subnet_digits)

  span_subnet : span is_digit (subnet ++ (sep2 ++ universe)) ≡ (subnet, sep2 ++ universe)
  span_subnet =
      span-append is_digit subnet _ g.subnet_digits
        (Stops-append is_digit not_digit sep2 _ not_digit_stops g.sep2_cons g.sep2_others)

  span_sep2 : span not_digit (sep2 ++ universe) ≡ (sep2, universe)
  span_sep2 = span-append not_digit sep2 universe g.sep2_others (
      rw append-nil at
        (Stops-append not_digit is_digit universe [] digit_stops g.universe_cons g.universe_digits))

  span_universe : span is_digit universe ≡ (universe, [])
  span_universe = rw append-nil at (span-append is_digit universe [] g.universe_digits tt)

  -- A text of that shape matches, and its groups are the runs of digits.
  pub artnet_matches_complete : artnet_matches s ≡ some (s ∷ net ∷ subnet ∷ universe ∷ [])
  unfolding artnet_matches
  artnet_matches_complete =
      rw (span_net, span_sep1, span_subnet, span_sep2, span_universe)
        (rw (g.net_cons, g.sep1_cons, g.subnet_cons, g.sep2_cons, g.universe_cons))

-- The five runs that the matcher takes from `s`, and the rest.
abbrev pub take_net : Text → Text × Text
take_net s = span is_digit s

abbrev pub take_sep1 : Text → Text × Text
take_sep1 s = span not_digit (take_net s).1

abbrev pub take_subnet : Text → Text × Text
take_subnet s = span is_digit (take_sep1 s).1

abbrev pub take_sep2 : Text → Text × Text
take_sep2 s = span not_digit (take_subnet s).1

abbrev pub take_universe : Text → Text × Text
take_universe s = span is_digit (take_sep2 s).1

unfoldable pub all_runs : Text → Bool
all_runs s =
    is_cons (take_net s).0
    && is_cons (take_sep1 s).0
    && is_cons (take_subnet s).0
    && is_cons (take_sep2 s).0
    && is_cons (take_universe s).0
    && not (is_cons (take_universe s).1)

pub artnet_matches-all_runs :
    (s : Text)
    → artnet_matches s ≡ (
        if all_runs s
        then some (s ∷ (take_net s).0 ∷ (take_subnet s).0 ∷ (take_universe s).0 ∷ [])
        else none)
unfolding artnet_matches all_runs
artnet_matches-all_runs s = refl

run_out : (s : Text) → not (is_cons s) ≡ true → s ≡ []
run_out [] h = refl
run_out (c ∷ s) h = ground arith

last_run : (s : Text) → all_runs s ≡ true → (take_universe s).0 ≡ (take_sep2 s).1
unfolding all_runs
last_run s h =
    sym (append-nil _)
    ∙ ap (◌++◌ (take_universe s).0) (sym (run_out (take_universe s).1 (ground arith)))
    ∙ span-whole is_digit (take_sep2 s).1

all_runs-whole :
    (s : Text)
    → all_runs s ≡ true
    → (take_net s).0
        ++ ((take_sep1 s).0 ++ ((take_subnet s).0 ++ ((take_sep2 s).0 ++ (take_universe s).0)))
      ≡ s
unfolding all_runs
all_runs-whole s h =
    rw
      (
        last_run s h,
        span-whole not_digit (take_subnet s).1,
        span-whole is_digit (take_sep1 s).1,
        span-whole not_digit (take_net s).1,
        span-whole is_digit s,
      )
      refl

all_runs-Groups :
    (s : Text)
    → all_runs s ≡ true
    → Groups s (take_net s).0 (take_sep1 s).0 (take_subnet s).0 (take_sep2 s).0 (take_universe s).0
unfolding all_runs
all_runs-Groups s h = record {
  whole = all_runs-whole s h;
  net_cons = ground arith;
  sep1_cons = ground arith;
  subnet_cons = ground arith;
  sep2_cons = ground arith;
  universe_cons = ground arith;
  net_digits = span-front is_digit s;
  sep1_others = span-front not_digit (take_net s).1;
  subnet_digits = span-front is_digit (take_sep1 s).1;
  sep2_others = span-front not_digit (take_subnet s).1;
  universe_digits = span-front is_digit (take_sep2 s).1;
}

-- The Art-Net expression matches exactly the texts made of three runs of digits with a run of other bytes
-- between each two, and its groups are the three runs: there are always four matches.
pub artnet_matches_iff :
    (s : Text) (matches : List Text)
    → (artnet_matches s ≡ some matches) ↔ (
        (net : Text) × (sep1 : Text) × (subnet : Text) × (sep2 : Text) × (universe : Text) × Groups
          s net sep1 subnet sep2 universe
        × (matches ≡ s ∷ net ∷ subnet ∷ universe ∷ []))
artnet_matches_iff s matches = (sound, complete)
  where
    sound :
        artnet_matches s ≡ some matches
        → (net : Text) × (sep1 : Text) × (subnet : Text) × (sep2 : Text) × (universe : Text)
          × Groups s net sep1 subnet sep2 universe
          × (matches ≡ s ∷ net ∷ subnet ∷ universe ∷ [])
    sound h = elim (Bool-cases (all_runs s)) [
      | inl all ↦ (
        (take_net s).0,
        (take_sep1 s).0,
        (take_subnet s).0,
        (take_sep2 s).0,
        (take_universe s).0,
        all_runs-Groups s all,
        cc (h, rw all at (artnet_matches-all_runs s)),
      )
      | inr few ↦ cc (h, rw few at (artnet_matches-all_runs s))
    ]

    complete :
        ((net : Text) × (sep1 : Text) × (subnet : Text) × (sep2 : Text) × (universe : Text) × Groups
            s net sep1 subnet sep2 universe
          × (matches ≡ s ∷ net ∷ subnet ∷ universe ∷ []))
        → artnet_matches s ≡ some matches
    complete (net, sep1, subnet, sep2, universe, g, e) = rw e (artnet_matches_complete g)

-- A text that `from_artnet_format` accepts has the shape of the expression, and the number is that of the
-- three runs of digits, each the low 32 bits of its value, summed in an `int`.
pub from_artnet_format_sound :
    (s : Text) (old address : ℤ)
    → from_artnet_format s old ≡ some address
    → (net : Text) × (sep1 : Text) × (subnet : Text) × (sep2 : Text) × (universe : Text) × Groups s
        net sep1 subnet sep2 universe
      × (address
          ≡ signed32 (
              (strtol net % 2 ^ 32 * 2 ^ 8
                + strtol subnet % 2 ^ 32 * 2 ^ 4
                + strtol universe % 2 ^ 32)
              % 2 ^ 32))
unfolding from_artnet_format
from_artnet_format_sound s old address h = elim (Bool-cases (all_runs s)) [
  | inl all ↦ (
    (take_net s).0,
    (take_sep1 s).0,
    (take_subnet s).0,
    (take_sep2 s).0,
    (take_universe s).0,
    all_runs-Groups s all,
    ground (arith, h, rw all at (artnet_matches-all_runs s)),
  )
  | inr few ↦ absurd (ground (arith, h, rw few at (artnet_matches-all_runs s)))
]
