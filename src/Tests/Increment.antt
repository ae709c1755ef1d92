-- ===== src/Tests/Increment.antt =====
-- Labels and configurations that are counted up.
use lxmax.Common.{
  ◌+◌, some, ◌≡◌, refl, ◌++◌, pos, negsuc, add_long, signed64, bits64, length, arith,
}
use lxmax.Max.{codes}
use lxmax.Dmx.Digits.{padded, value, decimal}
use lxmax.Label.{symbol_increment, counted, split_digits, counted_text}
use lxmax.Universe.Config.{UniverseConfig, universe_config_new}
use lxmax.Universe.Increment.{universe_config_increment, universe_config_increment_lem}
use lxmax.Tests.Fixture.{sys, interfaces}

abbrev x1 : UniverseConfig
x1 = universe_config_new (codes "u1")

count_up : symbol_increment (codes "Universe 099") (pos 1) ≡ counted (codes "Universe 100")
unfolding symbol_increment counted_text split_digits add_long signed64 bits64 decimal value
count_up = refl

-- Below zero the sign stands behind the zeros.
count_below_zero :
    symbol_increment (codes "Universe 001") (negsuc 4) ≡ counted (codes "Universe 0-4")
unfolding symbol_increment counted_text split_digits add_long signed64 bits64 decimal value
count_below_zero = refl

x1-counted :
    universe_config_increment sys interfaces x1 (pos 2)
    ≡ some (record x1 {
      label = codes "Universe " ++ padded (length (codes "001")) (value 0 (codes "001") + 2);
      internal_universe = add_long (pos 1) (pos 2);
      protocol_universe = add_long (pos 1) (pos 2);
    })
unfolding universe_config_new add_long signed64 bits64 value
x1-counted =
    universe_config_increment_lem sys interfaces x1 (codes "Universe ") (codes "001") 2 refl refl
      refl (refl, (refl, (refl, tt))) (omega arith) (omega arith, omega arith)
      (omega arith, omega arith)
