-- ===== src/Cli/Tests.antt =====
-- A session at the screens, and the theorems at it.
use sdle_shopping_list.Common.{false, some, [], ◌∷◌, ◌≡◌, refl}
use sdle_shopping_list.Cli.{ItemInterface, build_item, read_validated_input, is_valid}
use sdle_shopping_list.Common.Text.{trim, parse_usize, is_ascii_alphabetic, all_chars}
use sdle_shopping_list.Cli.Input.{IsEntered, build_item_lem}

abbrev milk : ItemInterface
milk = record { name = "milk"; amount = 3; acquired = false }

build_milk : build_item ("mi1k" ∷ " milk " ∷ "0" ∷ "3" ∷ "q" ∷ []) ≡ some (milk, "q" ∷ [])
unfolding build_item read_validated_input is_valid trim parse_usize is_ascii_alphabetic all_chars
build_milk = refl

build_item_example : IsEntered milk
build_item_example =
    build_item_lem ("mi1k" ∷ " milk " ∷ "0" ∷ "3" ∷ "q" ∷ []) milk ("q" ∷ []) build_milk
