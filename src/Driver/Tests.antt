-- ===== src/Driver/Tests.antt =====
-- Runs of the bit sets and of the flag names.
use emufxtool.Base.{◌≡◌, refl, true, [], ◌∷◌, ◌||◌, ◌==◌, arith}
use emufxtool.Base.Text.{codes}
use emufxtool.Driver.BitSets.{test_bit, set_bit}
use emufxtool.Driver.FlagNames.{flags_loop, flags_to_string}
use emufxtool.Driver.BitSetLaws.{test_bit-set_bit}
use emufxtool.Driver.FlagNameLaws.{join_bar, set_names, flags_to_string-join_bar}

test_bit-set_bit_example :
    test_bit (set_bit (0 ∷ 5 ∷ []) 33) 34 ≡ (33 == 34 || test_bit (0 ∷ 5 ∷ []) 34)
test_bit-set_bit_example =
    test_bit-set_bit (0 ∷ 5 ∷ []) 33 34 (omega arith, (omega arith, tt)) (omega arith)

test_bit-33 : test_bit (set_bit (0 ∷ 5 ∷ []) 33) 33 ≡ true
unfolding test_bit set_bit
test_bit-33 = refl

flags_to_string-join_bar_example :
    flags_to_string 5 (codes "A" ∷ codes "B" ∷ codes "C" ∷ [])
    ≡ join_bar (set_names (codes "A" ∷ codes "B" ∷ codes "C" ∷ []) 5)
flags_to_string-join_bar_example =
    flags_to_string-join_bar 5 (codes "A" ∷ codes "B" ∷ codes "C" ∷ [])

flags_to_string-5 : flags_to_string 5 (codes "A" ∷ codes "B" ∷ codes "C" ∷ []) ≡ codes "A|C"
unfolding flags_to_string flags_loop
flags_to_string-5 = refl
