-- ===== src/Tests/Parts.antt =====
-- Buffers, intervals and layouts at concrete values.
use cppmon.Shared.{ℕ, suc, ◌+◌, ◌≡◌, refl, ◌↔◌, true, false, List, [], ◌∷◌}
use cppmon.Buffer.{BinaryBuffer, update_and_reduce}
use cppmon.Interval.{
  Interval, is_bounded, Within, contains-Within, contains-lower-upper, contains-equals, equals,
  geq_lower, leq_upper,
}
use cppmon.Interval

-- Adds a pair, and counts the calls.
abbrev add_pair : ℕ → ℕ → ℕ → ℕ × ℕ
add_pair x y calls = (x + y, suc calls)

abbrev waiting : BinaryBuffer ℕ
waiting = record { buf = 4 ∷ []; is_l = true }

abbrev batches : List (List ℕ × List ℕ)
batches = (5 ∷ [], 1 ∷ 2 ∷ 3 ∷ []) ∷ (6 ∷ 7 ∷ [], []) ∷ []

-- The side changes when the buffer is used up: 3 then waits on the right.
side_changes :
    update_and_reduce add_pair waiting (5 ∷ []) (1 ∷ 2 ∷ 3 ∷ []) 0
    ≡ (5 ∷ 7 ∷ [], record { buf = 3 ∷ []; is_l = false }, 2)
unfolding update_and_reduce
side_changes = refl

abbrev two_to_five : Interval
two_to_five = record { l = 2; u = 5; bounded = true }

contains-Within_example : (Interval.contains two_to_five 4 ≡ true) ↔ Within two_to_five 4
contains-Within_example = contains-Within two_to_five 4

-- An unbounded interval ignores its upper end.
abbrev from_two : Interval
from_two = record { l = 2; u = 0; bounded = false }

abbrev also_from_two : Interval
also_from_two = record { l = 2; u = 9; bounded = false }

same_bounds : equals from_two also_from_two ≡ true
unfolding equals
same_bounds = refl
