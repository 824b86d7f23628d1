-- ===== src/Tests/Runs.antt =====
-- The temporal operators of src/since_impl.h on small runs.
use cppmon.Shared.{ℕ, ◌-◌, ◌≡◌, refl, ◌↔◌, true, false, none, some, List, [], ◌∷◌, ◌++◌, arith}
use cppmon.Interval.{Interval}
use cppmon.Interval
use cppmon.Table.{OptTable}
use cppmon.Table.Contents.{Holds}
use cppmon.Since.{eval, eval_once}
use cppmon.Since.Single.Spec.{counted}
use cppmon.Since.Eval.{Input, Timely, after, SinceAt, eval-SinceAt}
use cppmon.Since.Once.{after_once, OnceAt, eval_once-OnceAt}
use cppmon.Since.Buffers.{tables_with, after-counted}
use cppmon.Tests.{sets, times, rows_eq}

abbrev pub one_to_three : Interval
one_to_three = record { l = 1; u = 3; bounded = true }

abbrev pub sevens : OptTable sets
sevens = some (record { ncols = 1; rows = (7 ∷ []) ∷ [] })

abbrev first : Input sets
first = record { tab_l = none; tab_r = sevens; ts = 3 }

abbrev second : Input sets
second = record { tab_l = sevens; tab_r = none; ts = 5 }

in_time : Timely sets (second ∷ first ∷ [])
in_time = (omega arith, omega arith, (omega arith, omega arith, tt))

eval-SinceAt_example :
    Holds sets
      (7 ∷ [])
      (eval sets times 0 sevens none 5
        (after sets times 0 one_to_three 1 false (0 ∷ []) (first ∷ []))).0
    ↔ ((t : ℕ) × SinceAt sets times 0 one_to_three 1 false (0 ∷ []) (7 ∷ []) t (second ∷ first ∷ [])
        × (Interval.contains one_to_three (5 - t) ≡ true))
eval-SinceAt_example =
    eval-SinceAt sets times 0 one_to_three 1 false (0 ∷ []) (7 ∷ []) second (first ∷ []) in_time

eval_once-OnceAt_example :
    Holds sets
      (7 ∷ [])
      (eval_once sets times none 5 (after_once sets times one_to_three 1 ((3, sevens) ∷ []))).0
    ↔ ((t : ℕ) × OnceAt sets times one_to_three 1 (7 ∷ []) t ((5, none) ∷ (3, sevens) ∷ [])
        × (Interval.contains one_to_three (5 - t) ≡ true))
eval_once-OnceAt_example =
    eval_once-OnceAt sets times one_to_three 1 (7 ∷ []) 5 none ((3, sevens) ∷ []) in_time

abbrev run : List (Input sets)
run = second ∷ first ∷ []

after-counted_example :
    let st = after sets times 0 one_to_three 1 false (0 ∷ []) run in
    times.find (7 ∷ []) st.all_data_counted
    ≡ counted (
        tables_with sets times 0 one_to_three 1 false
          (0 ∷ [])
          (7 ∷ [])
          (st.data_in ++ st.data_prev))
unfolding Interval.is_bounded
after-counted_example =
    after-counted sets times 0 one_to_three 1 false (0 ∷ []) run (7 ∷ []) in_time refl

-- The row satisfies the formula at time 5, two after it was on the right, and not at time 7.
holds_then :
    (eval sets times 0 sevens none 5
      (after sets times 0 one_to_three 1 false (0 ∷ []) (first ∷ []))).0
    ≡ some (record { ncols = 1; rows = (7 ∷ []) ∷ [] })
unfolding eval after rows_eq Interval.is_bounded Interval.contains Interval.gt_upper
    Interval.leq_upper Interval.lt_lower Interval.sub_size_t
holds_then = refl

gone_later :
    (eval sets times 0 sevens none 7 (after sets times 0 one_to_three 1 false (0 ∷ []) run)).0
    ≡ none
unfolding eval after rows_eq Interval.is_bounded Interval.contains Interval.gt_upper
    Interval.leq_upper Interval.lt_lower Interval.sub_size_t
gone_later = refl
