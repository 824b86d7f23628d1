-- ===== src/Tests/Open.antt =====
-- The open results of src/until_impl.cpp on a small run.
use cppmon.Shared.{ℕ_discrete, ℕ, ◌<◌, refl, ◌↔◌, inl, inr, none, [], ◌∷◌, ◌++◌, length, arith}
use cppmon.Interval.{sub_size_t, leq_upper, is_bounded}
use cppmon.Table.Contents.{Holds}
use cppmon.Until.{UntilBase, until_impl_base, add_right_table, eval}
use cppmon.Until.History.{History, Eventually}
use cppmon.Until.Answers.{Run, start, add, call, Run-Correct, eventually-emitted}
use cppmon.Monitor.Future.{MEventually, eventually_eval}
use cppmon.Monitor.Future.Runs.{Upward, arrived, eventually_eval-Run}
use cppmon.Tests.{sets, times, rows_eq}
use cppmon.Tests.Runs.{one_to_three, sevens}

-- A row that came at 3 and at 5, with the time 9.
abbrev two_rows : UntilBase sets times
two_rows =
    add_right_table sets times sevens 5
      (add_right_table sets times sevens 3 (until_impl_base sets times 1 one_to_three))

abbrev history : History sets
history = (5, sevens) ∷ (3, sevens) ∷ []

two_rows-Run : Run sets times one_to_three 1 history 5 [] two_rows
two_rows-Run =
    add 5 sevens (omega arith) (omega arith) (add 3 sevens (omega arith) (omega arith) start)

Run-Correct_example : Holds sets (7 ∷ []) sevens ↔ Eventually sets one_to_three 0 3 (7 ∷ []) history
unfolding eval add_right_table until_impl_base rows_eq ℕ_discrete leq_upper is_bounded sub_size_t
Run-Correct_example =
    Run-Correct sets times one_to_three (omega arith)
      (call 9 (omega arith) (omega arith) two_rows-Run) 0 3 sevens sevens refl
      (inr (inl (refl, refl, refl))) (7 ∷ [])

eventually-emitted_example : 1 < length ([] ++ (eval sets times 9 two_rows).0)
unfolding leq_upper is_bounded
eventually-emitted_example =
    eventually-emitted sets times one_to_three 9 (omega arith) two_rows-Run (omega arith)
      (omega arith) 1 5 sevens (inl (refl, refl, refl)) refl

-- MEventually in that state, with one timestamp that waits for its table.
abbrev waiting : MEventually sets times
waiting = record { ts_buf = 6 ∷ []; impl = two_rows }

eventually_eval-Run_example :
    (later : ℕ) × Run sets times one_to_three 1
      (arrived sets times one_to_three (none ∷ []) (6 ∷ 9 ∷ []) history)
      later
      ([] ++ (eventually_eval sets times (none ∷ []) (9 ∷ []) waiting).0)
      (eventually_eval sets times (none ∷ []) (9 ∷ []) waiting).1.impl
    × Upward later (eventually_eval sets times (none ∷ []) (9 ∷ []) waiting).1.ts_buf
eventually_eval-Run_example =
    eventually_eval-Run sets times one_to_three 1 5 history [] (none ∷ []) (9 ∷ []) waiting
      two_rows-Run (omega arith, omega arith, (omega arith, omega arith, tt)) (omega arith)
