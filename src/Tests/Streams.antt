-- ===== src/Tests/Streams.antt =====
-- The states of src/monitor.cpp on short streams of small tables.
use cppmon.Shared.{ℕ, ◌≡◌, ◌↔◌, ◌⊎◌, inl, inr, false, none, some, List, [], ◌∷◌, length, arith}
use cppmon.Buffer.{init}
use cppmon.Layout.{get_join_info, get_anti_join_info}
use cppmon.Table.{OptTable}
use cppmon.Table.Contents.{Holds}
use cppmon.Table.Join.{restrict}
use cppmon.Since.{since_impl}
use cppmon.Monitor.Shift.Streams.{Fed, all_tabs, all_ts}
use cppmon.Monitor.Eval.{neg_tab, and_tabs, or_tabs}
use cppmon.Monitor.Eval.Tables.{
  AgreesOpt, neg_tab-Holds, and_tabs-join, and_tabs-anti_join, or_tabs_iff,
}
use cppmon.Monitor.Eval.Temporal.{
  Calls, all_l, all_r, all_times, left_calls, answers, run_since, run_since-answers,
}
use cppmon.Monitor.Eval.Meaning.{Rising, Means, run_since-Means}
use cppmon.Monitor.Eval.Once.{answers_once, run_once, run_once-answers}
use cppmon.Tests.{sets, times, groups, indices}
use cppmon.Tests.Rows.{
  numbers, others, swapped, left, right, numbers-Distinct, others-Distinct, swapped-Distinct,
  left-HasWidth, right-HasWidth, into_swapped, from_swapped, swap,
}
use cppmon.Tests.Runs.{one_to_three, sevens}

-- Two calls: a table with its timestamp and the next one, and then another table.
abbrev pub calls : List (List (OptTable sets) × List ℕ)
calls = (sevens ∷ [], 3 ∷ 5 ∷ []) ∷ (none ∷ sevens ∷ [], 9 ∷ []) ∷ []

pub calls-Fed : Fed 0 calls
calls-Fed = (omega arith, (omega arith, tt))

run_once-answers_example :
    let impl = since_impl sets times false 1 [] one_to_three in
    (run_once sets times (record { ts_buf = []; impl = impl }) calls).0
    ≡ answers_once sets times impl (all_tabs calls) (all_ts calls)
run_once-answers_example = run_once-answers sets times calls 1 one_to_three calls-Fed

abbrev both : Calls sets 0 times
both = (sevens ∷ [], [], 3 ∷ []) ∷ ([], sevens ∷ none ∷ [], 5 ∷ []) ∷ (sevens ∷ [], [], []) ∷ []

both-Fed : Fed 0 (left_calls sets 0 times both)
both-Fed = (omega arith, (omega arith, (omega arith, tt)))

run_since-answers_example :
    let impl = since_impl sets times false 1 (0 ∷ []) one_to_three in
    (run_since sets 0 times (record { buf = init; ts_buf = []; impl = impl }) both).0
    ≡ answers sets 0 times impl
        (all_l sets 0 times both)
        (all_r sets 0 times both)
        (all_times sets 0 times both)
run_since-answers_example =
    run_since-answers sets 0 times both false 1 (0 ∷ []) one_to_three both-Fed

both-Rising : Rising sets 0 times one_to_three 1 false (0 ∷ []) 0 (all_times sets 0 times both)
both-Rising = (omega arith, omega arith, (omega arith, omega arith, tt))

run_since-Means_example :
    let impl = since_impl sets times false 1 (0 ∷ []) one_to_three in
    Means sets 0 times one_to_three 1 false
      (0 ∷ [])
      (7 ∷ [])
      []
      (run_since sets 0 times (record { buf = init; ts_buf = []; impl = impl }) both).0
      (all_l sets 0 times both)
      (all_r sets 0 times both)
      (all_times sets 0 times both)
run_since-Means_example =
    run_since-Means sets 0 times one_to_three 1 false (0 ∷ []) (7 ∷ []) both both-Fed both-Rising

neg_tab-Holds_example :
    Holds sets [] (neg_tab sets none)
    ↔ ((◌≡◌ {A = List ℕ} [] []) × (◌≡◌ {A = OptTable sets} none none))
neg_tab-Holds_example = neg_tab-Holds sets none []

and_tabs-join_example :
    let info = get_join_info indices numbers others in
    Holds sets (1 ∷ 2 ∷ 8 ∷ []) (and_tabs sets 0 groups (inl info) (some left) (some right)) ↔ (
      (length {A = ℕ} (1 ∷ 2 ∷ 8 ∷ []) ≡ length info.result_layout)
      × Holds sets (restrict 0 info.result_layout numbers (1 ∷ 2 ∷ 8 ∷ [])) (some left)
      × Holds sets (restrict 0 info.result_layout others (1 ∷ 2 ∷ 8 ∷ [])) (some right))
and_tabs-join_example =
    and_tabs-join 0 sets groups indices numbers others numbers-Distinct others-Distinct (some left)
      (some right) (1 ∷ 2 ∷ 8 ∷ []) left-HasWidth right-HasWidth

and_tabs-anti_join_example :
    Holds sets (3 ∷ 9 ∷ []) (
      and_tabs sets 0 groups
        (inr (get_anti_join_info indices numbers others))
        (some left)
        (some right))
    ↔ (Holds sets (3 ∷ 9 ∷ []) (some left)
        × ¬ AgreesOpt 0 sets groups indices numbers others numbers-Distinct others-Distinct
            (some right)
            (3 ∷ 9 ∷ []))
and_tabs-anti_join_example =
    and_tabs-anti_join 0 sets groups indices numbers others numbers-Distinct others-Distinct
      (some left) (some right) (3 ∷ 9 ∷ [])

or_tabs_iff_example : Holds sets (8 ∷ 2 ∷ []) (or_tabs sets 0 2 (1 ∷ 0 ∷ []) none (some right)) ↔ (
    Holds sets (8 ∷ 2 ∷ []) none
    ⊎ ((length {A = ℕ} (8 ∷ 2 ∷ []) ≡ 2)
        × Holds sets (restrict 0 numbers swapped (8 ∷ 2 ∷ [])) (some right)))
or_tabs_iff_example =
    or_tabs_iff 0 sets indices numbers swapped numbers-Distinct swapped-Distinct into_swapped
      from_swapped none (some right) (1 ∷ 0 ∷ []) (8 ∷ 2 ∷ []) swap right-HasWidth
