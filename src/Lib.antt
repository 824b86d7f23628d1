-- ===== src/Lib.antt =====
-- CPPMon is a monitor for metric first-order temporal properties. It reads a formula and a trace of
-- timestamped databases, and reports for each time point the rows of values that satisfy the formula.
-- Each subformula has a state object whose evaluation takes the databases that arrive and gives one
-- table of satisfying rows for each time point. These objects stand on the parts modelled here:
--
-- src/table.h and src/table.cpp, tables: modules Layout and Table. A layout is the list of the
--   variables of a table's columns. Layout has the index lists that get_join_info,
--   get_anti_join_info and find_permutation compute, and filter_row. Table has the class `table<T>`
--   for any type of values: natural_join, anti_join, anti_join_in_place, t_union, equal_to and the
--   rest, an optional table being nullopt where the code returns no empty table. Table/Contents
--   reads the loops as sets of rows, Table/Buckets the hash map of a join, and Table/Join,
--   Table/Difference and Table/Union state the operations over layouts.
-- src/common/buffers.h, `binary_buffer`: module Buffer, and Buffer/Streams for the two streams it
--   pairs. The binary operators of the monitor evaluate on the pairs that it hands out.
-- src/formula.h and src/formula.cpp, `Interval`: module Interval, with the subtraction of timestamps.
-- src/since_impl.h and src/since_impl.cpp, the operators SINCE and ONCE: module Since. SinceState has
--   the fields of shared_base and since_base; add_new_ts, join, add_new_table and produce_result are
--   its operations, and `eval` and `eval_once` the evaluations of since_base and once_base.
--   `once_impl` has the same state without left_negated and comm_idx_r, which eval_once leaves alone.
--   Since/Single is the algorithm as it acts on one row, with its invariant; Since/Project,
--   Since/Rows, Since/Dropping, Since/Simulation, Since/Answer and Since/Result show that a state acts
--   on every row as that does; Since/Eval, Since/Once and Since/Buffers state what holds of every run.
-- src/until_impl.h and src/until_impl.cpp, the operators UNTIL and EVENTUALLY: module Until, with UntilBase
--   for until_impl_base and eventually_impl, and UntilImpl for until_impl. eval is shift followed by
--   the swap of the results; add_right_table and add_tables are those of the two classes.
--   Until/Marks, Until/History, Until/Steps, Until/Adding, Until/NewTable and Until/Runs build the
--   invariant of EVENTUALLY, and Until/Answers states what holds of every run.
-- src/aggregation_impl.h and src/aggregation_impl.cpp: module Aggregation, with the kinds of groups as
--   records of operations (GroupOps), the groups by key and aggregation_impl with its eval;
--   Aggregation/Groups and Aggregation/Count are about its results.
-- src/common/event_data.h and event_data.cpp: module EventData, the values int, double and string, with
--   EventData/Order and EventData/Range.
-- src/formula.h and src/formula.cpp, terms and formulas: modules Term and Formula. Term has the data and
--   every operation of `Term`; Term/Free, Term/Evaluation and Term/Equality are about them. Formula has
--   the data and the free variables, Formula/Safe is_safe_formula, Formula/Equality operator== and
--   is_always_true, Formula/Preds the numbering of predicates, and Formula/Values and Formula/Reader the
--   readers from JSON; their child modules hold what is proved of each.
-- src/monitor.h and src/monitor.cpp, the states of subformulas: module Monitor. Monitor/Shift has MPrev
--   and MNext, and Monitor/Eval has MNeg, MSince, MOnce and the reductions of MAnd and MOr; what the
--   subformula's own state returns is an argument. Monitor/Shift/Prev, Monitor/Shift/Next,
--   Monitor/Eval/Temporal, Monitor/Eval/Meaning and Monitor/Eval/Once state what they return over all
--   calls, and Monitor/Eval/Tables what the others do to the tables of one time point. Monitor/Pred has MPred and
--   MRel, Monitor/Let has MLet, and Monitor/Step has monitor::step, which numbers and reports the
--   tables of the whole formula; Monitor/Pred/Match and Monitor/Step/Reports are about them.
--   Monitor/Future has MUntil and MEventually on the operators of module Until, and
--   Monitor/Future/Runs their calls; MAgg is in Aggregation. Monitor/Fused has MFusedUnaryOps with its
--   operations on rows and combine_fused_state, and Monitor/Layouts the positions and layouts that the
--   translation gives them; Monitor/Fused/Fusion, Monitor/Layouts/Exists and Monitor/Layouts/Sparse
--   are about them.
--
-- Conventions. The containers of Abseil are not part of the repository: module Hash has them as
-- records of operations with the laws that their documentation gives, over a lawful equality of rows,
-- so a row with a floating-point NaN is outside the model. The order of an iteration is free. ListSet
-- and ListMap are instances, at which the examples in Tests run. Sequences (std::vector, devector) are
-- lists. A read past the end of a row, which the language leaves undefined, gives the parameter
-- `junk`; a read of a timestamp past the end of a buffer gives 0; a failing assertion of
-- find_permutation gives none. Timestamps and counts are natural
-- numbers; the subtraction of timestamps wraps around at 2 ^ 64, and so does a count of 0 that is
-- decremented, while counts are taken not to reach 2 ^ 64. Loops are recursion on the
-- list they run over. The readers of JSON recurse on fuel, and more fuel than the document is deep is
-- enough. A document is a type with operations (module Json) that behave as those of the JSON library
-- on arrays, strings and numbers; a read of a missing or wrong field throws. Where the language leaves
-- the order of the arguments of a call open, they are read from left to right. Doubles are a type with
-- operations (record Double in EventData) of which no law is assumed; an int is the bit
-- pattern of an int64, wrapping at 2 ^ 64; the counter of predicates wraps at 2 ^ 32. std::sort is an
-- argument of the aggregation. Prefetching, reserving of memory and moving of values have no
-- effect on what is modelled: a table that was moved from is not read again.
--
-- Not modelled: the reader of traces (a grammar of the library lexy), printing, files, sockets and
-- threads, the drivers, the generator of random tests, the running number that a formula gets for
-- printing, the type of databases, and the queue between threads, which is a copy of another project's; and the aggregation
-- over windows and the rest of the monitor's translation of formulas into states.
pub mod Shared
pub mod Hash
pub mod Interval
pub mod EventData
pub mod Term
pub mod Json
pub mod Formula
pub mod Layout
pub mod Table
pub mod Buffer
pub mod Since
pub mod Until
pub mod Aggregation
pub mod Monitor
pub mod Tests
