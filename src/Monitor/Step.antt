-- ===== src/Monitor/Step.antt =====
-- src/monitor.cpp: monitor::step, which numbers the tables of the formula's state and reports them
-- with the timestamps of their time points. What `state_.eval(db, ts)` returns is an argument.
pub mod Reports
use cppmon.Shared.{
  ℕ, zero, suc, ◌+◌, ◌-◌, Bool, true, false, Option, none, some, List, [], ◌∷◌, ◌++◌, ltb,
  if◌then◌else◌,
}
use cppmon.Hash.{HashSet, HashMap, emplace}
use cppmon.Interval.{size_t_mod}
use cppmon.Table.{OptTable, make_verdicts}

abbrev pub maximum_timestamp : ℕ
maximum_timestamp = size_t_mod - 1

-- (ts, tp, data)
abbrev pub Satisfactions : Type 0 → Type 0
Satisfactions T = List (ℕ × ℕ × List (List T))

module _ {T : Type 0} (S : HashSet (List T)) (junk : T) (N : HashMap ℕ ℕ) where
  pub record Monitor : Type 0 where
    pub tp_ts_map : N.Carrier
    pub curr_tp : ℕ
    pub max_tp : ℕ
    pub output_var_permutation : List ℕ

  unfoldable pub add_ts : List ℕ → Monitor → Monitor
  unfolding emplace
  add_ts [] st = st
  add_ts (t ∷ ts) st =
      add_ts ts
        (record st { tp_ts_map = emplace N st.max_tp t st.tp_ts_map; max_tp = suc st.max_tp })

  unfoldable pub output_tab : List ℕ → OptTable S → List (List T)
  unfolding make_verdicts
  output_tab perm none = []
  output_tab perm (some tab) = make_verdicts S junk tab perm

  -- `it->second` at a time point; without an entry, which the code takes to be there, 0.
  unfoldable pub ts_of : N.Carrier → ℕ → ℕ
  ts_of m tp = elim (N.find tp m) [ none ↦ 0 | some t ↦ t ]

  unfoldable pub emit : List (OptTable S) → Monitor → Satisfactions T × Monitor
  unfolding ts_of output_tab
  emit [] st = ([], st)
  emit (sat ∷ sats) st =
      let ts = ts_of st.tp_ts_map st.curr_tp in
      let rest =
        emit sats
          (record st { tp_ts_map = N.erase st.curr_tp st.tp_ts_map; curr_tp = suc st.curr_tp }) in
      (
        (if ltb ts maximum_timestamp
            then (ts, st.curr_tp, output_tab st.output_var_permutation sat) ∷ rest.0
            else rest.0),
        rest.1,
      )

  unfoldable pub step : List (OptTable S) → List ℕ → Monitor → Satisfactions T × Monitor
  unfolding add_ts emit
  step sats ts st = emit sats (add_ts ts st)
