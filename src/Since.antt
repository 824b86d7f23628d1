-- ===== src/Since.antt =====
-- src/since_impl.h: the state and the operations of `since_impl` and `once_impl`, that is of
-- shared_no_agg, shared_base, since_base and once_base put together.
pub mod Single
pub mod Project
pub mod Rows
pub mod Dropping
pub mod Simulation
pub mod Answer
pub mod Result
pub mod Eval
pub mod Buffers
pub mod Once
use cppmon.Shared.{
  ℕ, zero, suc, ◌+◌, ◌-◌, ◌≡◌, Bool, true, false, not, ◌&&◌, Option, none, some, List, [], ◌∷◌,
  ◌++◌, ◌==◌, leb, if◌then◌else◌,
}
use cppmon.Hash.{HashSet, HashMap, emplace}
use cppmon.Interval.{Interval, sub_size_t, size_t_mod, is_bounded, leq_upper, gt_upper, lt_lower}
use cppmon.Interval
use cppmon.Layout.{filter_row}
use cppmon.Table.{Table, OptTable, of_size, add_row, to_opt, hash_all_destructive}

-- `it != end && it->second == ts`
unfoldable pub is_at : ℕ → Option ℕ → Bool
is_at ts none = false
is_at ts (some t) = t == ts

-- `it != end && it->second <= ts`
unfoldable pub since_by : ℕ → Option ℕ → Bool
since_by ts none = false
since_by ts (some t) = leb t ts

module _ {T : Type 0} (S : HashSet (List T)) (B : HashMap (List T) ℕ) where
  -- tables with their timestamps, oldest first
  abbrev pub TableBuf : Type 0
  TableBuf = List (ℕ × OptTable S)

  pub record SinceState : Type 0 where
    pub nfvs : ℕ
    pub inter : Interval
    pub interval_inf : Bool
    pub data_prev : TableBuf
    pub data_in : TableBuf
    pub tuple_in : B.Carrier
    pub tuple_since : B.Carrier
    pub all_data_counted : B.Carrier
    pub left_negated : Bool
    pub comm_idx_r : List ℕ

  unfoldable pub since_impl : Bool → ℕ → List ℕ → Interval → SinceState
  since_impl left_negated nfvs comm_idx_r inter = record {
    nfvs = nfvs;
    inter = inter;
    interval_inf = not (is_bounded inter);
    data_prev = [];
    data_in = [];
    tuple_in = B.empty;
    tuple_since = B.empty;
    all_data_counted = B.empty;
    left_negated = left_negated;
    comm_idx_r = comm_idx_r;
  }

  -- shared_no_agg::tuple_in_update, tuple_in_erase and tuple_in_erase_if
  unfoldable pub tuple_in_update : List T → ℕ → SinceState → SinceState
  tuple_in_update e ts st = record st { tuple_in = B.insert_or_assign e ts st.tuple_in }

  unfoldable pub tuple_in_erase : List T → SinceState → SinceState
  tuple_in_erase e st = record st { tuple_in = B.erase e st.tuple_in }

  unfoldable pub tuple_in_erase_if : (List T → ℕ → Bool) → SinceState → SinceState
  tuple_in_erase_if pred st = record st { tuple_in = B.erase_if pred st.tuple_in }

  -- shared_no_agg::produce_result
  unfoldable pub add_keys : List (List T × ℕ) → Table S → Table S
  unfolding add_row
  add_keys [] tab = tab
  add_keys ((e, ts) ∷ l) tab = add_keys l (add_row S e tab)

  unfoldable pub produce_result : SinceState → OptTable S
  unfolding add_keys of_size to_opt
  produce_result st = to_opt S (add_keys (B.entries st.tuple_in) (of_size S st.nfvs))

  -- drop_tuple_from_all_data, by the count that is found. A missing entry and a count of 0 fail the
  -- assertion; without it `--0` wraps around.
  unfoldable pub drop_counted : List T → ℕ → SinceState → SinceState
  drop_counted e zero st = record st {
    all_data_counted = B.insert_or_assign e (size_t_mod - 1) st.all_data_counted;
  }
  drop_counted e (suc zero) st = record st {
    tuple_since = B.erase e st.tuple_since;
    all_data_counted = B.erase e st.all_data_counted;
  }
  drop_counted e (suc (suc n)) st = record st {
    all_data_counted = B.insert_or_assign e (suc n) st.all_data_counted;
  }

  unfoldable pub drop_tuple_from_all_data : List T → SinceState → SinceState
  unfolding drop_counted
  drop_tuple_from_all_data e st = elim (B.find e st.all_data_counted) [
    | none ↦ st
    | some n ↦ drop_counted e n st
  ]

  -- a row of a table that leaves data_in
  unfoldable pub drop_row_in : ℕ → List T → SinceState → SinceState
  unfolding is_at tuple_in_erase drop_tuple_from_all_data
  drop_row_in ts e st =
      drop_tuple_from_all_data e
        (if is_at ts (B.find e st.tuple_in) then tuple_in_erase e st else st)

  unfoldable pub for_rows :
      (List T → SinceState → SinceState) → List (List T) → SinceState → SinceState
  for_rows f [] st = st
  for_rows f (e ∷ rows) st = for_rows f rows (f e st)

  -- `if (tab) for (const auto &e : *tab)`
  unfoldable pub for_table :
      (List T → SinceState → SinceState) → OptTable S → SinceState → SinceState
  unfolding for_rows
  for_table f none st = st
  for_table f (some tab) st = for_rows f (S.to_list tab.rows) st

  -- the first loop of drop_too_old
  unfoldable pub drop_old_in : ℕ → TableBuf → SinceState → SinceState
  unfolding for_table drop_row_in
  drop_old_in ts [] st = record st { data_in = [] }
  drop_old_in ts ((old_ts, tab) ∷ l) st = elim (leq_upper st.inter (sub_size_t ts old_ts)) [
    | true ↦ record st { data_in = (old_ts, tab) ∷ l }
    | false ↦ drop_old_in ts l (for_table (drop_row_in old_ts) tab st)
  ]

  -- and the second
  unfoldable pub drop_old_prev : ℕ → TableBuf → SinceState → SinceState
  unfolding for_table drop_tuple_from_all_data
  drop_old_prev ts [] st = record st { data_prev = [] }
  drop_old_prev ts ((old_ts, tab) ∷ l) st = elim (gt_upper st.inter (sub_size_t ts old_ts)) [
    | true ↦ drop_old_prev ts l (for_table drop_tuple_from_all_data tab st)
    | false ↦ record st { data_prev = (old_ts, tab) ∷ l }
  ]

  unfoldable pub drop_too_old : ℕ → SinceState → SinceState
  unfolding drop_old_in drop_old_prev
  drop_too_old ts st = let st' = drop_old_in ts st.data_in st in drop_old_prev ts st'.data_prev st'

  -- a row of a table that moves from data_prev to data_in
  unfoldable pub move_row : ℕ → List T → SinceState → SinceState
  unfolding since_by tuple_in_update
  move_row old_ts e st =
      if since_by old_ts (B.find e st.tuple_since) then tuple_in_update e old_ts st else st

  unfoldable pub push_in : ℕ → OptTable S → SinceState → SinceState
  push_in ts tab st =
      if not st.interval_inf then record st { data_in = st.data_in ++ (ts, tab) ∷ [] } else st

  -- the loop of add_new_ts
  unfoldable pub move_prev : ℕ → TableBuf → SinceState → SinceState
  unfolding for_table move_row push_in
  move_prev ts [] st = record st { data_prev = [] }
  move_prev ts ((old_ts, tab) ∷ l) st = elim (lt_lower st.inter (sub_size_t ts old_ts)) [
    | true ↦ record st { data_prev = (old_ts, tab) ∷ l }
    | false ↦ move_prev ts l (push_in old_ts tab (for_table (move_row old_ts) tab st))
  ]

  unfoldable pub add_new_ts : ℕ → SinceState → SinceState
  unfolding drop_too_old move_prev
  add_new_ts ts st =
      let st' = if not st.interval_inf then drop_too_old ts st else st in
      move_prev ts st'.data_prev st'

  -- `all_data_counted[e]++`
  unfoldable pub count_row : List T → SinceState → SinceState
  count_row e st = record st {
    all_data_counted =
        B.insert_or_assign e (elim (B.find e st.all_data_counted) [ none ↦ 1 | some n ↦ n + 1 ])
          st.all_data_counted;
  }

  unfoldable pub add_row_since : ℕ → List T → SinceState → SinceState
  unfolding count_row emplace
  add_row_since ts e st =
      let st' = record st { tuple_since = emplace B e ts st.tuple_since } in
      if not st.interval_inf then count_row e st' else st'

  unfoldable pub add_new_table : OptTable S → ℕ → SinceState → SinceState
  unfolding for_table add_row_since tuple_in_update push_in
  add_new_table tab_r ts st =
      let st' = for_table (add_row_since ts) tab_r st in
      if Interval.contains st.inter 0
      then push_in ts tab_r (for_table (λ e. tuple_in_update e ts) tab_r st')
      else record st' { data_prev = st'.data_prev ++ (ts, tab_r) ∷ [] }

  module _ (junk : T) where
    unfoldable pub erase_cond : SinceState → S.Carrier → List T → Bool
    unfolding filter_row
    erase_cond st hash_set tup =
        if st.left_negated
        then S.contains (filter_row junk st.comm_idx_r tup) hash_set
        else not (S.contains (filter_row junk st.comm_idx_r tup) hash_set)

    -- since_base::join
    unfoldable pub join : OptTable S → SinceState → SinceState
    unfolding erase_cond tuple_in_erase_if hash_all_destructive
    join none st =
        if not st.left_negated then record st { tuple_in = B.empty; tuple_since = B.empty } else st
    join (some tab_l) st =
        let cond = λ (e : List T) (ts : ℕ). erase_cond st (hash_all_destructive S tab_l) e in
        tuple_in_erase_if cond (record st { tuple_since = B.erase_if cond st.tuple_since })

    -- since_base::eval
    unfoldable pub eval : OptTable S → OptTable S → ℕ → SinceState → OptTable S × SinceState
    unfolding add_new_ts join add_new_table produce_result
    eval tab_l tab_r new_ts st =
        let st' = add_new_table tab_r new_ts (join tab_l (add_new_ts new_ts st)) in
        (produce_result st', st')

  -- once_base::eval
  unfoldable pub eval_once : OptTable S → ℕ → SinceState → OptTable S × SinceState
  unfolding add_new_ts add_new_table produce_result
  eval_once tab_r new_ts st =
      let st' = add_new_table tab_r new_ts (add_new_ts new_ts st) in (produce_result st', st')
