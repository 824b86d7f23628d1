-- ===== src/Aggregation.antt =====
-- src/aggregation_impl.h and src/aggregation_impl.cpp: the aggregations COUNT, AVG, MAX, MIN, SUM and
-- MED over a table, by groups. std::sort is a parameter.
pub mod Groups
pub mod Count
use cppmon.Shared.{
  ℕ, zero, suc, ◌+◌, ◌-◌, ◌/◌, ◌%◌, Bool, true, false, ◌&&◌, Option, none, some, List, [], ◌∷◌,
  ◌++◌, length, get_or, leb, ◌==◌, if◌then◌else◌,
}
use cppmon.Hash.{HashSet, HashMap}
use cppmon.Interval.{size_t_mod}
use cppmon.EventData.{Double, EventData, int, float, plus, less, greater, to_double, compat_less}
use cppmon.Layout.{filter_row}
use cppmon.Table
use cppmon.Table.{Table, OptTable, of_size, singleton_table, add_row, to_opt}
use cppmon.Term.{Term, get_if_var}
use cppmon.Formula.{AggType, agg_cnt, agg_min, agg_max, agg_sum, agg_avg, agg_med}

-- A group type: its constructor, add_event and finalize_group.
pub record GroupOps (E G : Type 0) : Type 0 where
  pub first : E → G
  pub add_event : E → G → G
  pub finalize_group : G → E

module _ (D : Double) where
  unfoldable pub max_group : GroupOps (EventData D) (EventData D)
  unfolding greater
  max_group = record {
    first = λ e. e;
    add_event = λ val res. if greater D val res then val else res;
    finalize_group = λ res. res;
  }

  unfoldable pub min_group : GroupOps (EventData D) (EventData D)
  unfolding less
  min_group = record {
    first = λ e. e;
    add_event = λ val res. if less D val res then val else res;
    finalize_group = λ res. res;
  }

  -- `res_ + val`, which is never undefined.
  unfoldable pub sum_event : EventData D → EventData D → EventData D
  unfolding plus
  sum_event val res = elim (plus D res val) [ none ↦ res | some s ↦ s ]

  unfoldable pub sum_group : GroupOps (EventData D) (EventData D)
  unfolding sum_event
  sum_group = record { first = λ e. e; add_event = sum_event; finalize_group = λ res. res }

  unfoldable pub count_group : GroupOps (EventData D) ℕ
  count_group = record {
    first = λ e. 1;
    add_event = λ val counter. (counter + 1) % size_t_mod;
    finalize_group = λ counter. int counter;
  }

  unfoldable pub avg_group : GroupOps (EventData D) (D.Carrier × ℕ)
  unfolding to_double
  avg_group = record {
    first = λ e. (to_double D e, 1);
    add_event = λ val g. (D.add g.0 (to_double D val), (g.1 + 1) % size_t_mod);
    finalize_group = λ g. float (D.div g.0 (D.of_size g.1));
  }

  -- The median of sorted values; `at` past the end, which the size excludes, reads 0.
  unfoldable pub median : List (EventData D) → EventData D
  unfolding to_double
  median values =
      let n = length values in
      if n % 2 == 0
      then float (
          D.div
            (D.add (to_double D (get_or values (n / 2) (int 0)))
              (to_double D (get_or values (n / 2 - 1) (int 0))))
            (D.of_int 2))
      else float (to_double D (get_or values (n / 2) (int 0)))

  unfoldable pub med_group :
      ((EventData D → EventData D → Bool) → List (EventData D) → List (EventData D))
      → GroupOps (EventData D) (List (EventData D))
  unfolding median compat_less
  med_group sort = record {
    first = λ e. e ∷ [];
    add_event = λ val values. values ++ (val ∷ []);
    finalize_group = λ values. median (sort (compat_less D) values);
  }

-- grouped_state<GroupType>: the map from groups to their states is all of it.
module _ {E G : Type 0} (ops : GroupOps E G) (S : HashSet (List E)) (M : HashMap (List E) G) where
  unfoldable pub add_result : List E → E → M.Carrier → M.Carrier
  add_result group val groups =
      M.insert_or_assign group
        (elim (M.find group groups) [ none ↦ ops.first val | some g ↦ ops.add_event val g ]) groups

  unfoldable pub add_groups : List (List E × G) → Table S → Table S
  unfolding add_row
  add_groups [] res = res
  add_groups ((group, g) ∷ l) res =
      add_groups l (add_row S (group ++ (ops.finalize_group g ∷ [])) res)

  unfoldable pub finalize_table : ℕ → M.Carrier → OptTable S × M.Carrier
  unfolding add_groups of_size to_opt
  finalize_table nfvs groups = (to_opt S (add_groups (M.entries groups) (of_size S nfvs)), M.empty)

  module _ (junk : E) where
    -- The loop of aggregation_impl::eval over the rows.
    unfoldable pub add_rows : List ℕ → ℕ → List (List E) → M.Carrier → M.Carrier
    unfolding filter_row add_result
    add_rows group_var_idxs term_var_idx [] groups = groups
    add_rows group_var_idxs term_var_idx (e ∷ rows) groups =
        add_rows group_var_idxs term_var_idx rows
          (add_result (filter_row junk group_var_idxs e) (get_or e term_var_idx junk) groups)

    -- aggregation_impl::eval with this kind of group; an empty table comes as none.
    unfoldable pub eval_groups :
        E → Bool → List ℕ → ℕ → ℕ → OptTable S → M.Carrier → OptTable S × M.Carrier
    unfolding add_rows finalize_table singleton_table
    eval_groups default_val all_bound group_var_idxs term_var_idx nfvs none groups =
        if all_bound
        then (some (singleton_table S default_val), groups)
        else finalize_table nfvs groups
    eval_groups default_val all_bound group_var_idxs term_var_idx nfvs (some tab) groups =
        finalize_table nfvs (add_rows group_var_idxs term_var_idx (S.to_list tab.rows) groups)

-- The loop of the constructor over the layout, from the column idx on.
pub record AggLayout : Type 0 where
  pub term_var_idx : ℕ
  pub group_var_idxs : List ℕ
  pub res_layout : List ℕ
  pub all_bound : Bool

unfoldable pub agg_layout : ℕ → ℕ → ℕ → List ℕ → AggLayout → AggLayout
agg_layout trm_var num_bound_vars idx [] info = info
agg_layout trm_var num_bound_vars idx (var ∷ layout) info =
    let found = if var == trm_var then idx else info.term_var_idx in
    agg_layout trm_var num_bound_vars (idx + 1) layout (
      if leb num_bound_vars var
      then record {
        term_var_idx = found;
        group_var_idxs = info.group_var_idxs ++ (idx ∷ []);
        res_layout = info.res_layout ++ ((var - num_bound_vars) ∷ []);
        all_bound = false;
      }
      else record info { term_var_idx = found })

module _ (D : Double) (S : HashSet (List (EventData D)))
    (H : (G : Type 0) → HashMap (List (EventData D)) G) where
  -- The state by the kind of aggregation.
  pub data AggState : Type 0 where
    sum_state : (H (EventData D)).Carrier → AggState
    max_state : (H (EventData D)).Carrier → AggState
    min_state : (H (EventData D)).Carrier → AggState
    count_state : (H ℕ).Carrier → AggState
    avg_state : (H (D.Carrier × ℕ)).Carrier → AggState
    med_state : (H (List (EventData D))).Carrier → AggState

  pub record AggregationImpl : Type 0 where
    pub default_val : EventData D
    pub info : AggLayout
    pub nfvs : ℕ
    pub state : AggState

  unfoldable pub state_of : AggType → AggState
  state_of agg_sum = sum_state (H (EventData D)).empty
  state_of agg_max = max_state (H (EventData D)).empty
  state_of agg_min = min_state (H (EventData D)).empty
  state_of agg_cnt = count_state (H ℕ).empty
  state_of agg_avg = avg_state (H (D.Carrier × ℕ)).empty
  state_of agg_med = med_state (H (List (EventData D))).empty

  -- The constructor. A term that is no variable makes it throw: none.
  unfoldable pub aggregation_impl :
      List ℕ → Term (EventData D) → EventData D → AggType → ℕ → ℕ → Option AggregationImpl
  unfolding agg_layout state_of get_if_var
  aggregation_impl phi_layout agg_term default_val ty res_var num_bound_vars =
      elim (get_if_var agg_term) [
        | none ↦ none
        | some trm_var ↦
            let info = agg_layout trm_var num_bound_vars 0 phi_layout (record {
              term_var_idx = size_t_mod - 1;
              group_var_idxs = [];
              res_layout = [];
              all_bound = true;
            }) in
            let res_layout = info.res_layout ++ (res_var ∷ []) in
            some (record {
              default_val = default_val;
              info = record info { res_layout = res_layout };
              nfvs = length res_layout;
              state = state_of ty;
            })
      ]

  unfoldable pub get_layout : AggregationImpl → List ℕ
  get_layout impl = impl.info.res_layout

  module _ (sort : (EventData D → EventData D → Bool) → List (EventData D) → List (EventData D))
      (junk : EventData D) where
    abbrev run_groups :
        {G : Type 0}
        → GroupOps (EventData D) G
        → ((H G).Carrier → AggState)
        → OptTable S
        → AggregationImpl
        → (H G).Carrier
        → OptTable S × AggregationImpl
    run_groups {G} ops make tab impl groups =
        let (res, groups2) =
          eval_groups ops S (H G) junk impl.default_val impl.info.all_bound impl.info.group_var_idxs
            impl.info.term_var_idx impl.nfvs tab groups in
        (res, record impl { state = make groups2 })

    unfoldable pub eval_state :
        AggState → OptTable S → AggregationImpl → OptTable S × AggregationImpl
    unfolding eval_groups sum_group max_group min_group count_group avg_group med_group
    eval_state (sum_state m) tab impl = run_groups (sum_group D) sum_state tab impl m
    eval_state (max_state m) tab impl = run_groups (max_group D) max_state tab impl m
    eval_state (min_state m) tab impl = run_groups (min_group D) min_state tab impl m
    eval_state (count_state m) tab impl = run_groups (count_group D) count_state tab impl m
    eval_state (avg_state m) tab impl = run_groups (avg_group D) avg_state tab impl m
    eval_state (med_state m) tab impl = run_groups (med_group D sort) med_state tab impl m

    unfoldable pub eval : OptTable S → AggregationImpl → OptTable S × AggregationImpl
    unfolding eval_state
    eval tab impl = eval_state impl.state tab impl

    -- MAgg::eval
    unfoldable pub magg_eval :
        List (OptTable S) → AggregationImpl → List (OptTable S) × AggregationImpl
    unfolding eval
    magg_eval [] impl = ([], impl)
    magg_eval (tab ∷ rec_tabs) impl =
        let (res, impl2) = eval tab impl in
        let (rest, impl3) = magg_eval rec_tabs impl2 in (res ∷ rest, impl3)
