-- ===== src/Until.antt =====
-- src/until_impl.h and src/until_impl.cpp: until_impl_base, until_impl and eventually_impl. The maps
-- of a2_map are in order of the time points whose results are open, with one more at the end. The
-- private member res_acc of until_impl, which hides that of the base, is only printed.
pub mod Marks
pub mod History
pub mod Steps
pub mod Adding
pub mod NewTable
pub mod Runs
pub mod Answers
use cppmon.Shared.{
  ℕ, zero, suc, ◌+◌, ◌-◌, min, max, Bool, true, false, not, ◌&&◌, ◌||◌, Option, none, some, List,
  [], ◌∷◌, ◌++◌, ltb, leb, length, if◌then◌else◌,
}
use cppmon.Hash.{HashSet, HashMap, emplace}
use cppmon.Interval.{Interval, sub_size_t, leq_upper, get_lower}
use cppmon.Interval
use cppmon.Layout.{filter_row}
use cppmon.Table
use cppmon.Table.{Table, OptTable, of_size, to_opt}
use cppmon.Since.{add_keys}

-- The larger of a value and the one that is there, if any.
abbrev pub larger : ℕ → Option ℕ → ℕ
larger v none = v
larger v (some w) = max w v

-- erase_cond of `shift`, for the time point first_tp with the timestamp old_ts
unfoldable pub erase_cond : Bool → ℕ → ℕ → ℕ → Bool
erase_cond contains_zero first_tp old_ts tstp =
    not ((not contains_zero && ltb old_ts tstp) || (contains_zero && leb first_tp tstp))

module _ {T : Type 0} (S : HashSet (List T)) (B : HashMap (List T) ℕ) where
  pub record UntilBase : Type 0 where
    pub contains_zero : Bool
    pub first_tp : ℕ
    pub curr_tp : ℕ
    pub nfvs : ℕ
    pub inter : Interval
    pub ts_buf : List ℕ
    pub a2_map : List B.Carrier
    pub res_acc : List (OptTable S)

  unfoldable pub until_impl_base : ℕ → Interval → UntilBase
  unfolding Interval.contains
  until_impl_base nfvs inter = record {
    contains_zero = Interval.contains inter 0;
    first_tp = 0;
    curr_tp = 0;
    nfvs = nfvs;
    inter = inter;
    ts_buf = [];
    a2_map = B.empty ∷ [];
    res_acc = [];
  }

  unfoldable pub table_from_map : ℕ → B.Carrier → OptTable S
  unfolding add_keys of_size to_opt
  table_from_map nfvs mapping = to_opt S (add_keys S B (B.entries mapping) (of_size S nfvs))

  unfoldable pub put_max : List T → ℕ → B.Carrier → B.Carrier
  put_max e v m = B.insert_or_assign e (larger v (B.find e m)) m

  unfoldable pub combine_entries : List (List T × ℕ) → B.Carrier → B.Carrier
  unfolding put_max
  combine_entries [] mapping2 = mapping2
  combine_entries ((e, v) ∷ l) mapping2 = combine_entries l (put_max e v mapping2)

  unfoldable pub combine_max : B.Carrier → B.Carrier → B.Carrier
  unfolding combine_entries
  combine_max mapping1 mapping2 = combine_entries (B.entries mapping1) mapping2

  -- `a2_map[idx]`; an index past the end fails the assertion.
  unfoldable pub update_a2_inner_map : ℕ → List T → ℕ → List B.Carrier → List B.Carrier
  unfolding put_max
  update_a2_inner_map idx e new_ts_tp [] = []
  update_a2_inner_map zero e new_ts_tp (m ∷ a2_map) = put_max e new_ts_tp m ∷ a2_map
  update_a2_inner_map (suc idx) e new_ts_tp (m ∷ a2_map) =
      m ∷ update_a2_inner_map idx e new_ts_tp a2_map

  unfoldable pub merge_first : B.Carrier → List B.Carrier → List B.Carrier
  unfolding combine_max
  merge_first m [] = []
  merge_first m (m1 ∷ a2_map) = combine_max m m1 ∷ a2_map

  -- The body of the loop of `shift` and its step, on the state whose ts_buf begins with old_ts.
  unfoldable pub emit_front : ℕ → List ℕ → List B.Carrier → UntilBase → UntilBase
  unfolding erase_cond table_from_map merge_first
  emit_front old_ts ts_buf [] st = record st { ts_buf = ts_buf; first_tp = st.first_tp + 1 }
  emit_front old_ts ts_buf (m ∷ a2_map) st =
      let kept = B.erase_if (λ e tstp. erase_cond st.contains_zero st.first_tp old_ts tstp) m in
      record st {
        ts_buf = ts_buf;
        a2_map = merge_first kept a2_map;
        first_tp = st.first_tp + 1;
        res_acc = st.res_acc ++ (table_from_map st.nfvs kept ∷ []);
      }

  unfoldable pub shift_loop : ℕ → List ℕ → UntilBase → UntilBase
  unfolding emit_front
  shift_loop new_ts [] st = st
  shift_loop new_ts (old_ts ∷ ts_buf) st = elim (leq_upper st.inter (sub_size_t new_ts old_ts)) [
    | true ↦ st
    | false ↦ shift_loop new_ts ts_buf (emit_front old_ts ts_buf st.a2_map st)
  ]

  unfoldable pub shift : ℕ → UntilBase → UntilBase
  unfolding shift_loop
  shift new_ts st = shift_loop new_ts st.ts_buf st

  unfoldable pub eval : ℕ → UntilBase → List (OptTable S) × UntilBase
  unfolding shift
  eval new_ts st = let st' = shift new_ts st in (st'.res_acc, record st' { res_acc = [] })

  unfoldable pub new_ts_tp : ℕ → UntilBase → ℕ
  unfolding get_lower
  new_ts_tp new_ts st =
      if st.contains_zero
      then st.curr_tp
      else new_ts - min (sub_size_t (get_lower st.inter) 1) new_ts

  -- `ts_buf.push_back(new_ts); curr_tp++;`
  unfoldable pub push_ts : ℕ → UntilBase → UntilBase
  push_ts new_ts st = record st { ts_buf = st.ts_buf ++ (new_ts ∷ []); curr_tp = st.curr_tp + 1 }

  -- EVENTUALLY: a row of the table goes into the last map, if the interval contains 0, and the first.
  unfoldable pub eventually_row : Bool → ℕ → List T → List B.Carrier → List B.Carrier
  unfolding update_a2_inner_map
  eventually_row contains_zero tstp e a2_map =
      update_a2_inner_map 0 e tstp
        (if contains_zero then update_a2_inner_map (length a2_map - 1) e tstp a2_map else a2_map)

  unfoldable pub eventually_rows : Bool → ℕ → List (List T) → List B.Carrier → List B.Carrier
  unfolding eventually_row
  eventually_rows contains_zero tstp [] a2_map = a2_map
  eventually_rows contains_zero tstp (e ∷ rows) a2_map =
      eventually_rows contains_zero tstp rows (eventually_row contains_zero tstp e a2_map)

  abbrev pub rows_of : OptTable S → List (List T)
  rows_of none = []
  rows_of (some tab) = S.to_list tab.rows

  -- eventually_impl::update_a2_map
  unfoldable pub eventually_update : ℕ → OptTable S → UntilBase → UntilBase
  unfolding new_ts_tp eventually_rows
  eventually_update new_ts tab_r st = record st {
    a2_map =
        eventually_rows st.contains_zero (new_ts_tp new_ts st) (rows_of tab_r) st.a2_map
        ++ (B.empty ∷ []);
  }

  unfoldable pub add_right_table : OptTable S → ℕ → UntilBase → UntilBase
  unfolding shift eventually_update push_ts
  add_right_table tab_r new_ts st =
      push_ts new_ts (eventually_update new_ts tab_r (shift new_ts st))

  pub record UntilImpl : Type 0 where
    pub base : UntilBase
    pub left_negated : Bool
    pub comm_idx_r : List ℕ
    pub a1_map : B.Carrier

  unfoldable pub until_impl : Bool → ℕ → List ℕ → Interval → UntilImpl
  unfolding until_impl_base
  until_impl left_negated nfvs comm_idx_r inter = record {
    base = until_impl_base nfvs inter;
    left_negated = left_negated;
    comm_idx_r = comm_idx_r;
    a1_map = B.empty;
  }

  -- override_idx, from the entry of a1_map; none where the loop goes on to the next row.
  unfoldable pub override_idx : Bool → ℕ → Option ℕ → Option ℕ
  override_idx left_negated first_tp none = if left_negated then some 0 else none
  override_idx left_negated first_tp (some tp) =
      if left_negated
      then some (if leb (tp + 1) first_tp then 0 else tp + 1 - first_tp)
      else some (if leb tp first_tp then 0 else tp - first_tp)

  module _ (junk : T) where
    -- UNTIL: a row of the right table.
    unfoldable pub until_row : UntilImpl → ℕ → List T → List B.Carrier → List B.Carrier
    unfolding update_a2_inner_map override_idx
    until_row st tstp e a2_map =
        let a2 =
          if st.base.contains_zero
          then update_a2_inner_map (length a2_map - 1) e tstp a2_map
          else a2_map in
        elim (override_idx st.left_negated st.base.first_tp
          (B.find (filter_row junk st.comm_idx_r e) st.a1_map)) [
            | none ↦ a2
            | some idx ↦ update_a2_inner_map idx e tstp a2
          ]

    unfoldable pub until_rows : UntilImpl → ℕ → List (List T) → List B.Carrier → List B.Carrier
    unfolding until_row
    until_rows st tstp [] a2_map = a2_map
    until_rows st tstp (e ∷ rows) a2_map = until_rows st tstp rows (until_row st tstp e a2_map)

    unfoldable pub update_a2_map : ℕ → OptTable S → UntilImpl → UntilImpl
    unfolding until_rows new_ts_tp
    update_a2_map new_ts tab_r st = record st {
      base = record st.base {
        a2_map =
            until_rows st (new_ts_tp new_ts st.base) (rows_of tab_r) st.base.a2_map
            ++ (B.empty ∷ []);
      };
    }

  unfoldable pub emplace_rows : ℕ → List (List T) → B.Carrier → B.Carrier
  unfolding emplace
  emplace_rows tp [] m = m
  emplace_rows tp (e ∷ rows) m = emplace_rows tp rows (emplace B e tp m)

  unfoldable pub assign_rows : ℕ → List (List T) → B.Carrier → B.Carrier
  assign_rows tp [] m = m
  assign_rows tp (e ∷ rows) m = assign_rows tp rows (B.insert_or_assign e tp m)

  unfoldable pub updated_a1 : Bool → ℕ → OptTable S → B.Carrier → B.Carrier
  unfolding emplace_rows assign_rows Table.contains
  updated_a1 false curr_tp (some tab_l) a1_map =
      emplace_rows curr_tp (S.to_list tab_l.rows)
        (B.erase_if (λ e tp. not (Table.contains S e tab_l)) a1_map)
  updated_a1 false curr_tp none a1_map = B.empty
  updated_a1 true curr_tp (some tab_l) a1_map = assign_rows curr_tp (S.to_list tab_l.rows) a1_map
  updated_a1 true curr_tp none a1_map = a1_map

  unfoldable pub update_a1_map : OptTable S → UntilImpl → UntilImpl
  unfolding updated_a1
  update_a1_map tab_l st = record st {
    a1_map = updated_a1 st.left_negated st.base.curr_tp tab_l st.a1_map;
  }

  unfoldable pub add_tables : T → OptTable S → OptTable S → ℕ → UntilImpl → UntilImpl
  unfolding shift update_a2_map update_a1_map push_ts
  add_tables junk tab_l tab_r new_ts st =
      let st' =
        update_a1_map tab_l
          (update_a2_map junk new_ts tab_r (record st { base = shift new_ts st.base })) in
      record st' { base = push_ts new_ts st'.base }

  unfoldable pub until_eval : ℕ → UntilImpl → List (OptTable S) × UntilImpl
  unfolding eval
  until_eval new_ts st = let (res, base') = eval new_ts st.base in (res, record st { base = base' })
