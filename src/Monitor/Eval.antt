-- ===== src/Monitor/Eval.antt =====
-- src/monitor.cpp and src/monitor.h: MNeg, MAnd, MOr, MSince and MOnce. A vector of tables has one
-- table for each time point.
pub mod Tables
pub mod Temporal
pub mod Once
pub mod Meaning
use cppmon.Shared.{ℕ, Bool, true, false, Option, none, some, List, [], ◌∷◌, ◌++◌, ◌⊎◌, inl, inr}
use cppmon.Hash.{HashSet, HashMap}
use cppmon.Layout.{JoinInfo, AntiJoinInfo}
use cppmon.Table.{Table, OptTable, of_size, unit_table, natural_join, anti_join, t_union_in_place}
use cppmon.Buffer.{BinaryBuffer, update_and_reduce}
use cppmon.Since.{SinceState, eval, eval_once}

-- `ts_buf.front()` and the buffer without it. On an empty buffer, which the assertion excludes, 0.
unfoldable pub take_ts : List ℕ → ℕ × List ℕ
take_ts [] = (0, [])
take_ts (ts ∷ ts_buf) = (ts, ts_buf)

module _ {T : Type 0} (S : HashSet (List T)) where
  unfoldable pub neg_tab : OptTable S → OptTable S
  neg_tab none = some (unit_table S)
  neg_tab (some tab) = none

  unfoldable pub neg_eval : List (OptTable S) → List (OptTable S)
  unfolding neg_tab
  neg_eval [] = []
  neg_eval (tab ∷ rec_tabs) = neg_tab tab ∷ neg_eval rec_tabs

  module _ (junk : T) where
    -- reduction_fn of MOr::eval
    unfoldable pub or_tabs : ℕ → List ℕ → OptTable S → OptTable S → OptTable S
    or_tabs nfvs_l r_layout_permutation tab1 none = tab1
    or_tabs nfvs_l r_layout_permutation none (some tab2) =
        some (t_union_in_place S junk (of_size S nfvs_l) tab2 r_layout_permutation)
    or_tabs nfvs_l r_layout_permutation (some tab1) (some tab2) =
        some (t_union_in_place S junk tab1 tab2 r_layout_permutation)

    -- reduction_fn of MAnd::eval: a join, or an anti-join for a negated right side.
    unfoldable pub and_tabs :
        HashMap (List T) (List (List T))
        → JoinInfo ⊎ AntiJoinInfo
        → OptTable S
        → OptTable S
        → OptTable S
    and_tabs H (inr anti_join_info) (some tab1) (some tab2) =
        anti_join S junk tab1 tab2 anti_join_info
    and_tabs H (inr anti_join_info) none tab2 = none
    and_tabs H (inr anti_join_info) (some tab1) none = some tab1
    and_tabs H (inl join_info) (some tab1) (some tab2) = natural_join S junk H tab1 tab2 join_info
    and_tabs H (inl join_info) none tab2 = none
    and_tabs H (inl join_info) (some tab1) none = none

    -- apply_recursive_bin_reduction with a function of the tables alone.
    unfoldable pub bin_reduction :
        (OptTable S → OptTable S → OptTable S)
        → BinaryBuffer (OptTable S)
        → List (OptTable S)
        → List (OptTable S)
        → List (OptTable S) × BinaryBuffer (OptTable S)
    unfolding update_and_reduce
    bin_reduction f buf rec_res1 rec_res2 =
        let o = update_and_reduce (λ a b (s : Unit). (f a b, s)) buf rec_res1 rec_res2 tt in
        (o.0, o.1)

    module _ (B : HashMap (List T) ℕ) where
      -- reduction_fn of MSince::eval, on ts_buf and impl.
      unfoldable pub since_tabs :
          OptTable S → OptTable S → List ℕ × SinceState S B → OptTable S × (List ℕ × SinceState S B)
      unfolding eval take_ts
      since_tabs tab_l tab_r (ts_buf, impl) =
          let (new_ts, ts_buf') = take_ts ts_buf in
          let (ret, impl') = eval S B junk tab_l tab_r new_ts impl in (ret, (ts_buf', impl'))

      pub record MSince : Type 0 where
        pub buf : BinaryBuffer (OptTable S)
        pub ts_buf : List ℕ
        pub impl : SinceState S B

      unfoldable pub since_eval :
          List (OptTable S) → List (OptTable S) → List ℕ → MSince → List (OptTable S) × MSince
      unfolding since_tabs update_and_reduce
      since_eval l_tabs r_tabs ts st =
          let (res, buf, s) =
            update_and_reduce since_tabs st.buf l_tabs r_tabs (st.ts_buf ++ ts, st.impl) in
          (res, record { buf = buf; ts_buf = s.0; impl = s.1 })

  module _ (B : HashMap (List T) ℕ) where
    pub record MOnce : Type 0 where
      pub ts_buf : List ℕ
      pub impl : SinceState S B

    unfoldable pub once_tabs : List (OptTable S) → MOnce → List (OptTable S) × MOnce
    unfolding eval_once take_ts
    once_tabs [] st = ([], st)
    once_tabs (tab ∷ rec_tabs) st =
        let (new_ts, ts_buf') = take_ts st.ts_buf in
        let (ret, impl') = eval_once S B tab new_ts st.impl in
        let rest = once_tabs rec_tabs (record { ts_buf = ts_buf'; impl = impl' }) in
        (ret ∷ rest.0, rest.1)

    unfoldable pub once_eval : List (OptTable S) → List ℕ → MOnce → List (OptTable S) × MOnce
    unfolding once_tabs
    once_eval rec_tabs ts st = once_tabs rec_tabs (record st { ts_buf = st.ts_buf ++ ts })
