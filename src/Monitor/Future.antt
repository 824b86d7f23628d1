-- ===== src/Monitor/Future.antt =====
-- src/monitor.cpp and src/monitor.h: MUntil and MEventually, over what the subformulas return.
pub mod Runs
use cppmon.Shared.{ℕ, List, [], ◌∷◌, ◌++◌}
use cppmon.Hash.{HashSet, HashMap}
use cppmon.Table.{OptTable}
use cppmon.Buffer.{BinaryBuffer, update_and_reduce}
use cppmon.Until.{UntilBase, UntilImpl, eval, add_right_table, add_tables, until_eval}
use cppmon.Monitor.Eval.{take_ts}

-- `ts_buf.empty() ? new_ts : ts_buf.front()`
unfoldable pub next_ts : ℕ → List ℕ → ℕ
next_ts new_ts [] = new_ts
next_ts new_ts (ts ∷ ts_buf) = ts

-- The tables of all calls of the reduction, in order.
unfoldable pub flatten : {A : Type 0} → List (List A) → List A
flatten [] = []
flatten (tabs ∷ res) = tabs ++ flatten res

module _ {T : Type 0} (S : HashSet (List T)) (B : HashMap (List T) ℕ) where
  pub record MUntil : Type 0 where
    pub buf : BinaryBuffer (OptTable S)
    pub ts_buf : List ℕ
    pub impl : UntilImpl S B

  -- reduction_fn of MUntil::eval, on ts_buf and impl
  unfoldable pub until_tabs :
      T
      → OptTable S
      → OptTable S
      → List ℕ × UntilImpl S B
      → List (OptTable S) × (List ℕ × UntilImpl S B)
  unfolding take_ts next_ts add_tables until_eval
  until_tabs junk tab_l tab_r (ts_buf, impl) =
      let (new_ts, ts_buf2) = take_ts ts_buf in
      let added = add_tables S B junk tab_l tab_r new_ts impl in
      let (res, impl2) = until_eval S B (next_ts new_ts ts_buf2) added in (res, (ts_buf2, impl2))

  unfoldable pub muntil_eval :
      T → List (OptTable S) → List (OptTable S) → List ℕ → MUntil → List (OptTable S) × MUntil
  unfolding until_tabs update_and_reduce flatten
  muntil_eval junk l_tabs r_tabs ts st =
      let (res, buf, s) =
        update_and_reduce (until_tabs junk) st.buf l_tabs r_tabs (st.ts_buf ++ ts, st.impl) in
      (flatten res, record { buf = buf; ts_buf = s.0; impl = s.1 })

  pub record MEventually : Type 0 where
    pub ts_buf : List ℕ
    pub impl : UntilBase S B

  -- the loop of MEventually::eval
  unfoldable pub eventually_tabs :
      List (OptTable S) → List ℕ → UntilBase S B → List (OptTable S) × List ℕ × UntilBase S B
  unfolding take_ts next_ts eval add_right_table
  eventually_tabs [] ts_buf impl = ([], ts_buf, impl)
  eventually_tabs (tab ∷ rec_tabs) ts_buf impl =
      let (new_ts, ts_buf2) = take_ts ts_buf in
      let (part, impl2) = eval S B (next_ts new_ts ts_buf2) (add_right_table S B tab new_ts impl) in
      let (rest, ts_buf3, impl3) = eventually_tabs rec_tabs ts_buf2 impl2 in
      (part ++ rest, ts_buf3, impl3)

  unfoldable pub eventually_eval :
      List (OptTable S) → List ℕ → MEventually → List (OptTable S) × MEventually
  unfolding eventually_tabs
  eventually_eval rec_tabs ts st =
      let (res, ts_buf, impl) = eventually_tabs rec_tabs (st.ts_buf ++ ts) st.impl in
      (res, record { ts_buf = ts_buf; impl = impl })
