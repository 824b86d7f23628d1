-- ===== src/Monitor/Shift.antt =====
-- src/monitor.cpp: MPrev and MNext, which shift the tables of their subformula by one time point.
-- A read of past_ts past its end, which the assertions exclude, gives 0.
pub mod Streams
pub mod Prev
pub mod Next
use cppmon.Shared.{
  ℕ, zero, suc, Bool, true, false, Option, none, some, List, [], ◌∷◌, ◌++◌, length, get_or, leb,
  if◌then◌else◌,
}
use cppmon.Interval.{Interval, sub_size_t}
use cppmon.Interval

-- num_fvs, which eval does not read, and the state of the subformula are left out.
pub record MPrev (A : Type 0) : Type 0 where
  pub inter : Interval
  pub buf : Option (Option A)
  pub past_ts : List ℕ
  pub is_first : Bool

-- What the loop of MPrev::eval leaves: its results, and the rest of past_ts and of the tables.
pub record Looped (A : Type 0) : Type 0 where
  pub res : List (Option A)
  pub past_ts : List ℕ
  pub tabs : List (Option A)

-- Likewise without num_fvs and the state of the subformula.
pub record MNext : Type 0 where
  pub inter : Interval
  pub past_ts : List ℕ
  pub is_first : Bool

unfoldable pub pop_front : List ℕ → List ℕ
pop_front [] = []
pop_front (t ∷ past) = past

-- The loop of MNext::eval: the results, and the rest of past_ts.
module _ {A : Type 0} where
  -- The table, if the difference of the timestamps is in the interval.
  unfoldable pub shifted : Interval → ℕ → ℕ → Option A → Option A
  shifted inter t0 t1 tab = if Interval.contains inter (sub_size_t t1 t0) then tab else none

  unfoldable pub prev_loop : Interval → List ℕ → List (Option A) → Looped A
  unfolding shifted
  prev_loop inter past [] = record { res = []; past_ts = past; tabs = [] }
  prev_loop inter [] (tab ∷ tabs) = record { res = []; past_ts = []; tabs = tab ∷ tabs }
  prev_loop inter (t0 ∷ []) (tab ∷ tabs) = record { res = []; past_ts = t0 ∷ []; tabs = tab ∷ tabs }
  prev_loop inter (t0 ∷ t1 ∷ past) (tab ∷ tabs) =
      let rest = prev_loop inter (t1 ∷ past) tabs in
      record rest { res = shifted inter t0 t1 tab ∷ rest.res }

  -- The block `if (past_ts.size() >= 2)`, with the buffer that it leaves.
  unfoldable pub prev_shift :
      Interval → Option (Option A) → List ℕ → List (Option A) → Looped A × Option (Option A)
  unfolding prev_loop shifted
  prev_shift inter (some tab) (t0 ∷ t1 ∷ past) tabs =
      let rest = prev_loop inter (t1 ∷ past) tabs in
      (record rest { res = shifted inter t0 t1 tab ∷ rest.res }, none)
  prev_shift inter none (t0 ∷ t1 ∷ past) tabs = (prev_loop inter (t0 ∷ t1 ∷ past) tabs, none)
  prev_shift inter buf (t0 ∷ []) tabs = (record { res = []; past_ts = t0 ∷ []; tabs = tabs }, buf)
  prev_shift inter buf [] tabs = (record { res = []; past_ts = []; tabs = tabs }, buf)

  -- The table that is left over waits in the buffer.
  unfoldable pub keep_table : Option (Option A) → List (Option A) → Option (Option A)
  keep_table buf [] = buf
  keep_table buf (tab ∷ tabs) = some tab

  unfoldable pub prev_eval : List (Option A) → List ℕ → MPrev A → List (Option A) × MPrev A
  unfolding prev_shift keep_table
  prev_eval [] ts st = ([], record st { past_ts = st.past_ts ++ ts })
  prev_eval (tab ∷ tabs) ts st =
      let (out, buf) = prev_shift st.inter st.buf (st.past_ts ++ ts) (tab ∷ tabs) in
      (
        (if st.is_first then none ∷ out.res else out.res),
        record st { buf = keep_table buf out.tabs; past_ts = out.past_ts; is_first = false },
      )

  unfoldable pub next_loop : Interval → List ℕ → List (Option A) → List (Option A) × List ℕ
  unfolding shifted pop_front
  next_loop inter past [] = ([], past)
  next_loop inter past (tab ∷ tabs) =
      let rest = next_loop inter (pop_front past) tabs in
      (shifted inter (get_or past 0 0) (get_or past 1 0) tab ∷ rest.0, rest.1)

  unfoldable pub next_eval : List (Option A) → List ℕ → MNext → List (Option A) × MNext
  unfolding next_loop
  next_eval [] ts st = ([], record st { past_ts = st.past_ts ++ ts })
  next_eval (tab ∷ tabs) ts st =
      let out = next_loop st.inter (st.past_ts ++ ts) (if st.is_first then tabs else tab ∷ tabs) in
      (out.0, record st { past_ts = out.1; is_first = false })
