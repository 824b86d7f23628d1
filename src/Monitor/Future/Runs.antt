-- ===== src/Monitor/Future/Runs.antt =====
-- src/monitor.cpp: MEventually drives eventually_impl along a run, whatever arrives.
use cppmon.Shared.{ℕ, ◌≤◌, ◌<◌, sym, subst, List, [], ◌∷◌, ◌++◌, length, arith}
use cppmon.Hash.{HashSet, HashMap}
use cppmon.Interval.{Interval, size_t_mod}
use cppmon.Table.{OptTable}
use cppmon.Until.{UntilBase, eval, add_right_table}
use cppmon.Until.History.{History}
use cppmon.Until.Answers.{Run, add, call}
use cppmon.Monitor.Future.{MEventually, next_ts, eventually_tabs, eventually_eval}
use cppmon.Monitor.Eval.{take_ts}
use mathlib.Core.List.{append_assoc, append-nil}

-- The timestamps do not go down from `now` on, and are values of size_t.
abbrev pub Upward : ℕ → List ℕ → Type 0
Upward now [] = Unit
Upward now (t ∷ ts) = (now ≤ t) × (t < size_t_mod) × Upward t ts

Upward-from : (t : ℕ) (ts : List ℕ) → Upward t ts → Upward (next_ts t ts) ts
unfolding next_ts
Upward-from t [] u = tt
Upward-from t (x ∷ xs) u = (omega arith, u.1, u.2)

next-Between :
    (now t : ℕ) (ts : List ℕ)
    → Upward now (t ∷ ts)
    → (t ≤ next_ts t ts) × (next_ts t ts < size_t_mod)
unfolding next_ts
next-Between now t [] u = (omega arith, u.1)
next-Between now t (x ∷ xs) u = (u.2.0, u.2.1)

module _ {T : Type 0} (S : HashSet (List T)) (B : HashMap (List T) ℕ) (inter : Interval) where
  -- The tables with the timestamps that they are paired with, on top of the history.
  abbrev pub arrived : List (OptTable S) → List ℕ → History S → History S
  arrived [] ts h = h
  arrived (tab ∷ tabs) [] h = h
  arrived (tab ∷ tabs) (t ∷ ts) h = arrived tabs ts ((t, tab) ∷ h)

  eventually_tabs-Run :
      (nfvs now : ℕ) (h : History S) (out : List (OptTable S)) (impl : UntilBase S B)
      (tabs : List (OptTable S)) (ts : List ℕ)
      → Run S B inter nfvs h now out impl
      → Upward now ts
      → length tabs ≤ length ts
      → (later : ℕ) × Run S B inter nfvs
          (arrived tabs ts h)
          later
          (out ++ (eventually_tabs S B tabs ts impl).0)
          (eventually_tabs S B tabs ts impl).2
        × Upward later (eventually_tabs S B tabs ts impl).1
  unfolding eventually_tabs take_ts
  eventually_tabs-Run nfvs now h out impl [] ts r u le =
      (now, subst (λ o. Run S B inter nfvs h now o impl) (sym (append-nil out)) r, u)
  eventually_tabs-Run nfvs now h out impl (tab ∷ tabs) [] r u le = absurd (omega arith)
  eventually_tabs-Run nfvs now h out impl (tab ∷ tabs) (t ∷ ts) r u le =
      let next = next_ts t ts in
      let added = add_right_table S B tab t impl in
      let part = eval S B next added in
      let (low, high) = next-Between now t ts u in
      let (later, run, up) =
        eventually_tabs-Run nfvs next ((t, tab) ∷ h) (out ++ part.0) part.1 tabs ts
          (call next low high (add t tab u.0 u.1 r)) (Upward-from t ts u.2) (omega arith) in
      let rest = eventually_tabs S B tabs ts part.1 in
      (
        later,
        subst (λ o. Run S B inter nfvs (arrived tabs ts ((t, tab) ∷ h)) later o rest.2)
            (append_assoc out part.0 rest.0) run,
        up,
      )

  -- From a state that a run has led to, with timestamps that do not go down and are at least as
  -- many as the tables, a call of MEventually::eval goes on with that run: each table is added with
  -- its timestamp, what is returned follows the results of the run, and the timestamps that are left
  -- do not go down either.
  pub eventually_eval-Run :
      (nfvs now : ℕ) (h : History S) (out : List (OptTable S)) (tabs : List (OptTable S))
      (ts : List ℕ) (st : MEventually S B)
      → Run S B inter nfvs h now out st.impl
      → Upward now (st.ts_buf ++ ts)
      → length tabs ≤ length (st.ts_buf ++ ts)
      → (later : ℕ) × Run S B inter nfvs
          (arrived tabs (st.ts_buf ++ ts) h)
          later
          (out ++ (eventually_eval S B tabs ts st).0)
          (eventually_eval S B tabs ts st).1.impl
        × Upward later (eventually_eval S B tabs ts st).1.ts_buf
  unfolding eventually_eval
  eventually_eval-Run nfvs now h out tabs ts st r u le =
      eventually_tabs-Run nfvs now h out st.impl tabs (st.ts_buf ++ ts) r u le
