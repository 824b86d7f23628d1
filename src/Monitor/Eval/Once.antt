-- ===== src/Monitor/Eval/Once.antt =====
-- MOnce over every run: the operator's implementation on the stream of tables, at the times of the
-- time points.
use cppmon.Shared.{
  ℕ, ◌+◌, ◌-◌, ◌≤◌, ◌≡◌, refl, ap, ◌∙◌, false, List, [], ◌∷◌, ◌++◌, length, length-append, arith,
}
use mathlib.Core.List.{append_assoc}
use cppmon.Hash.{HashSet, HashMap}
use cppmon.Interval.{Interval}
use cppmon.Table.{OptTable}
use cppmon.Since.{SinceState, since_impl, eval_once}
use cppmon.Monitor.Shift.Streams.{Fed, all_tabs, all_ts}
use cppmon.Monitor.Eval.{take_ts, MOnce, once_tabs, once_eval}

module _ {T : Type 0} (S : HashSet (List T)) (B : HashMap (List T) ℕ) where
  abbrev Tabs : Type 0
  Tabs = List (OptTable S)

  -- What the implementation answers on the stream, one time point after the other.
  abbrev pub answers_once : SinceState S B → Tabs → List ℕ → Tabs
  answers_once impl [] ts = []
  answers_once impl (r ∷ rs) [] = []
  answers_once impl (r ∷ rs) (t ∷ ts) =
      let (ret, impl') = eval_once S B r t impl in ret ∷ answers_once impl' rs ts

  unfoldable pub run_once : MOnce S B → List (Tabs × List ℕ) → Tabs × MOnce S B
  run_once st [] = ([], st)
  run_once st ((tabs, ts) ∷ calls) =
      let (out, st') = once_eval S B tabs ts st in
      let (more, st'') = run_once st' calls in (out ++ more, st'')

  -- With a timestamp for each table, the rest of the stream is answered from the state that is left.
  once_tabs-answers :
      (tabs more : Tabs) (ts later : List ℕ) (impl : SinceState S B)
      → length tabs ≤ length ts
      → let o = once_tabs S B tabs (record { ts_buf = ts; impl = impl }) in
        (o.0 ++ answers_once o.1.impl more (o.1.ts_buf ++ later)
          ≡ answers_once impl (tabs ++ more) (ts ++ later))
        × (length o.1.ts_buf + length tabs ≡ length ts)
  unfolding once_tabs take_ts
  once_tabs-answers [] more ts later impl h = (refl, omega arith)
  once_tabs-answers (r ∷ tabs) more [] later impl h = absurd (omega arith)
  once_tabs-answers (r ∷ tabs) more (t ∷ ts) later impl h =
      let (ret, impl') = eval_once S B r t impl in
      let (same, used) = once_tabs-answers tabs more ts later impl' (omega arith) in
      (ap (◌∷◌ ret) same, omega arith)

  run_once_from :
      (st : MOnce S B) (calls : List (Tabs × List ℕ)) (n : ℕ)
      → length st.ts_buf ≡ n
      → Fed n calls
      → (run_once st calls).0 ≡ answers_once st.impl (all_tabs calls) (st.ts_buf ++ all_ts calls)
  unfolding run_once once_eval
  run_once_from st [] n count h = refl
  run_once_from st ((tabs, ts) ∷ calls) n count (h, hs) =
      let (out, st') = once_eval S B tabs ts st in
      let (same, used) =
        once_tabs-answers tabs (all_tabs calls) (st.ts_buf ++ ts) (all_ts calls) st.impl
          (omega (arith, length-append st.ts_buf ts)) in
      ap (◌++◌ out) (
        run_once_from st' calls (n + length ts - length tabs)
          (omega (arith, used, length-append st.ts_buf ts)) hs)
      ∙ same
      ∙ ap (answers_once st.impl (tabs ++ all_tabs calls))
          (append_assoc st.ts_buf ts (all_ts calls))

  -- However the tables and the timestamps arrive, as long as there are never more tables than
  -- timestamps: MOnce returns what once_impl answers when it is given the stream table by table,
  -- each with the timestamp of its time point.
  pub run_once-answers :
      (calls : List (Tabs × List ℕ)) (nfvs : ℕ) (inter : Interval)
      → Fed 0 calls
      → let impl = since_impl S B false nfvs [] inter in
        (run_once (record { ts_buf = []; impl = impl }) calls).0
        ≡ answers_once impl (all_tabs calls) (all_ts calls)
  run_once-answers calls nfvs inter h =
      run_once_from (record { ts_buf = []; impl = since_impl S B false nfvs [] inter }) calls 0 refl
        h
