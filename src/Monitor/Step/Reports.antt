-- ===== src/Monitor/Step/Reports.antt =====
-- monitor::step over every run: each table is reported once, with its time point and timestamp.
use cppmon.Shared.{
  ℕ, zero, suc, ◌+◌, ◌≡◌, Option, none, some, List, [], ◌∷◌, ◌++◌, length, ltb, if◌then◌else◌,
}
use cppmon.Hash.{HashSet, HashMap}
use cppmon.Table.{OptTable}
use cppmon.Monitor.Step.{Monitor, Satisfactions, maximum_timestamp, output_tab, step}

abbrev nth : List ℕ → ℕ → Option ℕ
nth [] i = none
nth (t ∷ ts) zero = some t
nth (t ∷ ts) (suc i) = nth ts i

module _ {T : Type 0} (S : HashSet (List T)) (junk : T) (N : HashMap ℕ ℕ) where
  -- The tables with their time points and timestamps, without those of the last step.
  abbrev pub reported : List ℕ → ℕ → List (OptTable S) → List ℕ → Satisfactions T
  reported perm tp [] ts = []
  reported perm tp (sat ∷ sats) [] = []
  reported perm tp (sat ∷ sats) (t ∷ ts) =
      let rest = reported perm (suc tp) sats ts in
      if ltb t maximum_timestamp then (t, tp, output_tab S junk N perm sat) ∷ rest else rest

  -- The map has the timestamps `ts` at the time points from the current one on, and no others.
  abbrev Numbered : Monitor S junk N → List ℕ → Type 0
  Numbered st ts =
      ((i : ℕ) → N.find (st.curr_tp + i) st.tp_ts_map ≡ nth ts i)
      × (st.max_tp ≡ st.curr_tp + length ts)

  unfoldable pub run_step :
      Monitor S junk N → List (List (OptTable S) × List ℕ) → Satisfactions T × Monitor S junk N
  run_step st [] = ([], st)
  run_step st ((sats, ts) ∷ calls) =
      let (out, st') = step S junk N sats ts st in
      let (more, st'') = run_step st' calls in (out ++ more, st'')
