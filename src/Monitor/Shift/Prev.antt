-- ===== src/Monitor/Shift/Prev.antt =====
-- MPrev over every run: the stream of its subformula, shifted.
use cppmon.Shared.{ℕ, Bool, true, false, Option, none, some, List, [], ◌∷◌, ◌++◌}
use cppmon.Interval.{Interval}
use cppmon.Monitor.Shift.{MPrev, prev_eval}
use cppmon.Monitor.Shift.Streams.{gated}

module _ {A : Type 0} (inter : Interval) where
  -- The whole stream of PREVIOUS: nothing at the first time point.
  abbrev pub previous : List ℕ → List (Option A) → List (Option A)
  previous ts [] = []
  previous ts (tab ∷ tabs) = none ∷ gated inter ts (tab ∷ tabs)

  abbrev pending : Option (Option A) → List (Option A)
  pending none = []
  pending (some tab) = tab ∷ []

  -- The calls in turn: the tables of the subformula and the new timestamps of each.
  unfoldable pub run_prev : MPrev A → List (List (Option A) × List ℕ) → List (Option A) × MPrev A
  run_prev st [] = ([], st)
  run_prev st ((tabs, ts) ∷ calls) =
      let (out, st') = prev_eval tabs ts st in
      let (more, st'') = run_prev st' calls in (out ++ more, st'')

  abbrev lead : Bool → List (Option A) → List (Option A)
  lead false tabs = []
  lead true [] = []
  lead true (tab ∷ tabs) = none ∷ []

  -- The table that waits, if its next timestamp is known already.
  abbrev pub waiting : MPrev A → List (Option A)
  waiting st = gated inter st.past_ts (pending st.buf)
