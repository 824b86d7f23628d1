-- ===== src/Monitor/Shift/Next.antt =====
-- MNext over every run: the stream of its subformula without the first table.
use cppmon.Shared.{ℕ, suc, Bool, true, false, Option, List, [], ◌∷◌, ◌++◌}
use cppmon.Interval.{Interval}
use cppmon.Monitor.Shift.{MNext, next_eval}
use cppmon.Monitor.Shift.Streams.{gated}

-- How many timestamps there are, when `n` have no table yet.
abbrev spare : Bool → ℕ → ℕ
spare true n = n
spare false n = suc n

module _ {A : Type 0} (inter : Interval) where
  -- The whole stream of NEXT: the first table is dropped.
  abbrev pub next : List ℕ → List (Option A) → List (Option A)
  next ts [] = []
  next ts (tab ∷ tabs) = gated inter ts tabs

  -- The tables that are not dropped.
  abbrev counting : Bool → List (Option A) → List (Option A)
  counting false tabs = tabs
  counting true [] = []
  counting true (tab ∷ tabs) = tabs

  unfoldable pub run_next : MNext → List (List (Option A) × List ℕ) → List (Option A) × MNext
  run_next st [] = ([], st)
  run_next st ((tabs, ts) ∷ calls) =
      let (out, st') = next_eval tabs ts st in
      let (more, st'') = run_next st' calls in (out ++ more, st'')
