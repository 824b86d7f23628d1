-- ===== src/Monitor/Shift/Streams.antt =====
-- The calls of MPrev::eval and MNext::eval as streams of tables and timestamps.
use cppmon.Shared.{ℕ, ◌+◌, ◌-◌, ◌≤◌, ◌≡◌, refl, Option, List, [], ◌∷◌, ◌++◌, length}
use cppmon.Interval.{Interval}
use cppmon.Monitor.Shift.{shifted}

module _ {A : Type 0} where
  abbrev pub all_tabs : List (List (Option A) × List ℕ) → List (Option A)
  all_tabs [] = []
  all_tabs ((tabs, ts) ∷ calls) = tabs ++ all_tabs calls

  abbrev pub all_ts : List (List (Option A) × List ℕ) → List ℕ
  all_ts [] = []
  all_ts ((tabs, ts) ∷ calls) = ts ++ all_ts calls

  -- The subformula never has more tables than there are timestamps; `n` have no table yet.
  abbrev pub Fed : ℕ → List (List (Option A) × List ℕ) → Type 0
  Fed n [] = Unit
  Fed n ((tabs, ts) ∷ calls) =
      (length tabs ≤ n + length ts) × Fed (n + length ts - length tabs) calls

module _ {A : Type 0} (inter : Interval) where
  -- The tables whose next timestamp is known, each let through if the difference to it is in the
  -- interval.
  abbrev pub gated : List ℕ → List (Option A) → List (Option A)
  gated [] tabs = []
  gated (t0 ∷ []) tabs = []
  gated (t0 ∷ t1 ∷ ts) [] = []
  gated (t0 ∷ t1 ∷ ts) (tab ∷ tabs) = shifted inter t0 t1 tab ∷ gated (t1 ∷ ts) tabs

  pub gated-none : (ts : List ℕ) → gated ts [] ≡ []
  gated-none [] = refl
  gated-none (t0 ∷ []) = refl
  gated-none (t0 ∷ t1 ∷ ts) = refl
