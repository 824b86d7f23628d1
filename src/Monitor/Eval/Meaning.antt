-- ===== src/Monitor/Eval/Meaning.antt =====
-- MSince over every run, against the meaning of SINCE.
use cppmon.Shared.{ℕ, ◌-◌, ◌≤◌, ◌<◌, ◌≡◌, sym, subst, ◌↔◌, Bool, true, List, [], ◌∷◌}
use cppmon.Hash.{HashSet, HashMap}
use cppmon.Interval.{Interval, size_t_mod}
use cppmon.Interval
use cppmon.Table.{OptTable}
use cppmon.Table.Contents.{Holds}
use cppmon.Buffer.{init}
use cppmon.Since.{since_impl}
use cppmon.Since.Eval.{Input, now, Timely, after, SinceAt, eval-SinceAt}
use cppmon.Monitor.Shift.Streams.{Fed}
use cppmon.Monitor.Eval.Temporal.{
  Calls, all_l, all_r, all_times, left_calls, answers, run_since, run_since-answers,
}

module _ {T : Type 0} (S : HashSet (List T)) (junk : T) (B : HashMap (List T) ℕ) (inter : Interval)
    (nfvs : ℕ) (neg : Bool) (idx : List ℕ) where
  -- The timestamps do not go down from `t` on, and are values of size_t.
  abbrev pub Rising : ℕ → List ℕ → Type 0
  Rising t [] = Unit
  Rising t (u ∷ ts) = (u < size_t_mod) × (t ≤ u) × Rising u ts

  -- There is a table for each time point that both sides and the timestamps have reached, and each
  -- of the tables holds the row exactly when, for some time whose age is in the interval, the
  -- row was in the right table then and survived every left table since. `steps` are the time
  -- points so far, newest first.
  abbrev pub Means :
      List T
      → List (Input S)
      → List (OptTable S)
      → List (OptTable S)
      → List (OptTable S)
      → List ℕ
      → Type 0
  Means e steps [] [] rs ts = Unit
  Means e steps [] (l ∷ ls) [] ts = Unit
  Means e steps [] (l ∷ ls) (r ∷ rs) [] = Unit
  Means e steps [] (l ∷ ls) (r ∷ rs) (t ∷ ts) = ⊥
  Means e steps (o ∷ os) [] rs ts = ⊥
  Means e steps (o ∷ os) (l ∷ ls) [] ts = ⊥
  Means e steps (o ∷ os) (l ∷ ls) (r ∷ rs) [] = ⊥
  Means e steps (o ∷ os) (l ∷ ls) (r ∷ rs) (t ∷ ts) =
      let i : Input S = record { tab_l = l; tab_r = r; ts = t } in
      (Holds S e o ↔ (
        (u : ℕ) × SinceAt S B junk inter nfvs neg idx e u (i ∷ steps)
        × (Interval.contains inter (t - u) ≡ true)))
      × Means e (i ∷ steps) os ls rs ts

  answers-Means :
      (e : List T) (steps : List (Input S)) (ls rs : List (OptTable S)) (ts : List ℕ)
      → Timely S steps
      → Rising (now S steps) ts
      → Means e steps (answers S junk B (after S B junk inter nfvs neg idx steps) ls rs ts) ls rs ts
  unfolding after
  answers-Means e steps [] rs ts h up = tt
  answers-Means e steps (l ∷ ls) [] ts h up = tt
  answers-Means e steps (l ∷ ls) (r ∷ rs) [] h up = tt
  answers-Means e steps (l ∷ ls) (r ∷ rs) (t ∷ ts) h (word, le, up) =
      let i : Input S = record { tab_l = l; tab_r = r; ts = t } in
      (
        eval-SinceAt S B junk inter nfvs neg idx e i steps (word, le, h),
        answers-Means e (i ∷ steps) ls rs ts (word, le, h) up,
      )

  -- However the tables of the two sides and the timestamps arrive, as long as the left side never
  -- has more tables than there are timestamps, and the timestamps do not go down and are values of
  -- size_t: MSince returns one table for each time point that both sides and the timestamps have
  -- reached, and it holds a row exactly when, for some time whose age is in the interval, the row was
  -- in the right table then and survived every left table since.
  pub run_since-Means :
      (e : List T) (calls : Calls S junk B)
      → Fed 0 (left_calls S junk B calls)
      → Rising 0 (all_times S junk B calls)
      → let impl = since_impl S B neg nfvs idx inter in
        Means e []
          (run_since S junk B (record { buf = init; ts_buf = []; impl = impl }) calls).0
          (all_l S junk B calls)
          (all_r S junk B calls)
          (all_times S junk B calls)
  unfolding after
  run_since-Means e calls fed up =
      subst
        (λ q. Means e [] q (all_l S junk B calls) (all_r S junk B calls) (all_times S junk B calls))
        (sym (run_since-answers S junk B calls neg nfvs idx inter fed))
        (answers-Means e [] (all_l S junk B calls) (all_r S junk B calls) (all_times S junk B calls)
          tt up)
