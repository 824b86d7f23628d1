-- ===== src/Since/Once.antt =====
-- src/since_impl.h: `once_impl::eval` over every run, against the meaning of ONCE.
use cppmon.Shared.{ℕ, ◌-◌, ◌≡◌, refl, ◌↔◌, ◌⊎◌, inl, inr, true, false, none, List, [], ◌∷◌, map}
use cppmon.Hash.{HashSet, HashMap}
use cppmon.Interval.{Interval, size_t_mod}
use cppmon.Interval
use cppmon.Table.{OptTable}
use cppmon.Table.Contents.{Holds}
use cppmon.Since.{SinceState, since_impl, eval_once}
use cppmon.Since.Single.{Single, start, step}
use cppmon.Since.Single
use cppmon.Since.Single.Spec.{Point, Mark}
use cppmon.Since.Single.Table.{Settled, tin-Satisfied}
use cppmon.Since.Single.Run.{step-Settled}
use cppmon.Since.Project.{Shows, has, has-Holds}
use cppmon.Since.Simulation.{add_new_ts-Shows, add_new_table-Shows}
use cppmon.Since.Eval.{Input, Timely, now, start-Settled}
use cppmon.Since.Result.{produce_result-Holds}

module _ {T : Type 0} (S : HashSet (List T)) (B : HashMap (List T) ℕ) (inter : Interval)
    (nfvs : ℕ) where
  -- The state of once_impl after a run; `left_negated` and `comm_idx_r` play no part in it.
  unfoldable pub after_once : List (ℕ × OptTable S) → SinceState S B
  unfolding since_impl eval_once
  after_once [] = since_impl S B false nfvs [] inter
  after_once ((ts, tab) ∷ steps) = (eval_once S B tab ts (after_once steps)).1

  abbrev pub once_input : ℕ × OptTable S → Input S
  once_input (ts, tab) = record { tab_l = none; tab_r = tab; ts = ts }

  abbrev once_point : List T → ℕ × OptTable S → Point
  once_point e (ts, tab) = record { ts = ts; survives = true; right = has S B e tab }

  abbrev single_once : List T → List (ℕ × OptTable S) → Single
  single_once e [] = start
  single_once e ((ts, tab) ∷ steps) = step inter ts true (has S B e tab) (single_once e steps)

  after_once-Shows :
      (e : List T) (steps : List (ℕ × OptTable S))
      → Shows S B e inter false [] (after_once steps) (single_once e steps)
  unfolding since_impl eval_once after_once step Single.join
  after_once-Shows e [] = record {
    inter_is = refl;
    inf_is = refl;
    negated_is = refl;
    idx_is = refl;
    prev_is = refl;
    inn_is = λ b. refl;
    tin_is = B.find-empty e;
    since_is = B.find-empty e;
    cnt_is = λ b. B.find-empty e;
  }
  after_once-Shows e ((ts, tab) ∷ steps) =
      add_new_table-Shows S B e inter false [] ts tab _ _
        (add_new_ts-Shows S B e inter false [] ts _ _ (after_once-Shows e steps))

  single_once-Settled :
      (e : List T) (steps : List (ℕ × OptTable S))
      → Timely S (map once_input steps)
      → Settled inter
          (map (once_point e) steps)
          (now S (map once_input steps))
          (single_once e steps)
  single_once-Settled e [] h = start-Settled inter
  single_once-Settled e ((ts, tab) ∷ steps) (word, le, h) =
      let v = single_once-Settled e steps h in
      step-Settled inter (map (once_point e) steps) (now S (map once_input steps)) ts word le
        (single_once e steps) v.inv v.reached true (has S B e tab)

  -- The row was in the table that came at time `t`.
  abbrev pub OnceAt : List T → ℕ → List (ℕ × OptTable S) → Type 0
  OnceAt e t [] = ⊥
  OnceAt e t ((ts, tab) ∷ steps) = (Holds S e tab × (ts ≡ t)) ⊎ OnceAt e t steps

  Mark-OnceAt :
      (e : List T) (t : ℕ) (steps : List (ℕ × OptTable S))
      → Mark (map (once_point e) steps) t ↔ OnceAt e t steps
  Mark-OnceAt e t [] = (λ h. h, λ h. h)
  Mark-OnceAt e t ((ts, tab) ∷ steps) = (
    λ m. elim m [
      | inl (r, p) ↦ inl ((has-Holds S B e tab).0 r, p)
      | inr (l, k) ↦ inr ((Mark-OnceAt e t steps).0 k)
    ],
    λ m. elim m [
      | inl (r, p) ↦ inl ((has-Holds S B e tab).1 r, p)
      | inr k ↦ inr (refl, (Mark-OnceAt e t steps).1 k)
    ],
  )

  -- A row is in the table that the eval of a ONCE returns exactly when it was in a table that came
  -- at a time whose age is in the interval, provided that the timestamps of the calls so far do
  -- not go down and are values of size_t.
  pub eval_once-OnceAt :
      (e : List T) (ts : ℕ) (tab : OptTable S) (steps : List (ℕ × OptTable S))
      → Timely S (map once_input ((ts, tab) ∷ steps))
      → Holds S e (eval_once S B tab ts (after_once steps)).0
        ↔ ((t : ℕ) × OnceAt e t ((ts, tab) ∷ steps) × (Interval.contains inter (ts - t) ≡ true))
  unfolding eval_once after_once
  eval_once-OnceAt e ts tab steps h =
      let shows = after_once-Shows e ((ts, tab) ∷ steps) in
      let result = produce_result-Holds S B e inter false [] _ _ shows in
      let tin = tin-Satisfied inter _ ts _ (single_once-Settled e ((ts, tab) ∷ steps) h) in
      (
        λ r.
            let (t, m, c) = tin.0 (result.0 r) in (t, (Mark-OnceAt e t ((ts, tab) ∷ steps)).0 m, c),
        λ (t, m, c). result.1 (tin.1 (t, (Mark-OnceAt e t ((ts, tab) ∷ steps)).1 m, c)),
      )
