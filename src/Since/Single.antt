-- ===== src/Since/Single.antt =====
-- The algorithm of src/since_impl.h as it acts on one row: each table is the Boolean that says
-- whether the row is in it, and each map is the row's entry. `inn` has every table that the row's
-- entry in tuple_in may come from, also for an unbounded interval, where the code keeps no tables.
pub mod Spec
pub mod Drop
pub mod Move
pub mod Step
pub mod Table
pub mod Run
use cppmon.Shared.{
  ℕ, zero, suc, ◌+◌, ◌-◌, Bool, true, false, not, Option, none, some, List, [], ◌∷◌, ◌++◌,
  if◌then◌else◌,
}
use cppmon.Interval.{Interval, sub_size_t, size_t_mod, leq_upper, gt_upper, lt_lower}
use cppmon.Interval
use cppmon.Since.{is_at, since_by}

abbrev pub Marks : Type 0
Marks = List (ℕ × Bool)

pub record Single : Type 0 where
  pub prev : Marks
  pub inn : Marks
  pub tin : Option ℕ
  pub since : Option ℕ
  pub cnt : Option ℕ

abbrev pub start : Single
start = record { prev = []; inn = []; tin = none; since = none; cnt = none }

unfoldable pub release_at : ℕ → Single → Single
release_at zero s = record s { cnt = some (size_t_mod - 1) }
release_at (suc zero) s = record s { cnt = none; since = none }
release_at (suc (suc n)) s = record s { cnt = some (suc n) }

unfoldable pub release : Single → Single
unfolding release_at
release s = elim s.cnt [ none ↦ s | some n ↦ release_at n s ]

unfoldable pub drop_in : ℕ → Bool → Single → Single
unfolding release is_at
drop_in t false s = s
drop_in t true s = release (if is_at t s.tin then record s { tin = none } else s)

unfoldable pub drop_prev : Bool → Single → Single
unfolding release
drop_prev false s = s
drop_prev true s = release s

unfoldable pub move : ℕ → Bool → Single → Single
unfolding since_by
move t false s = s
move t true s = if since_by t s.since then record s { tin = some t } else s

-- The row's entry in tuple_since after `try_emplace`, and its count after `++`.
unfoldable pub emplaced : ℕ → Bool → Option ℕ → Option ℕ
emplaced ts b since = if b then (elim since [ none ↦ some ts | some t ↦ some t ]) else since

unfoldable pub incremented : Bool → Option ℕ → Option ℕ
incremented b cnt = if b then (elim cnt [ none ↦ some 1 | some n ↦ some (n + 1) ]) else cnt

unfoldable pub count_in : ℕ → Bool → Single → Single
unfolding emplaced incremented
count_in ts b s = record s { since = emplaced ts b s.since; cnt = incremented b s.cnt }

module _ (inter : Interval) where
  unfoldable pub drop_old_in : ℕ → Marks → Single → Single
  unfolding drop_in
  drop_old_in ts [] s = record s { inn = [] }
  drop_old_in ts ((t, b) ∷ l) s = elim (leq_upper inter (sub_size_t ts t)) [
    | true ↦ record s { inn = (t, b) ∷ l }
    | false ↦ drop_old_in ts l (drop_in t b s)
  ]

  unfoldable pub drop_old_prev : ℕ → Marks → Single → Single
  unfolding drop_prev
  drop_old_prev ts [] s = record s { prev = [] }
  drop_old_prev ts ((t, b) ∷ l) s = elim (gt_upper inter (sub_size_t ts t)) [
    | true ↦ drop_old_prev ts l (drop_prev b s)
    | false ↦ record s { prev = (t, b) ∷ l }
  ]

  unfoldable pub drop_too_old : ℕ → Single → Single
  unfolding drop_old_in drop_old_prev
  drop_too_old ts s = let s' = drop_old_in ts s.inn s in drop_old_prev ts s'.prev s'

  unfoldable pub move_prev : ℕ → Marks → Single → Single
  unfolding move
  move_prev ts [] s = record s { prev = [] }
  move_prev ts ((t, b) ∷ l) s = elim (lt_lower inter (sub_size_t ts t)) [
    | true ↦ record s { prev = (t, b) ∷ l }
    | false ↦ move_prev ts l (let s' = move t b s in record s' { inn = s'.inn ++ (t, b) ∷ [] })
  ]

  unfoldable pub add_new_ts : ℕ → Single → Single
  unfolding drop_too_old move_prev
  add_new_ts ts s =
      let s' = if not (Interval.is_bounded inter) then s else drop_too_old ts s in
      move_prev ts s'.prev s'

  unfoldable pub add_new_table : Bool → ℕ → Single → Single
  unfolding count_in
  add_new_table b ts s =
      let s' = count_in ts b s in
      if Interval.contains inter 0
      then record s' { inn = s'.inn ++ (ts, b) ∷ []; tin = if b then some ts else s'.tin }
      else record s' { prev = s'.prev ++ (ts, b) ∷ [] }

-- Whether the row survives the left table.
unfoldable pub join : Bool → Single → Single
join true s = s
join false s = record s { tin = none; since = none }

unfoldable pub step : Interval → ℕ → Bool → Bool → Single → Single
unfolding add_new_ts join add_new_table
step inter ts l r s = add_new_table inter r ts (join l (add_new_ts inter ts s))
