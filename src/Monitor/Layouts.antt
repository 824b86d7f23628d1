-- ===== src/Monitor/Layouts.antt =====
-- src/monitor.cpp: how the translation of formulas finds the columns of variables: the positions
-- that terms read (get_sparse_var_2_idx), and the layout of an existential (init_exists_state).
pub mod Sparse
pub mod Exists
use cppmon.Shared.{
  ℕ, zero, suc, ◌+◌, max, Bool, true, false, Option, none, some, List, [], ◌∷◌, ◌==◌, if◌then◌else◌,
}
use cppmon.Interval.{sub_size_t}
use cppmon.Layout.{TableLayout}

-- `xs[i] = x`, at an index of the vector.
unfoldable pub set_at : List ℕ → ℕ → ℕ → List ℕ
set_at [] i x = []
set_at (y ∷ xs) zero x = x ∷ xs
set_at (y ∷ xs) (suc i) x = y ∷ set_at xs i x

-- A vector of the size, filled with 0.
unfoldable pub zeros : ℕ → List ℕ
zeros zero = []
zeros (suc n) = 0 ∷ zeros n

unfoldable pub max_element : TableLayout → ℕ
max_element [] = 0
max_element (v ∷ lay) = max v (max_element lay)

unfoldable pub res_size : TableLayout → ℕ
unfolding max_element
res_size [] = 0
res_size (v ∷ lay) = max_element (v ∷ lay) + 1

unfoldable pub fill_idx : ℕ → TableLayout → List ℕ → List ℕ
unfolding set_at
fill_idx i [] var_2_idx = var_2_idx
fill_idx i (v ∷ lay) var_2_idx = fill_idx (suc i) lay (set_at var_2_idx v i)

unfoldable pub get_sparse_var_2_idx : TableLayout → List ℕ
unfolding res_size zeros fill_idx
get_sparse_var_2_idx lay = fill_idx 0 lay (zeros (res_size lay))

-- drop_idx of init_exists_state: the first place of variable 0.
unfoldable pub drop_idx : TableLayout → Option ℕ
drop_idx [] = none
drop_idx (v ∷ rec_layout) =
    if v == 0 then some 0 else elim (drop_idx rec_layout) [ none ↦ none | some i ↦ some (suc i) ]

-- The loop of init_exists_state from the place i on.
unfoldable pub lower_from : ℕ → Option ℕ → TableLayout → TableLayout
unfolding sub_size_t
lower_from i drop [] = []
lower_from i none (v ∷ rec_layout) = sub_size_t v 1 ∷ lower_from (suc i) none rec_layout
lower_from i (some d) (v ∷ rec_layout) =
    let rest = lower_from (suc i) (some d) rec_layout in
    if i == d then rest else sub_size_t v 1 ∷ rest

unfoldable pub exists_layout : TableLayout → TableLayout
unfolding lower_from drop_idx
exists_layout rec_layout = lower_from 0 (drop_idx rec_layout) rec_layout
