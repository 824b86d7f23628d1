-- ===== src/Tests/Rows.antt =====
-- The operations of src/table.h on small tables.
use cppmon.Shared.{
  ℕ, ◌≡◌, refl, subst, ◌↔◌, ◌⊎◌, some, List, [], ◌∷◌, length, In, Distinct, All, arith, ℕ_discrete,
}
use cppmon.Layout.{TableLayout, filter_row, get_join_info, get_anti_join_info, find_permutation}
use cppmon.Table.{Table, contains, natural_join, anti_join, anti_join_in_place, t_union}
use cppmon.Table.Contents.{RowIn, Holds}
use cppmon.Table.Join.{HasWidth, IsJoined, restrict, natural_join-IsJoined}
use cppmon.Table.Difference.{Agrees, anti_join_iff, anti_join_in_place-anti_join}
use cppmon.Table.Union.{t_union_iff, find_permutation_inverse}
use cppmon.Tests.{sets, groups, indices, rows_eq}

abbrev pub numbers : TableLayout
numbers = 4 ∷ 6 ∷ []

abbrev pub others : TableLayout
others = 6 ∷ 5 ∷ []

abbrev pub swapped : TableLayout
swapped = 6 ∷ 4 ∷ []

abbrev pub left : Table sets
left = record { ncols = 2; rows = (1 ∷ 2 ∷ []) ∷ (3 ∷ 9 ∷ []) ∷ [] }

abbrev pub right : Table sets
right = record { ncols = 2; rows = (2 ∷ 8 ∷ []) ∷ [] }

pub numbers-Distinct : Distinct numbers
numbers-Distinct = ground arith

pub others-Distinct : Distinct others
others-Distinct = ground arith

pub swapped-Distinct : Distinct swapped
swapped-Distinct = ground arith

-- A row of a list is a row of the table.
width_of_In :
    (rows : List (List ℕ)) (row : List ℕ)
    → All (λ r. length r ≡ 2) rows
    → RowIn sets row (record { ncols = 2; rows = rows })
    → length row ≡ 2
unfolding contains
width_of_In [] row a h = absurd (cc)
width_of_In (r ∷ rows) row a h = elim (rows_eq r row) [
  | yes p ↦ subst (λ q. length q ≡ 2) p a.0
  | no n ↦ width_of_In rows row a.1 (ground arith)
]

pub left-HasWidth : HasWidth sets 2 left
left-HasWidth row h = width_of_In left.rows row (refl, (refl, tt)) h

pub right-HasWidth : HasWidth sets 2 right
right-HasWidth row h = width_of_In right.rows row (refl, tt) h

natural_join-IsJoined_example :
    Holds sets
      (1 ∷ 2 ∷ 8 ∷ [])
      (natural_join sets 0 groups left right (get_join_info indices numbers others))
    ↔ IsJoined 0 sets groups indices numbers others numbers-Distinct others-Distinct
        (get_join_info indices numbers others).result_layout
        left
        right
        (1 ∷ 2 ∷ 8 ∷ [])
natural_join-IsJoined_example =
    natural_join-IsJoined 0 sets groups indices numbers others numbers-Distinct others-Distinct left
      right (1 ∷ 2 ∷ 8 ∷ []) left-HasWidth right-HasWidth

joined :
    natural_join sets 0 groups left right (get_join_info indices numbers others)
    ≡ some (record { ncols = 3; rows = (1 ∷ 2 ∷ 8 ∷ []) ∷ [] })
unfolding natural_join get_join_info rows_eq ℕ_discrete
joined = refl

anti_join_iff_example :
    Holds sets
      (3 ∷ 9 ∷ [])
      (anti_join sets 0 left right (get_anti_join_info indices numbers others))
    ↔ (RowIn sets (3 ∷ 9 ∷ []) left
        × ¬ Agrees 0 sets indices numbers others numbers-Distinct others-Distinct right
            (3 ∷ 9 ∷ []))
anti_join_iff_example =
    anti_join_iff 0 sets indices numbers others numbers-Distinct others-Distinct left right
      (3 ∷ 9 ∷ [])

anti_join_in_place-anti_join_example :
    RowIn sets
      (3 ∷ 9 ∷ [])
      (anti_join_in_place sets 0 left right (get_anti_join_info indices numbers others))
    ↔ Holds sets
        (3 ∷ 9 ∷ [])
        (anti_join sets 0 left right (get_anti_join_info indices numbers others))
anti_join_in_place-anti_join_example =
    anti_join_in_place-anti_join 0 sets left right (get_anti_join_info indices numbers others)
      (3 ∷ 9 ∷ [])

pub into_swapped : (v : ℕ) → In v numbers → In v swapped
into_swapped v i = ground arith

pub from_swapped : (v : ℕ) → In v swapped → In v numbers
from_swapped v i = ground arith

pub swap : find_permutation indices numbers swapped ≡ some (1 ∷ 0 ∷ [])
unfolding find_permutation ℕ_discrete
swap = refl

t_union_iff_example : RowIn sets (8 ∷ 2 ∷ []) (t_union sets 0 left right (1 ∷ 0 ∷ [])) ↔ (
    RowIn sets (8 ∷ 2 ∷ []) left
    ⊎ ((length {A = ℕ} (8 ∷ 2 ∷ []) ≡ 2)
        × RowIn sets (restrict 0 numbers swapped (8 ∷ 2 ∷ [])) right))
t_union_iff_example =
    t_union_iff 0 sets indices numbers swapped numbers-Distinct swapped-Distinct into_swapped
      from_swapped left right (1 ∷ 0 ∷ []) (8 ∷ 2 ∷ []) swap right-HasWidth

find_permutation_inverse_example :
    (p : List ℕ) × (q : List ℕ) × (find_permutation indices numbers swapped ≡ some p)
    × (find_permutation indices swapped numbers ≡ some q)
    × (filter_row {T = ℕ} 0 q (filter_row {T = ℕ} 0 p (2 ∷ 8 ∷ [])) ≡ 2 ∷ 8 ∷ [])
find_permutation_inverse_example =
    find_permutation_inverse 0 sets indices numbers swapped numbers-Distinct swapped-Distinct
      into_swapped from_swapped (2 ∷ 8 ∷ []) refl
