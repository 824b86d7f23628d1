-- ===== src/Table.antt =====
-- src/table.h: the class `table`, a set of rows of one width, over any type of values.
-- `junk` is what a read past the end of a row gives, which C++ leaves undefined.
pub mod Contents
pub mod Buckets
pub mod Join
pub mod Difference
pub mod Union
use cppmon.Shared.{
  ℕ, ◌≡◌, Bool, true, false, not, Option, none, some, List, [], ◌∷◌, ◌++◌, ◌==◌, if◌then◌else◌,
  length,
}
use cppmon.Hash.{HashSet, HashMap}
use cppmon.Layout.{JoinInfo, AntiJoinInfo, filter_row}

module _ {T : Type 0} (S : HashSet (List T)) where
  pub record Table : Type 0 where
    pub ncols : ℕ
    pub rows : S.Carrier

  abbrev pub OptTable : Type 0
  OptTable = Option Table

  unfoldable pub of_size : ℕ → Table
  of_size n_cols = record { ncols = n_cols; rows = S.empty }

  unfoldable pub insert_all : List (List T) → S.Carrier → S.Carrier
  insert_all [] s = s
  insert_all (row ∷ rows) s = insert_all rows (S.insert row s)

  unfoldable pub of_rows : ℕ → List (List T) → Table
  unfolding insert_all
  of_rows n_cols rows = record { ncols = n_cols; rows = insert_all rows S.empty }

  unfoldable pub empty_table : Table
  unfolding of_rows
  empty_table = of_rows 0 []

  unfoldable pub unit_table : Table
  unfolding of_rows
  unit_table = of_rows 0 ([] ∷ [])

  unfoldable pub singleton_table : T → Table
  unfolding of_rows
  singleton_table value = of_rows 1 ((value ∷ []) ∷ [])

  unfoldable pub is_nil : List (List T) → Bool
  is_nil [] = true
  is_nil (x ∷ xs) = false

  unfoldable pub empty : Table → Bool
  unfolding is_nil
  empty t = is_nil (S.to_list t.rows)

  unfoldable pub tab_size : Table → ℕ
  tab_size t = length (S.to_list t.rows)

  unfoldable pub contains : List T → Table → Bool
  contains row t = S.contains row t.rows

  unfoldable pub add_row : List T → Table → Table
  add_row row t = record t { rows = S.insert row t.rows }

  -- A table that is left empty is passed on as nullopt.
  unfoldable pub to_opt : Table → OptTable
  unfolding empty
  to_opt t = if empty t then none else some t

  -- hash_all_destructive: the rows, moved out of the table
  unfoldable pub hash_all_destructive : Table → S.Carrier
  unfolding insert_all
  hash_all_destructive t = insert_all (S.to_list t.rows) S.empty

  module _ (junk : T) where
    unfoldable pub all_contained : Table → List ℕ → List (List T) → Bool
    unfolding contains filter_row
    all_contained t perm [] = true
    all_contained t perm (row ∷ rows) =
        let rest = all_contained t perm rows in
        if not (contains (filter_row junk perm row) t) then false else rest

    unfoldable pub equal_to : Table → Table → List ℕ → Bool
    unfolding tab_size all_contained
    equal_to t other other_permutation =
        if not (tab_size t == tab_size other)
        then false
        else all_contained t other_permutation (S.to_list other.rows)

    unfoldable pub filter_rows : List ℕ → List (List T) → List (List T)
    unfolding filter_row
    filter_rows perm [] = []
    filter_rows perm (row ∷ rows) = filter_row junk perm row ∷ filter_rows perm rows

    unfoldable pub make_verdicts : Table → List ℕ → List (List T)
    unfolding filter_rows
    make_verdicts t permutation = filter_rows permutation (S.to_list t.rows)

    unfoldable pub compute_join_hash_set : Table → List ℕ → S.Carrier
    unfolding insert_all filter_rows
    compute_join_hash_set tab idxs = insert_all (filter_rows idxs (S.to_list tab.rows)) S.empty

    -- The rows of `rows` whose shared columns are not among `hash_set`.
    unfoldable pub insert_unmatched : S.Carrier → List ℕ → List (List T) → S.Carrier → S.Carrier
    unfolding filter_row
    insert_unmatched hash_set idxs [] new_rows = new_rows
    insert_unmatched hash_set idxs (row ∷ rows) new_rows = insert_unmatched hash_set idxs rows (
        if not (S.contains (filter_row junk idxs row) hash_set)
        then S.insert row new_rows
        else new_rows)

    unfoldable pub anti_join : Table → Table → AntiJoinInfo → OptTable
    unfolding to_opt compute_join_hash_set insert_unmatched
    anti_join t tab info =
        let hash_set = compute_join_hash_set tab info.comm_idx2 in
        to_opt (record {
          ncols = length info.result_layout;
          rows = insert_unmatched hash_set info.comm_idx1 (S.to_list t.rows) S.empty;
        })

    unfoldable pub anti_join_in_place : Table → Table → AntiJoinInfo → Table
    unfolding compute_join_hash_set filter_row
    anti_join_in_place t tab info =
        let hash_set = compute_join_hash_set tab info.comm_idx2 in
        record t {
          rows =
              S.erase_if (λ row. S.contains (filter_row junk info.comm_idx1 row) hash_set) t.rows;
        }

    -- t_union_impl on a const table copies the rows first; on a mutable one it adds to them.
    unfoldable pub t_union : Table → Table → List ℕ → Table
    unfolding insert_all filter_rows
    t_union tab1 tab2 other_permutation = record {
      ncols = tab1.ncols;
      rows = insert_all (filter_rows other_permutation (S.to_list tab2.rows)) tab1.rows;
    }

    unfoldable pub t_union_in_place : Table → Table → List ℕ → Table
    unfolding insert_all filter_rows
    t_union_in_place tab1 tab2 other_permutation = record tab1 {
      rows = insert_all (filter_rows other_permutation (S.to_list tab2.rows)) tab1.rows;
    }

    module _ (H : HashMap (List T) (List (List T))) where
      -- `res[col_vals].push_back(&row)` for each row
      unfoldable pub group_rows : List ℕ → List (List T) → H.Carrier → H.Carrier
      unfolding filter_row
      group_rows idxs [] res = res
      group_rows idxs (row ∷ rows) res =
          let col_vals = filter_row junk idxs row in
          group_rows idxs rows (
            H.insert_or_assign col_vals
              (elim (H.find col_vals res) [ none ↦ row ∷ [] | some bucket ↦ bucket ++ row ∷ [] ])
              res)

      unfoldable pub compute_join_hash_map : Table → List ℕ → H.Carrier
      unfolding group_rows
      compute_join_hash_map tab idxs = group_rows idxs (S.to_list tab.rows) H.empty

      unfoldable pub insert_joined : List ℕ → List T → List (List T) → S.Carrier → S.Carrier
      unfolding filter_row
      insert_joined keep_idx2 row [] new_rows = new_rows
      insert_joined keep_idx2 row (row2 ∷ bucket) new_rows =
          insert_joined keep_idx2 row bucket
            (S.insert (row ++ filter_row junk keep_idx2 row2) new_rows)

      unfoldable pub probe_rows : H.Carrier → JoinInfo → List (List T) → S.Carrier → S.Carrier
      unfolding filter_row insert_joined
      probe_rows hash_map info [] new_rows = new_rows
      probe_rows hash_map info (row ∷ rows) new_rows =
          probe_rows hash_map info rows
            (elim (H.find (filter_row junk info.comm_idx1 row) hash_map) [
              | none ↦ new_rows
              | some bucket ↦ insert_joined info.keep_idx2 row bucket new_rows
            ])

      unfoldable pub natural_join : Table → Table → JoinInfo → OptTable
      unfolding to_opt compute_join_hash_map probe_rows
      natural_join t tab info =
          let hash_map = compute_join_hash_map tab info.comm_idx2 in
          to_opt (record {
            ncols = length info.result_layout;
            rows = probe_rows hash_map info (S.to_list t.rows) S.empty;
          })
