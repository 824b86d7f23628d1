-- ===== src/Table/Union.antt =====
-- t_union of src/table.h as an operation on sets of rows, for tables over permuted layouts.
use cppmon.Shared.{
  ℕ, ◌≡◌, sym, ap, ◌∙◌, subst, ◌↔◌, ◌⊎◌, inl, inr, some, List, length, In, Distinct, length-map,
  map_congr,
}
use cppmon.Hash.{HashSet, HashMap}
use cppmon.Layout.{TableLayout, filter_row, find_permutation}
use cppmon.Layout.Position.{value, map-value_self, value-map}
use cppmon.Layout.Columns.{places, find_permutation_lem}
use cppmon.Table.{Table, contains, t_union, filter_rows}
use cppmon.Table.Contents.{
  RowIn, insert_all_new, insert_all_old, insert_all_inv, In-filter_rows, In-filter_rows_inv,
}
use cppmon.Table.Join.{HasWidth, restrict, filter_row-places}
use cppmon.Table.Difference.{KeyOf}

module _ {T : Type 0} (junk : T) (S : HashSet (List T)) where
  t_union_rows :
      (t tab : Table S) (perm : List ℕ) (x : List T)
      → RowIn S x (t_union S junk t tab perm) ↔ (RowIn S x t ⊎ KeyOf junk S tab perm x)
  unfolding t_union contains
  t_union_rows t tab perm x = (to, from)
    where
      added : List (List T)
      added = filter_rows S junk perm (S.to_list tab.rows)

      to : RowIn S x (t_union S junk t tab perm) → RowIn S x t ⊎ KeyOf junk S tab perm x
      to h = elim (insert_all_inv S x added t.rows h) [
        | inl i ↦
            let (r2, j, e) = In-filter_rows_inv S junk perm x (S.to_list tab.rows) i in
            inr (r2, (S.contains-to_list r2 tab.rows).1 j, e)
        | inr old ↦ inl old
      ]

      from : RowIn S x t ⊎ KeyOf junk S tab perm x → RowIn S x (t_union S junk t tab perm)
      from (inl old) = insert_all_old S x added t.rows old
      from (inr (r2, i, e)) = insert_all_new S x added t.rows (
          subst (λ k. In k added) e
            (In-filter_rows S junk perm r2 (S.to_list tab.rows)
              ((S.contains-to_list r2 tab.rows).0 i)))

  module _ (M : HashMap ℕ ℕ) (l1 l2 : TableLayout) (d1 : Distinct l1) (d2 : Distinct l2) where
    module _ (sub : (v : ℕ) → In v l1 → In v l2) (sup : (v : ℕ) → In v l2 → In v l1) where
      restrict-restrict :
          (l k : TableLayout) (row : List T)
          → Distinct k
          → ((v : ℕ) → In v k → In v l)
          → length row ≡ length k
          → restrict junk l k (restrict junk k l row) ≡ row
      restrict-restrict l k row d h w =
          map_congr _ _ k (λ v i. value-map junk l (value junk k row) v (h v i))
          ∙ map-value_self junk k row d w

      -- Between layouts with the same distinct variables find_permutation succeeds both ways, and
      -- a row that fits and is permuted by the one and then the other is what it was.
      pub find_permutation_inverse :
          (row : List T)
          → length row ≡ length l2
          → (p : List ℕ) × (q : List ℕ) × (find_permutation M l1 l2 ≡ some p)
            × (find_permutation M l2 l1 ≡ some q)
            × (filter_row junk q (filter_row junk p row) ≡ row)
      find_permutation_inverse row w = (
        places l2 l1,
        places l1 l2,
        find_permutation_lem M l1 l2 d1 d2 sub,
        find_permutation_lem M l2 l1 d2 d1 sup,
        rw (filter_row-places junk l2 l1 row, filter_row-places junk l1 l2)
            (restrict-restrict l1 l2 row d2 sup w),
      )

      -- For layouts with the same distinct variables and right rows that fit, the union with the
      -- permutation that find_permutation gives holds the rows of the left table, and the rows over
      -- the left layout whose columns, in the order of the right one, are a row of the right table.
      pub t_union_iff :
          (t1 t2 : Table S) (perm : List ℕ) (x : List T)
          → find_permutation M l1 l2 ≡ some perm
          → HasWidth S (length l2) t2
          → RowIn S x (t_union S junk t1 t2 perm)
            ↔ (RowIn S x t1 ⊎ ((length x ≡ length l1) × RowIn S (restrict junk l1 l2 x) t2))
      t_union_iff t1 t2 perm x found w = (to, from)
        where
          at_places : perm ≡ places l2 l1
          at_places = cc (found, find_permutation_lem M l1 l2 d1 d2 sub)

          permuted :
              KeyOf junk S t2 perm x → (length x ≡ length l1) × RowIn S (restrict junk l1 l2 x) t2
          permuted (r2, i, e) =
              let e' : restrict junk l2 l1 r2 ≡ x =
                sym (filter_row-places junk l2 l1 r2) ∙ rw at_places at e in
              (
                ap length (sym e') ∙ length-map l1 (value junk l2 r2),
                subst (λ y. RowIn S (restrict junk l1 l2 y) t2) e'
                    (rw (restrict-restrict l1 l2 r2 d2 sup (w r2 i)) i),
              )

          to :
              RowIn S x (t_union S junk t1 t2 perm)
              → RowIn S x t1 ⊎ ((length x ≡ length l1) × RowIn S (restrict junk l1 l2 x) t2)
          to h = elim ((t_union_rows t1 t2 perm x).0 h) [
            | inl old ↦ inl old
            | inr k ↦ inr (permuted k)
          ]

          from :
              RowIn S x t1 ⊎ ((length x ≡ length l1) × RowIn S (restrict junk l1 l2 x) t2)
              → RowIn S x (t_union S junk t1 t2 perm)
          from (inl old) = (t_union_rows t1 t2 perm x).1 (inl old)
          from (inr (n, i)) = (t_union_rows t1 t2 perm x).1 (
              inr (
                restrict junk l1 l2 x,
                i,
                rw (at_places, filter_row-places junk l2 l1 (restrict junk l1 l2 x))
                    (restrict-restrict l2 l1 x d1 sub n),
              ))
