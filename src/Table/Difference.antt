-- ===== src/Table/Difference.antt =====
-- anti_join and anti_join_in_place of src/table.h as operations on sets of rows.
use cppmon.Shared.{
  ℕ, ◌≡◌, sym, subst, ◌↔◌, inl, inr, true, false, List, arith, Bool-cases, In, Distinct,
}
use cppmon.Hash.{HashSet, HashMap}
use cppmon.Layout.{TableLayout, AntiJoinInfo, filter_row, get_anti_join_info}
use cppmon.Layout.Columns.{common, get_anti_join_info_lem}
use cppmon.Table.{
  Table, anti_join, anti_join_in_place, contains, compute_join_hash_set, filter_rows,
}
use cppmon.Table.Contents.{
  RowIn, Holds, Holds-to_opt, insert_all_new, insert_all_inv, In-filter_rows, In-filter_rows_inv,
  insert_unmatched_inv, insert_unmatched_new,
}
use cppmon.Table.Join.{restrict, filter_row-places}

module _ {T : Type 0} (junk : T) (S : HashSet (List T)) where
  -- Some row of `tab` has the values `key` in the columns `idxs`.
  abbrev pub KeyOf : Table S → List ℕ → List T → Type 0
  KeyOf tab idxs key = (r2 : List T) × RowIn S r2 tab × (filter_row junk idxs r2 ≡ key)

  pub compute_join_hash_set_iff :
      (tab : Table S) (idxs : List ℕ) (key : List T)
      → (S.contains key (compute_join_hash_set S junk tab idxs) ≡ true) ↔ KeyOf tab idxs key
  unfolding compute_join_hash_set contains
  compute_join_hash_set_iff tab idxs key = (to, from)
    where
      to : S.contains key (compute_join_hash_set S junk tab idxs) ≡ true → KeyOf tab idxs key
      to h = elim (insert_all_inv S key (filter_rows S junk idxs (S.to_list tab.rows)) S.empty h) [
        | inl i ↦
            let (r2, j, e) = In-filter_rows_inv S junk idxs key (S.to_list tab.rows) i in
            (r2, (S.contains-to_list r2 tab.rows).1 j, e)
        | inr c ↦ absurd (ground (arith, S.contains-empty key))
      ]

      from : KeyOf tab idxs key → S.contains key (compute_join_hash_set S junk tab idxs) ≡ true
      from (r2, i, e) =
          insert_all_new S key (filter_rows S junk idxs (S.to_list tab.rows)) S.empty (
            subst (λ k. In k (filter_rows S junk idxs (S.to_list tab.rows))) e
              (In-filter_rows S junk idxs r2 (S.to_list tab.rows)
                ((S.contains-to_list r2 tab.rows).0 i)))

  -- A row stays exactly if no row of the other table has its values in the shared columns.
  abbrev pub Unmatched : Table S → AntiJoinInfo → List T → Type 0
  Unmatched tab info x = ¬ KeyOf tab info.comm_idx2 (filter_row junk info.comm_idx1 x)

  hash_set-false :
      (tab : Table S) (info : AntiJoinInfo) (x : List T)
      → (S.contains
            (filter_row junk info.comm_idx1 x)
            (compute_join_hash_set S junk tab info.comm_idx2)
          ≡ false)
        ↔ Unmatched tab info x
  hash_set-false tab info x =
      let law = compute_join_hash_set_iff tab info.comm_idx2 (filter_row junk info.comm_idx1 x) in
      (
        λ h k. ground (arith, law.1 k),
        λ h.
            elim (Bool-cases (
              S.contains (filter_row junk info.comm_idx1 x)
                (compute_join_hash_set S junk tab info.comm_idx2))) [
                  | inl e ↦ absurd (h (law.0 e))
                  | inr e ↦ e
                ],
      )

  pub anti_join_rows :
      (t tab : Table S) (info : AntiJoinInfo) (x : List T)
      → Holds S x (anti_join S junk t tab info) ↔ (RowIn S x t × Unmatched tab info x)
  unfolding anti_join contains
  anti_join_rows t tab info x = (to, from)
    where
      to : Holds S x (anti_join S junk t tab info) → RowIn S x t × Unmatched tab info x
      to h =
          elim (insert_unmatched_inv S junk _ info.comm_idx1 x (S.to_list t.rows) S.empty
            ((Holds-to_opt S x _).0 h)) [
              | inl (i, e) ↦ ((S.contains-to_list x t.rows).1 i, (hash_set-false tab info x).0 e)
              | inr c ↦ absurd (ground (arith, S.contains-empty x))
            ]

      from : RowIn S x t × Unmatched tab info x → Holds S x (anti_join S junk t tab info)
      from (i, u) = (Holds-to_opt S x _).1 (
          insert_unmatched_new S junk _ info.comm_idx1 x (S.to_list t.rows) S.empty
            ((hash_set-false tab info x).1 u) ((S.contains-to_list x t.rows).0 i))

  anti_join_in_place_rows :
      (t tab : Table S) (info : AntiJoinInfo) (x : List T)
      → RowIn S x (anti_join_in_place S junk t tab info) ↔ (RowIn S x t × Unmatched tab info x)
  unfolding anti_join_in_place contains
  anti_join_in_place_rows t tab info x =
      let keep = λ (row : List T).
        S.contains (filter_row junk info.comm_idx1 row)
          (compute_join_hash_set S junk tab info.comm_idx2) in
      let law = S.contains-erase_if x keep t.rows in
      (
        λ h. (ground (arith, law), (hash_set-false tab info x).0 (ground (arith, law))),
        λ h. let e = (hash_set-false tab info x).1 h.1 in rw (law, h.0, e),
      )

  -- Erasing in place leaves the rows that anti_join puts into a new table.
  pub anti_join_in_place-anti_join :
      (t tab : Table S) (info : AntiJoinInfo) (x : List T)
      → RowIn S x (anti_join_in_place S junk t tab info) ↔ Holds S x (anti_join S junk t tab info)
  anti_join_in_place-anti_join t tab info x = (
    λ h. (anti_join_rows t tab info x).1 ((anti_join_in_place_rows t tab info x).0 h),
    λ h. (anti_join_in_place_rows t tab info x).1 ((anti_join_rows t tab info x).0 h),
  )

  module _ (M : HashMap ℕ ℕ) (l1 l2 : TableLayout) (d1 : Distinct l1) (d2 : Distinct l2) where
    -- `x` and some row of `tab` agree on every variable that both layouts have.
    abbrev pub Agrees : Table S → List T → Type 0
    Agrees tab x =
        (r2 : List T) × RowIn S r2 tab
        × (restrict junk l2 (common l1 l2) r2 ≡ restrict junk l1 (common l1 l2) x)

    -- For layouts of distinct variables, the anti-join keeps exactly the rows of the left table that
    -- agree with no row of the right one on the variables that both layouts have.
    pub anti_join_iff :
        (t1 t2 : Table S) (x : List T)
        → Holds S x (anti_join S junk t1 t2 (get_anti_join_info M l1 l2))
          ↔ (RowIn S x t1 × ¬ Agrees t2 x)
    anti_join_iff t1 t2 x = rw (sym unmatched) (anti_join_rows t1 t2 (get_anti_join_info M l1 l2) x)
      where
        unmatched : Unmatched t2 (get_anti_join_info M l1 l2) x ≡ (¬ Agrees t2 x)
        unmatched = simp (get_anti_join_info_lem M l1 l2 d1 d2, filter_row-places)
