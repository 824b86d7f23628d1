-- ===== src/Table/Contents.antt =====
-- The rows of the tables that the operations of src/table.h build, as sets.
use cppmon.Shared.{
  ℕ, ◌≡◌, refl, sym, ap, subst, ◌↔◌, ◌⊎◌, inl, inr, true, false, none, some, List, [], ◌∷◌, map,
  arith, Bool-cases, In, In-map, In-map_inv,
}
use cppmon.Hash.{HashSet}
use cppmon.Layout.{filter_row}
use cppmon.Table.{
  Table, OptTable, insert_all, is_nil, empty, contains, to_opt, filter_rows, insert_unmatched,
}

module _ {T : Type 0} (S : HashSet (List T)) where
  -- The row is in the table.
  abbrev pub RowIn : List T → Table S → Type 0
  RowIn row t = contains S row t ≡ true

  -- nullopt stands for the table with no row.
  abbrev pub Holds : List T → OptTable S → Type 0
  Holds row none = ⊥
  Holds row (some t) = RowIn row t

  pub contains-insert_self : (k : List T) (s : S.Carrier) → S.contains k (S.insert k s) ≡ true
  contains-insert_self k s = ground (arith, S.contains-insert k k s)

  pub contains-insert_old :
      (j k : List T) (s : S.Carrier) → S.contains j s ≡ true → S.contains j (S.insert k s) ≡ true
  contains-insert_old j k s h = ground (arith, S.contains-insert j k s)

  pub contains-insert_inv :
      (j k : List T) (s : S.Carrier)
      → S.contains j (S.insert k s) ≡ true
      → (k ≡ j) ⊎ (S.contains j s ≡ true)
  contains-insert_inv j k s h = ground (arith, S.contains-insert j k s)

  pub insert_all_old :
      (j : List T) (rows : List (List T)) (s : S.Carrier)
      → S.contains j s ≡ true
      → S.contains j (insert_all S rows s) ≡ true
  unfolding insert_all
  insert_all_old j [] s h = h
  insert_all_old j (row ∷ rows) s h =
      insert_all_old j rows (S.insert row s) (contains-insert_old j row s h)

  pub insert_all_new :
      (j : List T) (rows : List (List T)) (s : S.Carrier)
      → In j rows
      → S.contains j (insert_all S rows s) ≡ true
  unfolding insert_all
  insert_all_new j [] s i = absurd i
  insert_all_new j (row ∷ rows) s (inl e) =
      insert_all_old j rows (S.insert row s)
        (subst (λ r. S.contains j (S.insert r s) ≡ true) (sym e) (contains-insert_self j s))
  insert_all_new j (row ∷ rows) s (inr i) = insert_all_new j rows (S.insert row s) i

  pub insert_all_inv :
      (j : List T) (rows : List (List T)) (s : S.Carrier)
      → S.contains j (insert_all S rows s) ≡ true
      → In j rows ⊎ (S.contains j s ≡ true)
  unfolding insert_all
  insert_all_inv j [] s h = inr h
  insert_all_inv j (row ∷ rows) s h =
      ground (arith, insert_all_inv j rows (S.insert row s), contains-insert_inv j row s)

  is_nil-of_In : (j : List T) (rows : List (List T)) → In j rows → is_nil S rows ≡ false
  unfolding is_nil
  is_nil-of_In j [] i = absurd i
  is_nil-of_In j (row ∷ rows) i = refl

  empty-of_RowIn : (j : List T) (t : Table S) → RowIn j t → empty S t ≡ false
  unfolding empty contains
  empty-of_RowIn j t h = is_nil-of_In j (S.to_list t.rows) ((S.contains-to_list j t.rows).0 h)

  -- Passing an empty table on as nullopt loses no row.
  pub Holds-to_opt : (j : List T) (t : Table S) → Holds j (to_opt S t) ↔ RowIn j t
  unfolding to_opt
  Holds-to_opt j t = elim (Bool-cases (empty S t)) [
    | inl e ↦ (rw e (λ h. absurd h), λ h. absurd (ground (arith, empty-of_RowIn j t h)))
    | inr e ↦ (rw e (λ h. h), rw e (λ h. h))
  ]

  module _ (junk : T) where
    filter_rows-map :
        (perm : List ℕ) (rows : List (List T))
        → filter_rows S junk perm rows ≡ map (filter_row junk perm) rows
    unfolding filter_rows
    filter_rows-map perm [] = refl
    filter_rows-map perm (row ∷ rows) =
        ap (◌∷◌ (filter_row junk perm row)) (filter_rows-map perm rows)

    pub In-filter_rows :
        (perm : List ℕ) (row : List T) (rows : List (List T))
        → In row rows
        → In (filter_row junk perm row) (filter_rows S junk perm rows)
    In-filter_rows perm row rows i =
        rw (filter_rows-map perm rows) (In-map (filter_row junk perm) row rows i)

    pub In-filter_rows_inv :
        (perm : List ℕ) (j : List T) (rows : List (List T))
        → In j (filter_rows S junk perm rows)
        → (row : List T) × In row rows × (filter_row junk perm row ≡ j)
    In-filter_rows_inv perm j rows i =
        In-map_inv (filter_row junk perm) j rows (rw (filter_rows-map perm rows) at i)

    -- anti_join keeps exactly the rows whose shared columns are not in the set.
    pub insert_unmatched_inv :
        (hash_set : S.Carrier) (idxs : List ℕ) (j : List T) (rows : List (List T)) (s : S.Carrier)
        → S.contains j (insert_unmatched S junk hash_set idxs rows s) ≡ true
        → (In j rows × (S.contains (filter_row junk idxs j) hash_set ≡ false))
          ⊎ (S.contains j s ≡ true)
    unfolding insert_unmatched
    insert_unmatched_inv hash_set idxs j [] s h = inr h
    insert_unmatched_inv hash_set idxs j (row ∷ rows) s h = ground (
      arith,
      insert_unmatched_inv hash_set idxs j rows s,
      insert_unmatched_inv hash_set idxs j rows (S.insert row s),
      contains-insert_inv j row s,
      ap (λ r. S.contains (filter_row junk idxs r) hash_set),
    )

    pub insert_unmatched_old :
        (hash_set : S.Carrier) (idxs : List ℕ) (j : List T) (rows : List (List T)) (s : S.Carrier)
        → S.contains j s ≡ true
        → S.contains j (insert_unmatched S junk hash_set idxs rows s) ≡ true
    unfolding insert_unmatched
    insert_unmatched_old hash_set idxs j [] s h = h
    insert_unmatched_old hash_set idxs j (row ∷ rows) s h =
        elim (Bool-cases (S.contains (filter_row junk idxs row) hash_set)) [
          | inl e ↦ rw e (insert_unmatched_old hash_set idxs j rows s h)
          | inr e ↦ rw e (
              insert_unmatched_old hash_set idxs j rows (S.insert row s)
                (contains-insert_old j row s h))
        ]

    pub insert_unmatched_new :
        (hash_set : S.Carrier) (idxs : List ℕ) (j : List T) (rows : List (List T)) (s : S.Carrier)
        → S.contains (filter_row junk idxs j) hash_set ≡ false
        → In j rows
        → S.contains j (insert_unmatched S junk hash_set idxs rows s) ≡ true
    unfolding insert_unmatched
    insert_unmatched_new hash_set idxs j [] s h i = absurd i
    insert_unmatched_new hash_set idxs j (row ∷ rows) s h (inl e) =
        rw (e, h)
          (insert_unmatched_old hash_set idxs j rows (S.insert j s) (contains-insert_self j s))
    insert_unmatched_new hash_set idxs j (row ∷ rows) s h (inr i) =
        insert_unmatched_new hash_set idxs j rows _ h i
