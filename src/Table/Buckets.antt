-- ===== src/Table/Buckets.antt =====
-- The hash join of src/table.h: the buckets of compute_join_hash_map and the loop of natural_join.
use cppmon.Shared.{
  ℕ, ◌≡◌, refl, sym, ap, subst, ◌⊎◌, inl, inr, ite, if_pos, if_neg, true, none, some, List, [], ◌∷◌,
  ◌++◌, arith, In, In-append_left, In-append_right, In-append_cases,
}
use cppmon.Hash.{HashSet, HashMap}
use cppmon.Layout.{JoinInfo, filter_row}
use cppmon.Table.{
  Table, contains, group_rows, insert_joined, probe_rows, natural_join, compute_join_hash_map,
}
use cppmon.Table.Contents.{
  RowIn, Holds, Holds-to_opt, contains-insert_self, contains-insert_old, contains-insert_inv,
}

module _ {T : Type 0} (S : HashSet (List T)) (junk : T) (H : HashMap (List T) (List (List T))) where
  abbrev pub bucket : List T → H.Carrier → List (List T)
  bucket key m = elim (H.find key m) [ none ↦ [] | some rows ↦ rows ]

  abbrev pub pushed : List T → List T → H.Carrier → List (List T)
  pushed key row m = elim (H.find key m) [ none ↦ row ∷ [] | some rows ↦ rows ++ row ∷ [] ]

  abbrev pub push_row : List T → List T → H.Carrier → H.Carrier
  push_row key row m = H.insert_or_assign key (pushed key row m) m

  bucket-push_row :
      (key key' row : List T) (m : H.Carrier)
      → bucket key (push_row key' row m)
        ≡ ite (H.eq key' key) (bucket key m ++ row ∷ []) (bucket key m)
  bucket-push_row key key' row m =
      ground (arith, H.find-insert_or_assign key key' (pushed key' row m) m)

  push_row_inv :
      (key key' row j : List T) (m : H.Carrier)
      → In j (bucket key (push_row key' row m))
      → In j (bucket key m) ⊎ ((row ≡ j) × (key' ≡ key))
  push_row_inv key key' row j m i = elim (H.eq key' key) [
    | yes e ↦
        elim (In-append_cases j (bucket key m) (row ∷ [])
          (rw (bucket-push_row key key' row m, if_pos _ e) at i)) [
            | inl old ↦ inl old
            | inr new ↦ ground arith
          ]
    | no n ↦ inl (rw (bucket-push_row key key' row m, if_neg _ n) at i)
  ]

  push_row_new : (key row : List T) (m : H.Carrier) → In row (bucket key (push_row key row m))
  push_row_new key row m =
      rw (bucket-push_row key key row m, if_pos _ refl)
        (In-append_right row (bucket key m) (row ∷ []) (inl refl))

  push_row_old :
      (key key' row j : List T) (m : H.Carrier)
      → In j (bucket key m)
      → In j (bucket key (push_row key' row m))
  push_row_old key key' row j m i = elim (H.eq key' key) [
    | yes e ↦
        rw (bucket-push_row key key' row m, if_pos _ e)
          (In-append_left j (bucket key m) (row ∷ []) i)
    | no n ↦ rw (bucket-push_row key key' row m, if_neg _ n) i
  ]

  group_rows_old :
      (idxs : List ℕ) (key j : List T) (rows : List (List T)) (m : H.Carrier)
      → In j (bucket key m)
      → In j (bucket key (group_rows S junk H idxs rows m))
  unfolding group_rows
  group_rows_old idxs key j [] m i = i
  group_rows_old idxs key j (row ∷ rows) m i =
      group_rows_old idxs key j rows _ (push_row_old key _ row j m i)

  pub group_rows_new :
      (idxs : List ℕ) (j : List T) (rows : List (List T)) (m : H.Carrier)
      → In j rows
      → In j (bucket (filter_row junk idxs j) (group_rows S junk H idxs rows m))
  unfolding group_rows
  group_rows_new idxs j [] m i = absurd i
  group_rows_new idxs j (row ∷ rows) m (inl e) = group_rows_old idxs _ j rows _ (
      subst
        (λ r. In r (bucket (filter_row junk idxs r) (push_row (filter_row junk idxs row) row m))) e
        (push_row_new (filter_row junk idxs row) row m))
  group_rows_new idxs j (row ∷ rows) m (inr i) = group_rows_new idxs j rows _ i

  pub group_rows_inv :
      (idxs : List ℕ) (key j : List T) (rows : List (List T)) (m : H.Carrier)
      → In j (bucket key (group_rows S junk H idxs rows m))
      → In j (bucket key m) ⊎ (In j rows × (filter_row junk idxs j ≡ key))
  unfolding group_rows
  group_rows_inv idxs key j [] m i = inl i
  group_rows_inv idxs key j (row ∷ rows) m i = ground (
    arith,
    group_rows_inv idxs key j rows (push_row (filter_row junk idxs row) row m) i,
    push_row_inv key (filter_row junk idxs row) row j m,
    ap (filter_row junk idxs),
  )

  insert_joined_old :
      (keep : List ℕ) (row j : List T) (rows2 : List (List T)) (s : S.Carrier)
      → S.contains j s ≡ true
      → S.contains j (insert_joined S junk H keep row rows2 s) ≡ true
  unfolding insert_joined
  insert_joined_old keep row j [] s h = h
  insert_joined_old keep row j (row2 ∷ rows2) s h =
      insert_joined_old keep row j rows2 _ (contains-insert_old S j _ s h)

  insert_joined_new :
      (keep : List ℕ) (row row2 : List T) (rows2 : List (List T)) (s : S.Carrier)
      → In row2 rows2
      → S.contains (row ++ filter_row junk keep row2) (insert_joined S junk H keep row rows2 s)
        ≡ true
  unfolding insert_joined
  insert_joined_new keep row row2 [] s i = absurd i
  insert_joined_new keep row row2 (other ∷ rows2) s (inl e) = insert_joined_old keep row _ rows2 _ (
      subst
        (λ r.
          S.contains (row ++ filter_row junk keep r)
            (S.insert (row ++ filter_row junk keep other) s)
          ≡ true)
        e (contains-insert_self S (row ++ filter_row junk keep other) s))
  insert_joined_new keep row row2 (other ∷ rows2) s (inr i) =
      insert_joined_new keep row row2 rows2 _ i

  insert_joined_inv :
      (keep : List ℕ) (row j : List T) (rows2 : List (List T)) (s : S.Carrier)
      → S.contains j (insert_joined S junk H keep row rows2 s) ≡ true
      → ((row2 : List T) × In row2 rows2 × (row ++ filter_row junk keep row2 ≡ j))
        ⊎ (S.contains j s ≡ true)
  unfolding insert_joined
  insert_joined_inv keep row j [] s h = inr h
  insert_joined_inv keep row j (row2 ∷ rows2) s h = elim (insert_joined_inv keep row j rows2 _ h) [
    | inl (r, i, e) ↦ inl (r, inr i, e)
    | inr old ↦ elim (contains-insert_inv S j _ s old) [
      | inl e ↦ inl (row2, inl refl, e)
      | inr older ↦ inr older
    ]
  ]

  probe_row : H.Carrier → JoinInfo → List T → S.Carrier → S.Carrier
  probe_row m info row s =
      insert_joined S junk H info.keep_idx2 row (bucket (filter_row junk info.comm_idx1 row) m) s

  -- A key with no entry has an empty bucket.
  probe_rows-cons :
      (m : H.Carrier) (info : JoinInfo) (row : List T) (rows : List (List T)) (s : S.Carrier)
      → probe_rows S junk H m info (row ∷ rows) s
        ≡ probe_rows S junk H m info rows (probe_row m info row s)
  unfolding probe_rows probe_row insert_joined
  probe_rows-cons m info row rows s = ground arith

  probe_rows_old :
      (m : H.Carrier) (info : JoinInfo) (j : List T) (rows : List (List T)) (s : S.Carrier)
      → S.contains j s ≡ true
      → S.contains j (probe_rows S junk H m info rows s) ≡ true
  unfolding probe_row
  probe_rows_old m info j [] s h = unfold probe_rows in h
  probe_rows_old m info j (row ∷ rows) s h =
      rw (probe_rows-cons m info row rows s)
        (probe_rows_old m info j rows _ (insert_joined_old _ row j _ s h))

  pub probe_rows_new :
      (m : H.Carrier) (info : JoinInfo) (row row2 : List T) (rows : List (List T)) (s : S.Carrier)
      → In row rows
      → In row2 (bucket (filter_row junk info.comm_idx1 row) m)
      → S.contains (row ++ filter_row junk info.keep_idx2 row2) (probe_rows S junk H m info rows s)
        ≡ true
  unfolding probe_row
  probe_rows_new m info row row2 [] s i i2 = absurd i
  probe_rows_new m info row row2 (other ∷ rows) s (inl e) i2 =
      rw (probe_rows-cons m info other rows s, e)
        (probe_rows_old m info _ rows _ (insert_joined_new _ row row2 _ s i2))
  probe_rows_new m info row row2 (other ∷ rows) s (inr i) i2 =
      rw (probe_rows-cons m info other rows s) (probe_rows_new m info row row2 rows _ i i2)

  -- A joined row has a left part and a right row from that part's bucket.
  abbrev pub JoinedFrom : H.Carrier → JoinInfo → List (List T) → List T → Type 0
  JoinedFrom m info rows j =
      (row : List T) × (row2 : List T) × In row rows
      × In row2 (bucket (filter_row junk info.comm_idx1 row) m)
      × (row ++ filter_row junk info.keep_idx2 row2 ≡ j)

  pub probe_rows_inv :
      (m : H.Carrier) (info : JoinInfo) (j : List T) (rows : List (List T)) (s : S.Carrier)
      → S.contains j (probe_rows S junk H m info rows s) ≡ true
      → JoinedFrom m info rows j ⊎ (S.contains j s ≡ true)
  unfolding probe_row
  probe_rows_inv m info j [] s h = inr (unfold probe_rows in h)
  probe_rows_inv m info j (row ∷ rows) s h =
      elim (probe_rows_inv m info j rows _ (rw (probe_rows-cons m info row rows s) at h)) [
        | inl (a, b, i, i2, e) ↦ inl (a, b, inr i, i2, e)
        | inr old ↦ elim (insert_joined_inv _ row j _ s old) [
          | inl (b, i2, e) ↦ inl (row, b, inl refl, i2, e)
          | inr older ↦ inr older
        ]
      ]

  -- The rows of a natural join are the pairs that agree on the shared columns, put together.
  abbrev pub MatchedBy : Table S → Table S → JoinInfo → List T → Type 0
  MatchedBy t tab info x =
      (r1 : List T) × (r2 : List T) × RowIn S r1 t
      × RowIn S r2 tab
      × (filter_row junk info.comm_idx1 r1 ≡ filter_row junk info.comm_idx2 r2)
      × (r1 ++ filter_row junk info.keep_idx2 r2 ≡ x)

  not-In-empty : (key j : List T) → ¬ In j (bucket key H.empty)
  not-In-empty key j = λ i. ground (arith, H.find-empty key)

  pub natural_join_inv :
      (t tab : Table S) (info : JoinInfo) (x : List T)
      → Holds S x (natural_join S junk H t tab info)
      → MatchedBy t tab info x
  unfolding natural_join compute_join_hash_map contains
  natural_join_inv t tab info x h =
      elim (probe_rows_inv m info x (S.to_list t.rows) S.empty ((Holds-to_opt S x _).0 h)) [
        | inl (r1, r2, i1, i2, e) ↦
            elim (group_rows_inv info.comm_idx2 _ r2 (S.to_list tab.rows) H.empty i2) [
              | inl i ↦ absurd (not-In-empty _ r2 i)
              | inr (i, agree) ↦ (
                r1,
                r2,
                (S.contains-to_list r1 t.rows).1 i1,
                (S.contains-to_list r2 tab.rows).1 i,
                sym agree,
                e,
              )
            ]
        | inr c ↦ absurd (ground (arith, S.contains-empty x))
      ]
    where
      m : H.Carrier
      m = group_rows S junk H info.comm_idx2 (S.to_list tab.rows) H.empty

  pub natural_join_new :
      (t tab : Table S) (info : JoinInfo) (x : List T)
      → MatchedBy t tab info x
      → Holds S x (natural_join S junk H t tab info)
  unfolding natural_join compute_join_hash_map contains
  natural_join_new t tab info x (r1, r2, i1, i2, agree, e) = (Holds-to_opt S x _).1 (
      subst (λ y. S.contains y (probe_rows S junk H m info (S.to_list t.rows) S.empty) ≡ true) e
        (probe_rows_new m info r1 r2 (S.to_list t.rows) S.empty
          ((S.contains-to_list r1 t.rows).0 i1)
          (rw agree (
            group_rows_new info.comm_idx2 r2 (S.to_list tab.rows) H.empty
              ((S.contains-to_list r2 tab.rows).0 i2)))))
    where
      m : H.Carrier
      m = group_rows S junk H info.comm_idx2 (S.to_list tab.rows) H.empty
