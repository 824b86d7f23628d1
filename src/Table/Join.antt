-- ===== src/Table/Join.antt =====
-- natural_join and anti_join of src/table.h with the index lists of src/table.cpp, against the
-- relational join: rows as assignments of values to variables.
use cppmon.Shared.{
  ℕ, ◌≡◌, refl, sym, ap, ◌∙◌, subst, ◌↔◌, inl, inr, false, not, List, [], ◌∷◌, ◌++◌, map, arith,
  Bool-cases, length, In, Distinct, length-map, length-append, map_congr, map_congr_inv,
}
use mathlib.Core.List.{map-append}
use cppmon.Hash.{HashSet, HashMap}
use cppmon.Layout.{TableLayout, JoinInfo, filter_row, get_join_info}
use cppmon.Layout.Position.{
  elem, elem-of_In, In-of_elem, value, map-value_self, value-map, value-append_left,
}
use cppmon.Layout.Columns.{
  common, fresh, places, In-keep_if, In-keep_if_inv, joined-Distinct, get_join_info_lem,
}
use cppmon.Table.{Table, natural_join}
use cppmon.Table.Contents.{RowIn, Holds}
use cppmon.Table.Buckets.{MatchedBy, natural_join_inv, natural_join_new}

module _ {T : Type 0} (junk : T) where
  -- The row over the layout `vs` with the values of `row`, a row over `l`.
  abbrev pub restrict : TableLayout → TableLayout → List T → List T
  restrict l vs row = map (value junk l row) vs

  pub filter_row-places :
      (l vs : TableLayout) (row : List T) → filter_row junk (places l vs) row ≡ restrict l vs row
  unfolding filter_row
  filter_row-places l [] row = refl
  filter_row-places l (v ∷ vs) row = ap (◌∷◌ (value junk l row v)) (filter_row-places l vs row)

  -- Beyond the left layout a row of the join has the values of the fresh variables.
  value-append_right :
      (l k : TableLayout) (row : List T) (f : ℕ → T) (v : ℕ)
      → length row ≡ length l
      → elem v l ≡ false
      → In v k
      → value junk (l ++ k) (row ++ map f k) v ≡ f v
  value-append_right [] k [] f v h n i = value-map junk k f v i
  value-append_right [] k (t ∷ row) f v h n i = absurd (omega arith)
  value-append_right (x ∷ l) k [] f v h n i = absurd (omega arith)
  value-append_right (x ∷ l) k (t ∷ row) f v h n i = ground (arith, value-append_right l k row f v)

module _ {T : Type 0} (S : HashSet (List T)) where
  -- Every row has `n` columns.
  abbrev pub HasWidth : ℕ → Table S → Type 0
  HasWidth n t = (row : List T) → RowIn S row t → length row ≡ n

module _ {T : Type 0} (junk : T) (S : HashSet (List T)) (H : HashMap (List T) (List (List T)))
    (M : HashMap ℕ ℕ) (l1 l2 : TableLayout) (d1 : Distinct l1) (d2 : Distinct l2) where
  abbrev joined_layout : TableLayout
  joined_layout = l1 ++ fresh l1 l2

  -- A row of the left table and a row of the right one that agree on the common variables.
  abbrev joined_row : List T → List T → List T
  joined_row r1 r2 = r1 ++ restrict junk l2 (fresh l1 l2) r2

  restrict_left :
      (r1 r2 : List T)
      → length r1 ≡ length l1
      → restrict junk joined_layout l1 (joined_row r1 r2) ≡ r1
  restrict_left r1 r2 h =
      map_congr _ _ l1 (λ v i. value-append_left junk l1 (fresh l1 l2) r1 _ v h i)
      ∙ map-value_self junk l1 r1 d1 h

  restrict_right :
      (r1 r2 : List T)
      → length r1 ≡ length l1
      → length r2 ≡ length l2
      → restrict junk l1 (common l1 l2) r1 ≡ restrict junk l2 (common l1 l2) r2
      → restrict junk joined_layout l2 (joined_row r1 r2) ≡ r2
  restrict_right r1 r2 h1 h2 agree = map_congr _ _ l2 at_var ∙ map-value_self junk l2 r2 d2 h2
    where
      at_var :
          (v : ℕ) → In v l2 → value junk joined_layout (joined_row r1 r2) v ≡ value junk l2 r2 v
      at_var v i = elim (Bool-cases (elem v l1)) [
        | inl e ↦
            let i1 = In-of_elem v l1 e in
            value-append_left junk l1 (fresh l1 l2) r1 _ v h1 i1
            ∙ map_congr_inv _ _ (common l1 l2) agree v
                (In-keep_if (λ w. elem w l2) v l1 (elem-of_In v l2 i) i1)
        | inr e ↦
            value-append_right junk l1 (fresh l1 l2) r1 (value junk l2 r2) v h1 e
              (In-keep_if (λ w. not (elem w l1)) v l2 (ap not e) i)
      ]

  -- What the code computes, before it is read as a join.
  abbrev Pairs : Table S → Table S → List T → Type 0
  Pairs t1 t2 x =
      (r1 : List T) × (r2 : List T) × RowIn S r1 t1
      × RowIn S r2 t2
      × (restrict junk l1 (common l1 l2) r1 ≡ restrict junk l2 (common l1 l2) r2)
      × (joined_row r1 r2 ≡ x)

  Pairs-iff :
      (t1 t2 : Table S) (x : List T)
      → MatchedBy S junk H t1 t2 (get_join_info M l1 l2) x ↔ Pairs t1 t2 x
  Pairs-iff t1 t2 x = simp (get_join_info_lem M l1 l2 d1 d2, filter_row-places) ((λ h. h), λ h. h)

  -- The relational join: a row over the joined layout whose restriction to either layout is a row
  -- of that table.
  abbrev pub IsJoined : TableLayout → Table S → Table S → List T → Type 0
  IsJoined l t1 t2 x =
      (length x ≡ length l) × RowIn S (restrict junk l l1 x) t1 × RowIn S (restrict junk l l2 x) t2

  IsJoined-of_Pairs :
      (t1 t2 : Table S) (x : List T)
      → HasWidth S (length l1) t1
      → HasWidth S (length l2) t2
      → Pairs t1 t2 x
      → IsJoined joined_layout t1 t2 x
  IsJoined-of_Pairs t1 t2 x w1 w2 (r1, r2, i1, i2, agree, e) =
      let n1 = w1 r1 i1 in
      let n2 = w2 r2 i2 in
      subst (λ y. IsJoined joined_layout t1 t2 y) e
        (
          omega (
            arith,
            n1,
            length-append r1 (restrict junk l2 (fresh l1 l2) r2),
            length-append l1 (fresh l1 l2),
            length-map (fresh l1 l2) (value junk l2 r2),
          ),
          rw (restrict_left r1 r2 n1) i1,
          rw (restrict_right r1 r2 n1 n2 agree) i2,
        )

  Pairs-of_IsJoined :
      (t1 t2 : Table S) (x : List T) → IsJoined joined_layout t1 t2 x → Pairs t1 t2 x
  Pairs-of_IsJoined t1 t2 x (w, i1, i2) =
      (restrict junk joined_layout l1 x, restrict junk joined_layout l2 x, i1, i2, agree, whole)
    where
      f : ℕ → T
      f = value junk joined_layout x

      agree :
          restrict junk l1 (common l1 l2) (map f l1) ≡ restrict junk l2 (common l1 l2) (map f l2)
      agree = map_congr _ _ (common l1 l2) λ v i.
          let (j, e) = In-keep_if_inv (λ w. elem w l2) v l1 i in
          value-map junk l1 f v j ∙ sym (value-map junk l2 f v (In-of_elem v l2 e))

      whole : map f l1 ++ restrict junk l2 (fresh l1 l2) (map f l2) ≡ x
      whole =
          ap (◌++◌ (map f l1)) (
            map_congr _ _ (fresh l1 l2)
              λ v i. value-map junk l2 f v (In-keep_if_inv (λ w. not (elem w l1)) v l2 i).0)
          ∙ sym (map-append f l1 (fresh l1 l2))
          ∙ map-value_self junk joined_layout x (joined-Distinct l1 l2 d1 d2) w

  -- The join of two tables whose rows fit their layouts, each of distinct variables, with the index
  -- lists that the code computes for them, holds exactly the rows over the joined layout whose
  -- restriction to either layout is a row of that table.
  pub natural_join-IsJoined :
      (t1 t2 : Table S) (x : List T)
      → HasWidth S (length l1) t1
      → HasWidth S (length l2) t2
      → Holds S x (natural_join S junk H t1 t2 (get_join_info M l1 l2))
        ↔ IsJoined (get_join_info M l1 l2).result_layout t1 t2 x
  natural_join-IsJoined t1 t2 x w1 w2 = (
    λ h.
        subst (λ l. IsJoined l t1 t2 x) (sym layout)
          (IsJoined-of_Pairs t1 t2 x w1 w2
            ((Pairs-iff t1 t2 x).0 (natural_join_inv S junk H t1 t2 (get_join_info M l1 l2) x h))),
    λ h. natural_join_new S junk H t1 t2 (get_join_info M l1 l2) x (
        (Pairs-iff t1 t2 x).1
          (Pairs-of_IsJoined t1 t2 x (subst (λ l. IsJoined l t1 t2 x) layout h))),
  )
    where
      layout : (get_join_info M l1 l2).result_layout ≡ joined_layout
      layout = ap (λ (info : JoinInfo). info.result_layout) (get_join_info_lem M l1 l2 d1 d2)
