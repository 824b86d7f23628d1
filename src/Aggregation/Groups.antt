-- ===== src/Aggregation/Groups.antt =====
-- src/aggregation_impl.h and src/aggregation_impl.cpp: the table of an aggregation, by its groups.
use cppmon.Shared.{
  ℕ, ◌≡◌, ◌↔◌, ◌⊎◌, inl, inr, refl, sym, ap, ◌∙◌, subst, ite, Bool, true, Option, none, some, List,
  [], ◌∷◌, ◌++◌, get_or, In, arith,
}
use cppmon.Hash.{HashSet, HashMap}
use cppmon.Layout.{filter_row}
use cppmon.Table.{Table, of_size, add_row, contains}
use cppmon.Table.Contents.{
  RowIn, Holds, Holds-to_opt, contains-insert_self, contains-insert_old, contains-insert_inv,
}
use cppmon.Aggregation.{GroupOps, add_result, add_groups, finalize_table, add_rows, eval_groups}

module _ {E G : Type 0} (ops : GroupOps E G) where
  -- The state of a group after the values, from the state before, if any.
  abbrev pub absorb : Option G → List E → Option G
  absorb o [] = o
  absorb none (v ∷ vs) = absorb (some (ops.first v)) vs
  absorb (some g) (v ∷ vs) = absorb (some (ops.add_event v g)) vs

module _ {E : Type 0} (eq : Discrete (List E)) (junk : E) (idxs : List ℕ) (term_idx : ℕ) where
  -- The values of the rows in a group, in the order of the rows.
  abbrev pub values : List E → List (List E) → List E
  values group [] = []
  values group (e ∷ rows) =
      let rest = values group rows in
      ite (eq (filter_row junk idxs e) group) (get_or e term_idx junk ∷ rest) rest

module _ {E G : Type 0} (ops : GroupOps E G) (S : HashSet (List E)) (M : HashMap (List E) G)
    (junk : E) (idxs : List ℕ) (term_idx : ℕ) where
  absorb_cons :
      (o : Option G) (v : E) (vs : List E)
      → absorb ops (some (elim o [ none ↦ ops.first v | some g ↦ ops.add_event v g ])) vs
        ≡ absorb ops o (v ∷ vs)
  absorb_cons none v vs = refl
  absorb_cons (some g) v vs = refl

  absorb-row :
      (m : M.Carrier) (k group : List E) (v : E) (vs : List E) (d : Dec (k ≡ group)) (o : Option G)
      → o
        ≡ ite d
            (some (elim (M.find k m) [ none ↦ ops.first v | some g ↦ ops.add_event v g ]))
            (M.find group m)
      → absorb ops o vs ≡ absorb ops (M.find group m) (ite d (v ∷ vs) vs)
  absorb-row m k group v vs (yes s) o e =
      ap (λ q. absorb ops q vs) e
      ∙ absorb_cons (M.find k m) v vs
      ∙ ap (λ q. absorb ops (M.find q m) (v ∷ vs)) s
  absorb-row m k group v vs (no n) o e = ap (λ q. absorb ops q vs) e

  find-add_rows :
      (rows : List (List E)) (m : M.Carrier) (group : List E)
      → M.find group (add_rows ops S M junk idxs term_idx rows m)
        ≡ absorb ops (M.find group m) (values M.eq junk idxs term_idx group rows)
  unfolding add_rows add_result
  find-add_rows [] m group = refl
  find-add_rows (e ∷ rows) m group =
      let k = filter_row junk idxs e in
      let v = get_or e term_idx junk in
      find-add_rows rows (add_result ops S M k v m) group
      ∙ absorb-row m k group v (values M.eq junk idxs term_idx group rows) (M.eq k group) _
          (M.find-insert_or_assign group k _ m)

  -- The row of a group.
  abbrev pub group_row : List E → G → List E
  group_row group g = group ++ (ops.finalize_group g ∷ [])

  add_groups_old :
      (l : List (List E × G)) (tab : Table S) (x : List E)
      → RowIn S x tab
      → RowIn S x (add_groups ops S M l tab)
  unfolding add_groups add_row contains
  add_groups_old [] tab x h = h
  add_groups_old ((group, g) ∷ l) tab x h =
      add_groups_old l (add_row S (group_row group g) tab) x
        (contains-insert_old S x (group_row group g) tab.rows h)

  add_groups_new :
      (l : List (List E × G)) (tab : Table S) (group : List E) (g : G)
      → In (group, g) l
      → RowIn S (group_row group g) (add_groups ops S M l tab)
  unfolding add_groups
  add_groups_new [] tab group g i = absurd i
  add_groups_new ((k, f) ∷ l) tab group g (inl e) =
      add_groups_old l (add_row S (group_row k f) tab) (group_row group g) (
        unfold add_row contains in
        subst
          (λ (q : List E × G).
            S.contains (group_row q.0 q.1) (S.insert (group_row k f) tab.rows) ≡ true)
          e (contains-insert_self S (group_row k f) tab.rows))
  add_groups_new ((k, f) ∷ l) tab group g (inr i) =
      add_groups_new l (add_row S (group_row k f) tab) group g i

  add_groups_inv :
      (l : List (List E × G)) (tab : Table S) (x : List E)
      → RowIn S x (add_groups ops S M l tab)
      → ((group : List E) × (g : G) × In (group, g) l × (group_row group g ≡ x)) ⊎ RowIn S x tab
  unfolding add_groups add_row contains
  add_groups_inv [] tab x h = inr h
  add_groups_inv ((k, f) ∷ l) tab x h =
      elim (add_groups_inv l (add_row S (group_row k f) tab) x h) [
        | inl (group, g, i, e) ↦ inl (group, g, inr i, e)
        | inr q ↦ elim (contains-insert_inv S x (group_row k f) tab.rows q) [
          | inl p ↦ inl (k, f, inl refl, p)
          | inr o ↦ inr o
        ]
      ]

  -- The result of the groups of a map: one row for each.
  pub finalize_table-Holds :
      (nfvs : ℕ) (m : M.Carrier) (x : List E)
      → Holds S x (finalize_table ops S M nfvs m).0
        ↔ ((group : List E) × (g : G) × (M.find group m ≡ some g) × (group_row group g ≡ x))
  unfolding finalize_table
  finalize_table-Holds nfvs m x =
      let tab = of_size S nfvs in
      let opt = Holds-to_opt S x (add_groups ops S M (M.entries m) tab) in
      (
        λ h. elim (add_groups_inv (M.entries m) tab x (opt.0 h)) [
          | inl (group, g, i, e) ↦ (group, g, (M.find-entries group g m).1 i, e)
          | inr k ↦ absurd (unfold of_size contains in ground (arith, S.contains-empty x))
        ],
        λ (group, g, f, e). opt.1 (
            subst (λ y. RowIn S y (add_groups ops S M (M.entries m) tab)) e
              (add_groups_new (M.entries m) tab group g ((M.find-entries group g m).0 f))),
      )

  -- Aggregating a table, with no groups left over from before: the result holds a row exactly when it
  -- is a group of the table's rows followed by what the group type computes from the group's values,
  -- in the order of the rows; and no groups are left over for the next table.
  pub eval_groups-Holds :
      (default_val : E) (all_bound : Bool) (nfvs : ℕ) (tab : Table S) (x : List E)
      → (Holds S x
            (eval_groups ops S M junk default_val all_bound idxs term_idx nfvs (some tab) M.empty).0
          ↔ ((group : List E) × (g : G) × (absorb ops none
                  (values M.eq junk idxs term_idx group (S.to_list tab.rows))
                ≡ some g)
              × (group_row group g ≡ x)))
        × ((eval_groups ops S M junk default_val all_bound idxs term_idx nfvs (some tab) M.empty).1
            ≡ M.empty)
  unfolding eval_groups finalize_table
  eval_groups-Holds default_val all_bound nfvs tab x =
      let rows = S.to_list tab.rows in
      let m = add_rows ops S M junk idxs term_idx rows M.empty in
      let fin = finalize_table-Holds nfvs m x in
      (
        (
          λ h. let (group, g, f, e) = fin.0 h in (group, g, sym (state_is rows group) ∙ f, e),
          λ (group, g, f, e). fin.1 (group, g, state_is rows group ∙ f, e),
        ),
        refl,
      )
    where
      state_is :
          (rows : List (List E)) (group : List E)
          → M.find group (add_rows ops S M junk idxs term_idx rows M.empty)
            ≡ absorb ops none (values M.eq junk idxs term_idx group rows)
      state_is rows group =
          find-add_rows rows M.empty group
          ∙ ap (λ o. absorb ops o (values M.eq junk idxs term_idx group rows)) (M.find-empty group)
