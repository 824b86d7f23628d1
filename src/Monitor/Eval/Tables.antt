-- ===== src/Monitor/Eval/Tables.antt =====
-- MNeg, MAnd and MOr on the tables of one time point, as operations on sets of rows.
use cppmon.Shared.{
  ℕ, ◌≡◌, refl, ◌↔◌, ◌⊎◌, inl, inr, none, some, List, [], length, In, Distinct, arith,
}
use cppmon.Hash.{HashSet, HashMap}
use cppmon.Layout.{TableLayout, get_join_info, get_anti_join_info, find_permutation}
use cppmon.Table.{OptTable, of_size, unit_table, contains, t_union, t_union_in_place}
use cppmon.Table.Contents.{RowIn, Holds, contains-insert_self, contains-insert_inv}
use cppmon.Table.Join.{HasWidth, restrict, natural_join-IsJoined}
use cppmon.Table.Difference.{Agrees, anti_join_iff}
use cppmon.Table.Union.{t_union_iff}
use cppmon.Monitor.Eval.{neg_tab, or_tabs, and_tabs}

module _ {T : Type 0} (S : HashSet (List T)) where
  -- Every row of the table, if there is one, has `n` columns.
  abbrev pub Fits : ℕ → OptTable S → Type 0
  Fits n none = Unit
  Fits n (some t) = HasWidth S n t

  unit_table-RowIn : (x : List T) → RowIn S x (unit_table S) ↔ (x ≡ [])
  unfolding unit_table contains
  unit_table-RowIn x = (
    λ h. ground (arith, contains-insert_inv S x [] S.empty h, S.contains-empty x),
    λ e. rw e (contains-insert_self S [] S.empty),
  )

  -- The negation of a closed formula: the table of the empty row exactly when there was none.
  pub neg_tab-Holds :
      (tab : OptTable S) (x : List T) → Holds S x (neg_tab S tab) ↔ ((x ≡ []) × (tab ≡ none))
  unfolding neg_tab
  neg_tab-Holds none x = (λ h. ((unit_table-RowIn x).0 h, refl), λ (e, n). (unit_table-RowIn x).1 e)
  neg_tab-Holds (some tab) x = (λ h. absurd h, λ (e, n). absurd (cc))

module _ {T : Type 0} (junk : T) (S : HashSet (List T)) (H : HashMap (List T) (List (List T)))
    (M : HashMap ℕ ℕ) (l1 l2 : TableLayout) (d1 : Distinct l1) (d2 : Distinct l2) where
  -- MAnd with a join, for tables that fit their layouts of distinct variables: the result holds
  -- exactly the rows over the joined layout whose restriction to either layout is held by that
  -- side, where no table holds no row.
  pub and_tabs-join :
      (tab1 tab2 : OptTable S) (x : List T)
      → Fits S (length l1) tab1
      → Fits S (length l2) tab2
      → let info = get_join_info M l1 l2 in
        Holds S x (and_tabs S junk H (inl info) tab1 tab2) ↔ (
          (length x ≡ length info.result_layout)
          × Holds S (restrict junk info.result_layout l1 x) tab1
          × Holds S (restrict junk info.result_layout l2 x) tab2)
  unfolding and_tabs
  and_tabs-join (some t1) (some t2) x w1 w2 =
      natural_join-IsJoined junk S H M l1 l2 d1 d2 t1 t2 x w1 w2
  and_tabs-join none tab2 x w1 w2 = (λ h. absurd h, λ (n, a, b). absurd a)
  and_tabs-join (some t1) none x w1 w2 = (λ h. absurd h, λ (n, a, b). absurd b)

  -- A row of the right side agrees with `x` on every variable that both layouts have.
  abbrev pub AgreesOpt : OptTable S → List T → Type 0
  AgreesOpt none x = ⊥
  AgreesOpt (some t2) x = Agrees junk S M l1 l2 d1 d2 t2 x

  -- MAnd with an anti-join, for layouts of distinct variables: the result holds exactly the rows of
  -- the left side that agree with no row of the right side on the common variables.
  pub and_tabs-anti_join :
      (tab1 tab2 : OptTable S) (x : List T)
      → Holds S x (and_tabs S junk H (inr (get_anti_join_info M l1 l2)) tab1 tab2)
        ↔ (Holds S x tab1 × ¬ AgreesOpt tab2 x)
  unfolding and_tabs
  and_tabs-anti_join (some t1) (some t2) x = anti_join_iff junk S M l1 l2 d1 d2 t1 t2 x
  and_tabs-anti_join none tab2 x = (λ h. absurd h, λ (a, n). absurd a)
  and_tabs-anti_join (some t1) none x = (λ h. (h, λ k. k), λ (a, n). a)

module _ {T : Type 0} (junk : T) (S : HashSet (List T)) (M : HashMap ℕ ℕ) (l1 l2 : TableLayout)
    (d1 : Distinct l1) (d2 : Distinct l2) (sub : (v : ℕ) → In v l1 → In v l2)
    (sup : (v : ℕ) → In v l2 → In v l1) where
  -- MOr, for layouts with the same distinct variables, a right side that fits, and the permutation
  -- that find_permutation gives: the result holds the rows of the left side, and the rows over the
  -- left layout whose columns, in the order of the right one, the right side holds.
  pub or_tabs_iff :
      (tab1 tab2 : OptTable S) (perm : List ℕ) (x : List T)
      → find_permutation M l1 l2 ≡ some perm
      → Fits S (length l2) tab2
      → Holds S x (or_tabs S junk (length l1) perm tab1 tab2)
        ↔ (Holds S x tab1 ⊎ ((length x ≡ length l1) × Holds S (restrict junk l1 l2 x) tab2))
  unfolding or_tabs t_union_in_place t_union of_size contains
  or_tabs_iff tab1 none perm x found w =
      (λ h. inl h, λ h. elim h [ inl a ↦ a | inr (n, b) ↦ absurd b ])
  or_tabs_iff (some t1) (some t2) perm x found w =
      t_union_iff junk S M l1 l2 d1 d2 sub sup t1 t2 perm x found w
  or_tabs_iff none (some t2) perm x found w =
      let (to, from) =
        t_union_iff junk S M l1 l2 d1 d2 sub sup (of_size S (length l1)) t2 perm x found w in
      (
        λ h. elim (to h) [ inl a ↦ absurd (ground (arith, S.contains-empty x)) | inr b ↦ inr b ],
        λ h. elim h [ inl a ↦ absurd a | inr b ↦ from (inr b) ],
      )
