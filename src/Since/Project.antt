-- ===== src/Since/Project.antt =====
-- src/since_impl.h: what a state of `since_impl` says of one row, and the loops over the rows of a
-- table.
use cppmon.Shared.{
  ℕ, ◌≡◌, ◌≢◌, refl, sym, ap, subst, ◌↔◌, inl, inr, Bool, true, false, not, none, some, List, [],
  ◌∷◌, ◌++◌, In, Distinct, arith, if◌then◌else◌, Bool-cases,
}
use cppmon.Hash.{HashSet, HashMap}
use cppmon.Interval.{Interval}
use cppmon.Interval
use cppmon.Table.{OptTable, contains}
use cppmon.Table.Contents.{Holds}
use cppmon.Since.{TableBuf, SinceState, for_rows, for_table}
use cppmon.Since.Single.{Single, Marks}

module _ {T : Type 0} (S : HashSet (List T)) (B : HashMap (List T) ℕ) (e : List T) where
  -- Whether the row is in the table.
  abbrev pub has : OptTable S → Bool
  has none = false
  has (some tab) = contains S e tab

  pub has-Holds : (tab : OptTable S) → (has tab ≡ true) ↔ Holds S e tab
  has-Holds none = (λ h. absurd (cc), λ h. absurd h)
  has-Holds (some tab) = (λ h. h, λ h. h)

  abbrev pub marks : TableBuf S B → Marks
  marks [] = []
  marks ((t, tab) ∷ l) = (t, has tab) ∷ marks l

  pub marks-append : (l k : TableBuf S B) → marks (l ++ k) ≡ marks l ++ marks k
  marks-append [] k = refl
  marks-append ((t, tab) ∷ l) k = ap (◌∷◌ (t, has tab)) (marks-append l k)

  module _ (inter : Interval) (left_negated : Bool) (comm_idx_r : List ℕ) where
    pub record Shows (st : SinceState S B) (s : Single) : Type 0 where
      pub inter_is : st.inter ≡ inter
      pub inf_is : st.interval_inf ≡ not (Interval.is_bounded inter)
      pub negated_is : st.left_negated ≡ left_negated
      pub idx_is : st.comm_idx_r ≡ comm_idx_r
      pub prev_is : marks st.data_prev ≡ s.prev
      pub inn_is : Interval.is_bounded inter ≡ true → marks st.data_in ≡ s.inn
      pub tin_is : B.find e st.tuple_in ≡ s.tin
      pub since_is : B.find e st.tuple_since ≡ s.since
      pub cnt_is : Interval.is_bounded inter ≡ true → B.find e st.all_data_counted ≡ s.cnt

    -- A loop over distinct rows does to the row's view what its body does on that row.
    module _ (f : List T → SinceState S B → SinceState S B) (g : Single → Single)
        (acts : (st : SinceState S B) (s : Single) → Shows st s → Shows (f e st) (g s))
        (others : (j : List T) (st : SinceState S B) (s : Single)
          → j ≢ e
          → Shows st s
          → Shows (f j st) s) where
      for_rows-absent :
          (rows : List (List T)) (st : SinceState S B) (s : Single)
          → ¬ In e rows
          → Shows st s
          → Shows (for_rows S B f rows st) s
      unfolding for_rows
      for_rows-absent [] st s a v = v
      for_rows-absent (j ∷ rows) st s a v =
          for_rows-absent rows (f j st) s (λ i. a (inr i)) (others j st s (λ p. a (inl p)) v)

      for_rows-present :
          (rows : List (List T)) (st : SinceState S B) (s : Single)
          → Distinct rows
          → In e rows
          → Shows st s
          → Shows (for_rows S B f rows st) (g s)
      unfolding for_rows
      for_rows-present [] st s d i v = absurd i
      for_rows-present (j ∷ rows) st s d (inl p) v =
          for_rows-absent rows (f j st) (g s) (λ i. d.0 (subst (λ r. In r rows) (sym p) i))
            (subst (λ r. Shows (f r st) (g s)) (sym p) (acts st s v))
      for_rows-present (j ∷ rows) st s d (inr i) v =
          for_rows-present rows (f j st) s d.1 i
            (others j st s (λ p. d.0 (subst (λ r. In r rows) (sym p) i)) v)

      pub for_table-Shows :
          (tab : OptTable S) (st : SinceState S B) (s : Single)
          → Shows st s
          → Shows (for_table S B f tab st) (if has tab then g s else s)
      unfolding for_table contains
      for_table-Shows none st s v = v
      for_table-Shows (some tab) st s v = elim (Bool-cases (S.contains e tab.rows)) [
        | inl c ↦ rw c (
            for_rows-present (S.to_list tab.rows) st s (S.to_list-Distinct tab.rows)
              ((S.contains-to_list e tab.rows).0 c) v)
        | inr c ↦ rw c (
            for_rows-absent (S.to_list tab.rows) st s
              (λ i. ground (arith, (S.contains-to_list e tab.rows).1 i)) v)
      ]
