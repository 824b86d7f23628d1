-- ===== src/Since/Dropping.antt =====
-- src/since_impl.h: drop_too_old, on one row's view.
use cppmon.Shared.{
  ℕ, ◌≡◌, refl, subst, inl, inr, Bool, true, false, List, [], ◌∷◌, if◌then◌else◌, Bool-cases,
}
use cppmon.Hash.{HashSet, HashMap}
use cppmon.Interval.{Interval, sub_size_t, leq_upper, gt_upper, lt_lower}
use cppmon.Interval
use cppmon.Since.{
  TableBuf, SinceState, for_table, drop_tuple_from_all_data, drop_row_in, drop_old_in,
  drop_old_prev, drop_too_old,
}
use cppmon.Since.Single.{
  Single, Marks, release, drop_in, drop_prev, move, count_in, emplaced, incremented,
}
use cppmon.Since.Single
use cppmon.Since.Project.{Shows, has, marks, for_table-Shows}
use cppmon.Since.Rows.{drop_tuple_self, drop_tuple_other, drop_row_in_self, drop_row_in_other}

drop_in-if : (t : ℕ) (b : Bool) (s : Single) → (if b then drop_in t true s else s) ≡ drop_in t b s
unfolding drop_in
drop_in-if t true s = refl
drop_in-if t false s = refl

drop_prev-if : (b : Bool) (s : Single) → (if b then release s else s) ≡ drop_prev b s
unfolding drop_prev
drop_prev-if true s = refl
drop_prev-if false s = refl

module _ {T : Type 0} (S : HashSet (List T)) (B : HashMap (List T) ℕ) (e : List T)
    (inter : Interval) (neg : Bool) (idx : List ℕ) where
  abbrev View : SinceState S B → Single → Type 0
  View = Shows S B e inter neg idx

  -- Other tables, on both sides.
  pub with_tables :
      (st : SinceState S B) (s : Single) (p i : TableBuf S B) (prev inn : Marks)
      → View st s
      → marks S B e p ≡ prev
      → (Interval.is_bounded inter ≡ true → marks S B e i ≡ inn)
      → View (record st { data_prev = p; data_in = i }) (record s { prev = prev; inn = inn })
  with_tables st s p i prev inn v a b = record {
    inter_is = v.inter_is;
    inf_is = v.inf_is;
    negated_is = v.negated_is;
    idx_is = v.idx_is;
    prev_is = a;
    inn_is = b;
    tin_is = v.tin_is;
    since_is = v.since_is;
    cnt_is = v.cnt_is;
  }

  pub with_prev :
      (st : SinceState S B) (s : Single) (p : TableBuf S B)
      → View st s
      → View (record st { data_prev = p }) (record s { prev = marks S B e p })
  with_prev st s p v = with_tables st s p st.data_in (marks S B e p) s.inn v refl v.inn_is

  with_in :
      (st : SinceState S B) (s : Single) (p : TableBuf S B)
      → View st s
      → View (record st { data_in = p }) (record s { inn = marks S B e p })
  with_in st s p v = with_tables st s st.data_prev p s.prev (marks S B e p) v v.prev_is (λ b. refl)

  same_leq_upper :
      (st : SinceState S B) (s : Single)
      → View st s
      → (n : ℕ) → leq_upper st.inter n ≡ leq_upper inter n
  same_leq_upper st s v n = rw v.inter_is refl

  same_gt_upper :
      (st : SinceState S B) (s : Single)
      → View st s
      → (n : ℕ) → gt_upper st.inter n ≡ gt_upper inter n
  same_gt_upper st s v n = rw v.inter_is refl

  pub same_lt_lower :
      (st : SinceState S B) (s : Single)
      → View st s
      → (n : ℕ) → lt_lower st.inter n ≡ lt_lower inter n
  same_lt_lower st s v n = rw v.inter_is refl

  pub same_contains :
      (st : SinceState S B) (s : Single)
      → View st s
      → (n : ℕ) → Interval.contains st.inter n ≡ Interval.contains inter n
  same_contains st s v n = rw v.inter_is refl

  module _ (bounded : Interval.is_bounded inter ≡ true) (ts : ℕ) where
    drop_old_in-Shows :
        (l : TableBuf S B) (st : SinceState S B) (s : Single)
        → View st s
        → View (drop_old_in S B ts l st) (Single.drop_old_in inter ts (marks S B e l) s)
    unfolding drop_old_in Single.drop_old_in
    drop_old_in-Shows [] st s v = with_in st s [] v
    drop_old_in-Shows ((t, tab) ∷ l) st s v =
        elim (Bool-cases (leq_upper inter (sub_size_t ts t))) [
          | inl c ↦
              rw (drop_old_in, same_leq_upper st s v (sub_size_t ts t), c, Single.drop_old_in)
                (with_in st s ((t, tab) ∷ l) v)
          | inr c ↦
              rw (drop_old_in, same_leq_upper st s v (sub_size_t ts t), c, Single.drop_old_in)
                (drop_old_in-Shows l (for_table S B (drop_row_in S B t) tab st)
                  (drop_in t (has S B e tab) s)
                  (subst (View (for_table S B (drop_row_in S B t) tab st))
                    (drop_in-if t (has S B e tab) s)
                    (for_table-Shows S B e inter neg idx (drop_row_in S B t) (drop_in t true)
                      (drop_row_in_self S B e inter neg idx bounded t)
                      (drop_row_in_other S B e inter neg idx t) tab st s v)))
        ]

    drop_old_prev-Shows :
        (l : TableBuf S B) (st : SinceState S B) (s : Single)
        → View st s
        → View (drop_old_prev S B ts l st) (Single.drop_old_prev inter ts (marks S B e l) s)
    unfolding drop_old_prev Single.drop_old_prev
    drop_old_prev-Shows [] st s v = with_prev st s [] v
    drop_old_prev-Shows ((t, tab) ∷ l) st s v =
        elim (Bool-cases (gt_upper inter (sub_size_t ts t))) [
          | inl c ↦
              rw (drop_old_prev, same_gt_upper st s v (sub_size_t ts t), c, Single.drop_old_prev)
                (drop_old_prev-Shows l (for_table S B (drop_tuple_from_all_data S B) tab st)
                  (drop_prev (has S B e tab) s)
                  (subst (View (for_table S B (drop_tuple_from_all_data S B) tab st))
                    (drop_prev-if (has S B e tab) s)
                    (for_table-Shows S B e inter neg idx (drop_tuple_from_all_data S B) release
                      (drop_tuple_self S B e inter neg idx bounded)
                      (drop_tuple_other S B e inter neg idx) tab st s v)))
          | inr c ↦
              rw (drop_old_prev, same_gt_upper st s v (sub_size_t ts t), c, Single.drop_old_prev)
                (with_prev st s ((t, tab) ∷ l) v)
        ]

    pub drop_too_old-Shows :
        (st : SinceState S B) (s : Single)
        → View st s
        → View (drop_too_old S B ts st) (Single.drop_too_old inter ts s)
    unfolding drop_too_old Single.drop_too_old
    drop_too_old-Shows st s v =
        let st' : SinceState S B = drop_old_in S B ts st.data_in st in
        let s' : Single = Single.drop_old_in inter ts s.inn s in
        let w : View st' s' =
          subst (λ l. View st' (Single.drop_old_in inter ts l s)) (v.inn_is bounded)
            (drop_old_in-Shows st.data_in st s v) in
        subst
          (λ l. View (drop_old_prev S B ts st'.data_prev st') (Single.drop_old_prev inter ts l s'))
          w.prev_is (drop_old_prev-Shows st'.data_prev st' s' w)
