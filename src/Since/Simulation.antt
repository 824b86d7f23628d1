-- ===== src/Since/Simulation.antt =====
-- src/since_impl.h: add_new_ts and add_new_table, on one row's view.
use cppmon.Shared.{
  ℕ, ◌≡◌, refl, subst, inl, inr, Bool, true, false, not, some, List, [], ◌∷◌, ◌++◌, arith,
  if◌then◌else◌, Bool-cases, if_intro,
}
use cppmon.Hash.{HashSet, HashMap}
use cppmon.Interval.{Interval, sub_size_t, leq_upper, gt_upper, lt_lower}
use cppmon.Interval
use cppmon.Table.{OptTable}
use cppmon.Since.{
  TableBuf, SinceState, for_table, drop_too_old, move_row, push_in, move_prev, add_new_ts,
  add_row_since, tuple_in_update, add_new_table,
}
use cppmon.Since.Single.{
  Single, Marks, release, drop_in, drop_prev, move, count_in, emplaced, incremented,
}
use cppmon.Since.Single
use cppmon.Since.Project.{Shows, has, marks, marks-append, for_table-Shows}
use cppmon.Since.Rows.{
  move_row_self, move_row_other, update_self, update_other, add_row_since_self, add_row_since_other,
}
use cppmon.Since.Dropping.{with_tables, with_prev, same_lt_lower, same_contains, drop_too_old-Shows}

move-if : (t : ℕ) (b : Bool) (s : Single) → (if b then move t true s else s) ≡ move t b s
unfolding move
move-if t true s = refl
move-if t false s = refl

count_in-if :
    (t : ℕ) (b : Bool) (s : Single) → (if b then count_in t true s else s) ≡ count_in t b s
unfolding count_in emplaced incremented
count_in-if t true s = refl
count_in-if t false s = refl

module _ {T : Type 0} (S : HashSet (List T)) (B : HashMap (List T) ℕ) (e : List T)
    (inter : Interval) (neg : Bool) (idx : List ℕ) where
  abbrev View : SinceState S B → Single → Type 0
  View = Shows S B e inter neg idx

  push_in-Shows :
      (t : ℕ) (tab : OptTable S) (st : SinceState S B) (s : Single)
      → View st s
      → View (push_in S B t tab st) (record s { inn = s.inn ++ (t, has S B e tab) ∷ [] })
  unfolding push_in
  push_in-Shows t tab st s v =
      let inn : Marks = s.inn ++ (t, has S B e tab) ∷ [] in
      if_intro (λ r. View r (record s { inn = inn })) (not st.interval_inf) _ _
        (λ b.
          with_tables S B e inter neg idx st s st.data_prev (st.data_in ++ (t, tab) ∷ []) s.prev inn
            v v.prev_is (λ c. rw (marks-append S B e st.data_in ((t, tab) ∷ []), v.inn_is c) refl))
        (λ b.
          with_tables S B e inter neg idx st s st.data_prev st.data_in s.prev inn v v.prev_is
            (λ c. absurd (ground (arith, v.inf_is))))

  module _ (ts : ℕ) where
    move_prev-Shows :
        (l : TableBuf S B) (st : SinceState S B) (s : Single)
        → View st s
        → View (move_prev S B ts l st) (Single.move_prev inter ts (marks S B e l) s)
    unfolding move_prev Single.move_prev
    move_prev-Shows [] st s v = with_prev S B e inter neg idx st s [] v
    move_prev-Shows ((t, tab) ∷ l) st s v =
        let st' : SinceState S B = for_table S B (move_row S B t) tab st in
        elim (Bool-cases (lt_lower inter (sub_size_t ts t))) [
          | inl c ↦
              rw
                (
                  move_prev,
                  same_lt_lower S B e inter neg idx st s v (sub_size_t ts t),
                  c,
                  Single.move_prev,
                )
                (with_prev S B e inter neg idx st s ((t, tab) ∷ l) v)
          | inr c ↦
              rw
                (
                  move_prev,
                  same_lt_lower S B e inter neg idx st s v (sub_size_t ts t),
                  c,
                  Single.move_prev,
                )
                (move_prev-Shows l (push_in S B t tab st') _ (
                  push_in-Shows t tab st' (move t (has S B e tab) s) (
                    subst (View st') (move-if t (has S B e tab) s) (
                      for_table-Shows S B e inter neg idx (move_row S B t) (move t true)
                        (move_row_self S B e inter neg idx t) (move_row_other S B e inter neg idx t)
                        tab st s v))))
        ]

    pub add_new_ts-Shows :
        (st : SinceState S B) (s : Single)
        → View st s
        → View (add_new_ts S B ts st) (Single.add_new_ts inter ts s)
    unfolding add_new_ts Single.add_new_ts
    add_new_ts-Shows st s v =
        let st' : SinceState S B = if not st.interval_inf then drop_too_old S B ts st else st in
        let s' : Single =
          if not (Interval.is_bounded inter) then s else Single.drop_too_old inter ts s in
        let w : View st' s' = elim (Bool-cases (Interval.is_bounded inter)) [
          | inl b ↦ rw b (
              if_intro (λ r. View r (Single.drop_too_old inter ts s)) (not st.interval_inf) _ _
                (λ c. drop_too_old-Shows S B e inter neg idx b ts st s v)
                (λ c. absurd (ground (arith, v.inf_is))))
          | inr b ↦ rw b (
              if_intro (λ r. View r s) (not st.interval_inf) _ _
                (λ c. absurd (ground (arith, v.inf_is))) (λ c. v))
        ] in
        subst (λ l. View (move_prev S B ts st'.data_prev st') (Single.move_prev inter ts l s'))
          w.prev_is (move_prev-Shows st'.data_prev st' s' w)

    counted-Shows :
        (tab : OptTable S) (st : SinceState S B) (s : Single)
        → View st s
        → View (for_table S B (add_row_since S B ts) tab st) (count_in ts (has S B e tab) s)
    counted-Shows tab st s v =
        subst (View (for_table S B (add_row_since S B ts) tab st))
          (count_in-if ts (has S B e tab) s)
          (for_table-Shows S B e inter neg idx (add_row_since S B ts) (count_in ts true)
            (add_row_since_self S B e inter neg idx ts) (add_row_since_other S B e inter neg idx ts)
            tab st s v)

    updated-Shows :
        (tab : OptTable S) (st : SinceState S B) (s : Single)
        → View st s
        → View
            (for_table S B (λ j. tuple_in_update S B j ts) tab st)
            (record s { tin = if has S B e tab then some ts else s.tin })
    updated-Shows tab st s v =
        subst (View (for_table S B (λ j. tuple_in_update S B j ts) tab st))
          (elim (Bool-cases (has S B e tab)) [ inl c ↦ rw c refl | inr c ↦ rw c refl ])
          (for_table-Shows S B e inter neg idx (λ j. tuple_in_update S B j ts)
            (λ (r : Single). record r { tin = some ts }) (update_self S B e inter neg idx ts)
            (update_other S B e inter neg idx ts) tab st s v)

    pub add_new_table-Shows :
        (tab : OptTable S) (st : SinceState S B) (s : Single)
        → View st s
        → View (add_new_table S B tab ts st) (Single.add_new_table inter (has S B e tab) ts s)
    unfolding add_new_table Single.add_new_table
    add_new_table-Shows tab st s v =
        let st' : SinceState S B = for_table S B (add_row_since S B ts) tab st in
        let s' : Single = count_in ts (has S B e tab) s in
        let w : View st' s' = counted-Shows tab st s v in
        elim (Bool-cases (Interval.contains inter 0)) [
          | inl c ↦
              rw
                (add_new_table, same_contains S B e inter neg idx st s v 0, c, Single.add_new_table)
                (push_in-Shows ts tab _ _ (updated-Shows tab st' s' w))
          | inr c ↦
              rw
                (add_new_table, same_contains S B e inter neg idx st s v 0, c, Single.add_new_table)
                (with_tables S B e inter neg idx st' s' (st'.data_prev ++ (ts, tab) ∷ [])
                  st'.data_in (s'.prev ++ (ts, has S B e tab) ∷ []) s'.inn w
                  (rw (marks-append S B e st'.data_prev ((ts, tab) ∷ []), w.prev_is) refl) w.inn_is)
        ]
