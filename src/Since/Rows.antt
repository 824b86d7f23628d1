-- ===== src/Since/Rows.antt =====
-- src/since_impl.h: the bodies of the loops over a table's rows, on one row's view.
use cppmon.Shared.{
  ℕ, zero, suc, ◌-◌, ◌≡◌, ◌≢◌, refl, ◌∙◌, inl, inr, Bool, true, not, Option, none, some, List,
  arith, Bool-cases, Option-cases, if_intro,
}
use cppmon.Hash.{HashSet, HashMap, emplace, find-emplace}
use cppmon.Interval.{Interval, size_t_mod}
use cppmon.Interval
use cppmon.Since.{
  SinceState, is_at, since_by, tuple_in_erase, tuple_in_update, drop_counted,
  drop_tuple_from_all_data, drop_row_in, move_row, count_row, add_row_since,
}
use cppmon.Since.Single.{
  Single, release, release_at, drop_in, move, count_in, emplaced, incremented,
}
use cppmon.Since.Project.{Shows}

module _ {T : Type 0} (S : HashSet (List T)) (B : HashMap (List T) ℕ) (e : List T) where
  find-insert_self : (n : ℕ) (m : B.Carrier) → B.find e (B.insert_or_assign e n m) ≡ some n
  find-insert_self n m = ground (arith, B.find-insert_or_assign e e n m)

  find-erase_self : (m : B.Carrier) → B.find e (B.erase e m) ≡ none
  find-erase_self m = ground (arith, B.find-erase e e m)

  find-insert_other :
      (j : List T) (n : ℕ) (m : B.Carrier)
      → j ≢ e
      → B.find e (B.insert_or_assign j n m) ≡ B.find e m
  find-insert_other j n m d = ground (arith, B.find-insert_or_assign e j n m, d)

  find-erase_other : (j : List T) (m : B.Carrier) → j ≢ e → B.find e (B.erase j m) ≡ B.find e m
  find-erase_other j m d = ground (arith, B.find-erase e j m, d)

  find-emplace_self :
      (ts : ℕ) (m : B.Carrier) → B.find e (emplace B e ts m) ≡ emplaced ts true (B.find e m)
  unfolding emplaced
  find-emplace_self ts m = ground (arith, find-emplace B e e ts m)

  find-emplace_other :
      (j : List T) (ts : ℕ) (m : B.Carrier) → j ≢ e → B.find e (emplace B j ts m) ≡ B.find e m
  find-emplace_other j ts m d = ground (arith, find-emplace B e j ts m, d)

  module _ (inter : Interval) (neg : Bool) (idx : List ℕ) where
    abbrev View : SinceState S B → Single → Type 0
    View = Shows S B e inter neg idx

    -- Other values of the maps, on both sides.
    with_maps :
        (st : SinceState S B) (s : Single) (ti si ci : B.Carrier) (tin since cnt : Option ℕ)
        → View st s
        → B.find e ti ≡ tin
        → B.find e si ≡ since
        → (Interval.is_bounded inter ≡ true → B.find e ci ≡ cnt)
        → View
            (record st { tuple_in = ti; tuple_since = si; all_data_counted = ci })
            (record s { tin = tin; since = since; cnt = cnt })
    with_maps st s ti si ci tin since cnt v a b c = record {
      inter_is = v.inter_is;
      inf_is = v.inf_is;
      negated_is = v.negated_is;
      idx_is = v.idx_is;
      prev_is = v.prev_is;
      inn_is = v.inn_is;
      tin_is = a;
      since_is = b;
      cnt_is = c;
    }

    drop_counted_self :
        (n : ℕ) (st : SinceState S B) (s : Single)
        → View st s
        → View (drop_counted S B e n st) (release_at n s)
    unfolding drop_counted release_at
    drop_counted_self zero st s v =
        with_maps st s st.tuple_in st.tuple_since _ s.tin s.since _ v v.tin_is v.since_is
          (λ b. find-insert_self _ st.all_data_counted)
    drop_counted_self (suc zero) st s v =
        with_maps st s st.tuple_in _ _ s.tin _ _ v v.tin_is (find-erase_self st.tuple_since)
          (λ b. find-erase_self st.all_data_counted)
    drop_counted_self (suc (suc n)) st s v =
        with_maps st s st.tuple_in st.tuple_since _ s.tin s.since _ v v.tin_is v.since_is
          (λ b. find-insert_self _ st.all_data_counted)

    drop_counted_other :
        (j : List T) (n : ℕ) (st : SinceState S B) (s : Single)
        → j ≢ e
        → View st s
        → View (drop_counted S B j n st) s
    unfolding drop_counted
    drop_counted_other j zero st s d v =
        with_maps st s st.tuple_in st.tuple_since _ s.tin s.since s.cnt v v.tin_is v.since_is
          (λ b. rw (find-insert_other j (size_t_mod - 1) st.all_data_counted d) (v.cnt_is b))
    drop_counted_other j (suc zero) st s d v =
        with_maps st s st.tuple_in _ _ s.tin s.since s.cnt v v.tin_is
          (rw (find-erase_other j st.tuple_since d) v.since_is)
          (λ b. rw (find-erase_other j st.all_data_counted d) (v.cnt_is b))
    drop_counted_other j (suc (suc n)) st s d v =
        with_maps st s st.tuple_in st.tuple_since _ s.tin s.since s.cnt v v.tin_is v.since_is
          (λ b. rw (find-insert_other j (suc n) st.all_data_counted d) (v.cnt_is b))

    pub drop_tuple_other :
        (j : List T) (st : SinceState S B) (s : Single)
        → j ≢ e
        → View st s
        → View (drop_tuple_from_all_data S B j st) s
    unfolding drop_tuple_from_all_data
    drop_tuple_other j st s d v = elim (Option-cases (B.find j st.all_data_counted)) [
      | inl p ↦ rw (p, drop_tuple_from_all_data) v
      | inr (n, p) ↦ rw (p, drop_tuple_from_all_data) (drop_counted_other j n st s d v)
    ]

    tuple_in_self :
        (m : B.Carrier) (o : Option ℕ) (st : SinceState S B) (s : Single)
        → View st s
        → B.find e m ≡ o
        → View (record st { tuple_in = m }) (record s { tin = o })
    tuple_in_self m o st s v p =
        with_maps st s m st.tuple_since st.all_data_counted o s.since s.cnt v p v.since_is v.cnt_is

    pub drop_row_in_other :
        (t : ℕ) (j : List T) (st : SinceState S B) (s : Single)
        → j ≢ e
        → View st s
        → View (drop_row_in S B t j st) s
    unfolding drop_row_in tuple_in_erase
    drop_row_in_other t j st s d v = elim (Bool-cases (is_at t (B.find j st.tuple_in))) [
      | inl p ↦ rw p (
          drop_tuple_other j _ s d
            (tuple_in_self _ s.tin st s v (rw (find-erase_other j st.tuple_in d) v.tin_is)))
      | inr p ↦ rw p (drop_tuple_other j st s d v)
    ]

    pub move_row_self :
        (t : ℕ) (st : SinceState S B) (s : Single)
        → View st s
        → View (move_row S B t e st) (move t true s)
    unfolding move_row move tuple_in_update
    move_row_self t st s v = elim (Bool-cases (since_by t s.since)) [
      | inl p ↦
          rw (v.since_is, p) (tuple_in_self _ (some t) st s v (find-insert_self t st.tuple_in))
      | inr p ↦ rw (v.since_is, p) v
    ]

    pub move_row_other :
        (t : ℕ) (j : List T) (st : SinceState S B) (s : Single)
        → j ≢ e
        → View st s
        → View (move_row S B t j st) s
    unfolding move_row tuple_in_update
    move_row_other t j st s d v = elim (Bool-cases (since_by t (B.find j st.tuple_since))) [
      | inl p ↦
          rw p (tuple_in_self _ s.tin st s v (rw (find-insert_other j t st.tuple_in d) v.tin_is))
      | inr p ↦ rw p v
    ]

    pub update_self :
        (t : ℕ) (st : SinceState S B) (s : Single)
        → View st s
        → View (tuple_in_update S B e t st) (record s { tin = some t })
    unfolding tuple_in_update
    update_self t st s v = tuple_in_self _ (some t) st s v (find-insert_self t st.tuple_in)

    pub update_other :
        (t : ℕ) (j : List T) (st : SinceState S B) (s : Single)
        → j ≢ e
        → View st s
        → View (tuple_in_update S B j t st) s
    unfolding tuple_in_update
    update_other t j st s d v =
        tuple_in_self _ s.tin st s v (rw (find-insert_other j t st.tuple_in d) v.tin_is)

    module _ (bounded : Interval.is_bounded inter ≡ true) where
      pub drop_tuple_self :
          (st : SinceState S B) (s : Single)
          → View st s
          → View (drop_tuple_from_all_data S B e st) (release s)
      unfolding drop_tuple_from_all_data release
      drop_tuple_self st s v = elim (Option-cases s.cnt) [
        | inl p ↦ rw (v.cnt_is bounded, p, drop_tuple_from_all_data, release) v
        | inr (n, p) ↦
            rw (v.cnt_is bounded, p, drop_tuple_from_all_data, release) (drop_counted_self n st s v)
      ]

      pub drop_row_in_self :
          (t : ℕ) (st : SinceState S B) (s : Single)
          → View st s
          → View (drop_row_in S B t e st) (drop_in t true s)
      unfolding drop_row_in drop_in tuple_in_erase
      drop_row_in_self t st s v = elim (Bool-cases (is_at t s.tin)) [
        | inl p ↦
            rw (v.tin_is, p)
              (drop_tuple_self _ _ (tuple_in_self _ none st s v (find-erase_self st.tuple_in)))
        | inr p ↦ rw (v.tin_is, p) (drop_tuple_self st s v)
      ]

    count_row_self :
        (st : SinceState S B) (s : Single)
        → View st s
        → View (count_row S B e st) (record s { cnt = incremented true s.cnt })
    unfolding count_row incremented
    count_row_self st s v =
        with_maps st s st.tuple_in st.tuple_since _ s.tin s.since _ v v.tin_is v.since_is (λ b.
          rw (find-insert_self _ st.all_data_counted, v.cnt_is b)
            (elim (Option-cases s.cnt) [ inl p ↦ rw p refl | inr (n, p) ↦ rw p refl ]))

    count_row_other :
        (j : List T) (st : SinceState S B) (s : Single)
        → j ≢ e
        → View st s
        → View (count_row S B j st) s
    unfolding count_row
    count_row_other j st s d v =
        with_maps st s st.tuple_in st.tuple_since _ s.tin s.since s.cnt v v.tin_is v.since_is
          (λ b. rw (find-insert_other j _ st.all_data_counted d) (v.cnt_is b))

    since_self :
        (m : B.Carrier) (o c : Option ℕ) (st : SinceState S B) (s : Single)
        → View st s
        → B.find e m ≡ o
        → (Interval.is_bounded inter ≡ true → s.cnt ≡ c)
        → View (record st { tuple_since = m }) (record s { since = o; cnt = c })
    since_self m o c st s v p q =
        with_maps st s st.tuple_in m st.all_data_counted s.tin o c v v.tin_is p
          (λ b. v.cnt_is b ∙ q b)

    pub add_row_since_self :
        (t : ℕ) (st : SinceState S B) (s : Single)
        → View st s
        → View (add_row_since S B t e st) (count_in t true s)
    unfolding add_row_since count_in
    add_row_since_self t st s v =
        let p : B.find e (emplace B e t st.tuple_since) ≡ emplaced t true s.since =
          rw (find-emplace_self t st.tuple_since, v.since_is) refl in
        if_intro (λ r. View r (count_in t true s)) (not st.interval_inf) _ _
          (λ b. count_row_self _ _ (since_self _ _ s.cnt st s v p (λ c. refl)))
          (λ b. since_self _ _ _ st s v p (λ c. absurd (ground (arith, v.inf_is))))

    pub add_row_since_other :
        (t : ℕ) (j : List T) (st : SinceState S B) (s : Single)
        → j ≢ e
        → View st s
        → View (add_row_since S B t j st) s
    unfolding add_row_since
    add_row_since_other t j st s d v =
        let w : View (record st { tuple_since = emplace B j t st.tuple_since }) s =
          since_self _ s.since s.cnt st s v
            (rw (find-emplace_other j t st.tuple_since d) v.since_is) (λ c. refl) in
        if_intro (λ r. View r s) (not st.interval_inf) _ _ (λ b. count_row_other j _ s d w) (λ b. w)
