-- ===== src/Since/Single/Drop.antt =====
-- drop_too_old on one row: what goes is not fresh, and what stays is.
use cppmon.Shared.{
  ℕ, zero, suc, ◌-◌, ◌≤◌, ◌<◌, ◌≡◌, refl, sym, subst, ◌∙◌, ◌⊎◌, inl, inr, Bool, true, false, none,
  some, [], ◌∷◌, ◌++◌, arith, if◌then◌else◌, Bool-cases, ◌==◌,
}
use cppmon.Interval.{
  Interval, sub_size_t, sub_size_t-of_le, size_t_mod, leq_upper, gt_upper-leq_upper,
}
use cppmon.Since.{is_at}
use cppmon.Since.Single.{
  Single, Marks, release_at, release, drop_in, drop_prev, drop_old_in, drop_old_prev, drop_too_old,
}
use cppmon.Since.Single.Spec.{
  History, count, counted, Fresh, Inv, Has-append_left, AllFresh, AllFresh-of_Above,
  AllFresh-append_head, Below-append_head, Ordered-append_head, count-pos_of_Has, leq_upper_mono,
}

-- The state when an entry with the row goes, `n` entries with it stay, and `l` is left of `inn`.
abbrev without_in : ℕ → ℕ → Marks → Single → Single
without_in n t l s = record {
  prev = s.prev;
  inn = l;
  tin = if is_at t s.tin then none else s.tin;
  since = if n == 0 then none else s.since;
  cnt = counted n;
}

drop_in-without_in :
    (n t : ℕ) (l : Marks) (s : Single)
    → s.cnt ≡ some (suc n)
    → record (drop_in t true s) { inn = l } ≡ without_in n t l s
unfolding drop_in
drop_in-without_in zero t l s e = ground arith
drop_in-without_in (suc n) t l s e = ground arith

abbrev without_prev : ℕ → Marks → Single → Single
without_prev n l s = record {
  prev = l;
  inn = s.inn;
  tin = s.tin;
  since = if n == 0 then none else s.since;
  cnt = counted n;
}

drop_prev-without_prev :
    (n : ℕ) (l : Marks) (s : Single)
    → s.cnt ≡ some (suc n)
    → record (drop_prev true s) { prev = l } ≡ without_prev n l s
unfolding drop_prev
drop_prev-without_prev zero l s e = ground arith
drop_prev-without_prev (suc n) l s e = ground arith

module _ (inter : Interval) (h : History) (now : ℕ) where
  -- A timestamp that is not fresh, and all earlier ones.
  not-Fresh : (t u : ℕ) → leq_upper inter (now - t) ≡ false → u ≤ t → Fresh inter now u → ⊥
  not-Fresh t u old le f = let g = leq_upper_mono inter (now - t) (now - u) (omega arith) f in cc

  without_in-Inv :
      (t : ℕ) (l : Marks) (s : Single)
      → Inv inter h now (record s { inn = (t, true) ∷ l })
      → leq_upper inter (now - t) ≡ false
      → Inv inter h now (without_in (count (l ++ s.prev)) t l s)
  unfolding is_at
  without_in-Inv t l s v old = record {
    ordered = v.ordered.1;
    below = v.below.1;
    since_below = ground (arith, v.since_below);
    found =
        λ u m f. ground (arith, v.found u m f, not-Fresh t u old, count-pos_of_Has u (l ++ s.prev));
    sound = λ u i a. ground (arith, v.sound u);
    tin_in = λ u e.
        ground (arith, v.tin_in u, Has-append_left u l s.prev, count-pos_of_Has u (l ++ s.prev));
    in_tin = λ u i a f. ground (arith, v.in_tin u (inr i), not-Fresh t u old);
    count_cnt = refl;
  }

  -- The oldest entry of `inn` goes, if it is not fresh.
  drop_in-Inv :
      (t : ℕ) (b : Bool) (l : Marks) (s : Single)
      → Inv inter h now (record s { inn = (t, b) ∷ l })
      → leq_upper inter (now - t) ≡ false
      → Inv inter h now (record (drop_in t b s) { inn = l })
  drop_in-Inv t true l s v old =
      rw (drop_in-without_in (count (l ++ s.prev)) t l s v.count_cnt) (without_in-Inv t l s v old)
  drop_in-Inv t false l s v old =
      unfold drop_in in
      record {
        ordered = v.ordered.1;
        below = v.below.1;
        since_below = v.since_below;
        found = λ u m f. ground (arith, v.found u m f);
        sound = λ u i a. v.sound u (inr i) a;
        tin_in = λ u e. ground (arith, v.tin_in u);
        in_tin = λ u i a f. v.in_tin u (inr i) a f;
        count_cnt = v.count_cnt;
      }

  without_prev-Inv :
      (t : ℕ) (l : Marks) (s : Single)
      → Inv inter h now (record s { inn = []; prev = (t, true) ∷ l })
      → leq_upper inter (now - t) ≡ false
      → Inv inter h now (without_prev (count l) l (record s { inn = [] }))
  without_prev-Inv t l s v old = record {
    ordered = v.ordered.1;
    below = v.below.1;
    since_below = ground (arith, v.since_below);
    found = λ u m f. ground (arith, v.found u m f, not-Fresh t u old, count-pos_of_Has u l);
    sound = λ u i a. ground (arith, v.sound u);
    tin_in = λ u e. absurd ((v.tin_in u e).0);
    in_tin = λ u i a f. absurd i;
    count_cnt = refl;
  }

  -- And the oldest of `prev`, when `inn` is empty.
  drop_prev-Inv :
      (t : ℕ) (b : Bool) (l : Marks) (s : Single)
      → Inv inter h now (record s { inn = []; prev = (t, b) ∷ l })
      → leq_upper inter (now - t) ≡ false
      → Inv inter h now (record (drop_prev b (record s { inn = [] })) { prev = l })
  drop_prev-Inv t true l s v old =
      rw (drop_prev-without_prev (count l) l (record s { inn = [] }) v.count_cnt)
        (without_prev-Inv t l s v old)
  drop_prev-Inv t false l s v old =
      unfold drop_prev in
      record {
        ordered = v.ordered.1;
        below = v.below.1;
        since_below = v.since_below;
        found = λ u m f. ground (arith, v.found u m f);
        sound = λ u i a. v.sound u (inr i) a;
        tin_in = λ u e. absurd ((v.tin_in u e).0);
        in_tin = λ u i a f. absurd i;
        count_cnt = v.count_cnt;
      }

  drop_prev-inn : (b : Bool) (s : Single) → (drop_prev b s).inn ≡ s.inn
  unfolding drop_prev release release_at
  drop_prev-inn b s = ground arith

  drop_prev-Inv_nil :
      (t : ℕ) (b : Bool) (l : Marks) (s : Single)
      → s.inn ≡ []
      → Inv inter h now (record s { prev = (t, b) ∷ l })
      → leq_upper inter (now - t) ≡ false
      → Inv inter h now (record (drop_prev b s) { prev = l })
  drop_prev-Inv_nil t b l s e v old =
      subst
        (λ (r : Single).
          Inv inter h now (record r { prev = (t, b) ∷ l })
          → Inv inter h now (record (drop_prev b r) { prev = l }))
        (λ i. record s { inn = sym e i }) (λ w. drop_prev-Inv t b l s w old) v

  -- Either nothing is left in `inn`, or nothing that is left is too old.
  abbrev Stopped : Single → Type 0
  Stopped s = (s.inn ≡ []) ⊎ AllFresh inter now (s.inn ++ s.prev)

  -- An entry that is too old stands behind none that is fresh.
  inn_gone :
      (t : ℕ) (b : Bool) (l : Marks) (s : Single)
      → Stopped (record s { prev = (t, b) ∷ l })
      → leq_upper inter (now - t) ≡ false
      → s.inn ≡ []
  inn_gone t b l s (inl e) old = e
  inn_gone t b l s (inr f) old = absurd (cc (AllFresh-append_head inter now t b s.inn l f))

  stays :
      (t : ℕ) (b : Bool) (l : Marks) (s : Single)
      → Inv inter h now (record s { prev = (t, b) ∷ l })
      → Stopped (record s { prev = (t, b) ∷ l })
      → Fresh inter now t
      → AllFresh inter now (s.inn ++ (t, b) ∷ l)
  stays t b l s v (inr f) e = f
  stays t b l s v (inl g) e =
      rw g (e, AllFresh-of_Above inter now t l e (Ordered-append_head t b s.inn l v.ordered))

  module _ (word : now < size_t_mod) where
    drop_old_in-Inv :
        (l : Marks) (s : Single)
        → Inv inter h now (record s { inn = l })
        → Inv inter h now (drop_old_in inter now l s) × Stopped (drop_old_in inter now l s)
    unfolding drop_old_in
    drop_old_in-Inv [] s v = (v, inl refl)
    drop_old_in-Inv ((t, b) ∷ l) s v = elim (Bool-cases (leq_upper inter (now - t))) [
      | inl e ↦
          rw (sub_size_t-of_le now t v.below.0 word, drop_old_in, e)
            (v, inr (e, AllFresh-of_Above inter now t (l ++ s.prev) e v.ordered.0))
      | inr e ↦
          rw (sub_size_t-of_le now t v.below.0 word, drop_old_in, e)
            (drop_old_in-Inv l (drop_in t b s) (drop_in-Inv t b l s v e))
    ]

    age :
        (l : Marks) (s : Single) (t : ℕ) (b : Bool)
        → Inv inter h now (record s { prev = (t, b) ∷ l })
        → sub_size_t now t ≡ now - t
    age l s t b v = sub_size_t-of_le now t (Below-append_head now t b s.inn l v.below) word

    drop_old_prev-Inv :
        (l : Marks) (s : Single)
        → Inv inter h now (record s { prev = l })
        → Stopped (record s { prev = l })
        → Inv inter h now (drop_old_prev inter now l s)
          × AllFresh inter now
              ((drop_old_prev inter now l s).inn ++ (drop_old_prev inter now l s).prev)
    unfolding drop_old_prev
    drop_old_prev-Inv [] s v (inl e) = (v, rw e tt)
    drop_old_prev-Inv [] s v (inr f) = (v, f)
    drop_old_prev-Inv ((t, b) ∷ l) s v k = elim (Bool-cases (leq_upper inter (now - t))) [
      | inl e ↦
          rw (age l s t b v, drop_old_prev, gt_upper-leq_upper inter (now - t), e)
            (v, stays t b l s v k e)
      | inr e ↦
          rw (age l s t b v, drop_old_prev, gt_upper-leq_upper inter (now - t), e)
            (let gone = inn_gone t b l s k e in
              drop_old_prev-Inv l (drop_prev b s) (drop_prev-Inv_nil t b l s gone v e)
                (inl (drop_prev-inn b s ∙ gone)))
    ]

    -- After drop_too_old nothing is left that is too old.
    pub drop_too_old-Inv :
        (s : Single)
        → Inv inter h now s
        → Inv inter h now (drop_too_old inter now s)
          × AllFresh inter now ((drop_too_old inter now s).inn ++ (drop_too_old inter now s).prev)
    unfolding drop_too_old
    drop_too_old-Inv s v =
        let (w, k) = drop_old_in-Inv s.inn s v in
        drop_old_prev-Inv (drop_old_in inter now s.inn s).prev (drop_old_in inter now s.inn s) w k
