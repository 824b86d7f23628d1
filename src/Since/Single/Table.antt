-- ===== src/Since/Single/Table.antt =====
-- add_new_table on one row, and what the row's entry in tuple_in then says.
use cppmon.Shared.{
  ℕ, ◌-◌, ◌≤◌, ◌≡◌, refl, sym, subst, ◌↔◌, ◌⊎◌, inl, inr, Bool, true, false, Option, some, [], ◌∷◌,
  ◌++◌, arith, if◌then◌else◌, Bool-cases,
}
use mathlib.Core.List.{append_assoc, append-nil}
use cppmon.Interval.{Interval, leq_upper, lt_lower, contains-lower-upper, lt_lower-geq_lower}
use cppmon.Interval
use cppmon.Since.Single.{Single, Marks, emplaced, count_in, add_new_table}
use cppmon.Since.Single.Spec.{
  History, Mark, Has, Alive, Covers, Fresh, Inv, AllFresh, AllFresh-Has, Has-append_left,
  Has-append_right, Has-append_cases, Below-Has,
}
use cppmon.Since.Single.Move.{AllReached, NoneReached}
use cppmon.Since.Single.Step.{without_right, with_point, none_waits, pushed-Inv}

AllReached-Has :
    (inter : Interval) (now t : ℕ) (l : Marks)
    → AllReached inter now l
    → Has t l
    → lt_lower inter (now - t) ≡ false
AllReached-Has inter now t [] r i = absurd i
AllReached-Has inter now t ((u, b) ∷ l) (p, q) (inl i) = rw (← i.1) p
AllReached-Has inter now t ((u, b) ∷ l) (p, q) (inr i) = AllReached-Has inter now t l q i

AllReached-snoc :
    (inter : Interval) (now t : ℕ) (b : Bool) (l : Marks)
    → AllReached inter now l
    → lt_lower inter (now - t) ≡ false
    → AllReached inter now (l ++ (t, b) ∷ [])
AllReached-snoc inter now t b [] r e = (e, tt)
AllReached-snoc inter now t b ((u, c) ∷ l) (p, q) e = (p, AllReached-snoc inter now t b l q e)

NoneReached-snoc :
    (inter : Interval) (now t : ℕ) (b : Bool) (l : Marks)
    → NoneReached inter now l
    → lt_lower inter (now - t) ≡ true
    → NoneReached inter now (l ++ (t, b) ∷ [])
NoneReached-snoc inter now t b [] r e = (e, tt)
NoneReached-snoc inter now t b ((u, c) ∷ l) (p, q) e = (p, NoneReached-snoc inter now t b l q e)

AllFresh-snoc :
    (inter : Interval) (now t : ℕ) (b : Bool) (l : Marks)
    → AllFresh inter now l
    → Fresh inter now t
    → AllFresh inter now (l ++ (t, b) ∷ [])
AllFresh-snoc inter now t b [] r e = (e, tt)
AllFresh-snoc inter now t b ((u, c) ∷ l) (p, q) e = (p, AllFresh-snoc inter now t b l q e)

NoneReached-Has :
    (inter : Interval) (now t : ℕ) (l : Marks)
    → NoneReached inter now l
    → Has t l
    → lt_lower inter (now - t) ≡ true
NoneReached-Has inter now t [] r i = absurd i
NoneReached-Has inter now t ((u, b) ∷ l) (p, q) (inl i) = rw (← i.1) p
NoneReached-Has inter now t ((u, b) ∷ l) (p, q) (inr i) = NoneReached-Has inter now t l q i

-- After a step: the invariant, and which entries the two buffers hold.
pub record Settled (inter : Interval) (h : History) (now : ℕ) (s : Single) : Type 0 where
  pub inv : Inv inter h now s
  pub reached : AllReached inter now s.inn
  pub waiting : NoneReached inter now s.prev
  pub fresh : AllFresh inter now s.inn

-- The row satisfies the formula now: it has a mark whose age is in the interval.
abbrev pub Satisfied : Interval → History → ℕ → Type 0
Satisfied inter h now = (t : ℕ) × Mark h t × (Interval.contains inter (now - t) ≡ true)

module _ (inter : Interval) (h : History) (now : ℕ) (s : Single) (v : Settled inter h now s) where
  Satisfied-of_tin : (t : ℕ) → s.tin ≡ some t → Satisfied inter h now
  Satisfied-of_tin t e =
      let (i, a) = v.inv.tin_in t e in
      (
        t,
        v.inv.sound t (Has-append_left t s.inn s.prev i) a,
        ground (
          arith,
          contains-lower-upper inter (now - t),
          lt_lower-geq_lower inter (now - t),
          AllReached-Has inter now t s.inn v.reached i,
          AllFresh-Has inter now t s.inn v.fresh i,
        ),
      )

  tin-of_Satisfied : Satisfied inter h now → (t : ℕ) × (s.tin ≡ some t)
  tin-of_Satisfied (t, m, c) =
      let fresh : Fresh inter now t = ground (arith, contains-lower-upper inter (now - t)) in
      let (i, a) = v.inv.found t m fresh in
      elim (Has-append_cases t s.inn s.prev i) [
        | inl j ↦ ground (arith, v.inv.in_tin t j a fresh)
        | inr j ↦ absurd (
            ground (
              arith,
              contains-lower-upper inter (now - t),
              lt_lower-geq_lower inter (now - t),
              NoneReached-Has inter now t s.prev v.waiting j,
            ))
      ]

  -- The row has an entry in tuple_in exactly when it satisfies the formula.
  pub tin-Satisfied : ((t : ℕ) × (s.tin ≡ some t)) ↔ Satisfied inter h now
  tin-Satisfied = (λ (t, e). Satisfied-of_tin t e, tin-of_Satisfied)

module _ (inter : Interval) (h : History) (ts : ℕ) (l r : Bool) where
  -- 0 is in the interval exactly when it has no lower end to wait for.
  zero_reached :
      (t : ℕ) → t ≤ ts → ts ≤ t → Interval.contains inter 0 ≡ false → lt_lower inter (ts - t) ≡ true
  unfolding Interval.contains lt_lower
  zero_reached t a b c = ground arith

  module _ (s : Single) (v : Inv inter (without_right ts l h) ts s) where
    -- Every timestamp so far is at most the new one.
    Has-le : (t : ℕ) → Has t s.inn → t ≤ ts
    Has-le t i = Below-Has ts t (s.inn ++ s.prev) v.below (Has-append_left t s.inn s.prev i)

    Alive-emplaced : (t : ℕ) → Alive t s.since → Alive t (emplaced ts r s.since)
    unfolding emplaced
    Alive-emplaced t a = ground arith

    Alive-emplaced_now : r ≡ true → Alive ts (emplaced ts r s.since)
    unfolding emplaced
    Alive-emplaced_now e = ground (arith, v.since_below)

    Alive-emplaced_inv :
        (t : ℕ) → Alive t (emplaced ts r s.since) → Alive t s.since ⊎ ((r ≡ true) × (ts ≤ t))
    unfolding emplaced
    Alive-emplaced_inv t a = ground arith

    abbrev now_tin : Option ℕ
    now_tin = if r then some ts else s.tin

    now_into :
        (t : ℕ) → now_tin ≡ some t → Has t (s.inn ++ (ts, r) ∷ []) × Alive t (emplaced ts r s.since)
    now_into t e = elim (Bool-cases r) [
      | inl new ↦
          let same : ts ≡ t = ground arith in
          (
            Has-append_right t s.inn ((ts, r) ∷ []) (inl (new, same)),
            subst (λ u. Alive u (emplaced ts r s.since)) same (Alive-emplaced_now new),
          )
      | inr old ↦
          let (i, a) = v.tin_in t (ground arith) in
          (Has-append_left t s.inn ((ts, r) ∷ []) i, Alive-emplaced t a)
    ]

    now_out :
        (t : ℕ)
        → Has t (s.inn ++ (ts, r) ∷ [])
        → Alive t (emplaced ts r s.since)
        → Fresh inter ts t
        → Covers t now_tin
    now_out t i a f = elim (Has-append_cases t s.inn ((ts, r) ∷ []) i) [
      | inl j ↦ ground (arith, v.in_tin t j, Has-le t j, Alive-emplaced_inv t a)
      | inr j ↦ ground arith
    ]

    add_now-Inv :
        s.prev ≡ []
        → Inv inter
            (with_point ts l r h)
            ts
            (record (count_in ts r s) { inn = s.inn ++ (ts, r) ∷ []; prev = s.prev; tin = now_tin })
    add_now-Inv e =
        pushed-Inv inter h ts l r s v (s.inn ++ (ts, r) ∷ []) s.prev now_tin
          (rw (e, append-nil, append-nil) refl) now_into now_out

    wait_out :
        Interval.contains inter 0 ≡ false
        → AllReached inter ts s.inn
        → (t : ℕ) → Has t s.inn
        → Alive t (emplaced ts r s.since)
        → Fresh inter ts t
        → Covers t s.tin
    wait_out c reached t i a f = ground (
      arith,
      v.in_tin t i,
      Alive-emplaced_inv t a,
      zero_reached t (Has-le t i),
      AllReached-Has inter ts t s.inn reached i,
    )

    add_wait-Inv :
        Interval.contains inter 0 ≡ false
        → AllReached inter ts s.inn
        → Inv inter
            (with_point ts l r h)
            ts
            (record (count_in ts r s) { inn = s.inn; prev = s.prev ++ (ts, r) ∷ []; tin = s.tin })
    add_wait-Inv c reached =
        pushed-Inv inter h ts l r s v s.inn (s.prev ++ (ts, r) ∷ []) s.tin
          (sym (append_assoc s.inn s.prev ((ts, r) ∷ [])))
          (λ t e. let (i, a) = v.tin_in t e in (i, Alive-emplaced t a)) (wait_out c reached)

    zero_lower : Interval.contains inter 0 ≡ true → lt_lower inter (ts - ts) ≡ false
    unfolding Interval.contains lt_lower
    zero_lower c = ground arith

    zero_waits : Interval.contains inter 0 ≡ false → lt_lower inter (ts - ts) ≡ true
    zero_waits c = zero_reached ts (omega arith) (omega arith) c

    zero-Fresh : Fresh inter ts ts
    unfolding leq_upper
    zero-Fresh = ground arith

    pub add_new_table-Settled :
        AllReached inter ts s.inn
        → NoneReached inter ts s.prev
        → AllFresh inter ts s.inn
        → Settled inter (with_point ts l r h) ts (add_new_table inter r ts s)
    unfolding add_new_table count_in
    add_new_table-Settled reached waits fresh = elim (Bool-cases (Interval.contains inter 0)) [
      | inl c ↦
          rw (c, add_new_table)
            (record {
              inv = add_now-Inv (none_waits inter ts s.prev waits c);
              reached = AllReached-snoc inter ts ts r s.inn reached (zero_lower c);
              waiting = waits;
              fresh = AllFresh-snoc inter ts ts r s.inn fresh zero-Fresh;
            })
      | inr c ↦
          rw (c, add_new_table)
            (record {
              inv = add_wait-Inv c reached;
              reached = reached;
              waiting = NoneReached-snoc inter ts ts r s.prev waits (zero_waits c);
              fresh = fresh;
            })
    ]
