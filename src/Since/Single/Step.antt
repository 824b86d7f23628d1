-- ===== src/Since/Single/Step.antt =====
-- The rest of a step on one row: the join with the left table, and the new right table.
use cppmon.Shared.{
  ℕ, suc, ◌≤◌, ◌≡◌, refl, inl, inr, Bool, true, false, Option, some, [], ◌∷◌, ◌++◌, arith,
  if◌then◌else◌,
}
use cppmon.Interval.{Interval, size_t_mod, leq_upper, lt_lower}
use cppmon.Interval
use cppmon.Since.Single.{Single, Marks, join, emplaced, incremented, count_in}
use cppmon.Since.Single.Spec.{
  History, Mark, Has, count, counted, Above, Below, Ordered, Alive, Covers, Fresh, Inv,
  Has-append_left, Has-append_right, Has-append_cases, Below-Has,
}
use cppmon.Since.Single.Move.{NoneReached}

Above-push : (u t : ℕ) (b : Bool) (l : Marks) → Above u l → u ≤ t → Above u (l ++ (t, b) ∷ [])
Above-push u t b [] a h = (h, tt)
Above-push u t b ((v, c) ∷ l) (p, q) h = (p, Above-push u t b l q h)

Ordered-push : (t : ℕ) (b : Bool) (l : Marks) → Ordered l → Below t l → Ordered (l ++ (t, b) ∷ [])
Ordered-push t b [] o h = (tt, tt)
Ordered-push t b ((v, c) ∷ l) (p, q) h = (Above-push v t b l p h.0, Ordered-push t b l q h.1)

Below-push : (t : ℕ) (b : Bool) (l : Marks) → Below t l → Below t (l ++ (t, b) ∷ [])
Below-push t b [] h = (omega arith, tt)
Below-push t b ((v, c) ∷ l) h = (h.0, Below-push t b l h.1)

count-push :
    (t : ℕ) (b : Bool) (l : Marks)
    → count (l ++ (t, b) ∷ []) ≡ (if b then suc (count l) else count l)
count-push t b [] = refl
count-push t b ((v, true) ∷ l) = ground (arith, count-push t b l)
count-push t b ((v, false) ∷ l) = count-push t b l

-- The step's history before its right table is known.
abbrev pub without_right : ℕ → Bool → History → History
without_right ts l h = record { ts = ts; survives = l; right = false } ∷ h

abbrev pub with_point : ℕ → Bool → Bool → History → History
with_point ts l r h = record { ts = ts; survives = l; right = r } ∷ h

-- An interval that has 0 leaves no entry waiting.
pub none_waits :
    (inter : Interval) (ts : ℕ) (l : Marks)
    → NoneReached inter ts l
    → Interval.contains inter 0 ≡ true
    → l ≡ []
none_waits inter ts [] n c = refl
none_waits inter ts ((t, b) ∷ l) n c =
    absurd (unfold lt_lower Interval.contains in ground (arith, n.0))

module _ (inter : Interval) (h : History) (ts : ℕ) where
  pub join-Inv :
      (l : Bool) (s : Single) → Inv inter h ts s → Inv inter (without_right ts l h) ts (join l s)
  unfolding join
  join-Inv true s v = record {
    ordered = v.ordered;
    below = v.below;
    since_below = v.since_below;
    found = λ t m f. v.found t (ground arith) f;
    sound = λ t i a. inr (refl, v.sound t i a);
    tin_in = v.tin_in;
    in_tin = v.in_tin;
    count_cnt = v.count_cnt;
  }
  join-Inv false s v = record {
    ordered = v.ordered;
    below = v.below;
    since_below = tt;
    found = λ t m f. absurd (ground arith);
    sound = λ t i a. absurd a;
    tin_in = λ t e. absurd (cc);
    in_tin = λ t i a f. absurd a;
    count_cnt = v.count_cnt;
  }

  module _ (l r : Bool) (s : Single) (v : Inv inter (without_right ts l h) ts s) where
    abbrev k : Marks
    k = s.inn ++ s.prev

    found_with :
        (t : ℕ)
        → Mark (with_point ts l r h) t
        → Fresh inter ts t
        → Has t (k ++ (ts, r) ∷ []) × Alive t (emplaced ts r s.since)
    unfolding emplaced
    found_with t (inl (e, same)) f =
        (Has-append_right t k ((ts, r) ∷ []) (inl (e, same)), ground (arith, v.since_below))
    found_with t (inr m) f =
        let (i, a) = v.found t (inr m) f in (Has-append_left t k ((ts, r) ∷ []) i, ground arith)

    sound_with :
        (t : ℕ)
        → Has t (k ++ (ts, r) ∷ [])
        → Alive t (emplaced ts r s.since)
        → Mark (with_point ts l r h) t
    unfolding emplaced
    sound_with t i a = elim (Has-append_cases t k ((ts, r) ∷ []) i) [
      | inl j ↦ ground (arith, v.sound t j, Below-Has ts t k v.below j)
      | inr j ↦ ground arith
    ]

    count_with : incremented r s.cnt ≡ counted (count (k ++ (ts, r) ∷ []))
    unfolding incremented
    count_with = ground (arith, v.count_cnt, count-push ts r k)

    -- The two fields that a new entry of either buffer leaves to show.
    pub pushed-Inv :
        (inn' prev' : Marks) (tin' : Option ℕ)
        → ◌≡◌ {A = Marks} (inn' ++ prev') (k ++ (ts, r) ∷ [])
        → ((t : ℕ) → tin' ≡ some t → Has t inn' × Alive t (emplaced ts r s.since))
        → ((t : ℕ)
            → Has t inn'
            → Alive t (emplaced ts r s.since)
            → Fresh inter ts t
            → Covers t tin')
        → Inv inter
            (with_point ts l r h)
            ts
            (record (count_in ts r s) { inn = inn'; prev = prev'; tin = tin' })
    unfolding count_in
    pushed-Inv inn' prev' tin' same into out = record {
      ordered = rw same (Ordered-push ts r k v.ordered v.below);
      below = rw same (Below-push ts r k v.below);
      since_below = unfold emplaced in ground (arith, v.since_below);
      found = rw same found_with;
      sound = rw same sound_with;
      tin_in = into;
      in_tin = out;
      count_cnt = rw same count_with;
    }
