-- ===== src/Since/Single/Move.antt =====
-- The loop of add_new_ts on one row: the entries that reach the interval's lower end move over.
use cppmon.Shared.{
  ℕ, ◌-◌, ◌≤◌, ◌<◌, ◌≡◌, refl, ◌∙◌, inl, inr, Bool, true, false, Option, some, [], ◌∷◌, ◌++◌, arith,
  Bool-cases,
}
use mathlib.Core.List.{append_assoc}
use cppmon.Interval.{Interval, sub_size_t-of_le, size_t_mod, lt_lower}
use cppmon.Since.{since_by}
use cppmon.Since.Single.{Single, Marks, move, move_prev}
use cppmon.Since.Single.Spec.{
  History, Has, Above, Ordered, Alive, Covers, Fresh, Inv, Has-append_left, Has-append_right,
  Has-append_cases, Below-append_head, Ordered-append_head,
}

-- The age of each entry has reached the lower end; or has not.
abbrev pub AllReached : Interval → ℕ → Marks → Type 0
AllReached inter now [] = Unit
AllReached inter now ((t, b) ∷ l) = (lt_lower inter (now - t) ≡ false) × AllReached inter now l

abbrev pub NoneReached : Interval → ℕ → Marks → Type 0
NoneReached inter now [] = Unit
NoneReached inter now ((t, b) ∷ l) = (lt_lower inter (now - t) ≡ true) × NoneReached inter now l

pub lt_lower_mono :
    (inter : Interval) (n m : ℕ) → n ≤ m → lt_lower inter m ≡ true → lt_lower inter n ≡ true
unfolding lt_lower
lt_lower_mono inter n m h k = ground arith

NoneReached-of_Above :
    (inter : Interval) (now t : ℕ) (l : Marks)
    → lt_lower inter (now - t) ≡ true
    → Above t l
    → NoneReached inter now l
NoneReached-of_Above inter now t [] f a = tt
NoneReached-of_Above inter now t ((u, b) ∷ l) f (p, q) = (
  lt_lower_mono inter (now - u) (now - t) (omega arith) f,
  NoneReached-of_Above inter now t l f q,
)

AllReached-push :
    (inter : Interval) (now t : ℕ) (b : Bool) (l : Marks)
    → AllReached inter now l
    → lt_lower inter (now - t) ≡ false
    → AllReached inter now (l ++ (t, b) ∷ [])
AllReached-push inter now t b [] f e = (e, tt)
AllReached-push inter now t b ((u, c) ∷ l) (p, q) e = (p, AllReached-push inter now t b l q e)

Above-append_head : (v t : ℕ) (b : Bool) (k l : Marks) → Above v (k ++ (t, b) ∷ l) → v ≤ t
Above-append_head v t b [] l a = a.0
Above-append_head v t b ((u, c) ∷ k) l a = Above-append_head v t b k l a.1

-- Every entry in front of one is at most as late.
Ordered-append_le : (t u : ℕ) (b : Bool) (k l : Marks) → Ordered (k ++ (t, b) ∷ l) → Has u k → u ≤ t
Ordered-append_le t u b ((v, c) ∷ k) l o (inl i) =
    let e = Above-append_head v t b k l o.0 in omega (arith, i.1)
Ordered-append_le t u b ((v, c) ∷ k) l o (inr i) = Ordered-append_le t u b k l o.1 i
Ordered-append_le t u b [] l o i = absurd i

Ordered-push_le :
    (t u : ℕ) (b : Bool) (k l : Marks)
    → Ordered (k ++ (t, b) ∷ l)
    → Has u (k ++ (t, b) ∷ [])
    → u ≤ t
Ordered-push_le t u b k l o i = elim (Has-append_cases u k ((t, b) ∷ []) i) [
  | inl j ↦ Ordered-append_le t u b k l o j
  | inr j ↦ ground arith
]

abbrev pushed : ℕ → Bool → Single → Single
pushed t b s = let s' = move t b s in record s' { inn = s'.inn ++ (t, b) ∷ [] }

-- The entry at the front of `prev`, moved to the end of `inn`.
abbrev moved : ℕ → Bool → Marks → Single → Single
moved t b l s = let s' = move t b s in record s' { inn = s'.inn ++ (t, b) ∷ []; prev = l }

module _ (inter : Interval) (h : History) (now : ℕ) where
  -- Moving an entry keeps the tables as they are; what counts is the new entry of tuple_in.
  moved_with :
      (t : ℕ) (b : Bool) (l : Marks) (s : Single) (tin' : Option ℕ)
      → Inv inter h now (record s { prev = (t, b) ∷ l })
      → ((u : ℕ) → tin' ≡ some u → Has u (s.inn ++ (t, b) ∷ []) × Alive u s.since)
      → ((u : ℕ)
          → Has u (s.inn ++ (t, b) ∷ [])
          → Alive u s.since
          → Fresh inter now u
          → Covers u tin')
      → Inv inter h now (record s { inn = s.inn ++ (t, b) ∷ []; prev = l; tin = tin' })
  moved_with t b l s tin' v into out =
      let same : ◌≡◌ {A = Marks} ((s.inn ++ (t, b) ∷ []) ++ l) (s.inn ++ (t, b) ∷ l) =
        append_assoc s.inn ((t, b) ∷ []) l in
      record {
        ordered = rw same v.ordered;
        below = rw same v.below;
        since_below = v.since_below;
        found = rw same v.found;
        sound = rw same v.sound;
        tin_in = into;
        in_tin = out;
        count_cnt = rw same v.count_cnt;
      }

  move-inn : (t : ℕ) (b : Bool) (s : Single) → (move t b s).inn ≡ s.inn
  unfolding move
  move-inn t b s = ground arith

  moved-Inv :
      (t : ℕ) (b : Bool) (l : Marks) (s : Single)
      → Inv inter h now (record s { prev = (t, b) ∷ l })
      → Inv inter h now (moved t b l s)
  unfolding move
  moved-Inv t false l s v =
      moved_with t false l s s.tin v
        (λ u e. let (i, a) = v.tin_in u e in (Has-append_left u s.inn ((t, false) ∷ []) i, a))
        (λ u i a f. ground (arith, v.in_tin u, Has-append_cases u s.inn ((t, false) ∷ []) i))
  moved-Inv t true l s v = elim (Bool-cases (since_by t s.since)) [
    | inl e ↦ rw e (
        moved_with t true l s (some t) v
          (λ u same. (
            Has-append_right u s.inn ((t, true) ∷ []) (inl (refl, (cc))),
            unfold since_by in ground arith,
          ))
          (λ u i a f. Ordered-push_le t u true s.inn l v.ordered i))
    | inr e ↦ rw e (
        moved_with t true l s s.tin v
          (λ u same.
            let (i, a) = v.tin_in u same in (Has-append_left u s.inn ((t, true) ∷ []) i, a))
          (λ u i a f.
            unfold since_by in
            ground (arith, v.in_tin u, Has-append_cases u s.inn ((t, true) ∷ []) i)))
  ]

  -- The loop leaves in `prev` exactly the entries that have not reached the lower end.
  pub move_prev-Inv :
      (l : Marks) (s : Single)
      → now < size_t_mod
      → Inv inter h now (record s { prev = l })
      → AllReached inter now s.inn
      → let s' = move_prev inter now l s in
        Inv inter h now s'
        × AllReached inter now s'.inn
        × NoneReached inter now s'.prev
        × ◌≡◌ {A = Marks} (s'.inn ++ s'.prev) (s.inn ++ l)
  unfolding move_prev
  move_prev-Inv [] s word v r = (v, r, tt, refl)
  move_prev-Inv ((t, b) ∷ l) s word v r =
      let at_most = Below-append_head now t b s.inn l v.below in
      elim (Bool-cases (lt_lower inter (now - t))) [
        | inl e ↦
            rw (sub_size_t-of_le now t at_most word, move_prev, e)
              (
                v,
                r,
                (
                  e,
                  NoneReached-of_Above inter now t l e (Ordered-append_head t b s.inn l v.ordered),
                ),
                refl,
              )
        | inr e ↦
            rw (sub_size_t-of_le now t at_most word, move_prev, e)
              (let (w, p, q, same) =
                  move_prev-Inv l (pushed t b s) word (moved-Inv t b l s v)
                    (rw (move-inn t b s) (AllReached-push inter now t b s.inn r e)) in
                (w, p, q, same ∙ rw (move-inn t b s) (append_assoc s.inn ((t, b) ∷ []) l)))
      ]
