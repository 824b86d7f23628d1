-- ===== src/Since/Single/Spec.antt =====
-- What the one-row algorithm should compute, and its invariant.
use cppmon.Shared.{
  ℕ, zero, suc, ◌-◌, ◌≤◌, ◌<◌, ◌≡◌, ◌⊎◌, inl, inr, Bool, true, false, Option, none, some, List, [],
  ◌∷◌, ◌++◌, arith, if◌then◌else◌,
}
use cppmon.Interval.{Interval, leq_upper}
use cppmon.Since.Single.{Single, Marks}

-- A step: its timestamp, whether the row survives the left table, whether it is in the right one.
pub record Point : Type 0 where
  pub ts : ℕ
  pub survives : Bool
  pub right : Bool

-- Newest first.
abbrev pub History : Type 0
History = List Point

-- The row was in the right table at time `t`, and survived every left table since.
abbrev pub Mark : History → ℕ → Type 0
Mark [] t = ⊥
Mark (p ∷ h) t = ((p.right ≡ true) × (p.ts ≡ t)) ⊎ ((p.survives ≡ true) × Mark h t)

-- The row is in a table of the list with the timestamp `t`.
abbrev pub Has : ℕ → Marks → Type 0
Has t [] = ⊥
Has t ((u, b) ∷ l) = ((b ≡ true) × (u ≡ t)) ⊎ Has t l

abbrev pub count : Marks → ℕ
count [] = 0
count ((u, b) ∷ l) = if b then suc (count l) else count l

abbrev pub counted : ℕ → Option ℕ
counted zero = none
counted (suc n) = some (suc n)

abbrev pub Above : ℕ → Marks → Type 0
Above u [] = Unit
Above u ((t, b) ∷ l) = (u ≤ t) × Above u l

abbrev pub Below : ℕ → Marks → Type 0
Below now [] = Unit
Below now ((t, b) ∷ l) = (t ≤ now) × Below now l

abbrev pub Ordered : Marks → Type 0
Ordered [] = Unit
Ordered ((t, b) ∷ l) = Above t l × Ordered l

abbrev pub Alive : ℕ → Option ℕ → Type 0
Alive t none = ⊥
Alive t (some s) = s ≤ t

-- `tin` has a timestamp that is at least `t`.
abbrev pub Covers : ℕ → Option ℕ → Type 0
Covers t none = ⊥
Covers t (some u) = t ≤ u

abbrev pub AtMost : ℕ → Option ℕ → Type 0
AtMost now none = Unit
AtMost now (some s) = s ≤ now

-- Not older than the interval's upper end.
abbrev pub Fresh : Interval → ℕ → ℕ → Type 0
Fresh inter now t = leq_upper inter (now - t) ≡ true

-- What holds of the state at time `now`, up to entries that are not fresh any more.
pub record Inv (inter : Interval) (h : History) (now : ℕ) (s : Single) : Type 0 where
  pub ordered : Ordered (s.inn ++ s.prev)
  pub below : Below now (s.inn ++ s.prev)
  pub since_below : AtMost now s.since
  pub found : (t : ℕ) → Mark h t → Fresh inter now t → Has t (s.inn ++ s.prev) × Alive t s.since
  pub sound : (t : ℕ) → Has t (s.inn ++ s.prev) → Alive t s.since → Mark h t
  pub tin_in : (t : ℕ) → s.tin ≡ some t → Has t s.inn × Alive t s.since
  pub in_tin : (t : ℕ) → Has t s.inn → Alive t s.since → Fresh inter now t → Covers t s.tin
  pub count_cnt : s.cnt ≡ counted (count (s.inn ++ s.prev))

pub Has-append_left : (t : ℕ) (l k : Marks) → Has t l → Has t (l ++ k)
Has-append_left t [] k h = absurd h
Has-append_left t ((u, b) ∷ l) k (inl h) = inl h
Has-append_left t ((u, b) ∷ l) k (inr h) = inr (Has-append_left t l k h)

pub Has-append_right : (t : ℕ) (l k : Marks) → Has t k → Has t (l ++ k)
Has-append_right t [] k h = h
Has-append_right t ((u, b) ∷ l) k h = inr (Has-append_right t l k h)

pub Has-append_cases : (t : ℕ) (l k : Marks) → Has t (l ++ k) → Has t l ⊎ Has t k
Has-append_cases t [] k h = inr h
Has-append_cases t ((u, b) ∷ l) k (inl h) = inl (inl h)
Has-append_cases t ((u, b) ∷ l) k (inr h) = ground (arith, Has-append_cases t l k)

pub count-pos_of_Has : (t : ℕ) (l : Marks) → Has t l → 0 < count l
count-pos_of_Has t [] h = absurd h
count-pos_of_Has t ((u, true) ∷ l) h = omega arith
count-pos_of_Has t ((u, false) ∷ l) (inl h) = absurd (cc (h.0))
count-pos_of_Has t ((u, false) ∷ l) (inr h) = count-pos_of_Has t l h

pub Above-Has : (u t : ℕ) (l : Marks) → Above u l → Has t l → u ≤ t
Above-Has u t [] a h = absurd h
Above-Has u t ((v, b) ∷ l) a (inl h) = omega arith
Above-Has u t ((v, b) ∷ l) a (inr h) = Above-Has u t l a.1 h

pub Below-Has : (now t : ℕ) (l : Marks) → Below now l → Has t l → t ≤ now
Below-Has now t [] a h = absurd h
Below-Has now t ((v, b) ∷ l) a (inl h) = omega arith
Below-Has now t ((v, b) ∷ l) a (inr h) = Below-Has now t l a.1 h

pub Below-mono : (now later : ℕ) (l : Marks) → now ≤ later → Below now l → Below later l
Below-mono now later [] h b = tt
Below-mono now later ((t, b) ∷ l) h (p, q) = (omega arith, Below-mono now later l h q)

-- An age that is within the upper end is so when it is less.
pub leq_upper_mono :
    (inter : Interval) (n m : ℕ) → n ≤ m → leq_upper inter m ≡ true → leq_upper inter n ≡ true
unfolding leq_upper
leq_upper_mono inter n m h k = ground arith

-- Time passes: everything that was so stays so, and less is fresh.
pub Inv-later :
    {inter : Interval} {h : History} {s : Single} (now later : ℕ)
    → now ≤ later
    → Inv inter h now s
    → Inv inter h later s
Inv-later {inter} {h} {s} now later le v = record {
  ordered = v.ordered;
  below = Below-mono now later (s.inn ++ s.prev) le v.below;
  since_below = ground (arith, v.since_below);
  found = λ t m f. v.found t m (leq_upper_mono inter (now - t) (later - t) (omega arith) f);
  sound = v.sound;
  tin_in = v.tin_in;
  in_tin = λ t i a f. v.in_tin t i a (leq_upper_mono inter (now - t) (later - t) (omega arith) f);
  count_cnt = v.count_cnt;
}

abbrev pub AllFresh : Interval → ℕ → Marks → Type 0
AllFresh inter now [] = Unit
AllFresh inter now ((t, b) ∷ l) = Fresh inter now t × AllFresh inter now l

pub AllFresh-of_Above :
    (inter : Interval) (now t : ℕ) (l : Marks)
    → Fresh inter now t
    → Above t l
    → AllFresh inter now l
AllFresh-of_Above inter now t [] f a = tt
AllFresh-of_Above inter now t ((u, b) ∷ l) f (p, q) =
    (leq_upper_mono inter (now - u) (now - t) (omega arith) f, AllFresh-of_Above inter now t l f q)

pub AllFresh-Has :
    (inter : Interval) (now t : ℕ) (l : Marks) → AllFresh inter now l → Has t l → Fresh inter now t
AllFresh-Has inter now t [] f i = absurd i
AllFresh-Has inter now t ((u, b) ∷ l) (p, q) (inl i) = rw (← i.1) p
AllFresh-Has inter now t ((u, b) ∷ l) (p, q) (inr i) = AllFresh-Has inter now t l q i

-- What holds of every entry of a list holds of the one behind any first part.
pub AllFresh-append_head :
    (inter : Interval) (now t : ℕ) (b : Bool) (k l : Marks)
    → AllFresh inter now (k ++ (t, b) ∷ l)
    → Fresh inter now t
AllFresh-append_head inter now t b [] l f = f.0
AllFresh-append_head inter now t b ((u, c) ∷ k) l f = AllFresh-append_head inter now t b k l f.1

pub Below-append_head : (now t : ℕ) (b : Bool) (k l : Marks) → Below now (k ++ (t, b) ∷ l) → t ≤ now
Below-append_head now t b [] l f = f.0
Below-append_head now t b ((u, c) ∷ k) l f = Below-append_head now t b k l f.1

pub Ordered-append_head : (t : ℕ) (b : Bool) (k l : Marks) → Ordered (k ++ (t, b) ∷ l) → Above t l
Ordered-append_head t b [] l f = f.0
Ordered-append_head t b ((u, c) ∷ k) l f = Ordered-append_head t b k l f.1
