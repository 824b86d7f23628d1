-- ===== src/Interval.antt =====
-- The class `Interval` of src/formula.h and src/formula.cpp, and differences of timestamps.
use cppmon.Shared.{
  ℕ, ◌+◌, ◌-◌, ◌%◌, ◌≤◌, ◌<◌, ◌≡◌, ◌↔◌, Bool, true, false, not, ◌&&◌, arith, ltb, leb, ◌==◌,
  if◌then◌else◌,
}

-- 2 ^ 64: the values of a size_t are below it.
abbrev pub size_t_mod : ℕ
size_t_mod = 18446744073709551616

-- `a - b` on size_t.
unfoldable pub sub_size_t : ℕ → ℕ → ℕ
sub_size_t a b = (a + size_t_mod - b) % size_t_mod

pub sub_size_t-of_le : (a b : ℕ) → b ≤ a → a < size_t_mod → sub_size_t a b ≡ a - b
unfolding sub_size_t
sub_size_t-of_le a b h w = omega arith

pub record Interval : Type 0 where
  pub l : ℕ
  pub u : ℕ
  pub bounded : Bool

unfoldable pub equals : Interval → Interval → Bool
equals a b =
    if not (if a.bounded then b.bounded else not b.bounded)
    then false
    else if a.bounded
    then a.l == b.l && a.u == b.u
    else a.l == b.l

unfoldable pub is_bounded : Interval → Bool
is_bounded i = i.bounded

unfoldable pub get_lower : Interval → ℕ
get_lower i = i.l

unfoldable pub geq_lower : Interval → ℕ → Bool
geq_lower i n = leb i.l n

unfoldable pub lt_lower : Interval → ℕ → Bool
lt_lower i n = ltb n i.l

unfoldable pub leq_upper : Interval → ℕ → Bool
unfolding is_bounded
leq_upper i n = if not (is_bounded i) then true else leb n i.u

unfoldable pub gt_upper : Interval → ℕ → Bool
unfolding is_bounded
gt_upper i n = if not (is_bounded i) then false else ltb i.u n

unfoldable pub contains : Interval → ℕ → Bool
contains i n = if not i.bounded then leb i.l n else leb i.l n && leb n i.u

-- What the interval stands for: l ≤ n, and n ≤ u when there is an upper end.
abbrev pub Within : Interval → ℕ → Type 0
Within i n = (i.l ≤ n) × (i.bounded ≡ true → n ≤ i.u)

-- The interval contains exactly the values from its lower end on and, if it is bounded, up to its
-- upper end.
pub contains-Within : (i : Interval) (n : ℕ) → (contains i n ≡ true) ↔ Within i n
unfolding contains
contains-Within i n = ground arith

-- A value is contained exactly when both tests on the ends pass.
pub contains-lower-upper : (i : Interval) (n : ℕ) → contains i n ≡ geq_lower i n && leq_upper i n
unfolding contains geq_lower leq_upper
contains-lower-upper i n = ground arith

pub lt_lower-geq_lower : (i : Interval) (n : ℕ) → lt_lower i n ≡ not (geq_lower i n)
unfolding lt_lower geq_lower
lt_lower-geq_lower i n = ground arith

pub gt_upper-leq_upper : (i : Interval) (n : ℕ) → gt_upper i n ≡ not (leq_upper i n)
unfolding gt_upper leq_upper
gt_upper-leq_upper i n = ground arith

-- Intervals that compare equal contain the same values.
pub contains-equals : (a b : Interval) (n : ℕ) → equals a b ≡ true → contains a n ≡ contains b n
unfolding equals contains
contains-equals a b n h = ground arith
