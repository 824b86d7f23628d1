-- ===== src/Formula/Equality.antt =====
-- src/formula.cpp: the comparison of formulas, and the test for the formula `0 = 0`.
pub mod Meaning
use cppmon.Shared.{
  ℕ, zero, ◌≡◌, ◌↔◌, refl, sym, subst, ap, ap₂, Bool, true, false, ◌&&◌, Option, none, some, List,
  [], ◌∷◌, ◌==◌, arith,
}
use cppmon.Interval
use cppmon.Interval.{Interval}
use cppmon.EventData
use cppmon.EventData.{Double, EventData}
use cppmon.Term
use cppmon.Term.{Term, get_if_const}
use cppmon.Formula.{
  AggType, agg_cnt, agg_min, agg_max, agg_sum, agg_avg, agg_med, Formula, pred_t, less_t, less_eq_t,
  eq_t, or_t, and_t, exists_t, prev_t, next_t, since_t, until_t, neg_t, agg_t, let_t, copy_val,
}

module _ (D : Double) where
  -- Whether two optional ints are both 0.
  abbrev pub both_zero : Option ℕ → Option ℕ → Bool
  both_zero (some zero) (some zero) = true
  both_zero _ _ = false

  abbrev pub const_int : Term (EventData D) → Option ℕ
  const_int t = elim (get_if_const t) [ none ↦ none | some c ↦ EventData.get_if_int D c ]

  unfoldable pub is_always_true : Formula (EventData D) → Bool
  unfolding get_if_const EventData.get_if_int
  is_always_true (eq_t l r) = both_zero (const_int l) (const_int r)
  is_always_true _ = false

  unfoldable pub same_type : AggType → AggType → Bool
  same_type agg_cnt agg_cnt = true
  same_type agg_min agg_min = true
  same_type agg_max agg_max = true
  same_type agg_sum agg_sum = true
  same_type agg_avg agg_avg = true
  same_type agg_med agg_med = true
  same_type _ _ = false

  unfoldable pub same_args : List (Term (EventData D)) → List (Term (EventData D)) → Bool
  unfolding Term.equals
  same_args [] [] = true
  same_args (s ∷ ss) (t ∷ ts) = Term.equals D s t && same_args ss ts
  same_args _ _ = false

  unfoldable pub equals : Formula (EventData D) → Formula (EventData D) → Bool
  unfolding same_args Term.equals EventData.equals Interval.equals same_type
  equals (pred_t p args b) (pred_t q args2 c) = p == q && same_args args args2
  equals (eq_t l r) (eq_t m s) = Term.equals D l m && Term.equals D r s
  equals (less_t l r) (less_t m s) = Term.equals D l m && Term.equals D r s
  equals (less_eq_t l r) (less_eq_t m s) = Term.equals D l m && Term.equals D r s
  equals (neg_t phi) (neg_t psi) = equals phi psi
  equals (exists_t phi) (exists_t psi) = equals phi psi
  equals (or_t l r) (or_t m s) = equals l m && equals r s
  equals (and_t l r) (and_t m s) = equals l m && equals r s
  equals (prev_t i phi) (prev_t j psi) = Interval.equals i j && equals phi psi
  equals (next_t i phi) (next_t j psi) = Interval.equals i j && equals phi psi
  equals (since_t i l r) (since_t j m s) = Interval.equals i j && equals l m && equals r s
  equals (until_t i l r) (until_t j m s) = Interval.equals i j && equals l m && equals r s
  equals (agg_t ty y b d t phi) (agg_t ty2 y2 b2 d2 t2 psi) =
      same_type ty ty2
      && y == y2
      && b == b2
      && EventData.equals D d d2
      && Term.equals D t t2
      && equals phi psi
  equals (let_t p phi psi) (let_t q phi2 psi2) = p == q && equals phi phi2 && equals psi psi2
  equals _ _ = false
