-- ===== src/Formula.antt =====
-- The struct Formula of src/formula.h and src/formula.cpp, its free variables, its comparison, and
-- the tests that decide which formulas are monitored. `E` is the event data of the constants. The
-- number formula_id_ that each object draws at its construction is left out: nothing reads it.
pub mod Free
pub mod Preds
pub mod Equality
pub mod Safe
pub mod Values
pub mod Reader
use cppmon.Shared.{
  ℕ, zero, suc, ◌+◌, ◌≡◌, Bool, true, false, not, ◌&&◌, ◌||◌, Option, none, some, List, [], ◌∷◌,
  ltb, length, ◌==◌, if◌then◌else◌,
}
use cppmon.Hash.{HashSet, insert_range, hash_set_union, is_subset, same_set}
use cppmon.Interval
use cppmon.Interval.{Interval}
use cppmon.EventData
use cppmon.EventData.{Double, EventData}
use cppmon.Term
use cppmon.Term.{Term, is_const, is_var, get_if_var, get_if_const, fvi_single_var}

pub data AggType : Type 0 where
  agg_cnt agg_min agg_max agg_sum agg_avg agg_med : AggType

pub data Formula (E : Type 0) : Type 0 where
  pred_t : (pred_id : ℕ) → (pred_args : List (Term E)) → (is_builtin : Bool) → Formula E
  less_t : Term E → Term E → Formula E
  less_eq_t : Term E → Term E → Formula E
  eq_t : Term E → Term E → Formula E
  or_t : Formula E → Formula E → Formula E
  and_t : Formula E → Formula E → Formula E
  exists_t : Formula E → Formula E
  prev_t : Interval → Formula E → Formula E
  next_t : Interval → Formula E → Formula E
  since_t : Interval → Formula E → Formula E → Formula E
  until_t : Interval → Formula E → Formula E → Formula E
  neg_t : Formula E → Formula E
  agg_t :
      (ty : AggType)
      → (res_var num_bound_vars : ℕ) → (default_value : E) → (agg_term : Term E) → Formula E
      → Formula E
  let_t : (pred_id : ℕ) → (phi psi : Formula E) → Formula E

module _ {E : Type 0} where
  -- The deep copy of the copy constructor.
  unfoldable pub copy_val : Formula E → Formula E
  copy_val (pred_t p args b) = pred_t p args b
  copy_val (eq_t l r) = eq_t l r
  copy_val (less_t l r) = less_t l r
  copy_val (less_eq_t l r) = less_eq_t l r
  copy_val (neg_t phi) = neg_t (copy_val phi)
  copy_val (exists_t phi) = exists_t (copy_val phi)
  copy_val (or_t phil phir) = or_t (copy_val phil) (copy_val phir)
  copy_val (and_t phil phir) = and_t (copy_val phil) (copy_val phir)
  copy_val (prev_t inter phi) = prev_t inter (copy_val phi)
  copy_val (next_t inter phi) = next_t inter (copy_val phi)
  copy_val (since_t inter phil phir) = since_t inter (copy_val phil) (copy_val phir)
  copy_val (until_t inter phil phir) = until_t inter (copy_val phil) (copy_val phir)
  copy_val (agg_t ty y b d t phi) = agg_t ty y b d t (copy_val phi)
  copy_val (let_t p phi psi) = let_t p (copy_val phi) (copy_val psi)

  unfoldable pub inner_if_neg : Formula E → Option (Formula E)
  inner_if_neg (neg_t phi) = some phi
  inner_if_neg _ = none

  unfoldable pub is_constraint : Formula E → Bool
  is_constraint (eq_t l r) = true
  is_constraint (less_t l r) = true
  is_constraint (less_eq_t l r) = true
  is_constraint (neg_t phi) = is_constraint phi
  is_constraint _ = false

module _ {E : Type 0} (S : HashSet ℕ) where
  unfoldable pub args_fvi : List (Term E) → ℕ → S.Carrier → S.Carrier
  unfolding Term.fvi insert_range
  args_fvi [] n fv_children = fv_children
  args_fvi (t ∷ ts) n fv_children =
      args_fvi ts n (insert_range S (S.to_list (Term.fvi S t n)) fv_children)

  unfoldable pub fvi : Formula E → ℕ → S.Carrier
  unfolding args_fvi Term.fvi fvi_single_var hash_set_union
  fvi (pred_t p args b) n = args_fvi args n S.empty
  fvi (less_t l r) n = hash_set_union S (Term.fvi S l n) (Term.fvi S r n)
  fvi (less_eq_t l r) n = hash_set_union S (Term.fvi S l n) (Term.fvi S r n)
  fvi (eq_t l r) n = hash_set_union S (Term.fvi S l n) (Term.fvi S r n)
  fvi (prev_t inter phi) n = fvi phi n
  fvi (next_t inter phi) n = fvi phi n
  fvi (neg_t phi) n = fvi phi n
  fvi (and_t phil phir) n = hash_set_union S (fvi phil n) (fvi phir n)
  fvi (or_t phil phir) n = hash_set_union S (fvi phil n) (fvi phir n)
  fvi (since_t inter phil phir) n = hash_set_union S (fvi phil n) (fvi phir n)
  fvi (until_t inter phil phir) n = hash_set_union S (fvi phil n) (fvi phir n)
  fvi (exists_t phi) n = fvi phi (n + 1)
  fvi (agg_t ty y b d t phi) n =
      hash_set_union S (hash_set_union S (Term.fvi S t (n + b)) (fvi phi (n + b)))
        (fvi_single_var S y n)
  fvi (let_t p phi psi) n = fvi psi n

  unfoldable pub fvs : Formula E → S.Carrier
  unfolding fvi
  fvs phi = fvi phi 0

  unfoldable pub degree : Formula E → ℕ
  unfolding fvs
  degree phi = length (S.to_list (fvs phi))
