-- ===== src/Formula/Safe.antt =====
-- src/formula.cpp: the tests that decide which formulas are monitored.
pub mod Sides
pub mod Assigning
pub mod Meaning
use cppmon.Shared.{
  ℕ, zero, suc, ◌+◌, ◌≡◌, ◌↔◌, Bool, true, false, not, ◌&&◌, ◌||◌, Option, none, some, List, [],
  ◌∷◌, length, ◌==◌, if◌then◌else◌, arith,
}
use cppmon.Hash.{HashSet, is_subset, same_set}
use cppmon.Term
use cppmon.Term.{Term, is_const, is_var, get_if_var}
use cppmon.Formula.{
  Formula, pred_t, less_t, less_eq_t, eq_t, or_t, and_t, exists_t, prev_t, next_t, since_t, until_t,
  neg_t, agg_t, let_t, fvs, is_constraint,
}

module _ (S : HashSet ℕ) where
  -- `for (var = 0; var < n; ++var) safe_tmp = safe_tmp && fv_phi.contains(var);`, from the last one.
  unfoldable pub all_below : ℕ → S.Carrier → Bool
  all_below zero fv_phi = true
  all_below (suc n) fv_phi = all_below n fv_phi && S.contains n fv_phi

  abbrev pub no_elements : S.Carrier → Bool
  no_elements s = elim (S.to_list s) [ [] ↦ true | _ ∷ _ ↦ false ]

-- Whether `x = y` between variables assigns one of them: exactly one is in `vars`.
abbrev pub differs : Bool → Bool → Bool
differs a b = if a then not b else b

module _ {E : Type 0} where
  unfoldable pub args_safe : List (Term E) → Bool
  unfolding is_var is_const
  args_safe [] = true
  args_safe (t ∷ ts) = (is_var t || is_const t) && args_safe ts

module _ {E : Type 0} (S : HashSet ℕ) where
  unfoldable pub assigns : Term E → Term E → Option ℕ → Option ℕ → S.Carrier → Bool
  unfolding Term.fvs is_subset
  assigns t1 t2 (some var1) (some var2) vars = differs (S.contains var1 vars) (S.contains var2 vars)
  assigns t1 t2 (some var1) none vars =
      not (S.contains var1 vars) && is_subset S (Term.fvs S t2) vars
  assigns t1 t2 none (some var2) vars =
      not (S.contains var2 vars) && is_subset S (Term.fvs S t1) vars
  assigns t1 t2 none none vars = false

  unfoldable pub is_safe_assignment : Formula E → S.Carrier → Bool
  unfolding assigns get_if_var
  is_safe_assignment (eq_t t1 t2) vars = assigns t1 t2 (get_if_var t1) (get_if_var t2) vars
  is_safe_assignment _ vars = false

  -- `~(x = x)`, or what `phi` decides.
  unfoldable pub neg_safe : Formula E → Bool → Bool
  unfolding fvs get_if_var
  neg_safe (eq_t l r) rest = elim (get_if_var l) [
    | none ↦ no_elements S (fvs S (eq_t l r)) && rest
    | some var1 ↦ elim (get_if_var r) [
      | none ↦ no_elements S (fvs S (eq_t l r)) && rest
      | some var2 ↦ var1 == var2
    ]
  ]
  neg_safe phi rest = no_elements S (fvs S phi) && rest

  unfoldable mutual
    unfolding is_var is_const args_safe neg_safe fvs is_subset same_set is_safe_assignment
        is_constraint all_below Term.fvs

    pub is_safe_formula : Formula E → Bool
    is_safe_formula (eq_t l r) =
        (is_const l && (is_const r || is_var r)) || (is_var l && is_const r)
    is_safe_formula (less_t l r) = false
    is_safe_formula (less_eq_t l r) = false
    is_safe_formula (neg_t phi) = neg_safe phi (is_safe_formula phi)
    is_safe_formula (pred_t p args b) = args_safe args
    is_safe_formula (or_t phil phir) =
        same_set S (fvs S phil) (fvs S phir) && (is_safe_formula phil && is_safe_formula phir)
    is_safe_formula (and_t phil phir) =
        is_safe_formula phil
        && (is_safe_assignment phir (fvs S phil)
            || is_safe_formula phir
            || (is_subset S (fvs S phir) (fvs S phil) && (is_constraint phir || negated_safe phir)))
    is_safe_formula (exists_t phi) = is_safe_formula phi
    is_safe_formula (prev_t inter phi) = is_safe_formula phi
    is_safe_formula (next_t inter phi) = is_safe_formula phi
    is_safe_formula (since_t inter phil phir) =
        (is_subset S (fvs S phil) (fvs S phir) && is_safe_formula phil)
        || (is_safe_formula phir && negated_safe phil)
    is_safe_formula (until_t inter phil phir) =
        (is_subset S (fvs S phil) (fvs S phir) && is_safe_formula phil)
        || (is_safe_formula phir && negated_safe phil)
    is_safe_formula (agg_t ty y b d t phi) =
        is_safe_formula phi
        && not (S.contains (y + b) (fvs S phi))
        && is_subset S (Term.fvs S t) (fvs S phi)
        && all_below S b (fvs S phi)
    is_safe_formula (let_t p phi psi) =
        is_safe_formula phi
        && is_safe_formula psi
        && all_below S (length (S.to_list (fvs S phi))) (fvs S phi)

    -- `neg_ptr && neg_ptr->phi->is_safe_formula()`
    pub negated_safe : Formula E → Bool
    negated_safe (neg_t phi) = is_safe_formula phi
    negated_safe _ = false
