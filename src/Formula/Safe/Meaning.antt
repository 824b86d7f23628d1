-- ===== src/Formula/Safe/Meaning.antt =====
-- src/formula.cpp: the formulas that is_safe_formula accepts, described by their free variables.
use cppmon.Shared.{
  ℕ, ◌+◌, ◌<◌, ◌≡◌, ◌≢◌, ◌↔◌, ◌⊎◌, inl, inr, refl, subst, ap, Bool, true, ◌&&◌, All, ◌==◌, arith,
  and_iff, or_iff, not_iff,
}
use cppmon.Hash.{HashSet, is_subset}
use cppmon.Term
use cppmon.Term.{Term, const_t, var_t, is_const, is_var, get_if_var}
use cppmon.Term.Free.{Occurs}
use cppmon.Formula.{
  Formula, pred_t, less_t, less_eq_t, eq_t, or_t, and_t, exists_t, prev_t, next_t, since_t, until_t,
  neg_t, agg_t, let_t, fvs, degree, is_constraint,
}
use cppmon.Formula.Free.{IsFree, fvi-IsFree}
use cppmon.Formula.Safe.{no_elements, is_safe_assignment, neg_safe, is_safe_formula, negated_safe}
use cppmon.Formula.Safe.Sides.{all_below_iff, no_elements_iff, subset_iff, same_iff, only_right}
use cppmon.Formula.Safe.Assigning.{
  IsConst, IsVar, Assigns, term_fvs-Occurs, is_const_iff, is_var_iff, args_safe_iff, assigns_iff,
}

-- The formula is a comparison, under any number of negations.
abbrev pub IsConstraint : {E : Type 0} → Formula E → Type 0
IsConstraint (eq_t l r) = Unit
IsConstraint (less_t l r) = Unit
IsConstraint (less_eq_t l r) = Unit
IsConstraint (neg_t phi) = IsConstraint phi
IsConstraint _ = ⊥

module _ {E : Type 0} (S : HashSet ℕ) where
  abbrev mutual
    pub IsSafe : Formula E → Type 0
    IsSafe (eq_t l r) = (IsConst l × (IsConst r ⊎ IsVar r)) ⊎ (IsVar l × IsConst r)
    IsSafe (less_t l r) = ⊥
    IsSafe (less_eq_t l r) = ⊥
    IsSafe (neg_t phi) =
        ((i : ℕ) × (phi ≡ eq_t (var_t i) (var_t i))) ⊎ (((v : ℕ) → ¬ IsFree v phi) × IsSafe phi)
    IsSafe (pred_t p args b) = All (λ t. IsVar t ⊎ IsConst t) args
    IsSafe (or_t l r) = ((v : ℕ) → IsFree v l ↔ IsFree v r) × (IsSafe l × IsSafe r)
    IsSafe (and_t l r) =
        IsSafe l
        × ((Assigns (λ v. IsFree v l) r ⊎ IsSafe r)
            ⊎ (((v : ℕ) → IsFree v r → IsFree v l) × (IsConstraint r ⊎ NegatedSafe r)))
    IsSafe (exists_t phi) = IsSafe phi
    IsSafe (prev_t i phi) = IsSafe phi
    IsSafe (next_t i phi) = IsSafe phi
    IsSafe (since_t i l r) =
        (((v : ℕ) → IsFree v l → IsFree v r) × IsSafe l) ⊎ (IsSafe r × NegatedSafe l)
    IsSafe (until_t i l r) =
        (((v : ℕ) → IsFree v l → IsFree v r) × IsSafe l) ⊎ (IsSafe r × NegatedSafe l)
    IsSafe (agg_t ty y b d t phi) =
        ((IsSafe phi × (¬ IsFree (y + b) phi)) × ((v : ℕ) → Occurs v t → IsFree v phi))
        × ((v : ℕ) → v < b → IsFree v phi)
    IsSafe (let_t p phi psi) =
        (IsSafe phi × IsSafe psi) × ((v : ℕ) → v < degree S phi → IsFree v phi)

    pub NegatedSafe : Formula E → Type 0
    NegatedSafe (neg_t phi) = IsSafe phi
    NegatedSafe _ = ⊥

  fvs-IsFree : (phi : Formula E) (v : ℕ) → (S.contains v (fvs S phi) ≡ true) ↔ IsFree v phi
  unfolding fvs
  fvs-IsFree phi v =
      subst (λ k. (S.contains v (fvs S phi) ≡ true) ↔ IsFree k phi) (omega arith)
        (fvi-IsFree S phi v 0)

  within :
      (phi psi : Formula E)
      → (is_subset S (fvs S phi) (fvs S psi) ≡ true) ↔ ((v : ℕ) → IsFree v phi → IsFree v psi)
  within phi psi =
      subset_iff S (fvs S phi) (fvs S psi) (λ v. IsFree v phi) (λ v. IsFree v psi) (fvs-IsFree phi)
        (fvs-IsFree psi)

  is_constraint_iff : (phi : Formula E) → (is_constraint phi ≡ true) ↔ IsConstraint phi
  unfolding is_constraint
  is_constraint_iff (eq_t l r) = (λ h. tt, λ h. refl)
  is_constraint_iff (less_t l r) = (λ h. tt, λ h. refl)
  is_constraint_iff (less_eq_t l r) = (λ h. tt, λ h. refl)
  is_constraint_iff (neg_t phi) = is_constraint_iff phi
  is_constraint_iff _ = (λ h. absurd (cc), λ h. absurd h)

  is_safe_assignment_iff :
      (phi psi : Formula E)
      → (is_safe_assignment S psi (fvs S phi) ≡ true) ↔ Assigns (λ v. IsFree v phi) psi
  unfolding is_safe_assignment
  is_safe_assignment_iff phi (eq_t l r) =
      assigns_iff S (fvs S phi) (λ v. IsFree v phi) (fvs-IsFree phi) l r
  is_safe_assignment_iff phi _ = (λ h. absurd (cc), λ h. absurd h)

  closed_or :
      (phi : Formula E) (rest : Bool)
      → ((i : ℕ) → phi ≢ eq_t (var_t i) (var_t i))
      → (rest ≡ true) ↔ IsSafe phi
      → ((no_elements S (fvs S phi) && rest) ≡ true) ↔ IsSafe (neg_t phi)
  closed_or phi rest n f =
      only_right (and_iff (no_elements_iff S (fvs S phi) (λ v. IsFree v phi) (fvs-IsFree phi)) f)
        (λ (i, e). n i e)

  eq_vars_injective :
      (x y z : ℕ) → Path (Formula E) (eq_t (var_t x) (var_t y)) (eq_t (var_t z) (var_t z)) → x ≡ y
  eq_vars_injective x y z e = cc

  same_var : (x y : ℕ) → ((x == y) ≡ true) ↔ IsSafe (neg_t (eq_t (var_t x) (var_t y)))
  same_var x y = (
    λ h. inl (x, ap (λ k. eq_t (var_t x) (var_t k)) (ground (arith, h))),
    λ s. elim s [
      | inl (z, e) ↦ ground (arith, eq_vars_injective x y z e)
      | inr (n, k) ↦ absurd (n x (inl refl))
    ],
  )

  neg_safe_iff :
      (phi : Formula E) (rest : Bool)
      → (rest ≡ true) ↔ IsSafe phi
      → (neg_safe S phi rest ≡ true) ↔ IsSafe (neg_t phi)
  unfolding neg_safe get_if_var
  neg_safe_iff (eq_t (var_t x) (var_t y)) rest f = same_var x y
  neg_safe_iff (eq_t (var_t x) r) rest f = closed_or (eq_t (var_t x) r) rest (λ i e. absurd (cc)) f
  neg_safe_iff (eq_t l r) rest f = closed_or (eq_t l r) rest (λ i e. absurd (cc)) f
  neg_safe_iff phi rest f = closed_or phi rest (λ i e. absurd (cc)) f

  mutual
    unfolding is_safe_formula degree

    IsSafe-iff : (phi : Formula E) → (is_safe_formula S phi ≡ true) ↔ IsSafe phi
    IsSafe-iff (eq_t l r) =
        or_iff (and_iff (is_const_iff l) (or_iff (is_const_iff r) (is_var_iff r)))
          (and_iff (is_var_iff l) (is_const_iff r))
    IsSafe-iff (less_t l r) = (λ h. absurd (cc), λ h. absurd h)
    IsSafe-iff (less_eq_t l r) = (λ h. absurd (cc), λ h. absurd h)
    IsSafe-iff (neg_t phi) = neg_safe_iff phi (is_safe_formula S phi) (IsSafe-iff phi)
    IsSafe-iff (pred_t p args b) = args_safe_iff args
    IsSafe-iff (or_t l r) =
        and_iff
          (same_iff S (fvs S l) (fvs S r) (λ v. IsFree v l) (λ v. IsFree v r) (fvs-IsFree l)
            (fvs-IsFree r))
          (and_iff (IsSafe-iff l) (IsSafe-iff r))
    IsSafe-iff (and_t l r) = and_iff (IsSafe-iff l) (
        or_iff (or_iff (is_safe_assignment_iff l r) (IsSafe-iff r))
          (and_iff (within r l) (or_iff (is_constraint_iff r) (negated_safe_iff r))))
    IsSafe-iff (exists_t phi) = IsSafe-iff phi
    IsSafe-iff (prev_t i phi) = IsSafe-iff phi
    IsSafe-iff (next_t i phi) = IsSafe-iff phi
    IsSafe-iff (since_t i l r) =
        or_iff (and_iff (within l r) (IsSafe-iff l)) (and_iff (IsSafe-iff r) (negated_safe_iff l))
    IsSafe-iff (until_t i l r) =
        or_iff (and_iff (within l r) (IsSafe-iff l)) (and_iff (IsSafe-iff r) (negated_safe_iff l))
    IsSafe-iff (agg_t ty y b d t phi) =
        and_iff
          (and_iff (and_iff (IsSafe-iff phi) (not_iff (fvs-IsFree phi (y + b)))) (
            subset_iff S (Term.fvs S t) (fvs S phi) (λ v. Occurs v t) (λ v. IsFree v phi)
              (term_fvs-Occurs S t) (fvs-IsFree phi)))
          (all_below_iff S b (fvs S phi) (λ v. IsFree v phi) (fvs-IsFree phi))
    IsSafe-iff (let_t p phi psi) =
        and_iff (and_iff (IsSafe-iff phi) (IsSafe-iff psi))
          (all_below_iff S (degree S phi) (fvs S phi) (λ v. IsFree v phi) (fvs-IsFree phi))

    negated_safe_iff : (phi : Formula E) → (negated_safe S phi ≡ true) ↔ NegatedSafe phi
    negated_safe_iff (neg_t phi) = IsSafe-iff phi
    negated_safe_iff _ = (λ h. absurd (cc), λ h. absurd h)
