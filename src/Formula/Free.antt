-- ===== src/Formula/Free.antt =====
-- src/formula.cpp: the free variables of a formula, against their definition by the binders.
use cppmon.Shared.{ℕ, ◌+◌, ◌≡◌, ◌↔◌, ◌⊎◌, subst, true, List, [], ◌∷◌, arith}
use cppmon.Hash.{HashSet, hash_set_union, contains-hash_set_union}
use cppmon.Term
use cppmon.Term.{Term}
use cppmon.Term.Free.{Occurs, fvi-Occurs, fvi_single_var_iff, union_iff}
use cppmon.Formula.{
  Formula, pred_t, less_t, less_eq_t, eq_t, or_t, and_t, exists_t, prev_t, next_t, since_t, until_t,
  neg_t, agg_t, let_t, args_fvi, fvi,
}

abbrev pub OccursIn : {E : Type 0} → ℕ → List (Term E) → Type 0
OccursIn v [] = ⊥
OccursIn v (t ∷ ts) = Occurs v t ⊎ OccursIn v ts

-- The variable v is free in the formula. Under ∃ the index goes up by one, in an aggregation by the
-- number of variables that it binds, where the variable of the result is free; a let binds the free
-- variables of its first formula as the parameters of its predicate.
abbrev pub IsFree : {E : Type 0} → ℕ → Formula E → Type 0
IsFree v (pred_t p args b) = OccursIn v args
IsFree v (less_t l r) = Occurs v l ⊎ Occurs v r
IsFree v (less_eq_t l r) = Occurs v l ⊎ Occurs v r
IsFree v (eq_t l r) = Occurs v l ⊎ Occurs v r
IsFree v (or_t l r) = IsFree v l ⊎ IsFree v r
IsFree v (and_t l r) = IsFree v l ⊎ IsFree v r
IsFree v (exists_t phi) = IsFree (v + 1) phi
IsFree v (prev_t i phi) = IsFree v phi
IsFree v (next_t i phi) = IsFree v phi
IsFree v (since_t i l r) = IsFree v l ⊎ IsFree v r
IsFree v (until_t i l r) = IsFree v l ⊎ IsFree v r
IsFree v (neg_t phi) = IsFree v phi
IsFree v (agg_t ty y b d t phi) = (Occurs (v + b) t ⊎ IsFree (v + b) phi) ⊎ (y ≡ v)
IsFree v (let_t p phi psi) = IsFree v psi

regroup : (P : ℕ → Type 0) (v n b : ℕ) → P (v + (n + b)) → P (v + n + b)
regroup P v n b = subst P (omega arith)

module _ {E : Type 0} (S : HashSet ℕ) where
  args_fvi_iff :
      (ts : List (Term E)) (v n : ℕ) (s : S.Carrier)
      → (S.contains v (args_fvi S ts n s) ≡ true) ↔ ((S.contains v s ≡ true) ⊎ OccursIn (v + n) ts)
  unfolding args_fvi
  args_fvi_iff [] v n s = ground arith
  args_fvi_iff (t ∷ ts) v n s = ground (
    arith,
    args_fvi_iff ts v n (hash_set_union S s (Term.fvi S t n)),
    contains-hash_set_union S v s (Term.fvi S t n),
    fvi-Occurs S t v n,
  )

  -- With n for the binders passed, fvi contains a variable v exactly when v + n is free in the formula.
  pub fvi-IsFree :
      (phi : Formula E) (v n : ℕ) → (S.contains v (fvi S phi n) ≡ true) ↔ IsFree (v + n) phi
  unfolding fvi
  fvi-IsFree (pred_t p args b) v n =
      ground (arith, args_fvi_iff args v n S.empty, S.contains-empty v)
  fvi-IsFree (less_t l r) v n = union_iff S v _ _ _ _ (fvi-Occurs S l v n) (fvi-Occurs S r v n)
  fvi-IsFree (less_eq_t l r) v n = union_iff S v _ _ _ _ (fvi-Occurs S l v n) (fvi-Occurs S r v n)
  fvi-IsFree (eq_t l r) v n = union_iff S v _ _ _ _ (fvi-Occurs S l v n) (fvi-Occurs S r v n)
  fvi-IsFree (or_t l r) v n = union_iff S v _ _ _ _ (fvi-IsFree l v n) (fvi-IsFree r v n)
  fvi-IsFree (and_t l r) v n = union_iff S v _ _ _ _ (fvi-IsFree l v n) (fvi-IsFree r v n)
  fvi-IsFree (exists_t phi) v n =
      subst (λ k. (S.contains v (fvi S phi (n + 1)) ≡ true) ↔ IsFree k phi) (omega arith)
        (fvi-IsFree phi v (n + 1))
  fvi-IsFree (prev_t i phi) v n = fvi-IsFree phi v n
  fvi-IsFree (next_t i phi) v n = fvi-IsFree phi v n
  fvi-IsFree (since_t i l r) v n = union_iff S v _ _ _ _ (fvi-IsFree l v n) (fvi-IsFree r v n)
  fvi-IsFree (until_t i l r) v n = union_iff S v _ _ _ _ (fvi-IsFree l v n) (fvi-IsFree r v n)
  fvi-IsFree (neg_t phi) v n = fvi-IsFree phi v n
  fvi-IsFree (agg_t ty y b d t phi) v n =
      union_iff S v _ _ _ _
        (union_iff S v _ _ _ _
          ((regroup (λ k. (S.contains v (Term.fvi S t (n + b)) ≡ true) ↔ Occurs k t) v n b
            (fvi-Occurs S t v (n + b))))
          (regroup (λ k. (S.contains v (fvi S phi (n + b)) ≡ true) ↔ IsFree k phi) v n b
            (fvi-IsFree phi v (n + b))))
        (fvi_single_var_iff S v y n)
  fvi-IsFree (let_t p phi psi) v n = fvi-IsFree psi v n
