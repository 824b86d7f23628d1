-- ===== src/Formula/Safe/Assigning.antt =====
-- The arguments of predicates, and the equations that assign a variable.
use cppmon.Shared.{
  ℕ, ◌≡◌, ◌↔◌, ◌⊎◌, inl, inr, refl, sym, subst, true, not, ◌&&◌, List, [], ◌∷◌, All, arith, and_iff,
  or_iff, not_iff, ◌∙◌, Bool-cases,
}
use cppmon.Hash.{HashSet, is_subset}
use cppmon.Term
use cppmon.Term.{Term, const_t, var_t, is_const, is_var, get_if_var}
use cppmon.Term.Free.{Occurs, fvi-Occurs}
use cppmon.Formula.{Formula, eq_t}
use cppmon.Formula.Safe.{differs, assigns, args_safe}
use cppmon.Formula.Safe.Sides.{subset_iff, only_left, only_right, neither}

abbrev pub IsConst : {E : Type 0} → Term E → Type 0
IsConst {E} t = (c : E) × (t ≡ const_t c)

abbrev pub IsVar : {E : Type 0} → Term E → Type 0
IsVar t = (i : ℕ) × (t ≡ var_t i)

-- `x = t`, either way round, assigns x a value: x is not among the variables P, and those of t are.
abbrev pub Assigns : {E : Type 0} → (ℕ → Type 0) → Formula E → Type 0
Assigns P (eq_t l r) =
    ((x : ℕ) × (l ≡ var_t x) × (¬ P x) × ((v : ℕ) → Occurs v r → P v))
    ⊎ ((x : ℕ) × (r ≡ var_t x) × (¬ P x) × ((v : ℕ) → Occurs v l → P v))
Assigns P _ = ⊥

var_injective : {E : Type 0} (x y : ℕ) → Path (Term E) (var_t x) (var_t y) → x ≡ y
var_injective x y e = cc

module _ {E : Type 0} where
  pub is_const_iff : (t : Term E) → (is_const t ≡ true) ↔ IsConst t
  unfolding is_const
  is_const_iff (const_t c) = (λ h. (c, refl), λ h. refl)
  is_const_iff _ = (λ h. absurd (cc), λ (c, e). absurd (cc))

  pub is_var_iff : (t : Term E) → (is_var t ≡ true) ↔ IsVar t
  unfolding is_var
  is_var_iff (var_t i) = (λ h. (i, refl), λ h. refl)
  is_var_iff _ = (λ h. absurd (cc), λ (i, e). absurd (cc))

  pub args_safe_iff :
      (args : List (Term E)) → (args_safe args ≡ true) ↔ All (λ t. IsVar t ⊎ IsConst t) args
  unfolding args_safe
  args_safe_iff [] = (λ h. tt, λ h. refl)
  args_safe_iff (t ∷ ts) = and_iff (or_iff (is_var_iff t) (is_const_iff t)) (args_safe_iff ts)

module _ {E : Type 0} (S : HashSet ℕ) where
  pub term_fvs-Occurs : (t : Term E) (v : ℕ) → (S.contains v (Term.fvs S t) ≡ true) ↔ Occurs v t
  unfolding Term.fvs
  term_fvs-Occurs t v =
      subst (λ k. (S.contains v (Term.fvs S t) ≡ true) ↔ Occurs k t) (omega arith)
        (fvi-Occurs S t v 0)

  module _ (vars : S.Carrier) (P : ℕ → Type 0)
      (f : (v : ℕ) → (S.contains v vars ≡ true) ↔ P v) where
    one_side :
        (x : ℕ) (l t : Term E)
        → l ≡ var_t x
        → ((not (S.contains x vars) && is_subset S (Term.fvs S t) vars) ≡ true)
          ↔ ((y : ℕ) × (l ≡ var_t y) × (¬ P y) × ((v : ℕ) → Occurs v t → P v))
    one_side x l t q = (
      λ h. (x, q, (not_iff (f x)).0 (ground (arith, h)), sub.0 (ground (arith, h))),
      λ (y, e, n, o).
          let a = (not_iff (f x)).1 (λ p. n (subst P (var_injective x y (sym q ∙ e)) p)) in
          let b = sub.1 o in ground (arith, a, b),
    )
      where
        sub : (is_subset S (Term.fvs S t) vars ≡ true) ↔ ((v : ℕ) → Occurs v t → P v)
        sub = subset_iff S (Term.fvs S t) vars (λ v. Occurs v t) P (term_fvs-Occurs t) f

    from_var : (x : ℕ) (t : Term E) → t ≡ var_t x → P x → (v : ℕ) → Occurs v t → P v
    from_var x t q h = subst (λ u. (v : ℕ) → Occurs v u → P v) (sym q) (λ v o. subst P o h)

    at_var : (x : ℕ) (t : Term E) → t ≡ var_t x → ((v : ℕ) → Occurs v t → P v) → P x
    at_var x t q o = o x (subst (Occurs x) (sym q) refl)

    one_of :
        (x y z : ℕ) (l r : Term E)
        → l ≡ var_t x
        → r ≡ var_t y
        → l ≡ var_t z
        → ¬ P z
        → ((v : ℕ) → Occurs v r → P v)
        → (¬ P x) × P y
    one_of x y z l r p q e n o =
        (λ h. n (subst P (var_injective x z (sym p ∙ e)) h), at_var y r q o)

    two_vars :
        (x y : ℕ) (l r : Term E)
        → l ≡ var_t x
        → r ≡ var_t y
        → (differs (S.contains x vars) (S.contains y vars) ≡ true) ↔ Assigns P (eq_t l r)
    two_vars x y l r p q = (
      λ h. elim (Bool-cases (S.contains x vars)) [
        | inl a ↦ inr (y, q, (λ k. ground (arith, h, a, (f y).1 k)), from_var x l p ((f x).0 a))
        | inr a ↦ inl (
          x,
          p,
          (λ k. ground (arith, a, (f x).1 k)),
          from_var y r q ((f y).0 (ground (arith, h, a))),
        )
      ],
      λ h. elim h [
        | inl (z, e, n, o) ↦ ground (arith, one_of x y z l r p q e n o, f x, f y)
        | inr (z, e, n, o) ↦ ground (arith, one_of y x z r l q p e n o, f x, f y)
      ],
    )

    pub assigns_iff :
        (l r : Term E)
        → (assigns S l r (get_if_var l) (get_if_var r) vars ≡ true) ↔ Assigns P (eq_t l r)
    unfolding assigns get_if_var
    assigns_iff (var_t x) (var_t y) = two_vars x y (var_t x) (var_t y) refl refl
    assigns_iff (var_t x) r = only_left (one_side x (var_t x) r refl) (λ (y, e, n, o). absurd (cc))
    assigns_iff l (var_t y) = only_right (one_side y (var_t y) l refl) (λ (x, e, n, o). absurd (cc))
    assigns_iff _ _ =
        neither (λ h. absurd (cc)) (λ (x, e, n, o). absurd (cc)) (λ (x, e, n, o). absurd (cc))
