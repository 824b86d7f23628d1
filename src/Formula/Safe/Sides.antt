-- ===== src/Formula/Safe/Sides.antt =====
-- The tests of is_safe_formula on sets of variables, read as statements on the variables.
use cppmon.Shared.{
  ℕ, zero, suc, ◌<◌, ◌≡◌, ◌↔◌, ◌⊎◌, inl, inr, refl, sym, subst, true, false, List, [], ◌∷◌, arith,
  In, dec_lt,
}
use cppmon.Hash.{HashSet, is_subset, same_set, is_subset_iff, same_set_iff}
use cppmon.Formula.Safe.{all_below, no_elements}

module _ (S : HashSet ℕ) where
  pub all_below_iff :
      (n : ℕ) (s : S.Carrier) (P : ℕ → Type 0)
      → ((v : ℕ) → (S.contains v s ≡ true) ↔ P v)
      → (all_below S n s ≡ true) ↔ ((v : ℕ) → v < n → P v)
  unfolding all_below
  all_below_iff zero s P f = (λ h v l. absurd (omega arith), λ h. refl)
  all_below_iff (suc n) s P f = (
    λ h v l. elim (dec_lt v n) [
      | yes k ↦ (all_below_iff n s P f).0 (ground (arith, h)) v k
      | no k ↦ subst P (omega arith) ((f n).0 (ground (arith, h)))
    ],
    λ h.
        let a = (all_below_iff n s P f).1 (λ v l. h v (omega arith)) in
        let b = (f n).1 (h n (omega arith)) in ground (arith, a, b),
  )

  pub no_elements_iff :
      (s : S.Carrier) (P : ℕ → Type 0)
      → ((v : ℕ) → (S.contains v s ≡ true) ↔ P v)
      → (no_elements S s ≡ true) ↔ ((v : ℕ) → ¬ P v)
  no_elements_iff s P f = go (S.to_list s) refl
    where
      go :
          (xs : List ℕ)
          → S.to_list s ≡ xs
          → ((elim xs [ [] ↦ true | _ ∷ _ ↦ false ]) ≡ true) ↔ ((v : ℕ) → ¬ P v)
      go [] e = (λ h v p. subst (In v) e ((S.contains-to_list v s).0 ((f v).1 p)), λ h. refl)
      go (x ∷ xs) e = (
        λ h. absurd (cc),
        λ h. absurd (h x ((f x).0 ((S.contains-to_list x s).1 (subst (In x) (sym e) (inl refl))))),
      )

  pub subset_iff :
      (s t : S.Carrier) (P Q : ℕ → Type 0)
      → ((v : ℕ) → (S.contains v s ≡ true) ↔ P v)
      → ((v : ℕ) → (S.contains v t ≡ true) ↔ Q v)
      → (is_subset S s t ≡ true) ↔ ((v : ℕ) → P v → Q v)
  subset_iff s t P Q f g = (
    λ h v p. (g v).0 ((is_subset_iff S s t).0 h v ((f v).1 p)),
    λ h. (is_subset_iff S s t).1 (λ v c. (g v).1 (h v ((f v).0 c))),
  )

  pub same_iff :
      (s t : S.Carrier) (P Q : ℕ → Type 0)
      → ((v : ℕ) → (S.contains v s ≡ true) ↔ P v)
      → ((v : ℕ) → (S.contains v t ≡ true) ↔ Q v)
      → (same_set S s t ≡ true) ↔ ((v : ℕ) → P v ↔ Q v)
  same_iff s t P Q f g = (
    λ h v. ground (arith, (same_set_iff S s t).0 h v, f v, g v),
    λ h. (same_set_iff S s t).1 (λ v. ground (arith, h v, f v, g v)),
  )

-- A sum of which one side, or both, is impossible.
module _ {A X Y : Type 0} where
  pub only_left : A ↔ X → (¬ Y) → A ↔ (X ⊎ Y)
  only_left f n = (λ a. inl (f.0 a), λ s. elim s [ inl x ↦ f.1 x | inr y ↦ absurd (n y) ])

  pub only_right : A ↔ Y → (¬ X) → A ↔ (X ⊎ Y)
  only_right f n = (λ a. inr (f.0 a), λ s. elim s [ inl x ↦ absurd (n x) | inr y ↦ f.1 y ])

  pub neither : (¬ A) → (¬ X) → (¬ Y) → A ↔ (X ⊎ Y)
  neither f n m = (λ a. absurd (f a), λ s. elim s [ inl x ↦ absurd (n x) | inr y ↦ absurd (m y) ])
