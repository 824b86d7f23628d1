-- ===== src/Term/Free.antt =====
-- src/formula.cpp: the free variables of a term.
use cppmon.Shared.{ℕ, ◌+◌, ◌≡◌, ◌↔◌, ◌⊎◌, inl, inr, true, arith, leb, Bool-cases}
use cppmon.Hash.{HashSet, hash_set_union, contains-hash_set_union}
use cppmon.Term.{
  Term, const_t, var_t, plus_t, minus_t, uminus_t, mult_t, div_t, mod_t, f2i_t, i2f_t,
  fvi_single_var, fvi,
}

-- The variable with index v occurs in the term.
abbrev pub Occurs : {E : Type 0} → ℕ → Term E → Type 0
Occurs v (const_t c) = ⊥
Occurs v (var_t i) = i ≡ v
Occurs v (plus_t l r) = Occurs v l ⊎ Occurs v r
Occurs v (minus_t l r) = Occurs v l ⊎ Occurs v r
Occurs v (uminus_t t) = Occurs v t
Occurs v (mult_t l r) = Occurs v l ⊎ Occurs v r
Occurs v (div_t l r) = Occurs v l ⊎ Occurs v r
Occurs v (mod_t l r) = Occurs v l ⊎ Occurs v r
Occurs v (f2i_t t) = Occurs v t
Occurs v (i2f_t t) = Occurs v t

module _ (S : HashSet ℕ) where
  pub fvi_single_var_iff : (v i n : ℕ) → (S.contains v (fvi_single_var S i n) ≡ true) ↔ (i ≡ v + n)
  unfolding fvi_single_var
  fvi_single_var_iff v i n = elim (Bool-cases (leb n i)) [
    | inl e ↦ rw (e, S.contains-insert, S.contains-empty) (ground arith)
    | inr e ↦ rw (e, S.contains-empty) (ground arith)
  ]

  pub union_iff :
      (v : ℕ) (s t : S.Carrier) (A B : Type 0)
      → (S.contains v s ≡ true) ↔ A
      → (S.contains v t ≡ true) ↔ B
      → (S.contains v (hash_set_union S s t) ≡ true) ↔ (A ⊎ B)
  union_iff v s t A B a b = ground (arith, contains-hash_set_union S v s t, a, b)

module _ {E : Type 0} (S : HashSet ℕ) where
  -- Under n binders, the free variables of a term are those that occur in it, lowered by n.
  pub fvi-Occurs : (t : Term E) (v n : ℕ) → (S.contains v (fvi S t n) ≡ true) ↔ Occurs (v + n) t
  unfolding fvi
  fvi-Occurs (const_t c) v n = rw (S.contains-empty) (ground arith)
  fvi-Occurs (var_t i) v n = fvi_single_var_iff S v i n
  fvi-Occurs (uminus_t t) v n = fvi-Occurs t v n
  fvi-Occurs (f2i_t t) v n = fvi-Occurs t v n
  fvi-Occurs (i2f_t t) v n = fvi-Occurs t v n
  fvi-Occurs (plus_t l r) v n = union_iff S v _ _ _ _ (fvi-Occurs l v n) (fvi-Occurs r v n)
  fvi-Occurs (minus_t l r) v n = union_iff S v _ _ _ _ (fvi-Occurs l v n) (fvi-Occurs r v n)
  fvi-Occurs (mult_t l r) v n = union_iff S v _ _ _ _ (fvi-Occurs l v n) (fvi-Occurs r v n)
  fvi-Occurs (div_t l r) v n = union_iff S v _ _ _ _ (fvi-Occurs l v n) (fvi-Occurs r v n)
  fvi-Occurs (mod_t l r) v n = union_iff S v _ _ _ _ (fvi-Occurs l v n) (fvi-Occurs r v n)
