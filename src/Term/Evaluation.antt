-- ===== src/Term/Evaluation.antt =====
-- src/formula.cpp: what the value of a term depends on, and its range.
use cppmon.Shared.{ℕ, ◌≡◌, refl, ap, ap₂, inl, inr, Option, some, List}
use cppmon.EventData.{
  Double, EventData, plus, minus, times, divide, modulo, uminus, int_to_float, float_to_int,
}
use cppmon.EventData.Range.{InRange}
use cppmon.Term.{
  Term, const_t, var_t, plus_t, minus_t, uminus_t, mult_t, div_t, mod_t, f2i_t, i2f_t, get_elem?,
  bind, both, eval,
}
use cppmon.Term.Free.{Occurs}

module _ (D : Double) where
  -- The value that a variable has in a tuple, if any.
  abbrev pub value_at : List ℕ → List (EventData D) → ℕ → Option (EventData D)
  value_at vs e i = bind (get_elem? vs i) λ k. get_elem? e k

  -- Two tuples, each with its own places for the variables, give a term the same value when they
  -- agree on the variables that occur in it.
  eval-agree :
      (t : Term (EventData D)) (vs us : List ℕ) (e f : List (EventData D))
      → ((v : ℕ) → Occurs v t → value_at vs e v ≡ value_at us f v)
      → eval D t vs e ≡ eval D t us f
  unfolding eval
  eval-agree (const_t c) vs us e f h = refl
  eval-agree (var_t i) vs us e f h = h i refl
  eval-agree (uminus_t t) vs us e f h =
      ap (λ o. bind o λ v. some (uminus D v)) (eval-agree t vs us e f h)
  eval-agree (f2i_t t) vs us e f h =
      ap (λ o. bind o λ v. float_to_int D v) (eval-agree t vs us e f h)
  eval-agree (i2f_t t) vs us e f h =
      ap (λ o. bind o λ v. int_to_float D v) (eval-agree t vs us e f h)
  eval-agree (plus_t l r) vs us e f h =
      ap₂ (both (plus D)) (eval-agree l vs us e f (λ v o. h v (inl o)))
        (eval-agree r vs us e f (λ v o. h v (inr o)))
  eval-agree (minus_t l r) vs us e f h =
      ap₂ (both (minus D)) (eval-agree l vs us e f (λ v o. h v (inl o)))
        (eval-agree r vs us e f (λ v o. h v (inr o)))
  eval-agree (mult_t l r) vs us e f h =
      ap₂ (both (times D)) (eval-agree l vs us e f (λ v o. h v (inl o)))
        (eval-agree r vs us e f (λ v o. h v (inr o)))
  eval-agree (div_t l r) vs us e f h =
      ap₂ (both (divide D)) (eval-agree l vs us e f (λ v o. h v (inl o)))
        (eval-agree r vs us e f (λ v o. h v (inr o)))
  eval-agree (mod_t l r) vs us e f h =
      ap₂ (both (modulo D)) (eval-agree l vs us e f (λ v o. h v (inl o)))
        (eval-agree r vs us e f (λ v o. h v (inr o)))

  -- The constants of a term are in range.
  abbrev pub ConstsInRange : Term (EventData D) → Type 0
  ConstsInRange (const_t c) = InRange D c
  ConstsInRange (var_t i) = Unit
  ConstsInRange (plus_t l r) = ConstsInRange l × ConstsInRange r
  ConstsInRange (minus_t l r) = ConstsInRange l × ConstsInRange r
  ConstsInRange (uminus_t t) = ConstsInRange t
  ConstsInRange (mult_t l r) = ConstsInRange l × ConstsInRange r
  ConstsInRange (div_t l r) = ConstsInRange l × ConstsInRange r
  ConstsInRange (mod_t l r) = ConstsInRange l × ConstsInRange r
  ConstsInRange (f2i_t t) = ConstsInRange t
  ConstsInRange (i2f_t t) = ConstsInRange t
