-- ===== src/Term.antt =====
-- The class Term of src/formula.h and src/formula.cpp. A term over the event data `E`; a variable is
-- a de Bruijn index, and fv_set is a hash set of size_t.
pub mod Free
pub mod Evaluation
pub mod Equality
use cppmon.Shared.{
  ℕ, ◌-◌, Bool, true, false, ◌&&◌, Option, none, some, List, [], ◌∷◌, leb, ◌==◌, if◌then◌else◌,
}
use cppmon.Hash.{HashSet, insert_range, hash_set_union}
use cppmon.EventData
use cppmon.EventData.{
  Double, EventData, plus, minus, times, divide, modulo, uminus, int_to_float, float_to_int,
}

pub data Term (E : Type 0) : Type 0 where
  const_t : E → Term E
  var_t : ℕ → Term E
  plus_t : Term E → Term E → Term E
  minus_t : Term E → Term E → Term E
  uminus_t : Term E → Term E
  mult_t : Term E → Term E → Term E
  div_t : Term E → Term E → Term E
  mod_t : Term E → Term E → Term E
  f2i_t : Term E → Term E
  i2f_t : Term E → Term E

-- `xs[i]`: undefined past the end.
abbrev pub get_elem? {ℓ} : {A : Type ℓ} → List A → ℕ → Option A
get_elem? [] i = none
get_elem? (x ∷ xs) ℕ.zero = some x
get_elem? (x ∷ xs) (ℕ.suc i) = get_elem? xs i

-- An operation on values that may be undefined.
abbrev pub bind {ℓ κ} : {A : Type ℓ} {B : Type κ} → Option A → (A → Option B) → Option B
bind none f = none
bind (some a) f = f a

abbrev pub both {ℓ} : {A : Type ℓ} → (A → A → Option A) → Option A → Option A → Option A
both f none b = none
both f (some x) none = none
both f (some x) (some y) = f x y

module _ {E : Type 0} where
  -- The deep copy of the copy constructor.
  unfoldable pub copy_val : Term E → Term E
  copy_val (const_t c) = const_t c
  copy_val (var_t i) = var_t i
  copy_val (uminus_t t) = uminus_t (copy_val t)
  copy_val (f2i_t t) = f2i_t (copy_val t)
  copy_val (i2f_t t) = i2f_t (copy_val t)
  copy_val (plus_t l r) = plus_t (copy_val l) (copy_val r)
  copy_val (minus_t l r) = minus_t (copy_val l) (copy_val r)
  copy_val (mult_t l r) = mult_t (copy_val l) (copy_val r)
  copy_val (div_t l r) = div_t (copy_val l) (copy_val r)
  copy_val (mod_t l r) = mod_t (copy_val l) (copy_val r)

  unfoldable pub is_const : Term E → Bool
  is_const (const_t c) = true
  is_const _ = false

  unfoldable pub is_var : Term E → Bool
  is_var (var_t i) = true
  is_var _ = false

  unfoldable pub get_if_var : Term E → Option ℕ
  get_if_var (var_t i) = some i
  get_if_var _ = none

  unfoldable pub get_if_const : Term E → Option E
  get_if_const (const_t c) = some c
  get_if_const _ = none

-- The free variables that a variable has under `num_bound_vars` binders.
unfoldable pub fvi_single_var : (S : HashSet ℕ) → ℕ → ℕ → S.Carrier
fvi_single_var S var num_bound_vars =
    if leb num_bound_vars var then S.insert (var - num_bound_vars) S.empty else S.empty

module _ {E : Type 0} (S : HashSet ℕ) where
  unfoldable pub fvi : Term E → ℕ → S.Carrier
  unfolding fvi_single_var hash_set_union
  fvi (var_t i) n = fvi_single_var S i n
  fvi (plus_t l r) n = hash_set_union S (fvi l n) (fvi r n)
  fvi (minus_t l r) n = hash_set_union S (fvi l n) (fvi r n)
  fvi (mult_t l r) n = hash_set_union S (fvi l n) (fvi r n)
  fvi (div_t l r) n = hash_set_union S (fvi l n) (fvi r n)
  fvi (mod_t l r) n = hash_set_union S (fvi l n) (fvi r n)
  fvi (uminus_t t) n = fvi t n
  fvi (f2i_t t) n = fvi t n
  fvi (i2f_t t) n = fvi t n
  fvi (const_t c) n = S.empty

  unfoldable pub fvs : Term E → S.Carrier
  unfolding fvi
  fvs t = fvi t 0

module _ (D : Double) where
  unfoldable pub eval : Term (EventData D) → List ℕ → List (EventData D) → Option (EventData D)
  unfolding plus minus times divide modulo uminus int_to_float float_to_int
  eval (const_t c) var_2_idx tuple = some c
  eval (var_t i) var_2_idx tuple = bind (get_elem? var_2_idx i) λ k. get_elem? tuple k
  eval (plus_t l r) vs e = both (plus D) (eval l vs e) (eval r vs e)
  eval (minus_t l r) vs e = both (minus D) (eval l vs e) (eval r vs e)
  eval (uminus_t t) vs e = bind (eval t vs e) λ v. some (uminus D v)
  eval (mult_t l r) vs e = both (times D) (eval l vs e) (eval r vs e)
  eval (div_t l r) vs e = both (divide D) (eval l vs e) (eval r vs e)
  eval (mod_t l r) vs e = both (modulo D) (eval l vs e) (eval r vs e)
  eval (f2i_t t) vs e = bind (eval t vs e) λ v. float_to_int D v
  eval (i2f_t t) vs e = bind (eval t vs e) λ v. int_to_float D v

  unfoldable pub equals : Term (EventData D) → Term (EventData D) → Bool
  unfolding EventData.equals
  equals (var_t i) (var_t j) = i == j
  equals (const_t a) (const_t b) = EventData.equals D a b
  equals (uminus_t s) (uminus_t t) = equals s t
  equals (f2i_t s) (f2i_t t) = equals s t
  equals (i2f_t s) (i2f_t t) = equals s t
  equals (plus_t l r) (plus_t m s) = equals l m && equals r s
  equals (minus_t l r) (minus_t m s) = equals l m && equals r s
  equals (mult_t l r) (mult_t m s) = equals l m && equals r s
  equals (div_t l r) (div_t m s) = equals l m && equals r s
  equals (mod_t l r) (mod_t m s) = equals l m && equals r s
  equals _ _ = false
