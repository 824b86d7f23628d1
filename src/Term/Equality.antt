-- ===== src/Term/Equality.antt =====
-- src/formula.cpp: the comparison of terms and the copy.
use cppmon.Shared.{◌≡◌, ◌↔◌, refl, subst, ap, ap₂, Bool, true, false, ◌&&◌, arith}
use cppmon.EventData.{Double, EventData}
use cppmon.EventData.Order.{NoFloat, equals_iff}
use cppmon.Term.{
  Term, const_t, var_t, plus_t, minus_t, uminus_t, mult_t, div_t, mod_t, f2i_t, i2f_t, equals,
  copy_val,
}

-- `copy_val` copies.
pub copy_val_same : {E : Type 0} (t : Term E) → copy_val t ≡ t
unfolding copy_val
copy_val_same (const_t c) = refl
copy_val_same (var_t i) = refl
copy_val_same (uminus_t t) = ap uminus_t (copy_val_same t)
copy_val_same (f2i_t t) = ap f2i_t (copy_val_same t)
copy_val_same (i2f_t t) = ap i2f_t (copy_val_same t)
copy_val_same (plus_t l r) = ap₂ plus_t (copy_val_same l) (copy_val_same r)
copy_val_same (minus_t l r) = ap₂ minus_t (copy_val_same l) (copy_val_same r)
copy_val_same (mult_t l r) = ap₂ mult_t (copy_val_same l) (copy_val_same r)
copy_val_same (div_t l r) = ap₂ div_t (copy_val_same l) (copy_val_same r)
copy_val_same (mod_t l r) = ap₂ mod_t (copy_val_same l) (copy_val_same r)

both_true : (a b : Bool) → (a && b) ≡ true → (a ≡ true) × (b ≡ true)
both_true a b h = ground arith

module _ (D : Double) where
  -- No constant of the term is a double.
  abbrev pub NoFloats : Term (EventData D) → Type 0
  NoFloats (const_t c) = NoFloat D c
  NoFloats (var_t i) = Unit
  NoFloats (plus_t l r) = NoFloats l × NoFloats r
  NoFloats (minus_t l r) = NoFloats l × NoFloats r
  NoFloats (uminus_t t) = NoFloats t
  NoFloats (mult_t l r) = NoFloats l × NoFloats r
  NoFloats (div_t l r) = NoFloats l × NoFloats r
  NoFloats (mod_t l r) = NoFloats l × NoFloats r
  NoFloats (f2i_t t) = NoFloats t
  NoFloats (i2f_t t) = NoFloats t

  equals_two :
      (f : Term (EventData D) → Term (EventData D) → Term (EventData D)) (a b : Bool)
      (l m r s : Term (EventData D))
      → (a && b) ≡ true
      → (a ≡ true → l ≡ m)
      → (b ≡ true → r ≡ s)
      → f l r ≡ f m s
  equals_two f true true l m r s h j k = ap₂ f (j refl) (k refl)
  equals_two f true false l m r s h j k = absurd (cc)
  equals_two f false b l m r s h j k = absurd (cc)

  pub equals_sound : (s t : Term (EventData D)) → NoFloats s → equals D s t ≡ true → s ≡ t
  unfolding equals
  equals_sound (var_t i) (var_t j) n h = ap {B = Term (EventData D)} var_t (ground arith)
  equals_sound (const_t a) (const_t b) n h =
      ap {B = Term (EventData D)} const_t ((equals_iff D a b n).0 h)
  equals_sound (uminus_t s) (uminus_t t) n h = ap uminus_t (equals_sound s t n h)
  equals_sound (f2i_t s) (f2i_t t) n h = ap f2i_t (equals_sound s t n h)
  equals_sound (i2f_t s) (i2f_t t) n h = ap i2f_t (equals_sound s t n h)
  equals_sound (plus_t l r) (plus_t m s) n h =
      equals_two plus_t (equals D l m) (equals D r s) l m r s h (equals_sound l m n.0)
        (equals_sound r s n.1)
  equals_sound (minus_t l r) (minus_t m s) n h =
      equals_two minus_t (equals D l m) (equals D r s) l m r s h (equals_sound l m n.0)
        (equals_sound r s n.1)
  equals_sound (mult_t l r) (mult_t m s) n h =
      equals_two mult_t (equals D l m) (equals D r s) l m r s h (equals_sound l m n.0)
        (equals_sound r s n.1)
  equals_sound (div_t l r) (div_t m s) n h =
      equals_two div_t (equals D l m) (equals D r s) l m r s h (equals_sound l m n.0)
        (equals_sound r s n.1)
  equals_sound (mod_t l r) (mod_t m s) n h =
      equals_two mod_t (equals D l m) (equals D r s) l m r s h (equals_sound l m n.0)
        (equals_sound r s n.1)
  equals_sound _ _ n h = absurd (cc)

  pub equals_self : (t : Term (EventData D)) → NoFloats t → equals D t t ≡ true
  unfolding equals
  equals_self (var_t i) n = ground arith
  equals_self (const_t a) n = (equals_iff D a a n).1 refl
  equals_self (uminus_t t) n = equals_self t n
  equals_self (f2i_t t) n = equals_self t n
  equals_self (i2f_t t) n = equals_self t n
  equals_self (plus_t l r) n = rw (equals_self l n.0, equals_self r n.1) refl
  equals_self (minus_t l r) n = rw (equals_self l n.0, equals_self r n.1) refl
  equals_self (mult_t l r) n = rw (equals_self l n.0, equals_self r n.1) refl
  equals_self (div_t l r) n = rw (equals_self l n.0, equals_self r n.1) refl
  equals_self (mod_t l r) n = rw (equals_self l n.0, equals_self r n.1) refl

  pub equals_term_iff : (s t : Term (EventData D)) → NoFloats s → (equals D s t ≡ true) ↔ (s ≡ t)
  equals_term_iff s t n =
      (equals_sound s t n, λ e. subst (λ u. equals D s u ≡ true) e (equals_self s n))
