-- ===== src/EventData/Range.antt =====
-- src/common/event_data.cpp: the ints that arithmetic gives are values of int64.
use cppmon.Shared.{ℕ, ◌<◌, Option, none, some, arith}
use cppmon.Interval.{size_t_mod}
use cppmon.EventData.{
  Double, EventData, int, float, string, nan, int_add, int_sub, int_mul, int_div, int_mod, int_neg,
  apply_arith_bin_op, plus, minus, times, divide, modulo, uminus, int_to_float, float_to_int,
}

module _ (D : Double) where
  -- A value is in range when it is no int, or an int below 2 ^ 64.
  abbrev pub InRange : EventData D → Type 0
  InRange (int i) = i < size_t_mod
  InRange _ = Unit

  abbrev pub AllInRange : Option (EventData D) → Type 0
  AllInRange none = Unit
  AllInRange (some v) = InRange v

  abbrev IntInRange : Option ℕ → Type 0
  IntInRange none = Unit
  IntInRange (some k) = k < size_t_mod

  int_div-InRange : (a b : ℕ) → IntInRange (int_div a b)
  unfolding int_div int_neg
  int_div-InRange a b = ground arith

  int_mod-InRange : (a b : ℕ) → IntInRange (int_mod a b)
  unfolding int_mod int_neg
  int_mod-InRange a b = ground arith

  some_int :
      (o : Option ℕ) → IntInRange o → AllInRange (elim o [ none ↦ none | some k ↦ some (int k) ])
  some_int none h = tt
  some_int (some k) h = h

  apply_arith_bin_op-InRange :
      (f : ℕ → ℕ → Option ℕ) (g : D.Carrier → D.Carrier → D.Carrier)
      → ((i j : ℕ) → IntInRange (f i j))
      → (a b : EventData D) → AllInRange (apply_arith_bin_op D f g a b)
  unfolding apply_arith_bin_op nan
  apply_arith_bin_op-InRange f g h (int i) (int j) = some_int (f i j) (h i j)
  apply_arith_bin_op-InRange f g h (int i) _ = tt
  apply_arith_bin_op-InRange f g h (float d) (int j) = tt
  apply_arith_bin_op-InRange f g h (float d) _ = tt
  apply_arith_bin_op-InRange f g h (string s) _ = tt

  modulo-InRange : (a b : EventData D) → AllInRange (modulo D a b)
  unfolding modulo nan
  modulo-InRange (int i) (int j) = some_int (int_mod i j) (int_mod-InRange i j)
  modulo-InRange (int i) _ = tt
  modulo-InRange (float d) _ = tt
  modulo-InRange (string s) _ = tt

  -- Whatever the two values are, each of the operators +, -, *, / and % is undefined, or gives a
  -- value that is no int, or gives an int64.
  pub arithmetic-InRange :
      (a b : EventData D)
      → AllInRange (plus D a b)
        × AllInRange (minus D a b)
        × AllInRange (times D a b)
        × AllInRange (divide D a b)
        × AllInRange (modulo D a b)
  unfolding plus minus times divide int_add int_sub int_mul
  arithmetic-InRange a b = (
    apply_arith_bin_op-InRange (λ i j. some (int_add i j)) D.add (λ i j. omega arith) a b,
    apply_arith_bin_op-InRange (λ i j. some (int_sub i j)) D.sub (λ i j. omega arith) a b,
    apply_arith_bin_op-InRange (λ i j. some (int_mul i j)) D.mul (λ i j. omega arith) a b,
    apply_arith_bin_op-InRange int_div D.div int_div-InRange a b,
    modulo-InRange a b,
  )

  pub uminus-InRange : (a : EventData D) → InRange (uminus D a)
  unfolding uminus int_neg nan
  uminus-InRange (int i) = omega arith
  uminus-InRange (float d) = tt
  uminus-InRange (string s) = tt

  pub float_to_int-InRange :
      ((d : D.Carrier) → D.to_int d < size_t_mod)
      → (a : EventData D) → AllInRange (float_to_int D a)
  unfolding float_to_int
  float_to_int-InRange w (int i) = tt
  float_to_int-InRange w (float d) = w d
  float_to_int-InRange w (string s) = tt

  pub int_to_float-InRange : (a : EventData D) → AllInRange (int_to_float D a)
  unfolding int_to_float
  int_to_float-InRange (int i) = tt
  int_to_float-InRange (float d) = tt
  int_to_float-InRange (string s) = tt
