-- ===== src/EventData.antt =====
-- The class event_data of src/common/event_data.h and src/common/event_data.cpp: a value is an int64,
-- a double or a string. An int64 is its two's complement bit pattern, a number below 2 ^ 64, and
-- arithmetic on it wraps around. The doubles are a parameter; a `none` stands for what the language
-- leaves undefined: an integer division by zero or of the least value by -1, and reading a value
-- under the wrong tag.
pub mod Order
pub mod Range
use Prim.Native.String.{String, compare as compare_str}
use text.Mathlib.Text.{is_le}
use text.Mathlib.Text.{◌==◌ as str_eq}
use cppmon.Shared.{
  ℕ, ◌+◌, ◌-◌, ◌*◌, ◌/◌, ◌%◌, Bool, true, false, not, ◌&&◌, Option, none, some, ltb, leb, ◌==◌,
  if◌then◌else◌,
}
use cppmon.Interval.{size_t_mod}

-- What the code uses of double: IEEE 754 arithmetic, the conversions of static_cast from int64 and
-- size_t and to int64, and NaN, which
-- is equal to nothing and below nothing.
pub record Double : Type 1 where
  pub Carrier : Type 0
  pub of_int : ℕ → Carrier
  pub of_size : ℕ → Carrier
  pub to_int : Carrier → ℕ
  pub add : Carrier → Carrier → Carrier
  pub sub : Carrier → Carrier → Carrier
  pub mul : Carrier → Carrier → Carrier
  pub div : Carrier → Carrier → Carrier
  pub neg : Carrier → Carrier
  pub eq : Carrier → Carrier → Bool
  pub leq : Carrier → Carrier → Bool
  pub nan : Carrier

-- 2 ^ 63: the patterns from here on are negative.
abbrev pub sign_bit : ℕ
sign_bit = 9223372036854775808

unfoldable pub int_leq : ℕ → ℕ → Bool
int_leq a b = leb ((a + sign_bit) % size_t_mod) ((b + sign_bit) % size_t_mod)

unfoldable pub int_neg : ℕ → ℕ
int_neg a = (size_t_mod - a) % size_t_mod

unfoldable pub int_add : ℕ → ℕ → ℕ
int_add a b = (a + b) % size_t_mod

unfoldable pub int_sub : ℕ → ℕ → ℕ
int_sub a b = (a + size_t_mod - b) % size_t_mod

unfoldable pub int_mul : ℕ → ℕ → ℕ
int_mul a b = (a * b) % size_t_mod

abbrev pub is_negative : ℕ → Bool
is_negative a = leb sign_bit a

abbrev pub magnitude : ℕ → ℕ
magnitude a = if is_negative a then size_t_mod - a else a

abbrev pub divides : ℕ → ℕ → Bool
divides a b = not (b == 0) && not (a == sign_bit && b == size_t_mod - 1)

-- `a / b`, towards zero.
unfoldable pub int_div : ℕ → ℕ → Option ℕ
unfolding int_neg
int_div a b =
    let q = magnitude a / magnitude b in
    let r =
      if is_negative a
      then if is_negative b then q % size_t_mod else int_neg q
      else if is_negative b
      then int_neg q
      else q % size_t_mod in
    if divides a b then some r else none

-- `a % b`, with the sign of a.
unfoldable pub int_mod : ℕ → ℕ → Option ℕ
unfolding int_neg
int_mod a b =
    let q = magnitude a % magnitude b in
    let r = if is_negative a then int_neg q else q % size_t_mod in
    if divides a b then some r else none

pub data EventData (D : Double) : Type 0 where
  int : ℕ → EventData D
  float : D.Carrier → EventData D
  string : String → EventData D

module _ (D : Double) where
  unfoldable pub nan : EventData D
  nan = float D.nan

  unfoldable pub equals : EventData D → EventData D → Bool
  equals (int i) (int j) = i == j
  equals (float d) (float e) = D.eq d e
  equals (string s) (string t) = str_eq s t
  equals _ _ = false

  unfoldable pub leq : EventData D → EventData D → Bool
  unfolding int_leq
  leq (int i) (int j) = int_leq i j
  leq (int i) (float e) = D.leq (D.of_int i) e
  leq (int i) (string t) = false
  leq (float d) (int j) = D.leq d (D.of_int j)
  leq (float d) (float e) = D.leq d e
  leq (float d) (string t) = false
  leq (string s) (string t) = is_le (compare_str s t)
  leq (string s) _ = false

  unfoldable pub less : EventData D → EventData D → Bool
  unfolding leq
  less a b = leq a b && not (leq b a)

  unfoldable pub greater : EventData D → EventData D → Bool
  unfolding leq
  greater a b = not (leq a b)

  unfoldable pub apply_arith_bin_op :
      (ℕ → ℕ → Option ℕ)
      → (D.Carrier → D.Carrier → D.Carrier)
      → EventData D
      → EventData D
      → Option (EventData D)
  unfolding nan
  apply_arith_bin_op f g (int i) (int j) = elim (f i j) [ none ↦ none | some k ↦ some (int k) ]
  apply_arith_bin_op f g (int i) (float e) = some (float (g (D.of_int i) e))
  apply_arith_bin_op f g (float d) (int j) = some (float (g d (D.of_int j)))
  apply_arith_bin_op f g (float d) (float e) = some (float (g d e))
  apply_arith_bin_op f g _ _ = some nan

  unfoldable pub plus : EventData D → EventData D → Option (EventData D)
  unfolding apply_arith_bin_op int_add
  plus = apply_arith_bin_op (λ i j. some (int_add i j)) D.add

  unfoldable pub minus : EventData D → EventData D → Option (EventData D)
  unfolding apply_arith_bin_op int_sub
  minus = apply_arith_bin_op (λ i j. some (int_sub i j)) D.sub

  unfoldable pub times : EventData D → EventData D → Option (EventData D)
  unfolding apply_arith_bin_op int_mul
  times = apply_arith_bin_op (λ i j. some (int_mul i j)) D.mul

  unfoldable pub divide : EventData D → EventData D → Option (EventData D)
  unfolding apply_arith_bin_op int_div
  divide = apply_arith_bin_op int_div D.div

  unfoldable pub modulo : EventData D → EventData D → Option (EventData D)
  unfolding nan int_mod
  modulo (int i) (int j) = elim (int_mod i j) [ none ↦ none | some k ↦ some (int k) ]
  modulo _ _ = some nan

  unfoldable pub uminus : EventData D → EventData D
  unfolding nan int_neg
  uminus (int i) = int (int_neg i)
  uminus (float d) = float (D.neg d)
  uminus (string s) = nan

  unfoldable pub to_double : EventData D → D.Carrier
  to_double (int i) = D.of_int i
  to_double (float d) = d
  to_double (string s) = D.nan

  unfoldable pub int_to_float : EventData D → Option (EventData D)
  int_to_float (int i) = some (float (D.of_int i))
  int_to_float _ = none

  unfoldable pub float_to_int : EventData D → Option (EventData D)
  float_to_int (float d) = some (int (D.to_int d))
  float_to_int _ = none

  unfoldable pub get_if_int : EventData D → Option ℕ
  get_if_int (int i) = some i
  get_if_int _ = none

  -- compat_less: NaN is below every other double.
  unfoldable pub compat_less : EventData D → EventData D → Bool
  unfolding less leq
  compat_less (float d) (float e) =
      if not (D.eq d d)
      then D.eq e e
      else if not (D.eq e e)
      then false
      else D.leq d e && not (D.leq e d)
  compat_less a b = less a b
