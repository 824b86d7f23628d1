-- ===== src/Formula/Values.antt =====
-- src/formula.cpp and src/common/event_data.cpp: the readers from JSON of numbers, intervals, kinds of
-- aggregation and event data, and the names of the forms of terms and formulas. The chain of
-- comparisons with the name of a form is a function of its own.
use Prim.Native.String.{String}
use text.Mathlib.Text.{◌==◌ as str_eq}
use cppmon.Shared.{ℕ, true, false, Option, none, some, if◌then◌else◌}
use cppmon.Interval.{Interval}
use cppmon.EventData.{Double, EventData, int, float, string}
use cppmon.Formula.{AggType, agg_cnt, agg_min, agg_max, agg_sum, agg_avg, agg_med}
use cppmon.Json.{Json, Read, ok, thrown, and_then, or_throw}

-- The forms that a term can have in a document.
pub data TermForm : Type 0 where
  var_form const_form plus_form minus_form mult_form div_form mod_form f2i_form i2f_form : TermForm

unfoldable pub term_form : String → Option TermForm
term_form s =
    if str_eq s "Var"
    then some var_form
    else if str_eq s "Const"
    then some const_form
    else if str_eq s "Plus"
    then some plus_form
    else if str_eq s "Minus"
    then some minus_form
    else if str_eq s "Mult"
    then some mult_form
    else if str_eq s "Div"
    then some div_form
    else if str_eq s "Mod"
    then some mod_form
    else if str_eq s "F2i"
    then some f2i_form
    else if str_eq s "I2f"
    then some i2f_form
    else none

pub data FormulaForm : Type 0 where
  pred_form eq_form less_form less_eq_form neg_form or_form and_form exists_form prev_form :
      FormulaForm
  next_form since_form until_form agg_form let_form tp_form ts_form tpts_form : FormulaForm

unfoldable pub formula_form : String → Option FormulaForm
formula_form s =
    if str_eq s "Pred"
    then some pred_form
    else if str_eq s "Eq"
    then some eq_form
    else if str_eq s "Less"
    then some less_form
    else if str_eq s "LessEq"
    then some less_eq_form
    else if str_eq s "Neg"
    then some neg_form
    else if str_eq s "Or"
    then some or_form
    else if str_eq s "And"
    then some and_form
    else if str_eq s "Exists"
    then some exists_form
    else if str_eq s "Prev"
    then some prev_form
    else if str_eq s "Next"
    then some next_form
    else if str_eq s "Since"
    then some since_form
    else if str_eq s "Until"
    then some until_form
    else if str_eq s "Agg"
    then some agg_form
    else if str_eq s "Let"
    then some let_form
    else if str_eq s "TP"
    then some tp_form
    else if str_eq s "TS"
    then some ts_form
    else if str_eq s "TPTS"
    then some tpts_form
    else none

unfoldable pub agg_type_of : String → Option AggType
agg_type_of s =
    if str_eq s "Agg_Cnt"
    then some agg_cnt
    else if str_eq s "Agg_Min"
    then some agg_min
    else if str_eq s "Agg_Max"
    then some agg_max
    else if str_eq s "Agg_Sum"
    then some agg_sum
    else if str_eq s "Agg_Avg"
    then some agg_avg
    else if str_eq s "Agg_Med"
    then some agg_med
    else none

module _ (D : Double) (J : Json D) where
  -- `j.at(i).get<string_view>()`
  unfoldable pub string_at : ℕ → J.Carrier → Read String
  string_at i j = and_then (or_throw (J.at i j)) λ c. or_throw (J.get_string c)

  unfoldable pub agg_type_from_json : J.Carrier → Read AggType
  unfolding string_at agg_type_of
  agg_type_from_json j = and_then (string_at 0 j) λ s. or_throw (agg_type_of s)

  unfoldable pub nat_from_json : J.Carrier → Read ℕ
  unfolding string_at
  nat_from_json j = and_then (string_at 0 j) λ s.
      if str_eq s "Nat"
      then and_then (or_throw (J.at 1 j)) (λ c. or_throw (J.get_size c))
      else thrown

  unfoldable pub enat_from_json : J.Carrier → Read (Option ℕ)
  unfolding string_at nat_from_json
  enat_from_json j = and_then (string_at 0 j) λ s.
      if str_eq s "Enat"
      then and_then (or_throw (J.at 1 j)) (λ c. and_then (nat_from_json c) λ n. ok (some n))
      else if str_eq s "Infinity_enat"
      then ok none
      else thrown

  abbrev pub with_upper : ℕ → Option ℕ → Interval
  with_upper l (some u) = record { l = l; u = u; bounded = true }
  with_upper l none = record { l = l; u = 0; bounded = false }

  unfoldable pub inter_from_json : J.Carrier → Read Interval
  unfolding nat_from_json enat_from_json
  inter_from_json j = and_then (or_throw (J.at 0 j)) λ a.
      and_then (nat_from_json a) λ l.
        and_then (or_throw (J.at 1 j)) λ b. and_then (enat_from_json b) λ u. ok (with_upper l u)

  unfoldable pub data_from_json : J.Carrier → Read (EventData D)
  unfolding string_at
  data_from_json j = and_then (string_at 0 j) λ s.
      if str_eq s "EInt"
      then and_then (or_throw (J.at 1 j)) (λ c. and_then (or_throw (J.get_int c)) λ i. ok (int i))
      else if str_eq s "EFloat"
      then and_then (or_throw (J.at 1 j))
          (λ c. and_then (or_throw (J.get_double c)) λ d. ok (float d))
      else if str_eq s "EString"
      then and_then (or_throw (J.at 1 j))
          (λ c. and_then (or_throw (J.get_string c)) λ t. ok (string t))
      else thrown
