-- ===== src/Formula/Reader.antt =====
-- src/formula.cpp: the readers of terms and formulas from JSON, by cases on the form that a document
-- names. The readers recurse on fuel. The arguments of a constructor are read from left to right, an order that
-- the language leaves open; an exception ends the program.
pub mod Terms
pub mod Total
pub mod Errors
use Prim.Native.String.{String}
use text.Mathlib.Text.{◌==◌ as str_eq}
use cppmon.Shared.{
  ℕ, zero, suc, Bool, true, false, not, Option, none, some, List, [], ◌∷◌, if◌then◌else◌,
}
use cppmon.Hash.{HashSet, HashMap}
use cppmon.Interval.{Interval}
use cppmon.EventData.{Double, EventData, int, float, string}
use cppmon.Term.{Term, var_t, const_t, plus_t, minus_t, mult_t, div_t, mod_t, f2i_t, i2f_t}
use cppmon.Formula.{
  AggType, agg_cnt, agg_min, agg_max, agg_sum, agg_avg, agg_med, Formula, less_t, less_eq_t, eq_t,
  or_t, and_t, exists_t, prev_t, next_t, since_t, until_t, neg_t, agg_t,
}
use cppmon.Formula.Preds.{PredState, pred, let_in}
use cppmon.Formula.Values.{
  TermForm, var_form, const_form, plus_form, minus_form, mult_form, div_form, mod_form, f2i_form,
  i2f_form, term_form, FormulaForm, pred_form, eq_form, less_form, less_eq_form, neg_form, or_form,
  and_form, exists_form, prev_form, next_form, since_form, until_form, agg_form, let_form, tp_form,
  ts_form, tpts_form, formula_form, string_at, agg_type_from_json, nat_from_json, inter_from_json,
  data_from_json,
}
use cppmon.Json.{Json, Read, ok, thrown, out_of_fuel, and_then, or_throw}

module _ (D : Double) (J : Json D) where
  -- The term of a form, with `sub` to read the term at an index.
  unfoldable pub term_of :
      TermForm → (ℕ → Read (Term (EventData D))) → J.Carrier → Read (Term (EventData D))
  unfolding nat_from_json data_from_json
  term_of var_form sub j =
      and_then (or_throw (J.at 1 j)) λ c. and_then (nat_from_json D J c) λ i. ok (var_t i)
  term_of const_form sub j =
      and_then (or_throw (J.at 1 j)) λ c. and_then (data_from_json D J c) λ d. ok (const_t d)
  term_of plus_form sub j = and_then (sub 1) λ l. and_then (sub 2) λ r. ok (plus_t l r)
  term_of minus_form sub j = and_then (sub 1) λ l. and_then (sub 2) λ r. ok (minus_t l r)
  term_of mult_form sub j = and_then (sub 1) λ l. and_then (sub 2) λ r. ok (mult_t l r)
  term_of div_form sub j = and_then (sub 1) λ l. and_then (sub 2) λ r. ok (div_t l r)
  term_of mod_form sub j = and_then (sub 1) λ l. and_then (sub 2) λ r. ok (mod_t l r)
  term_of f2i_form sub j = and_then (sub 1) λ t. ok (f2i_t t)
  term_of i2f_form sub j = and_then (sub 1) λ t. ok (i2f_t t)

  unfoldable pub term_from_json : ℕ → J.Carrier → Read (Term (EventData D))
  unfolding term_of string_at term_form
  term_from_json zero j = out_of_fuel
  term_from_json (suc fuel) j = and_then (string_at D J 0 j) λ s.
      and_then (or_throw (term_form s))
        λ form. term_of form (λ i. and_then (or_throw (J.at i j)) λ c. term_from_json fuel c) j

  unfoldable pub terms_from_json : ℕ → List J.Carrier → Read (List (Term (EventData D)))
  unfolding term_from_json
  terms_from_json fuel [] = ok []
  terms_from_json fuel (c ∷ cs) =
      and_then (term_from_json fuel c) λ t. and_then (terms_from_json fuel cs) λ ts. ok (t ∷ ts)

  -- The fields of an aggregation but for its formula.
  pub record AggFields : Type 0 where
    pub res_var : ℕ
    pub ty : AggType
    pub default_value : EventData D
    pub num_bound_vars : ℕ
    pub agg_term : Term (EventData D)

  unfoldable pub agg_fields : ℕ → J.Carrier → Read AggFields
  unfolding nat_from_json agg_type_from_json data_from_json term_from_json
  agg_fields fuel j = and_then (or_throw (J.at 1 j)) λ a. and_then (nat_from_json D J a) λ res_var.
      and_then (or_throw (J.at 2 j)) λ b. and_then (or_throw (J.at 0 b)) λ b0.
        and_then (agg_type_from_json D J b0) λ ty. and_then (or_throw (J.at 1 b)) λ b1.
          and_then (data_from_json D J b1) λ default_value. and_then (or_throw (J.at 3 j)) λ c.
            and_then (nat_from_json D J c) λ num_bound_vars. and_then (or_throw (J.at 4 j)) λ d.
              and_then (term_from_json fuel d) λ agg_term. ok (record {
                res_var = res_var;
                ty = ty;
                default_value = default_value;
                num_bound_vars = num_bound_vars;
                agg_term = agg_term;
              })

  module _ (S : HashSet ℕ) (M : HashMap (String × ℕ) ℕ) where
    -- What a reader of formulas does: the result and the numbering of the predicates after it.
    abbrev pub Reader : Type 0
    Reader = PredState M → Read (Formula (EventData D) × PredState M)

    abbrev pub return : Formula (EventData D) → Reader
    return phi st = ok (phi, st)

    -- `json_formula.at(i)`, read as a term, an interval, or a formula.
    abbrev pub term_at : ℕ → J.Carrier → ℕ → (Term (EventData D) → Reader) → Reader
    term_at fuel j i k st =
        and_then (or_throw (J.at i j)) λ c. and_then (term_from_json fuel c) λ t. k t st

    abbrev pub inter_at : J.Carrier → ℕ → (Interval → Reader) → Reader
    inter_at j i k st =
        and_then (or_throw (J.at i j)) λ c. and_then (inter_from_json D J c) λ inter. k inter st

    abbrev pub sub_then : (ℕ → Reader) → ℕ → (Formula (EventData D) → Reader) → Reader
    sub_then sub i k st = and_then (sub i st) λ r. k r.0 r.1

    -- The formula of a form, with `sub` to read the formula at an index.
    unfoldable pub formula_of : FormulaForm → ℕ → (ℕ → Reader) → J.Carrier → Reader
    unfolding string_at terms_from_json term_from_json inter_from_json agg_fields pred let_in
    formula_of pred_form fuel sub j st = and_then (string_at D J 1 j) λ name.
        and_then (or_throw (J.at 2 j))
          λ c. and_then (terms_from_json fuel (J.elements c)) λ args. ok (pred M name args false st)
    formula_of eq_form fuel sub j st =
        (term_at fuel j 1 λ l. term_at fuel j 2 λ r. return (eq_t l r)) st
    formula_of less_form fuel sub j st =
        (term_at fuel j 1 λ l. term_at fuel j 2 λ r. return (less_t l r)) st
    formula_of less_eq_form fuel sub j st =
        (term_at fuel j 1 λ l. term_at fuel j 2 λ r. return (less_eq_t l r)) st
    formula_of neg_form fuel sub j st = (sub_then sub 1 λ phi. return (neg_t phi)) st
    formula_of or_form fuel sub j st =
        (sub_then sub 1 λ l. sub_then sub 2 λ r. return (or_t l r)) st
    formula_of and_form fuel sub j st =
        (sub_then sub 1 λ l. sub_then sub 2 λ r. return (and_t l r)) st
    formula_of exists_form fuel sub j st = (sub_then sub 1 λ phi. return (exists_t phi)) st
    formula_of prev_form fuel sub j st =
        (inter_at j 1 λ i. sub_then sub 2 λ phi. return (prev_t i phi)) st
    formula_of next_form fuel sub j st =
        (inter_at j 1 λ i. sub_then sub 2 λ phi. return (next_t i phi)) st
    formula_of since_form fuel sub j st =
        (inter_at j 2 λ i. sub_then sub 1 λ l. sub_then sub 3 λ r. return (since_t i l r)) st
    formula_of until_form fuel sub j st =
        (inter_at j 2 λ i. sub_then sub 1 λ l. sub_then sub 3 λ r. return (until_t i l r)) st
    formula_of agg_form fuel sub j st = and_then (agg_fields fuel j) λ a.
        sub_then sub 5
          (λ phi. return (agg_t a.ty a.res_var a.num_bound_vars a.default_value a.agg_term phi)) st
    formula_of let_form fuel sub j st = and_then (string_at D J 1 j) λ name.
        sub_then sub 2 (λ phi. sub_then sub 3 λ psi st2. ok (let_in M S name phi psi st2)) st
    formula_of tp_form fuel sub j st =
        (term_at fuel j 1 λ t st. ok (pred M "tp" (t ∷ []) true st)) st
    formula_of ts_form fuel sub j st =
        (term_at fuel j 1 λ t st. ok (pred M "ts" (t ∷ []) true st)) st
    formula_of tpts_form fuel sub j st =
        (term_at fuel j 1 λ t. term_at fuel j 2 λ u st. ok (pred M "tpts" (t ∷ u ∷ []) true st)) st

    unfoldable pub from_json : ℕ → J.Carrier → Reader
    unfolding formula_of string_at formula_form
    from_json zero j st = out_of_fuel
    from_json (suc fuel) j st =
        if not (J.is_array j)
        then thrown
        else and_then (string_at D J 0 j) λ s. and_then (or_throw (formula_form s)) λ form.
          formula_of form fuel (λ i st2. and_then (or_throw (J.at i j)) λ c. from_json fuel c st2) j
            st
