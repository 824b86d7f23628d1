-- ===== src/Tests/Formulas.antt =====
-- Terms and formulas at concrete instances: whole numbers for the doubles, lists for sets and maps.
use Prim.Native.String.{String}
use text.Mathlib.Text.{◌==◌ as str_eq}
use text.Mathlib.TextEquality.{eq_iff}
use cppmon.Shared.{
  ℕ, ◌≡◌, ◌≢◌, ◌↔◌, ap, ap₂, refl, inl, inr, Bool, true, false, [], ◌∷◌, ℕ_discrete, arith,
  Bool-cases,
}
use cppmon.Hash.{HashSet, HashMap}
use cppmon.Hash.ListSet.{list_set}
use cppmon.Hash.ListMap.{list_map}
use cppmon.Interval.{Interval}
use cppmon.EventData.{EventData, int}
use cppmon.Term.{Term, var_t, const_t, plus_t, div_t}
use cppmon.Term
use cppmon.Formula.{Formula, pred_t, eq_t, and_t, exists_t, neg_t, prev_t, fvi}
use cppmon.Formula.Free.{IsFree, fvi-IsFree}
use cppmon.Formula.Equality.{equals}
use cppmon.Formula.Equality.Meaning.{normal, equals-normal}
use cppmon.Formula.Safe.{is_safe_formula}
use cppmon.Formula.Preds.{initial_preds, add_pred_to_map}
use cppmon.Formula.Preds.Calls.{done, add_pred_to_map-distinct}
use cppmon.Formula.Reader.{term_from_json, from_json}
use cppmon.Formula.Reader.Terms.{write_term, form, term_from_json-write_term}
use cppmon.Formula.Reader.Total.{from_json-Reads}
use cppmon.Json.{ok, out_of_fuel}
use cppmon.Tests.Documents.{whole, trees}

abbrev vars : HashSet ℕ
vars = list_set ℕ_discrete

-- ∃ x. P(x, y) ∧ ¬ (y = 3)
abbrev some_x : Formula (EventData whole)
some_x =
    exists_t
      (and_t (pred_t 3 (var_t 0 ∷ var_t 1 ∷ []) false) (neg_t (eq_t (var_t 1) (const_t (int 3)))))

fvi-IsFree_example : (vars.contains 0 (fvi vars some_x 0) ≡ true) ↔ IsFree 0 some_x
fvi-IsFree_example = fvi-IsFree vars some_x 0 0

accepted : is_safe_formula vars some_x ≡ true
unfolding is_safe_formula ℕ_discrete
accepted = refl

abbrev since_now : Interval
since_now = record { l = 0; u = 5; bounded = false }

abbrev since_start : Interval
since_start = record { l = 0; u = 9; bounded = false }

equals-normal_example :
    (equals whole (prev_t since_now some_x) (prev_t since_start some_x) ≡ true)
    ↔ (normal (prev_t since_now some_x) ≡ normal (prev_t since_start some_x))
equals-normal_example =
    equals-normal whole (prev_t since_now some_x) (prev_t since_start some_x)
      ((tt, (tt, tt)), (tt, tt))

-- (x + 5) / 2
abbrev half : Term (EventData whole)
half = div_t (plus_t (var_t 0) (const_t (int 5))) (const_t (int 2))

keys_eq : Discrete (String × ℕ)
keys_eq (n, a) (m, b) = elim (ℕ_discrete a b) [
  | no f ↦ no (λ e. f (ap (λ (k : String × ℕ). k.1) e))
  | yes p ↦ elim (Bool-cases (str_eq n m)) [
    | inl t ↦ yes (ap₂ (λ (x : String) (y : ℕ). (x, y)) ((eq_iff n m).0 t) p)
    | inr f ↦ no (λ e. different f ((eq_iff n m).1 (ap (λ (k : String × ℕ). k.0) e)))
  ]
]
  where
    different : {b : Bool} → b ≡ false → b ≡ true → ⊥
    different e f = cc

abbrev known : HashMap (String × ℕ) ℕ
known = list_map keys_eq

add_pred_to_map-distinct_example :
    ((add_pred_to_map known "login" 1 (initial_preds known)).0
      ≡ (add_pred_to_map known "logout" 1
          (add_pred_to_map known "login" 1 (initial_preds known)).1).0)
    ↔ (Path (String × ℕ) ("login", 1) ("logout", 1))
add_pred_to_map-distinct_example =
    add_pred_to_map-distinct known "login" "logout" 1 1 done done (omega arith)

term_from_json-write_term_example :
    term_from_json whole trees 3 (write_term whole trees half) ≡ ok half
term_from_json-write_term_example =
    term_from_json-write_term whole trees 3 half ((omega arith, omega arith), omega arith)
      (omega arith)

abbrev document : trees.Carrier
document =
    form whole trees "Eq" (write_term whole trees half ∷ write_term whole trees (var_t 0) ∷ [])

from_json-Reads_example :
    from_json whole trees vars known 9 document (initial_preds known) ≢ out_of_fuel
from_json-Reads_example =
    from_json-Reads whole trees vars known 9 document (initial_preds known) (omega arith)
