-- ===== src/Monitor/Layouts/Sparse.antt =====
-- get_sparse_var_2_idx: the positions that terms read in the rows of a layout.
use mathlib.Core.List.{map-append}
use cppmon.Shared.{
  ℕ, zero, suc, ◌+◌, ◌<◌, ◌≤◌, ◌≡◌, refl, ap, ap₂, Option, some, inl, inr, List, [], ◌∷◌, ◌++◌, map,
  length, ◌==◌, if◌then◌else◌, arith, In, Distinct,
}
use cppmon.EventData.{
  Double, EventData, plus, minus, times, divide, modulo, uminus, int_to_float, float_to_int,
}
use cppmon.Layout.{TableLayout}
use cppmon.Layout.Position.{elem, index, In-of_elem, elem-of_In}
use cppmon.Term
use cppmon.Term.{
  Term, get_elem?, bind, both, const_t, var_t, plus_t, minus_t, uminus_t, mult_t, div_t, mod_t,
  f2i_t, i2f_t,
}
use cppmon.Term.Free.{Occurs}
use cppmon.Term.Evaluation.{value_at}
use cppmon.Monitor.Fused.{and_assign, op_eval}
use cppmon.Monitor.Layouts.{set_at, zeros, max_element, res_size, fill_idx, get_sparse_var_2_idx}

length-set_at : (xs : List ℕ) (i x : ℕ) → length (set_at xs i x) ≡ length xs
unfolding set_at
length-set_at [] i x = refl
length-set_at (y ∷ xs) zero x = refl
length-set_at (y ∷ xs) (suc i) x = ap suc (length-set_at xs i x)

get-set_at :
    (xs : List ℕ) (i k x : ℕ)
    → i < length xs
    → get_elem? (set_at xs i x) k ≡ (if i == k then some x else get_elem? xs k)
unfolding set_at
get-set_at [] i k x lt = absurd (omega arith)
get-set_at (y ∷ xs) zero zero x lt = refl
get-set_at (y ∷ xs) zero (suc k) x lt = ground arith
get-set_at (y ∷ xs) (suc i) zero x lt = ground arith
get-set_at (y ∷ xs) (suc i) (suc k) x lt = ground (arith, get-set_at xs i k x)

length-zeros : (n : ℕ) → length (zeros n) ≡ n
unfolding zeros
length-zeros zero = refl
length-zeros (suc n) = omega (arith, length-zeros n)

In-le_max : (v : ℕ) (lay : TableLayout) → In v lay → v ≤ max_element lay
unfolding max_element
In-le_max v [] i = absurd i
In-le_max v (x ∷ lay) (inl e) = omega (arith, e)
In-le_max v (x ∷ lay) (inr i) = omega (arith, In-le_max v lay i)

In-lt_size : (v : ℕ) (lay : TableLayout) → In v lay → v < res_size lay
unfolding res_size
In-lt_size v [] i = absurd i
In-lt_size v (x ∷ lay) i = omega (arith, In-le_max v (x ∷ lay) i)

get-fill_idx :
    (v i : ℕ) (lay : TableLayout) (acc : List ℕ)
    → Distinct lay
    → ((w : ℕ) → In w lay → w < length acc)
    → get_elem? (fill_idx i lay acc) v
      ≡ (if elem v lay then some (i + index v lay) else get_elem? acc v)
unfolding fill_idx
get-fill_idx v i [] acc d f = refl
get-fill_idx v i (x ∷ lay) acc (n, d) f = ground (
  arith,
  get-fill_idx v (suc i) lay (set_at acc x i) d
      (λ w j. omega (arith, f w (inr j), length-set_at acc x i)),
  get-set_at acc x v i (f x (inl refl)),
  In-of_elem v lay,
  n,
)

get-get_sparse_var_2_idx :
    (v : ℕ) (lay : TableLayout)
    → Distinct lay
    → In v lay
    → get_elem? (get_sparse_var_2_idx lay) v ≡ some (index v lay)
unfolding get_sparse_var_2_idx
get-get_sparse_var_2_idx v lay d i = ground (
  arith,
  get-fill_idx v 0 lay (zeros (res_size lay)) d
      (λ w j. omega (arith, In-lt_size w lay j, length-zeros (res_size lay))),
  elem-of_In v lay i,
)

get-index :
    {E : Type 0} (val : ℕ → E) (v : ℕ) (lay : TableLayout)
    → In v lay
    → get_elem? (map val lay) (index v lay) ≡ some (val v)
get-index val v [] i = absurd i
get-index val v (x ∷ lay) (inl e) = ground (arith, e, ap val e)
get-index val v (x ∷ lay) (inr i) = ground (arith, get-index val v lay i)

module _ (D : Double) where
  -- A variable of the layout has the value that the row gives it.
  value-get_sparse_var_2_idx :
      (val : ℕ → EventData D) (v : ℕ) (lay : TableLayout)
      → Distinct lay
      → In v lay
      → value_at D (get_sparse_var_2_idx lay) (map val lay) v ≡ some (val v)
  value-get_sparse_var_2_idx val v lay d i =
      rw (get-get_sparse_var_2_idx v lay d i) (get-index val v lay i)

  -- The value of a term under values for its variables.
  unfoldable pub term_value : (ℕ → EventData D) → Term (EventData D) → Option (EventData D)
  unfolding Term.eval
  term_value val (const_t c) = some c
  term_value val (var_t i) = some (val i)
  term_value val (plus_t l r) = both (plus D) (term_value val l) (term_value val r)
  term_value val (minus_t l r) = both (minus D) (term_value val l) (term_value val r)
  term_value val (uminus_t t) = bind (term_value val t) λ v. some (uminus D v)
  term_value val (mult_t l r) = both (times D) (term_value val l) (term_value val r)
  term_value val (div_t l r) = both (divide D) (term_value val l) (term_value val r)
  term_value val (mod_t l r) = both (modulo D) (term_value val l) (term_value val r)
  term_value val (f2i_t t) = bind (term_value val t) λ v. float_to_int D v
  term_value val (i2f_t t) = bind (term_value val t) λ v. int_to_float D v

  -- A term whose variables are in the layout has, on a row that gives them their values, read at
  -- the positions of get_sparse_var_2_idx, its value under them.
  eval-term_value :
      (val : ℕ → EventData D) (t : Term (EventData D)) (lay : TableLayout)
      → Distinct lay
      → ((v : ℕ) → Occurs v t → In v lay)
      → Term.eval D t (get_sparse_var_2_idx lay) (map val lay) ≡ term_value val t
  unfolding Term.eval term_value
  eval-term_value val (const_t c) lay d o = refl
  eval-term_value val (var_t i) lay d o = value-get_sparse_var_2_idx val i lay d (o i refl)
  eval-term_value val (uminus_t t) lay d o =
      ap (λ r. bind r λ v. some (uminus D v)) (eval-term_value val t lay d o)
  eval-term_value val (f2i_t t) lay d o =
      ap (λ r. bind r λ v. float_to_int D v) (eval-term_value val t lay d o)
  eval-term_value val (i2f_t t) lay d o =
      ap (λ r. bind r λ v. int_to_float D v) (eval-term_value val t lay d o)
  eval-term_value val (plus_t l r) lay d o =
      ap₂ (both (plus D)) (eval-term_value val l lay d (λ v i. o v (inl i)))
        (eval-term_value val r lay d (λ v i. o v (inr i)))
  eval-term_value val (minus_t l r) lay d o =
      ap₂ (both (minus D)) (eval-term_value val l lay d (λ v i. o v (inl i)))
        (eval-term_value val r lay d (λ v i. o v (inr i)))
  eval-term_value val (mult_t l r) lay d o =
      ap₂ (both (times D)) (eval-term_value val l lay d (λ v i. o v (inl i)))
        (eval-term_value val r lay d (λ v i. o v (inr i)))
  eval-term_value val (div_t l r) lay d o =
      ap₂ (both (divide D)) (eval-term_value val l lay d (λ v i. o v (inl i)))
        (eval-term_value val r lay d (λ v i. o v (inr i)))
  eval-term_value val (mod_t l r) lay d o =
      ap₂ (both (modulo D)) (eval-term_value val l lay d (λ v i. o v (inl i)))
        (eval-term_value val r lay d (λ v i. o v (inr i)))

  -- AndAssign on a row that gives the variables of a layout their values: when the term has the value
  -- of the new variable, the result is the row that gives the variables of the layout with the new
  -- one at its end their values. The layout has distinct variables, among them those of the term.
  pub and_assign_lem :
      (val : ℕ → EventData D) (t : Term (EventData D)) (lay : TableLayout) (new_var : ℕ)
      → Distinct lay
      → ((v : ℕ) → Occurs v t → In v lay)
      → (term_value val t ≡ some (val new_var))
      → op_eval D (and_assign (get_sparse_var_2_idx lay) t) (map val lay)
        ≡ some (some (map val (lay ++ (new_var ∷ []))))
  unfolding op_eval
  and_assign_lem val t lay new_var d o e =
      rw (eval-term_value val t lay d o, e, map-append val lay (new_var ∷ [])) refl
