-- ===== src/Formula/Preds.antt =====
-- src/formula.cpp: the numbers that predicates get by their name and arity (add_pred_to_map), and the
-- constructors that use them. The static members known_preds and pred_id_counter are a state that is
-- passed on; the counter is a uint32 and wraps around.
pub mod Numbering
pub mod Calls
use Prim.Native.String.{String}
use text.Mathlib.Text.{◌==◌ as str_eq}
use text.Mathlib.TextEquality.{eq_iff}
use cppmon.Shared.{
  ℕ, zero, suc, ◌+◌, ◌%◌, ◌≤◌, ◌<◌, ◌≡◌, ◌≢◌, ◌↔◌, ◌⊎◌, inl, inr, refl, sym, subst, ap, Bool, true,
  false, not, ◌&&◌, Option, none, some, List, [], ◌∷◌, length, ◌==◌, arith, if◌then◌else◌,
  Option-cases, Bool-cases, ite,
}
use cppmon.Hash.{HashSet, HashMap, emplace, find-emplace}
use cppmon.Term.{Term}
use cppmon.Formula.{Formula, pred_t, let_t, fvs}

abbrev pub ts_pred : ℕ
ts_pred = 0

abbrev pub tp_pred : ℕ
tp_pred = 1

abbrev pub tp_ts_pred : ℕ
tp_ts_pred = 2

abbrev pub user_pred : ℕ
user_pred = 3

-- 2 ^ 32: the values of a pred_id_t are below it.
abbrev pub pred_id_mod : ℕ
pred_id_mod = 4294967296

-- The number for a name and arity that is no built-in one, and the counter after it.
unfoldable pub user_pred_id : Option ℕ → ℕ → ℕ × ℕ
user_pred_id none counter = (counter, (counter + 1) % pred_id_mod)
user_pred_id (some pred_id) counter = (pred_id, counter)

module _ (M : HashMap (String × ℕ) ℕ) where
  pub record PredState : Type 0 where
    pub known_preds : M.Carrier
    pub pred_id_counter : ℕ

  unfoldable pub initial_preds : PredState
  initial_preds = record { known_preds = M.empty; pred_id_counter = user_pred }

  unfoldable pub choose_pred_id : String → ℕ → PredState → ℕ × ℕ
  unfolding user_pred_id
  choose_pred_id pred_name arity st =
      if str_eq pred_name "tp" && arity == 1
      then (tp_pred, st.pred_id_counter)
      else if str_eq pred_name "ts" && arity == 1
      then (ts_pred, st.pred_id_counter)
      else if str_eq pred_name "tpts" && arity == 2
      then (tp_ts_pred, st.pred_id_counter)
      else user_pred_id (M.find (pred_name, arity) st.known_preds) st.pred_id_counter

  unfoldable pub add_pred_to_map : String → ℕ → PredState → ℕ × PredState
  unfolding choose_pred_id emplace
  add_pred_to_map pred_name arity st =
      let (pred_id, counter) = choose_pred_id pred_name arity st in
      (
        pred_id,
        record {
          known_preds = emplace M (pred_name, arity) pred_id st.known_preds;
          pred_id_counter = counter;
        },
      )

  module _ {E : Type 0} where
    unfoldable pub pred : String → List (Term E) → Bool → PredState → Formula E × PredState
    unfolding add_pred_to_map
    pred pred_name pred_args is_builtin st =
        let (pred_id, st2) = add_pred_to_map pred_name (length pred_args) st in
        (pred_t pred_id pred_args is_builtin, st2)

    unfoldable pub let_in :
        HashSet ℕ → String → Formula E → Formula E → PredState → Formula E × PredState
    unfolding add_pred_to_map fvs
    let_in S pred_name phi psi st =
        let (pred_id, st2) = add_pred_to_map pred_name (length (S.to_list (fvs S phi))) st in
        (let_t pred_id phi psi, st2)
