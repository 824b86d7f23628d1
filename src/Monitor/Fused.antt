-- ===== src/Monitor/Fused.antt =====
-- src/monitor.h and src/monitor.cpp: MFusedUnaryOps, the operations on single rows that are run one
-- after the other (AndAssign, AndRel and Exists), and combine_fused_state. The outer `none` is an
-- evaluation of a term that throws or is undefined, the inner one a row that is not kept.
pub mod Fusion
use cppmon.Shared.{
  ℕ, zero, suc, ◌+◌, Bool, true, false, not, Option, none, some, List, [], ◌∷◌, ◌++◌, length,
  if◌then◌else◌,
}
use cppmon.Hash.{HashSet}
use cppmon.EventData
use cppmon.EventData.{Double, EventData, leq, less}
use cppmon.Layout.{TableLayout}
use cppmon.Table.{Table, OptTable, of_size, add_row, to_opt}
use cppmon.Term
use cppmon.Term.{Term, bind}

-- remove_col
unfoldable pub remove_col : {A : Type 0} → List A → ℕ → List A
remove_col [] col_idx = []
remove_col (x ∷ row) zero = row
remove_col (x ∷ row) (suc col_idx) = x ∷ remove_col row col_idx

pub data CstType : Type 0 where
  cst_eq : CstType
  cst_less : CstType
  cst_less_eq : CstType

-- The fields of AndAssign (without the number of columns, which no operation reads), AndRel and Exists.
pub data UnOp (E : Type 0) : Type 0 where
  and_assign : List ℕ → Term E → UnOp E
  and_rel : List ℕ → Term E → Term E → CstType → Bool → UnOp E
  exists : Option ℕ → UnOp E

pub record MFusedUnaryOps (E : Type 0) : Type 0 where
  pub un_ops : List (UnOp E)
  pub nfvs : ℕ

-- The next operation runs on a row that was kept.
abbrev pub continue {ℓ} :
    {R : Type ℓ} → Option (Option R) → (R → Option (Option R)) → Option (Option R)
continue none f = none
continue (some none) f = some none
continue (some (some row)) f = f row

-- combine_fused_state: the state below is a fused one, or another, which then stays below.
unfoldable pub combine_fused_state :
    {E : Type 0} → UnOp E → TableLayout → Option (MFusedUnaryOps E) → MFusedUnaryOps E
combine_fused_state inner_node this_layout (some ops) = record ops {
  un_ops = ops.un_ops ++ (inner_node ∷ []);
  nfvs = length this_layout;
}
combine_fused_state inner_node this_layout none = record {
  un_ops = inner_node ∷ [];
  nfvs = length this_layout;
}

module _ (D : Double) where
  unfoldable pub compare_values : CstType → EventData D → EventData D → Bool
  unfolding EventData.equals less leq
  compare_values cst_eq l_res r_res = EventData.equals D l_res r_res
  compare_values cst_less l_res r_res = less D l_res r_res
  compare_values cst_less_eq l_res r_res = leq D l_res r_res

  unfoldable pub and_rel_eval :
      CstType → Bool → EventData D → EventData D → List (EventData D) → Option (List (EventData D))
  unfolding compare_values
  and_rel_eval cst_type cst_neg l_res r_res row =
      let keep = compare_values cst_type l_res r_res in
      if (if cst_neg then not keep else keep) then some row else none

  unfoldable pub op_eval :
      UnOp (EventData D) → List (EventData D) → Option (Option (List (EventData D)))
  unfolding Term.eval and_rel_eval remove_col
  op_eval (and_assign var_2_idx t) row =
      bind (Term.eval D t var_2_idx row) λ t_eval. some (some (row ++ (t_eval ∷ [])))
  op_eval (and_rel var_2_idx l r cst_type cst_neg) row = bind (Term.eval D l var_2_idx row) λ l_res.
      bind (Term.eval D r var_2_idx row)
        λ r_res. some (and_rel_eval cst_type cst_neg l_res r_res row)
  op_eval (exists none) row = some (some row)
  op_eval (exists (some drop_idx)) row = some (some (remove_col row drop_idx))

  unfoldable pub run_ops :
      List (UnOp (EventData D)) → List (EventData D) → Option (Option (List (EventData D)))
  unfolding op_eval
  run_ops [] row = some (some row)
  run_ops (op ∷ ops) row = continue (op_eval op row) λ last_res. run_ops ops last_res

  module _ (S : HashSet (List (EventData D))) where
    unfoldable pub add_kept : Option (List (EventData D)) → Table S → Table S
    unfolding add_row
    add_kept none new_tab = new_tab
    add_kept (some last_res) new_tab = add_row S last_res new_tab

    unfoldable pub run_rows :
        List (UnOp (EventData D)) → List (List (EventData D)) → Table S → Option (Table S)
    unfolding run_ops add_kept
    run_rows ops [] new_tab = some new_tab
    run_rows ops (row ∷ rows) new_tab =
        bind (run_ops ops row) λ res. run_rows ops rows (add_kept res new_tab)

    unfoldable pub fused_tab : MFusedUnaryOps (EventData D) → OptTable S → Option (OptTable S)
    unfolding run_rows of_size to_opt
    fused_tab st none = some none
    fused_tab st (some tab) =
        bind (run_rows st.un_ops (S.to_list tab.rows) (of_size S st.nfvs))
          λ new_tab. some (to_opt S new_tab)

    -- MFusedUnaryOps::eval
    unfoldable pub fused_eval :
        MFusedUnaryOps (EventData D) → List (OptTable S) → Option (List (OptTable S))
    unfolding fused_tab
    fused_eval st [] = some []
    fused_eval st (tab ∷ rec_tabs) =
        bind (fused_tab st tab) λ res. bind (fused_eval st rec_tabs) λ rest. some (res ∷ rest)
