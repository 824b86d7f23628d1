-- ===== src/Tests/Fused.antt =====
-- The operations on rows of src/monitor.cpp at small layouts and tables.
use cppmon.Shared.{
  ℕ, suc, ◌≡◌, refl, inl, inr, false, none, some, [], ◌∷◌, ◌++◌, map, arith, In, Distinct,
}
use cppmon.EventData.{EventData, int, plus}
use cppmon.Layout.{TableLayout}
use cppmon.Term.{Term, const_t, var_t, plus_t, bind}
use cppmon.Term.Free.{Occurs}
use cppmon.Monitor.Fused.{
  MFusedUnaryOps, and_assign, and_rel, exists, cst_eq, combine_fused_state, fused_tab, op_eval,
}
use cppmon.Monitor.Fused.Fusion.{SameResult, combine_fused_state_lem}
use cppmon.Monitor.Layouts.{drop_idx, exists_layout, get_sparse_var_2_idx}
use cppmon.Monitor.Layouts.Exists.{exists_layout_lem}
use cppmon.Monitor.Layouts.Sparse.{term_value, and_assign_lem}
use cppmon.Tests.Documents.{whole}
use cppmon.Tests.Aggregates.{tuples, logins}

-- The rows with 5 in the first column.
abbrev fives : MFusedUnaryOps (EventData whole)
fives = record {
  un_ops = and_rel (0 ∷ 1 ∷ []) (var_t 0) (const_t (int 5)) cst_eq false ∷ [];
  nfvs = 2;
}

combine_fused_state_lem_example :
    SameResult whole tuples
      (fused_tab whole tuples
        (combine_fused_state (exists (some 0)) (0 ∷ []) (some fives))
        (some logins))
      (bind
        (fused_tab whole tuples fives (some logins))
        (fused_tab whole tuples (combine_fused_state (exists (some 0)) (0 ∷ []) none)))
combine_fused_state_lem_example =
    combine_fused_state_lem whole tuples (exists (some 0)) (0 ∷ []) fives (some logins)

-- The value of variable n is n.
abbrev itself : ℕ → EventData whole
itself n = int n

abbrev three : TableLayout
three = 2 ∷ 0 ∷ 1 ∷ []

three-Distinct : Distinct three
three-Distinct = ground arith

abbrev two : TableLayout
two = 4 ∷ 2 ∷ []

two-Distinct : Distinct two
two-Distinct = ground arith

exists_layout_lem_example :
    op_eval whole (exists (drop_idx three)) (map itself three)
    ≡ some (some (map (λ v. itself (suc v)) (exists_layout three)))
exists_layout_lem_example =
    exists_layout_lem whole itself three three-Distinct
      (omega arith, (omega arith, (omega arith, tt)))

abbrev sum : Term (EventData whole)
sum = plus_t (var_t 2) (const_t (int 3))

sum-In : (v : ℕ) → Occurs v sum → In v two
sum-In v (inl e) = inr (inl e)
sum-In v (inr e) = absurd e

sum_value : term_value whole itself sum ≡ some (itself 5)
unfolding term_value plus
sum_value = refl

and_assign_lem_example :
    op_eval whole (and_assign (get_sparse_var_2_idx two) sum) (map itself two)
    ≡ some (some (map itself (two ++ (5 ∷ []))))
and_assign_lem_example = and_assign_lem whole itself sum two 5 two-Distinct sum-In sum_value
