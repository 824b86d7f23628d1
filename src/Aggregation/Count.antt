-- ===== src/Aggregation/Count.antt =====
-- src/aggregation_impl.h and src/aggregation_impl.cpp: COUNT counts the rows of each group.
use cppmon.Shared.{
  ℕ, ◌+◌, ◌%◌, ◌<◌, ◌≡◌, ◌↔◌, refl, Bool, sym, ap, ◌∙◌, subst, none, some, List, [], ◌∷◌, ◌++◌,
  length, arith,
}
use cppmon.Hash.{HashSet, HashMap}
use cppmon.Interval.{size_t_mod}
use cppmon.EventData.{Double, EventData, int}
use cppmon.Table.{Table}
use cppmon.Table.Contents.{Holds}
use cppmon.Aggregation.{count_group, AggregationImpl, count_state, eval, eval_state}
use cppmon.Aggregation.Groups.{absorb, values, eval_groups-Holds}

some_injective : {m n : ℕ} → some m ≡ some n → m ≡ n
some_injective e = cc

module _ (D : Double) where
  absorb-count :
      (c : ℕ) (vs : List (EventData D))
      → c < size_t_mod
      → absorb (count_group D) (some c) vs ≡ some ((c + length vs) % size_t_mod)
  unfolding count_group
  absorb-count c [] lt = ap some (omega arith)
  absorb-count c (v ∷ vs) lt =
      absorb-count ((c + 1) % size_t_mod) vs (omega arith) ∙ ap some (omega arith)

  absorb-counted :
      (vs : List (EventData D)) (n : ℕ)
      → (absorb (count_group D) none vs ≡ some n) ↔ ((0 < length vs) × (length vs % size_t_mod ≡ n))
  unfolding count_group
  absorb-counted [] n = (λ e. absurd (cc), λ (lt, e). absurd (omega arith))
  absorb-counted (v ∷ vs) n = (
    λ e. (
      omega arith,
      some_injective (ap some (omega arith) ∙ sym (absorb-count 1 vs (omega arith)) ∙ e),
    ),
    λ (lt, e). absorb-count 1 vs (omega arith) ∙ ap some (omega (arith, e)),
  )

  module _ (S : HashSet (List (EventData D))) (H : (G : Type 0) → HashMap (List (EventData D)) G)
      (sort : (EventData D → EventData D → Bool) → List (EventData D) → List (EventData D))
      (junk : EventData D) where
    abbrev pub group_values :
        AggregationImpl D S H → Table S → List (EventData D) → List (EventData D)
    group_values impl tab group =
        values (H ℕ).eq junk impl.info.group_var_idxs impl.info.term_var_idx group
          (S.to_list tab.rows)

    -- A COUNT without groups left over from before: eval of a table holds a row exactly when it is
    -- a group that the table has rows in, followed by the int of the number of those rows, modulo
    -- 2 ^ 64.
    pub eval-count :
        (impl : AggregationImpl D S H) (tab : Table S) (x : List (EventData D))
        → impl.state ≡ count_state (H ℕ).empty
        → Holds S x (eval D S H sort junk (some tab) impl).0 ↔ (
            (group : List (EventData D)) × (0 < length (group_values impl tab group))
            × (group ++ (int (length (group_values impl tab group) % size_t_mod) ∷ []) ≡ x))
    unfolding eval eval_state
    eval-count impl tab x e =
        subst (λ s. Holds S x (eval_state D S H sort junk s (some tab) impl).0 ↔ Counted) (sym e)
          counted
      where
        Counted : Type 0
        Counted =
            (group : List (EventData D)) × (0 < length (group_values impl tab group))
            × (group ++ (int (length (group_values impl tab group) % size_t_mod) ∷ []) ≡ x)

        counted :
            Holds S x (eval_state D S H sort junk (count_state (H ℕ).empty) (some tab) impl).0
            ↔ Counted
        counted =
            let base =
              (eval_groups-Holds (count_group D) S (H ℕ) junk impl.info.group_var_idxs
                impl.info.term_var_idx impl.default_val impl.info.all_bound impl.nfvs tab x).0 in
            (
              λ h.
                  let (group, n, f, q) = base.0 h in
                  let (pos, is) = (absorb-counted (group_values impl tab group) n).0 f in
                  (group, pos, ap (λ k. group ++ (int k ∷ [])) is ∙ q),
              λ (group, pos, q). base.1 (
                group,
                length (group_values impl tab group) % size_t_mod,
                (absorb-counted (group_values impl tab group) _).1 (pos, refl),
                q,
              ),
            )
