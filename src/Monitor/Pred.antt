-- ===== src/Monitor/Pred.antt =====
-- src/monitor.cpp: MPred, the states of predicates, with MRel. `int` is event_data::Int after the
-- cast of a size_t, and `eq` the comparison of values.
pub mod Match
use cppmon.Shared.{
  ℕ, zero, suc, ◌+◌, Bool, true, false, not, ◌&&◌, Option, none, some, List, [], ◌∷◌, ◌++◌, length,
  get_or, holds, ◌==◌, if◌then◌else◌,
}
use cppmon.Hash.{HashSet, HashMap}
use cppmon.Formula.Preds.{ts_pred, tp_pred}
use cppmon.Table.{Table, OptTable, of_size, add_row, to_opt}

-- The arguments of the predicate are left out: no operation but an assertion reads them.
pub record MPred (T : Type 0) : Type 0 where
  pub curr_tp : ℕ
  pub nfvs : ℕ
  pub is_builtin : Bool
  pub pred_id : ℕ
  pub var_pos : List (List ℕ)
  pub pos_2_cst : List (ℕ × T)

module _ {T : Type 0} (eq : Discrete T) (junk : T) where
  unfoldable pub csts_match : List T → List (ℕ × T) → Bool
  csts_match event_args [] = true
  csts_match event_args ((pos, cst) ∷ pos_2_cst) =
      if not (holds (eq (get_or event_args pos junk) cst))
      then false
      else csts_match event_args pos_2_cst

  -- the loop `for (i = 1; i < num_pos; ++i)`
  unfoldable pub rest_match : List T → T → List ℕ → Bool
  rest_match event_args expected [] = true
  rest_match event_args expected (pos ∷ poss) =
      if not (holds (eq (get_or event_args pos junk) expected))
      then false
      else rest_match event_args expected poss

  -- The loop over var_pos: the values of the variables, or none for an early return. A variable
  -- without a position fails the assertion; the read of its first position then gives junk.
  unfoldable pub match_vars : List T → List (List ℕ) → Option (List T)
  unfolding rest_match
  match_vars event_args [] = some []
  match_vars event_args ([] ∷ var_pos) = elim (match_vars event_args var_pos) [
    | none ↦ none
    | some res ↦ some (junk ∷ res)
  ]
  match_vars event_args ((pos ∷ poss) ∷ var_pos) =
      let rest = match_vars event_args var_pos in
      let expected = get_or event_args pos junk in
      if not (rest_match event_args expected poss)
      then none
      else elim rest [ none ↦ none | some res ↦ some (expected ∷ res) ]

  module _ (S : HashSet (List T)) where
    unfoldable pub match_event : MPred T → List T → Table S → Table S
    unfolding csts_match match_vars add_row
    match_event st event_args acc_tab =
        if not (csts_match event_args st.pos_2_cst)
        then acc_tab
        else elim (match_vars event_args st.var_pos) [
          | none ↦ acc_tab
          | some res ↦ add_row S res acc_tab
        ]

    unfoldable pub match_events : MPred T → List (List T) → Table S → Table S
    unfolding match_event
    match_events st [] tab = tab
    match_events st (ev ∷ evs) tab = match_events st evs (match_event st ev tab)

    unfoldable pub events_tab : MPred T → List (List T) → OptTable S
    unfolding match_events of_size to_opt
    events_tab st evs = to_opt S (match_events st evs (of_size S st.nfvs))

    unfoldable pub events_tabs : MPred T → List (List (List T)) → List (OptTable S)
    unfolding events_tab
    events_tabs st [] = []
    events_tabs st (evs ∷ rest) = events_tab st evs ∷ events_tabs st rest

    module _ (int : ℕ → T) where
      -- The events of the built-in predicates for the time points at hand.
      unfoldable pub tp_events : ℕ → List ℕ → List (List T)
      tp_events curr_tp [] = []
      tp_events curr_tp (ts ∷ tss) = (int curr_tp ∷ []) ∷ tp_events (suc curr_tp) tss

      unfoldable pub ts_events : List ℕ → List (List T)
      ts_events [] = []
      ts_events (ts ∷ tss) = (int ts ∷ []) ∷ ts_events tss

      unfoldable pub tp_ts_events : ℕ → List ℕ → List (List T)
      tp_ts_events curr_tp [] = []
      tp_ts_events curr_tp (ts ∷ tss) = (int curr_tp ∷ int ts ∷ []) ∷ tp_ts_events (suc curr_tp) tss

      unfoldable pub pred_eval :
          (D : HashMap ℕ (List (List (List T))))
          → D.Carrier
          → List ℕ
          → MPred T
          → List (OptTable S) × MPred T
      unfolding tp_events ts_events tp_ts_events events_tab events_tabs
      pred_eval D db ts st =
          let later = record st { curr_tp = st.curr_tp + length ts } in
          if st.is_builtin
          then if st.pred_id == tp_pred
            then (events_tab st (tp_events st.curr_tp ts) ∷ [], later)
            else if st.pred_id == ts_pred
            then (events_tab st (ts_events ts) ∷ [], st)
            else (events_tab st (tp_ts_events st.curr_tp ts) ∷ [], later)
          else (
            elim (D.find st.pred_id db) [ none ↦ none ∷ [] | some ent ↦ events_tabs st ent ],
            st,
          )

    -- MRel::eval
    unfoldable pub rel_eval : OptTable S → List ℕ → List (OptTable S)
    rel_eval tab [] = []
    rel_eval tab (t ∷ ts) = tab ∷ rel_eval tab ts
