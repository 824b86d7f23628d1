-- ===== src/Layout.antt =====
-- src/table.cpp: the layouts of tables, the index lists of joins and permutations of columns.
pub mod Position
pub mod Columns
use cppmon.Shared.{
  ℕ, zero, suc, ◌+◌, Bool, Option, none, some, List, [], ◌∷◌, ◌++◌, length, get_or, map,
}
use cppmon.Hash.{HashMap}

-- Map from idx to variable name
abbrev pub TableLayout : Type 0
TableLayout = List ℕ

pub record JoinInfo : Type 0 where
  pub comm_idx1 : List ℕ
  pub comm_idx2 : List ℕ
  pub keep_idx2 : List ℕ
  pub result_layout : TableLayout

pub record AntiJoinInfo : Type 0 where
  pub comm_idx1 : List ℕ
  pub comm_idx2 : List ℕ
  pub result_layout : TableLayout

-- `row[idx]` for each of the indices; `junk` is what an index past the end reads.
unfoldable pub filter_row {ℓ} : {T : Type ℓ} → T → List ℕ → List T → List T
filter_row junk keep_idxs row = map (λ idx. get_or row idx junk) keep_idxs

unfoldable pub iota_from : ℕ → ℕ → List ℕ
iota_from zero i = []
iota_from (suc n) i = i ∷ iota_from n (suc i)

unfoldable pub id_permutation : ℕ → List ℕ
unfolding iota_from
id_permutation n = iota_from n 0

module _ (M : HashMap ℕ ℕ) where
  -- the loop `for (i = 0; i < n; ++i) res[l[i]] = i`
  unfoldable pub number_vars : ℕ → TableLayout → M.Carrier → M.Carrier
  number_vars i [] res = res
  number_vars i (v ∷ l) res = number_vars (suc i) l (M.insert_or_assign v i res)

  unfoldable pub get_var_2_idx : TableLayout → M.Carrier
  unfolding number_vars
  get_var_2_idx l = number_vars 0 l M.empty

  -- `m[var]` at a variable: the default 0 where there is no entry.
  unfoldable pub idx_at : M.Carrier → ℕ → ℕ
  idx_at m var = elim (M.find var m) [ none ↦ 0 | some i ↦ i ]

  -- the loop of get_join_info over the left layout
  unfoldable pub join_left : M.Carrier → M.Carrier → TableLayout → JoinInfo → JoinInfo
  unfolding idx_at
  join_left var2idx1 var2idx2 [] info = info
  join_left var2idx1 var2idx2 (var1 ∷ l1) info =
      join_left var2idx1 var2idx2 l1 (elim (M.find var1 var2idx2) [
        | none ↦ record info { result_layout = info.result_layout ++ var1 ∷ [] }
        | some i ↦ record info {
          result_layout = info.result_layout ++ var1 ∷ [];
          comm_idx1 = info.comm_idx1 ++ idx_at var2idx1 var1 ∷ [];
          comm_idx2 = info.comm_idx2 ++ i ∷ [];
        }
      ])

  -- and the one over the right layout
  unfoldable pub join_right : M.Carrier → M.Carrier → TableLayout → JoinInfo → JoinInfo
  unfolding idx_at
  join_right var2idx1 var2idx2 [] info = info
  join_right var2idx1 var2idx2 (var2 ∷ l2) info =
      join_right var2idx1 var2idx2 l2 (elim (M.find var2 var2idx1) [
        | none ↦ record info {
          result_layout = info.result_layout ++ var2 ∷ [];
          keep_idx2 = info.keep_idx2 ++ idx_at var2idx2 var2 ∷ [];
        }
        | some i ↦ info
      ])

  unfoldable pub get_join_info : TableLayout → TableLayout → JoinInfo
  unfolding join_left join_right get_var_2_idx
  get_join_info l1 l2 =
      let var2idx1 = get_var_2_idx l1 in
      let var2idx2 = get_var_2_idx l2 in
      let none_yet : JoinInfo = record {
        comm_idx1 = [];
        comm_idx2 = [];
        keep_idx2 = [];
        result_layout = [];
      } in
      join_right var2idx1 var2idx2 l2 (join_left var2idx1 var2idx2 l1 none_yet)

  unfoldable pub anti_join_left : M.Carrier → M.Carrier → TableLayout → AntiJoinInfo → AntiJoinInfo
  unfolding idx_at
  anti_join_left var2idx1 var2idx2 [] info = info
  anti_join_left var2idx1 var2idx2 (var1 ∷ l1) info =
      anti_join_left var2idx1 var2idx2 l1 (elim (M.find var1 var2idx2) [
        | none ↦ info
        | some i ↦ record info {
          comm_idx1 = info.comm_idx1 ++ idx_at var2idx1 var1 ∷ [];
          comm_idx2 = info.comm_idx2 ++ i ∷ [];
        }
      ])

  unfoldable pub get_anti_join_info : TableLayout → TableLayout → AntiJoinInfo
  unfolding anti_join_left get_var_2_idx
  get_anti_join_info l1 l2 =
      anti_join_left (get_var_2_idx l1) (get_var_2_idx l2) l1
        (record { comm_idx1 = []; comm_idx2 = []; result_layout = l1 })

  unfoldable pub permute_vars : M.Carrier → TableLayout → Option (List ℕ)
  permute_vars var_2_idx2 [] = some []
  permute_vars var_2_idx2 (var ∷ l1) =
      let rest = permute_vars var_2_idx2 l1 in
      elim (M.find var var_2_idx2) [
        | none ↦ none
        | some i ↦ elim rest [ none ↦ none | some p ↦ some (i ∷ p) ]
      ]

  -- Find permutation of layout l2, so that is matches layout 1. A variable of `l1` that `l2` lacks
  -- fails the assertion: `none`.
  unfoldable pub find_permutation : TableLayout → TableLayout → Option (List ℕ)
  unfolding permute_vars get_var_2_idx
  find_permutation l1 l2 = permute_vars (get_var_2_idx l2) l1
