-- ===== src/Layout/Columns.antt =====
-- What the index lists of get_join_info, get_anti_join_info and find_permutation select.
use cppmon.Shared.{
  ℕ, ◌≡◌, refl, ap, ◌∙◌, Bool, true, not, some, List, [], ◌∷◌, ◌++◌, map, arith, if◌then◌else◌, In,
  Distinct, inl, inr, Bool-cases, In-append_cases,
}
use mathlib.Core.List.{append-nil, append_assoc}
use cppmon.Hash.{HashMap}
use cppmon.Layout.{
  TableLayout, JoinInfo, AntiJoinInfo, get_var_2_idx, idx_at, join_left, join_right, get_join_info,
  anti_join_left, get_anti_join_info, permute_vars, find_permutation,
}
use cppmon.Layout.Position.{elem, index, elem-of_In, find-get_var_2_idx}

abbrev pub keep_if : (ℕ → Bool) → TableLayout → TableLayout
keep_if p [] = []
keep_if p (x ∷ l) = if p x then x ∷ keep_if p l else keep_if p l

-- The variables that both layouts have, in the order of the left one.
abbrev pub common : TableLayout → TableLayout → TableLayout
common l1 l2 = keep_if (λ v. elem v l2) l1

-- The variables that only the right layout has.
abbrev pub fresh : TableLayout → TableLayout → TableLayout
fresh l1 l2 = keep_if (λ v. not (elem v l1)) l2

-- The places of `vs` in the layout `l`.
abbrev pub places : TableLayout → TableLayout → List ℕ
places l vs = map (λ v. index v l) vs

pub In-keep_if : (p : ℕ → Bool) (v : ℕ) (l : TableLayout) → p v ≡ true → In v l → In v (keep_if p l)
In-keep_if p v [] h i = absurd i
In-keep_if p v (x ∷ l) h (inl e) = ground (arith, ap p e)
In-keep_if p v (x ∷ l) h (inr i) = ground (arith, In-keep_if p v l)

pub In-keep_if_inv :
    (p : ℕ → Bool) (v : ℕ) (l : TableLayout) → In v (keep_if p l) → In v l × (p v ≡ true)
In-keep_if_inv p v [] i = absurd i
In-keep_if_inv p v (x ∷ l) i = ground (arith, In-keep_if_inv p v l, ap p)

keep_if-Distinct : (p : ℕ → Bool) (l : TableLayout) → Distinct l → Distinct (keep_if p l)
keep_if-Distinct p [] d = tt
keep_if-Distinct p (x ∷ l) d = ground (arith, keep_if-Distinct p l, In-keep_if_inv p x l)

append-Distinct :
    (l k : TableLayout)
    → Distinct l
    → Distinct k
    → ((v : ℕ) → In v l → ¬ In v k)
    → Distinct (l ++ k)
append-Distinct [] k d1 d2 h = d2
append-Distinct (x ∷ l) k d1 d2 h = (
  λ i. elim (In-append_cases x l k i) [ inl j ↦ d1.0 j | inr j ↦ h x (inl refl) j ],
  append-Distinct l k d1.1 d2 (λ v i. h v (inr i)),
)

-- The layout of a join names no variable twice.
pub joined-Distinct :
    (l1 l2 : TableLayout) → Distinct l1 → Distinct l2 → Distinct (l1 ++ fresh l1 l2)
joined-Distinct l1 l2 d1 d2 =
    append-Distinct l1 (fresh l1 l2) d1 (keep_if-Distinct _ l2 d2)
      λ v i j. ground (arith, elem-of_In v l1 i, In-keep_if_inv (λ w. not (elem w l1)) v l2 j)

module _ (M : HashMap ℕ ℕ) (l1 l2 : TableLayout) (d1 : Distinct l1) (d2 : Distinct l2) where
  abbrev after_left : TableLayout → JoinInfo → JoinInfo
  after_left l info = record info {
    result_layout = info.result_layout ++ l;
    comm_idx1 = info.comm_idx1 ++ places l1 (common l l2);
    comm_idx2 = info.comm_idx2 ++ places l2 (common l l2);
  }

  abbrev after_anti : TableLayout → AntiJoinInfo → AntiJoinInfo
  after_anti l info = record info {
    comm_idx1 = info.comm_idx1 ++ places l1 (common l l2);
    comm_idx2 = info.comm_idx2 ++ places l2 (common l l2);
  }

  idx_at_lem : (v : ℕ) → In v l1 → idx_at M (get_var_2_idx M l1) v ≡ index v l1
  unfolding idx_at
  idx_at_lem v i = rw (find-get_var_2_idx M v l1 d1, idx_at, elem-of_In v l1 i)

  join_left_lem :
      (l : TableLayout) (info : JoinInfo)
      → ((v : ℕ) → In v l → In v l1)
      → join_left M (get_var_2_idx M l1) (get_var_2_idx M l2) l info ≡ after_left l info
  unfolding join_left
  join_left_lem [] info h = simp append-nil
  join_left_lem (x ∷ l) info h = elim (Bool-cases (elem x l2)) [
    | inl e ↦
        rw (find-get_var_2_idx M x l2 d2, e, idx_at_lem x (h x (inl refl)))
          (join_left_lem l _ (λ v i. h v (inr i)) ∙ simp append_assoc)
    | inr e ↦
        rw (find-get_var_2_idx M x l2 d2, e)
          (join_left_lem l _ (λ v i. h v (inr i)) ∙ simp append_assoc)
  ]

  anti_join_left_lem :
      (l : TableLayout) (info : AntiJoinInfo)
      → ((v : ℕ) → In v l → In v l1)
      → anti_join_left M (get_var_2_idx M l1) (get_var_2_idx M l2) l info ≡ after_anti l info
  unfolding anti_join_left
  anti_join_left_lem [] info h = simp append-nil
  anti_join_left_lem (x ∷ l) info h = elim (Bool-cases (elem x l2)) [
    | inl e ↦
        rw (find-get_var_2_idx M x l2 d2, e, idx_at_lem x (h x (inl refl)))
          (anti_join_left_lem l _ (λ v i. h v (inr i)) ∙ simp append_assoc)
    | inr e ↦ rw (find-get_var_2_idx M x l2 d2, e) (anti_join_left_lem l _ (λ v i. h v (inr i)))
  ]

module _ (M : HashMap ℕ ℕ) (l1 l2 : TableLayout) (d1 : Distinct l1) (d2 : Distinct l2) where
  join_right_lem :
      (l : TableLayout) (info : JoinInfo)
      → ((v : ℕ) → In v l → In v l2)
      → join_right M (get_var_2_idx M l1) (get_var_2_idx M l2) l info ≡ record info {
        result_layout = info.result_layout ++ fresh l1 l;
        keep_idx2 = info.keep_idx2 ++ places l2 (fresh l1 l);
      }
  unfolding join_right
  join_right_lem [] info h = simp append-nil
  join_right_lem (x ∷ l) info h = elim (Bool-cases (elem x l1)) [
    | inl e ↦ rw (find-get_var_2_idx M x l1 d1, e) (join_right_lem l _ (λ v i. h v (inr i)))
    | inr e ↦
        rw (find-get_var_2_idx M x l1 d1, e, idx_at_lem M l2 l1 d2 d1 x (h x (inl refl)))
          (join_right_lem l _ (λ v i. h v (inr i)) ∙ simp append_assoc)
  ]

  -- For layouts of distinct variables, the index lists are the places of the common variables on
  -- both sides and of the right table's own variables; the result has the left layout and then
  -- those variables.
  pub get_join_info_lem : get_join_info M l1 l2 ≡ record {
    comm_idx1 = places l1 (common l1 l2);
    comm_idx2 = places l2 (common l1 l2);
    keep_idx2 = places l2 (fresh l1 l2);
    result_layout = l1 ++ fresh l1 l2;
  }
  unfolding get_join_info
  get_join_info_lem =
      rw (join_left_lem M l1 l2 d1 d2 l1 none_yet (λ v i. i)) (join_right_lem l2 _ (λ v i. i))
    where
      none_yet : JoinInfo
      none_yet = record { comm_idx1 = []; comm_idx2 = []; keep_idx2 = []; result_layout = [] }

  pub get_anti_join_info_lem : get_anti_join_info M l1 l2 ≡ record {
    comm_idx1 = places l1 (common l1 l2);
    comm_idx2 = places l2 (common l1 l2);
    result_layout = l1;
  }
  unfolding get_anti_join_info
  get_anti_join_info_lem = anti_join_left_lem M l1 l2 d1 d2 l1 _ (λ v i. i)

  permute_vars_lem :
      (l : TableLayout)
      → ((v : ℕ) → In v l → In v l2)
      → permute_vars M (get_var_2_idx M l2) l ≡ some (places l2 l)
  unfolding permute_vars
  permute_vars_lem [] h = refl
  permute_vars_lem (x ∷ l) h = ground (
    arith,
    permute_vars_lem l (λ v i. h v (inr i)),
    find-get_var_2_idx M x l2 d2,
    elem-of_In x l2 (h x (inl refl)),
  )

  -- For layouts of distinct variables, find_permutation gives the places of the left layout's
  -- variables in the right one, when the right one has them all.
  pub find_permutation_lem :
      ((v : ℕ) → In v l1 → In v l2) → find_permutation M l1 l2 ≡ some (places l2 l1)
  unfolding find_permutation
  find_permutation_lem h = permute_vars_lem l1 h
