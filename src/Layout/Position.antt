-- ===== src/Layout/Position.antt =====
-- Where a variable stands in a layout, and the values that a row gives to variables.
use cppmon.Shared.{
  ℕ, suc, ◌+◌, ◌<◌, ◌≡◌, refl, sym, ap₂, ◌∙◌, Bool, true, false, none, some, List, [], ◌∷◌, ◌++◌,
  map, arith, ◌==◌, if◌then◌else◌, length, get_or, In, Distinct, map_congr, get_or-append_left,
  subst,
}
use cppmon.Hash.{HashMap}
use cppmon.Layout.{TableLayout, number_vars, get_var_2_idx}

abbrev pub elem : ℕ → TableLayout → Bool
elem v [] = false
elem v (x ∷ l) = if x == v then true else elem v l

-- The place of a variable; the length if it does not occur.
abbrev pub index : ℕ → TableLayout → ℕ
index v [] = 0
index v (x ∷ l) = if x == v then 0 else suc (index v l)

pub elem-of_In : (v : ℕ) (l : TableLayout) → In v l → elem v l ≡ true
elem-of_In v [] h = absurd h
elem-of_In v (x ∷ l) h = ground (arith, elem-of_In v l)

pub In-of_elem : (v : ℕ) (l : TableLayout) → elem v l ≡ true → In v l
In-of_elem v [] h = absurd (cc)
In-of_elem v (x ∷ l) h = ground (arith, In-of_elem v l)

pub index-lt : (v : ℕ) (l : TableLayout) → In v l → index v l < length l
index-lt v [] h = absurd h
index-lt v (x ∷ l) h = ground (arith, index-lt v l)

pub index-append_left : (v : ℕ) (l k : TableLayout) → In v l → index v (l ++ k) ≡ index v l
index-append_left v [] k h = absurd h
index-append_left v (x ∷ l) k h = ground (arith, index-append_left v l k)

module _ (M : HashMap ℕ ℕ) where
  find-number_vars :
      (v i : ℕ) (l : TableLayout) (res : M.Carrier)
      → Distinct l
      → M.find v (number_vars M i l res) ≡ (if elem v l then some (i + index v l) else M.find v res)
  unfolding number_vars
  find-number_vars v i [] res d = refl
  find-number_vars v i (x ∷ l) res d = ground (
    arith,
    find-number_vars v (suc i) l (M.insert_or_assign x i res),
    M.find-insert_or_assign v x i res,
    In-of_elem v l,
  )

  pub find-get_var_2_idx :
      (v : ℕ) (l : TableLayout)
      → Distinct l
      → M.find v (get_var_2_idx M l) ≡ (if elem v l then some (index v l) else none)
  unfolding get_var_2_idx
  find-get_var_2_idx v l d = ground (arith, find-number_vars v 0 l M.empty, M.find-empty v)

module _ {T : Type 0} (junk : T) where
  -- The value that a row with layout `l` gives to the variable `v`.
  abbrev pub value : TableLayout → List T → ℕ → T
  value l row v = get_or row (index v l) junk

  value-cons :
      (x : ℕ) (l : TableLayout) (t : T) (row : List T)
      → ¬ In x l
      → map (value (x ∷ l) (t ∷ row)) l ≡ map (value l row) l
  value-cons x l t row n = map_congr _ _ l (λ v i. ground (arith, absent v i))
    where
      absent : (v : ℕ) → In v l → ¬ (x ≡ v)
      absent v i e = n (subst (λ w. In w l) (sym e) i)

  -- A row is its values at its own layout.
  pub map-value_self :
      (l : TableLayout) (row : List T)
      → Distinct l
      → length row ≡ length l
      → map (value l row) l ≡ row
  map-value_self [] [] d h = refl
  map-value_self [] (t ∷ row) d h = absurd (omega arith)
  map-value_self (x ∷ l) [] d h = absurd (omega arith)
  map-value_self (x ∷ l) (t ∷ row) d h =
      ap₂ ◌∷◌ (ground arith) (value-cons x l t row d.0 ∙ map-value_self l row d.1 (omega arith))

  -- A row that is built from an assignment gives each of its variables that value.
  pub value-map : (l : TableLayout) (f : ℕ → T) (v : ℕ) → In v l → value l (map f l) v ≡ f v
  value-map [] f v h = absurd h
  value-map (x ∷ l) f v h = ground (arith, value-map l f v)

  pub value-append_left :
      (l k : TableLayout) (row rest : List T) (v : ℕ)
      → length row ≡ length l
      → In v l
      → value (l ++ k) (row ++ rest) v ≡ value l row v
  value-append_left l k row rest v h i =
      rw (index-append_left v l k i)
        (get_or-append_left row rest (index v l) junk (omega (arith, index-lt v l i)))
