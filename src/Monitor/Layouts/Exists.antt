-- ===== src/Monitor/Layouts/Exists.antt =====
-- The existential quantifier on rows: what Exists::eval drops, and what the lowered layout names.
use cppmon.Shared.{
  ℕ, suc, ◌+◌, ◌<◌, ◌≡◌, ◌≢◌, refl, sym, subst, ap, ap₂, inl, inr, true, false, none, some, List,
  [], ◌∷◌, map, ◌==◌, arith, In, Distinct, All, Bool-cases, Option-cases,
}
use cppmon.Interval.{sub_size_t, sub_size_t-of_le, size_t_mod}
use cppmon.EventData.{Double, EventData}
use cppmon.Layout.{TableLayout}
use cppmon.Monitor.Fused.{exists, remove_col, op_eval}
use cppmon.Monitor.Layouts.{drop_idx, lower_from, exists_layout}

lower_one : (v : ℕ) → v ≢ 0 → v < size_t_mod → suc (sub_size_t v 1) ≡ v
lower_one v n lt = omega (arith, sub_size_t-of_le v 1 (omega arith) lt)

drop_idx-none : (lay : TableLayout) → drop_idx lay ≡ none → ¬ In 0 lay
unfolding drop_idx
drop_idx-none [] e i = i
drop_idx-none (v ∷ lay) e i = elim (Bool-cases (v == 0)) [
  | inl z ↦ absurd (found v lay z e)
  | inr z ↦ elim i [ inl p ↦ ground (arith, z, p) | inr j ↦ drop_idx-none lay (later v lay z e) j ]
]
  where
    found : (v : ℕ) (lay : TableLayout) → (v == 0) ≡ true → drop_idx (v ∷ lay) ≢ none
    found v lay z = rw z (λ q. absurd (cc))

    later :
        (v : ℕ) (lay : TableLayout)
        → (v == 0) ≡ false
        → drop_idx (v ∷ lay) ≡ none
        → drop_idx lay ≡ none
    later v lay z q = elim (Option-cases (drop_idx lay)) [ inl r ↦ r | inr (k, r) ↦ absurd (cc) ]

drop_idx-first :
    (v j : ℕ) (lay : TableLayout) → (v == 0) ≡ true → drop_idx (v ∷ lay) ≡ some j → 0 ≡ j
unfolding drop_idx
drop_idx-first v j lay z e = cc

drop_idx-later :
    (v j : ℕ) (lay : TableLayout)
    → (v == 0) ≡ false
    → drop_idx (v ∷ lay) ≡ some j
    → (m : ℕ) × (drop_idx lay ≡ some m) × (suc m ≡ j)
unfolding drop_idx
drop_idx-later v j lay z e = elim (Option-cases (drop_idx lay)) [
  | inl r ↦ absurd (cc)
  | inr (m, r) ↦ (m, r, cc)
]

module _ {E : Type 0} (val : ℕ → E) where
  abbrev pub shifted : TableLayout → List E
  shifted lay = map (λ v. val (suc v)) lay

  head_same :
      (v : ℕ) (rest : TableLayout) (row : List E)
      → v ≢ 0
      → v < size_t_mod
      → shifted rest ≡ row
      → shifted (sub_size_t v 1 ∷ rest) ≡ val v ∷ row
  head_same v rest row n lt e = ap₂ ◌∷◌ (ap val (lower_one v n lt)) e

  -- Without a place that is dropped from here on, the values stay.
  kept_none :
      (i : ℕ) (lay : TableLayout)
      → (¬ In 0 lay)
      → All (λ v. v < size_t_mod) lay
      → shifted (lower_from i none lay) ≡ map val lay
  unfolding lower_from
  kept_none i [] n w = refl
  kept_none i (v ∷ lay) n (l, w) =
      head_same v _ _ (λ e. n (inl e)) l (kept_none (suc i) lay (λ j. n (inr j)) w)

  kept_rest :
      (i d : ℕ) (lay : TableLayout)
      → d < i
      → (¬ In 0 lay)
      → All (λ v. v < size_t_mod) lay
      → shifted (lower_from i (some d) lay) ≡ map val lay
  unfolding lower_from
  kept_rest i d [] lt n w = refl
  kept_rest i d (v ∷ lay) lt n (l, w) =
      let differ : (i == d) ≡ false = ground arith in
      rw (lower_from, differ)
        (head_same v _ _ (λ e. n (inl e)) l
          (kept_rest (suc i) d lay (omega arith) (λ j. n (inr j)) w))

  drop_found :
      (i j k : ℕ) (lay : TableLayout)
      → k ≡ i + j
      → drop_idx lay ≡ some j
      → Distinct lay
      → All (λ v. v < size_t_mod) lay
      → shifted (lower_from i (some k) lay) ≡ remove_col (map val lay) j
  unfolding lower_from drop_idx remove_col
  drop_found i j k [] p e d w = absurd (cc)
  drop_found i j k (v ∷ lay) p e (n, d) (l, w) = elim (Bool-cases (v == 0)) [
    | inl z ↦
        let start : 0 ≡ j = drop_idx-first v j lay z e in
        let here : (i == k) ≡ true = ground (arith, p, start) in
        let rest : ¬ In 0 lay = λ a. n (subst (λ x. In x lay) (ground (arith, z)) a) in
        subst (λ m. shifted (lower_from i (some k) (v ∷ lay)) ≡ remove_col (map val (v ∷ lay)) m)
          start (rw (lower_from, here) (kept_rest (suc i) k lay (omega (arith, p, start)) rest w))
    | inr z ↦
        let (m, q, r) = drop_idx-later v j lay z e in
        let differ : (i == k) ≡ false = ground (arith, p, r) in
        subst (λ m. shifted (lower_from i (some k) (v ∷ lay)) ≡ remove_col (map val (v ∷ lay)) m) r
          (rw (lower_from, differ)
            (head_same v _ _ (ground (arith, z)) l
              (drop_found (suc i) m k lay (omega (arith, p, r)) q d w)))
  ]

module _ (D : Double) where
  -- Exists::eval with the place that init_exists_state finds, on a row that gives the variables of a
  -- layout their values: the row that is left gives each variable v of the lowered layout the value
  -- of v + 1. The variables of the layout are distinct and below 2 ^ 64.
  pub exists_layout_lem :
      (val : ℕ → EventData D) (lay : TableLayout)
      → Distinct lay
      → All (λ v. v < size_t_mod) lay
      → op_eval D (exists (drop_idx lay)) (map val lay)
        ≡ some (some (map (λ v. val (suc v)) (exists_layout lay)))
  unfolding op_eval exists_layout
  exists_layout_lem val lay d w = elim (Option-cases (drop_idx lay)) [
    | inl e ↦ rw e (ap (λ r. some (some r)) (sym (kept_none val 0 lay (drop_idx-none lay e) w)))
    | inr (j, e) ↦
        rw e (ap (λ r. some (some r)) (sym (drop_found val 0 j j lay (omega arith) e d w)))
  ]
