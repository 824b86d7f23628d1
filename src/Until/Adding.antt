-- ===== src/Until/Adding.antt =====
-- src/until_impl.cpp: a new table of eventually_impl, and what holds of the state after it.
use cppmon.Shared.{
  ℕ, zero, suc, ◌-◌, ◌<◌, ◌≡◌, ◌↔◌, inl, inr, refl, ap, ◌∙◌, subst, Bool, none, some, List, [], ◌∷◌,
  arith, length, All, In, if_intro,
}
use cppmon.Hash.{HashSet, HashMap}
use cppmon.Table.{OptTable, contains}
use cppmon.Table.Contents.{Holds}
use cppmon.Until.{put_max, update_a2_inner_map, eventually_row, eventually_rows, rows_of}
use cppmon.Until.Marks.{Reaches, put_max_old, put_max_new}

module _ {T : Type 0} (S : HashSet (List T)) (B : HashMap (List T) ℕ) where
  -- The first map has at least the mark.
  abbrev pub HeadReaches : List B.Carrier → List T → ℕ → Type 0
  HeadReaches [] e v = ⊥
  HeadReaches (m ∷ maps) e v = Reaches S B m e v

  length-update :
      (idx : ℕ) (e : List T) (v : ℕ) (maps : List B.Carrier)
      → length (update_a2_inner_map S B idx e v maps) ≡ length maps
  unfolding update_a2_inner_map
  length-update idx e v [] = refl
  length-update zero e v (m ∷ maps) = refl
  length-update (suc idx) e v (m ∷ maps) = ap suc (length-update idx e v maps)

  update-All :
      (P : B.Carrier → Type 0) (idx : ℕ) (e : List T) (v : ℕ) (maps : List B.Carrier)
      → ((m : B.Carrier) → P m → P (put_max S B e v m))
      → All P maps
      → All P (update_a2_inner_map S B idx e v maps)
  unfolding update_a2_inner_map
  update-All P idx e v [] f h = tt
  update-All P zero e v (m ∷ maps) f h = (f m h.0, h.1)
  update-All P (suc idx) e v (m ∷ maps) f h = (h.0, update-All P idx e v maps f h.1)

  update_old :
      (idx : ℕ) (e k : List T) (v u : ℕ) (maps : List B.Carrier)
      → HeadReaches maps k u
      → HeadReaches (update_a2_inner_map S B idx e v maps) k u
  unfolding update_a2_inner_map
  update_old idx e k v u [] h = absurd h
  update_old zero e k v u (m ∷ maps) (w, h, le) =
      let (x, q, ge) = put_max_old S B m e k v w h in (x, q, omega arith)
  update_old (suc idx) e k v u (m ∷ maps) h = h

  update_new :
      (e : List T) (v : ℕ) (maps : List B.Carrier)
      → 0 < length maps
      → HeadReaches (update_a2_inner_map S B 0 e v maps) e v
  unfolding update_a2_inner_map
  update_new e v [] lt = absurd (omega arith)
  update_new e v (m ∷ maps) lt = put_max_new S B m e v

  module _ (c : Bool) (v : ℕ) where
    length-row :
        (e : List T) (maps : List B.Carrier) → length (eventually_row S B c v e maps) ≡ length maps
    unfolding eventually_row
    length-row e maps =
        length-update 0 e v _
        ∙ if_intro (λ l. length l ≡ length maps) c
            (update_a2_inner_map S B (length maps - 1) e v maps) maps
            (λ h. length-update (length maps - 1) e v maps) (λ h. refl)

    pub length-rows :
        (rows : List (List T)) (maps : List B.Carrier)
        → length (eventually_rows S B c v rows maps) ≡ length maps
    unfolding eventually_rows
    length-rows [] maps = refl
    length-rows (e ∷ rows) maps =
        length-rows rows (eventually_row S B c v e maps) ∙ length-row e maps

    row-All :
        (P : B.Carrier → Type 0) (e : List T) (maps : List B.Carrier)
        → ((m : B.Carrier) → P m → P (put_max S B e v m))
        → All P maps
        → All P (eventually_row S B c v e maps)
    unfolding eventually_row
    row-All P e maps f h = update-All P 0 e v _ f (
        if_intro (All P) c (update_a2_inner_map S B (length maps - 1) e v maps) maps
          (λ k. update-All P (length maps - 1) e v maps f h) (λ k. h))

    pub rows-All :
        (P : B.Carrier → Type 0) (rows : List (List T)) (maps : List B.Carrier)
        → ((e : List T) (m : B.Carrier) → In e rows → P m → P (put_max S B e v m))
        → All P maps
        → All P (eventually_rows S B c v rows maps)
    unfolding eventually_rows
    rows-All P [] maps f h = h
    rows-All P (e ∷ rows) maps f h =
        rows-All P rows (eventually_row S B c v e maps) (λ k m i. f k m (inr i))
          (row-All P e maps (λ m. f e m (inl refl)) h)

    row_old :
        (e k : List T) (u : ℕ) (maps : List B.Carrier)
        → HeadReaches maps k u
        → HeadReaches (eventually_row S B c v e maps) k u
    unfolding eventually_row
    row_old e k u maps h = update_old 0 e k v u _ (
        if_intro (λ l. HeadReaches l k u) c (update_a2_inner_map S B (length maps - 1) e v maps)
          maps (λ q. update_old (length maps - 1) e k v u maps h) (λ q. h))

    row_new :
        (e : List T) (maps : List B.Carrier)
        → 0 < length maps
        → HeadReaches (eventually_row S B c v e maps) e v
    unfolding eventually_row
    row_new e maps lt = update_new e v _ (
        if_intro (λ l. 0 < length l) c (update_a2_inner_map S B (length maps - 1) e v maps) maps
          (λ q. omega (arith, length-update (length maps - 1) e v maps)) (λ q. lt))

    pub rows_old :
        (rows : List (List T)) (k : List T) (u : ℕ) (maps : List B.Carrier)
        → HeadReaches maps k u
        → HeadReaches (eventually_rows S B c v rows maps) k u
    unfolding eventually_rows
    rows_old [] k u maps h = h
    rows_old (e ∷ rows) k u maps h = rows_old rows k u _ (row_old e k u maps h)

    pub rows_new :
        (rows : List (List T)) (k : List T) (maps : List B.Carrier)
        → 0 < length maps
        → In k rows
        → HeadReaches (eventually_rows S B c v rows maps) k v
    unfolding eventually_rows
    rows_new [] k maps lt i = absurd i
    rows_new (e ∷ rows) k maps lt (inl p) =
        rows_old rows k v _
          (subst (λ j. HeadReaches (eventually_row S B c v e maps) j v) p (row_new e maps lt))
    rows_new (e ∷ rows) k maps lt (inr i) =
        rows_new rows k (eventually_row S B c v e maps) (omega (arith, length-row e maps)) i

  pub Holds-In : (e : List T) (tab : OptTable S) → Holds S e tab ↔ In e (rows_of S B tab)
  unfolding contains
  Holds-In e none = (λ h. h, λ h. h)
  Holds-In e (some tab) = S.contains-to_list e tab.rows
