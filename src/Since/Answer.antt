-- ===== src/Since/Answer.antt =====
-- src/since_impl.h: the join with the left table, on one row's view.
use cppmon.Shared.{
  ℕ, ◌≡◌, refl, sym, ap, ◌∙◌, subst, inl, inr, Bool, true, false, not, Option, none, some, List,
  arith, if◌then◌else◌, Bool-cases, if_intro,
}
use cppmon.Hash.{HashSet, HashMap, unless}
use cppmon.Interval.{Interval}
use cppmon.Layout.{filter_row}
use cppmon.Table.{Table, OptTable, contains, hash_all_destructive}
use cppmon.Table.Contents.{insert_all_new, insert_all_inv}
use cppmon.Since.{SinceState, join, erase_cond, tuple_in_erase_if}
use cppmon.Since.Single.{Single}
use cppmon.Since.Single
use cppmon.Since.Project.{Shows, has}

module _ {T : Type 0} (S : HashSet (List T)) where
  -- The set that a table's rows are moved into has the same rows.
  pub contains-hash_all_destructive :
      (k : List T) (t : Table S) → S.contains k (hash_all_destructive S t) ≡ contains S k t
  unfolding hash_all_destructive contains
  contains-hash_all_destructive k t = elim (Bool-cases (S.contains k t.rows)) [
    | inl c ↦
        insert_all_new S k (S.to_list t.rows) S.empty ((S.contains-to_list k t.rows).0 c) ∙ sym c
    | inr c ↦ elim (Bool-cases (S.contains k (hash_all_destructive S t))) [
      | inr d ↦ d ∙ sym c
      | inl d ↦ ground (
        arith,
        insert_all_inv S k (S.to_list t.rows) S.empty d,
        S.contains-to_list k t.rows,
        S.contains-empty k,
      )
    ]
  ]

module _ {T : Type 0} (S : HashSet (List T)) (B : HashMap (List T) ℕ) (junk : T) (e : List T)
    (inter : Interval) (neg : Bool) (idx : List ℕ) where
  abbrev View : SinceState S B → Single → Type 0
  View = Shows S B e inter neg idx

  -- Whether the row survives the left table: its shared columns are in the table or, for a negated
  -- left side, are not.
  abbrev pub survives : OptTable S → Bool
  survives tab_l =
      let found = has S B (filter_row junk idx e) tab_l in if neg then not found else found

  erase_cond-survives :
      (st : SinceState S B) (s : Single) (tab_l : Table S)
      → View st s
      → erase_cond S B junk st (hash_all_destructive S tab_l) e ≡ not (survives (some tab_l))
  unfolding erase_cond
  erase_cond-survives st s tab_l v = ground (
    arith,
    v.negated_is,
    v.idx_is,
    ap (λ i. contains S (filter_row junk i e) tab_l) v.idx_is,
    contains-hash_all_destructive S (filter_row junk st.comm_idx_r e) tab_l,
  )

  erased :
      (st : SinceState S B) (s : Single) (ti si : B.Carrier) (b : Bool)
      → View st s
      → b ≡ false
      → B.find e ti ≡ none
      → B.find e si ≡ none
      → View (record st { tuple_in = ti; tuple_since = si }) (Single.join b s)
  unfolding Single.join
  erased st s ti si b v p a c =
      subst (λ d. View (record st { tuple_in = ti; tuple_since = si }) (Single.join d s)) (sym p)
        (record {
          inter_is = v.inter_is;
          inf_is = v.inf_is;
          negated_is = v.negated_is;
          idx_is = v.idx_is;
          prev_is = v.prev_is;
          inn_is = v.inn_is;
          tin_is = a;
          since_is = c;
          cnt_is = v.cnt_is;
        })

  kept :
      (st : SinceState S B) (s : Single) (ti si : B.Carrier) (b : Bool)
      → View st s
      → b ≡ true
      → B.find e ti ≡ B.find e st.tuple_in
      → B.find e si ≡ B.find e st.tuple_since
      → View (record st { tuple_in = ti; tuple_since = si }) (Single.join b s)
  unfolding Single.join
  kept st s ti si b v p a c =
      subst (λ d. View (record st { tuple_in = ti; tuple_since = si }) (Single.join d s)) (sym p)
        (record {
          inter_is = v.inter_is;
          inf_is = v.inf_is;
          negated_is = v.negated_is;
          idx_is = v.idx_is;
          prev_is = v.prev_is;
          inn_is = v.inn_is;
          tin_is = a ∙ v.tin_is;
          since_is = c ∙ v.since_is;
          cnt_is = v.cnt_is;
        })

  unless_yes : (p : ℕ → Bool) (o : Option ℕ) → ((n : ℕ) → p n ≡ true) → unless p o ≡ none
  unless_yes p none h = refl
  unless_yes p (some n) h = rw (unless, h n) refl

  unless_no : (p : ℕ → Bool) (o : Option ℕ) → ((n : ℕ) → p n ≡ false) → unless p o ≡ o
  unless_no p none h = refl
  unless_no p (some n) h = rw (unless, h n) refl

  pub join-Shows :
      (tab_l : OptTable S) (st : SinceState S B) (s : Single)
      → View st s
      → View (join S B junk tab_l st) (Single.join (survives tab_l) s)
  unfolding join tuple_in_erase_if
  join-Shows none st s v =
      if_intro (λ r. View r (Single.join (survives none) s)) (not st.left_negated) _ _
        (λ d.
          erased st s B.empty B.empty (survives none) v (ground (arith, v.negated_is))
            (B.find-empty e) (B.find-empty e))
        (λ d.
          kept st s st.tuple_in st.tuple_since (survives none) v (ground (arith, v.negated_is)) refl
            refl)
  join-Shows (some tab_l) st s v =
      let cond : List T → ℕ → Bool =
        λ j t. erase_cond S B junk st (hash_all_destructive S tab_l) j in
      let same = erase_cond-survives st s tab_l v in
      elim (Bool-cases (survives (some tab_l))) [
        | inl c ↦
            kept st s (B.erase_if cond st.tuple_in) (B.erase_if cond st.tuple_since) _ v c
              (B.find-erase_if e cond st.tuple_in
                ∙ unless_no (cond e) (B.find e st.tuple_in) (λ n. same ∙ ap not c))
              (B.find-erase_if e cond st.tuple_since
                ∙ unless_no (cond e) (B.find e st.tuple_since) (λ n. same ∙ ap not c))
        | inr c ↦
            erased st s (B.erase_if cond st.tuple_in) (B.erase_if cond st.tuple_since) _ v c
              (B.find-erase_if e cond st.tuple_in
                ∙ unless_yes (cond e) (B.find e st.tuple_in) (λ n. same ∙ ap not c))
              (B.find-erase_if e cond st.tuple_since
                ∙ unless_yes (cond e) (B.find e st.tuple_since) (λ n. same ∙ ap not c))
      ]
