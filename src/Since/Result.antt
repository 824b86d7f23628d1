-- ===== src/Since/Result.antt =====
-- src/since_impl.h: the table that `eval` returns, on one row's view.
use cppmon.Shared.{
  ℕ, ◌≡◌, sym, ap, ◌∙◌, subst, ◌↔◌, ◌⊎◌, inl, inr, Bool, true, some, List, [], ◌∷◌, In, arith,
}
use cppmon.Hash.{HashSet, HashMap}
use cppmon.Interval.{Interval}
use cppmon.Table.{Table, of_size, add_row, contains}
use cppmon.Table.Contents.{
  RowIn, Holds, Holds-to_opt, contains-insert_self, contains-insert_old, contains-insert_inv,
}
use cppmon.Since.{SinceState, add_keys, produce_result}
use cppmon.Since.Single.{Single}
use cppmon.Since.Project.{Shows}

module _ {T : Type 0} (S : HashSet (List T)) (B : HashMap (List T) ℕ) (e : List T) where
  add_keys_old :
      (l : List (List T × ℕ)) (tab : Table S) → RowIn S e tab → RowIn S e (add_keys S B l tab)
  unfolding add_keys add_row contains
  add_keys_old [] tab h = h
  add_keys_old ((j, t) ∷ l) tab h =
      add_keys_old l (add_row S j tab) (contains-insert_old S e j tab.rows h)

  pub add_keys_new :
      (l : List (List T × ℕ)) (tab : Table S) (t : ℕ) → In (e, t) l → RowIn S e (add_keys S B l tab)
  unfolding add_keys
  add_keys_new [] tab t i = absurd i
  add_keys_new ((j, u) ∷ l) tab t (inl p) = add_keys_old l (add_row S j tab) (
      unfold add_row contains in
      subst (λ k. S.contains e (S.insert k tab.rows) ≡ true) (sym (ap (λ q. q.0) p))
        (contains-insert_self S e tab.rows))
  add_keys_new ((j, u) ∷ l) tab t (inr i) = add_keys_new l (add_row S j tab) t i

  pub add_keys_inv :
      (l : List (List T × ℕ)) (tab : Table S)
      → RowIn S e (add_keys S B l tab)
      → ((t : ℕ) × In (e, t) l) ⊎ RowIn S e tab
  unfolding add_keys add_row contains
  add_keys_inv [] tab h = inr h
  add_keys_inv ((j, u) ∷ l) tab h = elim (add_keys_inv l (add_row S j tab) h) [
    | inl (t, i) ↦ inl (t, inr i)
    | inr k ↦ elim (contains-insert_inv S e j tab.rows k) [
      | inl p ↦ inl (u, inl (ap (λ q. (q, u)) p))
      | inr o ↦ inr o
    ]
  ]

module _ {T : Type 0} (S : HashSet (List T)) (B : HashMap (List T) ℕ) (e : List T)
    (inter : Interval) (neg : Bool) (idx : List ℕ) where
  -- The row is in the table that is returned exactly when it has an entry in tuple_in.
  pub produce_result-Holds :
      (st : SinceState S B) (s : Single)
      → Shows S B e inter neg idx st s
      → Holds S e (produce_result S B st) ↔ ((t : ℕ) × (s.tin ≡ some t))
  unfolding produce_result
  produce_result-Holds st s v =
      let rows = B.entries st.tuple_in in
      let tab = of_size S st.nfvs in
      let opt = Holds-to_opt S e (add_keys S B rows tab) in
      (
        λ h. elim (add_keys_inv S B e rows tab (opt.0 h)) [
          | inl (t, i) ↦ (t, sym v.tin_is ∙ (B.find-entries e t st.tuple_in).1 i)
          | inr k ↦ absurd (unfold of_size contains in ground (arith, S.contains-empty e))
        ],
        λ (t, p).
            opt.1
              (add_keys_new S B e rows tab t ((B.find-entries e t st.tuple_in).0 (v.tin_is ∙ p))),
      )
