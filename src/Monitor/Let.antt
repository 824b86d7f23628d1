-- ===== src/Monitor/Let.antt =====
-- src/monitor.cpp: MLet, which evaluates its second subformula on a database in which the tables of
-- the first one stand for a predicate, and then puts the database back. A subformula's state is a
-- function of the database, which it may change.
use cppmon.Shared.{
  ℕ, ◌≡◌, refl, sym, ap, ◌∙◌, inl, inr, ite, Option, none, some, List, [], ◌∷◌, Option-cases, arith,
}
use cppmon.Hash.{HashSet, HashMap, emplace, find-emplace}
use cppmon.Table.{OptTable, filter_rows}

ite_intro : {A P : Type 0} (d : Dec P) (x y z : A) → (P → x ≡ z) → (¬ P → y ≡ z) → ite d x y ≡ z
ite_intro (yes p) x y z f g = f p
ite_intro (no n) x y z f g = g n

module _ {T : Type 0} (S : HashSet (List T)) (junk : T) (D : HashMap ℕ (List (List (List T)))) where
  pub record MLet : Type 0 where
    pub projection_mask : List ℕ
    pub pred_id : ℕ
    pub phi_state : D.Carrier → List (OptTable S) × D.Carrier
    pub psi_state : D.Carrier → List (OptTable S) × D.Carrier

  unfoldable pub project_tab : List ℕ → OptTable S → List (List T)
  unfolding filter_rows
  project_tab mask none = []
  project_tab mask (some l_tab) = filter_rows S junk mask (S.to_list l_tab.rows)

  unfoldable pub project_tabs : List ℕ → List (OptTable S) → List (List (List T))
  unfolding project_tab
  project_tabs mask [] = []
  project_tabs mask (l_tab ∷ l_tabs) = project_tab mask l_tab ∷ project_tabs mask l_tabs

  -- `if (matching_idx != db.end()) { ...; db.erase(matching_idx); }`
  unfoldable pub take_out : ℕ → Option (List (List (List T))) → D.Carrier → D.Carrier
  take_out pred_id none db = db
  take_out pred_id (some ent) db = D.erase pred_id db

  -- `if (old_db_ent) db.emplace(pred_id, old_db_ent.value())`
  unfoldable pub put_back : ℕ → Option (List (List (List T))) → D.Carrier → D.Carrier
  unfolding emplace
  put_back pred_id none db = db
  put_back pred_id (some ent) db = emplace D pred_id ent db

  -- The database for the second subformula.
  unfoldable pub let_db : MLet → List (OptTable S) → D.Carrier → D.Carrier
  unfolding take_out project_tabs emplace
  let_db st l_tabs db =
      emplace D st.pred_id (project_tabs st.projection_mask l_tabs)
        (take_out st.pred_id (D.find st.pred_id db) db)

  unfoldable pub let_eval : MLet → D.Carrier → List (OptTable S) × D.Carrier
  unfolding let_db put_back
  let_eval st db =
      let (l_tabs, db1) = st.phi_state db in
      let (res, db2) = st.psi_state (let_db st l_tabs db1) in
      (res, put_back st.pred_id (D.find st.pred_id db1) (D.erase st.pred_id db2))

  -- The state leaves every entry of the database as it was.
  abbrev pub Keeps : {A : Type 0} → (D.Carrier → A × D.Carrier) → Type 0
  Keeps f = (db : D.Carrier) (k : ℕ) → D.find k (f db).1 ≡ D.find k db

  pub let_db-find :
      (st : MLet) (l_tabs : List (OptTable S)) (db : D.Carrier) (k : ℕ)
      → D.find k (let_db st l_tabs db)
        ≡ ite (D.eq st.pred_id k) (some (project_tabs st.projection_mask l_tabs)) (D.find k db)
  unfolding let_db take_out
  let_db-find st l_tabs db k = elim (Option-cases (D.find st.pred_id db)) [
    | inl e ↦
        rw e
          (ground (arith, find-emplace D k st.pred_id (project_tabs st.projection_mask l_tabs) db))
    | inr (ent, e) ↦ rw e (
        ground (
          arith,
          find-emplace D k st.pred_id (project_tabs st.projection_mask l_tabs)
              (D.erase st.pred_id db),
          D.find-erase k st.pred_id db,
          D.find-erase st.pred_id st.pred_id db,
        ))
  ]

  put_back-find :
      (pred_id : ℕ) (old : Option (List (List (List T)))) (db : D.Carrier) (k : ℕ)
      → D.find pred_id db ≡ none
      → D.find k (put_back pred_id old db) ≡ ite (D.eq pred_id k) old (D.find k db)
  unfolding put_back
  put_back-find pred_id none db k h = sym (
      ite_intro (D.eq pred_id k) none (D.find k db) _ (λ p. sym h ∙ ap (λ q. D.find q db) p)
        (λ n. refl))
  put_back-find pred_id (some ent) db k h = ground (arith, find-emplace D k pred_id ent db)

  -- A LET whose subformulas leave every entry of the database as it was does so too, also when it
  -- shadows a predicate of the database.
  pub let_eval-Keeps :
      (st : MLet)
      → Keeps st.phi_state
      → Keeps st.psi_state
      → (db : D.Carrier) (k : ℕ) → D.find k (let_eval st db).1 ≡ D.find k db
  unfolding let_eval
  let_eval-Keeps st phi psi db k =
      let db1 = (st.phi_state db).1 in
      let l_tabs = (st.phi_state db).0 in
      let db2 = (st.psi_state (let_db st l_tabs db1)).1 in
      let missing : D.find st.pred_id (D.erase st.pred_id db2) ≡ none =
        ground (arith, D.find-erase st.pred_id st.pred_id db2) in
      let back =
        put_back-find st.pred_id (D.find st.pred_id db1) (D.erase st.pred_id db2) k missing in
      back
      ∙ ite_intro (D.eq st.pred_id k) (D.find st.pred_id db1) (D.find k (D.erase st.pred_id db2))
          (D.find k db1) (λ p. ap (λ q. D.find q db1) p)
          (λ n. ground (
            arith,
            n,
            D.find-erase k st.pred_id db2,
            psi (let_db st l_tabs db1) k,
            let_db-find st l_tabs db1 k,
          ))
      ∙ phi db k
