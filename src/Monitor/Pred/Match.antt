-- ===== src/Monitor/Pred/Match.antt =====
-- Matching the events of a time point: which rows a predicate gives.
use cppmon.Shared.{
  ℕ, ◌≡◌, ◌≢◌, refl, sym, ap, ◌∙◌, subst, ◌↔◌, ◌⊎◌, inl, inr, Bool, true, false, not, Option, none,
  some, List, [], ◌∷◌, get_or, holds, In, All, arith, Bool-cases, Option-cases, if◌then◌else◌,
}
use cppmon.Hash.{HashSet}
use cppmon.Table.{Table, of_size, add_row, contains}
use cppmon.Table.Contents.{
  RowIn, Holds, Holds-to_opt, contains-insert_self, contains-insert_old, contains-insert_inv,
}
use cppmon.Monitor.Pred.{
  MPred, csts_match, rest_match, match_vars, match_event, match_events, events_tab,
}

-- A test after a decided guard.
guard_iff :
    {P Q : Type 0} (d : Dec P) (b : Bool)
    → ((b ≡ true) ↔ Q)
    → ((if not (holds d) then false else b) ≡ true) ↔ (P × Q)
guard_iff (yes p) b (f, g) = (λ h. (p, f h), λ (q, h). g h)
guard_iff (no n) b (f, g) = (λ h. absurd (cc), λ (q, h). absurd (n q))

module _ {T : Type 0} (eq : Discrete T) (junk : T) where
  -- The event has the constants where the predicate has them.
  abbrev pub HasCsts : List T → List (ℕ × T) → Type 0
  HasCsts event_args = All (λ p. get_or event_args p.0 junk ≡ p.1)

  -- The row gives each variable the value that the event has at all its positions.
  abbrev pub Binds : List T → List (List ℕ) → List T → Type 0
  Binds event_args [] [] = Unit
  Binds event_args [] (v ∷ row) = ⊥
  Binds event_args (poss ∷ var_pos) [] = ⊥
  Binds event_args (poss ∷ var_pos) (v ∷ row) =
      All (λ pos. get_or event_args pos junk ≡ v) poss × Binds event_args var_pos row

  -- Every variable has a position.
  abbrev pub Placed : List (List ℕ) → Type 0
  Placed = All (λ poss. poss ≢ [])

  cons_if_inv :
      (b : Bool) (o : Option (List T)) (x : T) (row : List T)
      → (if not b then none else elim o [ none ↦ none | some res ↦ some (x ∷ res) ]) ≡ some row
      → (b ≡ true) × ((r : List T) × (o ≡ some r) × (x ∷ r ≡ row))
  cons_if_inv true none x row h = absurd (cc)
  cons_if_inv true (some r) x row h = (refl, (r, refl, cc))
  cons_if_inv false o x row h = absurd (cc)

  csts_match-HasCsts :
      (event_args : List T) (pos_2_cst : List (ℕ × T))
      → (csts_match eq junk event_args pos_2_cst ≡ true) ↔ HasCsts event_args pos_2_cst
  unfolding csts_match
  csts_match-HasCsts event_args [] = (λ h. tt, λ h. refl)
  csts_match-HasCsts event_args ((pos, cst) ∷ l) =
      guard_iff (eq (get_or event_args pos junk) cst) _ (csts_match-HasCsts event_args l)

  rest_match_iff :
      (event_args : List T) (v : T) (poss : List ℕ)
      → (rest_match eq junk event_args v poss ≡ true)
        ↔ All (λ pos. get_or event_args pos junk ≡ v) poss
  unfolding rest_match
  rest_match_iff event_args v [] = (λ h. tt, λ h. refl)
  rest_match_iff event_args v (pos ∷ poss) =
      guard_iff (eq (get_or event_args pos junk) v) _ (rest_match_iff event_args v poss)

  match_vars-Binds :
      (event_args : List T) (var_pos : List (List ℕ)) (row : List T)
      → Placed var_pos
      → (match_vars eq junk event_args var_pos ≡ some row) ↔ Binds event_args var_pos row
  unfolding match_vars
  match_vars-Binds event_args [] [] p = (λ h. tt, λ h. refl)
  match_vars-Binds event_args [] (v ∷ row) p = (λ h. absurd (cc), λ h. absurd h)
  match_vars-Binds event_args ([] ∷ var_pos) row (n, p) = absurd (n refl)
  match_vars-Binds event_args ((pos ∷ poss) ∷ var_pos) [] (n, p) =
      (λ h. let (b, (r, o, e)) = cons_if_inv _ _ _ _ h in absurd (cc), λ h. absurd h)
  match_vars-Binds event_args ((pos ∷ poss) ∷ var_pos) (v ∷ row) (n, p) =
      let rec = match_vars-Binds event_args var_pos row p in
      let here = rest_match_iff event_args (get_or event_args pos junk) poss in
      (
        λ h.
            let (b, (r, o, e)) = cons_if_inv _ _ _ _ h in
            let same : get_or event_args pos junk ≡ v = cc in
            (
              (same, subst (λ w. All (λ q. get_or event_args q junk ≡ w) poss) same (here.0 b)),
              rec.0 (cc),
            ),
        λ ((same, all), bound).
            let b =
              here.1 (subst (λ w. All (λ q. get_or event_args q junk ≡ w) poss) (sym same) all) in
            rw (b, rec.1 bound) (ap (λ w. some (w ∷ row)) same),
      )

  module _ (S : HashSet (List T)) (st : MPred T) (placed : Placed st.var_pos) where
    -- The event has the predicate's constants and the row its values at the variables.
    abbrev pub Matches : List T → List T → Type 0
    Matches event_args row = HasCsts event_args st.pos_2_cst × Binds event_args st.var_pos row

    match_event-Matches :
        (event_args : List T) (acc_tab : Table S) (x : List T)
        → RowIn S x (match_event eq junk S st event_args acc_tab)
          ↔ (Matches event_args x ⊎ RowIn S x acc_tab)
    unfolding match_event add_row contains
    match_event-Matches event_args acc_tab x =
        let csts = csts_match-HasCsts event_args st.pos_2_cst in
        let vars = match_vars-Binds event_args st.var_pos x placed in
        elim (Bool-cases (csts_match eq junk event_args st.pos_2_cst)) [
          | inr c ↦
              rw (match_event, c)
                (λ h. inr h, λ h. elim h [ inl (m, b) ↦ absurd (cc (csts.1 m)) | inr old ↦ old ])
          | inl c ↦ elim (Option-cases (match_vars eq junk event_args st.var_pos)) [
            | inl o ↦
                rw (match_event, c, o)
                  (λ h. inr h, λ h. elim h [ inl (m, b) ↦ absurd (cc (vars.1 b)) | inr old ↦ old ])
            | inr (r, o) ↦
                rw (match_event, c, o)
                  (
                    λ h. elim (contains-insert_inv S x r acc_tab.rows h) [
                      | inl e ↦ inl (csts.0 c, vars.0 (o ∙ ap some e))
                      | inr old ↦ inr old
                    ],
                    λ h. elim h [
                      | inl (m, b) ↦
                          let same : x ≡ r = cc (vars.1 b) in
                          rw same (contains-insert_self S r acc_tab.rows)
                      | inr old ↦ contains-insert_old S x r acc_tab.rows old
                    ],
                  )
          ]
        ]

    match_events-Matches :
        (evs : List (List T)) (tab : Table S) (x : List T)
        → RowIn S x (match_events eq junk S st evs tab)
          ↔ (((ev : List T) × In ev evs × Matches ev x) ⊎ RowIn S x tab)
    unfolding match_events
    match_events-Matches [] tab x =
        (λ h. inr h, λ h. elim h [ inl (ev, i, m) ↦ absurd i | inr old ↦ old ])
    match_events-Matches (e ∷ evs) tab x =
        let one = match_event-Matches e tab x in
        let rest = match_events-Matches evs (match_event eq junk S st e tab) x in
        (
          λ h. elim (rest.0 h) [
            | inl (ev, i, m) ↦ inl (ev, inr i, m)
            | inr k ↦ elim (one.0 k) [ inl m ↦ inl (e, inl refl, m) | inr old ↦ inr old ]
          ],
          λ h. elim h [
            | inl (ev, i, m) ↦ elim i [
              | inl p ↦ rest.1 (inr (one.1 (inl (subst (λ q. Matches q x) (sym p) m))))
              | inr j ↦ rest.1 (inl (ev, j, m))
            ]
            | inr old ↦ rest.1 (inr (one.1 (inr old)))
          ],
        )

    -- The table of one time point holds exactly the rows for which some event of the predicate has
    -- the predicate's constants and, at all positions of each variable, the row's value for it. Each
    -- variable of the predicate has a position.
    pub events_tab-Matches :
        (evs : List (List T)) (x : List T)
        → Holds S x (events_tab eq junk S st evs) ↔ ((ev : List T) × In ev evs × Matches ev x)
    unfolding events_tab of_size contains
    events_tab-Matches evs x =
        let tab = of_size S st.nfvs in
        let opt = Holds-to_opt S x (match_events eq junk S st evs tab) in
        let all = match_events-Matches evs tab x in
        (
          λ h. elim (all.0 (opt.0 h)) [
            | inl found ↦ found
            | inr k ↦ absurd (ground (arith, S.contains-empty x))
          ],
          λ found. opt.1 (all.1 (inl found)),
        )
