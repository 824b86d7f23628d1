-- ===== src/Monitor/Fused/Fusion.antt =====
-- MFusedUnaryOps::eval on the table of one time point, and combine_fused_state: an operation that is
-- added to a fused state acts as one on the state's results.
use cppmon.Shared.{
  ℕ, fun_ext, ◌≡◌, ◌≢◌, refl, sym, ap, ◌∙◌, subst, ◌↔◌, ◌⊎◌, inl, inr, true, Option, none, some,
  List, [], ◌∷◌, ◌++◌, length, In, arith, Option-cases,
}
use cppmon.Hash.{HashSet}
use cppmon.EventData.{Double, EventData}
use cppmon.Layout.{TableLayout}
use cppmon.Table.{Table, OptTable, of_size, add_row, to_opt, contains}
use cppmon.Table.Contents.{
  RowIn, Holds, Holds-to_opt, contains-insert_self, contains-insert_old, contains-insert_inv,
}
use cppmon.Term.{bind}
use cppmon.Monitor.Fused.{
  UnOp, MFusedUnaryOps, continue, combine_fused_state, op_eval, run_ops, add_kept, run_rows,
  fused_tab,
}

continue_assoc :
    {R : Type 0} (r : Option (Option R)) (f g : R → Option (Option R))
    → continue (continue r f) g ≡ continue r (λ x. continue (f x) g)
continue_assoc none f g = refl
continue_assoc (some none) f g = refl
continue_assoc (some (some x)) f g = refl

continue_kept : {R : Type 0} (r : Option (Option R)) → continue r (λ x. some (some x)) ≡ r
continue_kept none = refl
continue_kept (some none) = refl
continue_kept (some (some x)) = refl

-- A run of two parts that ends otherwise than with a row that is not kept, and does not fail in the
-- first part, keeps a row between them.
continue_iff :
    {R : Type 0} (r : Option (Option R)) (f : R → Option (Option R)) (t : Option (Option R))
    → r ≢ none
    → t ≢ some none
    → (continue r f ≡ t) ↔ ((x : R) × (r ≡ some (some x)) × (f x ≡ t))
continue_iff none f t n k = absurd (n refl)
continue_iff (some none) f t n k = (λ h. absurd (k (sym h)), λ (x, e, h). absurd (cc))
continue_iff (some (some x)) f t n k = (λ h. (x, refl, h), λ (y, e, h). cc)

bind-none : {A B : Type 0} (o : Option A) (g : A → B) → bind o (λ a. some (g a)) ≡ none ↔ (o ≡ none)
bind-none none g = (λ h. refl, λ h. refl)
bind-none (some a) g = (λ h. absurd (cc), λ h. absurd (cc))

bind-some :
    {A B : Type 0} (o : Option A) (g : A → B) (b : B)
    → bind o (λ a. some (g a)) ≡ some b
    → (a : A) × (o ≡ some a) × (g a ≡ b)
bind-some none g b h = absurd (cc)
bind-some (some a) g b h = (a, refl, cc)

module _ (D : Double) where
  run_ops-append :
      (ops : List (UnOp (EventData D))) (op : UnOp (EventData D)) (row : List (EventData D))
      → run_ops D (ops ++ (op ∷ [])) row ≡ continue (run_ops D ops row) (run_ops D (op ∷ []))
  unfolding run_ops
  run_ops-append [] op row = refl
  run_ops-append (o ∷ ops) op row =
      ap (continue (op_eval D o row)) (fun_ext (λ x. run_ops-append ops op x))
      ∙ sym (continue_assoc (op_eval D o row) (run_ops D ops) (run_ops D (op ∷ [])))

  module _ (S : HashSet (List (EventData D))) where
    abbrev pub Row : Type 0
    Row = List (EventData D)

    -- Some row of the table ends so.
    abbrev pub Ends : List (UnOp (EventData D)) → OptTable S → Option (Option Row) → Type 0
    Ends ops tab t = (row : Row) × Holds S row tab × (run_ops D ops row ≡ t)

    run_rows-none :
        (ops : List (UnOp (EventData D))) (rows : List Row) (tab : Table S)
        → (run_rows D S ops rows tab ≡ none)
          ↔ ((row : Row) × In row rows × (run_ops D ops row ≡ none))
    unfolding run_rows
    run_rows-none ops [] tab = (λ h. absurd (cc), λ (row, i, h). absurd i)
    run_rows-none ops (r ∷ rows) tab = elim (Option-cases (run_ops D ops r)) [
      | inl e ↦ (λ h. (r, inl refl, e), λ h. rw e refl)
      | inr (res, e) ↦
          let rest = run_rows-none ops rows (add_kept D S res tab) in
          rw (run_rows, e)
            (
              λ h. let (row, i, q) = rest.0 h in (row, inr i, q),
              λ (row, i, q). elim i [ inl p ↦ absurd (cc) | inr j ↦ rest.1 (row, j, q) ],
            )
    ]

    add_kept_iff :
        (res : Option Row) (tab : Table S) (x : Row)
        → RowIn S x (add_kept D S res tab) ↔ ((res ≡ some x) ⊎ RowIn S x tab)
    unfolding add_kept add_row contains
    add_kept_iff none tab x = (λ h. inr h, λ h. elim h [ inl e ↦ absurd (cc) | inr k ↦ k ])
    add_kept_iff (some r) tab x = (
      λ h. elim (contains-insert_inv S x r tab.rows h) [ inl e ↦ inl (ap some e) | inr k ↦ inr k ],
      λ h. elim h [
        | inl e ↦
            let same : r ≡ x = cc in
            subst (λ k. S.contains x (S.insert k tab.rows) ≡ true) (sym same)
              (contains-insert_self S x tab.rows)
        | inr k ↦ contains-insert_old S x r tab.rows k
      ],
    )

    run_rows-some :
        (ops : List (UnOp (EventData D))) (rows : List Row) (tab out : Table S) (x : Row)
        → run_rows D S ops rows tab ≡ some out
        → RowIn S x out
          ↔ (((row : Row) × In row rows × (run_ops D ops row ≡ some (some x))) ⊎ RowIn S x tab)
    unfolding run_rows
    run_rows-some ops [] tab out x h =
        let same : tab ≡ out = cc in
        (
          λ k. inr (subst (RowIn S x) (sym same) k),
          λ k. elim k [ inl (row, i, q) ↦ absurd i | inr old ↦ subst (RowIn S x) same old ],
        )
    run_rows-some ops (r ∷ rows) tab out x h = elim (Option-cases (run_ops D ops r)) [
      | inl e ↦ absurd (cc)
      | inr (res, e) ↦
          let rest = run_rows-some ops rows (add_kept D S res tab) out x (cc) in
          let one = add_kept_iff res tab x in
          (
            λ k. elim (rest.0 k) [
              | inl (row, i, q) ↦ inl (row, inr i, q)
              | inr m ↦ elim (one.0 m) [ inl p ↦ inl (r, inl refl, cc) | inr old ↦ inr old ]
            ],
            λ k. elim k [
              | inl (row, i, q) ↦ elim i [
                | inl p ↦ rest.1 (inr (one.1 (inl (cc))))
                | inr j ↦ rest.1 (inl (row, j, q))
              ]
              | inr old ↦ rest.1 (inr (one.1 (inr old)))
            ],
          )
    ]

    Holds-In : (x : Row) (tab : Table S) → Holds S x (some tab) ↔ In x (S.to_list tab.rows)
    unfolding contains
    Holds-In x tab = S.contains-to_list x tab.rows

    fused_tab-none :
        (st : MFusedUnaryOps (EventData D)) (tab : OptTable S)
        → (fused_tab D S st tab ≡ none) ↔ Ends st.un_ops tab none
    unfolding fused_tab
    fused_tab-none st none = (λ h. absurd (cc), λ (row, h, q). absurd h)
    fused_tab-none st (some tab) =
        let rows = S.to_list tab.rows in
        let b = bind-none (run_rows D S st.un_ops rows (of_size S st.nfvs)) (to_opt S) in
        let all = run_rows-none st.un_ops rows (of_size S st.nfvs) in
        (
          λ h. let (row, i, q) = all.0 (b.0 h) in (row, (Holds-In row tab).1 i, q),
          λ (row, h, q). b.1 (all.1 (row, (Holds-In row tab).0 h, q)),
        )

    fused_tab-some :
        (st : MFusedUnaryOps (EventData D)) (tab out : OptTable S) (x : Row)
        → fused_tab D S st tab ≡ some out
        → Holds S x out ↔ Ends st.un_ops tab (some (some x))
    unfolding fused_tab of_size contains
    fused_tab-some st none out x h =
        let same : none ≡ out = cc in
        (λ k. absurd (subst (Holds S x) (sym same) k), λ (row, k, q). absurd k)
    fused_tab-some st (some tab) out x h =
        let rows = S.to_list tab.rows in
        let (t, e, p) =
          bind-some (run_rows D S st.un_ops rows (of_size S st.nfvs)) (to_opt S) out h in
        let all = run_rows-some st.un_ops rows (of_size S st.nfvs) t x e in
        let opt = Holds-to_opt S x t in
        (
          λ k. elim (all.0 (opt.0 (subst (Holds S x) (sym p) k))) [
            | inl (row, i, q) ↦ (row, (Holds-In row tab).1 i, q)
            | inr old ↦ absurd (ground (arith, S.contains-empty x))
          ],
          λ (row, k, q). subst (Holds S x) p (opt.1 (all.1 (inl (row, (Holds-In row tab).0 k, q)))),
        )

    -- Both throw, or both give tables with the same rows.
    abbrev pub SameResult : Option (OptTable S) → Option (OptTable S) → Type 0
    SameResult none none = Unit
    SameResult none (some b) = ⊥
    SameResult (some a) none = ⊥
    SameResult (some a) (some b) = (x : Row) → Holds S x a ↔ Holds S x b

    both_iff :
        (o p : Option (OptTable S))
        → ((o ≡ none) ↔ (p ≡ none))
        → ((a b : OptTable S) → o ≡ some a → p ≡ some b → (x : Row) → Holds S x a ↔ Holds S x b)
        → SameResult o p
    both_iff none none f g = tt
    both_iff none (some b) f g = absurd (cc (f.0 refl))
    both_iff (some a) none f g = absurd (cc (f.1 refl))
    both_iff (some a) (some b) f g = g a b refl refl

    module _ (ops : List (UnOp (EventData D))) (op : UnOp (EventData D)) (nfvs : ℕ)
        (tab : OptTable S) where
      abbrev single : MFusedUnaryOps (EventData D)
      single = record { un_ops = op ∷ []; nfvs = nfvs }

      -- Through a middle table, where no row throws on the way to it.
      through :
          (mid : OptTable S) (n : ℕ) (t : Option (Option Row))
          → fused_tab D S (record { un_ops = ops; nfvs = n }) tab ≡ some mid
          → t ≢ some none
          → Ends (ops ++ (op ∷ [])) tab t ↔ Ends (op ∷ []) mid t
      through mid n t e k =
          let st : MFusedUnaryOps (EventData D) = record { un_ops = ops; nfvs = n } in
          let ok : (row : Row) → Holds S row tab → run_ops D ops row ≢ none =
            λ row h q. absurd (cc (e, (fused_tab-none st tab).1 (row, h, q))) in
          let step : (row : Row)
              → Holds S row tab
              → (run_ops D (ops ++ (op ∷ [])) row ≡ t)
                ↔ ((x : Row) × (run_ops D ops row ≡ some (some x)) × (run_ops D (op ∷ []) x ≡ t)) =
            λ row h.
              subst
                (λ r.
                  (r ≡ t)
                  ↔ ((x : Row) × (run_ops D ops row ≡ some (some x)) × (run_ops D (op ∷ []) x ≡ t)))
                (sym (run_ops-append ops op row))
                (continue_iff (run_ops D ops row) (run_ops D (op ∷ [])) t (ok row h) k) in
          (
            λ (row, h, q).
                let (x, p, r) = (step row h).0 q in
                (x, (fused_tab-some st tab mid x e).1 (row, h, p), r),
            λ (x, h, r).
                let (row, l, p) = (fused_tab-some st tab mid x e).0 h in
                (row, l, (step row l).1 (x, p, r)),
          )

      after :
          (n : ℕ)
          → SameResult
              (fused_tab D S (record { un_ops = ops ++ (op ∷ []); nfvs = nfvs }) tab)
              (bind (fused_tab D S (record { un_ops = ops; nfvs = n }) tab) (fused_tab D S single))
      after n = elim (Option-cases (fused_tab D S (record { un_ops = ops; nfvs = n }) tab)) [
        | inl e ↦
            let st : MFusedUnaryOps (EventData D) = record { un_ops = ops; nfvs = n } in
            let (row, h, q) = (fused_tab-none st tab).0 e in
            let whole : run_ops D (ops ++ (op ∷ [])) row ≡ none =
              run_ops-append ops op row ∙ ap (λ r. continue r (run_ops D (op ∷ []))) q in
            rw (e, (fused_tab-none all tab).1 (row, h, whole)) tt
        | inr (mid, e) ↦ rw e (
            both_iff (fused_tab D S all tab) (fused_tab D S single mid)
              (
                λ h.
                    (fused_tab-none single mid).1
                      ((through mid n none e (λ q. cc)).0 ((fused_tab-none all tab).0 h)),
                λ h.
                    (fused_tab-none all tab).1
                      ((through mid n none e (λ q. cc)).1 ((fused_tab-none single mid).0 h)),
              )
              (λ a b p q x. (
                λ h. (fused_tab-some single mid b x q).1 (
                    (through mid n (some (some x)) e (λ r. cc)).0
                      ((fused_tab-some all tab a x p).0 h)),
                λ h. (fused_tab-some all tab a x p).1 (
                    (through mid n (some (some x)) e (λ r. cc)).1
                      ((fused_tab-some single mid b x q).0 h)),
              )))
      ]
        where
          all : MFusedUnaryOps (EventData D)
          all = record { un_ops = ops ++ (op ∷ []); nfvs = nfvs }

    -- A fused state that combine_fused_state adds an operation to evaluates a table as the state alone
    -- does, followed by the operation alone: either both throw, or the results have the same rows.
    pub combine_fused_state_lem :
        (op : UnOp (EventData D)) (this_layout : TableLayout) (st : MFusedUnaryOps (EventData D))
        (tab : OptTable S)
        → SameResult
            (fused_tab D S (combine_fused_state op this_layout (some st)) tab)
            (bind (fused_tab D S st tab) (fused_tab D S (combine_fused_state op this_layout none)))
    unfolding combine_fused_state
    combine_fused_state_lem op this_layout st tab =
        after st.un_ops op (length this_layout) tab st.nfvs
