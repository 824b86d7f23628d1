-- ===== src/Formula/Preds/Calls.antt =====
-- src/formula.cpp: what a call of add_pred_to_map does, and that the numbers tell predicates apart.
use Prim.Native.String.{String}
use cppmon.Shared.{
  ℕ, suc, ◌+◌, ◌%◌, ◌≤◌, ◌<◌, ◌≡◌, ◌↔◌, ◌⊎◌, inl, inr, refl, sym, subst, ap, ◌∙◌, Option, none,
  some, arith, Option-cases, ite,
}
use cppmon.Hash.{HashMap, emplace, find-emplace}
use cppmon.Formula.Preds.{
  pred_id_mod, PredState, initial_preds, user_pred_id, choose_pred_id, add_pred_to_map,
}
use cppmon.Formula.Preds.Numbering.{
  builtin, builtin-below, builtin_injective, Numbered, Numbered-new, Numbered-old,
}

module _ (M : HashMap (String × ℕ) ℕ) where
  abbrev pub lookup : PredState M → String × ℕ → Option ℕ
  lookup st k = M.find k st.known_preds

  -- The state after a name and arity, by whether they are a built-in predicate and known.
  choose_pred_id-builtin :
      (name : String) (arity p : ℕ) (st : PredState M)
      → builtin (name, arity) ≡ some p
      → choose_pred_id M name arity st ≡ (p, st.pred_id_counter)
  unfolding choose_pred_id builtin
  choose_pred_id-builtin name arity p st e = ground (arith, e)

  choose_pred_id-user :
      (name : String) (arity : ℕ) (st : PredState M)
      → builtin (name, arity) ≡ none
      → choose_pred_id M name arity st ≡ user_pred_id (lookup st (name, arity)) st.pred_id_counter
  unfolding choose_pred_id builtin
  choose_pred_id-user name arity st e = ground (arith, e)

  -- What a call that returned `r` has done to the state `st`.
  pub record Added (st : PredState M) (k : String × ℕ) (r : ℕ × PredState M) : Type 0 where
    pub numbered : Numbered (lookup r.1) r.1.pred_id_counter
    pub known : lookup r.1 k ≡ some r.0
    pub kept : (j : String × ℕ) (q : ℕ) → lookup st j ≡ some q → lookup r.1 j ≡ some q
    pub up : r.1.pred_id_counter ≤ st.pred_id_counter + 1

  abbrev after_choice : PredState M → String × ℕ → ℕ × ℕ → ℕ × PredState M
  after_choice st k c =
      (c.0, record { known_preds = emplace M k c.0 st.known_preds; pred_id_counter = c.1 })

  Added-new :
      (st : PredState M) (k : String × ℕ) (p next : ℕ)
      → Numbered (lookup st) st.pred_id_counter
      → lookup st k ≡ none
      → st.pred_id_counter ≤ next
      → next ≤ st.pred_id_counter + 1
      → p < next
      → (builtin k ≡ some p) ⊎ ((builtin k ≡ none) × (3 ≤ p))
      → ((j : String × ℕ) → lookup st j ≡ some p → j ≡ k)
      → Added st k (after_choice st k (p, next))
  Added-new st k p next n new ge le lt is fresh = record {
    numbered = Numbered-new M.eq (lookup st) _ k st.pred_id_counter next p n g ge lt is fresh;
    known = elim (M.eq k k) [ yes s ↦ ground (arith, g k) | no s ↦ absurd (s refl) ];
    kept = λ j q e. elim (M.eq k j) [
      | yes s ↦ ground (arith, e, g j, ap (lookup st) s, new)
      | no s ↦ ground (arith, e, g j)
    ];
    up = le;
  }
    where
      g :
          (j : String × ℕ)
          → M.find j (emplace M k p st.known_preds) ≡ ite (M.eq k j) (some p) (lookup st j)
      g j = ground (arith, find-emplace M j k p st.known_preds, new)

  Added-old :
      (st : PredState M) (k : String × ℕ) (p : ℕ)
      → Numbered (lookup st) st.pred_id_counter
      → lookup st k ≡ some p
      → Added st k (after_choice st k (p, st.pred_id_counter))
  Added-old st k p n old = record {
    numbered = Numbered-old M.eq (lookup st) _ k st.pred_id_counter p n old g;
    known = elim (M.eq k k) [ yes s ↦ ground (arith, g k) | no s ↦ absurd (s refl) ];
    kept = λ j q e. elim (M.eq k j) [
      | yes s ↦ ground (arith, e, g j, ap (lookup st) s, old)
      | no s ↦ ground (arith, e, g j)
    ];
    up = omega arith;
  }
    where
      g :
          (j : String × ℕ)
          → M.find j (emplace M k p st.known_preds) ≡ ite (M.eq k j) (some p) (lookup st j)
      g j = ground (arith, find-emplace M j k p st.known_preds, old)

  add_pred_to_map_choice :
      (name : String) (arity : ℕ) (st : PredState M) (c : ℕ × ℕ)
      → choose_pred_id M name arity st ≡ c
      → add_pred_to_map M name arity st ≡ after_choice st (name, arity) c
  unfolding add_pred_to_map
  add_pred_to_map_choice name arity st c e = ap (after_choice st (name, arity)) e

  Added-builtin :
      (st : PredState M) (k : String × ℕ) (p : ℕ)
      → Numbered (lookup st) st.pred_id_counter
      → builtin k ≡ some p
      → Added st k (after_choice st k (p, st.pred_id_counter))
  Added-builtin st k p n b = elim (Option-cases (lookup st k)) [
    | inl new ↦
        Added-new st k p st.pred_id_counter n new (omega arith) (omega arith)
          (omega (arith, builtin-below k p b, n.low)) (inl b)
          (λ j e. elim (n.kind j p e) [
            | inl c ↦ builtin_injective j k p c b
            | inr (c, l) ↦ absurd (omega (arith, builtin-below k p b))
          ])
    | inr (w, old) ↦
        Added-old st k p n
          (elim (n.kind k w old) [ inl c ↦ old ∙ sym c ∙ b | inr (c, l) ↦ absurd (cc) ])
  ]

  Added-user :
      (st : PredState M) (k : String × ℕ)
      → Numbered (lookup st) st.pred_id_counter
      → st.pred_id_counter + 1 < pred_id_mod
      → builtin k ≡ none
      → Added st k (after_choice st k (user_pred_id (lookup st k) st.pred_id_counter))
  unfolding user_pred_id
  Added-user st k n lt b = elim (Option-cases (lookup st k)) [
    | inl new ↦ rw new (
        Added-new st k st.pred_id_counter ((st.pred_id_counter + 1) % pred_id_mod) n new
          (omega arith) (omega arith) (omega arith) (inr (b, n.low))
          (λ j e. absurd (omega (arith, n.below j st.pred_id_counter e))))
    | inr (w, old) ↦ rw old (Added-old st k w n old)
  ]

  -- While numbers are left, a call keeps the numbering well formed, enters the number that it
  -- returns for the name and arity, changes no number that was given before, and draws at most one.
  pub add_pred_to_map-Added :
      (name : String) (arity : ℕ) (st : PredState M)
      → Numbered (lookup st) st.pred_id_counter
      → st.pred_id_counter + 1 < pred_id_mod
      → Added st (name, arity) (add_pred_to_map M name arity st)
  add_pred_to_map-Added name arity st n lt = elim (Option-cases (builtin (name, arity))) [
    | inl b ↦
        subst (Added st (name, arity))
          (sym (add_pred_to_map_choice name arity st _ (choose_pred_id-user name arity st b)))
          (Added-user st (name, arity) n lt b)
    | inr (p, b) ↦
        subst (Added st (name, arity))
          (sym (add_pred_to_map_choice name arity st _ (choose_pred_id-builtin name arity p st b)))
          (Added-builtin st (name, arity) p n b)
  ]

  pub initial_preds-Numbered : Numbered (lookup (initial_preds M)) (initial_preds M).pred_id_counter
  unfolding initial_preds
  initial_preds-Numbered = record {
    low = omega arith;
    below = λ k p e. absurd (ground (arith, e, M.find-empty k));
    kind = λ k p e. absurd (ground (arith, e, M.find-empty k));
    one = λ k j p e f. absurd (ground (arith, e, M.find-empty k));
  }

  -- The states that n calls lead to.
  pub data Calls : ℕ → PredState M → PredState M → Type 0 where
    done : {st : PredState M} → Calls 0 st st
    call :
        {n : ℕ} {st end : PredState M} (name : String) (arity : ℕ)
        → Calls n (add_pred_to_map M name arity st).1 end
        → Calls (suc n) st end

  calls_keep :
      {n : ℕ} {st end : PredState M}
      → Calls n st end
      → Numbered (lookup st) st.pred_id_counter
      → st.pred_id_counter + n < pred_id_mod
      → Numbered (lookup end) end.pred_id_counter
        × ((j : String × ℕ) (q : ℕ) → lookup st j ≡ some q → lookup end j ≡ some q)
        × (end.pred_id_counter ≤ st.pred_id_counter + n)
  calls_keep done n lt = (n, λ j q e. e, omega arith)
  calls_keep {n = suc m} {st = st} (call name arity rest) n lt =
      let a = add_pred_to_map-Added name arity st n (omega arith) in
      let (end_numbered, keep, le) = calls_keep rest a.numbered (omega (arith, a.up)) in
      (end_numbered, λ j q e. keep j q (a.kept j q e), omega (arith, a.up))

  -- Starting from no predicates, two calls with any number of calls before and between them return
  -- the same number exactly when they have the same name and arity, as long as the numbers do not
  -- reach 2 ^ 32.
  pub add_pred_to_map-distinct :
      {m n : ℕ} {st end : PredState M} (name name2 : String) (arity arity2 : ℕ)
      → Calls m (initial_preds M) st
      → Calls n (add_pred_to_map M name arity st).1 end
      → m + n + 5 < pred_id_mod
      → ((add_pred_to_map M name arity st).0 ≡ (add_pred_to_map M name2 arity2 end).0)
        ↔ (Path (String × ℕ) (name, arity) (name2, arity2))
  unfolding initial_preds
  add_pred_to_map-distinct {st = st} {end = end} name name2 arity arity2 before between lt =
      let (n1, k1, l1) = calls_keep before initial_preds-Numbered (omega (arith, counter_start)) in
      let a = add_pred_to_map-Added name arity st n1 (omega (arith, l1, counter_start)) in
      let (n2, k2, l2) = calls_keep between a.numbered (omega (arith, l1, a.up, counter_start)) in
      let b =
        add_pred_to_map-Added name2 arity2 end n2 (omega (arith, l1, l2, a.up, counter_start)) in
      let first = b.kept (name, arity) _ (k2 (name, arity) _ a.known) in
      (
        λ e. b.numbered.one (name, arity) (name2, arity2) _ (first ∙ ap some e) b.known,
        λ e.
            some_injective
              (sym first ∙ ap (lookup (add_pred_to_map M name2 arity2 end).1) e ∙ b.known),
      )
    where
      counter_start : (initial_preds M).pred_id_counter ≡ 3
      counter_start = refl

      some_injective : {x y : ℕ} → some x ≡ some y → x ≡ y
      some_injective e = cc
