-- ===== src/Until/Marks.antt =====
-- src/until_impl.cpp: the maps from rows to the last time, or time point, that their result needs.
use cppmon.Shared.{
  ℕ, ◌≤◌, ◌≡◌, ◌↔◌, ◌⊎◌, inl, inr, refl, sym, subst, ap, ap₂, ◌∙◌, Bool, true, false, Option, none,
  some, List, [], ◌∷◌, arith, In, ite, Bool-cases,
}
use cppmon.Hash.{HashSet, HashMap, unless}
use cppmon.Table.{of_size, contains}
use cppmon.Table.Contents.{Holds, Holds-to_opt}
use cppmon.Since.{add_keys}
use cppmon.Since.Result.{add_keys_new, add_keys_inv}
use cppmon.Until.{larger, table_from_map, put_max, combine_entries, combine_max}

unless_iff :
    (p : ℕ → Bool) (o : Option ℕ) (w : ℕ) → (unless p o ≡ some w) ↔ ((o ≡ some w) × (p w ≡ false))
unless_iff p none w = (λ h. absurd (cc), λ h. absurd (cc))
unless_iff p (some v) w = elim (Bool-cases (p v)) [
  | inl t ↦
      (λ h. absurd (none_some (sym (unless_true p v t) ∙ h)), λ (e, f). absurd (clash p v w t e f))
  | inr t ↦ (
    λ h. (
      sym (unless_false p v t) ∙ h,
      subst (λ k. p k ≡ false) (some_injective (sym (unless_false p v t) ∙ h)) t,
    ),
    λ (e, f). unless_false p v t ∙ e,
  )
]
  where
    none_some : {w : ℕ} → Path (Option ℕ) none (some w) → ⊥
    none_some e = cc

    some_injective : {v w : ℕ} → some v ≡ some w → v ≡ w
    some_injective e = cc

    unless_true : (p : ℕ → Bool) (v : ℕ) → p v ≡ true → unless p (some v) ≡ none
    unless_true p v t = rw (t, unless) refl

    unless_false : (p : ℕ → Bool) (v : ℕ) → p v ≡ false → unless p (some v) ≡ some v
    unless_false p v t = rw (t, unless) refl

    true_false : true ≡ false → ⊥
    true_false e = cc

    clash : (p : ℕ → Bool) (v w : ℕ) → p v ≡ true → some v ≡ some w → p w ≡ false → ⊥
    clash p v w t e f = true_false (sym t ∙ ap p (some_injective e) ∙ f)

module _ {T : Type 0} (S : HashSet (List T)) (B : HashMap (List T) ℕ) where
  -- The row has the mark v.
  abbrev pub Marked : B.Carrier → List T → ℕ → Type 0
  Marked m e v = B.find e m ≡ some v

  -- The row has a mark that is at least v.
  abbrev pub Reaches : B.Carrier → List T → ℕ → Type 0
  Reaches m e v = (w : ℕ) × Marked m e w × (v ≤ w)

  find-put_max :
      (m : B.Carrier) (k e : List T) (v : ℕ)
      → B.find e (put_max S B k v m) ≡ ite (B.eq k e) (some (larger v (B.find k m))) (B.find e m)
  unfolding put_max
  find-put_max m k e v = B.find-insert_or_assign e k (larger v (B.find k m)) m

  larger_cases : (v w : ℕ) (o : Option ℕ) → larger v o ≡ w → (v ≡ w) ⊎ (o ≡ some w)
  larger_cases v w none h = inl h
  larger_cases v w (some u) h = ground (arith, h)

  larger-of_some : (v u : ℕ) → u ≤ larger v (some u)
  larger-of_some v u = omega arith

  larger_new : (v : ℕ) (o : Option ℕ) → v ≤ larger v o
  larger_new v none = omega arith
  larger_new v (some u) = omega arith

  pub put_max_inv :
      (m : B.Carrier) (k e : List T) (v w : ℕ)
      → Marked (put_max S B k v m) e w
      → ((k ≡ e) × (v ≡ w)) ⊎ Marked m e w
  put_max_inv m k e v w h = elim (B.eq k e) [
    | yes s ↦ elim (larger_cases v w (B.find k m) (ground (arith, h, find-put_max m k e v))) [
      | inl p ↦ inl (s, p)
      | inr p ↦ inr (subst (λ j. B.find j m ≡ some w) s p)
    ]
    | no s ↦ inr (ground (arith, h, find-put_max m k e v))
  ]

  pub put_max_new : (m : B.Carrier) (k : List T) (v : ℕ) → Reaches (put_max S B k v m) k v
  put_max_new m k v = elim (B.eq k k) [
    | yes s ↦
        (larger v (B.find k m), ground (arith, find-put_max m k k v), larger_new v (B.find k m))
    | no s ↦ absurd (s refl)
  ]

  pub put_max_old :
      (m : B.Carrier) (k e : List T) (v u : ℕ) → Marked m e u → Reaches (put_max S B k v m) e u
  put_max_old m k e v u h = elim (B.eq k e) [
    | yes s ↦ (
      larger v (some u),
      ground (arith, find-put_max m k e v, ap (λ j. B.find j m) s, h, ap (larger v) h),
      larger-of_some v u,
    )
    | no s ↦ (u, ground (arith, h, find-put_max m k e v), omega arith)
  ]

  combine_entries_inv :
      (l : List (List T × ℕ)) (m : B.Carrier) (e : List T) (w : ℕ)
      → Marked (combine_entries S B l m) e w
      → In (e, w) l ⊎ Marked m e w
  unfolding combine_entries
  combine_entries_inv [] m e w h = inr h
  combine_entries_inv ((k, v) ∷ l) m e w h =
      elim (combine_entries_inv l (put_max S B k v m) e w h) [
        | inl i ↦ inl (inr i)
        | inr q ↦ elim (put_max_inv m k e v w q) [
          | inl (s, p) ↦ inl (inl (ap₂ (λ (x : List T) (y : ℕ). (x, y)) s p))
          | inr o ↦ inr o
        ]
      ]

  combine_entries_old :
      (l : List (List T × ℕ)) (m : B.Carrier) (e : List T) (u : ℕ)
      → Reaches m e u
      → Reaches (combine_entries S B l m) e u
  unfolding combine_entries
  combine_entries_old [] m e u h = h
  combine_entries_old ((k, v) ∷ l) m e u (w, h, le) =
      let (x, q, ge) = put_max_old m k e v w h in
      combine_entries_old l (put_max S B k v m) e u (x, q, omega arith)

  combine_entries_new :
      (l : List (List T × ℕ)) (m : B.Carrier) (e : List T) (u : ℕ)
      → In (e, u) l
      → Reaches (combine_entries S B l m) e u
  unfolding combine_entries
  combine_entries_new [] m e u i = absurd i
  combine_entries_new ((k, v) ∷ l) m e u (inl p) =
      combine_entries_old l (put_max S B k v m) e u
        (subst (λ (q : List T × ℕ). Reaches (put_max S B k v m) q.0 q.1) p (put_max_new m k v))
  combine_entries_new ((k, v) ∷ l) m e u (inr i) = combine_entries_new l (put_max S B k v m) e u i

  pub combine_max_inv :
      (m1 m2 : B.Carrier) (e : List T) (w : ℕ)
      → Marked (combine_max S B m1 m2) e w
      → Marked m1 e w ⊎ Marked m2 e w
  unfolding combine_max
  combine_max_inv m1 m2 e w h = elim (combine_entries_inv (B.entries m1) m2 e w h) [
    | inl i ↦ inl ((B.find-entries e w m1).1 i)
    | inr o ↦ inr o
  ]

  pub combine_max-Reaches :
      (m1 m2 : B.Carrier) (e : List T) (w : ℕ) → Marked m1 e w → Reaches (combine_max S B m1 m2) e w
  unfolding combine_max
  combine_max-Reaches m1 m2 e w h =
      combine_entries_new (B.entries m1) m2 e w ((B.find-entries e w m1).0 h)

  -- The marks that are left when those that pass the test are erased.
  pub erase_if-Marked :
      (p : ℕ → Bool) (m : B.Carrier) (e : List T) (w : ℕ)
      → Marked (B.erase_if (λ k v. p v) m) e w ↔ (Marked m e w × (p w ≡ false))
  erase_if-Marked p m e w = (
    λ h. (unless_iff p (B.find e m) w).0 (sym (B.find-erase_if e (λ k v. p v) m) ∙ h),
    λ h. B.find-erase_if e (λ k v. p v) m ∙ (unless_iff p (B.find e m) w).1 h,
  )

  pub table_from_map-Holds :
      (nfvs : ℕ) (m : B.Carrier) (e : List T)
      → Holds S e (table_from_map S B nfvs m) ↔ ((v : ℕ) × Marked m e v)
  unfolding table_from_map of_size
  table_from_map-Holds nfvs m e =
      let rows = B.entries m in
      let tab = of_size S nfvs in
      let opt = Holds-to_opt S e (add_keys S B rows tab) in
      (
        λ h. elim (add_keys_inv S B e rows tab (opt.0 h)) [
          | inl (v, i) ↦ (v, (B.find-entries e v m).1 i)
          | inr k ↦ absurd (unfold of_size contains in ground (arith, S.contains-empty e))
        ],
        λ (v, f). opt.1 (add_keys_new S B e rows tab v ((B.find-entries e v m).0 f)),
      )
