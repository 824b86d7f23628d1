-- ===== src/Hash/ListMap.antt =====
-- A map as an association list: the concrete map at which the examples run.
use cppmon.Hash.{HashMap, unless}
use cppmon.Shared.{
  ◌≡◌, refl, sym, ap, ◌∙◌, ◌↔◌, inl, inr, ite, In-map, Bool, true, false, Option, none, some, List,
  [], ◌∷◌, map, In, Distinct, arith,
}

module _ {K V : Type 0} (eq : Discrete K) where
  abbrev pub lookup : K → List (K × V) → Option V
  lookup k [] = none
  lookup k ((j, v) ∷ m) = ite (eq j k) (some v) (lookup k m)

  abbrev pub without : K → List (K × V) → List (K × V)
  without k [] = []
  without k ((j, v) ∷ m) = let rest = without k m in ite (eq j k) rest ((j, v) ∷ rest)

  -- The entries that a lookup can see.
  abbrev pub visible : List (K × V) → List (K × V)
  visible [] = []
  visible ((k, v) ∷ m) = (k, v) ∷ without k (visible m)

  abbrev pub remove_if : (K → V → Bool) → List (K × V) → List (K × V)
  remove_if p [] = []
  remove_if p ((k, v) ∷ m) =
      let rest = remove_if p m in elim (p k v) [ true ↦ rest | false ↦ (k, v) ∷ rest ]

  pub lookup-without :
      (j k : K) (m : List (K × V)) → lookup j (without k m) ≡ ite (eq k j) none (lookup j m)
  lookup-without j k [] = ground arith
  lookup-without j k ((i, v) ∷ m) = ground (arith, lookup-without j k m)

  pub lookup-visible : (k : K) (m : List (K × V)) → lookup k (visible m) ≡ lookup k m
  lookup-visible k [] = refl
  lookup-visible k ((i, v) ∷ m) = ground (arith, lookup-without k i (visible m), lookup-visible k m)

  abbrev keys : List (K × V) → List K
  keys = map (λ e. e.0)

  In-keys-without : (j k : K) (m : List (K × V)) → In j (keys (without k m)) → In j (keys m)
  In-keys-without j k ((i, v) ∷ m) h = ground (arith, In-keys-without j k m)
  In-keys-without j k [] h = absurd h

  not-In-without : (k : K) (m : List (K × V)) → ¬ In k (keys (without k m))
  not-In-without k [] = λ h. h
  not-In-without k ((i, v) ∷ m) = ground (arith, not-In-without k m)

  without-Distinct : (k : K) (m : List (K × V)) → Distinct (keys m) → Distinct (keys (without k m))
  without-Distinct k [] h = tt
  without-Distinct k ((i, v) ∷ m) h = ground (arith, without-Distinct k m, In-keys-without i k m)

  pub visible-Distinct : (m : List (K × V)) → Distinct (keys (visible m))
  visible-Distinct [] = tt
  visible-Distinct ((k, v) ∷ m) =
      (not-In-without k (visible m), without-Distinct k (visible m) (visible-Distinct m))

  lookup-absent : (k : K) (m : List (K × V)) → ¬ In k (keys m) → lookup k m ≡ none
  lookup-absent k [] h = refl
  lookup-absent k ((i, v) ∷ m) h = ground (arith, lookup-absent k m)

  lookup-remove_if :
      (j : K) (p : K → V → Bool) (m : List (K × V))
      → Distinct (keys m)
      → lookup j (remove_if p m) ≡ unless (p j) (lookup j m)
  lookup-remove_if j p [] h = refl
  lookup-remove_if j p ((i, v) ∷ m) h = elim (eq i j) [
    | yes e ↦ ground (arith, lookup-remove_if j p m, lookup-absent i m, ap (λ k. p k v) e)
    | no n ↦ ground (arith, lookup-remove_if j p m)
  ]

  In-of_lookup : (k : K) (v : V) (m : List (K × V)) → lookup k m ≡ some v → In (k, v) m
  In-of_lookup k v [] h = absurd (cc)
  In-of_lookup k v ((i, w) ∷ m) h = elim (eq i k) [
    | yes e ↦ inl (ground arith)
    | no n ↦ inr (In-of_lookup k v m (ground arith))
  ]

  lookup-of_In :
      (k : K) (v : V) (m : List (K × V)) → Distinct (keys m) → In (k, v) m → lookup k m ≡ some v
  lookup-of_In k v [] d h = absurd h
  lookup-of_In k v ((i, w) ∷ m) d (inl e) = ground (arith, ap (λ (e : K × V). e.0) e)
  lookup-of_In k v ((i, w) ∷ m) d (inr h) =
      ground (arith, lookup-of_In k v m d.1 h, In-map (λ (e : K × V). e.0) (k, v) m h)

  pub lookup-remove_if-visible :
      (j : K) (p : K → V → Bool) (m : List (K × V))
      → lookup j (remove_if p (visible m)) ≡ unless (p j) (lookup j m)
  lookup-remove_if-visible j p m =
      lookup-remove_if j p (visible m) (visible-Distinct m) ∙ ap (unless (p j)) (lookup-visible j m)

  pub find-visible :
      (k : K) (v : V) (m : List (K × V)) → (lookup k m ≡ some v) ↔ In (k, v) (visible m)
  find-visible k v m = (
    λ h. In-of_lookup k v (visible m) (lookup-visible k m ∙ h),
    λ h. sym (lookup-visible k m) ∙ lookup-of_In k v (visible m) (visible-Distinct m) h,
  )

  abbrev pub list_map : HashMap K V
  list_map = record {
    Carrier = List (K × V);
    eq = eq;
    empty = [];
    find = lookup;
    insert_or_assign = λ k v m. (k, v) ∷ m;
    erase = without;
    erase_if = λ p m. remove_if p (visible m);
    entries = visible;
    find-empty = λ k. refl;
    find-insert_or_assign = λ j k v m. refl;
    find-erase = lookup-without;
    find-erase_if = lookup-remove_if-visible;
    find-entries = find-visible;
    entries-Distinct = visible-Distinct;
  }
