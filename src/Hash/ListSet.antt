-- ===== src/Hash/ListSet.antt =====
-- A set as a list: the concrete set at which the examples run.
use cppmon.Hash.{HashSet}
use cppmon.Shared.{
  ◌≡◌, refl, ap, ◌↔◌, ite, Bool, true, false, not, ◌&&◌, List, [], ◌∷◌, In, Distinct, arith,
}

module _ {K : Type 0} (eq : Discrete K) where
  abbrev pub elem : K → List K → Bool
  elem k [] = false
  elem k (x ∷ xs) = ite (eq x k) true (elem k xs)

  abbrev pub remove_if : (K → Bool) → List K → List K
  remove_if p [] = []
  remove_if p (x ∷ xs) = let rest = remove_if p xs in elim (p x) [ true ↦ rest | false ↦ x ∷ rest ]

  -- Each element once, at its last place.
  abbrev pub dedup : List K → List K
  dedup [] = []
  dedup (x ∷ xs) = let rest = dedup xs in elim (elem x xs) [ true ↦ rest | false ↦ x ∷ rest ]

  pub elem-remove_if :
      (j : K) (p : K → Bool) (xs : List K) → elem j (remove_if p xs) ≡ elem j xs && not (p j)
  elem-remove_if j p [] = refl
  elem-remove_if j p (x ∷ xs) = elim (eq x j) [
    | yes e ↦ ground (arith, elem-remove_if j p xs, ap p e)
    | no n ↦ ground (arith, elem-remove_if j p xs)
  ]

  In-dedup : (k : K) (xs : List K) → elem k xs ≡ true → In k (dedup xs)
  In-dedup k [] h = absurd (cc)
  In-dedup k (x ∷ xs) h = ground (arith, In-dedup k xs)

  elem-dedup : (k : K) (xs : List K) → In k (dedup xs) → elem k xs ≡ true
  elem-dedup k (x ∷ xs) h = ground (arith, elem-dedup k xs)
  elem-dedup k [] h = absurd h

  pub elem-In : (k : K) (xs : List K) → (elem k xs ≡ true) ↔ In k (dedup xs)
  elem-In k xs = (In-dedup k xs, elem-dedup k xs)

  pub dedup-Distinct : (xs : List K) → Distinct (dedup xs)
  dedup-Distinct [] = tt
  dedup-Distinct (x ∷ xs) = ground (arith, dedup-Distinct xs, elem-dedup x xs)

  abbrev pub list_set : HashSet K
  list_set = record {
    Carrier = List K;
    eq = eq;
    empty = [];
    insert = λ k xs. k ∷ xs;
    erase_if = remove_if;
    contains = elem;
    to_list = dedup;
    contains-empty = λ k. refl;
    contains-insert = λ j k s. refl;
    contains-erase_if = elem-remove_if;
    contains-to_list = elem-In;
    to_list-Distinct = dedup-Distinct;
  }
