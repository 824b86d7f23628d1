-- ===== src/Hash.antt =====
-- The hash containers of Abseil, which the monitor uses and does not implement: flat_hash_set and
-- flat_hash_map by their documented behaviour. The order of an iteration is whatever `to_list` and
-- `entries` give, and no law says more of it. `eq` is the keys' `operator==`.
pub mod ListSet
pub mod ListMap
use cppmon.Shared.{
  ◌≡◌, ◌↔◌, ite, Bool, true, false, not, ◌&&◌, Option, none, some, List, [], map, ◌∷◌, In, Distinct,
  ◌⊎◌, All, All-In, All-of_In, arith,
}

pub record HashSet (K : Type 0) : Type 1 where
  pub Carrier : Type 0
  pub eq : Discrete K
  pub empty : Carrier
  pub insert : K → Carrier → Carrier
  pub erase_if : (K → Bool) → Carrier → Carrier
  pub contains : K → Carrier → Bool
  pub to_list : Carrier → List K
  pub contains-empty : (k : K) → contains k empty ≡ false
  pub contains-insert :
      (j k : K) (s : Carrier) → contains j (insert k s) ≡ ite (eq k j) true (contains j s)
  pub contains-erase_if :
      (j : K) (p : K → Bool) (s : Carrier) → contains j (erase_if p s) ≡ contains j s && not (p j)
  pub contains-to_list : (k : K) (s : Carrier) → (contains k s ≡ true) ↔ In k (to_list s)
  pub to_list-Distinct : (s : Carrier) → Distinct (to_list s)

module _ {K : Type 0} (S : HashSet K) where
  -- `insert(begin, end)`.
  unfoldable pub insert_range : List K → S.Carrier → S.Carrier
  insert_range [] s = s
  insert_range (x ∷ xs) s = insert_range xs (S.insert x s)

  contains-insert_range_list :
      (k : K) (xs : List K) (s : S.Carrier)
      → (S.contains k (insert_range xs s) ≡ true) ↔ ((S.contains k s ≡ true) ⊎ In k xs)
  unfolding insert_range
  contains-insert_range_list k [] s = ground arith
  contains-insert_range_list k (x ∷ xs) s =
      ground (arith, contains-insert_range_list k xs (S.insert x s), S.contains-insert k x s)

  unfoldable pub hash_set_union : S.Carrier → S.Carrier → S.Carrier
  unfolding insert_range
  hash_set_union s t = insert_range (S.to_list t) s

  pub contains-hash_set_union :
      (k : K) (s t : S.Carrier)
      → (S.contains k (hash_set_union s t) ≡ true)
        ↔ ((S.contains k s ≡ true) ⊎ (S.contains k t ≡ true))
  unfolding hash_set_union
  contains-hash_set_union k s t =
      ground (arith, contains-insert_range_list k (S.to_list t) s, S.contains-to_list k t)

  unfoldable pub all_in : List K → S.Carrier → Bool
  all_in [] t = true
  all_in (x ∷ xs) t = S.contains x t && all_in xs t

  all_in_iff :
      (xs : List K) (t : S.Carrier) → (all_in xs t ≡ true) ↔ All (λ x. S.contains x t ≡ true) xs
  unfolding all_in
  all_in_iff [] t = ground arith
  all_in_iff (x ∷ xs) t = ground (arith, all_in_iff xs t)

  unfoldable pub is_subset : S.Carrier → S.Carrier → Bool
  unfolding all_in
  is_subset s t = all_in (S.to_list s) t

  pub is_subset_iff :
      (s t : S.Carrier)
      → (is_subset s t ≡ true) ↔ ((k : K) → S.contains k s ≡ true → S.contains k t ≡ true)
  unfolding is_subset
  is_subset_iff s t = (
    λ h k c.
        All-In (λ x. S.contains x t ≡ true) k (S.to_list s) ((all_in_iff (S.to_list s) t).0 h)
          ((S.contains-to_list k s).0 c),
    λ h. (all_in_iff (S.to_list s) t).1 (
        All-of_In (λ x. S.contains x t ≡ true) (S.to_list s)
          (λ k i. h k ((S.contains-to_list k s).1 i))),
  )

  -- `operator==` of two sets: each holds the elements of the other.
  unfoldable pub same_set : S.Carrier → S.Carrier → Bool
  unfolding is_subset
  same_set s t = is_subset s t && is_subset t s

  pub same_set_iff :
      (s t : S.Carrier)
      → (same_set s t ≡ true) ↔ ((k : K) → (S.contains k s ≡ true) ↔ (S.contains k t ≡ true))
  unfolding same_set
  same_set_iff s t = (
    λ h k.
        ((is_subset_iff s t).0 (ground (arith, h)) k, (is_subset_iff t s).0 (ground (arith, h)) k),
    λ h.
        let a = (is_subset_iff s t).1 (λ k c. (h k).0 c) in
        let b = (is_subset_iff t s).1 (λ k c. (h k).1 c) in ground (arith, a, b),
  )

-- `absl::erase_if` on a map: an entry that passes the test goes.
abbrev pub unless {ℓ} : {V : Type ℓ} → (V → Bool) → Option V → Option V
unless p none = none
unless p (some v) = elim (p v) [ true ↦ none | false ↦ some v ]

pub record HashMap (K V : Type 0) : Type 1 where
  pub Carrier : Type 0
  pub eq : Discrete K
  pub empty : Carrier
  pub find : K → Carrier → Option V
  pub insert_or_assign : K → V → Carrier → Carrier
  pub erase : K → Carrier → Carrier
  pub erase_if : (K → V → Bool) → Carrier → Carrier
  pub entries : Carrier → List (K × V)
  pub find-empty : (k : K) → find k empty ≡ none
  pub find-insert_or_assign :
      (j k : K) (v : V) (m : Carrier)
      → find j (insert_or_assign k v m) ≡ ite (eq k j) (some v) (find j m)
  pub find-erase : (j k : K) (m : Carrier) → find j (erase k m) ≡ ite (eq k j) none (find j m)
  pub find-erase_if :
      (j : K) (p : K → V → Bool) (m : Carrier) → find j (erase_if p m) ≡ unless (p j) (find j m)
  pub find-entries : (k : K) (v : V) (m : Carrier) → (find k m ≡ some v) ↔ In (k, v) (entries m)
  pub entries-Distinct : (m : Carrier) → Distinct (map (λ e. e.0) (entries m))

module _ {K V : Type 0} (M : HashMap K V) where
  -- `emplace`, `try_emplace` and `insert`: an entry that is there stays.
  unfoldable pub emplace : K → V → M.Carrier → M.Carrier
  emplace k v m = elim (M.find k m) [ none ↦ M.insert_or_assign k v m | some w ↦ m ]

  pub find-emplace :
      (j k : K) (v : V) (m : M.Carrier)
      → M.find j (emplace k v m)
        ≡ ite (M.eq k j) (elim (M.find k m) [ none ↦ some v | some w ↦ some w ]) (M.find j m)
  unfolding emplace
  find-emplace j k v m = ground (arith, M.find-insert_or_assign j k v m)
