-- ===== src/Tests.antt =====
-- The results at concrete tables and runs: rows of natural numbers, with sets and maps that are
-- lists.
mod Runs
mod Rows
mod Documents
mod Parts
mod Streams
mod Reports
mod Formulas
mod Open
mod Aggregates
mod Fused
use cppmon.Shared.{ℕ, zero, suc, ◌≡◌, refl, ap₂, List, [], ◌∷◌, ℕ_discrete}
use cppmon.Hash.{HashSet, HashMap}
use cppmon.Hash.ListSet.{list_set}
use cppmon.Hash.ListMap.{list_map}

unfoldable pub rows_eq : Discrete (List ℕ)
unfolding ℕ_discrete
rows_eq [] [] = yes refl
rows_eq [] (y ∷ ys) = no (λ e. absurd (cc))
rows_eq (x ∷ xs) [] = no (λ e. absurd (cc))
rows_eq (x ∷ xs) (y ∷ ys) =
    let rest = rows_eq xs ys in
    elim (ℕ_discrete x y) [
      | no n ↦ no (λ e. n (cc))
      | yes p ↦ elim rest [ no n ↦ no (λ e. n (cc)) | yes q ↦ yes (ap₂ ◌∷◌ p q) ]
    ]

abbrev pub sets : HashSet (List ℕ)
sets = list_set rows_eq

abbrev pub times : HashMap (List ℕ) ℕ
times = list_map rows_eq

abbrev pub groups : HashMap (List ℕ) (List (List ℕ))
groups = list_map rows_eq

abbrev pub indices : HashMap ℕ ℕ
indices = list_map ℕ_discrete
