-- ===== src/Tests/Aggregates.antt =====
-- The aggregations of src/aggregation_impl.cpp at a small table.
use Prim.Native.String.{String}
use text.Mathlib.Text.{◌==◌ as str_eq}
use text.Mathlib.TextEquality.{eq_iff}
use cppmon.Shared.{
  ℕ, ◌%◌, ◌<◌, ◌≡◌, ◌↔◌, ap, ap₂, refl, inl, inr, Bool, true, false, Option, none, some, List, [],
  ◌∷◌, ◌++◌, length, ℕ_discrete, Bool-cases,
}
use cppmon.Hash.{HashSet, HashMap}
use cppmon.Hash.ListSet.{list_set}
use cppmon.Hash.ListMap.{list_map}
use cppmon.Interval.{size_t_mod}
use cppmon.EventData.{EventData, int, float, string}
use cppmon.Table.{Table}
use cppmon.Table.Contents.{Holds}
use cppmon.Aggregation.{count_group, AggregationImpl, count_state, eval, eval_groups}
use cppmon.Aggregation.Groups.{absorb, values, group_row, eval_groups-Holds}
use cppmon.Aggregation.Count.{group_values, eval-count}
use cppmon.Tests.Documents.{whole}

pub string_discrete : Discrete String
string_discrete s t = elim (Bool-cases (str_eq s t)) [
  | inl e ↦ yes ((eq_iff s t).0 e)
  | inr e ↦ no (λ p. different e ((eq_iff s t).1 p))
]
  where
    different : {b : Bool} → b ≡ false → b ≡ true → ⊥
    different e f = cc

pub real_discrete : Discrete (Option ℕ)
real_discrete none none = yes refl
real_discrete none (some b) = no (λ e. absurd (cc))
real_discrete (some a) none = no (λ e. absurd (cc))
real_discrete (some a) (some b) = elim (ℕ_discrete a b) [
  | yes p ↦ yes (ap some p)
  | no n ↦ no (λ e. n (cc))
]

pub data_discrete : Discrete (EventData whole)
data_discrete (int a) (int b) = elim (ℕ_discrete a b) [
  | yes p ↦ yes (ap {B = EventData whole} int p)
  | no n ↦ no (λ e. n (cc))
]
data_discrete (float a) (float b) = elim (real_discrete a b) [
  | yes p ↦ yes (ap {B = EventData whole} float p)
  | no n ↦ no (λ e. n (cc))
]
data_discrete (string a) (string b) = elim (string_discrete a b) [
  | yes p ↦ yes (ap {B = EventData whole} string p)
  | no n ↦ no (λ e. n (cc))
]
data_discrete (int a) (float b) = no (λ e. absurd (cc))
data_discrete (int a) (string b) = no (λ e. absurd (cc))
data_discrete (float a) (int b) = no (λ e. absurd (cc))
data_discrete (float a) (string b) = no (λ e. absurd (cc))
data_discrete (string a) (int b) = no (λ e. absurd (cc))
data_discrete (string a) (float b) = no (λ e. absurd (cc))

pub tuples_discrete : Discrete (List (EventData whole))
tuples_discrete [] [] = yes refl
tuples_discrete [] (y ∷ ys) = no (λ e. absurd (cc))
tuples_discrete (x ∷ xs) [] = no (λ e. absurd (cc))
tuples_discrete (x ∷ xs) (y ∷ ys) =
    let rest = tuples_discrete xs ys in
    elim (data_discrete x y) [
      | no n ↦ no (λ e. n (cc))
      | yes p ↦ elim rest [ no n ↦ no (λ e. n (cc)) | yes q ↦ yes (ap₂ ◌∷◌ p q) ]
    ]

abbrev pub tuples : HashSet (List (EventData whole))
tuples = list_set tuples_discrete

abbrev groups_of : (G : Type 0) → HashMap (List (EventData whole)) G
groups_of G = list_map tuples_discrete

-- Two rows for 5 and one for 6.
abbrev pub logins : Table tuples
logins = record {
  ncols = 2;
  rows = (int 5 ∷ int 1 ∷ []) ∷ (int 5 ∷ int 2 ∷ []) ∷ (int 6 ∷ int 1 ∷ []) ∷ [];
}

abbrev counter : AggregationImpl whole tuples groups_of
counter = record {
  default_val = int 0;
  info = record {
    term_var_idx = 1;
    group_var_idxs = 0 ∷ [];
    res_layout = 0 ∷ 1 ∷ [];
    all_bound = false;
  };
  nfvs = 2;
  state = count_state (groups_of ℕ).empty;
}

eval-count_example :
    Holds tuples
      (int 5 ∷ int 2 ∷ [])
      (eval whole tuples groups_of (λ less l. l) (int 0) (some logins) counter).0
    ↔ ((group : List (EventData whole)) × (0
          < length (group_values whole tuples groups_of (λ less l. l) (int 0) counter logins group))
        × (group
              ++ (int (
                    length (
                      group_values whole tuples groups_of
                        (λ less l. l)
                        (int 0)
                        counter
                        logins
                        group)
                    % size_t_mod)
                  ∷ [])
            ≡ int 5 ∷ int 2 ∷ []))
eval-count_example =
    eval-count whole tuples groups_of (λ less l. l) (int 0) counter logins (int 5 ∷ int 2 ∷ []) refl

eval_groups-Holds_example :
    (Holds tuples
        (int 5 ∷ int 2 ∷ [])
        (eval_groups
          (count_group whole)
          tuples
          (groups_of ℕ)
          (int 0)
          (int 0)
          false
          (0 ∷ [])
          1
          2
          (some logins)
          []).0
      ↔ ((group : List (EventData whole)) × (g : ℕ) × (absorb
              (count_group whole)
              none
              (values tuples_discrete (int 0) (0 ∷ []) 1 group (tuples.to_list logins.rows))
            ≡ some g)
          × (group_row (count_group whole) tuples (groups_of ℕ) (int 0) (0 ∷ []) 1 group g
              ≡ int 5 ∷ int 2 ∷ [])))
    × ((eval_groups
          (count_group whole)
          tuples
          (groups_of ℕ)
          (int 0)
          (int 0)
          false
          (0 ∷ [])
          1
          2
          (some logins)
          []).1
        ≡ [])
eval_groups-Holds_example =
    eval_groups-Holds (count_group whole) tuples (groups_of ℕ) (int 0) (0 ∷ []) 1 (int 0) false 2
      logins (int 5 ∷ int 2 ∷ [])
