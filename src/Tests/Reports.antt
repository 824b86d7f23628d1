-- ===== src/Tests/Reports.antt =====
-- Predicates and whole steps of src/monitor.cpp on short traces.
use cppmon.Shared.{ℕ, ◌≡◌, refl, ◌↔◌, false, none, List, [], ◌∷◌, In, ℕ_discrete}
use cppmon.Table.Contents.{Holds}
use cppmon.Monitor.Pred.{MPred, events_tab}
use cppmon.Monitor.Pred.Match.{Matches, Placed, events_tab-Matches}
use cppmon.Hash.{HashMap}
use cppmon.Hash.ListMap.{list_map}
use cppmon.Monitor.Let.{MLet, let_eval, let_eval-Keeps}
use cppmon.Tests.{sets}
use cppmon.Tests.Runs.{sevens}

-- The predicate p(x, 7, x).
abbrev twice : MPred ℕ
twice = record {
  curr_tp = 0;
  nfvs = 1;
  is_builtin = false;
  pred_id = 5;
  var_pos = (0 ∷ 2 ∷ []) ∷ [];
  pos_2_cst = (1, 7) ∷ [];
}

twice-Placed : Placed ℕ_discrete 0 twice.var_pos
twice-Placed = (λ e. absurd (cc), tt)

abbrev events : List (List ℕ)
events = (4 ∷ 7 ∷ 4 ∷ []) ∷ (4 ∷ 7 ∷ 5 ∷ []) ∷ []

events_tab-Matches_example :
    Holds sets (4 ∷ []) (events_tab ℕ_discrete 0 sets twice events)
    ↔ ((ev : List ℕ) × In ev events × Matches ℕ_discrete 0 sets twice twice-Placed ev (4 ∷ []))
events_tab-Matches_example = events_tab-Matches ℕ_discrete 0 sets twice twice-Placed events (4 ∷ [])

abbrev databases : HashMap ℕ (List (List (List ℕ)))
databases = list_map ℕ_discrete

-- LET shadows the predicate 5 with the table of the row 7.
abbrev shadow : MLet sets 0 databases
shadow = record {
  projection_mask = 0 ∷ [];
  pred_id = 5;
  phi_state = λ db. (sevens ∷ [], db);
  psi_state = λ db. (none ∷ [], db);
}

abbrev trace : List (ℕ × List (List (List ℕ)))
trace = (5, events ∷ []) ∷ (6, []) ∷ []

let_eval-Keeps_example :
    databases.find 5 (let_eval sets 0 databases shadow trace).1 ≡ databases.find 5 trace
let_eval-Keeps_example =
    let_eval-Keeps sets 0 databases shadow (λ db k. refl) (λ db k. refl) trace 5
