-- ===== src/Examples/Route.antt =====
-- A machine with an early exit: the theorems on src/pwms/services/progress.py.
use pwms_project.Progress.{
  round, route_percent, is_further, adjacent, visit, search, initial_ids, nearest, insert_by_order,
  sort_by_order, furthest, Edge, Target, WorkflowMachine, shortest_path, target_terminal, percent,
  build, is_terminal, steps_left,
}
use pwms_project.Prelude.{◌≡◌, refl, false, some, List, [], ◌∷◌}
use pwms_project.Schema.{State}
use pwms_project.Progress.Shortest.{Answers, shortest_path-Answers}
use pwms_project.Progress.Furthest.{Chosen, target_terminal-Chosen}
use pwms_project.Examples.Data.{drafted, adopted}

abbrev committee : State
committee = record drafted { pk = 3; name = "Committee"; is_initial = false; order = 1 }

abbrev withdrawn : State
withdrawn = record adopted { pk = 4; name = "Withdrawn"; order = 3 }

-- Draft to committee to adopted, or withdrawn at once.
abbrev edges : List Edge
edges = record { from = 1; to = 3 } ∷ record { from = 1; to = 4 } ∷ record { from = 3; to = 2 } ∷ []

abbrev machine : WorkflowMachine
machine = build (drafted ∷ committee ∷ adopted ∷ withdrawn ∷ []) edges

shortest_path-Answers_example : Answers edges 1 2 (shortest_path edges 1 2)
shortest_path-Answers_example = shortest_path-Answers edges 1 2

target_terminal-Chosen_example :
    Chosen edges
      (1 ∷ [])
      (withdrawn ∷ adopted ∷ [])
      (target_terminal edges (1 ∷ []) (withdrawn ∷ adopted ∷ []))
target_terminal-Chosen_example = target_terminal-Chosen edges (1 ∷ []) (withdrawn ∷ adopted ∷ [])

abbrev target : Target
target = record { target_id = 2; span = 2 }

targeted : machine.target ≡ some target
unfolding build target_terminal furthest sort_by_order insert_by_order nearest initial_ids
    shortest_path search visit adjacent is_further
targeted = refl

going : is_terminal machine 1 ≡ false
unfolding is_terminal build
going = refl

from_draft : steps_left machine 1 ≡ some 2
unfolding steps_left build target_terminal furthest sort_by_order insert_by_order nearest
    initial_ids shortest_path search visit adjacent is_further
from_draft = refl

from_committee : steps_left machine 3 ≡ some 1
unfolding steps_left build target_terminal furthest sort_by_order insert_by_order nearest
    initial_ids shortest_path search visit adjacent is_further
from_committee = refl

-- Halfway at the committee.
halfway : percent machine 3 ≡ 50
unfolding percent is_terminal build target_terminal furthest sort_by_order insert_by_order nearest
    initial_ids shortest_path search visit adjacent is_further steps_left route_percent round
halfway = refl
