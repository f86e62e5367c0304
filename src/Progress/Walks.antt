-- ===== src/Progress/Walks.antt =====
-- Walks in the graph of transitions.
use pwms_project.Prelude.{ℕ, zero, suc, ◌≤◌, ◌≡◌, true, List, nat_eq, contains}
use pwms_project.Progress.{Edge, adjacent}

-- A transition leads from one state to the other.
abbrev pub Joins : List Edge → ℕ → ℕ → Type 0
Joins edges u v = contains v (adjacent edges u) ≡ true

-- A walk of a number of transitions.
pub data Walk (edges : List Edge) (start : ℕ) : ℕ → ℕ → Type 0 where
  stay : Walk edges start zero start
  step : {n u v : ℕ} → Walk edges start n u → Joins edges u v → Walk edges start (suc n) v

-- The number of transitions of a shortest walk.
pub record IsDistance (edges : List Edge) (start goal n : ℕ) : Type 0 where
  pub walk : Walk edges start n goal
  pub least : (m : ℕ) → Walk edges start m goal → n ≤ m

abbrev pub IsCut : List Edge → ℕ → ℕ → Type 0
IsCut edges start goal = (m : ℕ) → Walk edges start m goal → ⊥

-- A set of states that has the start and every neighbour of its states has every state that a
-- walk reaches.
pub Walk-closed :
    (edges : List Edge) (start : ℕ) (seen : List ℕ)
    → contains start seen ≡ true
    → ((u v : ℕ) → contains u seen ≡ true → Joins edges u v → contains v seen ≡ true)
    → (n v : ℕ) → Walk edges start n v
    → contains v seen ≡ true
Walk-closed edges start seen s closed zero v stay = s
Walk-closed edges start seen s closed (suc n) v (step {u = u} w j) =
    closed u v (Walk-closed edges start seen s closed n u w) j
