-- ===== src/Instances.antt =====
-- The row of a workflow instance: save, clean and is_overdue of AbstractLegislativeWorkflow,
-- src/pwms/models/workflows.py.
pub mod Granted
pub mod Initial
use pwms_project.Prelude.{
  ℕ, Bool, true, false, not, ◌&&◌, Option, none, some, List, [], ◌∷◌, ◌++◌, String, if◌then◌else◌,
  ◌==◌, key_eq, nat_eq, ltb, map,
}
use pwms_project.Schema.{GroupAccess, WorkflowType, Instance}
use pwms_project.Access.{materialize_group_access, ◌>>=◌}

pub record Rows : Type 0 where
  pub instances : List Instance
  pub accesses : List GroupAccess

unfoldable pub replace : Instance → List Instance → List Instance
replace i instances = map (λ j. if j.key == i.key then i else j) instances

-- save(), where the row is new or is not; `none` as in materialize_group_access.
unfoldable pub save : Bool → Instance → WorkflowType → Rows → Option Rows
save false i t rows = some (record rows { instances = replace i rows.instances })
save true i t rows = do
  accesses ← materialize_group_access i.key t rows.accesses
  some (record { instances = rows.instances ++ (i ∷ []); accesses = accesses })

-- clean(): whether the state is one of the type's.
unfoldable pub is_clean : Instance → Bool
is_clean i = i.current_state.workflow_type == i.workflow_type

unfoldable pub is_overdue : ℕ → Instance → Bool
is_overdue now i = elim i.deadline [
  | none ↦ false
  | some deadline ↦ ltb deadline now && not i.current_state.is_terminal
]

unfoldable pub overdue_identifier : ℕ → Instance → String
overdue_identifier now i = if is_overdue now i then "Due date expired – pending follow up" else ""
