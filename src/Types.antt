-- ===== src/Types.antt =====
-- Who may create instances of a type, and how types nest: WorkflowType, src/pwms/models/workflows.py.
pub mod Creatable
pub mod Nested
use pwms_project.Prelude.{
  ℕ, Bool, true, false, ◌&&◌, not, Option, none, some, List, [], if◌then◌else◌, ◌==◌, nat_eq,
  filter, find, exists, contains, map, length, zero, suc, ◌∷◌, ◌++◌,
}
use pwms_project.Descent.{descend}
use pwms_project.Schema.{User, WorkflowType, State}
use pwms_project.Hierarchy.{is_child_type}

-- user.memberships.filter(is_active=True, group_id=…, role_id__in=…).exists()
unfoldable pub holds_create_role : User → ℕ → List ℕ → Bool
holds_create_role u group roles =
    exists (λ m. m.is_active && m.group == group && contains m.role.pk roles) u.memberships

-- A type with no group is closed.
unfoldable pub of_its_group : User → WorkflowType → Bool
of_its_group u w = elim w.group [
  | none ↦ false
  | some group ↦ holds_create_role u group w.create_roles
]

unfoldable pub can_create : Option User → WorkflowType → Bool
can_create none w = false
can_create (some u) w =
    if not u.is_authenticated then false else if u.is_superuser then true else of_its_group u w

unfoldable pub allowed_ids : User → List WorkflowType → List ℕ
allowed_ids u types =
    map (λ w. w.pk) (filter (λ w. can_create (some u) w) (filter (λ w. w.enabled) types))

unfoldable pub creatable_by : Option User → List WorkflowType → List WorkflowType
creatable_by none types = []
creatable_by (some u) types =
    if not u.is_authenticated
    then []
    else if u.is_superuser
    then filter (λ w. w.enabled) types
    else filter (λ w. w.enabled && contains w.pk (allowed_ids u types)) types

unfoldable pub get_initial_state : WorkflowType → List State → Option State
get_initial_state w states = find (λ s. s.workflow_type == w.pk && s.is_initial) states

unfoldable pub is_root_type : WorkflowType → Bool
is_root_type w = elim w.parent_type [ none ↦ true | some p ↦ false ]

-- The foreign key of the type with this key; `types` is the table in the order of names.
unfoldable pub parent_type_of : List WorkflowType → ℕ → Option ℕ
parent_type_of types pk = elim (find (λ w. w.pk == pk) types) [
  | none ↦ none
  | some w ↦ w.parent_type
]

-- The `while` loop, appended to and reversed.
unfoldable pub climb_types : ℕ → List WorkflowType → List ℕ → Option ℕ → List ℕ
climb_types fuel types seen none = []
climb_types zero types seen (some pk) = []
climb_types (suc fuel) types seen (some pk) = elim (contains pk seen) [
  | true ↦ []
  | false ↦ climb_types fuel types (pk ∷ seen) (parent_type_of types pk) ++ pk ∷ []
]

-- A round that goes on has met a type that was not seen before.
unfoldable pub get_ancestor_types : List WorkflowType → ℕ → List ℕ
get_ancestor_types types pk = climb_types (suc (length types)) types [] (parent_type_of types pk)

unfoldable pub allowed_child_types : List WorkflowType → ℕ → List ℕ
allowed_child_types types pk = map (λ w. w.pk) (filter (is_child_type pk) types)

unfoldable pub get_descendant_types : List WorkflowType → ℕ → List ℕ
get_descendant_types types pk = descend (allowed_child_types types) (length types) pk
