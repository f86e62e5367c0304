-- ===== src/Examples/Creating.antt =====
-- Who may file a report: the theorem on WorkflowType, src/pwms/models/workflows.py.
use pwms_project.Access.{access_row}
use pwms_project.Hierarchy.{is_child_type}
use pwms_project.Descent.{walk, descend}
use mathlib.Core.List.{Memᴰ}
use pwms_project.Prelude.{
  ◌≡◌, ◌↔◌, ◌≢◌, ℕ, nat_eq, List, Bool, refl, contains, exists, filter, true, some, [], ◌∷◌, ◌∙◌,
  sym,
}
use pwms_project.Schema.{WorkflowType, User, Capability}
use pwms_project.Access.Sync.{IsUnique}
use pwms_project.Rbac.{can}
use pwms_project.Instances.{Rows, save}
use pwms_project.Instances.Initial.{initial_grants, save-initial_grants}
use pwms_project.Descent.Visits.{Distinct, Below, ParentsFirst}
use pwms_project.Types.{can_create, creatable_by, get_descendant_types, allowed_child_types}
use pwms_project.Types.Nested.{get_descendant_types-Below}
use pwms_project.Types.Creatable.{IsKeyed, creatable_by_iff}
use pwms_project.Examples.Data.{reports, report, officer}

one_key : IsKeyed (reports ∷ [])
unfolding IsKeyed
one_key v w (Memᴰ.head e) (Memᴰ.head f) same = e ∙ sym f
one_key v w (Memᴰ.tail m) n same = elim m [ ]
one_key v w (Memᴰ.head e) (Memᴰ.tail n) same = elim n [ ]

creatable_by_iff_example :
    Memᴰ reports (creatable_by (some officer) (reports ∷ []))
    ↔ Memᴰ reports (reports ∷ [])
      × (reports.enabled ≡ true)
      × (can_create (some officer) reports ≡ true)
creatable_by_iff_example = creatable_by_iff (reports ∷ []) one_key (some officer) reports

-- A type under the type of reports, and one that names itself as its parent.
abbrev nested : List WorkflowType
nested =
    reports
    ∷ record reports { pk = 2; parent_type = some 1 }
    ∷ record reports { pk = 3; parent_type = some 3 }
    ∷ []

get_descendant_types-Below_example :
    Distinct (get_descendant_types nested 1)
    × ParentsFirst (allowed_child_types nested) (1 ∷ []) (get_descendant_types nested 1)
    × ((x : ℕ)
        → (contains x (get_descendant_types nested 1) ≡ true)
          ↔ (Below (allowed_child_types nested) 1 x × (x ≢ 1)))
get_descendant_types-Below_example = get_descendant_types-Below nested 1

nested_types : get_descendant_types nested 1 ≡ 2 ∷ []
unfolding get_descendant_types descend walk allowed_child_types is_child_type
nested_types = refl

abbrev empty_tables : Rows
empty_tables = record { instances = []; accesses = [] }

save-initial_grants_example :
    (after : Rows) × (save true report reports empty_tables ≡ some after)
    × (after.instances ≡ report ∷ [])
    × IsUnique after.accesses
    × ((ignore : Bool) (user : User) (what : Capability)
        → can ignore after.accesses report user what
          ≡ exists
              (λ m. initial_grants reports m.group what)
              (filter (λ m. m.is_active) user.memberships))
unfolding access_row
save-initial_grants_example = save-initial_grants report reports empty_tables tt (λ g. refl)
