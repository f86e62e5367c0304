-- ===== src/Examples/Rights.antt =====
-- Who may do what on a report: the theorems on `can` and on materialize_group_access,
-- src/pwms/models/workflows.py.
use pwms_project.Rbac.{
  raised_by_referral, state_permission, state_or_default, role_permission, access_grants,
  group_accesses, access_by_group, membership_grants, can,
}
use pwms_project.Schema.{flag, view, GroupAccess}
use pwms_project.Prelude.{◌≡◌, ◌↔◌, refl, true, false, some, List, [], ◌∷◌, All}
use pwms_project.Rbac.Grants.{Granted, can_iff_Granted}
use pwms_project.Access.{access_row, materialize_group_access}
use pwms_project.Access.Creation.{Keeps, HasRow}
use pwms_project.Access.Materialize.{HasOwner, materialize_total}
use pwms_project.Examples.Data.{report_key, report, reports, officer, access}

can_iff_Granted_example :
    (can false (access ∷ []) report officer view ≡ true)
    ↔ Granted false (access ∷ []) report officer view
can_iff_Granted_example = can_iff_Granted false (access ∷ []) report officer view

views : can true (access ∷ []) report officer view ≡ true
unfolding can membership_grants access_by_group group_accesses access_grants role_permission
    state_or_default state_permission flag raised_by_referral
views = refl

materialize_total_example :
    (ys : List GroupAccess) × (materialize_group_access report_key reports (access ∷ []) ≡ some ys)
    × Keeps (access ∷ []) ys
    × HasOwner report_key reports ys
    × All (λ g. HasRow report_key g ys) (6 ∷ [])
    × (materialize_group_access report_key reports ys ≡ some ys)
unfolding access_row
materialize_total_example = materialize_total report_key reports (access ∷ []) (refl, tt)
