-- ===== src/Examples/Tree.antt =====
-- A resolution filed under a report: the theorems on WorkflowRelationship,
-- src/pwms/models/workflows.py.
use pwms_project.Rbac.{
  raised_by_referral, state_permission, state_or_default, role_permission, access_grants,
  group_accesses, access_by_group, membership_grants, can,
}
use pwms_project.Schema.{flag, view, on, create}
use pwms_project.Resolver.{named_on, resolve_workflow_instance, guarded, World, workflow, resolve}
use pwms_project.Hierarchy.{
  remove_link, detach, save_link, type_refused, cycle_from, clean_workflows, clean, Tree, holds,
  supersedes, parent_workflow, get_ancestors, creates_cycle, sub_workflows, get_all_descendants,
  fresh, outdated, drop_existing, set_parent_workflow, add_sub_workflow, parent_link, instance_of,
}
use pwms_project.Prelude.{
  ℕ, ◌≡◌, ◌↔◌, refl, Bool, true, false, none, some, [], ◌∷◌, ◌≢◌, subst, arith, List, Key, key_eq,
  contains, All,
}
use pwms_project.Descent.Visits.{Distinct, ParentsFirst}
use pwms_project.Hierarchy.Descendants.{IsPresent, get_all_descendants_inverse}
use pwms_project.Hierarchy.Climb.{Above, AncestorsOf}
use pwms_project.Hierarchy.Forest.{WellFormed, creates_cycle_iff}
use pwms_project.Hierarchy.Attach.{
  set_parent_workflow_atomic, set_parent_workflow-WellFormed, add_sub_workflow_keeps_parent,
  attach_outcome, link_to,
}
use pwms_project.Hierarchy.Ancestors.{get_ancestors-AncestorsOf}
use pwms_project.Resolver.Laws.{resolve-view_inherited}
use pwms_project.Examples.Data.{
  report_key, resolution_key, second_key, flat, report, resolution, officer, access,
}

flat-WellFormed : WellFormed flat
unfolding parent_workflow parent_link
flat-WellFormed = record { unique = tt; forest = λ k. (0, refl) }

-- The resolution under the report.
abbrev filed : Tree
filed = record flat { links = link_to resolution_key report_key holds 0 ∷ [] }

filing : (set_parent_workflow fresh resolution_key (some report_key) holds 0 flat).0 ≡ filed
unfolding set_parent_workflow drop_existing clean instance_of clean_workflows creates_cycle
    cycle_from parent_workflow type_refused save_link detach remove_link
filing = refl

filed-WellFormed : WellFormed filed
filed-WellFormed =
    subst WellFormed filing
      (set_parent_workflow-WellFormed fresh resolution_key report_key holds 0 flat flat-WellFormed)

under_report : parent_workflow filed resolution_key ≡ some report_key
unfolding parent_workflow parent_link
under_report = refl

moved : (set_parent_workflow fresh second_key (some resolution_key) holds 0 filed).1 ≡ none
unfolding set_parent_workflow drop_existing clean instance_of clean_workflows creates_cycle
    cycle_from parent_workflow type_refused save_link detach remove_link
moved = refl

abbrev world : World
world = record { tree = filed; accesses = access ∷ [] }

sees_report :
    (ignore : Bool) → resolve ignore world (some officer) (workflow report) (on view) ≡ true
unfolding resolve guarded resolve_workflow_instance named_on can membership_grants access_by_group
    group_accesses access_grants role_permission state_or_default state_permission flag
    raised_by_referral
sees_report true = refl
sees_report false = refl

create_apart : create ≢ on view
create_apart h = ground arith

set_parent_workflow-WellFormed_example :
    WellFormed (set_parent_workflow fresh second_key (some resolution_key) holds 0 filed).0
set_parent_workflow-WellFormed_example =
    set_parent_workflow-WellFormed fresh second_key resolution_key holds 0 filed filed-WellFormed

set_parent_workflow_atomic_example :
    set_parent_workflow outdated second_key (some resolution_key) holds 0 filed
    ≡ attach_outcome outdated (link_to second_key resolution_key holds 0) filed
set_parent_workflow_atomic_example =
    set_parent_workflow_atomic outdated second_key resolution_key holds 0 filed filed-WellFormed

creates_cycle_iff_example :
    (creates_cycle filed resolution_key report_key ≡ true)
    ↔ ((n : ℕ) × Above (parent_workflow filed) report_key resolution_key n)
creates_cycle_iff_example =
    creates_cycle_iff filed resolution_key report_key filed-WellFormed.forest

get_ancestors-AncestorsOf_example :
    (n : ℕ) × AncestorsOf
      (parent_workflow filed)
      resolution_key
      n
      (get_ancestors filed resolution_key)
get_ancestors-AncestorsOf_example =
    get_ancestors-AncestorsOf filed filed-WellFormed.forest resolution_key

add_sub_workflow_keeps_parent_example :
    parent_workflow (add_sub_workflow second_key resolution_key supersedes 3 filed).0 resolution_key
    ≡ parent_workflow filed resolution_key
unfolding parent_link
add_sub_workflow_keeps_parent_example =
    add_sub_workflow_keeps_parent second_key resolution_key resolution_key supersedes 3 filed
      (link_to resolution_key report_key holds 0) refl

resolve-view_inherited_example :
    resolve false world (some officer) (workflow resolution) (on view) ≡ true
unfolding instance_of
resolve-view_inherited_example =
    resolve-view_inherited false world report resolution report_key (some officer)
      filed-WellFormed.forest under_report refl refl refl (sees_report false)

filed-IsPresent : All (IsPresent filed) filed.links
filed-IsPresent = ((refl, refl), tt)

get_all_descendants_inverse_example :
    (found : List Key) × (get_all_descendants filed report_key ≡ some found)
    × Distinct found
    × ParentsFirst (sub_workflows filed) (report_key ∷ []) found
    × ((x : Key) → contains x found ≡ contains report_key (get_ancestors filed x))
get_all_descendants_inverse_example =
    get_all_descendants_inverse filed report_key filed-WellFormed filed-IsPresent
