-- ===== src/Resolver.antt =====
-- The permission resolver that the web views and the API share: src/pwms/services/permissions.py.
-- The functions take the actions of ALL_ACTIONS as values; `resolve_named` takes a string.
pub mod Laws
use pwms_project.Prelude.{
  ℕ, Bool, true, false, ◌&&◌, ◌||◌, not, Option, none, some, List, [], ◌∷◌, Key, if◌then◌else◌,
  ◌==◌, nat_eq, string_eq, String, ◌++◌, map, find, filter, exists, contains,
}
use pwms_project.Schema.{
  Capability, view, edit, delete, share, comment, manage, transition, Action, on, create, User,
  GroupAccess, Instance,
}
use pwms_project.Rbac.{can}
use pwms_project.Hierarchy.{Tree, instance_of, get_ancestors}

-- The rows that the resolver reads.
pub record World : Type 0 where
  pub tree : Tree
  pub accesses : List GroupAccess

-- A resource by its class: a workflow instance, an attendance row of a meeting, any other model.
pub data Resource : Type 0 where
  workflow : Instance → Resource
  attendance : Instance → Resource
  other : Resource

unfoldable pub has_global_manage_role : User → Bool
has_global_manage_role u =
    u.is_authenticated && exists (λ m. m.is_active && m.role.can_manage_permissions) u.memberships

unfoldable pub is_assigned : User → Instance → Bool
is_assigned u i = elim i.assigned_to [ none ↦ false | some a ↦ u.pk == a ]

unfoldable pub has_direct_view_grant : User → Instance → Bool
unfolding is_assigned
has_direct_view_grant u i = u.pk == i.owner || is_assigned u i

-- isinstance(instance, Meeting) and instance.attendances.filter(user=user).exists()
unfoldable pub is_invited : User → Instance → Bool
is_invited u i = elim i.attendees [ none ↦ false | some users ↦ contains u.pk users ]

-- What the record itself names the user for: its owner, its assignee, an invitee.
unfoldable pub named_on : User → Instance → Capability → Bool
unfolding is_assigned is_invited
named_on u i view = u.pk == i.owner || is_assigned u i || is_invited u i
named_on u i edit = u.pk == i.owner
named_on u i delete = u.pk == i.owner
named_on u i _ = false

-- The body of the loop over the ancestors, on the key of one.
unfoldable pub ancestor_grants : Bool → World → User → Key → Bool
unfolding has_direct_view_grant
ancestor_grants ignore w u k = elim (instance_of k w.tree) [
  | none ↦ false
  | some a ↦ has_direct_view_grant u a || can ignore w.accesses a u view
]

unfoldable pub inherits : Bool → World → User → Instance → Capability → Bool
unfolding ancestor_grants
inherits ignore w u i view = exists (ancestor_grants ignore w u) (get_ancestors w.tree i.key)
inherits ignore w u i _ = false

-- _resolve_workflow_instance
unfoldable pub resolve_workflow_instance : Bool → World → User → Instance → Action → Bool
resolve_workflow_instance ignore w u i create = false
resolve_workflow_instance ignore w u i (on what) =
    named_on u i what || can ignore w.accesses i u what || inherits ignore w u i what

unfoldable pub default_resolver : User → Action → Bool
unfolding has_global_manage_role
default_resolver u (on view) = true
default_resolver u (on comment) = true
default_resolver u (on manage) = has_global_manage_role u
default_resolver u _ = false

unfoldable pub is_manage : Action → Bool
is_manage (on manage) = true
is_manage _ = false

-- The head of `resolve`: what is decided before the resource is looked at.
unfoldable pub guarded : Option User → Action → (User → Bool) → Bool
unfolding has_global_manage_role is_manage
guarded none action by_resource = false
guarded (some u) action by_resource =
    if not u.is_authenticated
    then false
    else if u.is_superuser
    then true
    else if is_manage action && has_global_manage_role u
    then true
    else by_resource u

unfoldable pub resolve_workflow : Bool → World → Option User → Instance → Action → Bool
resolve_workflow ignore w user i action =
    guarded user action (λ u. resolve_workflow_instance ignore w u i action)

-- resolve(user, resource, action, ignore_referral_grants=…). The resolver of an attendance row
-- resolves its meeting anew, without the flag.
unfoldable pub resolve : Bool → World → Option User → Resource → Action → Bool
unfolding resolve_workflow
resolve ignore w user (workflow i) action = resolve_workflow ignore w user i action
resolve ignore w user (attendance meeting) action =
    guarded user action (λ u. resolve_workflow false w (some u) meeting action)
resolve ignore w user other action = guarded user action (λ u. default_resolver u action)

-- visible_instances(user, queryset)
unfoldable pub visible_instances : World → Option User → List Instance → List Instance
visible_instances w user = filter (λ i. resolve false w user (workflow i) (on view))

-- RESOURCE_ACTIONS
abbrev pub resource_actions : List Action
resource_actions = on view ∷ on edit ∷ on delete ∷ on share ∷ on comment ∷ on manage ∷ []

-- The values of ALL_ACTIONS.
unfoldable pub action_name : Action → String
action_name (on view) = "view"
action_name (on edit) = "edit"
action_name (on delete) = "delete"
action_name (on share) = "share"
action_name (on comment) = "comment"
action_name (on manage) = "manage"
action_name (on transition) = "transition"
action_name create = "create"

unfoldable pub action_of : String → Option Action
action_of name =
    find (λ a. action_name a == name) (resource_actions ++ (on transition ∷ create ∷ []))

-- resolve with its action as a string: none is the ValueError. `lower` is str.lower.
unfoldable pub resolve_named :
    (String → String) → Bool → World → Option User → Resource → String → Option Bool
resolve_named lower ignore w user resource name = elim (action_of (lower name)) [
  | none ↦ none
  | some action ↦ some (resolve ignore w user resource action)
]

unfoldable pub permissions_for : World → Option User → Resource → List (Action × Bool)
permissions_for w user resource =
    map (λ action. (action, resolve false w user resource action)) resource_actions

-- What `require` ends in.
pub data Required : Type 0 where
  allowed permission_denied unknown_action : Required

unfoldable pub require :
    (String → String) → Bool → World → Option User → Resource → String → Required
require lower ignore w user resource name = elim (resolve_named lower ignore w user resource name) [
  | none ↦ unknown_action
  | some may ↦ if may then allowed else permission_denied
]
