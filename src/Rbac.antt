-- ===== src/Rbac.antt =====
-- `AbstractLegislativeWorkflow.can` of src/pwms/models/workflows.py: role override, state
-- permission, group default, for each active membership.
pub mod Grants
pub mod Referred
use pwms_project.Prelude.{
  ℕ, Bool, true, false, ◌&&◌, ◌||◌, not, Option, none, some, List, if◌then◌else◌, ◌==◌, key_eq,
  nat_eq, filter, find, find_last, exists, contains,
}
use pwms_project.Schema.{
  Capability, edit, Flags, flag, Membership, User, RolePermission, StatePermission, GroupAccess,
  State, Instance,
}

-- WorkflowGroupAccess rows of one instance, in the order in which the database returns them.
unfoldable pub group_accesses : Instance → List GroupAccess → List GroupAccess
group_accesses inst accesses = filter (λ a. a.object == inst.key) accesses

-- access_by_group.get(group): of equal keys a dict comprehension keeps the last.
unfoldable pub access_by_group : ℕ → List GroupAccess → Option GroupAccess
access_by_group group accesses = find_last (λ a. a.group == group) accesses

-- getattr(access, f"referral_raised_{action}", False): only `edit` has the column.
unfoldable pub raised_by_referral : Capability → GroupAccess → Bool
raised_by_referral edit a = a.referral_raised_edit
raised_by_referral _ a = false

unfoldable pub role_permission : ℕ → GroupAccess → Option RolePermission
role_permission role a = find (λ rp. rp.role == role) a.role_permissions

unfoldable pub state_permission : ℕ → GroupAccess → Option StatePermission
state_permission state a = find (λ sp. sp.state == state) a.state_permissions

-- not role_perm.allowed_states.exists() or role_perm.allowed_states.filter(pk=state).exists()
unfoldable pub applies_here : ℕ → RolePermission → Bool
applies_here state rp =
    not (exists (λ _. true) rp.allowed_states) || contains state rp.allowed_states

-- Steps 2 and 3 of the loop body.
unfoldable pub state_or_default : Bool → ℕ → Capability → GroupAccess → Bool
state_or_default ignore state what a =
    elim (state_permission state a) [ none ↦ false | some sp ↦ flag what sp.flags ]
    || flag what a.flags && not (ignore && raised_by_referral what a)

-- Step 1, an override that applies ends the body.
unfoldable pub access_grants : Bool → ℕ → Capability → Membership → GroupAccess → Bool
access_grants ignore state what m a =
    let rest = state_or_default ignore state what a in
    elim (role_permission m.role.pk a) [
      | none ↦ rest
      | some rp ↦ if applies_here state rp then flag what rp.flags else rest
    ]

-- The body of `for membership in memberships`: whether it returns True.
unfoldable pub membership_grants : Bool → ℕ → Capability → List GroupAccess → Membership → Bool
membership_grants ignore state what accesses m = elim (access_by_group m.group accesses) [
  | none ↦ false
  | some a ↦ if ignore && a.via_referral then false else access_grants ignore state what m a
]

unfoldable pub can : Bool → List GroupAccess → Instance → User → Capability → Bool
can ignore accesses inst user what =
    exists (membership_grants ignore inst.current_state.pk what (group_accesses inst accesses))
      (filter (λ m. m.is_active) user.memberships)
