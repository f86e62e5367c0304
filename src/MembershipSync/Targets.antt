-- ===== src/MembershipSync/Targets.antt =====
-- The targets of a user and the whole sync: _mp_targets, _staff_targets and sync_user_membership,
-- src/pwms/membership/sync_service.py.
use pwms_project.Prelude.{
  ℕ, Bool, Option, none, some, List, [], ◌∷◌, String, if◌then◌else◌, ◌==◌, nat_eq, string_eq,
}
use pwms_project.MembershipSync.{
  Names, Group, Role, Service, OracleRow, mp_role_name, house_code_from_position, get_group,
  get_or_create_house_members_group, get_or_create_party_group, get_or_create_role,
  resolve_staff_role, Target,
}
use pwms_project.MembershipSync.Upserting.{Counters, ensure_all}

-- A party's group that there is not is no target.
unfoldable pub party_target : Option Group → Option Role → List Target
party_target none role = []
party_target (some g) role = (some g, role) ∷ []

unfoldable pub mp_targets : Names → OracleRow → Bool → Service → List Target × Service
mp_targets lib row dry_run s =
    let house = house_code_from_position lib (lib.strip row.positiondesc) in
    let (role, t) = get_or_create_role lib mp_role_name dry_run s in
    let (members, u) = get_or_create_house_members_group house dry_run t in
    let (party, v) = get_or_create_party_group lib house row.partycode dry_run u in
    ((members, role) ∷ party_target party role, v)

unfoldable pub org_targets : Names → List String → Option Role → Service → List Target × Service
org_targets lib [] role s = ([], s)
org_targets lib (org ∷ rest) role s =
    let name = lib.strip_group_code_prefix org in
    let (group, t) = get_group name s in
    let (targets, u) = org_targets lib rest role t in
    if name == "" then (targets, u) else ((group, role) ∷ targets, u)

unfoldable pub staff_targets : Names → OracleRow → Bool → Service → List Target × Service
staff_targets lib row dry_run s =
    let (role, t) = resolve_staff_role lib row dry_run s in
    org_targets lib (row.parent_org ∷ row.child_org ∷ []) role t

unfoldable pub targets_of : Names → OracleRow → Bool → Service → List Target × Service
targets_of lib row dry_run s =
    if lib.strip row.employeetype == "Member"
    then mp_targets lib row dry_run s
    else staff_targets lib row dry_run s

unfoldable pub sync_user_membership :
    Names → ℕ → ℕ → OracleRow → Bool → Service → Counters × Service
sync_user_membership lib today user row dry_run s =
    let (targets, t) = targets_of lib row dry_run s in
    let (counters, e) = ensure_all today dry_run user targets t.memberships in
    (counters, record t { memberships = e })
