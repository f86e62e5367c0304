-- ===== src/MembershipSync/DryRun.antt =====
-- A dry run of the sync, src/pwms/membership/sync_service.py.
use pwms_project.Prelude.{
  ℕ, ◌≡◌, refl, ◌∙◌, true, Option, none, some, List, [], ◌∷◌, String, ◌==◌, string_eq, ◌&&◌, find,
  Bool-cases, Option-cases, inl, inr,
}
use pwms_project.MembershipSync.{
  Names, Group, Role, Memberships, Service, OracleRow, House, cached, get_house, remember_group,
  get_group, get_or_create_group, get_or_create_house_members_group, get_or_create_party_group,
  remember_role, find_role, get_or_create_role, mp_role_name, staff_role_name, resolve_staff_role,
  staff_name, Target, house_members_groups, house_parties_groups, house_by_code, code_of,
  house_code_from_position, is_child_of,
}
use pwms_project.MembershipSync.Upserting.{
  ensure_membership, membership_of, ensure_target, ensure_all,
}
use pwms_project.MembershipSync.Targets.{
  mp_targets, org_targets, staff_targets, targets_of, sync_user_membership,
}

-- The rows of the groups, the roles and the memberships are the same.
abbrev pub SameTables : Service → Service → Type 0
SameTables s t = (s.groups ≡ t.groups) × (s.roles ≡ t.roles) × (s.memberships ≡ t.memberships)

pub then_same : (s t u : Service) → SameTables s t → SameTables t u → SameTables s u
then_same s t u (a, b, c) (d, e, f) = (a ∙ d, b ∙ e, c ∙ f)

pub get_house-same : (house : House) (s : Service) → SameTables s (get_house house s).1
unfolding get_house
get_house-same house s = elim (Option-cases (cached (code_of house) s.house_cache)) [
  | inr (g, hit) ↦ rw (get_house, hit) (refl, refl, refl)
  | inl miss ↦
      elim (Option-cases
        (find (λ g. g.name == house_by_code house && g.group_type == "house") s.groups)) [
          | inl missing ↦ rw (get_house, miss, missing) (refl, refl, refl)
          | inr (g, found) ↦ rw (get_house, miss, found) (refl, refl, refl)
        ]
]

pub get_group-same : (name : String) (s : Service) → SameTables s (get_group name s).1
unfolding get_group remember_group
get_group-same name s = elim (Bool-cases (name == "")) [
  | inl empty ↦ rw (get_group, empty) (refl, refl, refl)
  | inr given ↦ elim (Option-cases (cached name s.group_cache)) [
    | inr (g, hit) ↦ rw (get_group, given, hit) (refl, refl, refl)
    | inl miss ↦ elim (Option-cases (find (λ g. g.name == name) s.groups)) [
      | inl missing ↦ rw (get_group, given, miss, missing) (refl, refl, refl)
      | inr (g, found) ↦ rw (get_group, given, miss, found) (refl, refl, refl)
    ]
  ]
]

get_or_create_group-same :
    (name : String) (parent : Option Group) (group_type : String) (s : Service)
    → SameTables s (get_or_create_group name parent group_type true s).1
unfolding get_or_create_group remember_group
get_or_create_group-same name parent group_type s = elim (Bool-cases (name == "")) [
  | inl empty ↦ rw (get_or_create_group, empty) (refl, refl, refl)
  | inr given ↦ elim (Option-cases (cached name s.group_cache)) [
    | inr (g, hit) ↦ rw (get_or_create_group, given, hit) (refl, refl, refl)
    | inl miss ↦
        elim (Option-cases (find (λ g. g.name == name && is_child_of parent g.parent) s.groups)) [
          | inl missing ↦ rw (get_or_create_group, given, miss, missing) (refl, refl, refl)
          | inr (g, found) ↦ rw (get_or_create_group, given, miss, found) (refl, refl, refl)
        ]
  ]
]

pub find_role-same :
    (lib : Names) (name : String) (s : Service) → SameTables s (find_role lib name s).1
unfolding find_role remember_role
find_role-same lib name s = elim (Option-cases (cached name s.role_cache)) [
  | inr (r, hit) ↦ rw (find_role, hit) (refl, refl, refl)
  | inl miss ↦ elim (Option-cases (find (λ r. lib.iexact r.name name) s.roles)) [
    | inl missing ↦ rw (find_role, miss, missing) (refl, refl, refl)
    | inr (r, found) ↦ rw (find_role, miss, found) (refl, refl, refl)
  ]
]

get_or_create_role-same :
    (lib : Names) (name : String) (s : Service)
    → SameTables s (get_or_create_role lib name true s).1
unfolding get_or_create_role
get_or_create_role-same lib name s = elim (Option-cases (find_role lib name s).0) [
  | inl missing ↦ rw (get_or_create_role, missing) (find_role-same lib name s)
  | inr (r, found) ↦ rw (get_or_create_role, found) (find_role-same lib name s)
]

get_or_create_house_members_group-same :
    (house : House) (s : Service) → SameTables s (get_or_create_house_members_group house true s).1
unfolding get_or_create_house_members_group
get_or_create_house_members_group-same house s =
    let (parent, t) = get_house house s in
    then_same s t (get_or_create_house_members_group house true s).1 (get_house-same house s)
      (get_or_create_group-same (house_members_groups house) parent "administration" t)

get_or_create_party_group-same :
    (lib : Names) (house : House) (partycode : String) (s : Service)
    → SameTables s (get_or_create_party_group lib house partycode true s).1
unfolding get_or_create_party_group
get_or_create_party_group-same lib house partycode s =
    elim (Bool-cases (lib.strip partycode == "")) [
      | inl empty ↦ rw (get_or_create_party_group, empty) (refl, refl, refl)
      | inr given ↦
          let (parent, t) = get_house house s in
          let (parties, u) =
            get_or_create_group (house_parties_groups house) parent "party" true t in
          let v = (get_or_create_group (lib.strip partycode) parties "party" true u).1 in
          rw (get_or_create_party_group, given)
            (then_same s u v
              (then_same s t u (get_house-same house s)
                (get_or_create_group-same (house_parties_groups house) parent "party" t))
              (get_or_create_group-same (lib.strip partycode) parties "party" u))
    ]

resolve_staff_role-same :
    (lib : Names) (row : OracleRow) (s : Service)
    → SameTables s (resolve_staff_role lib row true s).1
unfolding resolve_staff_role
resolve_staff_role-same lib row s =
    let name = staff_name (lib.normalize_role_name row.positiondesc row.employeetype) in
    let (role, t) = find_role lib name s in
    elim (Option-cases (find_role lib name s).0) [
      | inl missing ↦
          rw (resolve_staff_role, missing)
            (then_same s t (get_or_create_role lib staff_role_name true t).1
              (find_role-same lib name s) (get_or_create_role-same lib staff_role_name t))
      | inr (r, found) ↦ rw (resolve_staff_role, found) (find_role-same lib name s)
    ]

mp_targets-same :
    (lib : Names) (row : OracleRow) (s : Service) → SameTables s (mp_targets lib row true s).1
unfolding mp_targets
mp_targets-same lib row s =
    let house = house_code_from_position lib (lib.strip row.positiondesc) in
    let (role, t) = get_or_create_role lib mp_role_name true s in
    let (members, u) = get_or_create_house_members_group house true t in
    let (party, v) = get_or_create_party_group lib house row.partycode true u in
    then_same s t v (get_or_create_role-same lib mp_role_name s) (
      then_same t u v (get_or_create_house_members_group-same house t)
        (get_or_create_party_group-same lib house row.partycode u))

pub org_targets-same :
    (lib : Names) (orgs : List String) (role : Option Role) (s : Service)
    → SameTables s (org_targets lib orgs role s).1
unfolding org_targets
org_targets-same lib [] role s = (refl, refl, refl)
org_targets-same lib (org ∷ rest) role s =
    let name = lib.strip_group_code_prefix org in
    let t = (get_group name s).1 in
    let u = (org_targets lib rest role t).1 in
    let h = then_same s t u (get_group-same name s) (org_targets-same lib rest role t) in
    elim (Bool-cases (name == "")) [
      | inl empty ↦ rw (org_targets, empty) h
      | inr given ↦ rw (org_targets, given) h
    ]

staff_targets-same :
    (lib : Names) (row : OracleRow) (s : Service) → SameTables s (staff_targets lib row true s).1
unfolding staff_targets
staff_targets-same lib row s =
    let (role, t) = resolve_staff_role lib row true s in
    let orgs = row.parent_org ∷ row.child_org ∷ [] in
    then_same s t (org_targets lib orgs role t).1 (resolve_staff_role-same lib row s)
      (org_targets-same lib orgs role t)

targets_of-same :
    (lib : Names) (row : OracleRow) (s : Service) → SameTables s (targets_of lib row true s).1
unfolding targets_of
targets_of-same lib row s = elim (Bool-cases (lib.strip row.employeetype == "Member")) [
  | inl member ↦ rw (targets_of, member) (mp_targets-same lib row s)
  | inr staff ↦ rw (targets_of, staff) (staff_targets-same lib row s)
]

ensure_membership-same :
    (today user : ℕ) (group : Group) (role : Role) (e : Memberships)
    → e ≡ (ensure_membership today true user group role e).1
unfolding ensure_membership
ensure_membership-same today user group role e =
    elim (Option-cases (membership_of user group role e)) [
      | inl missing ↦ rw (ensure_membership, missing) refl
      | inr (m, found) ↦ elim (Bool-cases m.is_active) [
        | inl active ↦ rw (ensure_membership, found, active) refl
        | inr ended ↦ rw (ensure_membership, found, ended) refl
      ]
    ]

ensure_target-same :
    (today user : ℕ) (target : Target) (e : Memberships)
    → e ≡ (ensure_target today true user target e).1
unfolding ensure_target
ensure_target-same today user (none, role) e = refl
ensure_target-same today user (some group, none) e = refl
ensure_target-same today user (some group, some role) e =
    ensure_membership-same today user group role e

ensure_all-same :
    (today user : ℕ) (targets : List Target) (e : Memberships)
    → e ≡ (ensure_all today true user targets e).1
unfolding ensure_all
ensure_all-same today user [] e = refl
ensure_all-same today user (target ∷ rest) e =
    ensure_target-same today user target e
    ∙ ensure_all-same today user rest (ensure_target today true user target e).1

-- A dry run of the sync of a user writes no row: the groups, the roles and the memberships are
-- what they were, whatever the row of the register says and whatever the caches hold.
pub sync_user_membership-dry :
    (lib : Names) (today user : ℕ) (row : OracleRow) (s : Service)
    → SameTables s (sync_user_membership lib today user row true s).1
unfolding sync_user_membership
sync_user_membership-dry lib today user row s =
    let (targets, t) = targets_of lib row true s in
    let (a, b, c) = targets_of-same lib row s in
    (a, b, c ∙ ensure_all-same today user targets t.memberships)
