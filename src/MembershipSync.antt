-- ===== src/MembershipSync.antt =====
-- MembershipSyncService, src/pwms/membership/sync_service.py: the memberships that a user should
-- hold by a row of the Oracle register. A cache keeps a group or role under a name.
pub mod Upserting
pub mod Targets
pub mod Reactivated
pub mod Upsert
pub mod DryRun
pub mod Caches
pub mod Roles
pub mod Again
pub mod Staff
pub mod Settled
use pwms_project.Prelude.{
  ℕ, zero, suc, ◌+◌, Bool, true, false, not, ◌&&◌, ◌||◌, Option, none, some, List, [], ◌∷◌, ◌++◌,
  String, if◌then◌else◌, ◌==◌, nat_eq, string_eq, ltb, filter, find, map,
}

-- The constructor's two functions, and what str.strip, the last part of str.split(":") (none
-- without a colon) and the database's iexact answer.
pub record Names : Type 0 where
  pub strip : String → String
  pub last_part : String → Option String
  pub iexact : String → String → Bool
  pub strip_group_code_prefix : String → String
  pub normalize_role_name : String → String → String

pub record Group : Type 0 where
  pub pk : ℕ
  pub name : String
  pub parent : Option ℕ
  pub group_type : String

pub record Role : Type 0 where
  pub pk : ℕ
  pub name : String

pub record GroupMembership : Type 0 where
  pub pk : ℕ
  pub user : ℕ
  pub group : ℕ
  pub role : ℕ
  pub start_date : ℕ
  pub end_date : Option ℕ
  pub is_active : Bool

pub record Memberships : Type 0 where
  pub rows : List GroupMembership
  pub next_pk : ℕ

pub record Service : Type 0 where
  pub groups : List Group
  pub roles : List Role
  pub memberships : Memberships
  pub group_cache : List (String × Group)
  pub role_cache : List (String × Role)
  pub house_cache : List (String × Group)
  pub next_group : ℕ
  pub next_role : ℕ

-- The columns that the service reads; a missing one is empty.
pub record OracleRow : Type 0 where
  pub positiondesc : String
  pub employeetype : String
  pub partycode : String
  pub child_org : String
  pub parent_org : String

unfoldable pub cached {ℓ} : {A : Type ℓ} → String → List (String × A) → Option A
cached name [] = none
cached name (entry ∷ rest) =
    let later = cached name rest in if entry.0 == name then some entry.1 else later

abbrev pub mp_role_name : String
mp_role_name = "Member of Parliament"

abbrev pub staff_role_name : String
staff_role_name = "Staff Member"

pub data House : Type 0 where
  na ncop : House

unfoldable pub code_of : House → String
code_of na = "NA"
code_of ncop = "NCOP"

unfoldable pub house_by_code : House → String
house_by_code na = "National Assembly"
house_by_code ncop = "National Council of Provinces"

unfoldable pub house_members_groups : House → String
house_members_groups na = "NA Members"
house_members_groups ncop = "NCOP Members"

unfoldable pub house_parties_groups : House → String
house_parties_groups na = "NA Parties"
house_parties_groups ncop = "NCOP Parties"

unfoldable pub house_of_code : String → House
house_of_code code = if code == "NCOP" then ncop else na

unfoldable pub house_code_from_position : Names → String → House
house_code_from_position lib positiondesc = elim (lib.last_part positiondesc) [
  | none ↦ na
  | some part ↦ house_of_code (lib.strip part)
]

unfoldable pub get_house : House → Service → Option Group × Service
get_house house s = elim (cached (code_of house) s.house_cache) [
  | some g ↦ (some g, s)
  | none ↦ elim (find (λ g. g.name == house_by_code house && g.group_type == "house") s.groups) [
    | none ↦ (none, s)
    | some g ↦ (some g, record s { house_cache = (code_of house, g) ∷ s.house_cache })
  ]
]

unfoldable pub remember_group : String → Group → Service → Service
remember_group name g s = record s { group_cache = (name, g) ∷ s.group_cache }

unfoldable pub get_group : String → Service → Option Group × Service
get_group name s = if name == "" then (none, s) else elim (cached name s.group_cache) [
  | some g ↦ (some g, s)
  | none ↦ elim (find (λ g. g.name == name) s.groups) [
    | none ↦ (none, s)
    | some g ↦ (some g, remember_group name g s)
  ]
]

unfoldable pub is_child_of : Option Group → Option ℕ → Bool
is_child_of none none = true
is_child_of none (some p) = false
is_child_of (some parent) none = false
is_child_of (some parent) (some p) = p == parent.pk

unfoldable pub pk_of : Option Group → Option ℕ
pk_of none = none
pk_of (some g) = some g.pk

unfoldable pub create_group : String → Option Group → String → Service → Option Group × Service
create_group name parent group_type s =
    let g : Group = record {
      pk = s.next_group;
      name = name;
      parent = pk_of parent;
      group_type = group_type;
    } in
    (
      some g,
      remember_group name g
          (record s { groups = s.groups ++ (g ∷ []); next_group = s.next_group + 1 }),
    )

unfoldable pub get_or_create_group :
    String → Option Group → String → Bool → Service → Option Group × Service
get_or_create_group name parent group_type dry_run s =
    if name == "" then (none, s) else elim (cached name s.group_cache) [
      | some g ↦ (some g, s)
      | none ↦ elim (find (λ g. g.name == name && is_child_of parent g.parent) s.groups) [
        | some g ↦ (some g, remember_group name g s)
        | none ↦ if dry_run then (none, s) else create_group name parent group_type s
      ]
    ]

unfoldable pub get_or_create_house_members_group : House → Bool → Service → Option Group × Service
get_or_create_house_members_group house dry_run s =
    let (parent, t) = get_house house s in
    get_or_create_group (house_members_groups house) parent "administration" dry_run t

unfoldable pub get_or_create_party_group :
    Names → House → String → Bool → Service → Option Group × Service
get_or_create_party_group lib house partycode dry_run s =
    if lib.strip partycode == ""
    then (none, s)
    else let (parent, t) = get_house house s in
      let (parties, u) =
        get_or_create_group (house_parties_groups house) parent "party" dry_run t in
      get_or_create_group (lib.strip partycode) parties "party" dry_run u

unfoldable pub remember_role : String → Role → Service → Service
remember_role name r s = record s { role_cache = (name, r) ∷ s.role_cache }

unfoldable pub find_role : Names → String → Service → Option Role × Service
find_role lib name s = elim (cached name s.role_cache) [
  | some r ↦ (some r, s)
  | none ↦ elim (find (λ r. lib.iexact r.name name) s.roles) [
    | none ↦ (none, s)
    | some r ↦ (some r, remember_role name r s)
  ]
]

-- Role.objects.get_or_create, by the exact name
unfoldable pub create_role : String → Service → Option Role × Service
create_role name s = elim (find (λ r. r.name == name) s.roles) [
  | some r ↦ (some r, remember_role name r s)
  | none ↦
      let r : Role = record { pk = s.next_role; name = name } in
      (
        some r,
        remember_role name r
            (record s { roles = s.roles ++ (r ∷ []); next_role = s.next_role + 1 }),
      )
]

unfoldable pub get_or_create_role : Names → String → Bool → Service → Option Role × Service
get_or_create_role lib name dry_run s =
    let (role, t) = find_role lib name s in
    elim role [ some r ↦ (some r, t) | none ↦ if dry_run then (none, t) else create_role name t ]

unfoldable pub staff_name : String → String
staff_name name = if name == "" || name == mp_role_name then staff_role_name else name

unfoldable pub resolve_staff_role : Names → OracleRow → Bool → Service → Option Role × Service
resolve_staff_role lib row dry_run s =
    let (role, t) =
      find_role lib (staff_name (lib.normalize_role_name row.positiondesc row.employeetype)) s in
    elim role [ some r ↦ (some r, t) | none ↦ get_or_create_role lib staff_role_name dry_run t ]

abbrev pub Target : Type 0
Target = Option Group × Option Role
