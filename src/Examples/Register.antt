-- ===== src/Examples/Register.antt =====
-- A member of the National Assembly and a user of two sections: the theorems on
-- src/pwms/membership/sync_service.py.
use pwms_project.Prelude.{◌≡◌, true, false, none, some, List, [], ◌∷◌, All, ◌==◌, string_eq}
use pwms_project.MembershipSync.{Names, Group, Role, Memberships, Service, OracleRow, Target}
use pwms_project.MembershipSync.Targets.{targets_of, sync_user_membership}
use pwms_project.MembershipSync.Upsert.{IsEnsured}
use pwms_project.MembershipSync.Settled.{sync_user_membership_settles}
use pwms_project.MembershipSync.DryRun.{SameTables, sync_user_membership-dry}

abbrev names : Names
names = record {
  strip = λ s. s;
  last_part = λ s. some s;
  iexact = λ a b. a == b;
  strip_group_code_prefix = λ s. s;
  normalize_role_name = λ position kind. position;
}

abbrev house : Group
house = record { pk = 1; name = "National Assembly"; parent = none; group_type = "house" }

abbrev section : Group
section = record { pk = 2; name = "Legal Services"; parent = none; group_type = "section" }

abbrev drafter : Role
drafter = record { pk = 5; name = "Drafter" }

-- A membership of the section that ended.
abbrev held : Memberships
held = record {
  rows =
      record {
        pk = 1;
        user = 9;
        group = 2;
        role = 5;
        start_date = 10;
        end_date = some 20;
        is_active = false;
      }
      ∷ [];
  next_pk = 2;
}

abbrev targets : List Target
targets = (some section, some drafter) ∷ (none, some drafter) ∷ (some house, some drafter) ∷ []

abbrev service : Service
service = record {
  groups = house ∷ section ∷ [];
  roles = drafter ∷ [];
  memberships = held;
  group_cache = [];
  role_cache = [];
  house_cache = [];
  next_group = 3;
  next_role = 6;
}

abbrev row : OracleRow
row = record {
  positiondesc = "NA";
  employeetype = "Member";
  partycode = "ABC";
  child_org = "";
  parent_org = "";
}

sync_user_membership-dry_example :
    SameTables service (sync_user_membership names 30 9 row true service).1
sync_user_membership-dry_example = sync_user_membership-dry names 30 9 row service

abbrev synced : Service
synced = (sync_user_membership names 30 9 row false service).1

sync_user_membership_settles_example :
    All (IsEnsured 9 synced.memberships) (targets_of names row false service).0
    × ((targets_of names row false synced).0 ≡ (targets_of names row false service).0)
    × ((sync_user_membership names 31 9 row false synced).0 ≡ record {
      created = 0;
      updated = 0;
      skipped = (sync_user_membership names 30 9 row false service).0.skipped;
    })
    × SameTables synced (sync_user_membership names 31 9 row false synced).1
sync_user_membership_settles_example = sync_user_membership_settles names 30 31 9 row service
