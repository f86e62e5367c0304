-- ===== src/MembershipSync/Upserting.antt =====
-- The memberships of a user: _ensure_membership and the loop of sync_user_membership,
-- src/pwms/membership/sync_service.py.
use pwms_project.Prelude.{
  ℕ, ◌+◌, Bool, true, ◌&&◌, Option, none, some, List, [], ◌∷◌, ◌++◌, if◌then◌else◌, ◌==◌, nat_eq,
  string_eq, ltb, filter, map,
}
use pwms_project.MembershipSync.{Group, Role, GroupMembership, Memberships, Target}

pub data Done : Type 0 where
  was_created reactivated was_there : Done

pub record Counters : Type 0 where
  pub created : ℕ
  pub updated : ℕ
  pub skipped : ℕ

-- The first of the query, which has the newest start first.
unfoldable pub newest : List GroupMembership → Option GroupMembership
newest [] = none
newest (m ∷ rest) = elim (newest rest) [
  | none ↦ some m
  | some n ↦ if ltb m.start_date n.start_date then some n else some m
]

unfoldable pub is_of : ℕ → Group → Role → GroupMembership → Bool
is_of user group role m = m.user == user && m.group == group.pk && m.role == role.pk

unfoldable pub membership_of : ℕ → Group → Role → Memberships → Option GroupMembership
membership_of user group role e = newest (filter (is_of user group role) e.rows)

unfoldable pub reactivate : ℕ → GroupMembership → GroupMembership
reactivate pk m = if m.pk == pk then record m { is_active = true; end_date = none } else m

unfoldable pub create_membership : ℕ → ℕ → Group → Role → Memberships → Memberships
create_membership today user group role e = record {
  rows =
      e.rows
      ++ (record {
        pk = e.next_pk;
        user = user;
        group = group.pk;
        role = role.pk;
        start_date = today;
        end_date = none;
        is_active = true;
      }
          ∷ []);
  next_pk = e.next_pk + 1;
}

unfoldable pub ensure_membership : ℕ → Bool → ℕ → Group → Role → Memberships → Done × Memberships
ensure_membership today dry_run user group role e = elim (membership_of user group role e) [
  | none ↦ (was_created, (if dry_run then e else create_membership today user group role e))
  | some m ↦
      if m.is_active
      then (was_there, e)
      else (reactivated, (if dry_run then e else record e { rows = map (reactivate m.pk) e.rows }))
]

unfoldable pub count : Done → Counters → Counters
count was_created c = record c { created = c.created + 1 }
count reactivated c = record c { updated = c.updated + 1 }
count was_there c = c

unfoldable pub skip : Counters → Counters
skip c = record c { skipped = c.skipped + 1 }

-- One round of the loop over the targets, with what it adds to the counters.
unfoldable pub ensure_target :
    ℕ → Bool → ℕ → Target → Memberships → (Counters → Counters) × Memberships
ensure_target today dry_run user (none, role) e = (skip, e)
ensure_target today dry_run user (some group, none) e = (skip, e)
ensure_target today dry_run user (some group, some role) e =
    let (done, f) = ensure_membership today dry_run user group role e in (count done, f)

unfoldable pub ensure_all : ℕ → Bool → ℕ → List Target → Memberships → Counters × Memberships
ensure_all today dry_run user [] e = (record { created = 0; updated = 0; skipped = 0 }, e)
ensure_all today dry_run user (target ∷ rest) e =
    let (step, f) = ensure_target today dry_run user target e in
    let (counters, last) = ensure_all today dry_run user rest f in (step counters, last)
