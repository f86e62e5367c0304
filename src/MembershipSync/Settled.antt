-- ===== src/MembershipSync/Settled.antt =====
-- The sync of one user, run twice: sync_user_membership, src/pwms/membership/sync_service.py.
use pwms_project.Prelude.{
  ℕ, ◌+◌, ◌≡◌, refl, sym, ap, ◌∙◌, false, none, some, List, [], ◌∷◌, String, ◌==◌, string_eq, All,
  Bool-cases, inl, inr,
}
use pwms_project.MembershipSync.{Names, Service, Memberships, OracleRow, Target, resolve_staff_role}
use pwms_project.MembershipSync.Upserting.{
  Done, was_created, reactivated, was_there, Counters, count, skip, ensure_target,
  ensure_membership, ensure_all,
}
use pwms_project.MembershipSync.Targets.{
  org_targets, staff_targets, mp_targets, targets_of, sync_user_membership,
}
use pwms_project.MembershipSync.Upsert.{IsEnsured, skips, ensure_all_settles}
use pwms_project.MembershipSync.DryRun.{SameTables, then_same, org_targets-same}
use pwms_project.MembershipSync.Again.{SameRoles, FoundAgain, mp_targets_again}
use pwms_project.MembershipSync.Staff.{
  lookup, lookup-org_targets, role_cache-org_targets, org_targets_agree, resolve_again,
}

staff_targets_again :
    (lib : Names) (row : OracleRow) (s u : Service)
    → let t = (staff_targets lib row false s).1 in
      ((n : String) → lookup n t ≡ lookup n u)
      → SameRoles t u
      → FoundAgain (staff_targets lib row false) s u
unfolding staff_targets
staff_targets_again lib row s u looks (cache, roles) =
    let orgs = row.parent_org ∷ row.child_org ∷ [] in
    let t = (resolve_staff_role lib row false s).1 in
    let (r, e, again) = resolve_again lib row s in
    let (_, same_roles, _) = org_targets-same lib orgs (resolve_staff_role lib row false s).0 t in
    let (f, tables, found) = again u (
      role_cache-org_targets lib orgs (resolve_staff_role lib row false s).0 t ∙ cache,
      same_roles ∙ roles,
    ) in
    let v = (resolve_staff_role lib row false u).1 in
    let agree = org_targets_agree lib orgs (some r) v t (λ n.
      found n
      ∙ sym (looks n)
      ∙ lookup-org_targets lib orgs (resolve_staff_role lib row false s).0 n t) in
    (
      ap (λ role. (org_targets lib orgs role v).0) f
          ∙ agree
          ∙ ap (λ role. (org_targets lib orgs role t).0) (sym e),
      then_same u v (org_targets lib orgs (resolve_staff_role lib row false u).0 v).1 tables
          (org_targets-same lib orgs (resolve_staff_role lib row false u).0 v),
    )

-- The memberships are written between the first run and the second.
targets_of_again :
    (lib : Names) (row : OracleRow) (s : Service) (e : Memberships)
    → FoundAgain
        (targets_of lib row false)
        s
        (record ((targets_of lib row false s).1) { memberships = e })
unfolding targets_of
targets_of_again lib row s e = elim (Bool-cases (lib.strip row.employeetype == "Member")) [
  | inl member ↦
      rw (targets_of, member)
        (mp_targets_again lib row s (record ((mp_targets lib row false s).1) { memberships = e })
          (λ n g h. h) (refl, refl))
  | inr staff ↦
      rw (targets_of, staff)
        (staff_targets_again lib row s
          (record ((staff_targets lib row false s).1) { memberships = e }) (λ n. refl) (refl, refl))
]

skipped-count : (done : Done) (c : Counters) → (count done c).skipped ≡ c.skipped
unfolding count
skipped-count was_created c = refl
skipped-count reactivated c = refl
skipped-count was_there c = refl

ensure_all-skips :
    (today user : ℕ) (targets : List Target) (e : Memberships)
    → (ensure_all today false user targets e).0.skipped ≡ skips targets
unfolding ensure_all ensure_target skip
ensure_all-skips today user [] e = refl
ensure_all-skips today user ((none, role) ∷ rest) e =
    ap (λ n. n + 1) (ensure_all-skips today user rest e)
ensure_all-skips today user ((some g, none) ∷ rest) e =
    ap (λ n. n + 1) (ensure_all-skips today user rest e)
ensure_all-skips today user ((some g, some r) ∷ rest) e =
    let (done, f) = ensure_membership today false user g r e in
    skipped-count done (ensure_all today false user rest f).0 ∙ ensure_all-skips today user rest f

-- Synced outside a dry run, a user has an active membership of the group and role of every target
-- that the row of the register gives, whichever groups and roles had to be made for it. Synced
-- again by the same row on any later day, the service finds the same targets, creates and
-- reactivates nothing, skips as many, and leaves the groups, the roles and the memberships as
-- they are.
pub sync_user_membership_settles :
    (lib : Names) (today later user : ℕ) (row : OracleRow) (s : Service)
    → let (counters, t) = sync_user_membership lib today user row false s in
      let (again, u) = sync_user_membership lib later user row false t in
      All (IsEnsured user t.memberships) (targets_of lib row false s).0
      × ((targets_of lib row false t).0 ≡ (targets_of lib row false s).0)
      × (again ≡ record { created = 0; updated = 0; skipped = counters.skipped })
      × SameTables t u
unfolding sync_user_membership
sync_user_membership_settles lib today later user row s =
    let (targets, t) = targets_of lib row false s in
    let e = (ensure_all today false user targets t.memberships).1 in
    let v : Service = record t { memberships = e } in
    let (same, (groups, roles, memberships)) = targets_of_again lib row s e in
    let (held, settled) = ensure_all_settles today later user targets t.memberships in
    let whole =
      ap (ensure_all later false user (targets_of lib row false v).0) (sym memberships)
      ∙ ap (λ ts. ensure_all later false user ts e) same
      ∙ settled in
    (
      held,
      same,
      ap (λ (q : Counters × Memberships). q.0) whole
          ∙ ap (λ n. record { created = 0; updated = 0; skipped = n })
              (sym (ensure_all-skips today user targets t.memberships)),
      (groups, roles, sym (ap (λ (q : Counters × Memberships). q.1) whole)),
    )
