-- ===== src/MembershipSync/Staff.antt =====
-- A second sync of a staff member, src/pwms/membership/sync_service.py.
use pwms_project.Prelude.{
  ◌≡◌, ◌⊎◌, refl, sym, ap, subst, ◌∙◌, false, Option, none, some, List, [], ◌∷◌, String,
  if◌then◌else◌, ◌==◌, string_eq, find, Bool-cases, Option-cases, inl, inr, none-some, beq→eq,
  beq_refl,
}
use pwms_project.MembershipSync.{
  Names, Group, Role, Service, OracleRow, cached, get_group, remember_group, find_role,
  resolve_staff_role, staff_role_name, staff_name, remember_role,
}
use pwms_project.MembershipSync.Targets.{org_targets}
use pwms_project.MembershipSync.Roles.{
  find_role_hit, find_role-some, find_role-none, get_or_create_role_hit, get_or_create_role-Made,
}
use pwms_project.MembershipSync.DryRun.{SameTables, find_role-same}
use pwms_project.MembershipSync.Again.{SameRoles}

-- The group that _get_group answers for a name that is not empty.
abbrev pub lookup : String → Service → Option Group
lookup name s = elim (cached name s.group_cache) [
  | some g ↦ some g
  | none ↦ find (λ g. g.name == name) s.groups
]

get_group-lookup :
    (name : String) (s : Service)
    → (get_group name s).0 ≡ (if name == "" then none else lookup name s)
unfolding get_group
get_group-lookup name s = elim (Bool-cases (name == "")) [
  | inl empty ↦ rw (get_group, empty) refl
  | inr given ↦ elim (Option-cases (cached name s.group_cache)) [
    | inr (g, hit) ↦ rw (get_group, lookup, given, hit) refl
    | inl miss ↦ elim (Option-cases (find (λ g. g.name == name) s.groups)) [
      | inl missing ↦ rw (get_group, lookup, given, miss, missing) refl
      | inr (g, found) ↦ rw (get_group, lookup, given, miss, found) refl
    ]
  ]
]

lookup-remembered :
    (name n : String) (g : Group) (s : Service)
    → cached name s.group_cache ≡ none
    → find (λ g. g.name == name) s.groups ≡ some g
    → lookup n (remember_group name g s) ≡ lookup n s
unfolding remember_group cached
lookup-remembered name n g s miss found = elim (Bool-cases (name == n)) [
  | inl same ↦
      subst (λ m. lookup m (remember_group name g s) ≡ lookup m s) (beq→eq name n same)
        (rw (lookup, beq_refl name, miss, found) refl)
  | inr other ↦ rw (lookup, other) refl
]

lookup-get_group : (name n : String) (s : Service) → lookup n (get_group name s).1 ≡ lookup n s
unfolding get_group
lookup-get_group name n s = elim (Bool-cases (name == "")) [
  | inl empty ↦ rw (get_group, empty) refl
  | inr given ↦ elim (Option-cases (cached name s.group_cache)) [
    | inr (g, hit) ↦ rw (get_group, given, hit) refl
    | inl miss ↦ elim (Option-cases (find (λ g. g.name == name) s.groups)) [
      | inl missing ↦ rw (get_group, given, miss, missing) refl
      | inr (g, found) ↦
          rw (get_group, given, miss, found) (lookup-remembered name n g s miss found)
    ]
  ]
]

role_cache-get_group :
    (name : String) (s : Service) → s.role_cache ≡ (get_group name s).1.role_cache
unfolding get_group remember_group
role_cache-get_group name s = elim (Bool-cases (name == "")) [
  | inl empty ↦ rw (get_group, empty) refl
  | inr given ↦ elim (Option-cases (cached name s.group_cache)) [
    | inr (g, hit) ↦ rw (get_group, given, hit) refl
    | inl miss ↦ elim (Option-cases (find (λ g. g.name == name) s.groups)) [
      | inl missing ↦ rw (get_group, given, miss, missing) refl
      | inr (g, found) ↦ rw (get_group, given, miss, found) refl
    ]
  ]
]

module _ (lib : Names) where
  pub lookup-org_targets :
      (orgs : List String) (role : Option Role) (n : String) (s : Service)
      → lookup n (org_targets lib orgs role s).1 ≡ lookup n s
  unfolding org_targets
  lookup-org_targets [] role n s = refl
  lookup-org_targets (org ∷ rest) role n s =
      let name = lib.strip_group_code_prefix org in
      let t = (get_group name s).1 in
      let h = lookup-org_targets rest role n t ∙ lookup-get_group name n s in
      elim (Bool-cases (name == "")) [
        | inl empty ↦ rw (org_targets, empty) h
        | inr given ↦ rw (org_targets, given) h
      ]

  pub role_cache-org_targets :
      (orgs : List String) (role : Option Role) (s : Service)
      → s.role_cache ≡ (org_targets lib orgs role s).1.role_cache
  unfolding org_targets
  role_cache-org_targets [] role s = refl
  role_cache-org_targets (org ∷ rest) role s =
      let name = lib.strip_group_code_prefix org in
      let t = (get_group name s).1 in
      let h = role_cache-get_group name s ∙ role_cache-org_targets rest role t in
      elim (Bool-cases (name == "")) [
        | inl empty ↦ rw (org_targets, empty) h
        | inr given ↦ rw (org_targets, given) h
      ]

  pub org_targets_agree :
      (orgs : List String) (role : Option Role) (s u : Service)
      → ((n : String) → lookup n s ≡ lookup n u)
      → (org_targets lib orgs role s).0 ≡ (org_targets lib orgs role u).0
  unfolding org_targets
  org_targets_agree [] role s u h = refl
  org_targets_agree (org ∷ rest) role s u h =
      let name = lib.strip_group_code_prefix org in
      let later =
        org_targets_agree rest role (get_group name s).1 (get_group name u).1
          (λ n. lookup-get_group name n s ∙ h n ∙ sym (lookup-get_group name n u)) in
      let first =
        get_group-lookup name s
        ∙ ap (λ found. if name == "" then none else found) (h name)
        ∙ sym (get_group-lookup name u) in
      elim (Bool-cases (name == "")) [
        | inl empty ↦ rw (org_targets, empty) later
        | inr given ↦ rw (org_targets, given, later, first) refl
      ]

  find_role_source :
      (name : String) (u : Service) (r : Role)
      → (find_role lib name u).0 ≡ some r
      → (cached name u.role_cache ≡ some r) ⊎ (find (λ q. lib.iexact q.name name) u.roles ≡ some r)
  unfolding find_role
  find_role_source name u r h = elim (Option-cases (cached name u.role_cache)) [
    | inr (q, hit) ↦ inl (hit ∙ (rw (find_role, hit) at h))
    | inl miss ↦ elim (Option-cases (find (λ q. lib.iexact q.name name) u.roles)) [
      | inl missing ↦ absurd (none-some (rw (find_role, miss, missing) at h))
      | inr (q, found) ↦ inr (found ∙ (rw (find_role, miss, found) at h))
    ]
  ]

  lookup-find_role :
      (name n : String) (u : Service) → lookup n (find_role lib name u).1 ≡ lookup n u
  unfolding find_role remember_role
  lookup-find_role name n u = elim (Option-cases (cached name u.role_cache)) [
    | inr (q, hit) ↦ rw (find_role, hit) refl
    | inl miss ↦ elim (Option-cases (find (λ q. lib.iexact q.name name) u.roles)) [
      | inl missing ↦ rw (find_role, miss, missing) refl
      | inr (q, found) ↦ rw (find_role, miss, found) refl
    ]
  ]

  -- The role that is resolved, and that it is resolved again to the same one.
  abbrev pub ResolvedAgain : OracleRow → Role → Service → Type 0
  ResolvedAgain row r u =
      ((resolve_staff_role lib row false u).0 ≡ some r)
      × SameTables u (resolve_staff_role lib row false u).1
      × ((n : String) → lookup n (resolve_staff_role lib row false u).1 ≡ lookup n u)

  pub resolve_again :
      (row : OracleRow) (s : Service)
      → let (role, t) = resolve_staff_role lib row false s in
        (r : Role) × (role ≡ some r) × ((u : Service) → SameRoles t u → ResolvedAgain row r u)
  unfolding resolve_staff_role
  resolve_again row s =
      let name = staff_name (lib.normalize_role_name row.positiondesc row.employeetype) in
      elim (Option-cases (find_role lib name s).0) [
        | inr (r, found) ↦
            let made = find_role-some lib name s r found in
            rw (resolve_staff_role, found)
              (
                r,
                refl,
                λ u (cache, roles).
                    let hit =
                      find_role_hit lib name u r (ap (cached name) (sym cache) ∙ made.kept) in
                    rw
                      (
                        resolve_staff_role,
                        ap (λ (q : Option Role × Service). q.0) hit,
                        ap (λ (q : Option Role × Service). q.1) hit,
                      )
                      (refl, (refl, refl, refl), λ n. refl),
              )
        | inl missing ↦
            let (same, miss, absent) = find_role-none lib name s missing in
            let (r, e, made) = get_or_create_role-Made lib staff_role_name s in
            rw (resolve_staff_role, missing, same)
              (
                r,
                e,
                λ u (cache, roles). elim (Option-cases (find_role lib name u).0) [
                  | inr (x, fx) ↦
                      let agree : x ≡ r = elim (find_role_source name u x fx) [
                        | inl hit ↦ elim (made.cache_from name x (ap (cached name) cache ∙ hit)) [
                          | inl old ↦ absurd (none-some (sym miss ∙ old))
                          | inr new ↦ new
                        ]
                        | inr hit ↦
                            elim (made.roles_from name x
                              (ap (find (λ q. lib.iexact q.name name)) roles ∙ hit)) [
                                | inl old ↦ absurd (none-some (sym absent ∙ old))
                                | inr new ↦ new
                              ]
                      ] in
                      rw (resolve_staff_role, fx)
                        (ap some agree, find_role-same lib name u, λ n. lookup-find_role name n u)
                  | inl none_now ↦
                      let (still, _, _) = find_role-none lib name u none_now in
                      let hit =
                        get_or_create_role_hit lib staff_role_name u r
                          (ap (cached staff_role_name) (sym cache) ∙ made.kept) in
                      rw
                        (
                          resolve_staff_role,
                          none_now,
                          still,
                          ap (λ (q : Option Role × Service). q.0) hit,
                          ap (λ (q : Option Role × Service). q.1) hit,
                        )
                        (refl, (refl, refl, refl), λ n. refl)
                ],
              )
      ]
