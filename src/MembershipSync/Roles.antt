-- ===== src/MembershipSync/Roles.antt =====
-- The roles of MembershipSyncService, src/pwms/membership/sync_service.py: a role that was
-- resolved is resolved to the same role again.
use pwms_project.Prelude.{
  ◌≡◌, ◌⊎◌, refl, sym, ap, subst, ◌∙◌, false, Option, none, some, List, [], ◌∷◌, ◌++◌, String, ◌==◌,
  string_eq, find, find-append, Bool-cases, Option-cases, inl, inr, none-some, some_inj,
}
use pwms_project.MembershipSync.{
  Names, Role, Service, cached, remember_role, find_role, create_role, get_or_create_role,
}
use pwms_project.MembershipSync.Caches.{pushed_first}

module _ (lib : Names) (name : String) where
  pub find_role_hit :
      (s : Service) (r : Role)
      → cached name s.role_cache ≡ some r
      → find_role lib name s ≡ (some r, s)
  unfolding find_role
  find_role_hit s r hit = rw (find_role, hit) refl

  pub get_or_create_role_hit :
      (s : Service) (r : Role)
      → cached name s.role_cache ≡ some r
      → get_or_create_role lib name false s ≡ (some r, s)
  unfolding get_or_create_role
  get_or_create_role_hit s r hit =
      let e = find_role_hit s r hit in
      rw
        (
          get_or_create_role,
          ap (λ (p : Option Role × Service). p.0) e,
          ap (λ (p : Option Role × Service). p.1) e,
        )
        refl

  -- What finding or making a role leaves: the role is in the cache, and every other answer that the
  -- cache or the table can give is from before.
  pub record Made (s : Service) (r : Role) (t : Service) : Type 0 where
    pub kept : cached name t.role_cache ≡ some r
    pub cache_from :
        (n : String) (x : Role)
        → cached n t.role_cache ≡ some x
        → (cached n s.role_cache ≡ some x) ⊎ (x ≡ r)
    pub roles_from :
        (n : String) (x : Role)
        → find (λ q. lib.iexact q.name n) t.roles ≡ some x
        → (find (λ q. lib.iexact q.name n) s.roles ≡ some x) ⊎ (x ≡ r)
    pub groups_same : s.group_cache ≡ t.group_cache

  remembered_from :
      (r : Role) (cache : List (String × Role)) (n : String) (x : Role)
      → cached n ((name, r) ∷ cache) ≡ some x
      → (cached n cache ≡ some x) ⊎ (x ≡ r)
  unfolding cached
  remembered_from r cache n x h = elim (Bool-cases (name == n)) [
    | inl same ↦ inr (sym (some_inj (rw (cached, same) at h)))
    | inr other ↦ inl (rw (cached, other) at h)
  ]

  appended_from :
      (r : Role) (roles : List Role) (n : String) (x : Role)
      → find (λ q. lib.iexact q.name n) (roles ++ (r ∷ [])) ≡ some x
      → (find (λ q. lib.iexact q.name n) roles ≡ some x) ⊎ (x ≡ r)
  appended_from r roles n x h =
      let split = sym (find-append (λ q. lib.iexact q.name n) roles (r ∷ [])) ∙ h in
      elim (Option-cases (find (λ q. lib.iexact q.name n) roles)) [
        | inr (y, found) ↦ inl (found ∙ (rw found at split))
        | inl absent ↦ elim (Bool-cases (lib.iexact r.name n)) [
          | inl here ↦ inr (sym (some_inj (rw (absent, here) at split)))
          | inr there ↦ absurd (none-some (rw (absent, there) at split))
        ]
      ]

  Made-hit : (s : Service) (r : Role) → cached name s.role_cache ≡ some r → Made s r s
  Made-hit s r hit = record {
    kept = hit;
    cache_from = λ n x h. inl h;
    roles_from = λ n x h. inl h;
    groups_same = refl;
  }

  Made-remember : (s : Service) (r : Role) → Made s r (remember_role name r s)
  unfolding remember_role
  Made-remember s r = record {
    kept = pushed_first name r s.role_cache;
    cache_from = remembered_from r s.role_cache;
    roles_from = λ n x h. inl h;
    groups_same = refl;
  }

  Made-create :
      (s : Service)
      → (r : Role) × ((create_role name s).0 ≡ some r) × Made s r (create_role name s).1
  unfolding create_role remember_role
  Made-create s = elim (Option-cases (find (λ r. r.name == name) s.roles)) [
    | inr (r, found) ↦ rw (create_role, found) (r, refl, Made-remember s r)
    | inl absent ↦
        let r : Role = record { pk = s.next_role; name = name } in
        rw (create_role, absent)
          (
            r,
            refl,
            record {
              kept = pushed_first name r s.role_cache;
              cache_from = remembered_from r s.role_cache;
              roles_from = appended_from r s.roles;
              groups_same = refl;
            },
          )
  ]

  pub find_role-some :
      (s : Service) (r : Role)
      → (find_role lib name s).0 ≡ some r
      → Made s r (find_role lib name s).1
  unfolding find_role
  find_role-some s r h = elim (Option-cases (cached name s.role_cache)) [
    | inr (q, hit) ↦
        let same = some_inj (rw (find_role, hit) at h) in
        rw (find_role, hit) (Made-hit s r (hit ∙ ap some same))
    | inl miss ↦ elim (Option-cases (find (λ r. lib.iexact r.name name) s.roles)) [
      | inl missing ↦ absurd (none-some (rw (find_role, miss, missing) at h))
      | inr (q, found) ↦
          let same = some_inj (rw (find_role, miss, found) at h) in
          rw (find_role, miss, found)
            (subst (λ x. Made s r (remember_role name x s)) (sym same) (Made-remember s r))
    ]
  ]

  pub find_role-none :
      (s : Service)
      → (find_role lib name s).0 ≡ none
      → ((find_role lib name s).1 ≡ s)
        × (cached name s.role_cache ≡ none)
        × (find (λ r. lib.iexact r.name name) s.roles ≡ none)
  unfolding find_role
  find_role-none s h = elim (Option-cases (cached name s.role_cache)) [
    | inr (q, hit) ↦ absurd (none-some (sym (rw (find_role, hit) at h)))
    | inl miss ↦ elim (Option-cases (find (λ r. lib.iexact r.name name) s.roles)) [
      | inl missing ↦ (rw (find_role, miss, missing) refl, miss, missing)
      | inr (q, found) ↦ absurd (none-some (sym (rw (find_role, miss, found) at h)))
    ]
  ]

  pub get_or_create_role-Made :
      (s : Service)
      → (r : Role) × ((get_or_create_role lib name false s).0 ≡ some r)
        × Made s r (get_or_create_role lib name false s).1
  unfolding get_or_create_role
  get_or_create_role-Made s = elim (Option-cases (find_role lib name s).0) [
    | inr (r, found) ↦ rw (get_or_create_role, found) (r, refl, find_role-some s r found)
    | inl missing ↦
        let (same, _, _) = find_role-none s missing in
        rw (get_or_create_role, missing, same) (Made-create s)
  ]
