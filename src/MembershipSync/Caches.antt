-- ===== src/MembershipSync/Caches.antt =====
-- The caches of MembershipSyncService, src/pwms/membership/sync_service.py: what was found stays
-- found.
use pwms_project.Prelude.{
  ◌≡◌, refl, sym, ap, ◌∙◌, false, Option, none, some, List, ◌∷◌, String, ◌==◌, string_eq, ◌&&◌,
  find, Bool-cases, Option-cases, inl, inr, none-some, beq→eq, beq_refl,
}
use pwms_project.MembershipSync.{
  Group, Service, House, cached, get_house, remember_group, get_or_create_group, create_group,
  house_by_code, code_of, is_child_of,
}

-- The cache of groups keeps its entries.
abbrev pub Grows : Service → Service → Type 0
Grows s t =
    (name : String) (g : Group)
    → cached name s.group_cache ≡ some g
    → cached name t.group_cache ≡ some g

-- What is found of groups: the cache of groups grows, and nothing changes for roles.
pub record Later (s t : Service) : Type 0 where
  pub groups_kept : Grows s t
  pub role_cache_same : s.role_cache ≡ t.role_cache
  pub roles_same : s.roles ≡ t.roles

pub Later-refl : (s : Service) → Later s s
Later-refl s = record { groups_kept = λ name g h. h; role_cache_same = refl; roles_same = refl }

pub Later-trans : (s t u : Service) → Later s t → Later t u → Later s u
Later-trans s t u a b = record {
  groups_kept = λ name g h. b.groups_kept name g (a.groups_kept name g h);
  role_cache_same = a.role_cache_same ∙ b.role_cache_same;
  roles_same = a.roles_same ∙ b.roles_same;
}

pub pushed {ℓ} :
    {A : Type ℓ} (name other : String) (x y : A) (cache : List (String × A))
    → cached name cache ≡ none
    → cached other cache ≡ some y
    → cached other ((name, x) ∷ cache) ≡ some y
unfolding cached
pushed name other x y cache new old = elim (Bool-cases (name == other)) [
  | inl same ↦
      absurd (none-some (sym new ∙ ap (λ n. cached n cache) (beq→eq name other same) ∙ old))
  | inr differ ↦ rw (cached, differ) old
]

pub pushed_first {ℓ} :
    {A : Type ℓ} (name : String) (x : A) (cache : List (String × A))
    → cached name ((name, x) ∷ cache) ≡ some x
unfolding cached
pushed_first name x cache = rw (cached, beq_refl name) refl

remember_group-Later :
    (name : String) (g : Group) (s : Service)
    → cached name s.group_cache ≡ none
    → Later s (remember_group name g s)
unfolding remember_group
remember_group-Later name g s new = record {
  groups_kept = λ other h old. pushed name other g h s.group_cache new old;
  role_cache_same = refl;
  roles_same = refl;
}

pub get_house-Later : (house : House) (s : Service) → Later s (get_house house s).1
unfolding get_house
get_house-Later house s = elim (Option-cases (cached (code_of house) s.house_cache)) [
  | inr (g, hit) ↦ rw (get_house, hit) (Later-refl s)
  | inl miss ↦
      elim (Option-cases
        (find (λ g. g.name == house_by_code house && g.group_type == "house") s.groups)) [
          | inl missing ↦ rw (get_house, miss, missing) (Later-refl s)
          | inr (g, found) ↦
              rw (get_house, miss, found)
                (record { groups_kept = λ n h k. k; role_cache_same = refl; roles_same = refl })
        ]
]

module _ (name : String) (parent : Option Group) (group_type : String) where
  create_group-Later :
      (s : Service)
      → cached name s.group_cache ≡ none
      → Later s (create_group name parent group_type s).1
  unfolding create_group remember_group
  create_group-Later s new = record {
    groups_kept = λ other h old. pushed name other _ h s.group_cache new old;
    role_cache_same = refl;
    roles_same = refl;
  }

  create_group-cached :
      (s : Service)
      → (g : Group) × ((create_group name parent group_type s).0 ≡ some g)
        × (cached name (create_group name parent group_type s).1.group_cache ≡ some g)
  unfolding create_group remember_group
  create_group-cached s = (_, refl, pushed_first name _ s.group_cache)

  -- Outside a dry run a group with a name is found or made, and is in the cache afterwards.
  pub get_or_create_group-cached :
      (s : Service)
      → (name == "") ≡ false
      → let (group, t) = get_or_create_group name parent group_type false s in
        Later s t × ((g : Group) × (group ≡ some g) × (cached name t.group_cache ≡ some g))
  unfolding get_or_create_group remember_group
  get_or_create_group-cached s given = elim (Option-cases (cached name s.group_cache)) [
    | inr (g, hit) ↦ rw (get_or_create_group, given, hit) (Later-refl s, (g, refl, hit))
    | inl miss ↦
        elim (Option-cases (find (λ g. g.name == name && is_child_of parent g.parent) s.groups)) [
          | inr (g, found) ↦
              rw (get_or_create_group, given, miss, found)
                (remember_group-Later name g s miss, (g, refl, pushed_first name g s.group_cache))
          | inl missing ↦
              rw (get_or_create_group, given, miss, missing)
                (create_group-Later s miss, create_group-cached s)
        ]
  ]

  pub get_or_create_group_hit :
      (s : Service) (g : Group)
      → (name == "") ≡ false
      → cached name s.group_cache ≡ some g
      → get_or_create_group name parent group_type false s ≡ (some g, s)
  unfolding get_or_create_group
  get_or_create_group_hit s g given hit = rw (get_or_create_group, given, hit) refl
