-- ===== src/MembershipSync/Again.antt =====
-- A second sync of the same row, src/pwms/membership/sync_service.py: it finds the same targets.
use pwms_project.Prelude.{
  ◌≡◌, refl, sym, ap, subst, ◌∙◌, false, Option, some, List, String, ◌==◌, string_eq, Bool-cases,
  inl, inr,
}
use pwms_project.MembershipSync.{
  Names, Group, Role, Service, OracleRow, House, na, ncop, cached, get_house, get_or_create_group,
  get_or_create_house_members_group, get_or_create_party_group, house_members_groups,
  house_parties_groups, get_or_create_role, mp_role_name, Target, house_code_from_position,
}
use pwms_project.MembershipSync.Targets.{mp_targets}
use pwms_project.MembershipSync.Caches.{
  Grows, Later, Later-refl, Later-trans, get_house-Later, get_or_create_group-cached,
  get_or_create_group_hit,
}
use pwms_project.MembershipSync.Roles.{get_or_create_role_hit, get_or_create_role-Made}
use pwms_project.MembershipSync.DryRun.{SameTables, then_same, get_house-same}

-- Nothing that a role is resolved from has changed.
abbrev pub SameRoles : Service → Service → Type 0
SameRoles s t = (s.role_cache ≡ t.role_cache) × (s.roles ≡ t.roles)

members_named : (house : House) → (house_members_groups house == "") ≡ false
unfolding house_members_groups
members_named na = refl
members_named ncop = refl

parties_named : (house : House) → (house_parties_groups house == "") ≡ false
unfolding house_parties_groups
parties_named na = refl
parties_named ncop = refl

members_again :
    (house : House) (s : Service)
    → let (group, t) = get_or_create_house_members_group house false s in
      Later s t
      × ((g : Group) × (group ≡ some g)
          × ((u : Service)
              → Grows t u
              → get_or_create_house_members_group house false u ≡ (some g, (get_house house u).1)))
unfolding get_or_create_house_members_group
members_again house s =
    let (parent, h) = get_house house s in
    let name = house_members_groups house in
    let (later, (g, e, kept)) =
      get_or_create_group-cached name parent "administration" h (members_named house) in
    (
      Later-trans s h (get_or_create_group name parent "administration" false h).1
          (get_house-Later house s) later,
      (
        g,
        e,
        λ u grows.
            get_or_create_group_hit name (get_house house u).0 "administration"
              (get_house house u).1 g (members_named house)
              ((get_house-Later house u).groups_kept name g (grows name g kept)),
      ),
    )

party_again :
    (lib : Names) (house : House) (partycode : String) (s : Service)
    → let (group, t) = get_or_create_party_group lib house partycode false s in
      Later s t
      × ((u : Service)
          → Grows t u
          → let (again, v) = get_or_create_party_group lib house partycode false u in
            (again ≡ group) × SameTables u v)
unfolding get_or_create_party_group
party_again lib house partycode s = elim (Bool-cases (lib.strip partycode == "")) [
  | inl empty ↦
      rw (get_or_create_party_group, empty) (Later-refl s, λ u grows. (refl, (refl, refl, refl)))
  | inr given ↦
      let name = house_parties_groups house in
      let code = lib.strip partycode in
      let (parent, h) = get_house house s in
      let (parties, t) = get_or_create_group name parent "party" false h in
      let (group, v) = get_or_create_group code parties "party" false t in
      let (one, (p, e, kept)) =
        get_or_create_group-cached name parent "party" h (parties_named house) in
      let (two, (g, f, held)) = get_or_create_group-cached code parties "party" t given in
      rw (get_or_create_party_group, given)
        (
          Later-trans s h v (get_house-Later house s) (Later-trans h t v one two),
          λ u grows.
              let (top, w) = get_house house u in
              let still = (get_house-Later house u).groups_kept in
              let first =
                get_or_create_group_hit name top "party" w p (parties_named house)
                  (still name p (grows name p (two.groups_kept name p kept))) in
              let second =
                get_or_create_group_hit code (some p) "party" w g given
                  (still code g (grows code g held)) in
              let whole =
                subst (λ q. get_or_create_group code q.0 "party" false q.1 ≡ (some g, w))
                  (sym first) second in
              (
                ap (λ (q : Option Group × Service). q.0) whole ∙ sym f,
                subst (λ (q : Option Group × Service). SameTables u q.1) (sym whole)
                    (get_house-same house u),
              ),
        )
]

abbrev pub FoundAgain : (Service → List Target × Service) → Service → Service → Type 0
FoundAgain targets s u = ((targets u).0 ≡ (targets s).0) × SameTables u (targets u).1

pub mp_targets_again :
    (lib : Names) (row : OracleRow) (s u : Service)
    → let t = (mp_targets lib row false s).1 in
      Grows t u → SameRoles t u → FoundAgain (mp_targets lib row false) s u
unfolding mp_targets
mp_targets_again lib row s u grows (cache, roles) =
    let house = house_code_from_position lib (lib.strip row.positiondesc) in
    let (r, e, made) = get_or_create_role-Made lib mp_role_name s in
    let t = (get_or_create_role lib mp_role_name false s).1 in
    let (one, (g, f, members)) = members_again house t in
    let v = (get_or_create_house_members_group house false t).1 in
    let (two, party) = party_again lib house row.partycode v in
    let hit = get_or_create_role_hit lib mp_role_name u r (
      ap (cached mp_role_name) (sym cache)
      ∙ ap (cached mp_role_name) (sym two.role_cache_same ∙ sym one.role_cache_same)
      ∙ made.kept) in
    let found = members u (λ n x h. grows n x (two.groups_kept n x h)) in
    let (same_party, tables) =
      party (get_house house u).1
        (λ n x h. (get_house-Later house u).groups_kept n x (grows n x h)) in
    rw
      (
        ap (λ (q : Option Role × Service). q.0) hit,
        ap (λ (q : Option Role × Service). q.1) hit,
        ap (λ (q : Option Group × Service). q.0) found,
        ap (λ (q : Option Group × Service). q.1) found,
        e,
        f,
        same_party,
      )
      (
        refl,
        then_same u (get_house house u).1
            (get_or_create_party_group lib house row.partycode false (get_house house u).1).1
            (get_house-same house u) tables,
      )
