-- ===== src/MembershipSync/Upsert.antt =====
-- The memberships that a sync ensures: _ensure_membership and the loop of sync_user_membership,
-- src/pwms/membership/sync_service.py.
use mathlib.Core.Option.{map as option_map}
use pwms_project.Prelude.{
  ℕ, ◌+◌, ◌≡◌, refl, sym, ap, ◌∙◌, true, false, none, some, List, [], ◌∷◌, ◌++◌, nat_eq, arith,
  filter, All, filter-append, Bool-cases, Option-cases, inl, inr, beq_refl, append-nil, none-some,
  filter-agree,
}
use pwms_project.MembershipSync.{Group, Role, GroupMembership, Memberships, Target}
use pwms_project.MembershipSync.Upserting.{
  was_there, newest, is_of, membership_of, reactivate, create_membership, ensure_membership, count,
  skip, ensure_target, ensure_all,
}
use pwms_project.MembershipSync.Reactivated.{
  reactivate-membership_of, reactivate-active, reactivate_self, newest-none,
}

-- The membership that the query finds first is active.
abbrev pub Holds : ℕ → Group → Role → Memberships → Type 0
Holds user group role e =
    (m : GroupMembership) × (membership_of user group role e ≡ some m) × (m.is_active ≡ true)

abbrev pub IsEnsured : ℕ → Memberships → Target → Type 0
IsEnsured user e (none, role) = Unit
IsEnsured user e (some group, none) = Unit
IsEnsured user e (some group, some role) = Holds user group role e

abbrev pub skips : List Target → ℕ
skips [] = 0
skips ((none, role) ∷ rest) = skips rest + 1
skips ((some group, none) ∷ rest) = skips rest + 1
skips ((some group, some role) ∷ rest) = skips rest

module _ (today user : ℕ) (group : Group) (role : Role) where
  new_row : Memberships → GroupMembership
  new_row e = record {
    pk = e.next_pk;
    user = user;
    group = group.pk;
    role = role.pk;
    start_date = today;
    end_date = none;
    is_active = true;
  }

  create-membership_of :
      (other : Group) (place : Role) (e : Memberships)
      → membership_of user other place (create_membership today user group role e)
        ≡ newest (
            filter (is_of user other place) e.rows
            ++ filter (is_of user other place) (new_row e ∷ []))
  unfolding membership_of create_membership new_row
  create-membership_of other place e =
      ap newest (filter-append (is_of user other place) e.rows (new_row e ∷ []))

  new-is_of : (e : Memberships) → is_of user group role (new_row e) ≡ true
  unfolding is_of new_row
  new-is_of e = ground (arith, beq_refl user, beq_refl group.pk, beq_refl role.pk)

  created_first :
      (e : Memberships)
      → membership_of user group role e ≡ none
      → membership_of user group role (create_membership today user group role e) ≡ some (new_row e)
  unfolding membership_of newest
  created_first e missing =
      create-membership_of group role e
      ∙ rw (newest-none (filter (is_of user group role) e.rows) missing, new-is_of e) refl

  -- The row that is created is of another group or role where that one has a row.
  other_key :
      (other : Group) (place : Role) (e : Memberships)
      → membership_of user group role e ≡ none
      → (n : GroupMembership) → membership_of user other place e ≡ some n
      → is_of user other place (new_row e) ≡ false
  unfolding membership_of is_of new_row
  other_key other place e missing n there = elim (Bool-cases (is_of user other place (new_row e))) [
    | inr differ ↦ differ
    | inl same ↦ absurd (
        none-some (
          sym missing
          ∙ ap newest (
              filter-agree (is_of user group role) (is_of user other place) e.rows
                (λ m k. ground (arith, same)))
          ∙ there))
  ]

  ensure_membership-Holds :
      (e : Memberships) → Holds user group role (ensure_membership today false user group role e).1
  unfolding ensure_membership new_row
  ensure_membership-Holds e = elim (Option-cases (membership_of user group role e)) [
    | inl missing ↦ rw (ensure_membership, missing) (new_row e, created_first e missing, refl)
    | inr (m, found) ↦ elim (Bool-cases m.is_active) [
      | inl active ↦ rw (ensure_membership, found, active) (m, found, active)
      | inr ended ↦
          rw (ensure_membership, found, ended)
            (
              reactivate m.pk m,
              reactivate-membership_of m.pk user group role e
                  ∙ ap (option_map (reactivate m.pk)) found,
              reactivate_self m,
            )
    ]
  ]

  Holds-there :
      (e : Memberships)
      → Holds user group role e
      → ensure_membership today false user group role e ≡ (was_there, e)
  unfolding ensure_membership
  Holds-there e (m, found, active) = rw (ensure_membership, found, active) refl

  -- What another target holds is kept.
  ensure_membership_keeps :
      (other : Group) (place : Role) (e : Memberships)
      → Holds user other place e
      → Holds user other place (ensure_membership today false user group role e).1
  unfolding ensure_membership newest membership_of
  ensure_membership_keeps other place e (n, there, h) =
      elim (Option-cases (membership_of user group role e)) [
        | inl missing ↦
            rw (ensure_membership, missing)
              (
                n,
                create-membership_of other place e
                    ∙ rw (other_key other place e missing n there, append-nil) there,
                h,
              )
        | inr (m, found) ↦ elim (Bool-cases m.is_active) [
          | inl active ↦ rw (ensure_membership, found, active) (n, there, h)
          | inr ended ↦
              rw (ensure_membership, found, ended)
                (
                  reactivate m.pk n,
                  reactivate-membership_of m.pk user other place e
                      ∙ ap (option_map (reactivate m.pk)) there,
                  reactivate-active m.pk n h,
                )
        ]
      ]

ensure_target-IsEnsured :
    (today user : ℕ) (target : Target) (e : Memberships)
    → IsEnsured user (ensure_target today false user target e).1 target
unfolding ensure_target
ensure_target-IsEnsured today user (none, role) e = tt
ensure_target-IsEnsured today user (some group, none) e = tt
ensure_target-IsEnsured today user (some group, some role) e =
    ensure_membership-Holds today user group role e

ensure_target_keeps :
    (today user : ℕ) (target other : Target) (e : Memberships)
    → IsEnsured user e other
    → IsEnsured user (ensure_target today false user target e).1 other
unfolding ensure_target
ensure_target_keeps today user target (none, role) e h = tt
ensure_target_keeps today user target (some other, none) e h = tt
ensure_target_keeps today user (none, role) (some other, some place) e h = h
ensure_target_keeps today user (some group, none) (some other, some place) e h = h
ensure_target_keeps today user (some group, some role) (some other, some place) e h =
    ensure_membership_keeps today user group role other place e h

ensure_all_keeps :
    (today user : ℕ) (targets : List Target) (other : Target) (e : Memberships)
    → IsEnsured user e other
    → IsEnsured user (ensure_all today false user targets e).1 other
unfolding ensure_all
ensure_all_keeps today user [] other e h = h
ensure_all_keeps today user (target ∷ rest) other e h =
    ensure_all_keeps today user rest other (ensure_target today false user target e).1
      (ensure_target_keeps today user target other e h)

-- Each target that has a group and a role is held.
ensure_all-IsEnsured :
    (today user : ℕ) (targets : List Target) (e : Memberships)
    → All (IsEnsured user (ensure_all today false user targets e).1) targets
unfolding ensure_all
ensure_all-IsEnsured today user [] e = tt
ensure_all-IsEnsured today user (target ∷ rest) e =
    let f = (ensure_target today false user target e).1 in
    (
      ensure_all_keeps today user rest target f (ensure_target-IsEnsured today user target e),
      ensure_all-IsEnsured today user rest f,
    )

settled :
    (today user : ℕ) (targets : List Target) (e : Memberships)
    → All (IsEnsured user e) targets
    → ensure_all today false user targets e
      ≡ (record { created = 0; updated = 0; skipped = skips targets }, e)
unfolding ensure_all ensure_target count skip
settled today user [] e h = refl
settled today user ((none, role) ∷ rest) e (q, h) = rw (settled today user rest e h) refl
settled today user ((some group, none) ∷ rest) e (q, h) = rw (settled today user rest e h) refl
settled today user ((some group, some role) ∷ rest) e (q, h) =
    rw (Holds-there today user group role e q, settled today user rest e h) refl

-- After the loop over the targets of a user, outside a dry run, the user has an active membership
-- of each target's group and role, the one that the service's query finds first, and a target
-- with no group or no role is left out. Run again on the same targets, on any later day, the loop
-- creates and reactivates nothing, leaves the memberships as they are and counts the targets
-- with no group or no role as skipped.
pub ensure_all_settles :
    (today later user : ℕ) (targets : List Target) (e : Memberships)
    → let f = (ensure_all today false user targets e).1 in
      All (IsEnsured user f) targets
      × (ensure_all later false user targets f
          ≡ (record { created = 0; updated = 0; skipped = skips targets }, f))
ensure_all_settles today later user targets e =
    let f = (ensure_all today false user targets e).1 in
    let held = ensure_all-IsEnsured today user targets e in
    (held, settled later user targets f held)
