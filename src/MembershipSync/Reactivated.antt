-- ===== src/MembershipSync/Reactivated.antt =====
-- A membership that is made active again, in the query of _ensure_membership,
-- src/pwms/membership/sync_service.py.
use mathlib.Core.Option.{map as option_map}
use pwms_project.Prelude.{
  ℕ, ◌≡◌, refl, sym, ap, ◌∙◌, true, none, List, [], ◌∷◌, nat_eq, ltb, arith, filter, map,
  Bool-cases, Option-cases, inl, inr, beq_refl, none-some,
}
use pwms_project.MembershipSync.{Group, Role, GroupMembership, Memberships}
use pwms_project.MembershipSync.Upserting.{newest, is_of, membership_of, reactivate}

is_of-reactivate :
    (pk user : ℕ) (group : Group) (role : Role) (m : GroupMembership)
    → is_of user group role (reactivate pk m) ≡ is_of user group role m
unfolding is_of reactivate
is_of-reactivate pk user group role m = ground arith

filter-reactivate :
    (pk user : ℕ) (group : Group) (role : Role) (rows : List GroupMembership)
    → filter (is_of user group role) (map (reactivate pk) rows)
      ≡ map (reactivate pk) (filter (is_of user group role) rows)
filter-reactivate pk user group role [] = refl
filter-reactivate pk user group role (m ∷ rows) =
    ground (arith, is_of-reactivate pk user group role m, filter-reactivate pk user group role rows)

reactivate-start_date : (pk : ℕ) (m : GroupMembership) → (reactivate pk m).start_date ≡ m.start_date
unfolding reactivate
reactivate-start_date pk m = ground arith

newest-reactivate :
    (pk : ℕ) (rows : List GroupMembership)
    → newest (map (reactivate pk) rows) ≡ option_map (reactivate pk) (newest rows)
unfolding newest reactivate
newest-reactivate pk [] = refl
newest-reactivate pk (m ∷ rows) = elim (Option-cases (newest rows)) [
  | inl empty ↦ rw (newest-reactivate pk rows, empty) refl
  | inr (n, e) ↦ elim (Bool-cases (ltb m.start_date n.start_date)) [
    | inl later ↦
        rw
          (
            newest-reactivate pk rows,
            e,
            reactivate-start_date pk m,
            reactivate-start_date pk n,
            later,
          )
          refl
    | inr stays ↦
        rw
          (
            newest-reactivate pk rows,
            e,
            reactivate-start_date pk m,
            reactivate-start_date pk n,
            stays,
          )
          refl
  ]
]

pub reactivate-membership_of :
    (pk user : ℕ) (group : Group) (role : Role) (e : Memberships)
    → membership_of user group role (record e { rows = map (reactivate pk) e.rows })
      ≡ option_map (reactivate pk) (membership_of user group role e)
unfolding membership_of
reactivate-membership_of pk user group role e =
    ap newest (filter-reactivate pk user group role e.rows)
    ∙ newest-reactivate pk (filter (is_of user group role) e.rows)

pub reactivate-active :
    (pk : ℕ) (m : GroupMembership) → m.is_active ≡ true → (reactivate pk m).is_active ≡ true
unfolding reactivate
reactivate-active pk m h = ground arith

pub newest-none : (rows : List GroupMembership) → newest rows ≡ none → rows ≡ []
unfolding newest
newest-none [] h = refl
newest-none (m ∷ rows) h = absurd (elim (Option-cases (newest rows)) [
  | inl empty ↦ none-some (sym (rw empty at h))
  | inr (n, e) ↦ ground (arith, rw e at h)
])

pub reactivate_self : (m : GroupMembership) → (reactivate m.pk m).is_active ≡ true
unfolding reactivate
reactivate_self m = ground (arith, beq_refl m.pk)
