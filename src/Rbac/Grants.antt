-- ===== src/Rbac/Grants.antt =====
-- What `can` answers, against a description by rules.
use mathlib.Core.List.{Memᴰ}
use pwms_project.Prelude.{
  ℕ, ◌≡◌, ◌↔◌, ◌⊎◌, refl, sym, ◌∙◌, Bool, true, false, [], ◌∷◌, List-cases, some_inj, contains,
  ◌==◌, nat_eq, beq→eq, beq_refl, true-false, not, ◌&&◌, none, some, List, arith, filter,
  exists→mem, mem→exists, mem-filter, filter-mem, Bool-cases, Option-cases, inl, inr,
}
use pwms_project.Schema.{
  Capability, view, edit, delete, share, comment, manage, transition, flag, Membership, User,
  RolePermission, StatePermission, GroupAccess, Instance,
}
use pwms_project.Rbac.{
  group_accesses, access_by_group, raised_by_referral, role_permission, state_permission,
  applies_here, state_or_default, access_grants, membership_grants, can,
}

contains→mem : (n : ℕ) (xs : List ℕ) → contains n xs ≡ true → Memᴰ n xs
contains→mem n [] h = absurd (ground arith)
contains→mem n (x ∷ xs) h = elim (Bool-cases (n == x)) [
  | inl same ↦ Memᴰ.head (beq→eq n x same)
  | inr other ↦ Memᴰ.tail (contains→mem n xs (ground arith))
]

mem→contains : (n : ℕ) (xs : List ℕ) → Memᴰ n xs → contains n xs ≡ true
mem→contains n [] m = elim m [ ]
mem→contains n (x ∷ xs) (Memᴰ.head e) = ground (arith, beq_refl x, e)
mem→contains n (x ∷ xs) (Memᴰ.tail m) = ground (arith, mem→contains n xs m)

-- An override applies in every state, or in those that it lists.
abbrev pub Applies : ℕ → RolePermission → Type 0
Applies state rp = (rp.allowed_states ≡ []) ⊎ Memᴰ state rp.allowed_states

applies_here_iff :
    (state : ℕ) (rp : RolePermission) → applies_here state rp ≡ true ↔ Applies state rp
unfolding applies_here
applies_here_iff state rp = elim (List-cases rp.allowed_states) [
  | inl empty ↦ ((λ h. inl empty), (λ h. rw empty refl))
  | inr (x, rest, e) ↦ (
    (λ h. inr (contains→mem state rp.allowed_states (ground (arith, e)))),
    (λ h. elim h [
      | inl empty ↦ absurd (ground (arith, e, empty))
      | inr m ↦ ground (arith, mem→contains state rp.allowed_states m)
    ]),
  )
]

-- No role override of the member's role applies in the state.
abbrev pub NoOverride : ℕ → Membership → GroupAccess → Type 0
NoOverride state m a =
    (rp : RolePermission) → role_permission m.role.pk a ≡ some rp → ¬ Applies state rp

off_state : (state : ℕ) (rp : RolePermission) → ¬ Applies state rp → applies_here state rp ≡ false
off_state state rp n = elim (Bool-cases (applies_here state rp)) [
  | inl on ↦ absurd (n ((applies_here_iff state rp).0 on))
  | inr off ↦ off
]

-- A default counts, unless it is edit that a referral raised and referral grants are ignored.
abbrev pub Counts : Bool → Capability → GroupAccess → Type 0
Counts ignore what a = ignore ≡ true → what ≡ edit → a.referral_raised_edit ≡ false

counted_iff :
    (ignore : Bool) (what : Capability) (a : GroupAccess)
    → (ignore && raised_by_referral what a) ≡ false ↔ Counts ignore what a
unfolding raised_by_referral
counted_iff false what a = ((λ h i. absurd (ground arith)), (λ h. refl))
counted_iff true edit a = ((λ h i e. h), (λ h. h refl refl))
counted_iff true view a = ((λ h i e. absurd (ground arith)), (λ h. refl))
counted_iff true delete a = ((λ h i e. absurd (ground arith)), (λ h. refl))
counted_iff true share a = ((λ h i e. absurd (ground arith)), (λ h. refl))
counted_iff true comment a = ((λ h i e. absurd (ground arith)), (λ h. refl))
counted_iff true manage a = ((λ h i e. absurd (ground arith)), (λ h. refl))
counted_iff true transition a = ((λ h i e. absurd (ground arith)), (λ h. refl))

-- The three layers in which an access row grants a capability.
pub data Grants (ignore : Bool) (state : ℕ) (what : Capability) (m : Membership) (a : GroupAccess)
    : Type 0 where
  by_role :
      (rp : RolePermission)
      → role_permission m.role.pk a ≡ some rp
      → Applies state rp
      → flag what rp.flags ≡ true
      → Grants ignore state what m a
  by_state :
      (sp : StatePermission)
      → NoOverride state m a
      → state_permission state a ≡ some sp
      → flag what sp.flags ≡ true
      → Grants ignore state what m a
  by_group :
      NoOverride state m a
      → flag what a.flags ≡ true
      → Counts ignore what a
      → Grants ignore state what m a

-- An active membership, the row of its group, and a layer of the row that grants.
pub record Granted (ignore : Bool) (accesses : List GroupAccess) (inst : Instance) (user : User)
    (what : Capability) : Type 0 where
  pub member : Membership
  pub held : Memᴰ member user.memberships
  pub active : member.is_active ≡ true
  pub row : GroupAccess
  pub found : access_by_group member.group (group_accesses inst accesses) ≡ some row
  pub counted : (ignore && row.via_referral) ≡ false
  pub layer : Grants ignore inst.current_state.pk what member row

module _ (ignore : Bool) (state : ℕ) (what : Capability) (m : Membership) (a : GroupAccess) where
  NoOverride-access_grants :
      NoOverride state m a
      → access_grants ignore state what m a ≡ state_or_default ignore state what a
  unfolding access_grants
  NoOverride-access_grants free = elim (Option-cases (role_permission m.role.pk a)) [
    | inl absent ↦ rw (absent, access_grants)
    | inr (rp, found) ↦ ground (arith, off_state state rp (free rp found))
  ]

  NoOverride-of_none : role_permission m.role.pk a ≡ none → NoOverride state m a
  NoOverride-of_none absent rp found = cc

  NoOverride-of_some :
      (rp : RolePermission)
      → role_permission m.role.pk a ≡ some rp
      → applies_here state rp ≡ false
      → NoOverride state m a
  NoOverride-of_some rp found off rq other applies =
      let same : rq ≡ rp = some_inj (sym other ∙ found) in
      true-false ((applies_here_iff state rq).1 applies) (rw same off)

  state_or_default→Grants :
      NoOverride state m a
      → state_or_default ignore state what a ≡ true
      → Grants ignore state what m a
  unfolding state_or_default
  state_or_default→Grants free h =
      elim (Bool-cases (flag what a.flags && not (ignore && raised_by_referral what a))) [
        | inl default ↦ by_group free (ground arith) ((counted_iff ignore what a).0 (ground arith))
        | inr refused ↦ elim (Option-cases (state_permission state a)) [
          | inl absent ↦ absurd (ground arith)
          | inr (sp, found) ↦ by_state sp free found (ground arith)
        ]
      ]

  access_grants→Grants : access_grants ignore state what m a ≡ true → Grants ignore state what m a
  unfolding access_grants
  access_grants→Grants h = elim (Option-cases (role_permission m.role.pk a)) [
    | inl absent ↦ state_or_default→Grants (NoOverride-of_none absent) (ground arith)
    | inr (rp, found) ↦ elim (Bool-cases (applies_here state rp)) [
      | inl applies ↦ by_role rp found ((applies_here_iff state rp).0 applies) (ground arith)
      | inr off ↦ state_or_default→Grants (NoOverride-of_some rp found off) (ground arith)
    ]
  ]

  Grants→access-Grants : Grants ignore state what m a → access_grants ignore state what m a ≡ true
  unfolding access_grants state_or_default
  Grants→access-Grants (by_role rp found applies granted) =
      let on = (applies_here_iff state rp).1 applies in ground arith
  Grants→access-Grants (by_state sp free found granted) =
      rw (NoOverride-access_grants free) (ground arith)
  Grants→access-Grants (by_group free granted counts) =
      let counted = (counted_iff ignore what a).1 counts in
      rw (NoOverride-access_grants free) (ground arith)

module _ (ignore : Bool) (accesses : List GroupAccess) (inst : Instance) (user : User)
    (what : Capability) where
  can→Granted : can ignore accesses inst user what ≡ true → Granted ignore accesses inst user what
  unfolding can membership_grants
  can→Granted h =
      let (m, kept, grants) =
        exists→mem
          (membership_grants ignore inst.current_state.pk what (group_accesses inst accesses))
          (filter (λ m. m.is_active) user.memberships) h in
      let (held, active) = mem-filter (λ m. m.is_active) user.memberships kept in
      elim (Option-cases (access_by_group m.group (group_accesses inst accesses))) [
        | inl absent ↦ absurd (ground arith)
        | inr (a, found) ↦ record {
          member = m;
          held = held;
          active = active;
          row = a;
          found = found;
          counted = ground arith;
          layer = access_grants→Grants ignore inst.current_state.pk what m a (ground arith);
        }
      ]

  Granted→can : Granted ignore accesses inst user what → can ignore accesses inst user what ≡ true
  unfolding can membership_grants
  Granted→can g =
      mem→exists
        (membership_grants ignore inst.current_state.pk what (group_accesses inst accesses))
        (filter (λ m. m.is_active) user.memberships)
        (filter-mem (λ m. m.is_active) user.memberships g.held g.active)
        (rw (g.found, membership_grants)
          (rw g.counted
            (Grants→access-Grants ignore inst.current_state.pk what g.member g.row g.layer)))

-- `can` answers True exactly when one of the user's active memberships is in a group whose row on
-- the instance counts and grants the capability in one of three layers: the override of the
-- member's role, if it lists no states or the current one; or, where it does not apply or there is
-- none, the row of the current state; or then the group default (not one that a referral raised,
-- if referral grants are ignored). A state row that denies leaves the group default granting: the
-- layers below the role are joined by `or`, which the documents describe otherwise.
pub can_iff_Granted :
    (ignore : Bool) (accesses : List GroupAccess) (inst : Instance) (user : User)
    (what : Capability)
    → (can ignore accesses inst user what ≡ true) ↔ Granted ignore accesses inst user what
can_iff_Granted ignore accesses inst user what =
    (can→Granted ignore accesses inst user what, Granted→can ignore accesses inst user what)
