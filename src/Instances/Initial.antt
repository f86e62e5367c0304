-- ===== src/Instances/Initial.antt =====
-- Who may do what with an instance that was just created: save and can of
-- AbstractLegislativeWorkflow, src/pwms/models/workflows.py.
use pwms_project.Prelude.{
  ℕ, ◌≡◌, refl, sym, ap, ◌∙◌, Bool, true, false, ◌&&◌, none, some, List, [], ◌∷◌, ◌++◌, Key,
  if◌then◌else◌, ◌==◌, key_eq, nat_eq, arith, filter, exists, contains, Bool-cases, inl, inr,
  beq→eq,
}
use pwms_project.Schema.{
  Capability, view, edit, delete, share, comment, manage, transition, Flags, flag, GroupAccess,
  WorkflowType, Instance, User, Membership,
}
use pwms_project.Access.{
  is_row, access_row, view_and_edit, owner_access_defaults, granted_row, is_owner,
  materialize_group_access,
}
use pwms_project.Access.Sync.{IsUnique}
use pwms_project.Rbac.{
  group_accesses, access_by_group, raised_by_referral, role_permission, state_permission,
  state_or_default, access_grants, membership_grants, can,
}
use pwms_project.Instances.{Rows, save}
use pwms_project.Instances.Granted.{first_of, owner_part, viewer_part, owner_row, viewer_rows}

-- The dictionary of `can` has the row that the filter finds.
access_by_group-access_row :
    (i : Instance) (g : ℕ) (xs : List GroupAccess)
    → IsUnique xs
    → access_by_group g (group_accesses i xs) ≡ access_row i.key g xs
unfolding access_by_group group_accesses access_row is_row
access_by_group-access_row i g [] u = refl
access_by_group-access_row i g (a ∷ xs) (absent, u) = elim (Bool-cases (a.object == i.key)) [
  | inr elsewhere ↦ rw elsewhere (access_by_group-access_row i g xs u)
  | inl on ↦ elim (Bool-cases (a.group == g)) [
    | inr other ↦ ground (arith, on, other, access_by_group-access_row i g xs u)
    | inl same ↦
        let gone =
          ap (λ k. access_row k g xs) (sym (beq→eq a.object i.key on))
          ∙ ap (λ h. access_row a.object h xs) (sym (beq→eq a.group g same))
          ∙ absent in
        ground (arith, on, same, gone, access_by_group-access_row i g xs u)
  ]
]

-- What the type lets its owning group do with a new instance.
abbrev pub owner_may : WorkflowType → Capability → Bool
owner_may t view = true
owner_may t edit = t.owner_can_edit
owner_may t delete = t.owner_can_delete
owner_may t share = t.owner_can_share
owner_may t comment = t.owner_can_comment
owner_may t manage = t.owner_can_manage
owner_may t transition = t.owner_can_transition

abbrev pub is_view : Capability → Bool
is_view view = true
is_view _ = false

-- What the type's configuration gives a group: its owning group, or one of its viewers.
abbrev pub initial_grants : WorkflowType → ℕ → Capability → Bool
initial_grants t g what =
    if is_owner t g then owner_may t what else contains g t.viewer_groups && is_view what

flag-owner_may :
    (t : WorkflowType) (what : Capability) → flag what (owner_access_defaults t) ≡ owner_may t what
unfolding owner_access_defaults flag
flag-owner_may t view = refl
flag-owner_may t edit = refl
flag-owner_may t delete = refl
flag-owner_may t share = refl
flag-owner_may t comment = refl
flag-owner_may t manage = refl
flag-owner_may t transition = refl

flag-is_view : (what : Capability) → flag what (view_and_edit false) ≡ is_view what
unfolding view_and_edit flag
flag-is_view view = refl
flag-is_view edit = refl
flag-is_view delete = refl
flag-is_view share = refl
flag-is_view comment = refl
flag-is_view manage = refl
flag-is_view transition = refl

raised-granted_row :
    (what : Capability) (o : Key) (g : ℕ) (primary : Bool) (flags : Flags)
    → raised_by_referral what (granted_row o g primary flags) ≡ false
unfolding raised_by_referral granted_row
raised-granted_row edit o g primary flags = refl
raised-granted_row _ o g primary flags = refl

access_grants-granted_row :
    (ignore : Bool) (state : ℕ) (what : Capability) (m : Membership) (o : Key) (g : ℕ)
    (primary : Bool) (flags : Flags)
    → access_grants ignore state what m (granted_row o g primary flags) ≡ flag what flags
unfolding access_grants state_or_default role_permission state_permission granted_row
access_grants-granted_row ignore state what m o g primary flags =
    ground (arith, raised-granted_row what o g primary flags)

counted-granted_row :
    (ignore b : Bool) (o : Key) (g : ℕ) (primary : Bool) (flags : Flags)
    → (if ignore && (granted_row o g primary flags).via_referral then false else b) ≡ b
unfolding granted_row
counted-granted_row ignore b o g primary flags = ground arith

module _ (i : Instance) (ignore : Bool) (what : Capability) (accesses : List GroupAccess) where
  granted_by :
      (m : Membership) (primary : Bool) (flags : Flags)
      → access_by_group m.group (group_accesses i accesses)
        ≡ some (granted_row i.key m.group primary flags)
      → membership_grants ignore i.current_state.pk what (group_accesses i accesses) m
        ≡ flag what flags
  unfolding membership_grants
  granted_by m primary flags e =
      rw (membership_grants, e)
        (counted-granted_row ignore _ i.key m.group primary flags
          ∙ access_grants-granted_row ignore i.current_state.pk what m i.key m.group primary flags)

  not_granted :
      (m : Membership)
      → access_by_group m.group (group_accesses i accesses) ≡ none
      → membership_grants ignore i.current_state.pk what (group_accesses i accesses) m ≡ false
  unfolding membership_grants
  not_granted m e = rw (membership_grants, e) refl

  module _ (t : WorkflowType) (u : IsUnique accesses)
      (rows : (g : ℕ)
        → access_row i.key g accesses
          ≡ first_of (owner_part i.key t g) (viewer_part i.key t t.viewer_groups g)) where
    membership_grants-initial :
        (m : Membership)
        → membership_grants ignore i.current_state.pk what (group_accesses i accesses) m
          ≡ initial_grants t m.group what
    membership_grants-initial m =
        let row = access_by_group-access_row i m.group accesses u ∙ rows m.group in
        elim (Bool-cases (is_owner t m.group)) [
          | inl own ↦
              granted_by m true (owner_access_defaults t) (row ∙ rw own refl)
              ∙ flag-owner_may t what
              ∙ rw own refl
          | inr other ↦ elim (Bool-cases (contains m.group t.viewer_groups)) [
            | inl viewer ↦
                granted_by m false (view_and_edit false) (row ∙ rw (other, viewer) refl)
                ∙ flag-is_view what
                ∙ rw (other, viewer) refl
            | inr stranger ↦
                not_granted m (row ∙ rw (other, stranger) refl) ∙ rw (other, stranger) refl
          ]
        ]

    exists-initial :
        (members : List Membership)
        → exists
            (membership_grants ignore i.current_state.pk what (group_accesses i accesses))
            members
          ≡ exists (λ m. initial_grants t m.group what) members
    exists-initial [] = refl
    exists-initial (m ∷ members) = rw (membership_grants-initial m, exists-initial members) refl

-- Saving a new instance, on a table with at most one row for a group on an instance and none on
-- this one, never fails and adds the instance. Afterwards no group has two rows, and a user may do
-- with the instance exactly what the type's configuration says: for an active membership in the owning group, to
-- view it and what the owner flags say; for one in a viewer group, to view it; nothing else.
-- Ignoring what referrals conferred makes no difference.
pub save-initial_grants :
    (i : Instance) (t : WorkflowType) (before : Rows)
    → IsUnique before.accesses
    → ((g : ℕ) → access_row i.key g before.accesses ≡ none)
    → (after : Rows) × (save true i t before ≡ some after)
      × (after.instances ≡ before.instances ++ i ∷ [])
      × IsUnique after.accesses
      × ((ignore : Bool) (user : User) (what : Capability)
          → can ignore after.accesses i user what
            ≡ exists
                (λ m. initial_grants t m.group what)
                (filter (λ m. m.is_active) user.memberships))
unfolding save materialize_group_access can
save-initial_grants i t before u new =
    let (ys, e, v, owners) = owner_row i.key t before.accesses u in
    let (zs, f, w, viewers) = viewer_rows i.key t t.viewer_groups ys v in
    let rows = λ (g : ℕ).
      viewers g
      ∙ ap (λ row. first_of row (viewer_part i.key t t.viewer_groups g))
          (owners g ∙ ap (λ row. first_of row (owner_part i.key t g)) (new g)) in
    (
      record { instances = before.instances ++ i ∷ []; accesses = zs },
      rw (e, f) refl,
      refl,
      w,
      λ ignore user what.
          exists-initial i ignore what zs t w rows (filter (λ m. m.is_active) user.memberships),
    )
