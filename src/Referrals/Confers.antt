-- ===== src/Referrals/Confers.antt =====
-- What a referral does not confer: the capabilities beyond view and edit.
use pwms_project.Prelude.{
  ℕ, ◌+◌, ◌≡◌, refl, Bool, true, false, ◌&&◌, Option, none, some, [], ◌∷◌, ◌++◌, Key, arith, String,
  Bool-cases, Option-cases, inl, inr, ◌==◌, key_eq, nat_eq, contains,
}
use pwms_project.Schema.{Capability, view, edit, flag, GroupAccess}
use pwms_project.Access.{access_row, referral_row, settle, view_and_edit}
use pwms_project.Access.Sync.{IsUnique, settled, access_row-sync_row}
use pwms_project.Access.Settle.{settle_adds}
use pwms_project.Referrals.{
  Store, Status, Referral, sync_access, emit_event, emit_change, save_new, save, delete, alert,
  refer_row, save_and_alert, row_of, update_row, delete_row,
}
use pwms_project.Referrals.Step.{InStep, sync_access_ne, sync_access-IsUnique}
use pwms_project.Referrals.Reach.{
  Reach, here, next, Reach-InStepOn, Step-Written, Written, nothing, raised, closed, edited,
  deleted,
}

unfoldable pub beyond_edit : Capability → Bool
beyond_edit view = false
beyond_edit edit = false
beyond_edit _ = true

unfoldable pub row_grants : Capability → Option GroupAccess → Bool
row_grants what none = false
row_grants what (some a) = flag what a.flags

-- What the group's row on the instance grants.
abbrev pub held : Capability → Key → ℕ → Store → Bool
held what object group s = row_grants what (access_row object group s.accesses)

-- A capability beyond edit that the later store's rows grant, the earlier ones granted.
abbrev pub NotRaised : Store → Store → Type 0
NotRaised s t =
    (what : Capability) (object : Key) (group : ℕ)
    → beyond_edit what ≡ true
    → held what object group t ≡ true
    → held what object group s ≡ true

settled_held :
    (what : Capability) (object : Key) (group : ℕ) (has has_open : Bool) (row : Option GroupAccess)
    → beyond_edit what ≡ true
    → row_grants what (settled object group has has_open row) ≡ true
    → row_grants what row ≡ true
unfolding settled beyond_edit row_grants
settled_held what object group has has_open none beyond h =
    unfold referral_row flag view_and_edit in ground arith
settled_held what object group has has_open (some a) beyond h =
    elim (Option-cases (settle has has_open a)) [
      | inl dropped ↦ absurd (ground arith)
      | inr (a', kept) ↦ ground (arith, settle_adds a has has_open what kept)
    ]

sync_access_self :
    (object : Key) (group : ℕ) (s : Store) (what : Capability)
    → IsUnique s.accesses
    → beyond_edit what ≡ true
    → held what object group (sync_access object group s) ≡ true
    → held what object group s ≡ true
unfolding sync_access
sync_access_self object group s what u beyond h = elim (Bool-cases (contains object s.instances)) [
  | inl there ↦
      let h' = rw (there, sync_access) at h in
      settled_held what object group _ _ _ beyond
        (rw (access_row-sync_row _ _ object group s.accesses u) at h')
  | inr gone ↦ rw (gone, sync_access) at h
]

sync_access-NotRaised :
    (object : Key) (group : ℕ) (s : Store)
    → IsUnique s.accesses
    → NotRaised s (sync_access object group s)
sync_access-NotRaised object group s u what o g beyond h =
    elim (Bool-cases ((o == object) && (g == group))) [
      | inl same ↦
          let eo : o ≡ object = ground arith in
          let eg : g ≡ group = ground arith in
          rw (eo, eg) (sync_access_self object group s what u beyond (rw (eo, eg) at h))
      | inr other ↦ rw (sync_access_ne object group s o g other) at h
    ]

emit_event_accesses :
    (slug : String) (o : Key) (actor : Option ℕ) (notes : String) (s : Store)
    → (emit_event slug o actor notes s).accesses ≡ s.accesses
unfolding emit_event
emit_event_accesses slug o actor notes s = ground arith

emit_change_accesses :
    (before : Status) (r : Referral) (s : Store) → (emit_change before r s).accesses ≡ s.accesses
unfolding emit_change emit_event
emit_change_accesses before r s = ground arith

-- A sync after a change of other tables.
sync_after :
    (object : Key) (group : ℕ) (s t : Store)
    → t.accesses ≡ s.accesses
    → IsUnique s.accesses
    → NotRaised s (sync_access object group t)
sync_after object group s t e u what o g beyond h =
    rw e at (sync_access-NotRaised object group t (rw e u) what o g beyond h)

save-NotRaised : (r : Referral) (s : Store) → IsUnique s.accesses → NotRaised s (save r s)
unfolding save
save-NotRaised r s u what o g beyond h = elim (Option-cases (row_of r.pk s.referrals)) [
  | inl absent ↦
      sync_after r.object r.referred_to s (record s { referrals = s.referrals ++ r ∷ [] }) refl u
        what o g beyond (rw (absent, save) at h)
  | inr (previous, found) ↦
      let s₁ = emit_change previous.status r (record s { referrals = update_row r s.referrals }) in
      let e₁ =
        emit_change_accesses previous.status r
          (record s { referrals = update_row r s.referrals }) in
      let s₂ = sync_access r.object r.referred_to s₁ in
      let first = sync_after r.object r.referred_to s s₁ e₁ u what o g beyond in
      let u₂ = sync_access-IsUnique r.object r.referred_to s₁ (rw e₁ u) in
      let h' = rw (found, save) at h in
      elim (Bool-cases (previous.referred_to == r.referred_to)) [
        | inl same ↦ first (rw same at h')
        | inr moved ↦ first (
            sync_access-NotRaised r.object previous.referred_to s₂ u₂ what o g beyond
              (rw moved at h'))
      ]
]

-- The calls write access rows through syncs only.
Written-NotRaised : {s t : Store} → IsUnique s.accesses → Written s t → NotRaised s t
unfolding refer_row save_new save_and_alert alert delete
Written-NotRaised u nothing = λ what o g beyond h. h
Written-NotRaised {s} u (raised r) =
    let s' = record s {
      referrals = s.referrals ++ record r { pk = s.next_pk } ∷ [];
      next_pk = s.next_pk + 1;
    } in
    sync_after r.object r.referred_to s (emit_event "referral-created" r.object r.referred_by "" s')
      (emit_event_accesses "referral-created" r.object r.referred_by "" s') u
Written-NotRaised {s} u (closed kind actor r placed) = save-NotRaised r s u
Written-NotRaised {s} u (edited r placed) = save-NotRaised r s u
Written-NotRaised {s} u (deleted r fresh) =
    sync_after r.object r.referred_to s (record s { referrals = delete_row r.pk s.referrals }) refl
      u

-- No sequence of actions on referrals that starts in step gives a group a capability beyond view
-- and edit, on any instance: what its row grants at the end, it granted at the start.
pub Reach-NotRaised :
    {s t : Store} (what : Capability) (object : Key) (group : ℕ)
    → InStep s
    → Reach s t
    → beyond_edit what ≡ true
    → held what object group t ≡ true
    → held what object group s ≡ true
Reach-NotRaised what object group h here beyond granted = granted
Reach-NotRaised what object group h (next r st) beyond granted =
    Reach-NotRaised what object group h r beyond (
      Written-NotRaised (Reach-InStepOn h r).unique (Step-Written st) what object group beyond
        granted)
