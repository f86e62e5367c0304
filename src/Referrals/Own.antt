-- ===== src/Referrals/Own.antt =====
-- Edit that a group holds by itself, apart from its referrals: sync_referral_access and the actions
-- of WorkflowReferral, src/pwms/models/workflows.py.
use pwms_project.Prelude.{
  ℕ, ◌+◌, ◌≡◌, refl, ap, ◌∙◌, Bool, true, false, ◌&&◌, not, Option, none, some, [], ◌∷◌, ◌++◌, Key,
  arith, String, Bool-cases, Option-cases, inl, inr, ◌==◌, key_eq, nat_eq, contains,
}
use pwms_project.Schema.{GroupAccess, grants_only_view}
use pwms_project.Access.{access_row, referral_row, settle, view_and_edit}
use pwms_project.Access.Sync.{IsUnique, settled, access_row-sync_row}
use pwms_project.Referrals.{
  Store, Status, Referral, sync_access, emit_event, emit_change, save_new, save, delete, alert,
  refer_row, row_of, update_row, delete_row,
}
use pwms_project.Referrals.Step.{sync_access_ne, sync_access-IsUnique}

-- The row lets the group edit, and no referral raised that.
abbrev pub row_owns_edit : Option GroupAccess → Bool
row_owns_edit none = false
row_owns_edit (some a) = a.flags.can_edit && not a.referral_raised_edit

abbrev pub owns_edit : Key → ℕ → Store → Bool
owns_edit object group s = row_owns_edit (access_row object group s.accesses)

-- Every group holds by itself what it held.
abbrev pub KeepsOwn : Store → Store → Type 0
KeepsOwn s t = (object : Key) (group : ℕ) → owns_edit object group t ≡ owns_edit object group s

settled_owns_edit :
    (object : Key) (group : ℕ) (has has_open : Bool) (row : Option GroupAccess)
    → row_owns_edit (settled object group has has_open row) ≡ row_owns_edit row
unfolding settled settle referral_row view_and_edit grants_only_view
settled_owns_edit object group false has_open none = refl
settled_owns_edit object group true true none = refl
settled_owns_edit object group true false none = refl
settled_owns_edit object group has has_open (some a) = ground arith

sync_access_self :
    (object : Key) (group : ℕ) (s : Store)
    → IsUnique s.accesses
    → owns_edit object group (sync_access object group s) ≡ owns_edit object group s
unfolding sync_access
sync_access_self object group s u = elim (Bool-cases (contains object s.instances)) [
  | inl there ↦
      rw (there, sync_access)
        (ap row_owns_edit (access_row-sync_row _ _ object group s.accesses u)
          ∙ settled_owns_edit object group _ _ _)
  | inr gone ↦ rw (gone, sync_access) refl
]

sync_access-KeepsOwn :
    (object : Key) (group : ℕ) (s : Store)
    → IsUnique s.accesses
    → KeepsOwn s (sync_access object group s)
sync_access-KeepsOwn object group s u o g = elim (Bool-cases ((o == object) && (g == group))) [
  | inl same ↦
      let eo : o ≡ object = ground arith in
      let eg : g ≡ group = ground arith in rw (eo, eg) (sync_access_self object group s u)
  | inr other ↦ ap row_owns_edit (sync_access_ne object group s o g other)
]

emit_change_accesses :
    (before : Status) (r : Referral) (s : Store) → (emit_change before r s).accesses ≡ s.accesses
unfolding emit_change emit_event
emit_change_accesses before r s = ground arith

emit_event_accesses :
    (slug : String) (o : Key) (actor : Option ℕ) (notes : String) (s : Store)
    → (emit_event slug o actor notes s).accesses ≡ s.accesses
unfolding emit_event
emit_event_accesses slug o actor notes s = ground arith

sync_after :
    (object : Key) (group : ℕ) (s t : Store)
    → t.accesses ≡ s.accesses
    → IsUnique s.accesses
    → KeepsOwn s (sync_access object group t)
sync_after object group s t e u o g =
    sync_access-KeepsOwn object group t (rw e u) o g
    ∙ ap (λ rows. row_owns_edit (access_row o g rows)) e

pub save-KeepsOwn : (r : Referral) (s : Store) → IsUnique s.accesses → KeepsOwn s (save r s)
unfolding save
save-KeepsOwn r s u o g = elim (Option-cases (row_of r.pk s.referrals)) [
  | inl absent ↦
      rw (absent, save)
        (sync_after r.object r.referred_to s (record s { referrals = s.referrals ++ r ∷ [] }) refl u
          o g)
  | inr (previous, found) ↦
      let t = record s { referrals = update_row r s.referrals } in
      let s₁ = emit_change previous.status r t in
      let e₁ = emit_change_accesses previous.status r t in
      let first = sync_after r.object r.referred_to s s₁ e₁ u o g in
      let u₂ = sync_access-IsUnique r.object r.referred_to s₁ (rw e₁ u) in
      elim (Bool-cases (previous.referred_to == r.referred_to)) [
        | inl same ↦ rw (found, save) (rw same first)
        | inr moved ↦
            rw (found, save)
              (rw moved (
                sync_access-KeepsOwn r.object previous.referred_to
                  (sync_access r.object r.referred_to s₁) u₂ o g
                ∙ first))
      ]
]

pub refer_row-KeepsOwn :
    (r : Referral) (s : Store) → IsUnique s.accesses → KeepsOwn s (refer_row r s)
unfolding refer_row save_new alert
refer_row-KeepsOwn r s u =
    let s' = record s {
      referrals = s.referrals ++ record r { pk = s.next_pk } ∷ [];
      next_pk = s.next_pk + 1;
    } in
    sync_after r.object r.referred_to s (emit_event "referral-created" r.object r.referred_by "" s')
      (emit_event_accesses "referral-created" r.object r.referred_by "" s') u

pub delete-KeepsOwn : (r : Referral) (s : Store) → IsUnique s.accesses → KeepsOwn s (delete r s)
unfolding delete
delete-KeepsOwn r s u =
    sync_after r.object r.referred_to s (record s { referrals = delete_row r.pk s.referrals }) refl
      u
