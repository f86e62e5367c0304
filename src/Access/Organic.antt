-- ===== src/Access/Organic.antt =====
-- What a referral leaves alone: the capabilities that a group holds otherwise.
use pwms_project.Prelude.{
  ℕ, ◌≡◌, refl, Bool, true, false, Option, none, some, List, Key, arith, Option-cases, inl, inr,
  ◌⊎◌,
}
use pwms_project.Schema.{Capability, flag, GroupAccess}
use pwms_project.Access.{view_and_edit, referral_row, access_row, settle, sync_row}
use pwms_project.Access.Sync.{IsUnique, settled, access_row-sync_row, sync_row-IsUnique}
use pwms_project.Access.Settle.{
  settle_keeps, settle_open, settle_round_trip, settle-settle, settle_drops,
}

settled-settled :
    (object : Key) (group : ℕ) (has has_open : Bool) (row : Option GroupAccess)
    → settled object group has has_open (settled object group has has_open row)
      ≡ settled object group has has_open row
unfolding settled
settled-settled object group false has_open none = refl
settled-settled object group true false none = unfold referral_row settle view_and_edit in refl
settled-settled object group true true none = unfold referral_row settle view_and_edit in refl
settled-settled object group has has_open (some a) = elim (Option-cases (settle has has_open a)) [
  | inl dropped ↦ rw dropped (rw ((settle_drops a has has_open dropped).0))
  | inr (a', kept) ↦ rw kept (settle-settle a has has_open kept)
]

module _ (object : Key) (group : ℕ) (accesses : List GroupAccess) where
  -- On a table with at most one row for a group on an instance: opening a referral to a group that
  -- already has a row, and then closing it, gives the row back exactly as it was, provided no
  -- referral had raised it before.
  pub sync_row_restores :
      (a : GroupAccess)
      → IsUnique accesses
      → access_row object group accesses ≡ some a
      → a.referral_raised_edit ≡ false
      → access_row object group
          (sync_row object group true false (sync_row object group true true accesses))
        ≡ some a
  unfolding settled
  sync_row_restores a u found organic =
      let (a', raised, _) = settle_open a in
      let first = access_row-sync_row true true object group accesses u in
      let second =
        access_row-sync_row true false object group _
          (sync_row-IsUnique true true object group accesses u) in
      ground (arith, first, second, settle_round_trip a {a' = a'} organic raised)

  -- On a table with at most one row for a group on an instance, a sync never narrows a row that no
  -- referral has raised: a capability that it grants is granted after the sync, if the row was not
  -- created by a referral or the group still has one.
  pub sync_row_keeps :
      (has has_open : Bool) (what : Capability) (a : GroupAccess)
      → IsUnique accesses
      → access_row object group accesses ≡ some a
      → a.referral_raised_edit ≡ false
      → flag what a.flags ≡ true
      → (a.via_referral ≡ false) ⊎ (has ≡ true)
      → (a' : GroupAccess) × (access_row object group (sync_row object group has has_open accesses)
          ≡ some a')
        × (flag what a'.flags ≡ true)
  unfolding settled
  sync_row_keeps has has_open what a u found organic granted stays =
      let after = access_row-sync_row has has_open object group accesses u in
      elim (Option-cases (settle has has_open a)) [
        | inl dropped ↦ absurd (ground (arith, settle_drops a has has_open dropped))
        | inr (a', kept) ↦
            (a', ground (arith, after), settle_keeps a has has_open what organic kept granted)
      ]

  -- On a table with at most one row for a group on an instance, syncing again, with the same
  -- referrals, changes nothing in the group's row.
  pub sync_row_idempotent :
      (has has_open : Bool)
      → IsUnique accesses
      → access_row object group
          (sync_row object group has has_open (sync_row object group has has_open accesses))
        ≡ access_row object group (sync_row object group has has_open accesses)
  sync_row_idempotent has has_open u =
      rw
        (access_row-sync_row has has_open object group (sync_row object group has has_open accesses)
          (sync_row-IsUnique has has_open object group accesses u))
        (rw (access_row-sync_row has has_open object group accesses u)
          (settled-settled object group has has_open _))
