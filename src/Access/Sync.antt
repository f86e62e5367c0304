-- ===== src/Access/Sync.antt =====
-- What `sync_row` does to the table of access rows.
use pwms_project.Prelude.{
  ℕ, ◌≡◌, refl, Bool, true, false, Option, none, some, List, [], ◌∷◌, ◌++◌, Key, arith,
  if◌then◌else◌, ◌∙◌, find-append, Bool-cases, Option-cases, inl, inr, key_eq, nat_eq,
}
use pwms_project.Schema.{GroupAccess}
use pwms_project.Access.{is_row, access_row, write_row, referral_row, settle, sync_row}
use pwms_project.Access.Settle.{settle_place}

-- A group has at most one row on an instance.
abbrev pub IsUnique : List GroupAccess → Type 0
IsUnique [] = Unit
IsUnique (a ∷ rest) = (access_row a.object a.group rest ≡ none) × IsUnique rest

-- The row after a sync, from the row before.
unfoldable pub settled : Key → ℕ → Bool → Bool → Option GroupAccess → Option GroupAccess
settled object group has has_open none =
    if has then some (referral_row object group has_open) else none
settled object group has has_open (some a) = settle has has_open a

module _ (object : Key) (group : ℕ) where
  is_row_iff :
      (a : GroupAccess) → is_row object group a ≡ true → (a.object ≡ object) × (a.group ≡ group)
  unfolding is_row
  is_row_iff a h = (ground (arith), ground arith)

  is_row_self : (has : Bool) → is_row object group (referral_row object group has) ≡ true
  unfolding is_row referral_row
  is_row_self has = ground (arith)

  is_row_symm :
      (has : Bool) (b : GroupAccess)
      → is_row b.object b.group (referral_row object group has) ≡ is_row object group b
  unfolding is_row referral_row
  is_row_symm has b = ground arith

  row_absent :
      (b : GroupAccess) (rest : List GroupAccess)
      → access_row b.object b.group rest ≡ none
      → is_row object group b ≡ true
      → access_row object group rest ≡ none
  row_absent b rest absent here = let (eo, eg) = is_row_iff b here in rw (← eo, ← eg) absent

module _ (has has_open : Bool) where
  settle-is_row :
      (a : GroupAccess) {a' : GroupAccess} (object : Key) (group : ℕ)
      → settle has has_open a ≡ some a'
      → is_row object group a' ≡ is_row object group a
  unfolding is_row
  settle-is_row a object group h = ground (arith, settle_place a has has_open h)

  module _ (object : Key) (group : ℕ) where
    abbrev written : List GroupAccess → List GroupAccess
    written = write_row object group (settle has has_open)

    access_row-write_row :
        (accesses : List GroupAccess) (a : GroupAccess)
        → IsUnique accesses
        → access_row object group accesses ≡ some a
        → access_row object group (written accesses) ≡ settle has has_open a
    unfolding write_row access_row
    access_row-write_row [] a u h = cc
    access_row-write_row (b ∷ rest) a u h = elim (Bool-cases (is_row object group b)) [
      | inl here ↦ elim (Option-cases (settle has has_open b)) [
        | inl dropped ↦ ground (arith, row_absent object group b rest u.0 here)
        | inr (b', kept) ↦ ground (arith, settle-is_row b object group kept)
      ]
      | inr other ↦ ground (arith, access_row-write_row rest a u.1)
    ]

    access_row-write_row_ne :
        (object' : Key) (group' : ℕ) (accesses : List GroupAccess)
        → ((a : GroupAccess) → is_row object group a ≡ true → is_row object' group' a ≡ false)
        → access_row object' group' (written accesses) ≡ access_row object' group' accesses
    unfolding write_row access_row
    access_row-write_row_ne object' group' [] ne = refl
    access_row-write_row_ne object' group' (b ∷ rest) ne =
        let later = access_row-write_row_ne object' group' rest ne in
        elim (Bool-cases (is_row object group b)) [
          | inl here ↦ elim (Option-cases (settle has has_open b)) [
            | inl dropped ↦ ground (arith, ne b here)
            | inr (b', kept) ↦ ground (arith, ne b here, settle-is_row b object' group' kept)
          ]
          | inr other ↦ ground (arith, later)
        ]

    access_row-write_row_none :
        (object' : Key) (group' : ℕ) (accesses : List GroupAccess)
        → access_row object' group' accesses ≡ none
        → access_row object' group' (written accesses) ≡ none
    unfolding write_row access_row
    access_row-write_row_none object' group' [] h = refl
    access_row-write_row_none object' group' (b ∷ rest) h =
        elim (Bool-cases (is_row object group b)) [
          | inl here ↦ elim (Option-cases (settle has has_open b)) [
            | inl dropped ↦ ground arith
            | inr (b', kept) ↦ ground (arith, settle-is_row b object' group' kept)
          ]
          | inr other ↦ ground (arith, access_row-write_row_none object' group' rest)
        ]

    write_row-IsUnique :
        (accesses : List GroupAccess) → IsUnique accesses → IsUnique (written accesses)
    unfolding write_row
    write_row-IsUnique [] u = tt
    write_row-IsUnique (b ∷ rest) u = elim (Bool-cases (is_row object group b)) [
      | inl here ↦ elim (Option-cases (settle has has_open b)) [
        | inl dropped ↦ rw (here, dropped) (u.1)
        | inr (b', kept) ↦
            let (eo, eg) = settle_place b has has_open kept in
            rw (here, kept) (rw (eo, eg) (u.0), u.1)
      ]
      | inr other ↦
          rw other
            (access_row-write_row_none b.object b.group rest u.0, write_row-IsUnique rest u.1)
    ]

    access_row-append_self :
        (accesses : List GroupAccess)
        → access_row object group accesses ≡ none
        → access_row object group (accesses ++ referral_row object group has_open ∷ [])
          ≡ some (referral_row object group has_open)
    unfolding access_row
    access_row-append_self accesses absent =
        find-append (is_row object group) accesses (referral_row object group has_open ∷ [])
        ∙ rw (absent, is_row_self object group has_open)

    access_row-append_ne :
        (object' : Key) (group' : ℕ) (accesses : List GroupAccess)
        → is_row object' group' (referral_row object group has_open) ≡ false
        → access_row object' group' (accesses ++ referral_row object group has_open ∷ [])
          ≡ access_row object' group' accesses
    unfolding access_row
    access_row-append_ne object' group' accesses ne =
        find-append (is_row object' group') accesses (referral_row object group has_open ∷ [])
        ∙ elim (Option-cases (access_row object' group' accesses)) [
          | inl absent ↦ rw (absent, ne)
          | inr (a, found) ↦ rw found
        ]

    append-IsUnique :
        (accesses : List GroupAccess)
        → IsUnique accesses
        → access_row object group accesses ≡ none
        → IsUnique (accesses ++ referral_row object group has_open ∷ [])
    unfolding access_row
    append-IsUnique [] u absent = (refl, tt)
    append-IsUnique (b ∷ rest) u absent = (
      access_row-append_ne b.object b.group rest
            (ground (arith, is_row_symm object group has_open b))
          ∙ u.0,
      append-IsUnique rest u.1 (ground arith),
    )

    -- The row of the synced group.
    pub access_row-sync_row :
        (accesses : List GroupAccess)
        → IsUnique accesses
        → access_row object group (sync_row object group has has_open accesses)
          ≡ settled object group has has_open (access_row object group accesses)
    unfolding sync_row settled
    access_row-sync_row accesses u = elim (Option-cases (access_row object group accesses)) [
      | inl absent ↦ ground (arith, access_row-append_self accesses absent)
      | inr (a, found) ↦ ground (arith, access_row-write_row accesses a u found)
    ]

    -- No other group's row, and no row on another instance, is touched.
    pub access_row-sync_row_ne :
        (object' : Key) (group' : ℕ) (accesses : List GroupAccess)
        → ((a : GroupAccess) → is_row object group a ≡ true → is_row object' group' a ≡ false)
        → access_row object' group' (sync_row object group has has_open accesses)
          ≡ access_row object' group' accesses
    unfolding sync_row
    access_row-sync_row_ne object' group' accesses ne =
        elim (Option-cases (access_row object group accesses)) [
          | inl absent ↦ ground (
            arith,
            access_row-append_ne object' group' accesses (ne _ (is_row_self object group has_open)),
          )
          | inr (a, found) ↦ ground (arith, access_row-write_row_ne object' group' accesses ne)
        ]

    pub sync_row-IsUnique :
        (accesses : List GroupAccess)
        → IsUnique accesses
        → IsUnique (sync_row object group has has_open accesses)
    unfolding sync_row
    sync_row-IsUnique accesses u = elim (Option-cases (access_row object group accesses)) [
      | inl absent ↦
          rw (absent, sync_row)
            (elim (Bool-cases has) [
              | inl h ↦ rw h (append-IsUnique accesses u absent)
              | inr h ↦ rw h u
            ])
      | inr (a, found) ↦ rw (found, sync_row) (write_row-IsUnique accesses u)
    ]
