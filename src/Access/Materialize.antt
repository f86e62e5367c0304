-- ===== src/Access/Materialize.antt =====
-- What `materialize_group_access` leaves: rows for the owner and the viewers, nothing overwritten.
use pwms_project.Prelude.{
  ℕ, ◌≡◌, refl, true, false, some, List, [], ◌∷◌, Key, arith, Option-cases, Bool-cases, inl, inr,
  All, if◌then◌else◌,
}
use pwms_project.Schema.{GroupAccess, WorkflowType}
use pwms_project.Access.{
  get_or_create, granted_row, owner_access_defaults, view_and_edit, is_owner, share_with_owner,
  share_with_viewers, materialize_group_access,
}
use pwms_project.Access.Sync.{IsUnique}
use pwms_project.Access.Creation.{
  Keeps, HasRow, Keeps-refl, Keeps-trans, HasRow-Keeps, get_or_create_total, get_or_create_found,
}

module _ (object : Key) (t : WorkflowType) where
  abbrev pub HasOwner : List GroupAccess → Type 0
  HasOwner xs = (g : ℕ) → t.group ≡ some g → HasRow object g xs

  owner_total :
      (xs : List GroupAccess)
      → IsUnique xs
      → (ys : List GroupAccess) × (share_with_owner object t xs ≡ some ys)
        × Keeps xs ys
        × HasOwner ys
  unfolding share_with_owner granted_row owner_access_defaults
  owner_total xs u = elim (Option-cases t.group) [
    | inl absent ↦ (xs, rw (absent, share_with_owner), Keeps-refl xs u, λ g e. cc)
    | inr (g, owned) ↦
        let (ys, e, k, row) =
          get_or_create_total (granted_row object g true (owner_access_defaults t)) xs u in
        (
          ys,
          rw (owned, share_with_owner) e,
          k,
          λ g' e'. let same : g ≡ g' = ground arith in rw (← same) row,
        )
  ]

  is_owner_eq : (g : ℕ) → is_owner t g ≡ true → t.group ≡ some g
  unfolding is_owner
  is_owner_eq g own = ground arith

  viewer_total :
      (g : ℕ) (xs : List GroupAccess)
      → IsUnique xs
      → HasOwner xs
      → (ys : List GroupAccess) × ((if is_owner t g
            then some xs
            else get_or_create (granted_row object g false (view_and_edit false)) xs)
          ≡ some ys)
        × Keeps xs ys
        × HasRow object g ys
  unfolding granted_row
  viewer_total g xs u owner = elim (Bool-cases (is_owner t g)) [
    | inl own ↦ (xs, rw own, Keeps-refl xs u, owner g (is_owner_eq g own))
    | inr other ↦
        let (ys, e, k, row) =
          get_or_create_total (granted_row object g false (view_and_edit false)) xs u in
        (ys, rw other e, k, row)
  ]

  viewers_total :
      (groups : List ℕ) (xs : List GroupAccess)
      → IsUnique xs
      → HasOwner xs
      → (ys : List GroupAccess) × (share_with_viewers object t groups xs ≡ some ys)
        × Keeps xs ys
        × All (λ g. HasRow object g ys) groups
  unfolding share_with_viewers
  viewers_total [] xs u owner = (xs, refl, Keeps-refl xs u, tt)
  viewers_total (g ∷ groups) xs u owner =
      let (ys, e, k, row) = viewer_total g xs u owner in
      let (zs, f, l, rows) =
        viewers_total groups ys k.unique (λ g' e'. HasRow-Keeps object g' k (owner g' e')) in
      (zs, rw e f, Keeps-trans k l, (HasRow-Keeps object g l row, rows))

  -- Where every group has its row, the loop writes nothing.
  viewers_found :
      (groups : List ℕ) (xs : List GroupAccess)
      → IsUnique xs
      → All (λ g. HasRow object g xs) groups
      → share_with_viewers object t groups xs ≡ some xs
  unfolding share_with_viewers granted_row
  viewers_found [] xs u rows = refl
  viewers_found (g ∷ groups) xs u rows = elim (Bool-cases (is_owner t g)) [
    | inl own ↦ rw own (viewers_found groups xs u rows.1)
    | inr other ↦
        rw
          (
            other,
            get_or_create_found (granted_row object g false (view_and_edit false)) xs u rows.0,
          )
          (viewers_found groups xs u rows.1)
  ]

  owner_found :
      (xs : List GroupAccess) → IsUnique xs → HasOwner xs → share_with_owner object t xs ≡ some xs
  unfolding share_with_owner granted_row
  owner_found xs u owner = elim (Option-cases t.group) [
    | inl absent ↦ rw (absent, share_with_owner)
    | inr (g, owned) ↦
        rw (owned, share_with_owner)
          (get_or_create_found (granted_row object g true (owner_access_defaults t)) xs u
            (owner g owned))
  ]

  -- On a table with at most one row for a group on an instance, materialising never fails; it
  -- leaves every row that was there as it was, in its place, and adds only behind them; afterwards
  -- the owning group, if any, and every viewer group has a row, and still no group has two; and
  -- materialising once more changes nothing.
  pub materialize_total :
      (xs : List GroupAccess)
      → IsUnique xs
      → (ys : List GroupAccess) × (materialize_group_access object t xs ≡ some ys)
        × Keeps xs ys
        × HasOwner ys
        × All (λ g. HasRow object g ys) t.viewer_groups
        × (materialize_group_access object t ys ≡ some ys)
  unfolding materialize_group_access
  materialize_total xs u =
      let (ys, e, k, owner) = owner_total xs u in
      let (zs, f, l, rows) = viewers_total t.viewer_groups ys k.unique owner in
      let owner' = λ (g : ℕ) (own : t.group ≡ some g). HasRow-Keeps object g l (owner g own) in
      (
        zs,
        rw e f,
        Keeps-trans k l,
        owner',
        rows,
        rw (owner_found zs l.unique owner') (viewers_found t.viewer_groups zs l.unique rows),
      )
