-- ===== src/Instances/Granted.antt =====
-- The access rows of an instance after its group access was made: materialize_group_access,
-- src/pwms/models/workflows.py.
use pwms_project.Prelude.{
  ℕ, ◌≡◌, refl, sym, ap, subst, ◌∙◌, true, false, not, ◌&&◌, Option, none, some, List, [], ◌∷◌,
  ◌++◌, Key, if◌then◌else◌, ◌==◌, key_eq, nat_eq, arith, contains, find-append, Bool-cases,
  Option-cases, inl, inr, beq→eq, beq_refl,
}
use pwms_project.Schema.{GroupAccess, WorkflowType}
use pwms_project.Access.{
  is_row, access_row, view_and_edit, owner_access_defaults, granted_row, get_or_create,
  share_with_owner, is_owner, share_with_viewers,
}
use pwms_project.Access.Sync.{IsUnique}
use pwms_project.Access.Creation.{append-IsUnique, filter_absent, filter_found}

abbrev pub first_of : Option GroupAccess → Option GroupAccess → Option GroupAccess
first_of none b = b
first_of (some a) b = some a

first_of-none : (a : Option GroupAccess) → first_of a none ≡ a
first_of-none none = refl
first_of-none (some a) = refl

first_of_assoc :
    (a b c : Option GroupAccess) → first_of (first_of a b) c ≡ first_of a (first_of b c)
first_of_assoc none b c = refl
first_of_assoc (some a) b c = refl

access_row-single :
    (new : GroupAccess) (g : ℕ)
    → access_row new.object g (new ∷ []) ≡ (if new.group == g then some new else none)
unfolding access_row is_row
access_row-single new g = ground (arith, beq_refl new.object)

access_row-append :
    (o : Key) (g : ℕ) (xs ys : List GroupAccess)
    → access_row o g (xs ++ ys) ≡ first_of (access_row o g xs) (access_row o g ys)
unfolding access_row
access_row-append o g xs ys = elim (Option-cases (access_row o g xs)) [
  | inl absent ↦ find-append (is_row o g) xs ys ∙ rw absent refl
  | inr (a, found) ↦ find-append (is_row o g) xs ys ∙ rw found refl
]

-- What get_or_create makes of the row of each group of the instance.
get_or_create_row :
    (new : GroupAccess) (xs : List GroupAccess)
    → IsUnique xs
    → (ys : List GroupAccess) × (get_or_create new xs ≡ some ys)
      × IsUnique ys
      × ((g : ℕ)
          → access_row new.object g ys
            ≡ first_of (access_row new.object g xs) (if new.group == g then some new else none))
unfolding get_or_create
get_or_create_row new xs u = elim (Option-cases (access_row new.object new.group xs)) [
  | inl absent ↦ (
    xs ++ new ∷ [],
    rw (filter_absent new.object new.group xs absent, get_or_create),
    append-IsUnique new xs u absent,
    λ g.
        access_row-append new.object g xs (new ∷ [])
        ∙ ap (first_of (access_row new.object g xs)) (access_row-single new g),
  )
  | inr (a, found) ↦ (
    xs,
    rw (filter_found new.object new.group xs a u found, get_or_create),
    u,
    λ g. elim (Bool-cases (new.group == g)) [
      | inr other ↦ rw other (sym (first_of-none (access_row new.object g xs)))
      | inl same ↦
          let there =
            ap (λ h. access_row new.object h xs) (sym (beq→eq new.group g same)) ∙ found in
          there ∙ ap (λ row. first_of row (if new.group == g then some new else none)) (sym there)
    ],
  )
]

module _ (o : Key) (t : WorkflowType) where
  abbrev pub owner_part : ℕ → Option GroupAccess
  owner_part g =
      if is_owner t g then some (granted_row o g true (owner_access_defaults t)) else none

  abbrev pub viewer_part : List ℕ → ℕ → Option GroupAccess
  viewer_part groups g =
      if not (is_owner t g) && contains g groups
      then some (granted_row o g false (view_and_edit false))
      else none

  unowned : {xs : List GroupAccess} → t.group ≡ none → share_with_owner o t xs ≡ some xs
  unfolding share_with_owner
  unowned absent = rw (share_with_owner, absent) refl

  no_owner : (g : ℕ) → t.group ≡ none → none ≡ owner_part g
  unfolding is_owner
  no_owner g absent = rw absent refl

  share_with_owner_of :
      (owner : ℕ) (xs : List GroupAccess)
      → t.group ≡ some owner
      → share_with_owner o t xs
        ≡ get_or_create (granted_row o owner true (owner_access_defaults t)) xs
  unfolding share_with_owner
  share_with_owner_of owner xs owned = ap share owned
    where
      share : Option ℕ → Option (List GroupAccess)
      share group = elim group [
        | none ↦ some xs
        | some g ↦ get_or_create (granted_row o g true (owner_access_defaults t)) xs
      ]

  is_owner_of : (owner g : ℕ) → t.group ≡ some owner → is_owner t g ≡ (g == owner)
  unfolding is_owner
  is_owner_of owner g owned = ground (arith, owned)

  owner_part_of :
      (owner g : ℕ)
      → t.group ≡ some owner
      → (if owner == g then some (granted_row o owner true (owner_access_defaults t)) else none)
        ≡ owner_part g
  owner_part_of owner g owned = elim (Bool-cases (owner == g)) [
    | inl same ↦
        subst
          (λ h.
            (if owner == h then some (granted_row o owner true (owner_access_defaults t)) else none)
            ≡ owner_part h)
          (beq→eq owner g same)
          (rw (beq_refl owner, is_owner_of owner owner owned, beq_refl owner) refl)
    | inr other ↦ rw (other, is_owner_of owner g owned) (ground (arith, other))
  ]

  pub owner_row :
      (xs : List GroupAccess)
      → IsUnique xs
      → (ys : List GroupAccess) × (share_with_owner o t xs ≡ some ys)
        × IsUnique ys
        × ((g : ℕ) → access_row o g ys ≡ first_of (access_row o g xs) (owner_part g))
  unfolding granted_row
  owner_row xs u = elim (Option-cases t.group) [
    | inl absent ↦ (
      xs,
      unowned absent,
      u,
      λ g.
          sym (first_of-none (access_row o g xs))
          ∙ ap (first_of (access_row o g xs)) (no_owner g absent),
    )
    | inr (owner, owned) ↦
        let (ys, e, v, rows) =
          get_or_create_row (granted_row o owner true (owner_access_defaults t)) xs u in
        (
          ys,
          share_with_owner_of owner xs owned ∙ e,
          v,
          λ g. rows g ∙ ap (first_of (access_row o g xs)) (owner_part_of owner g owned),
        )
  ]

  viewer_none : (g : ℕ) → none ≡ viewer_part [] g
  viewer_none g = elim (Bool-cases (is_owner t g)) [
    | inl own ↦ rw own refl
    | inr other ↦ rw other refl
  ]

  viewer_owned :
      (h g : ℕ) (groups : List ℕ)
      → is_owner t h ≡ true
      → viewer_part groups g ≡ viewer_part (h ∷ groups) g
  viewer_owned h g groups own = elim (Bool-cases (g == h)) [
    | inl same ↦ rw (beq→eq g h same, own) refl
    | inr other ↦ rw other refl
  ]

  viewer_added :
      (h g : ℕ) (groups : List ℕ)
      → is_owner t h ≡ false
      → first_of
          (if h == g then some (granted_row o h false (view_and_edit false)) else none)
          (viewer_part groups g)
        ≡ viewer_part (h ∷ groups) g
  viewer_added h g groups other = elim (Bool-cases (h == g)) [
    | inl same ↦ rw (← beq→eq h g same, beq_refl h, other) refl
    | inr differ ↦ rw (differ, differs g h differ) refl
  ]
    where
      differs : (a b : ℕ) → (b == a) ≡ false → (a == b) ≡ false
      differs a b e = ground (arith, e)

  pub viewer_rows :
      (groups : List ℕ) (xs : List GroupAccess)
      → IsUnique xs
      → (ys : List GroupAccess) × (share_with_viewers o t groups xs ≡ some ys)
        × IsUnique ys
        × ((g : ℕ) → access_row o g ys ≡ first_of (access_row o g xs) (viewer_part groups g))
  unfolding share_with_viewers granted_row
  viewer_rows [] xs u = (
    xs,
    refl,
    u,
    λ g.
        sym (first_of-none (access_row o g xs)) ∙ ap (first_of (access_row o g xs)) (viewer_none g),
  )
  viewer_rows (h ∷ groups) xs u = elim (Bool-cases (is_owner t h)) [
    | inl own ↦
        let (ys, e, v, rows) = viewer_rows groups xs u in
        (
          ys,
          rw own e,
          v,
          λ g. rows g ∙ ap (first_of (access_row o g xs)) (viewer_owned h g groups own),
        )
    | inr other ↦
        let (ys, e, v, rows) =
          get_or_create_row (granted_row o h false (view_and_edit false)) xs u in
        let (zs, f, w, more) = viewer_rows groups ys v in
        (
          zs,
          rw other (rw e f),
          w,
          λ g.
              more g
              ∙ ap (λ row. first_of row (viewer_part groups g)) (rows g)
              ∙ first_of_assoc (access_row o g xs) _ (viewer_part groups g)
              ∙ ap (first_of (access_row o g xs)) (viewer_added h g groups other),
        )
  ]
