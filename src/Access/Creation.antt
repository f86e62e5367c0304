-- ===== src/Access/Creation.antt =====
-- `get_or_create` on the table of access rows, src/pwms/models/workflows.py: it only adds rows.
use pwms_project.Prelude.{
  append-nil, append_assoc, ℕ, ◌≡◌, refl, true, none, some, List, [], ◌∷◌, ◌++◌, Key, arith, ◌∙◌,
  sym, Option-cases, Bool-cases, inl, inr, filter, find-append,
}
use pwms_project.Schema.{GroupAccess}
use pwms_project.Access.{is_row, access_row, get_or_create}
use pwms_project.Access.Sync.{IsUnique}

-- What holds of the table afterwards, whatever was added: the old rows are its beginning, as they
-- were, and no group has two rows on an instance.
pub record Keeps (before after : List GroupAccess) : Type 0 where
  pub new : List GroupAccess
  pub extends : after ≡ before ++ new
  pub unique : IsUnique after

abbrev pub HasRow : Key → ℕ → List GroupAccess → Type 0
HasRow object group accesses = (a : GroupAccess) × (access_row object group accesses ≡ some a)

pub Keeps-refl : (xs : List GroupAccess) → IsUnique xs → Keeps xs xs
Keeps-refl xs u = record { new = []; extends = sym (append-nil xs); unique = u }

pub Keeps-trans : {xs ys zs : List GroupAccess} → Keeps xs ys → Keeps ys zs → Keeps xs zs
Keeps-trans {xs} k l = record {
  new = k.new ++ l.new;
  extends = rw (l.extends, k.extends) (append_assoc xs k.new l.new);
  unique = l.unique;
}

pub HasRow-Keeps :
    (object : Key) (group : ℕ) {xs ys : List GroupAccess}
    → Keeps xs ys
    → HasRow object group xs
    → HasRow object group ys
unfolding access_row
HasRow-Keeps object group {xs} k (a, found) =
    (a, rw k.extends (find-append (is_row object group) xs k.new ∙ rw found))

module _ (object : Key) (group : ℕ) where
  pub filter_absent :
      (xs : List GroupAccess)
      → access_row object group xs ≡ none
      → filter (is_row object group) xs ≡ []
  unfolding access_row
  filter_absent [] h = refl
  filter_absent (x ∷ xs) h = ground (arith, filter_absent xs)

  is_row_eq :
      (a : GroupAccess) → is_row object group a ≡ true → (a.object ≡ object) × (a.group ≡ group)
  unfolding is_row
  is_row_eq a h = (ground arith, ground arith)

  pub filter_found :
      (xs : List GroupAccess) (a : GroupAccess)
      → IsUnique xs
      → access_row object group xs ≡ some a
      → filter (is_row object group) xs ≡ a ∷ []
  unfolding access_row
  filter_found [] a u h = cc
  filter_found (x ∷ xs) a u h = elim (Bool-cases (is_row object group x)) [
    | inl here ↦
        let (eo, eg) = is_row_eq x here in
        let none_after = filter_absent xs (rw (eo, eg) at (u.0)) in ground (arith, none_after)
    | inr there ↦ ground (arith, filter_found xs a u.1)
  ]

is_row_new : (new : GroupAccess) → is_row new.object new.group new ≡ true
unfolding is_row
is_row_new new = ground arith

is_row_symm : (a b : GroupAccess) → is_row a.object a.group b ≡ is_row b.object b.group a
unfolding is_row
is_row_symm a b = ground arith

pub append-IsUnique :
    (new : GroupAccess) (xs : List GroupAccess)
    → IsUnique xs
    → access_row new.object new.group xs ≡ none
    → IsUnique (xs ++ new ∷ [])
unfolding access_row
append-IsUnique new [] u absent = (refl, tt)
append-IsUnique new (x ∷ xs) u absent = (
  find-append (is_row x.object x.group) xs (new ∷ []) ∙ ground (arith, is_row_symm x new, u.0),
  append-IsUnique new xs u.1 (ground arith),
)

row_appended :
    (new : GroupAccess) (xs : List GroupAccess)
    → access_row new.object new.group xs ≡ none
    → access_row new.object new.group (xs ++ new ∷ []) ≡ some new
unfolding access_row
row_appended new xs absent =
    find-append (is_row new.object new.group) xs (new ∷ []) ∙ rw (absent, is_row_new new)

-- On a table with one row for a group, get_or_create answers, and the row is there.
pub get_or_create_total :
    (new : GroupAccess) (xs : List GroupAccess)
    → IsUnique xs
    → (ys : List GroupAccess) × (get_or_create new xs ≡ some ys)
      × Keeps xs ys
      × HasRow new.object new.group ys
unfolding get_or_create
get_or_create_total new xs u = elim (Option-cases (access_row new.object new.group xs)) [
  | inl absent ↦ (
    xs ++ new ∷ [],
    rw (filter_absent new.object new.group xs absent, get_or_create),
    record { new = new ∷ []; extends = refl; unique = append-IsUnique new xs u absent },
    (new, row_appended new xs absent),
  )
  | inr (a, found) ↦ (
    xs,
    rw (filter_found new.object new.group xs a u found, get_or_create),
    Keeps-refl xs u,
    (a, found),
  )
]

-- Where the row is there already, nothing is written.
pub get_or_create_found :
    (new : GroupAccess) (xs : List GroupAccess)
    → IsUnique xs
    → HasRow new.object new.group xs
    → get_or_create new xs ≡ some xs
unfolding get_or_create
get_or_create_found new xs u (a, found) =
    rw (filter_found new.object new.group xs a u found, get_or_create)
