-- ===== src/Access.antt =====
-- The rows that give groups access to an instance, as the program writes them:
-- `materialize_group_access` and `sync_referral_access` of src/pwms/models/workflows.py.
-- `accesses` is the table WorkflowGroupAccess in the order of its primary key.
pub mod Sync
pub mod Settle
pub mod Creation
pub mod Materialize
pub mod Organic
use pwms_project.Prelude.{
  ℕ, Bool, true, false, ◌&&◌, ◌||◌, not, Option, none, some, List, [], ◌∷◌, ◌++◌, Key,
  if◌then◌else◌, ◌==◌, key_eq, nat_eq, filter, find, exists,
}
use pwms_project.Schema.{Flags, GroupAccess, WorkflowType, grants_only_view}

-- filter(content_type=…, object_id=…, group_id=…)
unfoldable pub is_row : Key → ℕ → GroupAccess → Bool
is_row object group a = a.object == object && a.group == group

-- self.group_accesses().filter(group_id=group_id).first()
unfoldable pub access_row : Key → ℕ → List GroupAccess → Option GroupAccess
access_row object group = find (is_row object group)

-- Writes what `write` makes of the row that `access_row` returns back to that row; `none` deletes
-- it.
unfoldable pub write_row :
    Key → ℕ → (GroupAccess → Option GroupAccess) → List GroupAccess → List GroupAccess
write_row object group write [] = []
write_row object group write (a ∷ rest) =
    let later = a ∷ write_row object group write rest in
    if is_row object group a then elim (write a) [ none ↦ rest | some a' ↦ a' ∷ rest ] else later

-- The model's column defaults, with `can_view` and `can_edit` given.
unfoldable pub view_and_edit : Bool → Flags
view_and_edit edits = record {
  can_view = true;
  can_edit = edits;
  can_delete = false;
  can_share = false;
  can_comment = false;
  can_manage = false;
  can_transition = false;
}

-- What sync_referral_access creates where the group has no row.
unfoldable pub referral_row : Key → ℕ → Bool → GroupAccess
unfolding view_and_edit
referral_row object group has_open = record {
  group = group;
  object = object;
  flags = view_and_edit has_open;
  is_primary = false;
  via_referral = true;
  referral_raised_edit = has_open;
  role_permissions = [];
  state_permissions = [];
}

-- The two branches that set `changed`.
unfoldable pub raise_or_hand_back : Bool → GroupAccess → GroupAccess
raise_or_hand_back has_open a =
    if has_open
    then if a.flags.can_edit
      then a
      else record a { flags = record (a.flags) { can_edit = true }; referral_raised_edit = true }
    else if a.referral_raised_edit
    then record a { flags = record (a.flags) { can_edit = false }; referral_raised_edit = false }
    else a

-- The part of sync_referral_access that works on an existing row.
unfoldable pub settle : Bool → Bool → GroupAccess → Option GroupAccess
unfolding raise_or_hand_back grants_only_view
settle has_referral has_open a =
    let a' = raise_or_hand_back has_open a in
    if not has_referral && (a'.via_referral && grants_only_view a') then none else some a'

-- sync_referral_access(group_id), given whether the group has a referral and an open one on the
-- instance.
unfoldable pub sync_row : Key → ℕ → Bool → Bool → List GroupAccess → List GroupAccess
sync_row object group has_referral has_open accesses = elim (access_row object group accesses) [
  | none ↦ if has_referral then accesses ++ referral_row object group has_open ∷ [] else accesses
  | some _ ↦ write_row object group (settle has_referral has_open) accesses
]

-- owner_access_defaults() over OWNER_CAPABILITY_FIELDS.
unfoldable pub owner_access_defaults : WorkflowType → Flags
owner_access_defaults t = record {
  can_view = true;
  can_edit = t.owner_can_edit;
  can_delete = t.owner_can_delete;
  can_share = t.owner_can_share;
  can_comment = t.owner_can_comment;
  can_manage = t.owner_can_manage;
  can_transition = t.owner_can_transition;
}

-- A row that get_or_create inserts: the given columns and the defaults.
unfoldable pub granted_row : Key → ℕ → Bool → Flags → GroupAccess
granted_row object group primary flags = record {
  group = group;
  object = object;
  flags = flags;
  is_primary = primary;
  via_referral = false;
  referral_raised_edit = false;
  role_permissions = [];
  state_permissions = [];
}

-- WorkflowGroupAccess.objects.get_or_create(...): `none` is MultipleObjectsReturned.
unfoldable pub get_or_create : GroupAccess → List GroupAccess → Option (List GroupAccess)
get_or_create new accesses = elim (filter (is_row new.object new.group) accesses) [
  | [] ↦ some (accesses ++ new ∷ [])
  | _ ∷ [] ↦ some accesses
  | _ ∷ _ ∷ _ ↦ none
]

infixl 5 ◌>>=◌
abbrev pub ◌>>=◌ {ℓ κ} : {A : Type ℓ} {B : Type κ} → Option A → (A → Option B) → Option B
none >>= f = none
some a >>= f = f a

unfoldable pub share_with_owner : Key → WorkflowType → List GroupAccess → Option (List GroupAccess)
share_with_owner object t accesses = elim t.group [
  | none ↦ some accesses
  | some g ↦ get_or_create (granted_row object g true (owner_access_defaults t)) accesses
]

-- group.pk == owner_group_id
unfoldable pub is_owner : WorkflowType → ℕ → Bool
is_owner t group = elim t.group [ none ↦ false | some g ↦ group == g ]

-- The loop over viewer_groups.
unfoldable pub share_with_viewers :
    Key → WorkflowType → List ℕ → List GroupAccess → Option (List GroupAccess)
share_with_viewers object t [] accesses = some accesses
share_with_viewers object t (g ∷ groups) accesses = do
  accesses' ←
      if is_owner t g
      then some accesses
      else get_or_create (granted_row object g false (view_and_edit false)) accesses
  share_with_viewers object t groups accesses'

unfoldable pub materialize_group_access :
    Key → WorkflowType → List GroupAccess → Option (List GroupAccess)
materialize_group_access object t accesses = do
  accesses' ← share_with_owner object t accesses
  share_with_viewers object t t.viewer_groups accesses'
