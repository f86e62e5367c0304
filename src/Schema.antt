-- ===== src/Schema.antt =====
-- The rows that the workflow core reads and writes: src/pwms/models/permissions.py and
-- src/pwms/models/workflows.py. A foreign key is the primary key of the row that it names, a
-- generic foreign key is a `Key`, an instant is a number. Columns that no modelled operation
-- reads (help texts, descriptions, colours) are left out.
use pwms_project.Prelude.{ℕ, Bool, Option, List, String, Key, ◌||◌, not}

-- The strings of `PERMISSION_ACTIONS`.
pub data Capability : Type 0 where
  view edit delete share comment manage transition : Capability

-- The strings of `ALL_ACTIONS`: `create` is known to the resolver and to no access row.
pub data Action : Type 0 where
  on : Capability → Action
  create : Action

-- The seven `can_*` columns that three tables share.
pub record Flags : Type 0 where
  pub can_view : Bool
  pub can_edit : Bool
  pub can_delete : Bool
  pub can_share : Bool
  pub can_comment : Bool
  pub can_manage : Bool
  pub can_transition : Bool

-- getattr(row, PERMISSION_ACTIONS[action])
unfoldable pub flag : Capability → Flags → Bool
flag view f = f.can_view
flag edit f = f.can_edit
flag delete f = f.can_delete
flag share f = f.can_share
flag comment f = f.can_comment
flag manage f = f.can_manage
flag transition f = f.can_transition

pub record Role : Type 0 where
  pub pk : ℕ
  pub can_transition_workflows : Bool
  pub can_create_workflows : Bool
  pub can_assign_workflows : Bool
  pub can_manage_permissions : Bool

pub record Membership : Type 0 where
  pub group : ℕ
  pub role : Role
  pub is_active : Bool

pub record User : Type 0 where
  pub pk : ℕ
  pub is_authenticated : Bool
  pub is_superuser : Bool
  pub memberships : List Membership

pub record RolePermission : Type 0 where
  pub role : ℕ
  pub flags : Flags
  pub allowed_states : List ℕ

pub record StatePermission : Type 0 where
  pub state : ℕ
  pub flags : Flags

-- `role_permissions` and `state_permissions` are the rows that point here.
pub record GroupAccess : Type 0 where
  pub group : ℕ
  pub object : Key
  pub flags : Flags
  pub is_primary : Bool
  pub via_referral : Bool
  pub referral_raised_edit : Bool
  pub role_permissions : List RolePermission
  pub state_permissions : List StatePermission

-- not any(getattr(self, field) for field in BEYOND_VIEW_FIELDS)
unfoldable pub grants_only_view : GroupAccess → Bool
grants_only_view a =
    not (
      f.can_edit || f.can_delete || f.can_share || f.can_comment || f.can_manage
      || f.can_transition)
  where
    open a use {flags as f}

pub record State : Type 0 where
  pub pk : ℕ
  pub workflow_type : ℕ
  pub name : String
  pub order : ℕ
  pub is_initial : Bool
  pub is_terminal : Bool
  pub allows_referrals : Bool

pub record WorkflowType : Type 0 where
  pub pk : ℕ
  pub enabled : Bool
  pub group : Option ℕ
  pub create_roles : List ℕ
  pub viewer_groups : List ℕ
  pub owner_can_edit : Bool
  pub owner_can_transition : Bool
  pub owner_can_delete : Bool
  pub owner_can_share : Bool
  pub owner_can_comment : Bool
  pub owner_can_manage : Bool
  pub parent_type : Option ℕ

-- A concrete workflow row. `attendees` is the register of a `Meeting`, `none` for other models.
pub record Instance : Type 0 where
  pub key : Key
  pub workflow_type : ℕ
  pub current_state : State
  pub owner : ℕ
  pub assigned_to : Option ℕ
  pub deadline : Option ℕ
  pub attendees : Option (List ℕ)
