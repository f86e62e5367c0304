-- ===== src/Examples/Data.antt =====
-- Concrete rows of src/pwms/models/workflows.py: a delegation report with two resolutions.
use pwms_project.Prelude.{true, false, none, some, [], ◌∷◌, Key}
use pwms_project.Schema.{Flags, Role, Membership, User, GroupAccess, State, WorkflowType, Instance}
use pwms_project.Hierarchy.{Tree}
use pwms_project.Referrals.{Store}

abbrev pub report_key : Key
report_key = record { content_type = 1; object_id = 1 }

abbrev pub resolution_key : Key
resolution_key = record { content_type = 2; object_id = 1 }

abbrev pub second_key : Key
second_key = record { content_type = 2; object_id = 2 }

abbrev pub drafted : State
drafted = record {
  pk = 1;
  workflow_type = 1;
  name = "Draft";
  order = 0;
  is_initial = true;
  is_terminal = false;
  allows_referrals = true;
}

abbrev pub adopted : State
adopted = record {
  pk = 2;
  workflow_type = 1;
  name = "Adopted";
  order = 1;
  is_initial = false;
  is_terminal = true;
  allows_referrals = false;
}

abbrev pub report : Instance
report = record {
  key = report_key;
  workflow_type = 1;
  current_state = drafted;
  owner = 7;
  assigned_to = none;
  deadline = none;
  attendees = none;
}

abbrev pub resolution : Instance
resolution = record report { key = resolution_key; owner = 8 }

abbrev pub second : Instance
second = record report { key = second_key; owner = 8 }

abbrev pub reports : WorkflowType
reports = record {
  pk = 1;
  enabled = true;
  group = some 5;
  create_roles = 1 ∷ [];
  viewer_groups = 6 ∷ [];
  owner_can_edit = true;
  owner_can_transition = true;
  owner_can_delete = false;
  owner_can_share = false;
  owner_can_comment = false;
  owner_can_manage = false;
  parent_type = none;
}

abbrev pub flat : Tree
flat = record {
  types = reports ∷ [];
  instances = report ∷ resolution ∷ second ∷ [];
  others = [];
  links = [];
}

abbrev pub view_and_delete : Flags
view_and_delete = record {
  can_view = true;
  can_edit = false;
  can_delete = true;
  can_share = false;
  can_comment = false;
  can_manage = false;
  can_transition = false;
}

abbrev pub access : GroupAccess
access = record {
  group = 5;
  object = report_key;
  flags = view_and_delete;
  is_primary = true;
  via_referral = false;
  referral_raised_edit = false;
  role_permissions = [];
  state_permissions = [];
}

abbrev pub clerk : Role
clerk = record {
  pk = 1;
  can_transition_workflows = true;
  can_create_workflows = true;
  can_assign_workflows = false;
  can_manage_permissions = false;
}

abbrev pub member : Membership
member = record { group = 5; role = clerk; is_active = true }

abbrev pub officer : User
officer = record {
  pk = 9;
  is_authenticated = true;
  is_superuser = false;
  memberships = member ∷ [];
}

abbrev pub store : Store
store = record {
  instances = report_key ∷ [];
  referrals = [];
  accesses = access ∷ [];
  events = [];
  event_types = record { pk = 1; slug = "referral-created" } ∷ [];
  alerts = [];
  next_pk = 1;
}
