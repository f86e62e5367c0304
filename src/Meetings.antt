-- ===== src/Meetings.antt =====
-- Meetings and their attendance register: src/pwms/models/meetings.py. An instant is a number
-- of seconds.
pub mod Creating
pub mod Leaving
pub mod Places
pub mod Regenerate
pub mod Register
pub mod Tally
pub mod Counts
pub mod Recording
pub mod Trail
pub mod Audience
pub mod Calendar
use pwms_project.Prelude.{
  ℕ, ◌+◌, Bool, true, false, not, ◌&&◌, ◌||◌, Option, none, some, List, [], ◌∷◌, ◌++◌, String,
  if◌then◌else◌, ◌==◌, nat_eq, leb, length, filter, exists, contains, map,
}

pub data Source : Type 0 where
  host_group invitee : Source

pub data Capacity : Type 0 where
  chairperson deputy_chairperson member secretary presenter official guest observer : Capacity

pub data RsvpStatus : Type 0 where
  pending accepted tentative declined : RsvpStatus

pub data AttendanceStatus : Type 0 where
  not_recorded present virtual late left_early excused absent : AttendanceStatus

pub record MeetingAttendance : Type 0 where
  pub pk : ℕ
  pub meeting : ℕ
  pub user : Option ℕ
  pub guest_name : String
  pub guest_email : String
  pub source : Source
  pub capacity : Capacity
  pub is_required : Bool
  pub rsvp_status : RsvpStatus
  pub attendance_status : AttendanceStatus
  pub invited_at : ℕ
  pub responded_at : Option ℕ
  pub recorded_at : Option ℕ
  pub recorded_by : Option ℕ
  pub recorded_ip : String
  pub note : String

-- The columns of a meeting that the register reads and writes.
pub record Meeting : Type 0 where
  pub pk : ℕ
  pub host_group : Option ℕ
  pub quorum : Option ℕ
  pub register_generated_at : Option ℕ

pub record GroupMember : Type 0 where
  pub user : ℕ
  pub group : ℕ
  pub is_active : Bool

-- The tables: attendance rows with the next primary key, the users, and their memberships.
pub record Tables : Type 0 where
  pub attendances : List MeetingAttendance
  pub next_pk : ℕ
  pub users : List ℕ
  pub memberships : List GroupMember

-- Group.get_active_members
unfoldable pub get_active_members : ℕ → Tables → List ℕ
get_active_members group s =
    filter (λ u. exists (λ m. m.user == u && m.group == group && m.is_active) s.memberships) s.users

unfoldable pub is_user : ℕ → Option ℕ → Bool
is_user u none = false
is_user u (some v) = v == u

unfoldable pub is_host_group : Source → Bool
is_host_group host_group = true
is_host_group invitee = false

unfoldable pub has_user : Option ℕ → Bool
has_user none = false
has_user (some u) = true

unfoldable pub same_user : Option ℕ → Option ℕ → Bool
same_user none none = true
same_user none (some v) = false
same_user (some u) none = false
same_user (some u) (some v) = u == v

-- The rows of one meeting that the group generated for an account.
unfoldable pub is_generated : ℕ → MeetingAttendance → Bool
is_generated meeting a = a.meeting == meeting && is_host_group a.source && has_user a.user

-- A dict by user_id: a later row of a user takes the place of an earlier one.
unfoldable pub put_row : MeetingAttendance → List MeetingAttendance → List MeetingAttendance
put_row a [] = a ∷ []
put_row a (b ∷ rest) =
    let later = b ∷ put_row a rest in if same_user a.user b.user then a ∷ rest else later

unfoldable pub keyed_by_user :
    List MeetingAttendance → List MeetingAttendance → List MeetingAttendance
keyed_by_user acc [] = acc
keyed_by_user acc (a ∷ rest) = keyed_by_user (put_row a acc) rest

unfoldable pub on_register : ℕ → List MeetingAttendance → ℕ → Bool
on_register meeting rows u = exists (λ a. a.meeting == meeting && is_user u a.user) rows

-- The defaults of the columns, with the source and capacity of a generated row.
unfoldable pub new_row : ℕ → ℕ → ℕ → ℕ → MeetingAttendance
new_row pk meeting now user = record {
  pk = pk;
  meeting = meeting;
  user = some user;
  guest_name = "";
  guest_email = "";
  source = host_group;
  capacity = member;
  is_required = false;
  rsvp_status = pending;
  attendance_status = not_recorded;
  invited_at = now;
  responded_at = none;
  recorded_at = none;
  recorded_by = none;
  recorded_ip = "";
  note = "";
}

-- MeetingAttendance.objects.create. `none` is the IntegrityError of the constraint that gives an
-- account one place at a meeting.
unfoldable pub create_attendance : ℕ → ℕ → ℕ → Tables → Option Tables
create_attendance meeting now user s =
    if on_register meeting s.attendances user
    then none
    else some (record s {
      attendances = s.attendances ++ (new_row s.next_pk meeting now user ∷ []);
      next_pk = s.next_pk + 1;
    })

-- The loop over the members, with the set of users that were on the register before it.
unfoldable pub add_members : ℕ → ℕ → List MeetingAttendance → List ℕ → Tables → Option (ℕ × Tables)
add_members meeting now before [] s = some (0, s)
add_members meeting now before (u ∷ rest) s = elim (on_register meeting before u) [
  | true ↦ add_members meeting now before rest s
  | false ↦ elim (create_attendance meeting now u s) [
    | none ↦ none
    | some s₁ ↦ elim (add_members meeting now before rest s₁) [
      | none ↦ none
      | some (added, s₂) ↦ some (added + 1, s₂)
    ]
  ]
]

-- row.delete() of the generated rows whose user is no member
unfoldable pub drop_row : ℕ → Tables → Tables
drop_row pk s = record s { attendances = filter (λ a. not (a.pk == pk)) s.attendances }

unfoldable pub is_member : List ℕ → Option ℕ → Bool
is_member members none = false
is_member members (some u) = contains u members

unfoldable pub remove_leavers : List ℕ → List MeetingAttendance → Tables → ℕ × Tables
remove_leavers members [] s = (0, s)
remove_leavers members (a ∷ rest) s = elim (is_member members a.user) [
  | true ↦ remove_leavers members rest s
  | false ↦ let (removed, s₁) = remove_leavers members rest (drop_row a.pk s) in (removed + 1, s₁)
]

pub record Summary : Type 0 where
  pub added : ℕ
  pub removed : ℕ
  pub members : ℕ
  pub total : ℕ

unfoldable pub members_of : Option ℕ → Tables → List ℕ
members_of none s = []
members_of (some group) s = get_active_members group s

unfoldable pub host_members : Meeting → Tables → List ℕ
host_members m s = members_of m.host_group s

-- `none` is an exception, and the transaction is rolled back.
unfoldable pub regenerate_attendance : Meeting → ℕ → Tables → Option (Meeting × Tables × Summary)
regenerate_attendance m now s =
    let generated = keyed_by_user [] (filter (is_generated m.pk) s.attendances) in
    let members = host_members m s in
    elim (add_members m.pk now s.attendances members s) [
      | none ↦ none
      | some (added, s₁) ↦
          let (removed, s₂) = remove_leavers members generated s₁ in
          some (
            record m { register_generated_at = some now },
            s₂,
            record {
              added = added;
              removed = removed;
              members = length members;
              total = length (filter (λ a. a.meeting == m.pk) s₂.attendances);
            },
          )
    ]
