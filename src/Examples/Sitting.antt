-- ===== src/Examples/Sitting.antt =====
-- A committee meets: the theorems on src/pwms/models/meetings.py.
use pwms_project.Prelude.{
  ℕ, ◌+◌, ◌≤◌, ◌≡◌, ◌⊎◌, ◌↔◌, refl, true, false, Option, none, some, List, [], ◌∷◌, ◌++◌, arith,
  length, filter, exists, contains, ◌==◌, nat_eq,
}
use pwms_project.Meetings.{
  MeetingAttendance, Meeting, Tables, Summary, Source, host_group, invitee, member, pending,
  accepted, not_recorded, present, regenerate_attendance, on_register, host_members, new_row,
  is_generated, is_member, is_host_group, add_members, members_of, get_active_members, is_user,
  create_attendance, remove_leavers, keyed_by_user, has_user, put_row, drop_row, same_user,
}
use pwms_project.Meetings.Places.{IsValid}
use pwms_project.Meetings.Register.{invited_by_hand, regenerate_attendance-register}
use pwms_project.Meetings.Counts.{
  is_absent, is_excused, is_not_recorded, is_accepted, is_declined, attendance_counts,
  attendance_counts-Tally, how_many, is_present,
}
use pwms_project.Meetings.Recording.{Journal, MeetingEvent, record_attendance, respond, unrecorded}
use pwms_project.Meetings.Trail.{start, then_step, responded, recorded, InStep, Proceeds-InStep}
use pwms_project.Meetings.Audience.{Account}

abbrev place : ℕ → Option ℕ → Source → MeetingAttendance
place pk user source = record {
  pk = pk;
  meeting = 1;
  user = user;
  guest_name = "";
  guest_email = "";
  source = source;
  capacity = member;
  is_required = true;
  rsvp_status = accepted;
  attendance_status = present;
  invited_at = 0;
  responded_at = none;
  recorded_at = none;
  recorded_by = none;
  recorded_ip = "";
  note = "";
}

-- The first has left the group, the second was invited, the third is a guest.
abbrev store : Tables
store = record {
  attendances =
      place 10 (some 3) host_group ∷ place 11 (some 2) invitee ∷ place 12 none invitee ∷ [];
  next_pk = 13;
  users = 1 ∷ 2 ∷ 3 ∷ [];
  memberships =
      record { user = 1; group = 7; is_active = true }
      ∷ record { user = 2; group = 7; is_active = true }
      ∷ record { user = 3; group = 7; is_active = false }
      ∷ [];
}

abbrev committee : Meeting
committee = record { pk = 1; host_group = some 7; quorum = some 2; register_generated_at = none }

store-IsValid : IsValid store
unfolding has_user same_user
store-IsValid = record {
  fresh = omega arith;
  keys = omega arith;
  places = (((λ e h. refl), ((λ e h. refl), tt)), (((λ e h. refl), tt), (tt, tt)));
  accounts = omega arith;
}

abbrev committee_after : Meeting
committee_after = record committee { register_generated_at = some 5 }

abbrev store_after : Tables
store_after = record store {
  attendances =
      place 11 (some 2) invitee
      ∷ place 12 none invitee
      ∷ record (place 13 (some 1) host_group) {
        is_required = false;
        rsvp_status = pending;
        attendance_status = not_recorded;
        invited_at = 5;
      }
      ∷ [];
  next_pk = 14;
}

abbrev summary : Summary
summary = record { added = 1; removed = 1; members = 2; total = 3 }

ran : regenerate_attendance committee 5 store ≡ some (committee_after, store_after, summary)
unfolding regenerate_attendance add_members host_members members_of get_active_members on_register
    is_user create_attendance remove_leavers keyed_by_user is_generated is_host_group has_user
    put_row is_member drop_row new_row same_user
ran = refl

regenerate_attendance-register_example :
    (m : Meeting) × (s : Tables) × (done : Summary) × (regenerate_attendance committee 5 store
      ≡ some (m, s, done))
    × IsValid s
    × (m.register_generated_at ≡ some 5)
    × ((u : ℕ)
        → (on_register 1 s.attendances u ≡ true) ↔ (
            (contains u (host_members committee store) ≡ true)
            ⊎ (exists (invited_by_hand 1 u) store.attendances ≡ true)))
regenerate_attendance-register_example =
    regenerate_attendance-register committee 5 store store-IsValid

attendance_counts-Tally_example :
    let (c, met) = attendance_counts committee store.attendances in
    let here = filter (λ a. a.meeting == 1) store.attendances in
    (c.invited ≡ length here)
    × (c.n_present ≡ how_many is_present here)
    × (c.n_absent ≡ how_many (λ a. is_absent a.attendance_status) here)
    × (c.n_excused ≡ how_many (λ a. is_excused a.attendance_status) here)
    × (c.n_not_recorded ≡ how_many (λ a. is_not_recorded a.attendance_status) here)
    × (c.n_accepted ≡ how_many (λ a. is_accepted a.rsvp_status) here)
    × (c.n_declined ≡ how_many (λ a. is_declined a.rsvp_status) here)
    × (c.n_host_group ≡ how_many (λ a. is_host_group a.source) here)
    × (c.required ≡ how_many (λ a. a.is_required) here)
    × (c.n_host_group + c.n_invitee ≡ c.invited)
    × (c.n_present + c.n_absent + c.n_excused + c.n_not_recorded ≡ c.invited)
    × (c.n_late ≡ 0)
    × (c.n_accepted + c.n_declined ≤ c.invited)
    × (met ≡ true ↔ (k : ℕ) × (some 2 ≡ some k) × (k ≤ c.n_present))
attendance_counts-Tally_example = attendance_counts-Tally committee store.attendances

abbrev journal : Journal
journal = record {
  rows = place 11 (some 2) invitee ∷ [];
  minutes_status = unrecorded;
  minutes_filed_at = none;
  event_types = "meeting-attendance-recorded" ∷ [];
  events = [];
}

abbrev answered : Journal
answered = respond (place 11 (some 2) invitee) accepted none 4 journal

abbrev attended : Journal
attended = record_attendance (place 11 (some 2) invitee) present (some 1) "" none 6 answered

Proceeds-InStep_example :
    InStep attended × (more : List MeetingEvent) × (attended.events ≡ [] ++ more)
Proceeds-InStep_example =
    Proceeds-InStep
      (then_step
        (then_step start (responded (place 11 (some 2) invitee) accepted none 4 {j = journal}))
        (recorded (place 11 (some 2) invitee) present (some 1) "" none 6))
      (refl, (refl, tt))

abbrev accounts : List Account
accounts = record { pk = 2; is_active = true } ∷ record { pk = 3; is_active = true } ∷ []
