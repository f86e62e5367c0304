-- ===== src/Meetings/Recording.antt =====
-- Answers, attendance and minutes: MeetingAttendance.respond and record, and the events that a
-- meeting appends, src/pwms/models/meetings.py.
use pwms_project.Prelude.{
  ℕ, Option, none, some, List, [], ◌∷◌, ◌++◌, String, if◌then◌else◌, ◌==◌, nat_eq, string_eq,
  contains, map,
}
use pwms_project.Meetings.{MeetingAttendance, RsvpStatus, AttendanceStatus, Capacity}

pub data MinutesStatus : Type 0 where
  unrecorded draft filed approved : MinutesStatus

-- The payloads of the three event types.
pub data MeetingEvent : Type 0 where
  attendance_recorded : ℕ → AttendanceStatus → Capacity → String → Option ℕ → MeetingEvent
  minutes_filed : String → String → Option ℕ → MeetingEvent
  minutes_approved : String → Option ℕ → MeetingEvent

-- The attendance rows, the columns of one meeting, the registry of event types and the log.
pub record Journal : Type 0 where
  pub rows : List MeetingAttendance
  pub minutes_status : MinutesStatus
  pub minutes_filed_at : Option ℕ
  pub event_types : List String
  pub events : List MeetingEvent

unfoldable pub slug_of : MeetingEvent → String
slug_of (attendance_recorded pk status capacity ip actor) = "meeting-attendance-recorded"
slug_of (minutes_filed name url actor) = "meeting-minutes-filed"
slug_of (minutes_approved remark actor) = "meeting-minutes-approved"

-- Without the row of its type in the registry an event is skipped.
unfoldable pub record_slug_event : MeetingEvent → Journal → Journal
record_slug_event e j =
    if contains (slug_of e) j.event_types then record j { events = j.events ++ (e ∷ []) } else j

unfoldable pub noted : Option String → String → String
noted none kept = kept
noted (some text) note = text

-- save(update_fields=…) writes the named columns of the row with the primary key.
unfoldable pub write_columns : ℕ → (MeetingAttendance → MeetingAttendance) → Journal → Journal
write_columns pk write j = record j { rows = map (λ r. if r.pk == pk then write r else r) j.rows }

unfoldable pub with_answer : RsvpStatus → Option String → ℕ → MeetingAttendance → MeetingAttendance
with_answer status said now r = record r {
  rsvp_status = status;
  responded_at = some now;
  note = noted said r.note;
}

unfoldable pub respond : MeetingAttendance → RsvpStatus → Option String → ℕ → Journal → Journal
respond a status said now j = write_columns a.pk (with_answer status said now) j

unfoldable pub with_record :
    AttendanceStatus → Option ℕ → String → Option String → ℕ → MeetingAttendance → MeetingAttendance
with_record status actor ip said now r = record r {
  attendance_status = status;
  recorded_at = some now;
  recorded_by = actor;
  recorded_ip = ip;
  note = noted said r.note;
}

-- The address is that of the call, or else the one that the instance in memory has.
unfoldable pub record_attendance :
    MeetingAttendance → AttendanceStatus → Option ℕ → String → Option String → ℕ → Journal → Journal
record_attendance a status actor ip said now j =
    record_slug_event (attendance_recorded a.pk status a.capacity ip actor) (
      write_columns a.pk
        (with_record status actor (if ip == "" then a.recorded_ip else ip) said now) j)

unfoldable pub record_minutes_filed : Option ℕ → String → String → ℕ → Journal → Journal
record_minutes_filed actor name url now j =
    record_slug_event (minutes_filed name url actor)
      (record j { minutes_status = filed; minutes_filed_at = some now })

unfoldable pub record_minutes_approved : Option ℕ → String → Journal → Journal
record_minutes_approved actor remark j =
    record_slug_event (minutes_approved remark actor) (record j { minutes_status = approved })
