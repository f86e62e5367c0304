-- ===== src/Meetings/Trail.antt =====
-- The log of a meeting against its rows, over every sequence of calls: src/pwms/models/meetings.py.
use pwms_project.Prelude.{
  ℕ, ◌≡◌, refl, sym, ap, ◌∙◌, Bool, true, false, Option, none, some, List, [], ◌∷◌, ◌++◌, String,
  if◌then◌else◌, ◌==◌, nat_eq, string_eq, arith, contains, map, find_last, All, All→mem, mem→All,
  Bool-cases, inl, inr, append_assoc, append-nil,
}
use pwms_project.Meetings.{MeetingAttendance, RsvpStatus, AttendanceStatus}
use pwms_project.Meetings.Recording.{
  MeetingEvent, attendance_recorded, minutes_filed, minutes_approved, Journal, slug_of,
  record_slug_event, write_columns, with_answer, respond, with_record, record_attendance,
  record_minutes_filed, record_minutes_approved,
}

-- One call on the meeting or on one of its attendance rows.
pub data JournalCall : Journal → Journal → Type 0 where
  responded :
      (a : MeetingAttendance) (status : RsvpStatus) (said : Option String) (now : ℕ) {j : Journal}
      → JournalCall j (respond a status said now j)
  recorded :
      (a : MeetingAttendance) (status : AttendanceStatus) (actor : Option ℕ) (ip : String)
      (said : Option String) (now : ℕ) {j : Journal}
      → JournalCall j (record_attendance a status actor ip said now j)
  filed_minutes :
      (actor : Option ℕ) (name url : String) (now : ℕ) {j : Journal}
      → JournalCall j (record_minutes_filed actor name url now j)
  approved_minutes :
      (actor : Option ℕ) (remark : String) {j : Journal}
      → JournalCall j (record_minutes_approved actor remark j)

pub data Proceeds (j : Journal) : Journal → Type 0 where
  start : Proceeds j j
  then_step : {k l : Journal} → Proceeds j k → JournalCall k l → Proceeds j l

-- An event on the attendance of this row.
abbrev pub concerns : ℕ → MeetingEvent → Bool
concerns pk (attendance_recorded other status capacity ip actor) = other == pk
concerns pk (minutes_filed name url actor) = false
concerns pk (minutes_approved remark actor) = false

abbrev pub Reports : MeetingAttendance → Option MeetingEvent → Type 0
Reports r none = r.recorded_at ≡ none
Reports r (some (attendance_recorded pk status capacity ip actor)) =
    (status ≡ r.attendance_status) × (actor ≡ r.recorded_by)
Reports r (some (minutes_filed name url actor)) = ⊥
Reports r (some (minutes_approved remark actor)) = ⊥

-- The last event on a row says what the row says.
abbrev pub InStep : Journal → Type 0
InStep j =
    (contains "meeting-attendance-recorded" j.event_types ≡ true)
    × All (λ r. Reports r (find_last (concerns r.pk) j.events)) j.rows

find_last-snoc :
    (p : MeetingEvent → Bool) (xs : List MeetingEvent) (e : MeetingEvent)
    → find_last p (xs ++ (e ∷ [])) ≡ (if p e then some e else find_last p xs)
find_last-snoc p [] e = refl
find_last-snoc p (x ∷ xs) e = ground (arith, find_last-snoc p xs e)

All-map :
    (P : MeetingAttendance → Type 0) (f : MeetingAttendance → MeetingAttendance)
    (xs : List MeetingAttendance)
    → All (λ x. P (f x)) xs
    → All P (map f xs)
All-map P f [] h = tt
All-map P f (x ∷ xs) (q, h) = (q, All-map P f xs h)

Reports-answer :
    (status : RsvpStatus) (said : Option String) (now : ℕ) (r : MeetingAttendance)
    (o : Option MeetingEvent)
    → Reports r o
    → Reports (with_answer status said now r) o
unfolding with_answer
Reports-answer status said now r none h = h
Reports-answer status said now r (some (attendance_recorded pk st capacity ip actor)) h = h
Reports-answer status said now r (some (minutes_filed name url actor)) h = h
Reports-answer status said now r (some (minutes_approved remark actor)) h = h

beq_sym : (a b : ℕ) → (a == b) ≡ (b == a)
beq_sym a b = ground arith

abbrev RowsReport : Journal → Type 0
RowsReport j = All (λ r. Reports r (find_last (concerns r.pk) j.events)) j.rows

RowsReport-answer :
    (a : MeetingAttendance) (status : RsvpStatus) (said : Option String) (now : ℕ) (j : Journal)
    → RowsReport j
    → RowsReport (respond a status said now j)
unfolding respond write_columns with_answer
RowsReport-answer a status said now j h = All-map _ _ j.rows (
    mem→All _ j.rows (λ r m. elim (Bool-cases (r.pk == a.pk)) [
      | inl this ↦ rw this (Reports-answer status said now r _ (All→mem _ j.rows h m))
      | inr other ↦ rw other (All→mem _ j.rows h m)
    ]))

RowsReport-record :
    (a : MeetingAttendance) (status : AttendanceStatus) (actor : Option ℕ) (ip : String)
    (said : Option String) (now : ℕ) (j : Journal)
    → contains "meeting-attendance-recorded" j.event_types ≡ true
    → RowsReport j
    → RowsReport (record_attendance a status actor ip said now j)
unfolding record_attendance record_slug_event slug_of write_columns with_record
RowsReport-record a status actor ip said now j known h =
    let e = attendance_recorded a.pk status a.capacity ip actor in
    rw known (
      All-map _ _ j.rows (
        mem→All _ j.rows (λ r m. elim (Bool-cases (r.pk == a.pk)) [
          | inl this ↦
              rw (this, find_last-snoc (concerns r.pk) j.events e, beq_sym a.pk r.pk, this)
                (refl, refl)
          | inr other ↦
              rw (other, find_last-snoc (concerns r.pk) j.events e, beq_sym a.pk r.pk, other)
                (All→mem _ j.rows h m)
        ])))

RowsReport-minutes :
    (e : MeetingEvent) (j : Journal)
    → ((pk : ℕ) → concerns pk e ≡ false)
    → RowsReport j
    → RowsReport (record_slug_event e j)
unfolding record_slug_event
RowsReport-minutes e j other h = elim (Bool-cases (contains (slug_of e) j.event_types)) [
  | inr unknown ↦ rw unknown h
  | inl known ↦ rw known (
      mem→All _ j.rows
        (λ r m. rw (find_last-snoc (concerns r.pk) j.events e, other r.pk) (All→mem _ j.rows h m)))
]

record_slug_event-registry :
    (e : MeetingEvent) (j : Journal) → (record_slug_event e j).event_types ≡ j.event_types
unfolding record_slug_event
record_slug_event-registry e j = elim (Bool-cases (contains (slug_of e) j.event_types)) [
  | inl known ↦ rw known refl
  | inr unknown ↦ rw unknown refl
]

abbrev Grows : Journal → Journal → Type 0
Grows j k = (more : List MeetingEvent) × (k.events ≡ j.events ++ more)

record_slug_event-Grows : (e : MeetingEvent) (j : Journal) → Grows j (record_slug_event e j)
unfolding record_slug_event
record_slug_event-Grows e j = elim (Bool-cases (contains (slug_of e) j.event_types)) [
  | inl known ↦ (e ∷ [], rw known refl)
  | inr unknown ↦ ([], rw unknown (sym (append-nil j.events)))
]

Step-Grows : {j k : Journal} → JournalCall j k → Grows j k
unfolding respond record_attendance record_minutes_filed record_minutes_approved write_columns
Step-Grows (responded a status said now {j}) = ([], sym (append-nil j.events))
Step-Grows (recorded a status actor ip said now) = record_slug_event-Grows _ _
Step-Grows (filed_minutes actor name url now) = record_slug_event-Grows _ _
Step-Grows (approved_minutes actor remark) = record_slug_event-Grows _ _

Step-InStep : {j k : Journal} → JournalCall j k → InStep j → InStep k
unfolding respond record_attendance record_minutes_filed record_minutes_approved write_columns
Step-InStep (responded a status said now {j}) (known, h) =
    (known, RowsReport-answer a status said now j h)
Step-InStep (recorded a status actor ip said now {j}) (known, h) = (
  ap (contains "meeting-attendance-recorded") (record_slug_event-registry _ _) ∙ known,
  RowsReport-record a status actor ip said now j known h,
)
Step-InStep (filed_minutes actor name url now {j}) (known, h) = (
  ap (contains "meeting-attendance-recorded") (record_slug_event-registry _ _) ∙ known,
  RowsReport-minutes (minutes_filed name url actor) _ (λ pk. refl) h,
)
Step-InStep (approved_minutes actor remark {j}) (known, h) = (
  ap (contains "meeting-attendance-recorded") (record_slug_event-registry _ _) ∙ known,
  RowsReport-minutes (minutes_approved remark actor) _ (λ pk. refl) h,
)

-- Over any sequence of answers, attendance records, filings and approvals of the minutes: if the
-- event type of recorded attendance is in the registry, and each row says what the last event on
-- it says, its status and who recorded it, or has no record when there is no such event, then so
-- it is afterwards, and the log has only with_new_rows at its end.
pub Proceeds-InStep :
    {j k : Journal}
    → Proceeds j k
    → InStep j
    → InStep k × (more : List MeetingEvent) × (k.events ≡ j.events ++ more)
Proceeds-InStep {j} start h = (h, [], sym (append-nil j.events))
Proceeds-InStep {j} (then_step p s) h =
    let (known, more, e) = Proceeds-InStep p h in
    let (new, q) = Step-Grows s in
    (Step-InStep s known, more ++ new, q ∙ (ap (λ l. l ++ new) e ∙ append_assoc j.events more new))
