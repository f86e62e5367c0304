-- ===== src/Meetings/Counts.antt =====
-- The headline figures of a meeting: Meeting.attendance_counts, src/pwms/models/meetings.py.
use pwms_project.Prelude.{
  ℕ, ◌+◌, ◌≤◌, ◌≡◌, ◌↔◌, refl, Bool, true, false, Option, none, some, List, [], ◌∷◌, if◌then◌else◌,
  ◌==◌, nat_eq, leb, arith, length, filter, some_inj,
}
use pwms_project.Meetings.{
  MeetingAttendance, Meeting, Source, host_group, invitee, RsvpStatus, pending, accepted, tentative,
  declined, AttendanceStatus, not_recorded, present, virtual, late, left_early, excused, absent,
  is_host_group,
}

pub record Tally : Type 0 where
  pub invited : ℕ
  pub n_present : ℕ
  pub n_absent : ℕ
  pub n_excused : ℕ
  pub n_late : ℕ
  pub n_not_recorded : ℕ
  pub n_accepted : ℕ
  pub n_declined : ℕ
  pub required : ℕ
  pub n_host_group : ℕ
  pub n_invitee : ℕ

abbrev pub no_rows : Tally
no_rows = record {
  invited = 0;
  n_present = 0;
  n_absent = 0;
  n_excused = 0;
  n_late = 0;
  n_not_recorded = 0;
  n_accepted = 0;
  n_declined = 0;
  required = 0;
  n_host_group = 0;
  n_invitee = 0;
}

-- attendance_status in PRESENT_STATUSES
unfoldable pub counts_as_present : AttendanceStatus → Bool
counts_as_present not_recorded = false
counts_as_present present = true
counts_as_present virtual = true
counts_as_present late = true
counts_as_present left_early = true
counts_as_present excused = false
counts_as_present absent = false

unfoldable pub is_present : MeetingAttendance → Bool
is_present a = counts_as_present a.attendance_status

unfoldable pub count_status : AttendanceStatus → Tally → Tally
count_status not_recorded c = record c { n_not_recorded = c.n_not_recorded + 1 }
count_status present c = record c { n_present = c.n_present + 1 }
count_status virtual c = record c { n_present = c.n_present + 1 }
count_status late c = record c { n_present = c.n_present + 1 }
count_status left_early c = record c { n_present = c.n_present + 1 }
count_status excused c = record c { n_excused = c.n_excused + 1 }
count_status absent c = record c { n_absent = c.n_absent + 1 }

unfoldable pub count_source : Source → Tally → Tally
count_source host_group c = record c { n_host_group = c.n_host_group + 1 }
count_source invitee c = record c { n_invitee = c.n_invitee + 1 }

unfoldable pub count_rsvp : RsvpStatus → Tally → Tally
count_rsvp pending c = c
count_rsvp accepted c = record c { n_accepted = c.n_accepted + 1 }
count_rsvp tentative c = c
count_rsvp declined c = record c { n_declined = c.n_declined + 1 }

unfoldable pub count_invited : Bool → Tally → Tally
count_invited required c = record c {
  invited = c.invited + 1;
  required = if required then c.required + 1 else c.required;
}

unfoldable pub count_row : MeetingAttendance → Tally → Tally
count_row a c =
    count_rsvp a.rsvp_status
      (count_status a.attendance_status (count_source a.source (count_invited a.is_required c)))

unfoldable pub count_rows : List MeetingAttendance → Tally → Tally
count_rows [] c = c
count_rows (a ∷ rest) c = count_rows rest (count_row a c)

unfoldable pub quorum_met : Option ℕ → ℕ → Bool
quorum_met none n = false
quorum_met (some q) n = leb q n

unfoldable pub attendance_counts : Meeting → List MeetingAttendance → Tally × Bool
attendance_counts m rows =
    let counts = count_rows (filter (λ a. a.meeting == m.pk) rows) no_rows in
    (counts, quorum_met m.quorum counts.n_present)

abbrev pub how_many : (MeetingAttendance → Bool) → List MeetingAttendance → ℕ
how_many p rows = length (filter p rows)

abbrev pub is_absent : AttendanceStatus → Bool
is_absent absent = true
is_absent _ = false

abbrev pub is_excused : AttendanceStatus → Bool
is_excused excused = true
is_excused _ = false

abbrev pub is_not_recorded : AttendanceStatus → Bool
is_not_recorded not_recorded = true
is_not_recorded _ = false

abbrev pub is_accepted : RsvpStatus → Bool
is_accepted accepted = true
is_accepted _ = false

abbrev pub is_declined : RsvpStatus → Bool
is_declined declined = true
is_declined _ = false

-- The figure of each heading after one pass over rows, and that every row has one source and one
-- of the four attendance headings.
abbrev Adds : Tally → List MeetingAttendance → Tally → Type 0
Adds c rows d =
    (d.invited ≡ c.invited + length rows)
    × (d.n_present ≡ c.n_present + how_many is_present rows)
    × (d.n_absent ≡ c.n_absent + how_many (λ a. is_absent a.attendance_status) rows)
    × (d.n_excused ≡ c.n_excused + how_many (λ a. is_excused a.attendance_status) rows)
    × (d.n_not_recorded
        ≡ c.n_not_recorded + how_many (λ a. is_not_recorded a.attendance_status) rows)
    × (d.n_accepted ≡ c.n_accepted + how_many (λ a. is_accepted a.rsvp_status) rows)
    × (d.n_declined ≡ c.n_declined + how_many (λ a. is_declined a.rsvp_status) rows)
    × (d.n_host_group ≡ c.n_host_group + how_many (λ a. is_host_group a.source) rows)
    × (d.required ≡ c.required + how_many (λ a. a.is_required) rows)
    × (d.n_late ≡ c.n_late)
    × (d.n_host_group + d.n_invitee + c.invited ≡ d.invited + c.n_host_group + c.n_invitee)
    × (d.n_present + d.n_absent + d.n_excused + d.n_not_recorded + c.invited
        ≡ d.invited + c.n_present + c.n_absent + c.n_excused + c.n_not_recorded)
    × (d.n_accepted + d.n_declined + c.invited ≤ d.invited + c.n_accepted + c.n_declined)

count_row-Adds : (a : MeetingAttendance) (c : Tally) → Adds c (a ∷ []) (count_row a c)
unfolding count_row count_rsvp count_status count_source count_invited is_present counts_as_present
    is_host_group
count_row-Adds a c = ground arith

how_many_cons :
    (p : MeetingAttendance → Bool) (a : MeetingAttendance) (rest : List MeetingAttendance)
    → how_many p (a ∷ rest) ≡ how_many p (a ∷ []) + how_many p rest
how_many_cons p a rest = ground arith

count_rows-Adds : (rows : List MeetingAttendance) (c : Tally) → Adds c rows (count_rows rows c)
unfolding count_rows
count_rows-Adds [] c = omega arith
count_rows-Adds (a ∷ rest) c =
    let one = count_row-Adds a c in
    let more = count_rows-Adds rest (count_row a c) in
    let split = how_many_cons in
    omega (
      arith,
      one,
      more,
      split is_present a rest,
      split (λ x. is_absent x.attendance_status) a rest,
      split (λ x. is_excused x.attendance_status) a rest,
      split (λ x. is_not_recorded x.attendance_status) a rest,
      split (λ x. is_accepted x.rsvp_status) a rest,
      split (λ x. is_declined x.rsvp_status) a rest,
      split (λ x. is_host_group x.source) a rest,
      split (λ x. x.is_required) a rest,
    )

quorum_met_iff : (q : Option ℕ) (n : ℕ) → quorum_met q n ≡ true ↔ (k : ℕ) × (q ≡ some k) × (k ≤ n)
unfolding quorum_met
quorum_met_iff none n = ((λ h. absurd (ground arith)), (λ (k, e, h). absurd (ground (arith, e))))
quorum_met_iff (some q) n =
    ((λ h. (q, refl, ground arith)), (λ (k, e, h). let same = some_inj e in ground arith))

-- The figures of a meeting, each against the rows of its register: invited is how many rows there
-- are, and present, absent, excused, not recorded, accepted, declined, from the host group and
-- required are each how many rows have that status, answer, source or mark, where present are those
-- whose status is one of PRESENT_STATUSES; the figure for latecomers is 0; the two sources together
-- and the four attendance figures together make the invited; and the quorum is met exactly when one
-- is set and that many are present.
pub attendance_counts-Tally :
    (m : Meeting) (rows : List MeetingAttendance)
    → let (c, met) = attendance_counts m rows in
      let here = filter (λ a. a.meeting == m.pk) rows in
      (c.invited ≡ length here)
      × (c.n_present ≡ how_many is_present here)
      × (c.n_absent ≡ how_many (λ a. is_absent a.attendance_status) here)
      × (c.n_excused ≡ how_many (λ a. is_excused a.attendance_status) here)
      × (c.n_not_recorded ≡ how_many (λ a. is_not_recorded a.attendance_status) here)
      × (c.n_accepted ≡ how_many (λ a. is_accepted a.rsvp_status) here)
      × (c.n_declined ≡ how_many (λ a. is_declined a.rsvp_status) here)
      × (c.n_host_group ≡ how_many (λ a. is_host_group a.source) here)
      × (c.required ≡ how_many (λ a. a.is_required) here)
      × (c.n_host_group + c.n_invitee ≡ c.invited)
      × (c.n_present + c.n_absent + c.n_excused + c.n_not_recorded ≡ c.invited)
      × (c.n_late ≡ 0)
      × (c.n_accepted + c.n_declined ≤ c.invited)
      × (met ≡ true ↔ (k : ℕ) × (m.quorum ≡ some k) × (k ≤ c.n_present))
unfolding attendance_counts
attendance_counts-Tally m rows =
    let here = filter (λ a. a.meeting == m.pk) rows in
    let (a, b, ab, ex, nr, acc, dec, c, d, e, f, g, h) = count_rows-Adds here no_rows in
    (
      omega (arith, a),
      omega (arith, b),
      omega (arith, ab),
      omega (arith, ex),
      omega (arith, nr),
      omega (arith, acc),
      omega (arith, dec),
      omega (arith, c),
      omega (arith, d),
      omega (arith, f),
      omega (arith, g),
      omega (arith, e),
      omega (arith, h),
      quorum_met_iff m.quorum (count_rows here no_rows).n_present,
    )
