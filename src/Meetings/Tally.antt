-- ===== src/Meetings/Tally.antt =====
-- What Meeting.regenerate_attendance of src/pwms/models/meetings.py reports, and what it does
-- when it runs again.
use mathlib.Core.List.{Memᴰ}
use pwms_project.Prelude.{
  ℕ, ◌+◌, ◌≡◌, refl, sym, ap, ◌∙◌, subst, true, not, ◌&&◌, Option, none, some, List, [], ◌∷◌, ◌++◌,
  map, ◌==◌, nat_eq, arith, length, filter, exists, contains, mem-filter, mem→exists, append-nil,
  some_inj, filter_nil, length-append, filter-append, filter-all, filter-agree, inl, inr, beq_refl,
}
use pwms_project.Meetings.{
  MeetingAttendance, Tables, Meeting, Summary, is_generated, is_member, new_row, host_members,
  members_of, get_active_members, regenerate_attendance,
}
use pwms_project.Meetings.Creating.{new_rows}
use pwms_project.Meetings.Leaving.{leavers}
use pwms_project.Meetings.Places.{IsValid}
use pwms_project.Meetings.Regenerate.{
  joins, leaves, regenerated, summary, regenerate_lem, regenerated-IsValid, left, deleted_iff_left,
}
use pwms_project.Meetings.Register.{regenerated-mem, created-kept, member→register, contains-exists}

abbrev pub at_meeting : ℕ → List MeetingAttendance → List MeetingAttendance
at_meeting meeting rows = filter (λ a. a.meeting == meeting) rows

-- The rows that leave and those that stay make up the rows of the meeting.
leavers-count :
    (meeting : ℕ) (members : List ℕ) (rows : List MeetingAttendance)
    → length (at_meeting meeting rows)
      ≡ length (
          at_meeting meeting
            (filter (λ a. not (is_generated meeting a && not (is_member members a.user))) rows))
        + length (leavers members (filter (is_generated meeting) rows))
unfolding is_generated
leavers-count meeting members [] = omega arith
leavers-count meeting members (a ∷ rows) = ground (arith, leavers-count meeting members rows)

new_rows-count :
    (meeting now : ℕ) (us : List ℕ) (pk : ℕ)
    → length (at_meeting meeting (new_rows meeting now pk us)) ≡ length us
unfolding new_rows new_row
new_rows-count meeting now [] pk = refl
new_rows-count meeting now (u ∷ us) pk =
    ground (arith, beq_refl meeting, new_rows-count meeting now us (pk + 1))

ap2_append : {xs ys us vs : List MeetingAttendance} → xs ≡ us → ys ≡ vs → xs ++ ys ≡ us ++ vs
ap2_append h k = cc

members_of-again :
    (group : Option ℕ) (s t : Tables)
    → t.users ≡ s.users
    → t.memberships ≡ s.memberships
    → members_of group t ≡ members_of group s
unfolding members_of get_active_members
members_of-again none s t h k = refl
members_of-again (some g) s t h k =
    λ i. filter (λ u. exists (λ m. m.user == u && m.group == g && m.is_active) (k i)) (h i)

new_rows-is_member :
    (meeting now : ℕ) (members us : List ℕ) (pk : ℕ) {a : MeetingAttendance}
    → ((u : ℕ) → Memᴰ u us → contains u members ≡ true)
    → Memᴰ a (new_rows meeting now pk us)
    → is_member members a.user ≡ true
unfolding new_rows new_row is_member
new_rows-is_member meeting now members [] pk h n = elim n [ ]
new_rows-is_member meeting now members (u ∷ us) pk h (Memᴰ.head e) = rw e (h u (Memᴰ.head refl))
new_rows-is_member meeting now members (u ∷ us) pk h (Memᴰ.tail n) =
    new_rows-is_member meeting now members us (pk + 1) (λ w k. h w (Memᴰ.tail k)) n

module _ (m : Meeting) (now : ℕ) (s : Tables) (v : IsValid s) where
  regenerated-split :
      (regenerated m now s).attendances
      ≡ filter (λ a. not (left m now s a)) s.attendances
        ++ new_rows m.pk now s.next_pk (joins m now s)
  regenerated-split =
      filter-append (λ a. not (contains a.pk (map (λ b. b.pk) (leaves m now s)))) s.attendances
        (new_rows m.pk now s.next_pk (joins m now s))
      ∙ ap2_append
          (filter-agree _ (λ a. not (left m now s a)) s.attendances
            (λ a n. ap not (deleted_iff_left m now s v n)))
          (filter-all _ (new_rows m.pk now s.next_pk (joins m now s))
            (λ a n. ap not (created-kept m now s v n)))

  abbrev again : Meeting
  again = record m { register_generated_at = some now }

  host_members-again : host_members again (regenerated m now s) ≡ host_members m s
  unfolding host_members
  host_members-again = members_of-again m.host_group s (regenerated m now s) refl refl

  member : {u : ℕ} → Memᴰ u (host_members m s) → contains u (host_members m s) ≡ true
  member {u} n =
      contains-exists u (host_members m s)
      ∙ mem→exists (λ w. w == u) (host_members m s) n (beq_refl u)

  members-registered : (later : ℕ) → joins again later (regenerated m now s) ≡ []
  members-registered later =
      (filter_nil _ (host_members again (regenerated m now s))).1
        (λ u n. ap not (member→register m now s v u (member (subst (Memᴰ u) host_members-again n))))

  leavers-gone : (later : ℕ) → leaves again later (regenerated m now s) ≡ []
  leavers-gone later =
      (filter_nil _ (filter (is_generated m.pk) (regenerated m now s).attendances)).1 (λ a n.
        let (k, e) = mem-filter (is_generated m.pk) (regenerated m now s).attendances n in
        ap (λ us. not (is_member us a.user)) host_members-again
        ∙ elim ((regenerated-mem m now s v a).0 k) [
          | inl (_, stays) ↦ ground (arith, stays, e)
          | inr new ↦ ap not (
              new_rows-is_member m.pk now (host_members m s) (joins m now s) s.next_pk
                (λ u h. let (g, _) = mem-filter _ (host_members m s) h in member g) new)
        ])

  regenerated-again :
      (later : ℕ) → regenerated again later (regenerated m now s) ≡ regenerated m now s
  unfolding new_rows
  regenerated-again later =
      rw (members-registered later, leavers-gone later)
        (ground (
          arith,
          append-nil (regenerated m now s).attendances,
          filter-all (λ a. true) (regenerated m now s).attendances (λ a n. refl),
        ))

  total-lem :
      length (at_meeting m.pk s.attendances) + length (joins m now s)
      ≡ (summary m now s).total + length (leaves m now s)
  total-lem =
      rw
        (
          regenerated-split,
          filter-append (λ a. a.meeting == m.pk) (filter (λ a. not (left m now s a)) s.attendances)
              (new_rows m.pk now s.next_pk (joins m now s)),
          length-append (at_meeting m.pk (filter (λ a. not (left m now s a)) s.attendances))
              (at_meeting m.pk (new_rows m.pk now s.next_pk (joins m now s))),
        )
        (omega (
          arith,
          leavers-count m.pk (host_members m s) s.attendances,
          new_rows-count m.pk now (joins m now s) s.next_pk,
        ))

  summary-again :
      (later : ℕ)
      → summary again later (regenerated m now s)
        ≡ record (summary m now s) { added = 0; removed = 0 }
  summary-again later = λ i. record {
    added = length (members-registered later i);
    removed = length (leavers-gone later i);
    members = length (host_members-again i);
    total = length (at_meeting m.pk (regenerated-again later i).attendances);
  }

  runs-again :
      (later : ℕ)
      → regenerate_attendance again later (regenerated m now s)
        ≡ some (
          record again { register_generated_at = some later },
          regenerated m now s,
          record (summary m now s) { added = 0; removed = 0 },
        )
  runs-again later =
      regenerate_lem again later (regenerated m now s) (regenerated-IsValid m now s v) ∙ (λ i.
        some (
          record again { register_generated_at = some later },
          regenerated-again later i,
          summary-again later i,
        ))

module _ (m : Meeting) (now : ℕ) (s : Tables) {m₁ : Meeting} {s₁ : Tables} {done : Summary}
    (v : IsValid s) (ran : regenerate_attendance m now s ≡ some (m₁, s₁, done)) where
  outcome :
      ◌≡◌ {A = Meeting × Tables × Summary}
        (record m { register_generated_at = some now }, regenerated m now s, summary m now s)
        (m₁, s₁, done)
  outcome = some_inj (sym (regenerate_lem m now s v) ∙ ran)

  -- The summary of a regeneration of a valid table: the number of active members of the host
  -- group, the number of rows that the meeting then has, and as many added less removed as that
  -- number has with_new_rows.
  pub regenerate_attendance-summary :
      (done.members ≡ length (host_members m s))
      × (done.total ≡ length (at_meeting m.pk s₁.attendances))
      × (length (at_meeting m.pk s.attendances) + done.added ≡ done.total + done.removed)
  regenerate_attendance-summary =
      subst
        (λ ((n, t, r) : Meeting × Tables × Summary).
          (r.members ≡ length (host_members m s))
          × (r.total ≡ length (at_meeting m.pk t.attendances))
          × (length (at_meeting m.pk s.attendances) + r.added ≡ r.total + r.removed))
        outcome (refl, refl, total-lem m now s v)

  -- A second regeneration of a valid table, at any later instant, adds and removes nothing: it
  -- returns the same tables and summary, with no additions and removals, and stamps the meeting.
  pub regenerate_attendance_again :
      (later : ℕ)
      → regenerate_attendance m₁ later s₁
        ≡ some (
          record m₁ { register_generated_at = some later },
          s₁,
          record done { added = 0; removed = 0 },
        )
  regenerate_attendance_again later =
      subst
        (λ ((n, t, r) : Meeting × Tables × Summary).
          regenerate_attendance n later t
          ≡ some (
            record n { register_generated_at = some later },
            t,
            record r { added = 0; removed = 0 },
          ))
        outcome (runs-again m now s v later)
