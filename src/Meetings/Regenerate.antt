-- ===== src/Meetings/Regenerate.antt =====
-- Meeting.regenerate_attendance, src/pwms/models/meetings.py.
use mathlib.Core.List.{Memᴰ}
use pwms_project.Prelude.{
  ℕ, ◌+◌, ◌≡◌, ◌≢◌, refl, sym, ◌∙◌, subst, Bool, true, not, ◌&&◌, Option, none, some, List, [], ◌∷◌,
  ◌++◌, map, ◌==◌, nat_eq, arith, length, filter, exists, contains, Apart, Apart→eq, Apart-filter,
  mem-filter, filter-mem, mem→exists, exists→mem, Bool-cases, inl, inr, beq→eq, beq_refl,
  true-false,
}
use pwms_project.Meetings.{
  MeetingAttendance, Tables, Meeting, Summary, is_generated, is_member, host_members, members_of,
  get_active_members, regenerate_attendance,
}
use pwms_project.Meetings.Creating.{new_rows, missing, with_new_rows, add_members_lem}
use pwms_project.Meetings.Leaving.{leavers, without, keyed_by_user-generated, remove_leavers_lem}
use pwms_project.Meetings.Places.{IsValid, with_new_rows-IsValid, without-IsValid}

members_of-Apart :
    (group : Option ℕ) (s : Tables) → Apart ◌≢◌ s.users → Apart ◌≢◌ (members_of group s)
unfolding members_of get_active_members
members_of-Apart none s d = tt
members_of-Apart (some g) s d = Apart-filter ◌≢◌ _ s.users d

module _ (m : Meeting) (now : ℕ) (s : Tables) where
  abbrev pub joins : List ℕ
  joins = missing m.pk s.attendances (host_members m s)

  abbrev pub leaves : List MeetingAttendance
  leaves = leavers (host_members m s) (filter (is_generated m.pk) s.attendances)

  abbrev pub regenerated : Tables
  regenerated = record s {
    attendances = without leaves (s.attendances ++ new_rows m.pk now s.next_pk joins);
    next_pk = s.next_pk + length joins;
  }

  abbrev pub summary : Summary
  summary = record {
    added = length joins;
    removed = length leaves;
    members = length (host_members m s);
    total = length (filter (λ a. a.meeting == m.pk) regenerated.attendances);
  }

  host_members-Apart : Apart ◌≢◌ s.users → Apart ◌≢◌ (host_members m s)
  unfolding host_members
  host_members-Apart d = members_of-Apart m.host_group s d

  pub regenerate_lem :
      IsValid s
      → regenerate_attendance m now s
        ≡ some (record m { register_generated_at = some now }, regenerated, summary)
  unfolding regenerate_attendance
  regenerate_lem v = ground (
    arith,
    keyed_by_user-generated m.pk s.attendances v.places,
    add_members_lem m.pk now s.attendances (host_members m s) s (host_members-Apart v.accounts)
        (λ u n h. h),
    remove_leavers_lem (host_members m s) (filter (is_generated m.pk) s.attendances)
        (with_new_rows m.pk now joins s),
  )

  pub regenerated-IsValid : IsValid s → IsValid regenerated
  regenerated-IsValid v = without-IsValid leaves (with_new_rows m.pk now joins s) (
      with_new_rows-IsValid m.pk now joins s
        (Apart-filter ◌≢◌ _ (host_members m s) (host_members-Apart v.accounts))
        (λ u n. let (_, e) = mem-filter _ (host_members m s) n in ground (arith, e)) v)

  abbrev pub left : MeetingAttendance → Bool
  left a = is_generated m.pk a && not (is_member (host_members m s) a.user)

  left→mem : {a : MeetingAttendance} → Memᴰ a s.attendances → left a ≡ true → Memᴰ a leaves
  left→mem {a} n h =
      filter-mem _ (filter (is_generated m.pk) s.attendances)
        (filter-mem (is_generated m.pk) s.attendances n (ground (arith, h))) (ground (arith, h))

  pub mem→left : {a : MeetingAttendance} → Memᴰ a leaves → Memᴰ a s.attendances × (left a ≡ true)
  mem→left {a} n =
      let (k, e) = mem-filter _ (filter (is_generated m.pk) s.attendances) n in
      let (h, g) = mem-filter (is_generated m.pk) s.attendances k in (h, ground (arith, e, g))

  pub contains-map :
      (gone : List MeetingAttendance) (pk : ℕ)
      → contains pk (map (λ b. b.pk) gone) ≡ exists (λ b. pk == b.pk) gone
  contains-map [] pk = refl
  contains-map (b ∷ gone) pk = ground (arith, contains-map gone pk)

  -- A row is deleted exactly when it is a generated one of somebody who is no member.
  pub deleted_iff_left :
      IsValid s
      → {a : MeetingAttendance} → Memᴰ a s.attendances
      → contains a.pk (map (λ b. b.pk) leaves) ≡ left a
  deleted_iff_left v {a} n = elim (Bool-cases (left a)) [
    | inl goes ↦
        contains-map leaves a.pk
        ∙ mem→exists (λ b. a.pk == b.pk) leaves (left→mem n goes) (beq_refl a.pk)
        ∙ sym goes
    | inr stays ↦ elim (Bool-cases (contains a.pk (map (λ b. b.pk) leaves))) [
      | inr kept ↦ kept ∙ sym stays
      | inl deleted ↦
          let (b, k, same) =
            exists→mem (λ b. a.pk == b.pk) leaves (sym (contains-map leaves a.pk) ∙ deleted) in
          let (h, goes) = mem→left k in
          let e =
            Apart→eq (λ x y. x.pk ≢ y.pk) s.attendances v.keys n h (λ d. d (beq→eq a.pk b.pk same))
              (λ d. d (sym (beq→eq a.pk b.pk same))) in
          absurd (true-false (subst (λ x. left x ≡ true) (sym e) goes) stays)
    ]
  ]
