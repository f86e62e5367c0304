-- ===== src/Meetings/Leaving.antt =====
-- Members who leave the register: the second loop of Meeting.regenerate_attendance,
-- src/pwms/models/meetings.py.
use pwms_project.Prelude.{
  ℕ, ◌≡◌, refl, sym, ◌∙◌, subst, true, false, not, Option, none, some, List, [], ◌∷◌, ◌++◌, map,
  ◌==◌, nat_eq, arith, length, filter, contains, All, Apart, Apart-filter, Apart-middle,
  Apart-weaken, mem-filter, Bool-cases, inl, inr, append-nil, append_assoc,
}
use pwms_project.Meetings.{
  MeetingAttendance, Tables, has_user, same_user, is_generated, put_row, keyed_by_user, is_member,
  drop_row, remove_leavers,
}

-- Two rows give no account two places at one meeting.
abbrev pub TwoPlaces : MeetingAttendance → MeetingAttendance → Type 0
TwoPlaces a b = a.meeting ≡ b.meeting → has_user a.user ≡ true → same_user a.user b.user ≡ false

same_user_sym : (u v : Option ℕ) → same_user u v ≡ same_user v u
unfolding same_user
same_user_sym none none = refl
same_user_sym none (some v) = refl
same_user_sym (some u) none = refl
same_user_sym (some u) (some v) = ground arith

put_row-new :
    (a : MeetingAttendance) (acc : List MeetingAttendance)
    → All (λ b. same_user b.user a.user ≡ false) acc
    → put_row a acc ≡ acc ++ (a ∷ [])
unfolding put_row
put_row-new a [] h = refl
put_row-new a (b ∷ acc) (q, h) = ground (arith, q, same_user_sym a.user b.user, put_row-new a acc h)

keyed_by_user-all :
    (rows acc : List MeetingAttendance)
    → Apart (λ a b. same_user a.user b.user ≡ false) (acc ++ rows)
    → keyed_by_user acc rows ≡ acc ++ rows
unfolding keyed_by_user
keyed_by_user-all [] acc h = sym (append-nil acc)
keyed_by_user-all (a ∷ rows) acc h =
    rw (put_row-new a acc (Apart-middle (λ a b. same_user a.user b.user ≡ false) acc a rows h)) (
      keyed_by_user-all rows (acc ++ (a ∷ [])) (
        subst (Apart (λ a b. same_user a.user b.user ≡ false))
          (sym (append_assoc acc (a ∷ []) rows)) h)
      ∙ append_assoc acc (a ∷ []) rows)

-- The dict by user loses no generated row of a register that gives nobody two places.
pub keyed_by_user-generated :
    (meeting : ℕ) (rows : List MeetingAttendance)
    → Apart TwoPlaces rows
    → keyed_by_user [] (filter (is_generated meeting) rows) ≡ filter (is_generated meeting) rows
unfolding is_generated
keyed_by_user-generated meeting rows h = keyed_by_user-all (filter (is_generated meeting) rows) [] (
    Apart-weaken TwoPlaces (λ a b. same_user a.user b.user ≡ false)
      (filter (is_generated meeting) rows)
      (λ a b m n two.
        two
          (let (_, p) = mem-filter (is_generated meeting) rows m in
            let (_, q) = mem-filter (is_generated meeting) rows n in ground (arith, p, q))
          (let (_, p) = mem-filter (is_generated meeting) rows m in ground (arith, p)))
      (Apart-filter TwoPlaces (is_generated meeting) rows h))

abbrev pub leavers : List ℕ → List MeetingAttendance → List MeetingAttendance
leavers members rows = filter (λ a. not (is_member members a.user)) rows

abbrev pub without : List MeetingAttendance → List MeetingAttendance → List MeetingAttendance
without gone rows = filter (λ a. not (contains a.pk (map (λ b. b.pk) gone))) rows

without-none : (rows : List MeetingAttendance) → without [] rows ≡ rows
without-none [] = refl
without-none (a ∷ rows) = ground (arith, without-none rows)

without-both :
    (b : MeetingAttendance) (gone rows : List MeetingAttendance)
    → without gone (filter (λ a. not (a.pk == b.pk)) rows) ≡ without (b ∷ gone) rows
without-both b gone [] = refl
without-both b gone (a ∷ rows) = elim (Bool-cases (a.pk == b.pk)) [
  | inl same ↦ ground (arith, same, without-both b gone rows)
  | inr other ↦ ground (arith, other, without-both b gone rows)
]

pub remove_leavers_lem :
    (members : List ℕ) (rows : List MeetingAttendance) (s : Tables)
    → remove_leavers members rows s ≡ (
      length (leavers members rows),
      record s { attendances = without (leavers members rows) s.attendances },
    )
unfolding remove_leavers drop_row
remove_leavers_lem members [] s = ground (arith, without-none s.attendances)
remove_leavers_lem members (a ∷ rows) s = elim (Bool-cases (is_member members a.user)) [
  | inl stays ↦ ground (arith, stays, remove_leavers_lem members rows s)
  | inr leaves ↦ ground (
    arith,
    leaves,
    remove_leavers_lem members rows
        (record s { attendances = filter (λ b. not (b.pk == a.pk)) s.attendances }),
    without-both a (leavers members rows) s.attendances,
  )
]
