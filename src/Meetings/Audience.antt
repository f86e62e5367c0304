-- ===== src/Meetings/Audience.antt =====
-- Who hears of a change of a meeting: Meeting.attendee_users and notification_audience,
-- src/pwms/models/meetings.py.
use pwms_project.Prelude.{
  ℕ, ◌≡◌, refl, ap, Bool, true, false, ◌&&◌, ◌||◌, Option, none, some, List, [], ◌∷◌, if◌then◌else◌,
  ◌==◌, nat_eq, arith, filter, exists, All, mem→All, Once, put_all, put_all-Once, has_key-put_all,
  All-put_all, mem-filter, Bool-cases, inl, inr, beq→eq,
}
use pwms_project.Meetings.{MeetingAttendance, Meeting, on_register}

pub record Account : Type 0 where
  pub pk : ℕ
  pub is_active : Bool

-- The people named on the record of a meeting.
pub record Named : Type 0 where
  pub chaired_by : Option Account
  pub secretary : Option Account
  pub owner : Option Account
  pub assigned_to : Option Account

unfoldable pub attendee_users : Meeting → List MeetingAttendance → List Account → List Account
attendee_users m rows users = filter (λ u. on_register m.pk rows u.pk && u.is_active) users

-- user is not None and user.is_active
unfoldable pub active_only : List (Option Account) → List Account
active_only [] = []
active_only (none ∷ rest) = active_only rest
active_only (some u ∷ rest) =
    let later = active_only rest in if u.is_active then u ∷ later else later

unfoldable pub named_people : Named → List (Option Account)
named_people n = n.chaired_by ∷ n.secretary ∷ n.owner ∷ n.assigned_to ∷ []

unfoldable pub notification_audience :
    Meeting → Named → List MeetingAttendance → List Account → List Account
notification_audience m n rows users =
    put_all (λ u. u.pk) (active_only (named_people n))
      (put_all (λ u. u.pk) (attendee_users m rows users) [])

abbrev pub includes : ℕ → List Account → Bool
includes pk people = exists (λ u. u.pk == pk) people

abbrev pub names : ℕ → Option Account → Bool
names pk none = false
names pk (some u) = u.pk == pk && u.is_active

includes-active_only :
    (pk : ℕ) (people : List (Option Account))
    → includes pk (active_only people) ≡ exists (names pk) people
unfolding active_only
includes-active_only pk [] = refl
includes-active_only pk (none ∷ rest) = includes-active_only pk rest
includes-active_only pk (some u ∷ rest) = ground (arith, includes-active_only pk rest)

All-if :
    (P : Account → Type 0) (b : Bool) (u : Account) (later : List Account)
    → (b ≡ true → P u)
    → All P later
    → All P (if b then u ∷ later else later)
All-if P true u later p h = (p refl, h)
All-if P false u later p h = h

active_only-IsActive :
    (people : List (Option Account)) → All (λ u. u.is_active ≡ true) (active_only people)
unfolding active_only
active_only-IsActive [] = tt
active_only-IsActive (none ∷ rest) = active_only-IsActive rest
active_only-IsActive (some u ∷ rest) =
    All-if (λ w. w.is_active ≡ true) u.is_active u (active_only rest) (λ e. e)
      (active_only-IsActive rest)

attendee_users-IsActive :
    (m : Meeting) (rows : List MeetingAttendance) (users : List Account)
    → All (λ u. u.is_active ≡ true) (attendee_users m rows users)
unfolding attendee_users
attendee_users-IsActive m rows users =
    mem→All (λ u. u.is_active ≡ true) (attendee_users m rows users)
      (λ u n. let (_, e) = mem-filter _ users n in ground (arith, e))

includes-attendee_users :
    (m : Meeting) (rows : List MeetingAttendance) (pk : ℕ) (users : List Account)
    → includes pk (attendee_users m rows users)
      ≡ exists (λ u. u.pk == pk && u.is_active && on_register m.pk rows pk) users
unfolding attendee_users
includes-attendee_users m rows pk [] = refl
includes-attendee_users m rows pk (u ∷ users) = elim (Bool-cases (u.pk == pk)) [
  | inl same ↦ ground (
    arith,
    same,
    ap (on_register m.pk rows) (beq→eq u.pk pk same),
    includes-attendee_users m rows pk users,
  )
  | inr other ↦ ground (arith, other, includes-attendee_users m rows pk users)
]

-- The audience of a meeting lists nobody twice and only active accounts, and includes exactly the
-- active accounts on its register and the active ones that chair, minute, own or are assigned it.
pub notification_audience-Once :
    (m : Meeting) (n : Named) (rows : List MeetingAttendance) (users : List Account)
    → let people = notification_audience m n rows users in
      Once (λ (u : Account). u.pk) people
      × All (λ u. u.is_active ≡ true) people
      × ((pk : ℕ)
          → includes pk people ≡ (
              exists (names pk) (named_people n)
              || exists (λ u. u.pk == pk && u.is_active && on_register m.pk rows pk) users))
unfolding notification_audience
notification_audience-Once m n rows users =
    let attendees = attendee_users m rows users in
    let named = active_only (named_people n) in
    (
      put_all-Once (λ u. u.pk) named (put_all (λ u. u.pk) attendees [])
          (put_all-Once (λ u. u.pk) attendees [] tt),
      All-put_all (λ u. u.pk) (λ u. u.is_active ≡ true) named (put_all (λ u. u.pk) attendees [])
          (active_only-IsActive (named_people n))
          (All-put_all (λ u. u.pk) (λ u. u.is_active ≡ true) attendees []
            (attendee_users-IsActive m rows users) tt),
      (λ pk. ground (
        arith,
        has_key-put_all (λ u. u.pk) pk named (put_all (λ u. u.pk) attendees []),
        has_key-put_all (λ u. u.pk) pk attendees [],
        includes-active_only pk (named_people n),
        includes-attendee_users m rows pk users,
      )),
    )
