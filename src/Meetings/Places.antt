-- ===== src/Meetings/Places.antt =====
-- The constraints of the attendance table, and who is on it after a regeneration: the rows that
-- Meeting.regenerate_attendance of src/pwms/models/meetings.py deletes and creates.
use mathlib.Core.List.{Memᴰ}
use pwms_project.Prelude.{
  ℕ, ◌+◌, ◌<◌, ◌≡◌, ◌≢◌, refl, sym, subst, false, ◌&&◌, Option, none, some, List, [], ◌∷◌, ◌++◌,
  ◌==◌, nat_eq, arith, All, All-snoc, All-filter, Apart, Apart-filter, Apart-snoc, mem→All, All→mem,
  mem→exists, Bool-cases, inl, inr, beq_refl, true-false,
}
use pwms_project.Meetings.{MeetingAttendance, Tables, same_user, is_user, on_register, new_row}
use pwms_project.Meetings.Creating.{
  with_new_rows, with_new_rows-none, with_new_rows-create, absent_after,
}
use pwms_project.Meetings.Leaving.{TwoPlaces, without}

-- The primary keys are below the next one and differ, no account has two places at a meeting, and
-- the users differ.
pub record IsValid (s : Tables) : Type 0 where
  pub fresh : All (λ a. a.pk < s.next_pk) s.attendances
  pub keys : Apart (λ a b. a.pk ≢ b.pk) s.attendances
  pub places : Apart TwoPlaces s.attendances
  pub accounts : Apart ◌≢◌ s.users

pub same_user-is_user : (o : Option ℕ) (u : ℕ) → same_user o (some u) ≡ is_user u o
unfolding same_user is_user
same_user-is_user none u = refl
same_user-is_user (some v) u = refl

module _ (meeting now : ℕ) where
  abbrev created : ℕ → Tables → Tables
  created u s = record s {
    attendances = s.attendances ++ (new_row s.next_pk meeting now u ∷ []);
    next_pk = s.next_pk + 1;
  }

  one_place :
      (s : Tables) (u : ℕ)
      → on_register meeting s.attendances u ≡ false
      → All (λ a. TwoPlaces a (new_row s.next_pk meeting now u)) s.attendances
  unfolding on_register new_row
  one_place s u absent =
      mem→All (λ a. TwoPlaces a (new_row s.next_pk meeting now u)) s.attendances
        (λ a m same h. elim (Bool-cases (same_user a.user (some u))) [
          | inr other ↦ other
          | inl taken ↦ absurd (
              true-false
                (mem→exists (λ b. b.meeting == meeting && is_user u b.user) s.attendances m
                  (ground (arith, same, taken, beq_refl meeting, same_user-is_user a.user u)))
                absent)
        ])

  created-IsValid :
      (u : ℕ) (s : Tables)
      → on_register meeting s.attendances u ≡ false
      → IsValid s
      → IsValid (created u s)
  unfolding new_row
  created-IsValid u s absent v = record {
    fresh =
        All-snoc (λ a. a.pk < s.next_pk + 1) s.attendances (new_row s.next_pk meeting now u)
          (mem→All (λ a. a.pk < s.next_pk + 1) s.attendances
            (λ a m. let k = All→mem (λ b. b.pk < s.next_pk) s.attendances v.fresh m in omega arith))
          (omega arith);
    keys =
        Apart-snoc (λ a b. a.pk ≢ b.pk) s.attendances (new_row s.next_pk meeting now u) v.keys
          (mem→All (λ a. a.pk ≢ s.next_pk) s.attendances
            (λ a m e.
              let k = All→mem (λ b. b.pk < s.next_pk) s.attendances v.fresh m in omega arith));
    places =
        Apart-snoc TwoPlaces s.attendances (new_row s.next_pk meeting now u) v.places
          (one_place s u absent);
    accounts = v.accounts;
  }

  pub with_new_rows-IsValid :
      (us : List ℕ) (s : Tables)
      → Apart ◌≢◌ us
      → ((u : ℕ) → Memᴰ u us → on_register meeting s.attendances u ≡ false)
      → IsValid s
      → IsValid (with_new_rows meeting now us s)
  with_new_rows-IsValid [] s d h v = subst IsValid (sym (with_new_rows-none meeting now s)) v
  with_new_rows-IsValid (u ∷ us) s (q, d) h v =
      subst IsValid (with_new_rows-create meeting now u us s) (
        with_new_rows-IsValid us (created u s) d
          (λ w m.
            absent_after meeting now s.attendances s.next_pk u w (h w (Memᴰ.tail m))
              (All→mem (λ x. u ≢ x) us q m))
          (created-IsValid u s (h u (Memᴰ.head refl)) v))

pub without-IsValid :
    (gone : List MeetingAttendance) (s : Tables)
    → IsValid s
    → IsValid (record s { attendances = without gone s.attendances })
without-IsValid gone s v = record {
  fresh = All-filter _ _ s.attendances v.fresh;
  keys = Apart-filter _ _ s.attendances v.keys;
  places = Apart-filter _ _ s.attendances v.places;
  accounts = v.accounts;
}
