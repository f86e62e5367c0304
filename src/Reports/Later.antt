-- ===== src/Reports/Later.antt =====
-- The next occurrence of a schedule: next_occurrence and _add_one_month, src/pwms/models/reports.py.
use pwms_project.Prelude.{
  ℕ, zero, suc, ◌+◌, ◌/◌, ◌%◌, ◌≤◌, ◌<◌, ◌≡◌, ◌⊎◌, refl, true, some, ◌==◌, nat_eq, ltb, arith,
  Bool-cases, inl, inr,
}
use pwms_project.Reports.{
  Moment, is_before, days_in, next_day, add_days, add_one_month, Schedule, no_repeat, daily, weekly,
  monthly, next_occurrence, is_scheduled,
}

-- A day of the calendar.
abbrev pub IsDate : Moment → Type 0
IsDate m = (1 ≤ m.month) × (m.month ≤ 12) × (1 ≤ m.day) × (m.day ≤ days_in m.year m.month)

days_in_pos : (year month : ℕ) → 1 ≤ days_in year month
unfolding days_in
days_in_pos year month = ground arith

is_before_trans :
    (a b c : Moment) → is_before a b ≡ true → is_before b c ≡ true → is_before a c ≡ true
unfolding is_before
is_before_trans a b c h k = ground arith

next_day-IsDate : (m : Moment) → IsDate m → IsDate (next_day m)
unfolding next_day
next_day-IsDate m (a, b, c, d) = elim (Bool-cases (ltb m.day (days_in m.year m.month))) [
  | inl within ↦ ground arith
  | inr last ↦ elim (Bool-cases (m.month == 12)) [
    | inl december ↦ let h = days_in_pos (m.year + 1) 1 in ground arith
    | inr other ↦ let h = days_in_pos m.year (m.month + 1) in ground arith
  ]
]

next_day-later : (m : Moment) → IsDate m → is_before m (next_day m) ≡ true
unfolding next_day is_before
next_day-later m (a, b, c, d) = ground arith

-- The month after, in the year after when it is December.
month_after :
    (month : ℕ)
    → 1 ≤ month
    → month ≤ 12
    → ((month / 12 ≡ 1) × (month % 12 + 1 ≡ 1))
      ⊎ ((month / 12 ≡ 0) × (month % 12 + 1 ≡ month + 1) × (month < 12))
month_after month a b = elim (Bool-cases (month == 12)) [
  | inl december ↦ inl (ground arith, ground arith)
  | inr other ↦ inr (ground arith, ground arith, ground arith)
]

add_one_month-IsDate : (m : Moment) → IsDate m → IsDate (add_one_month m)
unfolding add_one_month
add_one_month-IsDate m (a, b, c, d) =
    let h = days_in_pos (m.year + m.month / 12) (m.month % 12 + 1) in
    (omega arith, omega arith, omega arith, omega arith)

add_one_month-later : (m : Moment) → IsDate m → is_before m (add_one_month m) ≡ true
unfolding add_one_month is_before
add_one_month-later m (a, b, c, d) = elim (month_after m.month a b) [
  | inl (e, k) ↦ ground (arith, e, k)
  | inr (e, k, h) ↦ ground (arith, e, k)
]

add_days-IsDate : (n : ℕ) (m : Moment) → IsDate m → IsDate (add_days n m)
unfolding add_days
add_days-IsDate zero m d = d
add_days-IsDate (suc n) m d = add_days-IsDate n (next_day m) (next_day-IsDate m d)

add_days-later : (n : ℕ) (m : Moment) → IsDate m → is_before m (add_days (suc n) m) ≡ true
unfolding add_days
add_days-later zero m d = next_day-later m d
add_days-later (suc n) m d =
    is_before_trans m (next_day m) (add_days (suc n) (next_day m)) (next_day-later m d)
      (add_days-later n (next_day m) (next_day-IsDate m d))

-- After a day of the calendar, a schedule that repeats has a next occurrence, which is a day of the
-- calendar and later.
pub next_occurrence-later :
    (now : Moment) (schedule : Schedule)
    → IsDate now
    → is_scheduled schedule ≡ true
    → (next : Moment) × (next_occurrence now schedule ≡ some next)
      × IsDate next
      × (is_before now next ≡ true)
unfolding next_occurrence is_scheduled
next_occurrence-later now no_repeat d h = absurd (ground (arith, h))
next_occurrence-later now daily d h =
    (add_days 1 now, refl, add_days-IsDate 1 now d, add_days-later 0 now d)
next_occurrence-later now weekly d h =
    (add_days 7 now, refl, add_days-IsDate 7 now d, add_days-later 6 now d)
next_occurrence-later now monthly d h =
    (add_one_month now, refl, add_one_month-IsDate now d, add_one_month-later now d)
