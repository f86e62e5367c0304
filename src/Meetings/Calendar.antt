-- ===== src/Meetings/Calendar.antt =====
-- When a meeting takes place: the time properties of Meeting and MeetingQuerySet,
-- src/pwms/models/meetings.py.
use pwms_project.Prelude.{
  ℕ, ◌≤◌, ◌≡◌, ◌↔◌, Bool, true, false, ◌&&◌, Option, none, some, List, String, if◌then◌else◌, ◌==◌,
  string_eq, ltb, leb, arith, filter,
}

pub record CurrentState : Type 0 where
  pub slug : String
  pub is_terminal : Bool

pub record Sitting : Type 0 where
  pub start_datetime : ℕ
  pub end_datetime : Option ℕ
  pub current_state : CurrentState

-- end_datetime or start_datetime
unfoldable pub end_from : ℕ → Option ℕ → ℕ
end_from start none = start
end_from start (some end) = end

unfoldable pub end_of : Sitting → ℕ
end_of m = end_from m.start_datetime m.end_datetime

unfoldable pub is_upcoming : ℕ → Sitting → Bool
is_upcoming now m = ltb now m.start_datetime

unfoldable pub is_running : ℕ → Sitting → Bool
is_running now m = leb m.start_datetime now && leb now (end_of m)

unfoldable pub is_finished : ℕ → Sitting → Bool
is_finished now m = ltb (end_of m) now

pub data CalendarState : Type 0 where
  cancelled closed running past scheduled : CalendarState

unfoldable pub calendar_state : ℕ → Sitting → CalendarState
calendar_state now m =
    if m.current_state.is_terminal
    then if m.current_state.slug == "cancelled" then cancelled else closed
    else if is_running now m
    then running
    else if is_finished now m
    then past
    else scheduled

-- MeetingQuerySet.in_period, by the day of the start
unfoldable pub in_period : ℕ → ℕ → (ℕ → ℕ) → List Sitting → List Sitting
in_period start end day meetings =
    filter (λ m. leb start (day m.start_datetime) && leb (day m.start_datetime) end) meetings

-- A meeting in a state that is not terminal and whose end is not before its start is scheduled
-- exactly while it is upcoming, running exactly while it is underway, and past exactly once it is
-- finished, at every instant.
pub calendar_state-phase :
    (now : ℕ) (m : Sitting)
    → m.current_state.is_terminal ≡ false
    → m.start_datetime ≤ end_of m
    → (calendar_state now m ≡ scheduled ↔ is_upcoming now m ≡ true)
      × (calendar_state now m ≡ running ↔ is_running now m ≡ true)
      × (calendar_state now m ≡ past ↔ is_finished now m ≡ true)
unfolding calendar_state is_upcoming is_running is_finished
calendar_state-phase now m live h = ground arith
