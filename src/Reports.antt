-- ===== src/Reports.antt =====
-- Report shares: src/pwms/models/reports.py and src/pwms/reporting/sharing.py. A moment is a
-- calendar date and the seconds of its day.
pub mod Later
pub mod Due
pub mod Withdrawn
use pwms_project.Prelude.{
  ℕ, zero, suc, ◌+◌, ◌*◌, ◌/◌, ◌%◌, min, Bool, true, false, not, ◌&&◌, ◌||◌, Option, none, some,
  List, [], ◌∷◌, ◌++◌, String, if◌then◌else◌, ◌==◌, nat_eq, string_eq, ltb, leb, length, filter,
  find, map, sort_where,
}

pub record Moment : Type 0 where
  pub year : ℕ
  pub month : ℕ
  pub day : ℕ
  pub second : ℕ

-- the order of datetime values
unfoldable pub is_before : Moment → Moment → Bool
is_before a b =
    ltb a.year b.year
    || a.year == b.year
      && (ltb a.month b.month
          || a.month == b.month && (ltb a.day b.day || a.day == b.day && ltb a.second b.second))

unfoldable pub is_leap : ℕ → Bool
is_leap year = year % 4 == 0 && (not (year % 100 == 0) || year % 400 == 0)

-- calendar.monthrange(year, month)[1]
unfoldable pub days_in : ℕ → ℕ → ℕ
days_in year month =
    if month == 2
    then if is_leap year then 29 else 28
    else if month == 4 || month == 6 || month == 9 || month == 11
    then 30
    else 31

-- after + timedelta(days=1)
unfoldable pub next_day : Moment → Moment
next_day m =
    if ltb m.day (days_in m.year m.month)
    then record m { day = m.day + 1 }
    else if m.month == 12
    then record m { year = m.year + 1; month = 1; day = 1 }
    else record m { month = m.month + 1; day = 1 }

unfoldable pub add_days : ℕ → Moment → Moment
add_days zero m = m
add_days (suc n) m = add_days n (next_day m)

unfoldable pub add_one_month : Moment → Moment
add_one_month m =
    let year = m.year + m.month / 12 in
    let month = m.month % 12 + 1 in
    record m { year = year; month = month; day = min m.day (days_in year month) }

pub data Schedule : Type 0 where
  no_repeat daily weekly monthly : Schedule

unfoldable pub next_occurrence : Moment → Schedule → Option Moment
next_occurrence after no_repeat = none
next_occurrence after daily = some (add_days 1 after)
next_occurrence after weekly = some (add_days 7 after)
next_occurrence after monthly = some (add_one_month after)

-- `addresses` is recipient_list, the stripped parts of the stored text.
pub record ReportShare : Type 0 where
  pub pk : ℕ
  pub token : String
  pub created_by : Option ℕ
  pub addresses : List String
  pub schedule : Schedule
  pub next_send_at : Option Moment
  pub last_sent_at : Option Moment
  pub send_count : ℕ
  pub last_error : String
  pub expires_at : Option Moment
  pub revoked_at : Option Moment
  pub access_count : ℕ
  pub last_accessed_at : Option Moment

unfoldable pub is_past : Moment → Option Moment → Bool
is_past now none = false
is_past now (some t) = not (is_before now t)

unfoldable pub is_set : Option Moment → Bool
is_set none = false
is_set (some t) = true

unfoldable pub is_active : Moment → ReportShare → Bool
is_active now s = not (is_set s.revoked_at) && not (is_past now s.expires_at)

unfoldable pub is_scheduled : Schedule → Bool
is_scheduled no_repeat = false
is_scheduled daily = true
is_scheduled weekly = true
is_scheduled monthly = true

unfoldable pub is_due : Moment → ReportShare → Bool
is_due now s = is_scheduled s.schedule && is_active now s && is_past now s.next_send_at

unfoldable pub write_share : ℕ → (ReportShare → ReportShare) → List ReportShare → List ReportShare
write_share pk write shares = map (λ s. if s.pk == pk then write s else s) shares

unfoldable pub revoke : ReportShare → Moment → List ReportShare → List ReportShare
revoke s now shares =
    if is_set s.revoked_at
    then shares
    else write_share s.pk (λ r. record r { revoked_at = some now }) shares

unfoldable pub record_access : ReportShare → Moment → List ReportShare → List ReportShare
record_access s now shares =
    write_share s.pk
      (λ r. record r { access_count = s.access_count + 1; last_accessed_at = some now }) shares

-- The columns that one scheduled send writes to the row, from the share that was read.
unfoldable pub delivered : ReportShare → String → Moment → ReportShare → ReportShare
delivered s error now r = record r {
  last_sent_at = some now;
  send_count = s.send_count + 1;
  last_error = error;
  next_send_at = next_occurrence now s.schedule;
}

unfoldable pub record_delivery : ReportShare → String → Moment → List ReportShare → List ReportShare
record_delivery s error now shares = write_share s.pk (delivered s error now) shares

-- How send_share_email ends: none, or the exception's text.
abbrev pub Mailing : Type 0
Mailing = ReportShare → Option String

pub record ScheduledShareDelivery : Type 0 where
  pub share : ℕ
  pub recipients : ℕ
  pub sent : Bool
  pub error : String

unfoldable pub error_of : Option String → String
error_of none = ""
error_of (some reason) = reason

unfoldable pub delivered_to : Option String → ℕ → ℕ
delivered_to none n = n
delivered_to (some reason) n = 0

unfoldable pub is_empty_list : List String → Bool
is_empty_list [] = true
is_empty_list (a ∷ rest) = false

-- A send counts as made when the text of its error is empty.
unfoldable pub send_outcome : Mailing → ReportShare → ScheduledShareDelivery
send_outcome mailing s =
    if is_empty_list s.addresses
    then record { share = s.pk; recipients = 0; sent = false; error = "share has no recipients" }
    else record {
      share = s.pk;
      recipients = delivered_to (mailing s) (length s.addresses);
      sent = error_of (mailing s) == "";
      error = error_of (mailing s);
    }

unfoldable pub deliver_scheduled_share :
    Mailing → Moment → ReportShare → List ReportShare → ScheduledShareDelivery × List ReportShare
deliver_scheduled_share mailing now s shares =
    (send_outcome mailing s, record_delivery s (send_outcome mailing s).error now shares)

unfoldable pub deliver_all :
    Mailing
    → Moment
    → List ReportShare
    → List ReportShare
    → List ScheduledShareDelivery × List ReportShare
deliver_all mailing now [] shares = ([], shares)
deliver_all mailing now (s ∷ rest) shares =
    let (done, after) = deliver_scheduled_share mailing now s shares in
    let (results, last) = deliver_all mailing now rest after in (done ∷ results, last)

-- ORDER BY next_send_at, id; a share with no next_send_at is not due.
unfoldable pub comes_first : ReportShare → ReportShare → Bool
comes_first a b = elim a.next_send_at [
  | none ↦ true
  | some t ↦ elim b.next_send_at [
    | none ↦ false
    | some u ↦ is_before t u || not (is_before u t) && ltb a.pk b.pk
  ]
]

unfoldable pub due_scheduled_shares : Moment → List ReportShare → List ReportShare
due_scheduled_shares now shares = sort_where comes_first (filter (is_due now) shares)

unfoldable pub send_scheduled_shares :
    Mailing → Moment → List ReportShare → List ScheduledShareDelivery × List ReportShare
send_scheduled_shares mailing now shares =
    deliver_all mailing now (due_scheduled_shares now shares) shares

unfoldable pub resolve_share : String → List ReportShare → Option ReportShare
resolve_share token shares = if token == "" then none else find (λ s. s.token == token) shares

-- The answers of the view report_shared.
pub data Page : Type 0 where
  not_found inactive unreadable : Page
  report_of : ℕ → Page

unfoldable pub open_share : String → Moment → List ReportShare → Page × List ReportShare
open_share token now shares = elim (resolve_share token shares) [
  | none ↦ (not_found, shares)
  | some s ↦ if not (is_active now s) then (inactive, shares) else elim s.created_by [
    | none ↦ (unreadable, shares)
    | some creator ↦ (report_of creator, record_access s now shares)
  ]
]
