-- ===== src/Notifications.antt =====
-- Alerts and their delivery: src/pwms/models/notifications.py and
-- src/pwms/notifications/dispatch.py. An instant is a number of seconds.
pub mod Delivery
pub mod Covered
pub mod Pending
pub mod Recipients
use pwms_project.Prelude.{
  ℕ, ◌+◌, Bool, true, false, not, ◌&&◌, Option, none, some, List, [], ◌∷◌, ◌++◌, String, Key,
  if◌then◌else◌, ◌==◌, nat_eq, string_eq, leb, filter,
}

pub data Channel : Type 0 where
  in_app email_channel : Channel

pub data DeliveryStatus : Type 0 where
  pending sent failed : DeliveryStatus

-- A user as an alert sees it.
pub record Recipient : Type 0 where
  pub pk : ℕ
  pub email : String

-- What the two rows of one alert share.
pub record Message : Type 0 where
  pub recipient : Recipient
  pub kind : String
  pub subject : String
  pub body : String
  pub url : String
  pub actor : Option ℕ
  pub object : Option Key
  pub context : List (String × String)

pub record Notification : Type 0 where
  pub message : Message
  pub channel : Channel
  pub status : DeliveryStatus
  pub sent_at : Option ℕ
  pub read_at : Option ℕ
  pub attempts : ℕ
  pub error : String

-- The table by primary key, the tasks that are queued, and the rows whose mail the server took.
pub record Outbox : Type 0 where
  pub rows : ℕ → Option Notification
  pub next_pk : ℕ
  pub queued : List ℕ
  pub mailed : List ℕ

-- What send_mail does: the server takes the mail, or an exception with this text is raised.
pub data Answer : Type 0 where
  accepted : Answer
  refused : String → Answer

-- How deliver_email ends: no row to deliver, a row that it acted on, or the exception that makes
-- the queue try again.
pub data DeliveryOutcome : Type 0 where
  nothing acted : DeliveryOutcome
  delivery_error : String → DeliveryOutcome

unfoldable pub save_row : ℕ → Notification → Outbox → Outbox
save_row pk r o = record o { rows = λ k. if k == pk then some r else o.rows k }

unfoldable pub is_pending : DeliveryStatus → Bool
is_pending pending = true
is_pending sent = false
is_pending failed = false

unfoldable pub pending_only : Option Notification → Option Notification
pending_only none = none
pending_only (some r) = if is_pending r.status then some r else none

unfoldable pub pending_email_row : ℕ → Outbox → Option Notification
pending_email_row pk o = pending_only (o.rows pk)

unfoldable pub mark_sent : ℕ → Notification → Notification
mark_sent now r = record r { status = sent; sent_at = some now; error = "" }

unfoldable pub mark_failed : String → Notification → Notification
mark_failed reason r = record r { status = failed; error = reason }

unfoldable pub mark_read : ℕ → Notification → Notification
mark_read now r = record r { read_at = elim r.read_at [ some t ↦ some t | none ↦ some now ] }

-- One attempt on a row that has counted it.
unfoldable pub attempt : ℕ → ℕ → Answer → ℕ → Notification → Outbox → DeliveryOutcome × Outbox
attempt max_attempts now accepted pk r o =
    (acted, save_row pk (mark_sent now r) (record o { mailed = o.mailed ++ (pk ∷ []) }))
attempt max_attempts now (refused reason) pk r o =
    if leb max_attempts r.attempts
    then (acted, save_row pk (mark_failed reason r) o)
    else (delivery_error reason, save_row pk (record r { error = reason }) o)

unfoldable pub deliver_email : ℕ → ℕ → Answer → ℕ → Outbox → DeliveryOutcome × Outbox
deliver_email max_attempts now answer pk o = elim (pending_email_row pk o) [
  | none ↦ (nothing, o)
  | some r ↦
      if r.message.recipient.email == ""
      then (acted, save_row pk (mark_failed "recipient has no email address" r) o)
      else attempt max_attempts now answer pk (record r { attempts = r.attempts + 1 }) o
]

unfoldable pub new_notification : Channel → DeliveryStatus → Option ℕ → Message → Notification
new_notification channel status sent_at message = record {
  message = message;
  channel = channel;
  status = status;
  sent_at = sent_at;
  read_at = none;
  attempts = 0;
  error = "";
}

unfoldable pub create_row : Notification → Outbox → Outbox
create_row r o = record (save_row o.next_pk r o) { next_pk = o.next_pk + 1 }

unfoldable pub queue_email : ℕ → Outbox → Outbox
queue_email pk o = record o { queued = o.queued ++ (pk ∷ []) }

unfoldable pub record_alert : ℕ → Message → Outbox → Outbox
record_alert now message o =
    let o₁ = create_row (new_notification in_app sent (some now) message) o in
    if message.recipient.email == ""
    then o₁
    else queue_email o₁.next_pk
        (create_row (new_notification email_channel pending none message) o₁)

unfoldable pub is_actor : Option ℕ → Recipient → Bool
is_actor none u = false
is_actor (some a) u = u.pk == a

-- The message that is rendered for one recipient, addressed to them.
abbrev pub addressed : (Recipient → Message) → Recipient → Message
addressed compose u = record (compose u) { recipient = u }

unfoldable pub record_alerts : ℕ → (Recipient → Message) → List Recipient → Outbox → Outbox
record_alerts now compose [] o = o
record_alerts now compose (u ∷ rest) o =
    record_alerts now compose rest (record_alert now (addressed compose u) o)

-- `compose` renders the text for one recipient.
unfoldable pub alert : ℕ → Option ℕ → (Recipient → Message) → List Recipient → Outbox → Outbox
alert now actor compose recipients o =
    record_alerts now compose (filter (λ u. not (is_actor actor u)) recipients) o
