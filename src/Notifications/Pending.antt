-- ===== src/Notifications/Pending.antt =====
-- No alert waits without a task that will deliver it: alert and deliver_email,
-- src/pwms/notifications/dispatch.py.
use pwms_project.Prelude.{
  ℕ, ◌+◌, ◌≡◌, ◌≢◌, refl, sym, ap, ◌∙◌, subst, Bool, String, true, false, not, Option, none, some,
  List, [], ◌∷◌, ◌++◌, ◌==◌, nat_eq, string_eq, leb, arith, filter, contains, Bool-cases,
  Option-cases, inl, inr, some_inj, beq→eq, beq_refl,
}
use pwms_project.Notifications.{
  pending, Recipient, Message, Notification, Outbox, Answer, accepted, refused, save_row,
  pending_only, pending_email_row, is_pending, mark_sent, mark_failed, mark_read, attempt,
  deliver_email, DeliveryOutcome, nothing, acted, delivery_error, is_actor, alert,
}
use pwms_project.Notifications.Covered.{
  IsCovered, save_row-IsCovered, row-below, record_alerts-IsCovered, deliver_email-IsCovered,
}

-- Documented of the background queue, for one run of deliver_notification_email: it keeps the tasks
-- of other rows, and it keeps the task of this one, to run it again, if the run raises. (It gives up
-- after as many runs as `max_attempts`, which is the same setting; the row counts every run, so a run
-- that is the last one does not raise.)
pub record Reruns (outcome : DeliveryOutcome) (pk : ℕ) (before after : List ℕ) : Type 0 where
  pub others : (k : ℕ) → (k == pk) ≡ false → contains k before ≡ true → contains k after ≡ true
  pub raised : (reason : String) → outcome ≡ delivery_error reason → contains pk after ≡ true

-- One call: an alert, a run of a task that is queued, or a reading of the bell.
pub data Act : Outbox → Outbox → Type 0 where
  alerted :
      (now : ℕ) (actor : Option ℕ) (compose : Recipient → Message) (recipients : List Recipient)
      {o : Outbox}
      → Act o (alert now actor compose recipients o)
  worked :
      (max_attempts now : ℕ) (answer : Answer) (pk : ℕ) (later : List ℕ) {o : Outbox}
      → contains pk o.queued ≡ true
      → Reruns (deliver_email max_attempts now answer pk o).0 pk o.queued later
      → Act o (record (deliver_email max_attempts now answer pk o).1 { queued = later })
  read :
      (now pk : ℕ) (r : Notification) {o : Outbox}
      → o.rows pk ≡ some r
      → Act o (save_row pk (mark_read now r) o)

pub data Acts (o : Outbox) : Outbox → Type 0 where
  no_act : Acts o o
  then_act : {p q : Outbox} → Acts o p → Act p q → Acts o q

-- The row, if there is one, is not pending.
abbrev IsSettled : ℕ → Outbox → Type 0
IsSettled pk o = (r : Notification) → o.rows pk ≡ some r → r.status ≢ pending

saved-IsSettled :
    (pk : ℕ) (r : Notification) (o : Outbox) → r.status ≢ pending → IsSettled pk (save_row pk r o)
unfolding save_row
saved-IsSettled pk r o settled s e live =
    let same : r ≡ s = some_inj (rw (beq_refl pk) at e) in
    settled (ap (λ (t : Notification). t.status) same ∙ live)

pending_email_row-IsSettled : (pk : ℕ) (o : Outbox) → pending_email_row pk o ≡ none → IsSettled pk o
unfolding pending_email_row pending_only is_pending
pending_email_row-IsSettled pk o h r e live =
    let both : pending_only (some r) ≡ none = ap pending_only (sym e) ∙ h in
    absurd (ground (arith, both, live))

unfoldable returns : DeliveryOutcome → Bool
returns nothing = true
returns acted = true
returns (delivery_error reason) = false

attempt-IsSettled :
    (n now : ℕ) (answer : Answer) (pk : ℕ) (r : Notification) (o : Outbox)
    → returns (attempt n now answer pk r o).0 ≡ true
    → IsSettled pk (attempt n now answer pk r o).1
unfolding attempt mark_sent mark_failed returns
attempt-IsSettled n now accepted pk r o h =
    saved-IsSettled pk (mark_sent now r) (record o { mailed = o.mailed ++ (pk ∷ []) })
      (λ e. absurd (ground (arith, e)))
attempt-IsSettled n now (refused reason) pk r o h = elim (Bool-cases (leb n r.attempts)) [
  | inl last ↦
      rw last (saved-IsSettled pk (mark_failed reason r) o (λ e. absurd (ground (arith, e))))
  | inr more ↦ absurd (ground (arith, more))
]

-- A run that returns leaves its row settled.
deliver_email-IsSettled :
    (n now : ℕ) (answer : Answer) (pk : ℕ) (o : Outbox)
    → returns (deliver_email n now answer pk o).0 ≡ true
    → IsSettled pk (deliver_email n now answer pk o).1
unfolding deliver_email mark_failed
deliver_email-IsSettled n now answer pk o h = elim (Option-cases (pending_email_row pk o)) [
  | inl gone ↦ rw (deliver_email, gone) (pending_email_row-IsSettled pk o gone)
  | inr (r, e) ↦ elim (Bool-cases (r.message.recipient.email == "")) [
    | inl empty ↦
        rw (deliver_email, e, empty)
          (saved-IsSettled pk (mark_failed "recipient has no email address" r) o
            (λ e. absurd (ground (arith, e))))
    | inr full ↦
        rw (deliver_email, e, full)
          (attempt-IsSettled n now answer pk (record r { attempts = r.attempts + 1 }) o
            (rw (deliver_email, e, full) at h))
  ]
]

queued-deliver_email :
    (n now : ℕ) (answer : Answer) (pk : ℕ) (o : Outbox)
    → (deliver_email n now answer pk o).1.queued ≡ o.queued
unfolding deliver_email attempt save_row
queued-deliver_email n now accepted pk o = ground arith
queued-deliver_email n now (refused reason) pk o = ground arith

raised_of :
    (outcome : DeliveryOutcome)
    → returns outcome ≡ false
    → (reason : String) × (outcome ≡ delivery_error reason)
unfolding returns
raised_of nothing h = absurd (ground arith)
raised_of acted h = absurd (ground arith)
raised_of (delivery_error reason) h = (reason, refl)

run-IsCovered :
    (n now : ℕ) (answer : Answer) (pk : ℕ) (later : List ℕ) (o : Outbox)
    → Reruns (deliver_email n now answer pk o).0 pk o.queued later
    → IsCovered o
    → IsCovered (record (deliver_email n now answer pk o).1 { queued = later })
run-IsCovered n now answer pk later o q c =
    let after = deliver_email n now answer pk o in
    let covered = deliver_email-IsCovered n now answer pk o c in
    record {
      unused = covered.unused;
      waiting = λ k r e live.
          let (channel, address, m) = covered.waiting k r e live in
          let before = ap (contains k) (sym (queued-deliver_email n now answer pk o)) ∙ m in
          (
            channel,
            address,
            elim (Bool-cases (k == pk)) [
              | inr other ↦ q.others k other before
              | inl same ↦ elim (Bool-cases (returns after.0)) [
                | inl done ↦ absurd (
                    deliver_email-IsSettled n now answer pk o done r
                      (ap after.1.rows (sym (beq→eq k pk same)) ∙ e) live)
                | inr again ↦
                    let (reason, f) = raised_of after.0 again in
                    subst (λ j. contains j later ≡ true) (sym (beq→eq k pk same))
                      (q.raised reason f)
              ]
            ],
          );
    }

mark_read-IsCovered :
    (now pk : ℕ) (r : Notification) (o : Outbox)
    → o.rows pk ≡ some r
    → IsCovered o
    → IsCovered (save_row pk (mark_read now r) o)
unfolding mark_read
mark_read-IsCovered now pk r o e c =
    save_row-IsCovered pk (mark_read now r) o (row-below o pk r c e) (c.waiting pk r e) c

Act-IsCovered : {o p : Outbox} → Act o p → IsCovered o → IsCovered p
unfolding alert
Act-IsCovered (alerted now actor compose recipients {o}) c =
    record_alerts-IsCovered now compose (filter (λ u. not (is_actor actor u)) recipients) o c
Act-IsCovered (worked n now answer pk later {o} there q) c =
    run-IsCovered n now answer pk later o q c
Act-IsCovered (read now pk r {o} e) c = mark_read-IsCovered now pk r o e c

-- Over any sequence of alerts, runs of queued tasks and readings, where the queue may drop a task
-- whose run returns and keeps one that raises: if no key from the next one on has a row, and every
-- pending row is an email to an address whose task is in the queue, as in the empty table, then so
-- it is afterwards. An alert that is still to be sent never lacks the task that will send it.
pub Acts-IsCovered : {o p : Outbox} → Acts o p → IsCovered o → IsCovered p
Acts-IsCovered no_act c = c
Acts-IsCovered (then_act as_before act) c = Act-IsCovered act (Acts-IsCovered as_before c)
