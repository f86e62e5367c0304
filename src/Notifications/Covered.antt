-- ===== src/Notifications/Covered.antt =====
-- The rows that are pending and the tasks in the queue: what an alert and an attempt to deliver keep of
-- them, src/pwms/notifications/dispatch.py.
use pwms_project.Prelude.{
  ℕ, ◌+◌, ◌≤◌, ◌<◌, ◌≡◌, ◌≢◌, refl, sym, ap, ◌∙◌, subst, true, ◌||◌, none, some, List, [], ◌∷◌,
  ◌++◌, ◌==◌, nat_eq, string_eq, leb, arith, contains, Bool-cases, Option-cases, inl, inr, some_inj,
  beq→eq, beq_differ,
}
use pwms_project.Notifications.{
  in_app, email_channel, DeliveryStatus, pending, sent, failed, Recipient, Message, Notification,
  Outbox, Answer, accepted, refused, save_row, pending_only, pending_email_row, is_pending,
  mark_sent, mark_failed, attempt, deliver_email, new_notification, create_row, queue_email,
  record_alert, addressed, record_alerts,
}

-- What is asked of a row: if it is pending it is an email to an address, and its task is queued.
abbrev pub IsQueued : List ℕ → ℕ → Notification → Type 0
IsQueued queued pk r =
    r.status ≡ pending
    → (r.channel ≡ email_channel) × (r.message.recipient.email ≢ "") × (contains pk queued ≡ true)

pub record IsCovered (o : Outbox) : Type 0 where
  pub unused : (k : ℕ) → o.next_pk ≤ k → o.rows k ≡ none
  pub waiting : (k : ℕ) (r : Notification) → o.rows k ≡ some r → IsQueued o.queued k r

pub save_row-IsCovered :
    (pk : ℕ) (r : Notification) (o : Outbox)
    → pk < o.next_pk
    → IsQueued o.queued pk r
    → IsCovered o
    → IsCovered (save_row pk r o)
unfolding save_row
save_row-IsCovered pk r o below q c = record {
  unused = λ k h. let e = c.unused k h in ground arith;
  waiting = λ k s e. elim (Bool-cases (k == pk)) [
    | inl same ↦
        subst (λ t. IsQueued o.queued k t) {x = r} {y = s} (some_inj (ground (arith, same)))
          (subst (λ j. IsQueued o.queued j r) (sym (beq→eq k pk same)) q)
    | inr other ↦ c.waiting k s (ground (arith, other))
  ];
}

pub row-below :
    (o : Outbox) (pk : ℕ) (r : Notification) → IsCovered o → o.rows pk ≡ some r → pk < o.next_pk
row-below o pk r c e = elim (Bool-cases (leb o.next_pk pk)) [
  | inl above ↦ let h = c.unused pk (ground arith) in absurd (ground (arith, h))
  | inr below ↦ ground arith
]

contains-snoc : (k pk : ℕ) (xs : List ℕ) → contains k (xs ++ (pk ∷ [])) ≡ (contains k xs || k == pk)
contains-snoc k pk [] = ground arith
contains-snoc k pk (x ∷ xs) = ground (arith, contains-snoc k pk xs)

IsQueued-snoc :
    (queued : List ℕ) (pk k : ℕ) (r : Notification)
    → IsQueued queued k r
    → IsQueued (queued ++ (pk ∷ [])) k r
IsQueued-snoc queued pk k r h e =
    let (channel, address, m) = h e in
    (channel, address, contains-snoc k pk queued ∙ ground (arith, m))

create_row-IsCovered :
    (r : Notification) (o : Outbox) → r.status ≢ pending → IsCovered o → IsCovered (create_row r o)
unfolding create_row save_row
create_row-IsCovered r o settled c = record {
  unused = λ k h. let e = c.unused k (omega arith) in ground arith;
  waiting = λ k s e. elim (Bool-cases (k == o.next_pk)) [
    | inl same ↦ λ live.
        absurd
          (settled (ap (λ t. t.status) (some_inj {x = r} {y = s} (ground (arith, same))) ∙ live))
    | inr other ↦ c.waiting k s (ground (arith, other))
  ];
}

create_queued-IsCovered :
    (message : Message) (o : Outbox)
    → message.recipient.email ≢ ""
    → IsCovered o
    → IsCovered
        (queue_email o.next_pk (create_row (new_notification email_channel pending none message) o))
unfolding create_row save_row queue_email new_notification
create_queued-IsCovered message o address c = record {
  unused = λ k h. let e = c.unused k (omega arith) in ground arith;
  waiting = λ k s e. elim (Bool-cases (k == o.next_pk)) [
    | inl same ↦
        subst (λ t. IsQueued (o.queued ++ (o.next_pk ∷ [])) k t)
          {x = new_notification email_channel pending none message} {y = s}
          (some_inj (ground (arith, same)))
          (λ live. (refl, address, contains-snoc k o.next_pk o.queued ∙ ground (arith, same)))
    | inr other ↦ IsQueued-snoc o.queued o.next_pk k s (c.waiting k s (ground (arith, other)))
  ];
}

record_alert-IsCovered :
    (now : ℕ) (message : Message) (o : Outbox)
    → IsCovered o
    → IsCovered (record_alert now message o)
unfolding record_alert new_notification
record_alert-IsCovered now message o c =
    let first =
      create_row-IsCovered (new_notification in_app sent (some now) message) o
        (λ e. absurd (ground (arith, e))) c in
    elim (Bool-cases (message.recipient.email == "")) [
      | inl none_given ↦ rw none_given first
      | inr given ↦
          rw given
            (create_queued-IsCovered message _ (beq_differ message.recipient.email "" given) first)
    ]

pub record_alerts-IsCovered :
    (now : ℕ) (compose : Recipient → Message) (us : List Recipient) (o : Outbox)
    → IsCovered o
    → IsCovered (record_alerts now compose us o)
unfolding record_alerts
record_alerts-IsCovered now compose [] o c = c
record_alerts-IsCovered now compose (u ∷ us) o c =
    record_alerts-IsCovered now compose us (record_alert now (addressed compose u) o)
      (record_alert-IsCovered now (addressed compose u) o c)

with_mail-IsCovered :
    (mailed : List ℕ) (o : Outbox) → IsCovered o → IsCovered (record o { mailed = mailed })
with_mail-IsCovered mailed o c = record { unused = c.unused; waiting = c.waiting }

is_pending→eq : (status : DeliveryStatus) → is_pending status ≡ true → status ≡ pending
unfolding is_pending
is_pending→eq pending h = refl
is_pending→eq sent h = absurd (ground arith)
is_pending→eq failed h = absurd (ground arith)

pending_row :
    (pk : ℕ) (o : Outbox) (r : Notification)
    → pending_email_row pk o ≡ some r
    → (o.rows pk ≡ some r) × (r.status ≡ pending)
unfolding pending_email_row pending_only
pending_row pk o r h = elim (Option-cases (o.rows pk)) [
  | inl gone ↦ absurd (ground (arith, gone))
  | inr (s, e) ↦ elim (Bool-cases (is_pending s.status)) [
    | inr settled ↦ absurd (ground (arith, e, settled))
    | inl live ↦
        let same : s ≡ r = some_inj (ground (arith, e, live)) in
        (e ∙ ap some same, ap (λ t. t.status) (sym same) ∙ is_pending→eq s.status live)
  ]
]

attempt-IsCovered :
    (max_attempts now : ℕ) (answer : Answer) (pk : ℕ) (r : Notification) (o : Outbox)
    → pk < o.next_pk
    → IsQueued o.queued pk r
    → IsCovered o
    → IsCovered (attempt max_attempts now answer pk r o).1
unfolding attempt mark_sent mark_failed
attempt-IsCovered n now accepted pk r o below q c =
    save_row-IsCovered pk (mark_sent now r) (record o { mailed = o.mailed ++ (pk ∷ []) }) below
      (λ e. absurd (ground (arith, e))) (with_mail-IsCovered (o.mailed ++ (pk ∷ [])) o c)
attempt-IsCovered n now (refused reason) pk r o below q c = elim (Bool-cases (leb n r.attempts)) [
  | inl last ↦
      rw last
        (save_row-IsCovered pk (mark_failed reason r) o below (λ e. absurd (ground (arith, e))) c)
  | inr more ↦ rw more (save_row-IsCovered pk (record r { error = reason }) o below q c)
]

pub deliver_email-IsCovered :
    (max_attempts now : ℕ) (answer : Answer) (pk : ℕ) (o : Outbox)
    → IsCovered o
    → IsCovered (deliver_email max_attempts now answer pk o).1
unfolding deliver_email mark_failed
deliver_email-IsCovered n now answer pk o c = elim (Option-cases (pending_email_row pk o)) [
  | inl gone ↦ rw (deliver_email, gone) c
  | inr (r, e) ↦
      let (row, live) = pending_row pk o r e in
      let below = row-below o pk r c row in
      elim (Bool-cases (r.message.recipient.email == "")) [
        | inl empty ↦
            rw (deliver_email, e, empty)
              (save_row-IsCovered pk (mark_failed "recipient has no email address" r) o below
                (λ e. absurd (ground (arith, e))) c)
        | inr full ↦
            rw (deliver_email, e, full)
              (attempt-IsCovered n now answer pk (record r { attempts = r.attempts + 1 }) o below
                (c.waiting pk r row) c)
      ]
]
