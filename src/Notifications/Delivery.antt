-- ===== src/Notifications/Delivery.antt =====
-- The attempts to deliver one email row, over whatever the mail server answers: deliver_email,
-- src/pwms/notifications/dispatch.py.
use text.Mathlib.TextEquality.{eq_iff}
use pwms_project.Prelude.{
  ℕ, zero, suc, ◌+◌, ◌-◌, ◌≤◌, ◌<◌, ◌≡◌, ◌≢◌, ◌↔◌, refl, sym, ap, ◌∙◌, Bool, true, false, none,
  some, List, [], ◌∷◌, ◌++◌, String, nat_eq, string_eq, leb, max, arith, length, exists, Bool-cases,
  inl, inr, beq_refl, append-nil,
}
use pwms_project.Notifications.{
  DeliveryStatus, pending, sent, failed, Notification, Outbox, Answer, accepted, refused, save_row,
  pending_only, pending_email_row, is_pending, mark_sent, mark_failed, attempt, deliver_email,
}

-- The runs of the task of one row: an instant and an answer of the server each.
unfoldable pub deliveries : ℕ → ℕ → List (ℕ × Answer) → Outbox → Outbox
deliveries max_attempts pk [] o = o
deliveries max_attempts pk ((now, answer) ∷ rest) o =
    deliveries max_attempts pk rest (deliver_email max_attempts now answer pk o).1

abbrev pub first : ℕ → List (ℕ × Answer) → List (ℕ × Answer)
first zero xs = []
first (suc n) [] = []
first (suc n) (x ∷ xs) = x ∷ first n xs

abbrev pub takes_it : ℕ × Answer → Bool
takes_it (now, accepted) = true
takes_it (now, refused reason) = false

-- The number of attempts that a row has left, which is at least one.
abbrev pub attempts_left : ℕ → ℕ → ℕ
attempts_left max_attempts made = max 1 (max_attempts - made)

settled_stays :
    (max_attempts pk : ℕ) (runs : List (ℕ × Answer)) (o : Outbox)
    → pending_email_row pk o ≡ none
    → deliveries max_attempts pk runs o ≡ o
unfolding deliveries deliver_email
settled_stays n pk [] o h = refl
settled_stays n pk ((now, answer) ∷ runs) o h = ground (arith, h, settled_stays n pk runs o h)

abbrev pub mail_of : ℕ → DeliveryStatus → List ℕ
mail_of pk sent = pk ∷ []
mail_of pk pending = []
mail_of pk failed = []

-- How the runs leave a row that was pending, with the list of the mails sent.
pub record Delivered (max_attempts pk : ℕ) (runs : List (ℕ × Answer)) (r r₁ : Notification)
    (o o₁ : Outbox) : Type 0 where
  pub found : o₁.rows pk ≡ some r₁
  pub sent_iff :
      r₁.status ≡ sent ↔ exists takes_it (first (attempts_left max_attempts r.attempts) runs) ≡ true
  pub pending_if : r₁.status ≡ pending → length runs < attempts_left max_attempts r.attempts
  pub mails : o₁.mailed ≡ o.mailed ++ mail_of pk r₁.status
  pub others : (k : ℕ) → k ≢ pk → o₁.rows k ≡ o.rows k

module _ (n now pk : ℕ) (o : Outbox) (r : Notification) (row : o.rows pk ≡ some r)
    (live : r.status ≡ pending) (address : r.message.recipient.email ≢ "") where
  abbrev counted : Notification
  counted = record r { attempts = r.attempts + 1 }

  deliver-accepted :
      (deliver_email n now accepted pk o).1
      ≡ save_row pk (mark_sent now counted) (record o { mailed = o.mailed ++ (pk ∷ []) })
  unfolding deliver_email pending_email_row pending_only is_pending attempt
  deliver-accepted = ground (arith, row, live, eq_iff r.message.recipient.email "")

  deliver-last :
      (reason : String)
      → leb n (r.attempts + 1) ≡ true
      → (deliver_email n now (refused reason) pk o).1 ≡ save_row pk (mark_failed reason counted) o
  unfolding deliver_email pending_email_row pending_only is_pending attempt
  deliver-last reason h = ground (arith, row, live, eq_iff r.message.recipient.email "")

  deliver-retry :
      (reason : String)
      → leb n (r.attempts + 1) ≡ false
      → (deliver_email n now (refused reason) pk o).1
        ≡ save_row pk (record counted { error = reason }) o
  unfolding deliver_email pending_email_row pending_only is_pending attempt
  deliver-retry reason h = ground (arith, row, live, eq_iff r.message.recipient.email "")

first-none : (k : ℕ) → first k [] ≡ []
first-none zero = refl
first-none (suc k) = refl

accepts-first :
    (k now : ℕ) (runs : List (ℕ × Answer))
    → 1 ≤ k
    → exists takes_it (first k ((now, accepted) ∷ runs)) ≡ true
accepts-first zero now runs h = absurd (omega arith)
accepts-first (suc k) now runs h = refl

refuses-first :
    (k now : ℕ) (reason : String) (runs : List (ℕ × Answer))
    → exists takes_it (first (suc k) ((now, refused reason) ∷ runs))
      ≡ exists takes_it (first k runs)
refuses-first k now reason runs = refl

left-one : (n made : ℕ) → leb n (made + 1) ≡ true → attempts_left n made ≡ 1
left-one n made h = ground arith

left-more :
    (n made : ℕ)
    → leb n (made + 1) ≡ false
    → attempts_left n made ≡ suc (attempts_left n (made + 1))
left-more n made h = ground arith

-- A pending row with an address, over any sequence of runs of its task, whatever the mail server
-- answers: the mail goes out exactly when one of the attempts that the row has left, at least one,
-- is accepted, and then once; the row is pending only while there have been fewer runs than that;
-- and no other row changes. So enough runs always settle it as sent or as failed.
pub deliver_once :
    (max_attempts pk : ℕ) (runs : List (ℕ × Answer)) (o : Outbox) (r : Notification)
    → o.rows pk ≡ some r
    → r.status ≡ pending
    → r.message.recipient.email ≢ ""
    → (r₁ : Notification) × Delivered max_attempts pk runs r r₁ o
        (deliveries max_attempts pk runs o)
unfolding deliveries save_row mark_sent mark_failed pending_email_row pending_only is_pending
deliver_once n pk [] o r row live address = (
  r,
  record {
    found = row;
    sent_iff = ground (arith, live, first-none (attempts_left n r.attempts));
    pending_if = λ e. ground arith;
    mails = sym (ap (λ st. o.mailed ++ mail_of pk st) live ∙ append-nil o.mailed);
    others = λ k h. refl;
  },
)
deliver_once n pk ((now, accepted) ∷ runs) o r row live address =
    let r₁ = mark_sent now (record r { attempts = r.attempts + 1 }) in
    let o₁ = save_row pk r₁ (record o { mailed = o.mailed ++ (pk ∷ []) }) in
    let stays = settled_stays n pk runs o₁ (ground (arith, beq_refl pk)) in
    (
      r₁,
      rw (deliver-accepted n now pk o r row live address, stays)
          record {
            found = ground (arith, beq_refl pk);
            sent_iff = (
              (λ e. accepts-first (attempts_left n r.attempts) now runs (ground arith)),
              (λ e. refl),
            );
            pending_if = λ e. absurd (ground (arith, e));
            mails = refl;
            others = λ k h. ground arith;
          },
    )
deliver_once n pk ((now, refused reason) ∷ runs) o r row live address =
    elim (Bool-cases (leb n (r.attempts + 1))) [
      | inl last ↦
          let r₁ = mark_failed reason (record r { attempts = r.attempts + 1 }) in
          let stays = settled_stays n pk runs (save_row pk r₁ o) (ground (arith, beq_refl pk)) in
          (
            r₁,
            rw (deliver-last n now pk o r row live address reason last, stays)
                record {
                  found = ground (arith, beq_refl pk);
                  sent_iff =
                      rw (left-one n r.attempts last)
                        ((λ e. absurd (ground (arith, e))), (λ e. absurd (ground (arith, e))));
                  pending_if = λ e. absurd (ground (arith, e));
                  mails = sym (append-nil o.mailed);
                  others = λ k h. ground arith;
                },
          )
      | inr more ↦
          let r₁ = record r { attempts = r.attempts + 1; error = reason } in
          let o₁ = save_row pk r₁ o in
          let (r₂, d) = deliver_once n pk runs o₁ r₁ (ground (arith, beq_refl pk)) live address in
          (
            r₂,
            rw (deliver-retry n now pk o r row live address reason more) record {
              found = d.found;
              sent_iff = rw (left-more n r.attempts more) d.sent_iff;
              pending_if =
                  λ e. let h = d.pending_if e in ground (arith, left-more n r.attempts more);
              mails = d.mails;
              others = λ k h. d.others k h ∙ ground arith;
            },
          )
    ]
