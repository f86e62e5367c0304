-- ===== src/Examples/Alerts.antt =====
-- A report moves and its officers are told: the theorems on src/pwms/notifications/dispatch.py.
use text.Mathlib.TextEquality.{eq_iff}
use pwms_project.Prelude.{
  put_all, put_keyed, ℕ, ◌≡◌, ◌||◌, ◌&&◌, ◌⊎◌, refl, true, false, none, some, [], ◌∷◌, exists, All,
  Once, has_key, arith, contains, nat_eq,
}
use pwms_project.Resolver.{World, resolve, resolve_workflow, guarded, is_manage}
use pwms_project.Notifications.{
  Recipient, Message, Notification, Outbox, accepted, refused, email_channel, pending, save_row,
  new_notification, alert, deliver_email, is_actor, record_alerts, record_alert, create_row,
  queue_email, attempt, pending_email_row, pending_only, is_pending,
}
use pwms_project.Notifications.Delivery.{Delivered, deliveries, deliver_once}
use pwms_project.Notifications.Covered.{IsCovered}
use pwms_project.Notifications.Pending.{no_act, then_act, alerted, worked, Reruns, Acts-IsCovered}
use pwms_project.Notifications.Recipients.{
  visible, candidates, officers, role_holders, person_of, Person, as_recipient, person_pk,
  stakeholders, may_be_told, told, is_officer, is_subscriber, named, stakeholders-Once,
  alert-stakeholders,
}
use pwms_project.Examples.Data.{report, reports, flat}

abbrev officer : Person
officer = record {
  user = record {
    pk = 3;
    is_authenticated = true;
    is_superuser = true;
    memberships =
        record {
          group = 5;
          role = record {
            pk = 1;
            can_transition_workflows = true;
            can_create_workflows = true;
            can_assign_workflows = false;
            can_manage_permissions = false;
          };
          is_active = true;
        }
        ∷ [];
  };
  account_active = true;
  email = "officer@parliament";
}

abbrev world : World
world = record { tree = flat; accesses = [] }

abbrev message : Recipient → Message
message u = record {
  recipient = u;
  kind = "workflow-transition";
  subject = "Report: Draft → Adopted";
  body = "";
  url = "";
  actor = none;
  object = none;
  context = [];
}

abbrev no_alerts : Outbox
no_alerts = record { rows = λ k. none; next_pk = 1; queued = []; mailed = [] }

stakeholders-Once_example :
    let s = stakeholders world reports report [] (officer ∷ []) [] in
    Once person_pk s
    × All (λ p. may_be_told world report p ≡ true) s
    × ((pk : ℕ)
        → has_key person_pk pk s ≡ (
            exists (λ p. is_officer reports p && told world report pk p) (officer ∷ [])
            || exists (λ p. is_subscriber [] report [] p && told world report pk p) (officer ∷ [])
            || exists (told world report pk) (named report (officer ∷ []))
            || exists (told world report pk) []))
stakeholders-Once_example = stakeholders-Once world reports report [] (officer ∷ []) []

abbrev after : Outbox
after = alert 5 none message (as_recipient officer ∷ []) no_alerts

abbrev mail : Notification
mail = new_notification email_channel pending none (message (as_recipient officer))

abbrev waiting : Outbox
waiting = save_row 2 mail no_alerts

deliver_once_example :
    (r : Notification) × Delivered 3 2
      ((6, refused "down") ∷ (9, accepted) ∷ [])
      mail
      r
      waiting
      (deliveries 3 2 ((6, refused "down") ∷ (9, accepted) ∷ []) waiting)
unfolding save_row new_notification as_recipient
deliver_once_example =
    deliver_once 3 2 ((6, refused "down") ∷ (9, accepted) ∷ []) waiting mail refl refl
      (λ e. absurd (ground (arith, e, eq_iff "officer@parliament" "")))

no_alerts-IsCovered : IsCovered no_alerts
no_alerts-IsCovered = record { unused = λ k h. refl; waiting = λ k r h. absurd (ground (arith, h)) }

queued_two : contains 2 after.queued ≡ true
unfolding alert record_alerts is_actor record_alert create_row new_notification queue_email save_row
    as_recipient
queued_two = refl

-- The server takes the mail, the run returns, and the queue is empty.
returned : Reruns (deliver_email 3 9 accepted 2 after).0 2 after.queued []
unfolding alert record_alerts is_actor record_alert create_row new_notification queue_email save_row
    as_recipient deliver_email attempt pending_email_row pending_only is_pending
returned = record {
  others = λ k ne there. absurd (ground (arith, ne, there));
  raised = λ reason h. absurd (ground (arith, h));
}

Acts-IsCovered_example : IsCovered (record (deliver_email 3 9 accepted 2 after).1 { queued = [] })
Acts-IsCovered_example =
    Acts-IsCovered
      (then_act
        (then_act no_act (alerted 5 none message (as_recipient officer ∷ []) {o = no_alerts}))
        (worked 3 9 accepted 2 [] queued_two returned))
      no_alerts-IsCovered

alert-stakeholders_example :
    (no_alerts.rows 2 ≡ some mail)
    ⊎ ((p : Person) × (may_be_told world report p ≡ true)
        × (is_actor none (as_recipient p) ≡ false)
        × (mail.message.recipient ≡ as_recipient p))
unfolding as_recipient alert record_alerts stakeholders visible put_all candidates officers
    is_officer may_be_told resolve resolve_workflow guarded role_holders named person_of put_keyed
    is_actor record_alert create_row new_notification queue_email save_row is_manage
alert-stakeholders_example =
    alert-stakeholders world reports report [] (officer ∷ []) [] 5 none message no_alerts 2 mail
      refl
