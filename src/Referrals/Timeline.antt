-- ===== src/Referrals/Timeline.antt =====
-- The events that the actions on referrals record: emit_event and the save of WorkflowReferral,
-- src/pwms/models/workflows.py.
use pwms_project.Prelude.{
  append-nil, append_assoc, ℕ, ◌+◌, ◌≡◌, refl, sym, ap, ◌∙◌, Option, none, some, List, [], ◌∷◌,
  ◌++◌, Key, String, arith, if◌then◌else◌, Bool-cases, Option-cases, inl, inr, ◌==◌, nat_eq,
  string_eq, find,
}
use pwms_project.Schema.{State}
use pwms_project.Referrals.{
  Store, Event, user, system, Status, opened, responded, recalled, expired, cancelled, Referral,
  not_allowed, sync_access, emit_event, emit_change, save_new, save, delete, alert, draft, refer,
  refer_row, save_and_alert, respond, recall, mark_expired, as_responded, as_recalled, as_expired,
  is_open, ok, row_of, update_row, delete_row, status_event_slug, same_status, either_actor,
}
use pwms_project.Referrals.Reach.{
  Reach, here, next, Step, refers, responds, recalls, expires, edits, deletes, ok_if,
}

-- One event of the type with that slug, by the actor or else by the system, if there is such a type.
abbrev pub event_of : String → Key → Option ℕ → Store → List Event
event_of slug object actor s = elim (find (λ t. t.slug == slug) s.event_types) [
  | none ↦ []
  | some t ↦
      record {
        object = object;
        event_type = t.pk;
        actor = actor;
        origin = elim actor [ none ↦ system | some _ ↦ user ];
        notes = "";
      }
      ∷ []
]

-- The event of a change to a status, which the one who answered is named for, or else the one who
-- recalled it.
abbrev pub event_of_status : Status → Referral → Store → List Event
event_of_status responded r s =
    event_of "referral-responded" r.object (either_actor r.responded_by r.recalled_by) s
event_of_status recalled r s =
    event_of "referral-recalled" r.object (either_actor r.responded_by r.recalled_by) s
event_of_status expired r s =
    event_of "referral-expired" r.object (either_actor r.responded_by r.recalled_by) s
event_of_status opened r s = []
event_of_status cancelled r s = []

-- The events of writing a referral to its row: one if the row has another status, none if it has
-- that one or is gone.
abbrev pub events_of_save : Referral → Store → List Event
events_of_save r s = elim (row_of r.pk s.referrals) [
  | none ↦ []
  | some previous ↦
      if same_status previous.status r.status then [] else event_of_status r.status r s
]

-- The events of one call.
abbrev pub events_of_step : {s t : Store} → Step s t → List Event
events_of_step {s} (refers none state group by due notes t e) = []
events_of_step {s} (refers (some k) state group by due notes t e) =
    event_of "referral-created" k by s
events_of_step {s} (responds now by url notes r t placed e) =
    events_of_save (record r { status = responded; responded_by = by }) s
events_of_step {s} (recalls now by reason r t placed e) =
    events_of_save (record r { status = recalled; recalled_by = by }) s
events_of_step {s} (expires r placed) =
    if is_open r then events_of_save (record r { status = expired }) s else []
events_of_step {s} (edits r placed) = events_of_save r s
events_of_step {s} (deletes r fresh) = []

-- The events of the calls, in their order.
abbrev pub events_of : {s t : Store} → Reach s t → List Event
events_of here = []
events_of (next r st) = events_of r ++ events_of_step st

events-sync_access :
    (object : Key) (group : ℕ) (s : Store) → (sync_access object group s).events ≡ s.events
unfolding sync_access
events-sync_access object group s = ground arith

nothing_new : (xs : List Event) {ys : List Event} → ys ≡ [] → xs ≡ xs ++ ys
nothing_new xs quiet = sym (append-nil xs) ∙ ap (λ zs. xs ++ zs) (sym quiet)

events-emit_event :
    (slug : String) (o : Key) (actor : Option ℕ) (s : Store)
    → (emit_event slug o actor "" s).events ≡ s.events ++ event_of slug o actor s
unfolding emit_event
events-emit_event slug o actor s = elim (Option-cases (find (λ t. t.slug == slug) s.event_types)) [
  | inl absent ↦
      let quiet : event_of slug o actor s ≡ [] = rw (absent, event_of) refl in
      rw (absent, emit_event) (nothing_new s.events quiet)
  | inr (t, found) ↦ rw (found, emit_event) (rw (found, event_of) refl)
]

events-status :
    (status : Status) (r : Referral) (s : Store)
    → (elim (status_event_slug status) as (λ _. Store) [
      | none ↦ s
      | some slug ↦ emit_event slug r.object (either_actor r.responded_by r.recalled_by) "" s
    ]).events
      ≡ s.events ++ event_of_status status r s
unfolding status_event_slug
events-status opened r s = sym (append-nil s.events)
events-status cancelled r s = sym (append-nil s.events)
events-status responded r s = events-emit_event "referral-responded" r.object _ s
events-status recalled r s = events-emit_event "referral-recalled" r.object _ s
events-status expired r s = events-emit_event "referral-expired" r.object _ s

events-emit_change :
    (before : Status) (r : Referral) (s : Store)
    → (emit_change before r s).events
      ≡ s.events ++ (if same_status before r.status then [] else event_of_status r.status r s)
unfolding emit_change
events-emit_change before r s = elim (Bool-cases (same_status before r.status)) [
  | inl same ↦ rw same (sym (append-nil s.events))
  | inr changed ↦ rw changed (events-status r.status r s)
]

-- The rows of the referrals have no part in the event of a status.
event_of_status-update :
    (status : Status) (r : Referral) (rs : List Referral) (s : Store)
    → event_of_status status r (record s { referrals = rs }) ≡ event_of_status status r s
event_of_status-update opened r rs s = refl
event_of_status-update responded r rs s = refl
event_of_status-update recalled r rs s = refl
event_of_status-update expired r rs s = refl
event_of_status-update cancelled r rs s = refl

events-save : (r : Referral) (s : Store) → (save r s).events ≡ s.events ++ events_of_save r s
unfolding save
events-save r s = elim (Option-cases (row_of r.pk s.referrals)) [
  | inl absent ↦
      let quiet : events_of_save r s ≡ [] = rw (absent, events_of_save) refl in
      rw (absent, save)
        (events-sync_access r.object r.referred_to (record s { referrals = s.referrals ++ r ∷ [] })
          ∙ nothing_new s.events quiet)
  | inr (previous, found) ↦
      let t = record s { referrals = update_row r s.referrals } in
      let s₁ = emit_change previous.status r t in
      let loud : (if same_status previous.status r.status then [] else event_of_status r.status r t)
          ≡ events_of_save r s =
        rw (found, events_of_save)
          (ap (λ xs. if same_status previous.status r.status then [] else xs)
            (event_of_status-update r.status r (update_row r s.referrals) s)) in
      let one =
        events-sync_access r.object r.referred_to s₁
        ∙ events-emit_change previous.status r t
        ∙ ap (λ xs. s.events ++ xs) loud in
      elim (Bool-cases (previous.referred_to == r.referred_to)) [
        | inl same ↦ rw (found, save) (rw same one)
        | inr moved ↦
            rw (found, save)
              (rw moved (
                events-sync_access r.object previous.referred_to
                  (sync_access r.object r.referred_to s₁)
                ∙ one))
      ]
]

events-refer_row :
    (r : Referral) (s : Store)
    → (refer_row r s).events ≡ s.events ++ event_of "referral-created" r.object r.referred_by s
unfolding refer_row save_new alert
events-refer_row r s =
    let s' = record s {
      referrals = s.referrals ++ record r { pk = s.next_pk } ∷ [];
      next_pk = s.next_pk + 1;
    } in
    events-sync_access r.object r.referred_to
      (emit_event "referral-created" r.object r.referred_by "" s')
    ∙ events-emit_event "referral-created" r.object r.referred_by s'

events_of-refer :
    (k : Option Key) (state : State) (group : ℕ) (by due : Option ℕ) (notes : String) (s t : Store)
    (e : refer k state group by due notes s ≡ ok t)
    → t.events ≡ s.events ++ events_of_step {s = s} {t = t} (refers k state group by due notes t e)
unfolding refer draft
events_of-refer none state group by due notes s t e = cc
events_of-refer (some k) state group by due notes s t e =
    let r = draft k group by due notes in
    ap (λ (u : Store). u.events)
      (sym (ok_if state.allows_referrals (refer_row r s) not_allowed {t = t} e))
    ∙ events-refer_row r s

Step-events : {s t : Store} (st : Step s t) → t.events ≡ s.events ++ events_of_step st
unfolding respond recall mark_expired as_responded as_recalled as_expired save_and_alert alert
    delete
Step-events {s} (refers k state group by due notes t e) =
    events_of-refer k state group by due notes s t e
Step-events {s} (responds now by url notes r t placed e) =
    ap (λ (u : Store). u.events) (sym (ok_if (is_open r) _ _ e))
    ∙ events-save (as_responded now by url notes r) s
Step-events {s} (recalls now by reason r t placed e) =
    ap (λ (u : Store). u.events) (sym (ok_if (is_open r) _ _ e))
    ∙ events-save (as_recalled now by reason r) s
Step-events {s} (expires r placed) = elim (Bool-cases (is_open r)) [
  | inl open_still ↦ rw open_still (events-save (as_expired r) s)
  | inr shut ↦ rw shut (sym (append-nil s.events))
]
Step-events {s} (edits r placed) = events-save r s
Step-events {s} (deletes r fresh) =
    events-sync_access r.object r.referred_to (record s { referrals = delete_row r.pk s.referrals })
    ∙ sym (append-nil s.events)

-- Over any sequence of actions on referrals the event log is the one before, with the events of the
-- actions behind it in their order. Raising a referral records one referral-created on its
-- instance, by the one who raised it; an answer, a recall or an expiry, or any other save, records
-- one referral-responded, referral-recalled or referral-expired exactly when the stored row has
-- another status, by the one who answered or else the one who recalled; an expiry of a referral that
-- is not open, a deletion, and a change to open or cancelled record nothing. An event whose type is
-- not in the table is not recorded, and one without an actor is the system's.
pub Reach-events_of : {s t : Store} (r : Reach s t) → t.events ≡ s.events ++ events_of r
Reach-events_of {s} here = sym (append-nil s.events)
Reach-events_of {s} (next r st) =
    Step-events st
    ∙ ap (λ xs. xs ++ events_of_step st) (Reach-events_of r)
    ∙ append_assoc s.events (events_of r) (events_of_step st)
