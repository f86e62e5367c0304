-- ===== src/Referrals.antt =====
-- WorkflowReferral of src/pwms/models/workflows.py: its lifecycle actions, the events they emit,
-- and the access they keep in step. A method works on an object in memory (`r`) and on the
-- database (`Store`); what it raises is the error case.
pub mod Step
pub mod Lifecycle
pub mod Own
pub mod Reach
pub mod Confers
pub mod Timeline
use pwms_project.Prelude.{
  ℕ, ◌+◌, Bool, true, false, ◌&&◌, not, Option, none, some, List, [], ◌∷◌, ◌++◌, String, Key,
  if◌then◌else◌, ◌==◌, key_eq, nat_eq, string_eq, find, exists, contains, ltb,
}
use pwms_project.Schema.{GroupAccess, State, Instance}
use pwms_project.Access.{sync_row}

pub data Status : Type 0 where
  opened responded recalled expired cancelled : Status

-- Status to event slug, STATUS_EVENT_SLUGS.
unfoldable pub status_event_slug : Status → Option String
status_event_slug responded = some "referral-responded"
status_event_slug recalled = some "referral-recalled"
status_event_slug expired = some "referral-expired"
status_event_slug _ = none

abbrev pub same_status : Status → Status → Bool
same_status opened opened = true
same_status responded responded = true
same_status recalled recalled = true
same_status expired expired = true
same_status cancelled cancelled = true
same_status _ _ = false

pub record Referral : Type 0 where
  pub pk : ℕ
  pub object : Key
  pub referred_to : ℕ
  pub referred_by : Option ℕ
  pub due_date : Option ℕ
  pub status : Status
  pub responded_at : Option ℕ
  pub responded_by : Option ℕ
  pub response_document_url : String
  pub response_notes : String
  pub recalled_at : Option ℕ
  pub recalled_by : Option ℕ
  pub recall_reason : String
  pub notes : String

pub data Origin : Type 0 where
  user system integration : Origin

pub record EventType : Type 0 where
  pub pk : ℕ
  pub slug : String

pub record Event : Type 0 where
  pub object : Key
  pub event_type : ℕ
  pub actor : Option ℕ
  pub origin : Origin
  pub notes : String

-- A call of the notifications service.
pub record Alert : Type 0 where
  pub kind : String
  pub referral : ℕ
  pub actor : Option ℕ

-- `instances` are the workflow rows that exist, `next_pk` is the sequence of the referral table.
pub record Store : Type 0 where
  pub instances : List Key
  pub referrals : List Referral
  pub accesses : List GroupAccess
  pub events : List Event
  pub event_types : List EventType
  pub alerts : List Alert
  pub next_pk : ℕ

pub data Error : Type 0 where
  unsaved not_allowed not_open : Error

pub data Result : Type 0 where
  ok : Store → Result
  err : Error → Result

unfoldable pub is_open : Referral → Bool
is_open r = same_status r.status opened

-- bool(self.is_open and self.due_date and self.due_date < timezone.now())
unfoldable pub is_overdue : ℕ → Referral → Bool
is_overdue now r = is_open r && elim r.due_date [ none ↦ false | some due ↦ ltb due now ]

-- self.referrals().filter(referred_to_id=group)
unfoldable pub is_for : Key → ℕ → Referral → Bool
is_for object group r = r.object == object && r.referred_to == group

unfoldable pub has_referral : Key → ℕ → List Referral → Bool
has_referral object group = exists (is_for object group)

unfoldable pub has_open_referral : Key → ℕ → List Referral → Bool
has_open_referral object group = exists (λ r. is_for object group r && is_open r)

-- `_sync_access`, and `sync_referral_access` on the instance if it exists.
unfoldable pub sync_access : Key → ℕ → Store → Store
sync_access object group s =
    if contains object s.instances
    then record s {
      accesses =
          sync_row object group (has_referral object group s.referrals)
            (has_open_referral object group s.referrals) s.accesses;
    }
    else s

unfoldable pub emit_event : String → Key → Option ℕ → String → Store → Store
emit_event slug object actor notes s = elim (find (λ t. t.slug == slug) s.event_types) [
  | none ↦ s
  | some t ↦ record s {
    events =
        s.events
        ++ record {
          object = object;
          event_type = t.pk;
          actor = actor;
          origin = elim actor [ none ↦ system | some _ ↦ user ];
          notes = notes;
        }
          ∷ [];
  }
]

-- WorkflowReferral.objects.filter(pk=self.pk).first()
unfoldable pub row_of : ℕ → List Referral → Option Referral
row_of pk = find (λ r. r.pk == pk)

-- super().save() of a row that exists.
unfoldable pub update_row : Referral → List Referral → List Referral
update_row r [] = []
update_row r (x ∷ rest) =
    let later = x ∷ update_row r rest in if x.pk == r.pk then r ∷ rest else later

-- super().delete()
unfoldable pub delete_row : ℕ → List Referral → List Referral
delete_row pk [] = []
delete_row pk (x ∷ rest) = let later = x ∷ delete_row pk rest in if x.pk == pk then rest else later

-- self.responded_by or self.recalled_by
unfoldable pub either_actor : Option ℕ → Option ℕ → Option ℕ
either_actor none b = b
either_actor (some a) b = some a

-- save() of an object that is being added: it gets the next key.
unfoldable pub save_new : Referral → Store → Store
save_new r s =
    let r' = record r { pk = s.next_pk } in
    let s' = record s { referrals = s.referrals ++ r' ∷ []; next_pk = s.next_pk + 1 } in
    sync_access r.object r.referred_to (emit_event "referral-created" r.object r.referred_by "" s')

unfoldable pub emit_change : Status → Referral → Store → Store
emit_change before r s =
    if same_status before r.status then s else elim (status_event_slug r.status) [
      | none ↦ s
      | some slug ↦ emit_event slug r.object (either_actor r.responded_by r.recalled_by) "" s
    ]

-- save() of an object that was read before. Where its row is gone, Django inserts it again.
unfoldable pub save : Referral → Store → Store
save r s = elim (row_of r.pk s.referrals) [
  | none ↦ sync_access r.object r.referred_to (record s { referrals = s.referrals ++ r ∷ [] })
  | some previous ↦
      let s₁ = emit_change previous.status r (record s { referrals = update_row r s.referrals }) in
      let s₂ = sync_access r.object r.referred_to s₁ in
      if previous.referred_to == r.referred_to
      then s₂
      else sync_access r.object previous.referred_to s₂
]

unfoldable pub delete : Referral → Store → Store
delete r s =
    sync_access r.object r.referred_to (record s { referrals = delete_row r.pk s.referrals })

unfoldable pub alert : String → Referral → Option ℕ → Store → Store
alert kind r actor s = record s {
  alerts = s.alerts ++ record { kind = kind; referral = r.pk; actor = actor } ∷ [];
}

-- if value: column = value
unfoldable pub given_or : String → String → String
given_or value column = if value == "" then column else value

-- The object as each action leaves it.
unfoldable pub as_responded : ℕ → Option ℕ → String → String → Referral → Referral
as_responded now by url notes r = record r {
  status = responded;
  responded_at = some now;
  responded_by = by;
  response_document_url = given_or url r.response_document_url;
  response_notes = given_or notes r.response_notes;
}

unfoldable pub as_recalled : ℕ → Option ℕ → String → Referral → Referral
as_recalled now by reason r = record r {
  status = recalled;
  recalled_at = some now;
  recalled_by = by;
  recall_reason = given_or reason r.recall_reason;
}

unfoldable pub as_expired : Referral → Referral
as_expired r = record r { status = expired }

-- self.save(), then self._alert(kind, actor=actor)
unfoldable pub save_and_alert : String → Option ℕ → Referral → Store → Store
save_and_alert kind actor r s = alert kind r actor (save r s)

unfoldable pub respond : ℕ → Option ℕ → String → String → Referral → Store → Result
respond now by url notes r s =
    if is_open r
    then ok (save_and_alert "referral-responded" by (as_responded now by url notes r) s)
    else err not_open

unfoldable pub recall : ℕ → Option ℕ → String → Referral → Store → Result
recall now by reason r s =
    if is_open r
    then ok (save_and_alert "referral-recalled" by (as_recalled now by reason r) s)
    else err not_open

unfoldable pub mark_expired : Referral → Store → Store
mark_expired r s = if is_open r then save_and_alert "referral-expired" none (as_expired r) s else s

-- A referral that `objects.create` is given: the other columns have their defaults.
unfoldable pub draft : Key → ℕ → Option ℕ → Option ℕ → String → Referral
draft object group by due notes = record {
  pk = 0;
  object = object;
  referred_to = group;
  referred_by = by;
  due_date = due;
  status = opened;
  responded_at = none;
  responded_by = none;
  response_document_url = "";
  response_notes = "";
  recalled_at = none;
  recalled_by = none;
  recall_reason = "";
  notes = notes;
}

-- The create and the alert of `refer`.
unfoldable pub refer_row : Referral → Store → Store
refer_row r s = alert "referral-created" (record r { pk = s.next_pk }) r.referred_by (save_new r s)

-- `refer` of AbstractLegislativeWorkflow, on an instance with or without a primary key.
unfoldable pub refer : Option Key → State → ℕ → Option ℕ → Option ℕ → String → Store → Result
refer none state group by due notes s = err unsaved
refer (some object) state group by due notes s =
    if state.allows_referrals
    then ok (refer_row (draft object group by due notes) s)
    else err not_allowed
