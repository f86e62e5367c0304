-- ===== src/Machine.antt =====
-- The state machine of an instance: Transition, TransitionCondition, TransitionLog and
-- AbstractLegislativeWorkflow.perform_transition, src/pwms/models/workflows.py. The instance is
-- the object in hand; `save` writes its state to its row.
pub mod Children
pub mod Guards
pub mod Moved
pub mod Ready
pub mod Journey
use pwms_project.Prelude.{
  ℕ, zero, suc, Bool, true, false, ◌&&◌, ◌||◌, not, Option, none, some, List, [], ◌∷◌, ◌++◌, Key,
  if◌then◌else◌, ◌==◌, key_eq, nat_eq, string_eq, find, filter, exists, contains, length, String,
  map,
}
use pwms_project.Schema.{Instance, State}
use pwms_project.Hierarchy.{Relationship, Tree, instance_of}
use pwms_project.Referrals.{Referral, Event, is_open}

pub record TransitionCondition : Type 0 where
  pub condition_type : String
  pub field_name : String
  pub enabled : Bool

-- `required_event_types` are the primary keys of the event types, `conditions` the rules in
-- their order.
pub record Transition : Type 0 where
  pub pk : ℕ
  pub workflow_type : ℕ
  pub name : String
  pub from_state : State
  pub to_state : State
  pub required_event_types : List ℕ
  pub conditions : List TransitionCondition
  pub requires_comment : Bool

pub record TransitionLog : Type 0 where
  pub object : Key
  pub action : String
  pub from_state : ℕ
  pub to_state : ℕ
  pub actor : Option ℕ
  pub ip_address : Option String
  pub timestamp : ℕ
  pub notes : String

-- A call of notify_transition, which the notifications service answers with messages.
pub record Notice : Type 0 where
  pub object : Key
  pub transition : ℕ
  pub actor : Option ℕ
  pub comment : String

-- `events` pairs an instance with the type of an event recorded on it; `truthy` is
-- `getattr(instance, name, None)` read as a Boolean.
pub record Database : Type 0 where
  pub tree : Tree
  pub events : List (Key × ℕ)
  pub referrals : List Referral
  pub truthy : Key → String → Bool
  pub logs : List TransitionLog
  pub notices : List Notice

-- The messages of unmet guards, with what they quote.
pub data Unmet : Type 0 where
  requires_event : ℕ → Unmet
  resolve_referrals : ℕ → Unmet
  children_not_terminal : ℕ → Unmet
  no_field_name : Unmet
  requires_field : String → Unmet
  unknown_condition : String → Unmet

-- `raises` is the AttributeError of a child that is gone.
pub data Verdict : Type 0 where
  met raises : Verdict
  unmet : Unmet → Verdict

pub data Error : Type 0 where
  other_type wrong_state no_comment attribute_error : Error
  guards : List Unmet → Error

pub data Outcome : Type 0 where
  performed : TransitionLog → Instance → Database → Outcome
  refused : Error → Outcome

-- transitions of the type that start from the current state, in the order of the table
unfoldable pub get_available_transitions : List Transition → Instance → List Transition
get_available_transitions ts i =
    filter (λ t. t.workflow_type == i.workflow_type && t.from_state.pk == i.current_state.pk) ts

unfoldable pub recorded_ids : Key → Database → List ℕ
recorded_ids k d = map (λ e. e.1) (filter (λ e. e.0 == k) d.events)

unfoldable pub open_referrals : Key → Database → List Referral
open_referrals k d = filter (λ r. r.object == k && is_open r) d.referrals

-- The children that are not in a terminal state; `none` if one is gone.
unfoldable pub open_among : Tree → List Relationship → Option (List Instance)
open_among t [] = some []
open_among t (l ∷ rest) = elim (instance_of l.child t) [
  | none ↦ none
  | some child ↦ elim (open_among t rest) [
    | none ↦ none
    | some others ↦ some (if child.current_state.is_terminal then others else child ∷ others)
  ]
]

unfoldable pub open_children : Key → Database → Option (List Instance)
open_children k d = open_among d.tree (filter (λ l. l.parent == k) d.tree.links)

unfoldable pub no_open_referrals : Key → Database → Verdict
no_open_referrals k d = elim (length (open_referrals k d)) [
  | zero ↦ met
  | suc n ↦ unmet (resolve_referrals (suc n))
]

unfoldable pub all_children_closed : Key → Database → Verdict
all_children_closed k d = elim (open_children k d) [
  | none ↦ raises
  | some [] ↦ met
  | some (c ∷ rest) ↦ unmet (children_not_terminal (length (c ∷ rest)))
]

unfoldable pub field_set : Key → String → Database → Verdict
field_set k name d =
    if name == ""
    then unmet no_field_name
    else if d.truthy k name
    then met
    else unmet (requires_field name)

-- evaluate(): the registry TRANSITION_CONDITION_HANDLERS is the three cases.
unfoldable pub evaluate : Key → Database → TransitionCondition → Verdict
evaluate k d c =
    if c.condition_type == "no_open_referrals"
    then no_open_referrals k d
    else if c.condition_type == "all_children_closed"
    then all_children_closed k d
    else if c.condition_type == "field_set"
    then field_set k c.field_name d
    else unmet (unknown_condition c.condition_type)

unfoldable pub evaluate_all : Key → Database → List TransitionCondition → Option (List Unmet)
evaluate_all k d [] = some []
evaluate_all k d (c ∷ rest) = elim (evaluate k d c) [
  | raises ↦ none
  | met ↦ evaluate_all k d rest
  | unmet m ↦ elim (evaluate_all k d rest) [ none ↦ none | some ms ↦ some (m ∷ ms) ]
]

-- `none` is the exception of a handler.
unfoldable pub unmet_transition_conditions : Transition → Key → Database → Option (List Unmet)
unmet_transition_conditions t k d = elim (evaluate_all k d (filter (λ c. c.enabled) t.conditions)) [
  | none ↦ none
  | some ms ↦ some (
      map requires_event (filter (λ e. not (contains e (recorded_ids k d))) t.required_event_types)
      ++ ms)
]

-- self.save(update_fields=["current_state", …])
unfoldable pub save_state : Key → State → List Instance → List Instance
save_state k s [] = []
save_state k s (i ∷ rest) =
    let later = save_state k s rest in
    (if i.key == k then record i { current_state = s } else i) ∷ later

-- What perform_transition does once nothing refuses it.
unfoldable pub advance :
    Transition → Option ℕ → String → Option String → ℕ → Instance → Database → Outcome
advance t actor comment ip now i d =
    let log : TransitionLog = record {
      object = i.key;
      action = "STATE_TRANSITION";
      from_state = i.current_state.pk;
      to_state = t.to_state.pk;
      actor = actor;
      ip_address = ip;
      timestamp = now;
      notes = comment;
    } in
    let notice : Notice = record {
      object = i.key;
      transition = t.pk;
      actor = actor;
      comment = comment;
    } in
    performed log (record i { current_state = t.to_state })
      (record d {
        tree = record d.tree { instances = save_state i.key t.to_state d.tree.instances };
        logs = d.logs ++ log ∷ [];
        notices = d.notices ++ notice ∷ [];
      })

unfoldable pub perform_transition :
    Transition → Option ℕ → String → Option String → ℕ → Instance → Database → Outcome
perform_transition t actor comment ip now i d =
    if not (t.workflow_type == i.workflow_type)
    then refused other_type
    else if not (t.from_state.pk == i.current_state.pk)
    then refused wrong_state
    else elim (unmet_transition_conditions t i.key d) [
      | none ↦ refused attribute_error
      | some (m ∷ ms) ↦ refused (guards (m ∷ ms))
      | some [] ↦
          if t.requires_comment && comment == ""
          then refused no_comment
          else advance t actor comment ip now i d
    ]
