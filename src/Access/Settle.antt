-- ===== src/Access/Settle.antt =====
-- What a referral does to the one row of its group.
use pwms_project.Prelude.{◌≡◌, ◌≢◌, Bool, true, false, none, some, arith, ◌⊎◌, ◌&&◌}
use pwms_project.Schema.{Capability, edit, flag, GroupAccess, grants_only_view}
use pwms_project.Access.{settle, raise_or_hand_back}

module _ (a : GroupAccess) where
  pub settle_open : (a' : GroupAccess) × (settle true true a ≡ some a') × (a'.flags.can_edit ≡ true)
  unfolding settle
  settle_open = (raise_or_hand_back true a, ground arith, ground arith)

  pub settle_edit :
      {a' : GroupAccess} (has : Bool) → settle has true a ≡ some a' → a'.flags.can_edit ≡ true
  unfolding settle
  settle_edit has h = ground arith

  pub settle-ne-none : (has_open : Bool) → settle true has_open a ≢ none
  unfolding settle
  settle-ne-none has_open h = ground arith

  pub settle_place :
      {a' : GroupAccess} (has has_open : Bool)
      → settle has has_open a ≡ some a'
      → (a'.object ≡ a.object) × (a'.group ≡ a.group)
  unfolding settle
  settle_place has has_open h = (ground arith, ground arith)

  pub settle_keeps :
      {a' : GroupAccess} (has has_open : Bool) (what : Capability)
      → a.referral_raised_edit ≡ false
      → settle has has_open a ≡ some a'
      → flag what a.flags ≡ true
      → flag what a'.flags ≡ true
  unfolding settle flag
  settle_keeps has has_open what organic kept held = ground arith

  pub settle_adds :
      {a' : GroupAccess} (has has_open : Bool) (what : Capability)
      → settle has has_open a ≡ some a'
      → flag what a'.flags ≡ true
      → (flag what a.flags ≡ true) ⊎ ((what ≡ edit) × (has_open ≡ true))
  unfolding settle flag
  settle_adds has has_open what kept held = ground arith

  pub settle_drops :
      (has has_open : Bool) → settle has has_open a ≡ none → (has ≡ false) × (a.via_referral ≡ true)
  unfolding settle
  settle_drops has has_open h = ground arith

  pub settle-settle :
      {a' : GroupAccess} (has has_open : Bool)
      → settle has has_open a ≡ some a'
      → settle has has_open a' ≡ some a'
  unfolding settle
  settle-settle has has_open h = ground arith

  pub settle_round_trip :
      {a' : GroupAccess}
      → a.referral_raised_edit ≡ false
      → settle true true a ≡ some a'
      → settle true false a' ≡ some a
  unfolding settle
  settle_round_trip organic raised = ground arith

  pub settle_hands_back :
      {a' : GroupAccess} (has : Bool)
      → settle has false a ≡ some a'
      → a'.referral_raised_edit ≡ false
  unfolding settle
  settle_hands_back has h = ground arith

  pub settle_orphan :
      {a' : GroupAccess} (has_open : Bool)
      → settle false has_open a ≡ some a'
      → (a'.via_referral && grants_only_view a') ≡ false
  unfolding settle
  settle_orphan has_open h = ground arith
