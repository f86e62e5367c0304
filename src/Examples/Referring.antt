-- ===== src/Examples/Referring.antt =====
-- A referral raised on a report: the theorems on WorkflowReferral,
-- src/pwms/models/workflows.py.
use pwms_project.Prelude.{
  ℕ, ◌≡◌, refl, true, false, Option, none, some, [], ◌∷◌, ◌⊎◌, inl, inr, Key, Bool-cases, arith,
  ◌++◌, ◌||◌, contains, key_eq,
}
use pwms_project.Schema.{delete, GroupAccess, flag}
use pwms_project.Access.{access_row, is_row, sync_row, write_row, settle}
use pwms_project.Referrals.{
  Store, refer, refer_row, draft, has_referral, has_open_referral, save_new, sync_access,
  emit_event, alert, is_for, is_open,
}
use pwms_project.Referrals.Step.{InStep, InStepAt}
use pwms_project.Referrals.Reach.{Reach, here, next, refers, row_edits, Reach-InStep}
use pwms_project.Referrals.Own.{owns_edit}
use pwms_project.Referrals.Confers.{Reach-NotRaised, held, beyond_edit, row_grants}
use pwms_project.Referrals.Timeline.{events_of, Reach-events_of}
use pwms_project.Examples.Data.{report_key, drafted, access, store}

abbrev after : Store
after = refer_row (draft report_key 5 (some 9) none "") store

row_or_none : (o : Option GroupAccess) → ((o ≡ none) ⊎ (o ≡ some access)) → InStepAt false false o
row_or_none o (inl e) = rw e refl
row_or_none o (inr e) = rw e (λ opened. absurd (ground arith), λ closed. refl, λ gone. refl)

find_cases :
    (object : Key) (group : ℕ)
    → (access_row object group (access ∷ []) ≡ none)
      ⊎ (access_row object group (access ∷ []) ≡ some access)
unfolding access_row
find_cases object group = elim (Bool-cases (is_row object group access)) [
  | inl found ↦ inr (ground arith)
  | inr missed ↦ inl (ground arith)
]

store-InStep : InStep store
unfolding access_row has_referral has_open_referral
store-InStep = record {
  unique = (refl, tt);
  at = λ object group any known. row_or_none _ (find_cases object group);
}

referred : Reach store after
unfolding refer refer_row draft
referred = next here (refers (some report_key) drafted 5 (some 9) none "" after refl)

beyond : beyond_edit delete ≡ true
unfolding beyond_edit
beyond = refl

after_held : held delete report_key 5 after ≡ true
unfolding access_row is_row refer_row save_new sync_access emit_event draft sync_row row_grants
    alert write_row settle has_referral is_for has_open_referral is_open flag
after_held = refl

Reach-InStep_example :
    InStep after
    × ((object : Key) (group : ℕ)
        → contains object after.instances ≡ true
        → row_edits (access_row object group after.accesses)
          ≡ (has_open_referral object group after.referrals || owns_edit object group store))
Reach-InStep_example = Reach-InStep store-InStep referred

Reach-events_of_example : after.events ≡ store.events ++ events_of referred
Reach-events_of_example = Reach-events_of referred

Reach-NotRaised_example : held delete report_key 5 store ≡ true
Reach-NotRaised_example =
    Reach-NotRaised delete report_key 5 store-InStep referred beyond after_held
