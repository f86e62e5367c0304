-- ===== src/Referrals/Reach.antt =====
-- Every sequence of actions on referrals.
use pwms_project.Prelude.{
  ℕ, ◌≡◌, Bool, true, false, Option, none, some, Key, arith, String, Bool-cases, inl, inr, subst,
  if◌then◌else◌, ap, ◌∙◌, refl, ◌||◌, contains, key_eq,
}
use pwms_project.Schema.{GroupAccess, State}
use pwms_project.Referrals.{
  Store, Referral, has_open_referral, ok, err, Error, not_allowed, is_open, save_new, save, delete,
  respond, recall, mark_expired, draft, refer, refer_row, save_and_alert, alert, as_responded,
  as_recalled, as_expired,
}
use pwms_project.Access.{access_row}
use pwms_project.Access.Sync.{IsUnique}
use pwms_project.Referrals.Step.{InStep, InStepAt, has-has_open}
use pwms_project.Referrals.Own.{
  KeepsOwn, owns_edit, row_owns_edit, save-KeepsOwn, refer_row-KeepsOwn, delete-KeepsOwn,
}
use pwms_project.Referrals.Lifecycle.{
  IsFresh, IsPlaced, save_new-InStep, save-InStep, delete-InStep, alert-InStep,
}

-- One call on the database: of `refer`, or of a method of a referral that was read from it.
-- `edits` is any save that keeps the instance, such as a reassignment.
pub data Step (s : Store) : Store → Type 0 where
  refers :
      (k : Option Key) (state : State) (group : ℕ) (by due : Option ℕ) (notes : String) (t : Store)
      → refer k state group by due notes s ≡ ok t
      → Step s t
  responds :
      (now : ℕ) (by : Option ℕ) (url notes : String) (r : Referral) (t : Store)
      → IsPlaced r s
      → respond now by url notes r s ≡ ok t
      → Step s t
  recalls :
      (now : ℕ) (by : Option ℕ) (reason : String) (r : Referral) (t : Store)
      → IsPlaced r s
      → recall now by reason r s ≡ ok t
      → Step s t
  expires : (r : Referral) → IsPlaced r s → Step s (mark_expired r s)
  edits : (r : Referral) → IsPlaced r s → Step s (save r s)
  deletes : (r : Referral) → IsFresh r s → Step s (delete r s)

pub data Reach (s : Store) : Store → Type 0 where
  here : Reach s s
  next : {t u : Store} → Reach s t → Step t u → Reach s u

-- What a call wrote: the row of a new referral, or of one that it saved or deleted.
pub data Written (s : Store) : Store → Type 0 where
  nothing : Written s s
  raised : (r : Referral) → Written s (refer_row r s)
  closed :
      (kind : String) (actor : Option ℕ) (r : Referral)
      → IsPlaced r s
      → Written s (save_and_alert kind actor r s)
  edited : (r : Referral) → IsPlaced r s → Written s (save r s)
  deleted : (r : Referral) → IsFresh r s → Written s (delete r s)

-- An action that answers `ok`, taken apart by its test.
pub ok_if :
    (b : Bool) (u : Store) (e : Error) {t : Store} → (if b then ok u else err e) ≡ ok t → u ≡ t
ok_if true u e h = ground arith
ok_if false u e h = cc

refer-Written :
    (k : Option Key) (state : State) (group : ℕ) (by due : Option ℕ) (notes : String) {s t : Store}
    → refer k state group by due notes s ≡ ok t
    → Written s t
unfolding refer
refer-Written none state group by due notes e = cc
refer-Written (some k) state group by due notes {s} {t} e =
    let r = draft k group by due notes in
    subst (Written s) (ok_if state.allows_referrals (refer_row r s) not_allowed {t = t} e)
      (raised r)

pub Step-Written : {s t : Store} → Step s t → Written s t
unfolding respond recall mark_expired as_responded as_recalled as_expired
Step-Written (refers k state group by due notes t e) = refer-Written k state group by due notes e
Step-Written {s} (responds now by url notes r t placed e) =
    subst (Written s) (ok_if (is_open r) _ _ e)
      (closed "referral-responded" by (as_responded now by url notes r) placed)
Step-Written {s} (recalls now by reason r t placed e) =
    subst (Written s) (ok_if (is_open r) _ _ e)
      (closed "referral-recalled" by (as_recalled now by reason r) placed)
Step-Written {s} (expires r placed) = elim (Bool-cases (is_open r)) [
  | inl opened ↦ rw opened (closed "referral-expired" none (as_expired r) placed)
  | inr shut ↦ rw shut nothing
]
Step-Written (edits r placed) = edited r placed
Step-Written (deletes r fresh) = deleted r fresh

Written-InStep : {s t : Store} → Written s t → InStep s → InStep t
unfolding refer_row save_and_alert
Written-InStep nothing h = h
Written-InStep {s} (raised r) h =
    alert-InStep "referral-created" (record r { pk = s.next_pk }) r.referred_by (save_new r s)
      (save_new-InStep r s h)
Written-InStep {s} (closed kind actor r placed) h =
    alert-InStep kind r actor (save r s) (save-InStep r s placed h)
Written-InStep {s} (edited r placed) h = save-InStep r s placed h
Written-InStep {s} (deleted r fresh) h = delete-InStep r s fresh h

pub Reach-InStepOn : {s t : Store} → InStep s → Reach s t → InStep t
Reach-InStepOn h here = h
Reach-InStepOn h (next r st) = Written-InStep (Step-Written st) (Reach-InStepOn h r)

Written-KeepsOwn : {s t : Store} → Written s t → IsUnique s.accesses → KeepsOwn s t
unfolding save_and_alert alert
Written-KeepsOwn nothing u = λ o g. refl
Written-KeepsOwn {s} (raised r) u = refer_row-KeepsOwn r s u
Written-KeepsOwn {s} (closed kind actor r placed) u = save-KeepsOwn r s u
Written-KeepsOwn {s} (edited r placed) u = save-KeepsOwn r s u
Written-KeepsOwn {s} (deleted r fresh) u = delete-KeepsOwn r s u

Reach-KeepsOwn : {s t : Store} → InStep s → Reach s t → KeepsOwn s t
Reach-KeepsOwn h here = λ o g. refl
Reach-KeepsOwn h (next r st) = λ o g.
    Written-KeepsOwn (Step-Written st) (Reach-InStepOn h r).unique o g ∙ Reach-KeepsOwn h r o g

abbrev pub row_edits : Option GroupAccess → Bool
row_edits none = false
row_edits (some a) = a.flags.can_edit

-- A row in step lets its group edit by an open referral or by itself.
edits_by :
    (has has_open : Bool) (row : Option GroupAccess)
    → (has ≡ false → has_open ≡ false)
    → InStepAt has has_open row
    → row_edits row ≡ (has_open || row_owns_edit row)
edits_by has has_open none le h = ground (arith, le h)
edits_by has true (some a) le (while_open, after, gone) = while_open refl
edits_by has false (some a) le (while_open, after, gone) = ground (arith, after refl)

-- After any sequence of raising, answering, recalling, expiring, reassigning and deleting
-- referrals that starts in step, for every group and every instance that exists: a group with a
-- referral has a row; its row lets it edit exactly when one of its referrals is open or it held
-- edit by itself, not raised by a referral, at the start, so that edit that a referral raised is
-- handed back once none is open and edit that the group held is not taken; and without a referral
-- no row is left that a referral created and that grants view only. No group has two rows on an
-- instance.
pub Reach-InStep :
    {s t : Store}
    → InStep s
    → Reach s t
    → InStep t
      × ((object : Key) (group : ℕ)
          → contains object t.instances ≡ true
          → row_edits (access_row object group t.accesses)
            ≡ (has_open_referral object group t.referrals || owns_edit object group s))
Reach-InStep {s} {t} h r =
    let after = Reach-InStepOn h r in
    (
      after,
      λ object group there.
          edits_by _ _ _ (has-has_open object group t.referrals) (after.at object group refl there)
          ∙ ap (λ own. has_open_referral object group t.referrals || own)
              (Reach-KeepsOwn h r object group),
    )
