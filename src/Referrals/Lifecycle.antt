-- ===== src/Referrals/Lifecycle.antt =====
-- Every action on a referral keeps the access rows in step with the referrals.
use pwms_project.Prelude.{
  ℕ, ◌+◌, ◌≡◌, refl, Bool, true, false, ◌&&◌, ◌||◌, not, Option, some, List, [], ◌∷◌, ◌++◌, Key,
  arith, exists, exists-append, ◌==◌, key_eq, nat_eq, Bool-cases, Option-cases, inl, inr, String,
}
use pwms_project.Referrals.{
  Store, Referral, Status, is_open, is_for, has_referral, has_open_referral, sync_access,
  emit_event, emit_change, row_of, update_row, delete_row, save_new, save, delete, alert,
}
use pwms_project.Referrals.Step.{InStepOn, InStep, sync_access-InStepOn, InStepOn-weaken}

module _ (q : Referral → Bool) where
  exists-update_row :
      (r previous : Referral) (rs : List Referral)
      → row_of r.pk rs ≡ some previous
      → q r ≡ q previous
      → exists q (update_row r rs) ≡ exists q rs
  unfolding row_of update_row
  exists-update_row r previous [] h e = cc
  exists-update_row r previous (x ∷ rs) h e = ground (arith, exists-update_row r previous rs)

  exists-delete_row :
      (pk : ℕ) (rs : List Referral)
      → ((previous : Referral) → row_of pk rs ≡ some previous → q previous ≡ false)
      → exists q (delete_row pk rs) ≡ exists q rs
  unfolding row_of delete_row
  exists-delete_row pk [] h = refl
  exists-delete_row pk (x ∷ rs) h = elim (Bool-cases (x.pk == pk)) [
    | inl here ↦ ground (arith, h x)
    | inr there ↦ ground (arith, exists-delete_row pk rs (λ p found. h p (ground arith)))
  ]

  exists-snoc :
      (r : Referral) (rs : List Referral) → q r ≡ false → exists q (rs ++ r ∷ []) ≡ exists q rs
  exists-snoc r rs e = ground (arith, exists-append q rs (r ∷ []))

-- The step from a store to one with other referrals, before any sync: the groups whose answers
-- have not changed are still in step.
changed-InStepOn :
    (P : Key → ℕ → Bool) (s t : Store)
    → t.accesses ≡ s.accesses
    → t.instances ≡ s.instances
    → ((o : Key) (g : ℕ)
        → P o g ≡ true
        → has_referral o g t.referrals ≡ has_referral o g s.referrals)
    → ((o : Key) (g : ℕ)
        → P o g ≡ true
        → has_open_referral o g t.referrals ≡ has_open_referral o g s.referrals)
    → InStep s
    → InStepOn P t
changed-InStepOn P s t ea ei er eo h = record {
  unique = rw ea h.unique;
  at = λ o g chosen there. rw (er o g chosen, eo o g chosen, ea) (h.at o g refl (rw ei at there));
}

abbrev other_than : Key → ℕ → Key → ℕ → Bool
other_than object group o g = not ((o == object) && (g == group))

emit_event_keeps :
    (slug : String) (o : Key) (actor : Option ℕ) (notes : String) (s : Store)
    → ((emit_event slug o actor notes s).accesses ≡ s.accesses)
      × ((emit_event slug o actor notes s).instances ≡ s.instances)
      × ((emit_event slug o actor notes s).referrals ≡ s.referrals)
unfolding emit_event
emit_event_keeps slug o actor notes s = (ground arith, ground arith, ground arith)

emit_change_keeps :
    (before : Status) (r : Referral) (s : Store)
    → ((emit_change before r s).accesses ≡ s.accesses)
      × ((emit_change before r s).instances ≡ s.instances)
      × ((emit_change before r s).referrals ≡ s.referrals)
unfolding emit_change emit_event
emit_change_keeps before r s = (ground arith, ground arith, ground arith)

-- A row that is not for a group does not show in the group's answers.
record Elsewhere (object : Key) (group : ℕ) (s t : Store) : Type 0 where
  any :
      (o : Key) (g : ℕ)
      → other_than object group o g ≡ true
      → has_referral o g t.referrals ≡ has_referral o g s.referrals
  opened_ones :
      (o : Key) (g : ℕ)
      → other_than object group o g ≡ true
      → has_open_referral o g t.referrals ≡ has_open_referral o g s.referrals

one_sync :
    (object : Key) (group : ℕ) (s t : Store)
    → t.accesses ≡ s.accesses
    → t.instances ≡ s.instances
    → Elsewhere object group s t
    → InStep s
    → InStep (sync_access object group t)
one_sync object group s t ea ei e h =
    InStepOn-weaken (λ o g. other_than object group o g || (o == object && g == group))
      (λ o g. true) _ (λ o g _. ground arith)
      (sync_access-InStepOn (other_than object group) object group t
        (changed-InStepOn (other_than object group) s t ea ei e.any e.opened_ones h))

is_for_elsewhere :
    (r : Referral) (o : Key) (g : ℕ)
    → other_than r.object r.referred_to o g ≡ true
    → is_for o g r ≡ false
unfolding is_for
is_for_elsewhere r o g far = ground arith

append-Elsewhere :
    (r : Referral) (s t : Store)
    → t.referrals ≡ s.referrals ++ r ∷ []
    → Elsewhere r.object r.referred_to s t
unfolding has_referral has_open_referral
append-Elsewhere r s t e = record {
  any = λ o g far. rw e (exists-snoc (is_for o g) r s.referrals (is_for_elsewhere r o g far));
  opened_ones = λ o g far. rw e (
      exists-snoc (λ x. is_for o g x && is_open x) r s.referrals
        (ground (arith, is_for_elsewhere r o g far)));
}

pub save_new-InStep : (r : Referral) (s : Store) → InStep s → InStep (save_new r s)
unfolding save_new
save_new-InStep r s h =
    let r' = record r { pk = s.next_pk } in
    let s' = record s { referrals = s.referrals ++ r' ∷ []; next_pk = s.next_pk + 1 } in
    let keeps = emit_event_keeps "referral-created" r.object r.referred_by "" s' in
    one_sync r.object r.referred_to s _ (keeps.0) (keeps.1) (append-Elsewhere r' s _ keeps.2) h

-- The row that a delete removes is for the group that is synced.
abbrev pub IsFresh : Referral → Store → Type 0
IsFresh r s =
    (previous : Referral)
    → row_of r.pk s.referrals ≡ some previous
    → (previous.object ≡ r.object) × (previous.referred_to ≡ r.referred_to)

pub delete-InStep : (r : Referral) (s : Store) → IsFresh r s → InStep s → InStep (delete r s)
unfolding delete has_referral has_open_referral
delete-InStep r s fresh h =
    one_sync r.object r.referred_to s (record s { referrals = delete_row r.pk s.referrals }) refl
      refl
      (record {
        any = λ o g far.
            exists-delete_row (is_for o g) r.pk s.referrals
              λ p found. let (eo, eg) = fresh p found in is_for_elsewhere p o g (rw (eo, eg) far);
        opened_ones = λ o g far.
            exists-delete_row (λ x. is_for o g x && is_open x) r.pk s.referrals
              λ p found.
                let (eo, eg) = fresh p found in
                ground (arith, is_for_elsewhere p o g (rw (eo, eg) far));
      })
      h

-- The stored row of a referral is on the same instance: no action moves a referral.
abbrev pub IsPlaced : Referral → Store → Type 0
IsPlaced r s =
    (previous : Referral) → row_of r.pk s.referrals ≡ some previous → previous.object ≡ r.object

module _ (r previous : Referral) (s : Store) where
  abbrev untouched : Key → ℕ → Bool
  untouched o g =
      other_than r.object r.referred_to o g && other_than r.object previous.referred_to o g

  update_elsewhere :
      (t : Store)
      → t.accesses ≡ s.accesses
      → t.instances ≡ s.instances
      → t.referrals ≡ update_row r s.referrals
      → row_of r.pk s.referrals ≡ some previous
      → previous.object ≡ r.object
      → InStep s
      → InStepOn untouched t
  unfolding has_referral has_open_referral
  update_elsewhere t ea ei er found placed h =
      changed-InStepOn untouched s t ea ei
        (λ o g far. rw er (
          exists-update_row (is_for o g) r previous s.referrals found
            (ground (arith, is_for_elsewhere r o g, is_for_elsewhere previous o g))))
        (λ o g far. rw er (
          exists-update_row (λ x. is_for o g x && is_open x) r previous s.referrals found
            (ground (arith, is_for_elsewhere r o g, is_for_elsewhere previous o g))))
        h

  save_changed :
      row_of r.pk s.referrals ≡ some previous
      → previous.object ≡ r.object
      → InStep s
      → InStep (save r s)
  unfolding save
  save_changed found placed h =
      let t = record s { referrals = update_row r s.referrals } in
      let keeps = emit_change_keeps previous.status r t in
      let s₁ = emit_change previous.status r t in
      let h₁ = update_elsewhere s₁ keeps.0 keeps.1 keeps.2 found placed h in
      let h₂ = sync_access-InStepOn untouched r.object r.referred_to s₁ h₁ in
      let here = λ (o : Key) (g : ℕ). untouched o g || (o == r.object && g == r.referred_to) in
      elim (Bool-cases (previous.referred_to == r.referred_to)) [
        | inl same ↦
            rw (found, save)
              (rw same (InStepOn-weaken here (λ o g. true) _ (λ o g _. ground arith) h₂))
        | inr moved ↦
            rw (found, save)
              (rw moved (
                InStepOn-weaken (λ o g. here o g || (o == r.object && g == previous.referred_to))
                  (λ o g. true) _ (λ o g _. ground arith)
                  (sync_access-InStepOn here r.object previous.referred_to _ h₂)))
      ]

pub save-InStep : (r : Referral) (s : Store) → IsPlaced r s → InStep s → InStep (save r s)
unfolding save
save-InStep r s placed h = elim (Option-cases (row_of r.pk s.referrals)) [
  | inl absent ↦
      rw (absent, save)
        (one_sync r.object r.referred_to s (record s { referrals = s.referrals ++ r ∷ [] }) refl
          refl (append-Elsewhere r s _ refl) h)
  | inr (previous, found) ↦ save_changed r previous s found (placed previous found) h
]

pub alert-InStep :
    (kind : String) (r : Referral) (actor : Option ℕ) (s : Store)
    → InStep s
    → InStep (alert kind r actor s)
unfolding alert
alert-InStep kind r actor s h = record { unique = h.unique; at = h.at }
