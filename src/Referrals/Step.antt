-- ===== src/Referrals/Step.antt =====
-- The access rows are in step with the referrals.
use pwms_project.Prelude.{
  ℕ, ◌≡◌, refl, Bool, true, false, ◌&&◌, ◌||◌, Option, none, some, List, [], ◌∷◌, Key, arith,
  contains, ◌==◌, key_eq, nat_eq, Bool-cases, Option-cases, inl, inr,
}
use pwms_project.Schema.{GroupAccess, grants_only_view}
use pwms_project.Access.{is_row, access_row, referral_row, settle}
use pwms_project.Access.Sync.{
  IsUnique, settled, access_row-sync_row, access_row-sync_row_ne, sync_row-IsUnique,
}
use pwms_project.Access.Settle.{settle_drops, settle_edit, settle_hands_back, settle_orphan}
use pwms_project.Referrals.{Store, Referral, has_referral, has_open_referral, sync_access}

-- A group with a referral has a row; the row lets it edit while a referral is open; edit that a
-- referral raised is handed back when none is; and without any referral no row is left that only
-- a referral explains.
abbrev pub InStepAt : Bool → Bool → Option GroupAccess → Type 0
InStepAt has has_open none = has ≡ false
InStepAt has has_open (some a) =
    (has_open ≡ true → a.flags.can_edit ≡ true)
    × (has_open ≡ false → a.referral_raised_edit ≡ false)
    × (has ≡ false → (a.via_referral && grants_only_view a) ≡ false)

-- The rows of the groups in `P` are in step, and no group has two rows on an instance.
pub record InStepOn (P : Key → ℕ → Bool) (s : Store) : Type 0 where
  pub unique : IsUnique s.accesses
  pub at :
      (object : Key) (group : ℕ)
      → P object group ≡ true
      → contains object s.instances ≡ true
      → InStepAt
          (has_referral object group s.referrals)
          (has_open_referral object group s.referrals)
          (access_row object group s.accesses)

abbrev pub InStep : Store → Type 0
InStep = InStepOn (λ object group. true)

settle-InStepAt :
    (has has_open : Bool) (a : GroupAccess) → InStepAt has has_open (settle has has_open a)
settle-InStepAt has has_open a = elim (Option-cases (settle has has_open a)) [
  | inl dropped ↦ rw dropped ((settle_drops a has has_open dropped).0)
  | inr (a', kept) ↦ rw kept (
    λ opened. settle_edit a has (rw opened at kept),
    λ closed. settle_hands_back a has (rw closed at kept),
    λ gone. settle_orphan a has_open (rw gone at kept),
  )
]

settled-InStepAt :
    (object : Key) (group : ℕ) (has has_open : Bool) (row : Option GroupAccess)
    → (has ≡ false → has_open ≡ false)
    → InStepAt has has_open (settled object group has has_open row)
unfolding settled
settled-InStepAt object group has has_open (some a) le = settle-InStepAt has has_open a
settled-InStepAt object group false has_open none le = refl
settled-InStepAt object group true has_open none le =
    unfold referral_row in (λ opened. opened, λ closed. closed, λ gone. cc)

pub has-has_open :
    (object : Key) (group : ℕ) (rs : List Referral)
    → has_referral object group rs ≡ false
    → has_open_referral object group rs ≡ false
unfolding has_referral has_open_referral
has-has_open object group [] h = refl
has-has_open object group (r ∷ rs) h = ground (arith, has-has_open object group rs)

module _ (object : Key) (group : ℕ) (s : Store) where
  abbrev InStepHere : Store → Type 0
  InStepHere t =
      InStepAt (has_referral object group t.referrals) (has_open_referral object group t.referrals)
        (access_row object group t.accesses)

  -- A sync puts its group in step, whatever the row was before.
  pub sync_access_self :
      IsUnique s.accesses
      → contains object s.instances ≡ true
      → InStepHere (sync_access object group s)
  unfolding sync_access
  sync_access_self u exists_ = rw exists_ (
      rw (access_row-sync_row _ _ object group s.accesses u)
        (settled-InStepAt object group _ _ _ (has-has_open object group s.referrals)))

  pub sync_access-IsUnique : IsUnique s.accesses → IsUnique (sync_access object group s).accesses
  unfolding sync_access
  sync_access-IsUnique u = elim (Bool-cases (contains object s.instances)) [
    | inl there ↦ rw there (sync_row-IsUnique _ _ object group s.accesses u)
    | inr gone ↦ rw gone u
  ]

  pub referrals-sync_access : (sync_access object group s).referrals ≡ s.referrals
  unfolding sync_access
  referrals-sync_access = ground arith

  pub instances-sync_access : (sync_access object group s).instances ≡ s.instances
  unfolding sync_access
  instances-sync_access = ground arith

  pub sync_access_ne :
      (object' : Key) (group' : ℕ)
      → ((object' == object) && (group' == group)) ≡ false
      → access_row object' group' (sync_access object group s).accesses
        ≡ access_row object' group' s.accesses
  unfolding sync_access
  sync_access_ne object' group' ne = elim (Bool-cases (contains object s.instances)) [
    | inl there ↦ rw there (
        access_row-sync_row_ne _ _ object group object' group' s.accesses
          (λ a here. unfold is_row in ground arith))
    | inr gone ↦ rw gone
  ]

-- A sync puts its group in step and keeps the others so.
pub sync_access-InStepOn :
    (P : Key → ℕ → Bool) (object : Key) (group : ℕ) (s : Store)
    → InStepOn P s
    → InStepOn (λ o g. P o g || (o == object && g == group)) (sync_access object group s)
sync_access-InStepOn P object group s h = record {
  unique = sync_access-IsUnique object group s h.unique;
  at = λ o g chosen there.
      let there' = rw (instances-sync_access object group s) at there in
      elim (Bool-cases ((o == object) && (g == group))) [
        | inl same ↦
            let eo : o ≡ object = ground arith in
            let eg : g ≡ group = ground arith in
            rw (eo, eg) (sync_access_self object group s h.unique (rw eo at there'))
        | inr other ↦
            rw (referrals-sync_access object group s, sync_access_ne object group s o g other)
              (h.at o g (ground arith) there')
      ];
}

-- What only grows the set of groups in step is forgotten again.
pub InStepOn-weaken :
    (P Q : Key → ℕ → Bool) (s : Store)
    → ((o : Key) (g : ℕ) → Q o g ≡ true → P o g ≡ true)
    → InStepOn P s
    → InStepOn Q s
InStepOn-weaken P Q s le h = record {
  unique = h.unique;
  at = λ o g chosen there. h.at o g (le o g chosen) there;
}
