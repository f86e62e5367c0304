-- ===== src/Machine/Guards.antt =====
-- When perform_transition goes through.
use pwms_project.Prelude.{
  true-false, List-cases, filter_nil, none-some, ℕ, Bool, true, false, ◌&&◌, some, List, [], ◌∷◌,
  Key, ◌==◌, key_eq, nat_eq, string_eq, String, ◌≡◌, ◌≢◌, ◌↔◌, arith, refl, ap, Bool-cases,
  Option-cases, inl, inr, beq→eq, beq_refl, ◌⊎◌,
}
use mathlib.Core.List.{Memᴰ}
use pwms_project.Schema.{Instance}
use pwms_project.Hierarchy.{Relationship}
use pwms_project.Referrals.{Referral, is_open}
use pwms_project.Machine.{
  Transition, TransitionCondition, Database, Verdict, met, raises, unmet, Unmet, open_referrals,
  no_open_referrals, field_set, evaluate, evaluate_all,
}
use pwms_project.Machine.Children.{Closed, all_children_closed-met}

-- What a rule asks, by the name of its condition.
pub data Holds (k : Key) (d : Database) (c : TransitionCondition) : Type 0 where
  referrals_closed :
      c.condition_type ≡ "no_open_referrals"
      → ((r : Referral) → Memᴰ r d.referrals → r.object ≡ k → is_open r ≡ false)
      → Holds k d c
  children_closed :
      c.condition_type ≡ "all_children_closed"
      → ((l : Relationship) → Memᴰ l d.tree.links → l.parent ≡ k → Closed d.tree l)
      → Holds k d c
  field_filled :
      c.condition_type ≡ "field_set"
      → c.field_name ≢ ""
      → d.truthy k c.field_name ≡ true
      → Holds k d c

-- The guards of a transition, as the documentation of the classes lists them.
pub record Ready (t : Transition) (comment : String) (i : Instance) (d : Database) : Type 0 where
  pub same_type : t.workflow_type ≡ i.workflow_type
  pub from_here : t.from_state.pk ≡ i.current_state.pk
  pub recorded : (e : ℕ) → Memᴰ e t.required_event_types → Memᴰ (i.key, e) d.events
  pub rules : (c : TransitionCondition) → Memᴰ c t.conditions → c.enabled ≡ true → Holds i.key d c
  pub commented : t.requires_comment ≡ true → comment ≢ ""

not_counted :
    (k : Key) (r : Referral)
    → (r.object ≡ k → is_open r ≡ false)
    → (r.object == k && is_open r) ≡ false
not_counted k r h = elim (Bool-cases (r.object == k)) [
  | inl here ↦ ground (arith, h (beq→eq r.object k here))
  | inr elsewhere ↦ rw elsewhere refl
]

no_open_referrals-met :
    (k : Key) (d : Database)
    → no_open_referrals k d ≡ met
      ↔ ((r : Referral) → Memᴰ r d.referrals → r.object ≡ k → is_open r ≡ false)
unfolding no_open_referrals open_referrals
no_open_referrals-met k d =
    let p : Referral → Bool = λ r. r.object == k && is_open r in
    let (to, from) = filter_nil p d.referrals in
    (
      (λ e r m at. elim (List-cases (open_referrals k d)) [
        | inl empty ↦ ground (arith, to empty r m, at, beq_refl k)
        | inr (y, rest, f) ↦ absurd (ground (arith, f))
      ]),
      (λ h. rw (no_open_referrals, open_referrals, from (λ r m. not_counted k r (h r m))) refl),
    )

field_set-met :
    (k : Key) (name : String) (d : Database)
    → field_set k name d ≡ met ↔ (name ≢ "") × (d.truthy k name ≡ true)
unfolding field_set
field_set-met k name d = elim (Bool-cases (name == "")) [
  | inl empty ↦
      ((λ e. absurd (ground arith)), (λ (filled, t). absurd (filled (beq→eq name "" empty))))
  | inr filled ↦ elim (Bool-cases (d.truthy k name)) [
    | inl on ↦ (
      (λ e. ((λ same. true-false (ap (λ x. x == "") same) filled), on)),
      (λ h. rw (filled, on) refl),
    )
    | inr off ↦ ((λ e. absurd (ground arith)), (λ (f, t). absurd (true-false t off)))
  ]
]

evaluate-met :
    (k : Key) (d : Database) (c : TransitionCondition) → evaluate k d c ≡ met → Holds k d c
unfolding evaluate
evaluate-met k d c e = elim (Bool-cases (c.condition_type == "no_open_referrals")) [
  | inl one ↦
      referrals_closed (beq→eq c.condition_type _ one)
        ((no_open_referrals-met k d).0 (rw (evaluate, one) at e))
  | inr other ↦ elim (Bool-cases (c.condition_type == "all_children_closed")) [
    | inl two ↦
        children_closed (beq→eq c.condition_type _ two)
          ((all_children_closed-met k d).0 (rw (evaluate, other, two) at e))
    | inr others ↦ elim (Bool-cases (c.condition_type == "field_set")) [
      | inl three ↦
          let (filled, t) =
            (field_set-met k c.field_name d).0 (rw (evaluate, other, others, three) at e) in
          field_filled (beq→eq c.condition_type _ three) filled t
      | inr none_of ↦ absurd (ground (arith, other, others, none_of))
    ]
  ]
]

met-evaluate :
    (k : Key) (d : Database) (c : TransitionCondition) → Holds k d c → evaluate k d c ≡ met
unfolding evaluate
met-evaluate k d c (referrals_closed e h) = rw (evaluate, e) ((no_open_referrals-met k d).1 h)
met-evaluate k d c (children_closed e h) = rw (evaluate, e) ((all_children_closed-met k d).1 h)
met-evaluate k d c (field_filled e f t) =
    rw (evaluate, e) ((field_set-met k c.field_name d).1 (f, t))

Verdict-cases : (v : Verdict) → (v ≡ met) ⊎ (v ≡ raises) ⊎ ((m : Unmet) × (v ≡ unmet m))
Verdict-cases met = inl refl
Verdict-cases raises = inr (inl refl)
Verdict-cases (unmet m) = inr (inr (m, refl))

met_head :
    (k : Key) (d : Database) (c : TransitionCondition) (rest : List TransitionCondition)
    → evaluate_all k d (c ∷ rest) ≡ some []
    → (evaluate k d c ≡ met) × (evaluate_all k d rest ≡ some [])
unfolding evaluate_all
met_head k d c rest e = elim (Verdict-cases (evaluate k d c)) [
  | inl here ↦ (here, rw (evaluate_all, here) at e)
  | inr (inl raised) ↦ absurd (none-some (rw (evaluate_all, raised) at e))
  | inr (inr (m, bad)) ↦ elim (Option-cases (evaluate_all k d rest)) [
    | inl gone ↦ absurd (none-some (rw (evaluate_all, bad, gone) at e))
    | inr (ms, more) ↦ absurd (ground (arith, bad, more))
  ]
]

pub evaluate_all-nil :
    (k : Key) (d : Database) (cs : List TransitionCondition)
    → evaluate_all k d cs ≡ some [] ↔ ((c : TransitionCondition) → Memᴰ c cs → Holds k d c)
unfolding evaluate_all
evaluate_all-nil k d [] = ((λ e c m. elim m [ ]), (λ h. refl))
evaluate_all-nil k d (c ∷ rest) =
    let ih = evaluate_all-nil k d rest in
    (
      (λ e x m.
          let (here, others) = met_head k d c rest e in
          elim m [
            | Memᴰ.head same ↦ rw same (evaluate-met k d c here)
            | Memᴰ.tail n ↦ ih.0 others x n
          ]),
      (λ h.
          rw (evaluate_all, met-evaluate k d c (h c (Memᴰ.head refl)))
            (ih.1 (λ x m. h x (Memᴰ.tail m)))),
    )
