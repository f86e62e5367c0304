-- ===== src/Machine/Ready.antt =====
-- A transition is performed exactly when its documented guards hold.
use pwms_project.Prelude.{
  true-false, filter_nil, some_inj, none-some, ℕ, Bool, true, false, ◌&&◌, not, Option, some, List,
  [], ◌∷◌, ◌++◌, Key, ◌==◌, key_eq, nat_eq, string_eq, filter, contains, String, map, ◌≡◌, ◌≢◌, ◌↔◌,
  arith, refl, sym, ap, ◌∙◌, Bool-cases, Option-cases, inl, inr, beq→eq, beq_refl, mem-filter,
  filter-mem,
}
use mathlib.Core.List.{Memᴰ}
use pwms_project.Schema.{Instance}
use pwms_project.Machine.{
  Transition, TransitionCondition, TransitionLog, Database, requires_event, Outcome, performed,
  Error, refused, recorded_ids, evaluate_all, unmet_transition_conditions, advance,
  perform_transition,
}
use pwms_project.Machine.Moved.{Moved, advance-Moved}
use pwms_project.Machine.Guards.{Holds, Ready, evaluate_all-nil}

pair_eq : {j k : Key} {e x : ℕ} → k ≡ j → e ≡ x → ◌≡◌ {A = Key × ℕ} (k, e) (j, x)
pair_eq p q = rw (p, q) refl

recorded→mem :
    (k : Key) (e : ℕ) (events : List (Key × ℕ))
    → contains e (map (λ (e : Key × ℕ). e.1) (filter (λ e. e.0 == k) events)) ≡ true
    → Memᴰ (k, e) events
recorded→mem k e [] h = absurd (ground arith)
recorded→mem k e ((j, x) ∷ rest) h = elim (Bool-cases (j == k)) [
  | inl ours ↦ elim (Bool-cases (e == x)) [
    | inl same ↦ Memᴰ.head (pair_eq (sym (beq→eq j k ours)) (beq→eq e x same))
    | inr other ↦ Memᴰ.tail (recorded→mem k e rest (ground arith))
  ]
  | inr theirs ↦ Memᴰ.tail (recorded→mem k e rest (ground arith))
]

mem→recorded :
    (k : Key) (e : ℕ) (events : List (Key × ℕ))
    → Memᴰ (k, e) events
    → contains e (map (λ (e : Key × ℕ). e.1) (filter (λ e. e.0 == k) events)) ≡ true
mem→recorded k e [] m = elim m [ ]
mem→recorded k e ((j, x) ∷ rest) (Memᴰ.head same) =
    let at : j ≡ k = ap (λ (p : Key × ℕ). p.0) (sym same) in
    let is : e ≡ x = ap (λ (p : Key × ℕ). p.1) same in
    rw (at, is) (ground (arith, beq_refl k, beq_refl x))
mem→recorded k e ((j, x) ∷ rest) (Memᴰ.tail m) = elim (Bool-cases (j == k)) [
  | inl ours ↦ ground (arith, mem→recorded k e rest m)
  | inr theirs ↦ ground (arith, mem→recorded k e rest m)
]

undue : {b : Bool} → not b ≡ false → b ≡ true
undue h = ground arith

append_nil {ℓ} : {A : Type ℓ} (xs ys : List A) → xs ++ ys ≡ [] → (xs ≡ []) × (ys ≡ [])
append_nil [] ys h = (refl, h)
append_nil (x ∷ xs) ys h = absurd (ground arith)

map_nil {ℓ} : {A B : Type ℓ} (f : A → B) (xs : List A) → map f xs ≡ [] → xs ≡ []
map_nil f [] h = refl
map_nil f (x ∷ xs) h = absurd (ground arith)

-- The guards that unmet_transition_conditions is about.
pub record Guarded (t : Transition) (k : Key) (d : Database) : Type 0 where
  pub recorded : (e : ℕ) → Memᴰ e t.required_event_types → Memᴰ (k, e) d.events
  pub rules : (c : TransitionCondition) → Memᴰ c t.conditions → c.enabled ≡ true → Holds k d c

-- unmet_transition_conditions returns an empty list exactly when an event of each required type
-- is recorded on the instance and each enabled rule holds.
pub unmet_transition_conditions_iff :
    (t : Transition) (k : Key) (d : Database)
    → unmet_transition_conditions t k d ≡ some [] ↔ Guarded t k d
unfolding unmet_transition_conditions recorded_ids
unmet_transition_conditions_iff t k d =
    let on : TransitionCondition → Bool = λ c. c.enabled in
    let due : ℕ → Bool = λ e. not (contains e (recorded_ids k d)) in
    (
      (λ h. elim (Option-cases (evaluate_all k d (filter on t.conditions))) [
        | inl gone ↦ absurd (none-some (rw (unmet_transition_conditions, gone) at h))
        | inr (ms, found) ↦
            let (late, empty) =
              append_nil (map requires_event (filter due t.required_event_types)) ms
                (some_inj (rw (unmet_transition_conditions, found) at h)) in
            let none_due = (filter_nil due t.required_event_types).0 (map_nil _ _ late) in
            let hold = (evaluate_all-nil k d (filter on t.conditions)).0 (found ∙ ap some empty) in
            record {
              recorded = λ e m. recorded→mem k e d.events (undue (none_due e m));
              rules = λ c m enabled. hold c (filter-mem on t.conditions m enabled);
            }
      ]),
      (λ h.
          let quiet =
            (filter_nil due t.required_event_types).1
              (λ e m. ap not (mem→recorded k e d.events (h.recorded e m))) in
          let holding =
            (evaluate_all-nil k d (filter on t.conditions)).1
              (λ c m. let (n, enabled) = mem-filter on t.conditions m in h.rules c n enabled) in
          rw (unmet_transition_conditions, holding, quiet) refl),
    )

unfoldable pub is_performed : Outcome → Bool
is_performed (performed log i d) = true
is_performed (refused e) = false

commented_if :
    (t : Transition) (comment : String)
    → (t.requires_comment && comment == "") ≡ false ↔ (t.requires_comment ≡ true → comment ≢ "")
commented_if t comment = elim (Bool-cases (comment == "")) [
  | inl empty ↦ elim (Bool-cases t.requires_comment) [
    | inl asked ↦ (
      (λ h. absurd (true-false (rw (asked, empty) refl) h)),
      (λ h. absurd (h asked (beq→eq comment "" empty))),
    )
    | inr free ↦ ((λ h a. absurd (true-false a free)), (λ h. rw free refl))
  ]
  | inr filled ↦ (
    (λ h a e. true-false (ap (λ x. x == "") e) filled),
    (λ h. elim (Bool-cases t.requires_comment) [
      | inl asked ↦ rw (asked, filled) refl
      | inr free ↦ rw free refl
    ]),
  )
]

refused_apart : (e : Error) → is_performed (refused e) ≢ true
unfolding is_performed
refused_apart e h = true-false h refl

module _ (t : Transition) (actor : Option ℕ) (comment : String) (ip : Option String) (now : ℕ) where
  Ready-of :
      (i : Instance) (d : Database)
      → is_performed (perform_transition t actor comment ip now i d) ≡ true
      → Ready t comment i d
  unfolding perform_transition
  Ready-of i d h = elim (Bool-cases (t.workflow_type == i.workflow_type)) [
    | inr other ↦ absurd (refused_apart _ (rw (perform_transition, other) at h))
    | inl same ↦ elim (Bool-cases (t.from_state.pk == i.current_state.pk)) [
      | inr off ↦ absurd (refused_apart _ (rw (perform_transition, same, off) at h))
      | inl at ↦ elim (Option-cases (unmet_transition_conditions t i.key d)) [
        | inl raised ↦ absurd (refused_apart _ (rw (perform_transition, same, at, raised) at h))
        | inr ([], quiet) ↦ elim (Bool-cases (t.requires_comment && comment == "")) [
          | inl bare ↦
              absurd (refused_apart _ (rw (perform_transition, same, at, quiet, bare) at h))
          | inr fine ↦
              let guarded = (unmet_transition_conditions_iff t i.key d).0 quiet in
              record {
                same_type = beq→eq t.workflow_type i.workflow_type same;
                from_here = beq→eq t.from_state.pk i.current_state.pk at;
                recorded = guarded.recorded;
                rules = guarded.rules;
                commented = (commented_if t comment).0 fine;
              }
        ]
        | inr (m ∷ ms, due) ↦ absurd (refused_apart _ (rw (perform_transition, same, at, due) at h))
      ]
    ]
  ]

  Ready-performed :
      (i : Instance) (d : Database)
      → Ready t comment i d
      → perform_transition t actor comment ip now i d ≡ advance t actor comment ip now i d
  unfolding perform_transition
  Ready-performed i d h =
      let same : (t.workflow_type == i.workflow_type) ≡ true =
        rw h.same_type (beq_refl i.workflow_type) in
      let at : (t.from_state.pk == i.current_state.pk) ≡ true =
        rw h.from_here (beq_refl i.current_state.pk) in
      let quiet =
        (unmet_transition_conditions_iff t i.key d).1
          (record { recorded = h.recorded; rules = h.rules }) in
      let fine = (commented_if t comment).1 h.commented in
      rw (perform_transition, same, at, quiet, fine) refl

-- perform_transition takes a transition exactly when it is one of the instance's type, starts at
-- the instance's current state, has an event of each required type recorded on the instance, has
-- every enabled rule satisfied and, if it asks for a comment, is given one. Then the object and its
-- row are in the target state; the log has one entry more, with the instance, both states, the
-- actor, the address, the time and the comment; one more notice of the transition is sent; and the
-- rows of other instances, the links, the events and the referrals are as they were.
pub perform_transition_iff :
    (t : Transition) (actor : Option ℕ) (comment : String) (ip : Option String) (now : ℕ)
    (i : Instance) (d : Database)
    → ((log : TransitionLog) × (j : Instance) × (e : Database) × (perform_transition t actor comment
            ip now i d
          ≡ performed log j e)
        × Moved t actor comment ip now i d log j e)
      ↔ Ready t comment i d
unfolding is_performed
perform_transition_iff t actor comment ip now i d = (
  (λ (log, j, e, h, m). Ready-of t actor comment ip now i d (ap is_performed h)),
  (λ ready.
      let (log, j, e, h, m) = advance-Moved t actor comment ip now i d in
      (log, j, e, Ready-performed t actor comment ip now i d ready ∙ h, m)),
)
