-- ===== src/Machine/Journey.antt =====
-- What the audit log of an instance says: TransitionLog and perform_transition,
-- src/pwms/models/workflows.py.
use pwms_project.Prelude.{
  append-nil, append_assoc, ℕ, Bool, true, ◌&&◌, Option, List, [], ◌∷◌, ◌++◌, Key, ◌==◌, key_eq,
  nat_eq, string_eq, filter, String, ◌≡◌, ◌≢◌, refl, sym, ap, ◌∙◌, subst, Bool-cases, Option-cases,
  inl, inr, beq→eq, beq_refl, ◌⊎◌,
}
use mathlib.Core.List.{Memᴰ}
use pwms_project.Schema.{Instance}
use pwms_project.Machine.{
  Transition, TransitionLog, Database, Error, other_type, wrong_state, no_comment, attribute_error,
  guards, unmet_transition_conditions, performed, refused, advance, perform_transition,
}

-- One call on the instance.
pub record Attempt : Type 0 where
  pub transition : Transition
  pub actor : Option ℕ
  pub comment : String
  pub ip_address : Option String
  pub now : ℕ

-- A refused call changes nothing.
unfoldable pub attempt : Attempt → Instance × Database → Instance × Database
attempt a (i, d) = elim (perform_transition a.transition a.actor a.comment a.ip_address a.now i d) [
  | performed log j e ↦ (j, e)
  | refused error ↦ (i, d)
]

unfoldable pub attempts : List Attempt → Instance × Database → Instance × Database
attempts [] site = site
attempts (a ∷ rest) site = attempts rest (attempt a site)

-- logs that lead from one state to another by transitions of the list, each of the workflow
-- type, every step of them starting where the one before it ended.
pub data Leads (machine : List Transition) (kind : ℕ) : ℕ → List TransitionLog → ℕ → Type 0 where
  stays : {s : ℕ} → Leads machine kind s [] s
  moves :
      {s e : ℕ} {rest : List TransitionLog} (t : Transition) (l : TransitionLog)
      → Memᴰ t machine
      → t.workflow_type ≡ kind
      → t.from_state.pk ≡ s
      → l.from_state ≡ s
      → l.to_state ≡ t.to_state.pk
      → Leads machine kind t.to_state.pk rest e
      → Leads machine kind s (l ∷ rest) e

-- audit_logs() of an instance, oldest first
unfoldable pub audit_logs : Key → Database → List TransitionLog
audit_logs k d = filter (λ l. l.object == k) d.logs

Leads-append :
    (machine : List Transition) (kind : ℕ) (s m e : ℕ) (xs ys : List TransitionLog)
    → Leads machine kind s xs m
    → Leads machine kind m ys e
    → Leads machine kind s (xs ++ ys) e
Leads-append machine kind s m e xs ys stays h = h
Leads-append machine kind s m e xs ys (moves t l at ty from lf lt rest) h =
    moves t l at ty from lf lt (Leads-append machine kind t.to_state.pk m e _ ys rest h)

-- What a run of calls on an instance has done: the instance is the same one, its log has grown
-- by steps that lead from its old state to its new one, and no other log has changed.
pub record Travelled (machine : List Transition) (i : Instance) (d : Database) (j : Instance)
    (e : Database) : Type 0 where
  pub same_key : j.key ≡ i.key
  pub same_type : j.workflow_type ≡ i.workflow_type
  pub steps : List TransitionLog
  pub grown : audit_logs i.key e ≡ audit_logs i.key d ++ steps
  pub leads : Leads machine i.workflow_type i.current_state.pk steps j.current_state.pk
  pub others : (k : Key) → k ≢ i.key → audit_logs k e ≡ audit_logs k d

perform_cases :
    (t : Transition) (actor : Option ℕ) (comment : String) (ip : Option String) (now : ℕ)
    (i : Instance) (d : Database)
    → ((e : Error) × (perform_transition t actor comment ip now i d ≡ refused e))
      ⊎ ((perform_transition t actor comment ip now i d ≡ advance t actor comment ip now i d)
          × (t.workflow_type ≡ i.workflow_type)
          × (t.from_state.pk ≡ i.current_state.pk))
unfolding perform_transition
perform_cases t actor comment ip now i d = elim (Bool-cases (t.workflow_type == i.workflow_type)) [
  | inr other ↦ inl (other_type, rw (perform_transition, other) refl)
  | inl same ↦ elim (Bool-cases (t.from_state.pk == i.current_state.pk)) [
    | inr off ↦ inl (wrong_state, rw (perform_transition, same, off) refl)
    | inl at ↦ elim (Option-cases (unmet_transition_conditions t i.key d)) [
      | inl raised ↦ inl (attribute_error, rw (perform_transition, same, at, raised) refl)
      | inr ([], quiet) ↦ elim (Bool-cases (t.requires_comment && comment == "")) [
        | inl bare ↦ inl (no_comment, rw (perform_transition, same, at, quiet, bare) refl)
        | inr fine ↦ inr (
          rw (perform_transition, same, at, quiet, fine) refl,
          beq→eq t.workflow_type i.workflow_type same,
          beq→eq t.from_state.pk i.current_state.pk at,
        )
      ]
      | inr (m ∷ ms, due) ↦ inl (guards (m ∷ ms), rw (perform_transition, same, at, due) refl)
    ]
  ]
]

filter-append {ℓ} :
    {A : Type ℓ} (p : A → Bool) (xs ys : List A) → filter p (xs ++ ys) ≡ filter p xs ++ filter p ys
filter-append p [] ys = refl
filter-append p (x ∷ xs) ys = elim (Bool-cases (p x)) [
  | inl keep ↦ rw keep (ap (λ r. x ∷ r) (filter-append p xs ys))
  | inr drop ↦ rw drop (filter-append p xs ys)
]

only_ours :
    (k : Key) (l : TransitionLog) → l.object ≡ k → filter (λ l. l.object == k) (l ∷ []) ≡ l ∷ []
only_ours k l same = let e : (l.object == k) ≡ true = rw same (beq_refl k) in rw e refl

not_theirs :
    (k : Key) (l : TransitionLog) → l.object ≢ k → filter (λ l. l.object == k) (l ∷ []) ≡ []
not_theirs k l apart = elim (Bool-cases (l.object == k)) [
  | inl same ↦ absurd (apart (beq→eq l.object k same))
  | inr other ↦ rw other refl
]

module _ (machine : List Transition) where
  Travelled-refl : (i : Instance) (d : Database) → Travelled machine i d i d
  Travelled-refl i d = record {
    same_key = refl;
    same_type = refl;
    steps = [];
    grown = sym (append-nil (audit_logs i.key d));
    leads = stays;
    others = λ k h. refl;
  }

  Travelled-trans :
      (i j l : Instance) (d e f : Database)
      → Travelled machine i d j e
      → Travelled machine j e l f
      → Travelled machine i d l f
  Travelled-trans i j l d e f a b = record {
    same_key = b.same_key ∙ a.same_key;
    same_type = b.same_type ∙ a.same_type;
    steps = a.steps ++ b.steps;
    grown =
        ap (λ k. audit_logs k f) (sym a.same_key)
        ∙ b.grown
        ∙ ap (λ k. audit_logs k e ++ b.steps) a.same_key
        ∙ ap (λ r. r ++ b.steps) a.grown
        ∙ append_assoc (audit_logs i.key d) a.steps b.steps;
    leads =
        Leads-append machine i.workflow_type i.current_state.pk j.current_state.pk
          l.current_state.pk a.steps b.steps a.leads
          (subst (λ n. Leads machine n j.current_state.pk b.steps l.current_state.pk) a.same_type
            b.leads);
    others = λ k h. b.others k (λ same. h (same ∙ a.same_key)) ∙ a.others k h;
  }

  logged-Travelled :
      (t : Transition) (i : Instance) (d e : Database) (log : TransitionLog)
      → Memᴰ t machine
      → t.workflow_type ≡ i.workflow_type
      → t.from_state.pk ≡ i.current_state.pk
      → log.object ≡ i.key
      → log.from_state ≡ i.current_state.pk
      → log.to_state ≡ t.to_state.pk
      → e.logs ≡ d.logs ++ log ∷ []
      → Travelled machine i d (record i { current_state = t.to_state }) e
  unfolding audit_logs
  logged-Travelled t i d e log known ty from ours lf lt grown = record {
    same_key = refl;
    same_type = refl;
    steps = log ∷ [];
    grown =
        ap (filter (λ l. l.object == i.key)) grown
        ∙ filter-append (λ l. l.object == i.key) d.logs (log ∷ [])
        ∙ ap (λ r. audit_logs i.key d ++ r) (only_ours i.key log ours);
    leads = moves t log known ty from lf lt stays;
    others = λ k apart.
        ap (filter (λ l. l.object == k)) grown
        ∙ filter-append (λ l. l.object == k) d.logs (log ∷ [])
        ∙ ap (λ r. audit_logs k d ++ r) (not_theirs k log (λ same. apart (sym same ∙ ours)))
        ∙ append-nil (audit_logs k d);
  }

  attempt-Travelled :
      (a : Attempt) (i : Instance) (d : Database)
      → Memᴰ a.transition machine
      → Travelled machine i d (attempt a (i, d)).0 (attempt a (i, d)).1
  unfolding attempt advance
  attempt-Travelled a i d known =
      elim (perform_cases a.transition a.actor a.comment a.ip_address a.now i d) [
        | inl (e, refusal) ↦ rw (attempt, refusal) (Travelled-refl i d)
        | inr (done, ty, from) ↦
            rw (attempt, done)
              (logged-Travelled a.transition i d _ _ known ty from refl refl refl refl)
      ]

  -- After any sequence of calls of perform_transition on an instance, each with a transition of a
  -- given list, and whatever is refused: the entries that its audit log has gained are a path from
  -- the state it was in to the state it is in, each by a transition of the list that belongs to
  -- the workflow type of the instance, and each starting where the one before it ended. The logs
  -- of other instances have not changed.
  pub attempts-Travelled :
      (tries : List Attempt) (i : Instance) (d : Database)
      → ((a : Attempt) → Memᴰ a tries → Memᴰ a.transition machine)
      → Travelled machine i d (attempts tries (i, d)).0 (attempts tries (i, d)).1
  unfolding attempts
  attempts-Travelled [] i d known = Travelled-refl i d
  attempts-Travelled (a ∷ rest) i d known =
      let site = attempt a (i, d) in
      Travelled-trans i site.0 (attempts rest site).0 d site.1 (attempts rest site).1
        (attempt-Travelled a i d (known a (Memᴰ.head refl)))
        (attempts-Travelled rest site.0 site.1 (λ b m. known b (Memᴰ.tail m)))
