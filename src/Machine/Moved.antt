-- ===== src/Machine/Moved.antt =====
-- What a transition that is performed writes: the tail of perform_transition,
-- src/pwms/models/workflows.py.
use pwms_project.Prelude.{
  ℕ, Option, List, [], ◌∷◌, ◌++◌, Key, ◌==◌, key_eq, filter, String, ◌≡◌, ◌≢◌, refl, arith,
  Bool-cases, inl, inr, sym, ◌∙◌, beq→eq, beq_differ,
}
use mathlib.Core.List.{Memᴰ}
use pwms_project.Schema.{Instance, State}
use pwms_project.Machine.{
  Transition, TransitionLog, Notice, Database, performed, save_state, advance,
}

-- The rows of one key.
abbrev pub rows_at : Key → List Instance → List Instance
rows_at k rows = filter (λ x. x.key == k) rows

module _ (t : Transition) (actor : Option ℕ) (comment : String) (ip : Option String) (now : ℕ) where
  pub record IsEntry (i : Instance) (log : TransitionLog) : Type 0 where
    pub object : log.object ≡ i.key
    pub action : log.action ≡ "STATE_TRANSITION"
    pub from_state : log.from_state ≡ i.current_state.pk
    pub to_state : log.to_state ≡ t.to_state.pk
    pub by : log.actor ≡ actor
    pub at : log.timestamp ≡ now
    pub ip_address : log.ip_address ≡ ip
    pub notes : log.notes ≡ comment

  pub record IsNotice (i : Instance) (n : Notice) : Type 0 where
    pub object : n.object ≡ i.key
    pub transition : n.transition ≡ t.pk
    pub by : n.actor ≡ actor
    pub comment_given : n.comment ≡ comment

  -- The object and its rows are in the new state, the rows of every other instance and the rest of
  -- the database are as they were, and behind the logs and the notices stands one more of each.
  pub record Moved (i : Instance) (d : Database) (log : TransitionLog) (j : Instance) (e : Database)
      : Type 0 where
    pub key : j.key ≡ i.key
    pub kind : j.workflow_type ≡ i.workflow_type
    pub state : j.current_state ≡ t.to_state
    pub row :
        (x : Instance) → Memᴰ x e.tree.instances → x.key ≡ i.key → x.current_state ≡ t.to_state
    pub other_rows : (k : Key) → k ≢ i.key → rows_at k e.tree.instances ≡ rows_at k d.tree.instances
    pub links : e.tree.links ≡ d.tree.links
    pub events : e.events ≡ d.events
    pub referrals : e.referrals ≡ d.referrals
    pub entry : IsEntry i log
    pub logged : e.logs ≡ d.logs ++ log ∷ []
    pub notice : Notice
    pub told : IsNotice i notice
    pub noticed : e.notices ≡ d.notices ++ notice ∷ []

saved_state :
    (k : Key) (s : State) (rows : List Instance) (x : Instance)
    → Memᴰ x (save_state k s rows)
    → x.key ≡ k
    → x.current_state ≡ s
unfolding save_state
saved_state k s [] x m e = elim m [ ]
saved_state k s (i ∷ rest) x (Memᴰ.tail m) e = saved_state k s rest x m e
saved_state k s (i ∷ rest) x (Memᴰ.head h) e = elim (Bool-cases (i.key == k)) [
  | inl ours ↦ ground (arith, h, ours)
  | inr theirs ↦ absurd (beq_differ i.key k theirs (ground (arith, h, theirs, e)))
]

saved_others :
    (k j : Key) (s : State) (rows : List Instance)
    → j ≢ k
    → rows_at j (save_state k s rows) ≡ rows_at j rows
unfolding save_state
saved_others k j s [] ne = refl
saved_others k j s (i ∷ rest) ne = elim (Bool-cases (i.key == k)) [
  | inl ours ↦ elim (Bool-cases (i.key == j)) [
    | inl both ↦ absurd (ne (sym (beq→eq i.key j both) ∙ beq→eq i.key k ours))
    | inr apart ↦ ground (arith, ours, apart, saved_others k j s rest ne)
  ]
  | inr theirs ↦ ground (arith, theirs, saved_others k j s rest ne)
]

-- An outcome of advance, with what it wrote.
pub advance-Moved :
    (t : Transition) (actor : Option ℕ) (comment : String) (ip : Option String) (now : ℕ)
    (i : Instance) (d : Database)
    → (log : TransitionLog) × (j : Instance) × (e : Database) × (advance t actor comment ip now i d
        ≡ performed log j e)
      × Moved t actor comment ip now i d log j e
unfolding advance
advance-Moved t actor comment ip now i d = (
  _,
  _,
  _,
  refl,
  record {
    key = refl;
    kind = refl;
    state = refl;
    row = λ x m e. saved_state i.key t.to_state d.tree.instances x m e;
    other_rows = λ k ne. saved_others i.key k t.to_state d.tree.instances ne;
    links = refl;
    events = refl;
    referrals = refl;
    entry = record {
      object = refl;
      action = refl;
      from_state = refl;
      to_state = refl;
      by = refl;
      at = refl;
      ip_address = refl;
      notes = refl;
    };
    logged = refl;
    notice = record { object = i.key; transition = t.pk; actor = actor; comment = comment };
    told = record { object = refl; transition = refl; by = refl; comment_given = refl };
    noticed = refl;
  },
)
