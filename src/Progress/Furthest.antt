-- ===== src/Progress/Furthest.antt =====
-- The terminal that the percentage is measured against: _target_terminal.
use mathlib.Core.List.{Memᴰ}
use pwms_project.Prelude.{
  some_inj, none-some, ℕ, ◌≤◌, ◌<◌, ◌≡◌, true, false, List, [], ◌∷◌, nat_eq, refl, arith,
  Bool-cases, inl, inr, ◌⊎◌, ◌∙◌, ap, sym, subst, map, Option, none, some, Option-cases, All,
  All→mem,
}
use pwms_project.Schema.{State}
use pwms_project.Progress.{
  Edge, Target, nearest, is_further, furthest, sort_by_order, target_terminal,
}
use pwms_project.Progress.Order.{IsOrdered, sort-mem, mem-sort, sort-IsOrdered}
use pwms_project.Progress.Nearest.{IsAway, IsSpan, nearest-IsSpan, nearest-IsAway, IsSpan-nearest}

abbrev keys : List State → List ℕ
keys states = map (λ s. s.pk) states

module _ (edges : List Edge) (initials : List ℕ) where
  abbrev ReachedAt : ℕ → ℕ → Type 0
  ReachedAt s d = nearest edges initials s ≡ some d

  -- The target is a state of the list; of those of the list that are as far away, none stands
  -- later in the order.
  record IsPicked (states : List State) (t : Target) : Type 0 where
    state : State
    listed : Memᴰ state states
    named : state.pk ≡ t.target_id
    distance : ReachedAt t.target_id t.span
    later : (s : State) → Memᴰ s states → ReachedAt s.pk t.span → s.order ≤ state.order

  -- What the loop comes to, from the best so far: the best, where every state of the list is
  -- nearer, or a state of the list.
  record Improves (states : List State) (best : Option Target) (t : Target) : Type 0 where
    origin :
        ((best ≡ some t) × ((s : State) (d : ℕ) → Memᴰ s states → ReachedAt s.pk d → d < t.span))
        ⊎ IsPicked states t
    over : (b : Target) → best ≡ some b → b.span ≤ t.span
    most : (s : State) (d : ℕ) → Memᴰ s states → ReachedAt s.pk d → d ≤ t.span

  abbrev Unreached : List State → Type 0
  Unreached states = (s : State) → Memᴰ s states → nearest edges initials s.pk ≡ none

  abbrev Loop : List State → Option Target → Type 0
  Loop states best =
      ((furthest edges initials (keys states) best ≡ none) × (best ≡ none) × Unreached states)
      ⊎ ((t : Target) × (furthest edges initials (keys states) best ≡ some t)
          × Improves states best t)

  at_head : {s x : State} {d : ℕ} → x ≡ s → ReachedAt x.pk d → ReachedAt s.pk d
  at_head {d} e h = subst (λ y. nearest edges initials y.pk ≡ some d) e h

  Improves-skip :
      (s : State) (rest : List State) (best : Option Target) (t : Target)
      → ((d : ℕ) → ReachedAt s.pk d → d < t.span)
      → Improves rest best t
      → Improves (s ∷ rest) best t
  Improves-skip s rest best t lt i = record {
    origin = elim i.origin [
      | inl (was, near) ↦ inl (
        was,
        λ x d m e. elim m [ Memᴰ.head same ↦ lt d (at_head same e) | Memᴰ.tail n ↦ near x d n e ],
      )
      | inr p ↦ inr (record {
        state = p.state;
        listed = Memᴰ.tail p.listed;
        named = p.named;
        distance = p.distance;
        later = λ x m e. elim m [
          | Memᴰ.head same ↦ let h = lt t.span (at_head same e) in absurd (omega arith)
          | Memᴰ.tail n ↦ p.later x n e
        ];
      })
    ];
    over = i.over;
    most = λ x d m e. elim m [
      | Memᴰ.head same ↦ let h = lt d (at_head same e) in omega arith
      | Memᴰ.tail n ↦ i.most x d n e
    ];
  }

  abbrev here : State → ℕ → Target
  here s d = record { target_id = s.pk; span = d }

  IsPicked-head :
      (s : State) (rest : List State) (d : ℕ) (t : Target)
      → ReachedAt s.pk d
      → here s d ≡ t
      → ((x : State) (n : ℕ) → Memᴰ x rest → ReachedAt x.pk n → n < t.span)
      → IsPicked (s ∷ rest) t
  IsPicked-head s rest d t e was near = record {
    state = s;
    listed = Memᴰ.head refl;
    named = ap (λ (u : Target). u.target_id) was;
    distance = subst (λ (u : Target). ReachedAt u.target_id u.span) was e;
    later = λ x m h. elim m [
      | Memᴰ.head same ↦ omega (arith, ap (λ (y : State). y.order) same)
      | Memᴰ.tail n ↦ let lt = near x t.span n h in absurd (omega arith)
    ];
  }

  IsPicked-tail :
      (s : State) (rest : List State) (t : Target)
      → All (λ y. s.order ≤ y.order) rest
      → IsPicked rest t
      → IsPicked (s ∷ rest) t
  IsPicked-tail s rest t first p = record {
    state = p.state;
    listed = Memᴰ.tail p.listed;
    named = p.named;
    distance = p.distance;
    later = λ x m h. elim m [
      | Memᴰ.head same ↦ omega (
        arith,
        ap (λ (y : State). y.order) same,
        All→mem (λ y. s.order ≤ y.order) rest first p.listed,
      )
      | Memᴰ.tail n ↦ p.later x n h
    ];
  }

  Improves-take :
      (s : State) (d : ℕ) (rest : List State) (best : Option Target) (t : Target)
      → All (λ y. s.order ≤ y.order) rest
      → ReachedAt s.pk d
      → ((b : Target) → best ≡ some b → b.span ≤ d)
      → Improves rest (some (here s d)) t
      → Improves (s ∷ rest) best t
  Improves-take s d rest best t first e le i = record {
    origin = inr (elim i.origin [
      | inl (was, near) ↦ IsPicked-head s rest d t e (some_inj was) near
      | inr p ↦ IsPicked-tail s rest t first p
    ]);
    over = λ b f. omega (arith, le b f, i.over (here s d) refl);
    most = λ x d' m f. elim m [
      | Memᴰ.head same ↦ omega (arith, some_inj (sym (at_head same f) ∙ e), i.over (here s d) refl)
      | Memᴰ.tail n ↦ i.most x d' n f
    ];
  }

  further_le :
      (d : ℕ) (b : Target) (best : Option Target)
      → best ≡ some b
      → is_further d best ≡ true
      → b.span ≤ d
  unfolding is_further
  further_le d b none f h = absurd (none-some f)
  further_le d b (some t) f h = ground (arith, ap (λ (x : Target). x.span) (some_inj f))

  nearer :
      (d : ℕ) (best : Option Target)
      → is_further d best ≡ false
      → (b : Target) × (best ≡ some b) × (d < b.span)
  unfolding is_further
  nearer d none h = absurd (ground arith)
  nearer d (some t) h = (t, refl, ground arith)

  loop : (states : List State) (best : Option Target) → IsOrdered states → Loop states best
  unfolding furthest
  loop [] none o = inl (refl, refl, λ s m. elim m [ ])
  loop [] (some t) o = inr (
    t,
    refl,
    record {
      origin = inl (refl, λ s d m. elim m [ ]);
      over = λ b e. omega (arith, ap (λ (x : Target). x.span) (some_inj e));
      most = λ s d m. elim m [ ];
    },
  )
  loop (s ∷ rest) best (first, o) = elim (Option-cases (nearest edges initials s.pk)) [
    | inl cut ↦ elim (loop rest best o) [
      | inl (e, b, u) ↦ inl (
        rw (furthest, cut) e,
        b,
        λ x m. elim m [
          | Memᴰ.head same ↦ ap (λ (y : State). nearest edges initials y.pk) same ∙ cut
          | Memᴰ.tail n ↦ u x n
        ],
      )
      | inr (t, e, i) ↦ inr (
        t,
        rw (furthest, cut) e,
        Improves-skip s rest best t (λ d f. absurd (none-some (sym cut ∙ f))) i,
      )
    ]
    | inr (d, found) ↦ elim (Bool-cases (is_further d best)) [
      | inl far ↦ elim (loop rest (some (here s d)) o) [
        | inl (e, b, u) ↦ absurd (none-some (sym b))
        | inr (t, e, i) ↦ inr (
          t,
          rw (furthest, found, far) e,
          Improves-take s d rest best t first found (λ b f. further_le d b best f far) i,
        )
      ]
      | inr near ↦
          let (b, is, lt) = nearer d best near in
          elim (loop rest best o) [
            | inl (e, gone, u) ↦ absurd (none-some (sym gone ∙ is))
            | inr (t, e, i) ↦ inr (
              t,
              rw (furthest, found, near) e,
              Improves-skip s rest best t
                  (λ d' f. omega (arith, some_inj (sym f ∙ found), lt, i.over b is)) i,
            )
          ]
    ]
  ]

-- The target is one of the terminals, with its distance from the initial states; none that can be
-- reached is further, and none that is as far comes later in the order of the states.
pub record IsFurthest (edges : List Edge) (initials : List ℕ) (terminals : List State) (t : Target)
    : Type 0 where
  pub state : State
  pub listed : Memᴰ state terminals
  pub named : state.pk ≡ t.target_id
  pub distance : IsSpan edges initials t.target_id t.span
  pub most : (s : State) (d : ℕ) → Memᴰ s terminals → IsSpan edges initials s.pk d → d ≤ t.span
  pub later :
      (s : State) → Memᴰ s terminals → IsSpan edges initials s.pk t.span → s.order ≤ state.order

-- What _target_terminal returns.
pub Chosen : List Edge → List ℕ → List State → Option Target → Type 0
Chosen edges initials terminals answer =
    ((answer ≡ none) × ((s : State) → Memᴰ s terminals → IsAway edges initials s.pk))
    ⊎ ((t : Target) × (answer ≡ some t) × IsFurthest edges initials terminals t)

-- The target is a terminal that a walk over the transitions reaches from an initial state, and its
-- distance is the length of a shortest walk from any of them; no terminal that can be reached is
-- further away, and of those as far away none has a higher order. There is no target exactly when
-- no walk leads from an initial state to a terminal.
pub target_terminal-Chosen :
    (edges : List Edge) (initials : List ℕ) (terminals : List State)
    → Chosen edges initials terminals (target_terminal edges initials terminals)
unfolding Chosen target_terminal
target_terminal-Chosen edges initials terminals =
    elim (loop edges initials (sort_by_order terminals) none (sort-IsOrdered terminals)) [
      | inl (e, b, u) ↦
          inl (e, λ s m. nearest-IsAway edges initials s.pk (u s (mem-sort terminals m)))
      | inr (t, e, i) ↦ elim i.origin [
        | inl (was, near) ↦ absurd (none-some was)
        | inr p ↦ inr (
          t,
          e,
          record {
            state = p.state;
            listed = sort-mem terminals p.listed;
            named = p.named;
            distance = nearest-IsSpan edges initials t.target_id t.span p.distance;
            most = λ s d m h.
                i.most s d (mem-sort terminals m) (IsSpan-nearest edges initials s.pk d h);
            later = λ s m h.
                p.later s (mem-sort terminals m) (IsSpan-nearest edges initials s.pk t.span h);
          },
        )
      ]
    ]
