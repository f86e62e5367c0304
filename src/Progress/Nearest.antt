-- ===== src/Progress/Nearest.antt =====
-- The distance of a state from the nearest initial state: the generator in _target_terminal,
-- src/pwms/services/progress.py, against walks over the transitions.
use mathlib.Core.List.{Memᴰ}
use pwms_project.Prelude.{
  ℕ, ◌≤◌, ◌≡◌, min, refl, arith, inl, inr, ◌⊎◌, ◌∙◌, ap, sym, subst, List, [], ◌∷◌, none, some,
  some_inj, none-some, nat_eq,
}
use pwms_project.Progress.{Edge, nearest}
use pwms_project.Progress.Walks.{Walk, IsDistance, IsCut}
use pwms_project.Progress.Shortest.{Answers, shortest_path-Answers}

-- No walk leads there from any of the initial states.
abbrev pub IsAway : List Edge → List ℕ → ℕ → Type 0
IsAway edges initials goal = (i m : ℕ) → Memᴰ i initials → Walk edges i m goal → ⊥

-- A walk of that length leads there from one of the initial states, and none from any is shorter.
pub record IsSpan (edges : List Edge) (initials : List ℕ) (goal d : ℕ) : Type 0 where
  pub start : ℕ
  pub initial : Memᴰ start initials
  pub walk : Walk edges start d goal
  pub least : (i m : ℕ) → Memᴰ i initials → Walk edges i m goal → d ≤ m

abbrev pub Spans : List Edge → List ℕ → ℕ → Type 0
Spans edges initials goal =
    ((nearest edges initials goal ≡ none) × IsAway edges initials goal)
    ⊎ ((d : ℕ) × (nearest edges initials goal ≡ some d) × IsSpan edges initials goal d)

module _ (edges : List Edge) (goal i : ℕ) (rest : List ℕ) where
  IsAway-cons : IsCut edges i goal → IsAway edges rest goal → IsAway edges (i ∷ rest) goal
  IsAway-cons cut away j m k w = elim k [
    | Memᴰ.head e ↦ cut m (subst (λ x. Walk edges x m goal) e w)
    | Memᴰ.tail n ↦ away j m n w
  ]

  IsSpan-later :
      (d : ℕ) → IsCut edges i goal → IsSpan edges rest goal d → IsSpan edges (i ∷ rest) goal d
  IsSpan-later d cut s = record {
    start = s.start;
    initial = Memᴰ.tail s.initial;
    walk = s.walk;
    least = λ j m k w. elim k [
      | Memᴰ.head e ↦ absurd (cut m (subst (λ x. Walk edges x m goal) e w))
      | Memᴰ.tail n ↦ s.least j m n w
    ];
  }

  IsSpan-here :
      (d : ℕ)
      → IsDistance edges i goal d
      → ((j m : ℕ) → Memᴰ j rest → Walk edges j m goal → d ≤ m)
      → IsSpan edges (i ∷ rest) goal d
  IsSpan-here d at le = record {
    start = i;
    initial = Memᴰ.head refl;
    walk = at.walk;
    least = λ j m k w. elim k [
      | Memᴰ.head e ↦ at.least m (subst (λ x. Walk edges x m goal) e w)
      | Memᴰ.tail n ↦ le j m n w
    ];
  }

  IsSpan-min :
      (d d' : ℕ)
      → IsDistance edges i goal d
      → IsSpan edges rest goal d'
      → IsSpan edges (i ∷ rest) goal (min d d')
  IsSpan-min d d' at s = elim (le_cases d d') [
    | inl (near, e) ↦ rw e (IsSpan-here d at (λ j m n w. omega (arith, s.least j m n w)))
    | inr (far, e) ↦ rw e (record {
      start = s.start;
      initial = Memᴰ.tail s.initial;
      walk = s.walk;
      least = λ j m k w. elim k [
        | Memᴰ.head f ↦ omega (arith, at.least m (subst (λ x. Walk edges x m goal) f w))
        | Memᴰ.tail n ↦ s.least j m n w
      ];
    })
  ]
    where
      le_cases : (a b : ℕ) → ((a ≤ b) × (min a b ≡ a)) ⊎ ((b ≤ a) × (min a b ≡ b))
      le_cases a b = grind arith

nearest-Spans : (edges : List Edge) (initials : List ℕ) (goal : ℕ) → Spans edges initials goal
unfolding nearest Answers
nearest-Spans edges [] goal = inl (refl, λ i m k w. elim k [ ])
nearest-Spans edges (i ∷ rest) goal = elim (shortest_path-Answers edges i goal) [
  | inl (e, cut) ↦ elim (nearest-Spans edges rest goal) [
    | inl (f, away) ↦ inl (rw (nearest, e) f, IsAway-cons edges goal i rest cut away)
    | inr (d, f, s) ↦ inr (d, rw (nearest, e) f, IsSpan-later edges goal i rest d cut s)
  ]
  | inr (d, e, at) ↦ elim (nearest-Spans edges rest goal) [
    | inl (f, away) ↦ inr (
      d,
      rw (nearest, e, f) refl,
      IsSpan-here edges goal i rest d at (λ j m n w. absurd (away j m n w)),
    )
    | inr (d', f, s) ↦
        inr (min d d', rw (nearest, e, f) refl, IsSpan-min edges goal i rest d d' at s)
  ]
]

module _ (edges : List Edge) (initials : List ℕ) (goal : ℕ) where
  pub nearest-IsSpan : (d : ℕ) → nearest edges initials goal ≡ some d → IsSpan edges initials goal d
  nearest-IsSpan d h = elim (nearest-Spans edges initials goal) [
    | inl (e, away) ↦ absurd (none-some (sym e ∙ h))
    | inr (d', e, s) ↦ subst (IsSpan edges initials goal) (some_inj (sym e ∙ h)) s
  ]

  pub nearest-IsAway : nearest edges initials goal ≡ none → IsAway edges initials goal
  nearest-IsAway h = elim (nearest-Spans edges initials goal) [
    | inl (e, away) ↦ away
    | inr (d', e, s) ↦ absurd (none-some (sym h ∙ e))
  ]

  pub IsSpan-nearest : (d : ℕ) → IsSpan edges initials goal d → nearest edges initials goal ≡ some d
  IsSpan-nearest d s = elim (nearest-Spans edges initials goal) [
    | inl (e, away) ↦ absurd (away s.start d s.initial s.walk)
    | inr (d', e, s') ↦
        e
        ∙ ap some (
            omega
              (arith, s.least s'.start d' s'.initial s'.walk, s'.least s.start d s.initial s.walk))
  ]
