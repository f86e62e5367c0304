-- ===== src/Machine/Children.antt =====
-- The children of an instance as a guard reads them: sub_workflows and _all_children_closed.
use pwms_project.Prelude.{
  List-cases, none-some, Bool, true, none, some, List, [], ◌∷◌, Key, ◌==◌, key_eq, nat_eq,
  string_eq, filter, ◌≡◌, ◌↔◌, arith, refl, sym, ap, ◌∙◌, Bool-cases, Option-cases, inl, inr,
  beq→eq, beq_refl, mem-filter, filter-mem,
}
use mathlib.Core.List.{Memᴰ}
use pwms_project.Schema.{Instance}
use pwms_project.Hierarchy.{Relationship, Tree, instance_of}
use pwms_project.Machine.{Database, met, open_among, open_children, all_children_closed}

-- A child that exists and is in a terminal state.
unfoldable pub Closed : Tree → Relationship → Type 0
Closed t l =
    (child : Instance) × (instance_of l.child t ≡ some child)
    × (child.current_state.is_terminal ≡ true)

gone_head :
    (t : Tree) (l : Relationship) (rest : List Relationship)
    → instance_of l.child t ≡ none
    → open_among t (l ∷ rest) ≡ none
unfolding open_among
gone_head t l rest gone = rw (open_among, gone) refl

closed_head :
    (t : Tree) (l : Relationship) (rest : List Relationship) (child : Instance)
    → instance_of l.child t ≡ some child
    → open_among t (l ∷ rest) ≡ some []
    → (child.current_state.is_terminal ≡ true) × (open_among t rest ≡ some [])
unfolding open_among
closed_head t l rest child found e = elim (Option-cases (open_among t rest)) [
  | inl gone ↦ absurd (ground arith)
  | inr (others, f) ↦ elim (Bool-cases child.current_state.is_terminal) [
    | inl shut ↦ (shut, ground arith)
    | inr still ↦ absurd (ground arith)
  ]
]

open_among-Closed :
    (t : Tree) (ls : List Relationship)
    → open_among t ls ≡ some []
    → (l : Relationship) → Memᴰ l ls
    → Closed t l
unfolding Closed
open_among-Closed t [] e l m = elim m [ ]
open_among-Closed t (x ∷ rest) e l m = elim (Option-cases (instance_of x.child t)) [
  | inl gone ↦ absurd (none-some (sym (gone_head t x rest gone) ∙ e))
  | inr (child, found) ↦
      let (shut, others) = closed_head t x rest child found e in
      elim m [
        | Memᴰ.head same ↦ rw same (child, found, shut)
        | Memᴰ.tail n ↦ open_among-Closed t rest others l n
      ]
]

Closed-open_among :
    (t : Tree) (ls : List Relationship)
    → ((l : Relationship) → Memᴰ l ls → Closed t l)
    → open_among t ls ≡ some []
unfolding open_among Closed
Closed-open_among t [] h = refl
Closed-open_among t (x ∷ rest) h =
    let (child, found, shut) = h x (Memᴰ.head refl) in
    let others = Closed-open_among t rest (λ l m. h l (Memᴰ.tail m)) in
    ground (arith, found, shut, others)

child_links : (k : Key) (d : Database) → List Relationship
child_links k d = filter (λ l. l.parent == k) d.tree.links

pub all_children_closed-met :
    (k : Key) (d : Database)
    → all_children_closed k d ≡ met
      ↔ ((l : Relationship) → Memᴰ l d.tree.links → l.parent ≡ k → Closed d.tree l)
unfolding all_children_closed open_children
all_children_closed-met k d =
    let p : Relationship → Bool = λ l. l.parent == k in
    (
      (λ e l m at. elim (Option-cases (open_children k d)) [
        | inl gone ↦ absurd (ground (arith, gone))
        | inr (open_ones, f) ↦ elim (List-cases open_ones) [
          | inl empty ↦
              open_among-Closed d.tree (filter p d.tree.links) (f ∙ ap some empty) l
                (filter-mem p d.tree.links m (rw at (beq_refl k)))
          | inr (y, rest, g) ↦ absurd (ground (arith, f, g))
        ]
      ]),
      (λ h.
          rw
            (
              all_children_closed,
              open_children,
              Closed-open_among d.tree (filter p d.tree.links) (λ l m.
                  let (n, at) = mem-filter p d.tree.links m in h l n (beq→eq l.parent k at)),
            )
            refl),
    )
