-- ===== src/Progress/Frontier.antt =====
-- The invariant of the breadth-first search: what has been seen, and the queue as two levels.
use pwms_project.Prelude.{
  true-false, ℕ, zero, suc, ◌≤◌, ◌≡◌, true, false, List, [], ◌∷◌, ◌++◌, ◌==◌, nat_eq, refl, arith,
  contains, Bool-cases, inl, inr, beq→eq, beq_refl, ◌∙◌, sym, subst, ◌||◌,
}
use pwms_project.Progress.{Edge, Entry, adjacent}
use pwms_project.Progress.Walks.{Joins, Walk, stay, step}
use pwms_project.Progress.Visits.{Visited}

pub contains-append :
    (x : ℕ) (xs ys : List ℕ) → contains x (xs ++ ys) ≡ (contains x xs || contains x ys)
contains-append x [] ys = refl
contains-append x (y ∷ xs) ys = ground (arith, contains-append x xs ys)

-- The states at a distance `k` that are still queued are `cur`, those one further are `nxt`.
pub record Frontier (edges : List Edge) (start goal k : ℕ) (cur nxt seen : List ℕ) : Type 0 where
  pub started : contains start seen ≡ true
  pub away : contains goal seen ≡ false
  pub reached : (n v : ℕ) → n ≤ k → Walk edges start n v → contains v seen ≡ true
  pub at : (v : ℕ) → contains v cur ≡ true → Walk edges start k v
  pub beyond :
      (v : ℕ)
      → contains v nxt ≡ true
      → Walk edges start (suc k) v × ((n : ℕ) → n ≤ k → Walk edges start n v → ⊥)
  pub closed :
      (u v : ℕ)
      → contains u seen ≡ true
      → contains u cur ≡ false
      → contains u nxt ≡ false
      → Joins edges u v
      → contains v seen ≡ true

module _ (edges : List Edge) (start goal k : ℕ) where
  level_reached :
      (nxt seen : List ℕ)
      → Frontier edges start goal k [] nxt seen
      → (n v : ℕ) → n ≤ suc k
      → Walk edges start n v
      → contains v seen ≡ true
  level_reached nxt seen f zero v le w = f.reached zero v (omega arith) w
  level_reached nxt seen f (suc n) v le (step {u = u} w j) =
      let before = f.reached n u (omega arith) w in
      elim (Bool-cases (contains u nxt)) [
        | inl queued ↦ absurd ((f.beyond u queued).1 n (omega arith) w)
        | inr done ↦ f.closed u v before refl done j
      ]

  pub Frontier-level :
      (nxt seen : List ℕ)
      → Frontier edges start goal k [] nxt seen
      → Frontier edges start goal (suc k) nxt [] seen
  Frontier-level nxt seen f = record {
    started = f.started;
    away = f.away;
    reached = level_reached nxt seen f;
    at = λ v h. (f.beyond v h).0;
    beyond = λ v h. absurd (ground arith);
    closed = λ u v s c n j. f.closed u v s refl c j;
  }

  start_reached : (n v : ℕ) → n ≤ 0 → Walk edges start n v → contains v (start ∷ []) ≡ true
  start_reached zero v le stay = ground (arith, beq_refl start)
  start_reached (suc n) v le w = absurd (omega arith)

  pub Frontier-start :
      (start == goal) ≡ false → Frontier edges start goal 0 (start ∷ []) [] (start ∷ [])
  Frontier-start apart = record {
    started = ground (arith, beq_refl start);
    away = ground arith;
    reached = start_reached;
    at = λ v h. subst (Walk edges start 0) (sym (beq→eq v start (ground arith))) stay;
    beyond = λ v h. absurd (ground arith);
    closed = λ u v s c n j. absurd (true-false s c);
  }

  module _ (u : ℕ) (cur nxt seen : List ℕ) (queue : List Entry)
      (f : Frontier edges start goal k (u ∷ cur) nxt seen)
      (v : Visited goal k (adjacent edges u) seen queue) where
    visited_beyond :
        (x : ℕ)
        → contains x v.new ≡ true
        → Walk edges start (suc k) x × ((n : ℕ) → n ≤ k → Walk edges start n x → ⊥)
    visited_beyond x h =
        let (m, i, o) = v.fresh x h in
        (step (f.at u (ground (arith, beq_refl u))) i, λ n le w. true-false (f.reached n x le w) o)

    visited_closed :
        (x y : ℕ)
        → contains x v.more ≡ true
        → contains x cur ≡ false
        → (contains x nxt || contains x v.new) ≡ false
        → Joins edges x y
        → contains y v.more ≡ true
    visited_closed x y s c n j = elim (Bool-cases (x == u)) [
      | inl here ↦ v.covers y (subst (λ z. Joins edges z y) (beq→eq x u here) j)
      | inr there ↦ elim (v.origin x s) [
        | inl was ↦ v.keeps y (f.closed x y was (ground arith) (ground arith) j)
        | inr made ↦ absurd (ground arith)
      ]
    ]

    visited_away : contains goal v.more ≡ false
    visited_away = elim (Bool-cases (contains goal v.more)) [
      | inr out ↦ out
      | inl found ↦ elim (v.origin goal found) [
        | inl was ↦ absurd (true-false was f.away)
        | inr made ↦ absurd (true-false (v.fresh goal made).1 v.misses)
      ]
    ]

    pub Frontier-visit : Frontier edges start goal k cur (nxt ++ v.new) v.more
    Frontier-visit = record {
      started = v.keeps start f.started;
      away = visited_away;
      reached = λ n x le w. v.keeps x (f.reached n x le w);
      at = λ x h. f.at x (ground arith);
      beyond = λ x h. elim (Bool-cases (contains x nxt)) [
        | inl old ↦ f.beyond x old
        | inr young ↦ visited_beyond x (ground (arith, contains-append x nxt v.new))
      ];
      closed = λ x y s c n j. visited_closed x y s c (sym (contains-append x nxt v.new) ∙ n) j;
    }
