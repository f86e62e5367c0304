-- ===== src/Progress/Order.antt =====
-- Terminals in the order of their states: the sorted() of _target_terminal,
-- src/pwms/services/progress.py, keeps what is in the list and puts it in order.
use mathlib.Core.List.{Memᴰ}
use pwms_project.Prelude.{ℕ, ◌≤◌, List, [], ◌∷◌, arith, Bool-cases, inl, inr, ltb, All}
use pwms_project.Schema.{State}
use pwms_project.Progress.{insert_by_order, sort_by_order}

abbrev pub IsOrdered : List State → Type 0
IsOrdered [] = Unit
IsOrdered (s ∷ rest) = All (λ y. s.order ≤ y.order) rest × IsOrdered rest

swap : {x a b : State} {rest : List State} → Memᴰ x (a ∷ b ∷ rest) → Memᴰ x (b ∷ a ∷ rest)
swap (Memᴰ.head e) = Memᴰ.tail (Memᴰ.head e)
swap (Memᴰ.tail (Memᴰ.head e)) = Memᴰ.head e
swap (Memᴰ.tail (Memᴰ.tail m)) = Memᴰ.tail (Memᴰ.tail m)

under :
    {x a : State} {xs ys : List State} → (Memᴰ x xs → Memᴰ x ys) → Memᴰ x (a ∷ xs) → Memᴰ x (a ∷ ys)
under f (Memᴰ.head e) = Memᴰ.head e
under f (Memᴰ.tail m) = Memᴰ.tail (f m)

insert-mem :
    (s : State) (states : List State) {x : State}
    → Memᴰ x (insert_by_order s states)
    → Memᴰ x (s ∷ states)
unfolding insert_by_order
insert-mem s [] m = m
insert-mem s (y ∷ rest) {x} m = elim (Bool-cases (ltb y.order s.order)) [
  | inl below ↦ swap (under (insert-mem s rest) (rw (insert_by_order, below) at m))
  | inr above ↦ rw (insert_by_order, above) at m
]

mem-insert :
    (s : State) (states : List State) {x : State}
    → Memᴰ x (s ∷ states)
    → Memᴰ x (insert_by_order s states)
unfolding insert_by_order
mem-insert s [] m = m
mem-insert s (y ∷ rest) {x} m = elim (Bool-cases (ltb y.order s.order)) [
  | inl below ↦ rw (insert_by_order, below) (under (mem-insert s rest) (swap m))
  | inr above ↦ rw (insert_by_order, above) m
]

pub sort-mem : (states : List State) {x : State} → Memᴰ x (sort_by_order states) → Memᴰ x states
unfolding sort_by_order
sort-mem [] m = m
sort-mem (s ∷ rest) m = under (sort-mem rest) (insert-mem s (sort_by_order rest) m)

pub mem-sort : (states : List State) {x : State} → Memᴰ x states → Memᴰ x (sort_by_order states)
unfolding sort_by_order
mem-sort [] m = m
mem-sort (s ∷ rest) m = mem-insert s (sort_by_order rest) (under (mem-sort rest) m)

insert-All :
    (n : ℕ) (s : State) (states : List State)
    → n ≤ s.order
    → All (λ y. n ≤ y.order) states
    → All (λ y. n ≤ y.order) (insert_by_order s states)
unfolding insert_by_order
insert-All n s [] le a = (le, tt)
insert-All n s (y ∷ rest) le (h, a) = elim (Bool-cases (ltb y.order s.order)) [
  | inl below ↦ rw (insert_by_order, below) (h, insert-All n s rest le a)
  | inr above ↦ rw (insert_by_order, above) (le, (h, a))
]

All-le :
    (m n : ℕ) (states : List State)
    → m ≤ n
    → All (λ y. n ≤ y.order) states
    → All (λ y. m ≤ y.order) states
All-le m n [] le a = tt
All-le m n (y ∷ rest) le (h, a) = (omega arith, All-le m n rest le a)

insert-IsOrdered :
    (s : State) (states : List State) → IsOrdered states → IsOrdered (insert_by_order s states)
unfolding insert_by_order
insert-IsOrdered s [] o = (tt, tt)
insert-IsOrdered s (y ∷ rest) (first, o) = elim (Bool-cases (ltb y.order s.order)) [
  | inl below ↦
      rw (insert_by_order, below)
        (insert-All y.order s rest (ground arith) first, insert-IsOrdered s rest o)
  | inr above ↦
      let le : s.order ≤ y.order = ground arith in
      rw (insert_by_order, above) ((le, All-le s.order y.order rest le first), (first, o))
]

pub sort-IsOrdered : (states : List State) → IsOrdered (sort_by_order states)
unfolding sort_by_order
sort-IsOrdered [] = tt
sort-IsOrdered (s ∷ rest) = insert-IsOrdered s (sort_by_order rest) (sort-IsOrdered rest)
