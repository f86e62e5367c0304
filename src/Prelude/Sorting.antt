-- ===== src/Prelude/Sorting.antt =====
-- The order of a query: an insertion sort by a test of what comes before what.
use mathlib.Core.Logic.{inl, inr}
use mathlib.Core.Bool.{Bool}
use mathlib.Core.List.{List, [], ◌∷◌, Memᴰ}
use mathlib.Core.Path.{◌≡◌, refl, ap, ◌∙◌}
use Prim.Native.Nat.{suc}
use native.Mathlib.Omega.{arith}
use pwms_project.Prelude.Lists.{length}
use pwms_project.Prelude.Tests.{if◌then◌else◌, Bool-cases}

module _ {ℓ} {A : Type ℓ} (before : A → A → Bool) where
  unfoldable pub insert_where : A → List A → List A
  insert_where a [] = a ∷ []
  insert_where a (x ∷ rest) =
      let later = x ∷ insert_where a rest in if before x a then later else a ∷ x ∷ rest

  unfoldable pub sort_where : List A → List A
  sort_where [] = []
  sort_where (x ∷ rest) = insert_where x (sort_where rest)

  under-tail :
      {y z : A} {xs ys : List A} → (Memᴰ z xs → Memᴰ z ys) → Memᴰ z (y ∷ xs) → Memᴰ z (y ∷ ys)
  under-tail h (Memᴰ.head e) = Memᴰ.head e
  under-tail h (Memᴰ.tail m) = Memᴰ.tail (h m)

  swap : {y z x : A} {xs : List A} → Memᴰ z (y ∷ x ∷ xs) → Memᴰ z (x ∷ y ∷ xs)
  swap (Memᴰ.head e) = Memᴰ.tail (Memᴰ.head e)
  swap (Memᴰ.tail (Memᴰ.head e)) = Memᴰ.head e
  swap (Memᴰ.tail (Memᴰ.tail m)) = Memᴰ.tail (Memᴰ.tail m)

  insert-mem : (a : A) (xs : List A) {z : A} → Memᴰ z (insert_where a xs) → Memᴰ z (a ∷ xs)
  unfolding insert_where
  insert-mem a [] m = m
  insert-mem a (x ∷ rest) m = elim (Bool-cases (before x a)) [
    | inl goes ↦ swap (under-tail (insert-mem a rest) (rw goes at m))
    | inr stays ↦ rw stays at m
  ]

  mem-insert : (a : A) (xs : List A) {z : A} → Memᴰ z (a ∷ xs) → Memᴰ z (insert_where a xs)
  unfolding insert_where
  mem-insert a [] m = m
  mem-insert a (x ∷ rest) m = elim (Bool-cases (before x a)) [
    | inl goes ↦ rw goes (under-tail (mem-insert a rest) (swap m))
    | inr stays ↦ rw stays m
  ]

  pub sort-mem : (xs : List A) {z : A} → Memᴰ z (sort_where xs) → Memᴰ z xs
  unfolding sort_where
  sort-mem [] m = m
  sort-mem (x ∷ rest) m = under-tail (sort-mem rest) (insert-mem x (sort_where rest) m)

  pub mem-sort : (xs : List A) {z : A} → Memᴰ z xs → Memᴰ z (sort_where xs)
  unfolding sort_where
  mem-sort [] m = m
  mem-sort (x ∷ rest) m = mem-insert x (sort_where rest) (under-tail (mem-sort rest) m)

  length-insert_where : (a : A) (xs : List A) → length (insert_where a xs) ≡ suc (length xs)
  unfolding insert_where
  length-insert_where a [] = refl
  length-insert_where a (x ∷ rest) = ground (arith, length-insert_where a rest)

  pub length-sort_where : (xs : List A) → length (sort_where xs) ≡ length xs
  unfolding sort_where
  length-sort_where [] = refl
  length-sort_where (x ∷ rest) =
      length-insert_where x (sort_where rest) ∙ ap suc (length-sort_where rest)
