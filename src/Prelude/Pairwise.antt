-- ===== src/Prelude/Pairwise.antt =====
-- Lists whose elements are apart from one another, and conditions on every element.
use mathlib.Core.Path.{◌≡◌, refl, sym, subst, ◌∙◌}
use mathlib.Core.Bool.{Bool}
use mathlib.Core.List.{List, [], ◌∷◌, ◌++◌, Memᴰ}
use mathlib.Core.Logic.{inl, inr}
use pwms_project.Prelude.Tests.{Bool-cases}
use pwms_project.Prelude.Lists.{All, filter}

module _ {ℓ κ} {A : Type ℓ} where
  pub mem→All : (P : A → Type κ) (xs : List A) → ((x : A) → Memᴰ x xs → P x) → All P xs
  mem→All P [] h = tt
  mem→All P (x ∷ xs) h = (h x (Memᴰ.head refl), mem→All P xs (λ y m. h y (Memᴰ.tail m)))

  pub All→mem : (P : A → Type κ) (xs : List A) {x : A} → All P xs → Memᴰ x xs → P x
  All→mem P [] h m = elim m [ ]
  All→mem P (y ∷ ys) (p, h) (Memᴰ.head e) = subst P (sym e) p
  All→mem P (y ∷ ys) (p, h) (Memᴰ.tail m) = All→mem P ys h m

  pub All-filter : (P : A → Type κ) (p : A → Bool) (xs : List A) → All P xs → All P (filter p xs)
  All-filter P p [] h = tt
  All-filter P p (x ∷ xs) (q, h) = elim (Bool-cases (p x)) [
    | inl keep ↦ rw keep (q, All-filter P p xs h)
    | inr drop ↦ rw drop (All-filter P p xs h)
  ]

  -- Each element is in the relation with those after it.
  abbrev pub Apart : (A → A → Type κ) → List A → Type κ
  Apart R [] = Unit
  Apart R (x ∷ xs) = All (R x) xs × Apart R xs

  pub Apart-filter :
      (R : A → A → Type κ) (p : A → Bool) (xs : List A) → Apart R xs → Apart R (filter p xs)
  Apart-filter R p [] h = tt
  Apart-filter R p (x ∷ xs) (q, h) = elim (Bool-cases (p x)) [
    | inl keep ↦ rw keep (All-filter (R x) p xs q, Apart-filter R p xs h)
    | inr drop ↦ rw drop (Apart-filter R p xs h)
  ]

  pub All-snoc : (P : A → Type κ) (xs : List A) (y : A) → All P xs → P y → All P (xs ++ (y ∷ []))
  All-snoc P [] y h p = (p, tt)
  All-snoc P (x ∷ xs) y (q, h) p = (q, All-snoc P xs y h p)

  pub Apart-snoc :
      (R : A → A → Type κ) (xs : List A) (y : A)
      → Apart R xs
      → All (λ x. R x y) xs
      → Apart R (xs ++ (y ∷ []))
  Apart-snoc R [] y h k = (tt, tt)
  Apart-snoc R (x ∷ xs) y (q, h) (r, k) = (All-snoc (R x) xs y q r, Apart-snoc R xs y h k)

  -- Of two elements the one is apart from the other, or they are the same.
  pub Apart→eq :
      (R : A → A → Type κ) (xs : List A) {x y : A}
      → Apart R xs
      → Memᴰ x xs
      → Memᴰ y xs
      → ¬ R x y
      → ¬ R y x
      → x ≡ y
  Apart→eq R [] h m n a b = elim m [ ]
  Apart→eq R (z ∷ zs) h (Memᴰ.head e) (Memᴰ.head k) a b = e ∙ sym k
  Apart→eq R (z ∷ zs) {y = y} (q, h) (Memᴰ.head e) (Memᴰ.tail n) a b =
      absurd (a (subst (λ w. R w y) (sym e) (All→mem (R z) zs q n)))
  Apart→eq R (z ∷ zs) {x} (q, h) (Memᴰ.tail m) (Memᴰ.head k) a b =
      absurd (b (subst (λ w. R w x) (sym k) (All→mem (R z) zs q m)))
  Apart→eq R (z ∷ zs) (q, h) (Memᴰ.tail m) (Memᴰ.tail n) a b = Apart→eq R zs h m n a b

  -- What stands before an element of the list is in the relation with it.
  pub Apart-middle :
      (R : A → A → Type κ) (xs : List A) (y : A) (ys : List A)
      → Apart R (xs ++ (y ∷ ys))
      → All (λ x. R x y) xs
  Apart-middle R [] y ys h = tt
  Apart-middle R (x ∷ xs) y ys (q, h) =
      (All→mem (R x) (xs ++ (y ∷ ys)) q (mem-middle xs), Apart-middle R xs y ys h)
    where
      mem-middle : (zs : List A) → Memᴰ y (zs ++ (y ∷ ys))
      mem-middle [] = Memᴰ.head refl
      mem-middle (z ∷ zs) = Memᴰ.tail (mem-middle zs)

  pub Apart-weaken :
      (R S : A → A → Type κ) (xs : List A)
      → ((x y : A) → Memᴰ x xs → Memᴰ y xs → R x y → S x y)
      → Apart R xs
      → Apart S xs
  Apart-weaken R S [] h d = tt
  Apart-weaken R S (x ∷ xs) h (q, d) = (
    mem→All (S x) xs (λ y m. h x y (Memᴰ.head refl) (Memᴰ.tail m) (All→mem (R x) xs q m)),
    Apart-weaken R S xs (λ y z m n. h y z (Memᴰ.tail m) (Memᴰ.tail n)) d,
  )
