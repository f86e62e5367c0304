-- ===== src/Prelude/Search.antt =====
-- What a search in a list finds.
use mathlib.Core.Path.{◌≡◌, refl, sym, subst}
use mathlib.Core.Bool.{Bool, true, false, ◌||◌}
use mathlib.Core.List.{List, [], ◌∷◌, ◌++◌, Memᴰ}
use mathlib.Core.Logic.{inl, inr, ◌⊎◌, ◌↔◌}
use mathlib.Core.Option.{none, some}
use native.Mathlib.Omega.{arith}
use pwms_project.Prelude.Tests.{Bool-cases, true-false}
use pwms_project.Prelude.Lists.{filter, find, exists}

module _ {ℓ} {A : Type ℓ} (p : A → Bool) where
  pub exists→mem : (xs : List A) → exists p xs ≡ true → (x : A) × Memᴰ x xs × (p x ≡ true)
  exists→mem [] h = absurd (ground arith)
  exists→mem (x ∷ xs) h = elim (Bool-cases (p x)) [
    | inl here ↦ (x, Memᴰ.head refl, here)
    | inr there ↦ let (y, m, e) = exists→mem xs (ground arith) in (y, Memᴰ.tail m, e)
  ]

  pub mem→exists : (xs : List A) {x : A} → Memᴰ x xs → p x ≡ true → exists p xs ≡ true
  mem→exists [] m h = elim m [ ]
  mem→exists (y ∷ ys) {x} (Memᴰ.head e) h = ground (arith, e)
  mem→exists (y ∷ ys) {x} (Memᴰ.tail m) h = ground (arith, mem→exists ys m h)

  mem-kept :
      (y : A) (ys zs : List A)
      → p y ≡ true
      → ((x : A) → Memᴰ x zs → Memᴰ x ys × (p x ≡ true))
      → {x : A} → Memᴰ x (y ∷ zs)
      → Memᴰ x (y ∷ ys) × (p x ≡ true)
  mem-kept y ys zs keep ih (Memᴰ.head e) = (Memᴰ.head e, rw e keep)
  mem-kept y ys zs keep ih (Memᴰ.tail n) = let (m, e) = ih _ n in (Memᴰ.tail m, e)

  pub mem-filter : (xs : List A) {x : A} → Memᴰ x (filter p xs) → Memᴰ x xs × (p x ≡ true)
  mem-filter [] m = elim m [ ]
  mem-filter (y ∷ ys) {x} m = elim (Bool-cases (p y)) [
    | inl keep ↦ mem-kept y ys (filter p ys) keep (λ z k. mem-filter ys {x = z} k) (rw keep at m)
    | inr drop ↦ let (n, e) = mem-filter ys (rw drop at m) in (Memᴰ.tail n, e)
  ]

  pub filter-mem : (xs : List A) {x : A} → Memᴰ x xs → p x ≡ true → Memᴰ x (filter p xs)
  filter-mem [] m h = elim m [ ]
  filter-mem (y ∷ ys) {x} (Memᴰ.head e) h = rw (← e, h) (Memᴰ.head refl)
  filter-mem (y ∷ ys) {x} (Memᴰ.tail m) h = elim (Bool-cases (p y)) [
    | inl keep ↦ rw keep (Memᴰ.tail (filter-mem ys m h))
    | inr drop ↦ rw drop (filter-mem ys m h)
  ]

  pub find→mem : (xs : List A) {x : A} → find p xs ≡ some x → Memᴰ x xs × (p x ≡ true)
  find→mem [] h = absurd (ground arith)
  find→mem (y ∷ ys) {x} h = elim (Bool-cases (p y)) [
    | inl here ↦ (Memᴰ.head (ground arith), ground arith)
    | inr there ↦ let (m, e) = find→mem ys {x = x} (ground arith) in (Memᴰ.tail m, e)
  ]

  pub exists-append : (xs ys : List A) → exists p (xs ++ ys) ≡ (exists p xs || exists p ys)
  exists-append [] ys = refl
  exists-append (x ∷ xs) ys = ground (arith, exists-append xs ys)

  pub find-append :
      (xs ys : List A) → find p (xs ++ ys) ≡ elim (find p xs) [ none ↦ find p ys | some x ↦ some x ]
  find-append [] ys = refl
  find-append (x ∷ xs) ys = ground (arith, find-append xs ys)

  pub filter-append : (xs ys : List A) → filter p (xs ++ ys) ≡ filter p xs ++ filter p ys
  filter-append [] ys = refl
  filter-append (x ∷ xs) ys = ground (arith, filter-append xs ys)

  pub filter-all : (xs : List A) → ((x : A) → Memᴰ x xs → p x ≡ true) → filter p xs ≡ xs
  filter-all [] h = refl
  filter-all (x ∷ xs) h =
      ground (arith, h x (Memᴰ.head refl), filter-all xs (λ y m. h y (Memᴰ.tail m)))

pub filter-agree {ℓ} :
    {A : Type ℓ} (p q : A → Bool) (xs : List A)
    → ((x : A) → Memᴰ x xs → p x ≡ q x)
    → filter p xs ≡ filter q xs
filter-agree p q [] h = refl
filter-agree p q (x ∷ xs) h =
    ground (arith, h x (Memᴰ.head refl), filter-agree p q xs (λ y m. h y (Memᴰ.tail m)))

pub List-cases {ℓ} :
    {A : Type ℓ} (xs : List A) → (xs ≡ []) ⊎ ((x : A) × (rest : List A) × (xs ≡ x ∷ rest))
List-cases [] = inl refl
List-cases (x ∷ rest) = inr (x, rest, refl)

pub filter_nil {ℓ} :
    {A : Type ℓ} (p : A → Bool) (xs : List A)
    → filter p xs ≡ [] ↔ ((x : A) → Memᴰ x xs → p x ≡ false)
filter_nil {A = A} p xs = (
  (λ e x m. elim (Bool-cases (p x)) [
    | inl kept ↦ elim (subst (Memᴰ x) e (filter-mem p xs m kept)) [ ]
    | inr dropped ↦ dropped
  ]),
  (λ h. elim (List-cases (filter p xs)) [
    | inl empty ↦ empty
    | inr (y, rest, e) ↦
        let (m, kept) = mem-filter p xs (subst (Memᴰ y) (sym e) (Memᴰ.head refl)) in
        absurd (true-false kept (h y m))
  ]),
)
