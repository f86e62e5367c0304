-- ===== src/Prelude/Keyed.antt =====
-- What a dict by primary key makes of a sequence of rows: a later row takes the place of an
-- earlier one with its key.
use Prim.Native.Nat.{ℕ}
use mathlib.Core.Path.{◌≡◌, refl, subst}
use mathlib.Core.Bool.{Bool, ◌||◌}
use mathlib.Core.List.{List, [], ◌∷◌}
use mathlib.Core.Logic.{◌≢◌, inl, inr}
use native.Mathlib.Omega.{arith}
use pwms_project.Prelude.Tests.{◌==◌, nat_eq, if◌then◌else◌, Bool-cases, beq→eq}
use pwms_project.Prelude.Lists.{All, exists}
use pwms_project.Prelude.Pairwise.{Apart}

module _ {ℓ} {A : Type ℓ} (key : A → ℕ) where
  unfoldable pub put_keyed : A → List A → List A
  put_keyed a [] = a ∷ []
  put_keyed a (b ∷ rest) =
      let later = b ∷ put_keyed a rest in if key b == key a then a ∷ rest else later

  unfoldable pub put_all : List A → List A → List A
  put_all [] rows = rows
  put_all (a ∷ rest) rows = put_all rest (put_keyed a rows)

  abbrev pub has_key : ℕ → List A → Bool
  has_key k rows = exists (λ a. key a == k) rows

  -- No key stands twice.
  abbrev pub Once : List A → Type 0
  Once rows = Apart (λ a b. key a ≢ key b) rows

  has_key-put_keyed :
      (k : ℕ) (a : A) (rows : List A)
      → has_key k (put_keyed a rows) ≡ (key a == k || has_key k rows)
  unfolding put_keyed
  has_key-put_keyed k a [] = ground arith
  has_key-put_keyed k a (b ∷ rows) = ground (arith, has_key-put_keyed k a rows)

  pub has_key-put_all :
      (k : ℕ) (xs rows : List A) → has_key k (put_all xs rows) ≡ (has_key k xs || has_key k rows)
  unfolding put_all
  has_key-put_all k [] rows = refl
  has_key-put_all k (a ∷ xs) rows =
      ground (arith, has_key-put_all k xs (put_keyed a rows), has_key-put_keyed k a rows)

  All-put_keyed {κ} :
      (P : A → Type κ) (a : A) (rows : List A) → P a → All P rows → All P (put_keyed a rows)
  unfolding put_keyed
  All-put_keyed P a [] p h = (p, tt)
  All-put_keyed P a (b ∷ rows) p (q, h) = elim (Bool-cases (key b == key a)) [
    | inl same ↦ rw same (p, h)
    | inr other ↦ rw other (q, All-put_keyed P a rows p h)
  ]

  pub All-put_all {κ} :
      (P : A → Type κ) (xs rows : List A) → All P xs → All P rows → All P (put_all xs rows)
  unfolding put_all
  All-put_all P [] rows h k = k
  All-put_all P (a ∷ xs) rows (p, h) k =
      All-put_all P xs (put_keyed a rows) h (All-put_keyed P a rows p k)

  put_keyed-Once : (a : A) (rows : List A) → Once rows → Once (put_keyed a rows)
  unfolding put_keyed
  put_keyed-Once a [] h = (tt, tt)
  put_keyed-Once a (b ∷ rows) (q, h) = elim (Bool-cases (key b == key a)) [
    | inl same ↦ rw same (subst (λ k. All (λ w. k ≢ key w) rows) (beq→eq (key b) (key a) same) q, h)
    | inr other ↦
        rw other
          (All-put_keyed (λ w. key b ≢ key w) a rows (ground arith) q, put_keyed-Once a rows h)
  ]

  pub put_all-Once : (xs rows : List A) → Once rows → Once (put_all xs rows)
  unfolding put_all
  put_all-Once [] rows h = h
  put_all-Once (a ∷ xs) rows h = put_all-Once xs (put_keyed a rows) (put_keyed-Once a rows h)
