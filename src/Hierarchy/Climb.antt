-- ===== src/Hierarchy/Climb.antt =====
-- Climbing along a partial function to the parent.
use pwms_project.Prelude.{
  ℕ, zero, suc, ◌≤◌, ◌<◌, ◌≡◌, ◌≢◌, refl, true, false, ◌||◌, Option, none, some, List, [], ◌∷◌,
  ◌++◌, Key, arith, if◌then◌else◌, ◌==◌, key_eq, contains, length, length-append, Bool-cases,
  Option-cases, inl, inr, All, key_beq_iff, beq→eq, sym, ◌∙◌, subst,
}
use pwms_project.Hierarchy.{climb, level_from, cycle_from}

-- The root is `n` steps above.
abbrev pub Height : (Key → Option Key) → Key → ℕ → Type 0
Height up k zero = up k ≡ none
Height up k (suc n) = (p : Key) × (up k ≡ some p) × Height up p n

-- Every climb ends: the links form a forest.
abbrev pub IsForest : (Key → Option Key) → Type 0
IsForest up = (k : Key) → (n : ℕ) × Height up k n

-- `c` is `k`, or `n` steps above it.
abbrev pub Above : (Key → Option Key) → Key → Key → ℕ → Type 0
Above up c k zero = k ≡ c
Above up c k (suc n) = (p : Key) × (up k ≡ some p) × Above up c p n

-- The climb from `k` ends after `n` steps and does not meet `c`.
abbrev pub Clears : (Key → Option Key) → Key → Key → ℕ → Type 0
Clears up c k zero = (k ≢ c) × (up k ≡ none)
Clears up c k (suc n) = (k ≢ c) × ((p : Key) × (up k ≡ some p) × Clears up c p n)

-- A parent is given to `c`, or taken from it.
abbrev pub attached : (Key → Option Key) → Key → Option Key → Key → Option Key
attached up c p k = if k == c then p else up k

module _ (up : Key → Option Key) where
  pub Height-unique : (k : Key) (n m : ℕ) → Height up k n → Height up k m → n ≡ m
  Height-unique k zero zero h g = refl
  Height-unique k zero (suc m) h (p, e, g) = cc
  Height-unique k (suc n) zero (p, e, h) g = cc
  Height-unique k (suc n) (suc m) (p, e, h) (q, f, g) =
      let same : p ≡ q = ground arith in
      omega (arith, Height-unique q n m (subst (λ x. Height up x n) same h) g)

  pub Clears-not-Above : (c k : Key) (n m : ℕ) → Clears up c k n → ¬ Above up c k m
  Clears-not-Above c k zero zero h a = h.0 a
  Clears-not-Above c k (suc n) zero h a = h.0 a
  Clears-not-Above c k zero (suc m) h (p, e, a) = cc
  Clears-not-Above c k (suc n) (suc m) (ne, (p, e, h)) (q, f, a) =
      let same : q ≡ p = ground arith in
      Clears-not-Above c p n m h (subst (λ x. Above up c x m) same a)

  module _ (c : Key) where
    key_ne : (k : Key) → k ≢ c → (k == c) ≡ false
    key_ne k ne = elim (Bool-cases (k == c)) [
      | inl same ↦ absurd (ne (beq→eq k c same))
      | inr other ↦ other
    ]

    -- A climb that does not meet `c` does not see what is done to `c`.
    pub Clears-attached :
        (p : Option Key) (k : Key) (n : ℕ) → Clears up c k n → Clears (attached up c p) c k n
    Clears-attached p k zero (ne, top) = (ne, rw (key_ne k ne) top)
    Clears-attached p k (suc n) (ne, (q, e, h)) =
        (ne, (q, rw (key_ne k ne) e, Clears-attached p q n h))

    pub Clears-Height : (k : Key) (n : ℕ) → Clears up c k n → Height up k n
    Clears-Height k zero h = h.1
    Clears-Height k (suc n) (ne, (q, e, h)) = (q, e, Clears-Height q n h)

  module _ (c : Key) (p : Option Key) (top : (n : ℕ) × Height (attached up c p) c n) where
    pub Height-attached : (k : Key) (n : ℕ) → Height up k n → (m : ℕ) × Height (attached up c p) k m
    Height-attached k zero h = elim (Bool-cases (k == c)) [
      | inl same ↦ rw (beq→eq k c same) top
      | inr other ↦ (0, rw other h)
    ]
    Height-attached k (suc n) (q, e, h) =
        let (m, g) = Height-attached q n h in
        elim (Bool-cases (k == c)) [
          | inl same ↦ rw (beq→eq k c same) top
          | inr other ↦ (suc m, (q, rw other e, g))
        ]

  -- What is above a key is higher: a key of height `n` is not among keys of greater height.
  abbrev pub Higher : ℕ → Key → Type 0
  Higher n x = (m : ℕ) × Height up x m × (n < m)

  pub not-contains :
      (k : Key) (n : ℕ) (seen : List Key)
      → Height up k n
      → All (Higher n) seen
      → contains k seen ≡ false
  not-contains k n [] h a = refl
  not-contains k n (x ∷ seen) h ((m, g, lt), a) = elim (Bool-cases (k == x)) [
    | inl same ↦
        absurd
          (omega (arith, Height-unique x n m (subst (λ y. Height up y n) (beq→eq k x same) h) g))
    | inr other ↦ rw other (not-contains k n seen h a)
  ]

  pub Higher-weaken : (n : ℕ) (seen : List Key) → All (Higher (suc n)) seen → All (Higher n) seen
  Higher-weaken n [] a = tt
  Higher-weaken n (x ∷ seen) ((m, g, lt), a) = ((m, g, omega arith), Higher-weaken n seen a)

  module _ (c : Key) where
    -- A link that the check lets pass starts a climb that ends and does not meet the child.
    pub cycle_from-Clears :
        (fuel : ℕ) (seen : List Key) (k : Key)
        → cycle_from fuel up c seen (some k) ≡ false
        → (n : ℕ) × Clears up c k n
    unfolding cycle_from
    cycle_from-Clears zero seen k h = cc
    cycle_from-Clears (suc fuel) seen k h = elim (Bool-cases (k == c || contains k seen)) [
      | inl stop ↦ absurd (ground arith)
      | inr on ↦
          let ne : k ≢ c = λ e. ground (arith, key_beq_iff k c) in
          elim (Option-cases (up k)) [
            | inl top ↦ (0, (ne, top))
            | inr (p, e) ↦
                let (n, g) = cycle_from-Clears fuel (k ∷ seen) p (ground arith) in
                (suc n, (ne, (p, e, g)))
          ]
    ]

    -- In a forest a link is refused only if the child is the parent or above it.
    pub cycle_from-Above :
        (fuel : ℕ) (seen : List Key) (k : Key) (n : ℕ)
        → Height up k n
        → n < fuel
        → All (Higher n) seen
        → cycle_from fuel up c seen (some k) ≡ true
        → (m : ℕ) × Above up c k m
    unfolding cycle_from
    cycle_from-Above zero seen k n h lt a e = absurd (omega arith)
    cycle_from-Above (suc fuel) seen k zero h lt a e = elim (Bool-cases (k == c)) [
      | inl here ↦ (0, beq→eq k c here)
      | inr there ↦ absurd (ground (arith, not-contains k 0 seen h a))
    ]
    cycle_from-Above (suc fuel) seen k (suc n) (p, f, h) lt a e = elim (Bool-cases (k == c)) [
      | inl here ↦ (0, beq→eq k c here)
      | inr there ↦
          let new = not-contains k (suc n) seen (p, f, h) a in
          let e' : cycle_from fuel up c (k ∷ seen) (some p) ≡ true = ground arith in
          let seen' : All (Higher n) (k ∷ seen) =
            ((suc n, (p, f, h), omega arith), Higher-weaken n seen a) in
          let (m, g) = cycle_from-Above fuel (k ∷ seen) p n h (omega arith) seen' e' in
          (suc m, (p, f, g))
    ]

  -- The keys above `k`, root first.
  abbrev pub AncestorsOf : Key → ℕ → List Key → Type 0
  AncestorsOf k zero xs = (up k ≡ none) × (xs ≡ [])
  AncestorsOf k (suc n) xs =
      (p : Key) × (ys : List Key) × (up k ≡ some p) × (xs ≡ ys ++ p ∷ []) × AncestorsOf p n ys

  abbrev pub AtLeast : ℕ → Key → Type 0
  AtLeast n x = (m : ℕ) × Height up x m × (n ≤ m)

  AtLeast-weaken : (n : ℕ) (seen : List Key) → All (AtLeast (suc n)) seen → All (AtLeast n) seen
  AtLeast-weaken n [] a = tt
  AtLeast-weaken n (x ∷ seen) ((m, g, le), a) = ((m, g, omega arith), AtLeast-weaken n seen a)

  -- With fuel for the height, the loop returns all the keys above.
  pub climb-AncestorsOf :
      (fuel : ℕ) (seen : List Key) (k : Key) (n : ℕ)
      → Height up k n
      → n ≤ fuel
      → All (AtLeast n) seen
      → AncestorsOf k n (climb fuel up seen (up k))
  unfolding climb
  climb-AncestorsOf fuel seen k zero h le a = (h, rw (h, climb))
  climb-AncestorsOf zero seen k (suc n) h le a = absurd (omega arith)
  climb-AncestorsOf (suc fuel) seen k (suc n) (p, e, h) le a =
      let new = not-contains p n seen h a in
      let seen' : All (AtLeast n) (p ∷ seen) = ((n, h, omega arith), AtLeast-weaken n seen a) in
      (
        p,
        climb fuel up (p ∷ seen) (up p),
        e,
        rw (e, climb) (rw new),
        climb-AncestorsOf fuel (p ∷ seen) p n h (omega arith) seen',
      )

  -- The level counts the same rounds.
  pub level_from-climb :
      (fuel : ℕ) (seen : List Key) (node : Option Key)
      → level_from fuel up seen node ≡ length (climb fuel up seen node)
  unfolding climb level_from
  level_from-climb fuel seen none = refl
  level_from-climb zero seen (some k) = refl
  level_from-climb (suc fuel) seen (some k) =
      let above = climb fuel up (k ∷ seen) (up k) in
      ground (arith, level_from-climb fuel (k ∷ seen) (up k), length-append above (k ∷ []))

  pub AncestorsOf-unique :
      (k : Key) (n m : ℕ) (xs ys : List Key) → AncestorsOf k n xs → AncestorsOf k m ys → xs ≡ ys
  AncestorsOf-unique k zero zero xs ys (e, f) (e', f') = f ∙ sym f'
  AncestorsOf-unique k zero (suc m) xs ys (e, f) (p, zs, e', f', h) = cc
  AncestorsOf-unique k (suc n) zero xs ys (p, zs, e, f, h) (e', f') = cc
  AncestorsOf-unique k (suc n) (suc m) xs ys (p, zs, e, f, h) (q, ws, e', f', h') =
      let same : p ≡ q = ground arith in
      let tails = AncestorsOf-unique q n m zs ws (subst (λ x. AncestorsOf x n zs) same h) h' in
      rw (f, f', tails, same)
