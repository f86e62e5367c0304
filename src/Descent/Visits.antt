-- ===== src/Descent/Visits.antt =====
-- What the walk collects: everything below the root, once, and after a node that it is a child of.
use pwms_project.Prelude.{
  ℕ, ◌+◌, ◌≤◌, ◌≡◌, ◌⊎◌, refl, true, false, not, ◌||◌, List, [], ◌∷◌, ◌++◌, Eq, ◌==◌, arith,
  contains, length, filter, Bool-cases, inl, inr, beq→eq, beq_refl,
}

module _ {ℓ} {A : Type ℓ} ⦃same : Eq A⦄ where
  pub contains-append :
      (x : A) (xs ys : List A) → contains x (xs ++ ys) ≡ (contains x xs || contains x ys)
  contains-append x [] ys = refl
  contains-append x (z ∷ xs) ys = ground (arith, contains-append x xs ys)

  abbrev pub Distinct : List A → Type 0
  Distinct [] = Unit
  Distinct (x ∷ xs) = (contains x xs ≡ false) × Distinct xs

  pub Distinct-append :
      (xs ys : List A)
      → Distinct xs
      → Distinct ys
      → ((x : A) → contains x xs ≡ true → contains x ys ≡ false)
      → Distinct (xs ++ ys)
  Distinct-append [] ys h k apart = k
  Distinct-append (x ∷ xs) ys (q, h) k apart = (
    ground (arith, contains-append x xs ys, q, apart x, beq_refl x),
    Distinct-append xs ys h k (λ z m. apart z (ground arith)),
  )

  -- The entries of `nodes` that have not been seen.
  abbrev pub load : List A → List A → ℕ
  load seen nodes = length (filter (λ n. not (contains n seen)) nodes)

  abbrev pub times : A → List A → ℕ
  times x nodes = length (filter (λ n. n == x) nodes)

  pub load_le :
      (seen more nodes : List A)
      → ((x : A) → contains x seen ≡ true → contains x more ≡ true)
      → load more nodes ≤ load seen nodes
  load_le seen more [] h = omega arith
  load_le seen more (n ∷ nodes) h = ground (arith, load_le seen more nodes h, h n)

  pub load_enter :
      (x : A) (seen nodes : List A)
      → contains x seen ≡ false
      → times x nodes + load (x ∷ seen) nodes ≤ load seen nodes
  load_enter x seen [] h = omega arith
  load_enter x seen (n ∷ nodes) h = elim (Bool-cases (n == x)) [
    | inl here ↦ ground (arith, load_enter x seen nodes h, beq→eq n x here)
    | inr other ↦ ground (arith, load_enter x seen nodes h)
  ]

  module _ (children : A → List A) where
    -- Below a node: its children, and what is below them.
    pub data Below : A → A → Type ℓ where
      child_of : {x y : A} → contains y (children x) ≡ true → Below x y
      then_child : {x y z : A} → Below x y → contains z (children y) ≡ true → Below x z

    abbrev pub HasParent : List A → A → Type ℓ
    HasParent placed x = (p : A) × (contains p placed ≡ true) × (contains x (children p) ≡ true)

    -- Each has a parent among those before it or those placed already.
    abbrev pub ParentsFirst : List A → List A → Type ℓ
    ParentsFirst placed [] = Unit
    ParentsFirst placed (x ∷ xs) = HasParent placed x × ParentsFirst (x ∷ placed) xs

    ParentsFirst-more :
        (placed more xs : List A)
        → ((x : A) → contains x placed ≡ true → contains x more ≡ true)
        → ParentsFirst placed xs
        → ParentsFirst more xs
    ParentsFirst-more placed more [] h k = tt
    ParentsFirst-more placed more (x ∷ xs) h ((p, m, c), k) =
        ((p, h p m, c), ParentsFirst-more (x ∷ placed) (x ∷ more) xs (λ z n. ground (arith, h z)) k)

    pub ParentsFirst-append :
        (placed xs ys : List A)
        → ParentsFirst placed xs
        → ParentsFirst placed ys
        → ParentsFirst placed (xs ++ ys)
    ParentsFirst-append placed [] ys h k = k
    ParentsFirst-append placed (x ∷ xs) ys (q, h) k = (
      q,
      ParentsFirst-append (x ∷ placed) xs ys h
          (ParentsFirst-more placed (x ∷ placed) ys (λ z m. ground arith) k),
    )

    -- What one call of the walk does.
    pub record Walked (pending seen found after : List A) : Type ℓ where
      pub keeps : (x : A) → contains x seen ≡ true → contains x after ≡ true
      pub finds : (x : A) → contains x found ≡ true → contains x after ≡ true
      pub origin :
          (x : A) → contains x after ≡ true → (contains x seen ≡ true) ⊎ (contains x found ≡ true)
      pub covers : (x : A) → contains x pending ≡ true → contains x after ≡ true
      pub closed :
          (x y : A)
          → contains x found ≡ true
          → contains y (children x) ≡ true
          → contains y after ≡ true
      pub fresh : (x : A) → contains x found ≡ true → contains x seen ≡ false
      pub once : Distinct found
      pub ordered :
          (placed : List A)
          → ((x : A) → contains x pending ≡ true → HasParent placed x)
          → ParentsFirst placed found

    pub Walked-nothing : (seen : List A) → Walked [] seen [] seen
    Walked-nothing seen = record {
      keeps = λ x h. h;
      finds = λ x h. absurd (ground arith);
      origin = λ x h. inl h;
      covers = λ x h. absurd (ground arith);
      closed = λ x y h k. absurd (ground arith);
      fresh = λ x h. absurd (ground arith);
      once = tt;
      ordered = λ placed h. tt;
    }

    pub Walked-skip :
        (child : A) (rest seen found after : List A)
        → contains child seen ≡ true
        → Walked rest seen found after
        → Walked (child ∷ rest) seen found after
    Walked-skip child rest seen found after old w = record {
      keeps = w.keeps;
      finds = w.finds;
      origin = w.origin;
      covers = λ x h. elim (Bool-cases (x == child)) [
        | inl here ↦ w.keeps x (rw (beq→eq x child here) old)
        | inr there ↦ w.covers x (ground arith)
      ];
      closed = w.closed;
      fresh = w.fresh;
      once = w.once;
      ordered = λ placed h. w.ordered placed (λ x m. h x (ground arith));
    }
