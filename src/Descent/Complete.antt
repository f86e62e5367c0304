-- ===== src/Descent/Complete.antt =====
-- The walk with enough fuel: it collects exactly what is below its root.
use pwms_project.Prelude.{
  ℕ, zero, suc, ◌+◌, ◌≤◌, ◌≡◌, ◌≢◌, ◌↔◌, ◌⊎◌, refl, true, false, List, [], ◌∷◌, ◌++◌, Eq, ◌==◌,
  arith, contains, length, Bool-cases, inl, inr, true-false, beq→eq, beq_refl, beq_differ,
}
use pwms_project.Descent.{walk, descend}
use pwms_project.Descent.Visits.{
  contains-append, Distinct, Distinct-append, load, times, load_le, load_enter, Below, child_of,
  then_child, ParentsFirst, ParentsFirst-append, Walked, Walked-nothing, Walked-skip,
}

module _ {ℓ} {A : Type ℓ} ⦃same : Eq A⦄ where
  -- Where an element of what one child adds comes from.
  found_cases :
      (x child : A) (below later : List A)
      → contains x (child ∷ below ++ later) ≡ true
      → (x ≡ child) ⊎ ((contains x below ≡ true) ⊎ (contains x later ≡ true))
  found_cases x child below later h = elim (Bool-cases (x == child)) [
    | inl here ↦ inl (beq→eq x child here)
    | inr there ↦ elim (Bool-cases (contains x below)) [
      | inl deep ↦ inr (inl deep)
      | inr flat ↦ inr (inr (ground (arith, contains-append x below later)))
    ]
  ]

  pub load_all : (nodes : List A) → load [] nodes ≤ length nodes
  load_all [] = omega arith
  load_all (n ∷ nodes) = omega (arith, load_all nodes)

  module _ (children : A → List A) where
    Walked-enter :
        (child : A) (rest seen below within later after : List A)
        → contains child seen ≡ false
        → Walked children (children child) (child ∷ seen) below within
        → Walked children rest within later after
        → Walked children (child ∷ rest) seen (child ∷ below ++ later) after
    Walked-enter child rest seen below within later after young v w =
        let entered = v.keeps child (ground (arith, beq_refl child)) in
        let inside = w.keeps child entered in
        let new = λ (x : A) (m : contains x later ≡ true) (n : contains x within ≡ true).
          true-false n (w.fresh x m) in
        record {
          keeps = λ x h. w.keeps x (v.keeps x (ground arith));
          finds = λ x h. elim (found_cases x child below later h) [
            | inl e ↦ rw e inside
            | inr (inl m) ↦ w.keeps x (v.finds x m)
            | inr (inr m) ↦ w.finds x m
          ];
          origin = λ x h. elim (w.origin x h) [
            | inr m ↦ inr (ground (arith, contains-append x below later))
            | inl n ↦ elim (v.origin x n) [
              | inr m ↦ inr (ground (arith, contains-append x below later))
              | inl m ↦ elim (Bool-cases (x == child)) [
                | inl here ↦ inr (ground arith)
                | inr there ↦ inl (ground arith)
              ]
            ]
          ];
          covers = λ x h. elim (Bool-cases (x == child)) [
            | inl here ↦ rw (beq→eq x child here) inside
            | inr there ↦ w.covers x (ground arith)
          ];
          closed = λ x y h k. elim (found_cases x child below later h) [
            | inl e ↦ w.keeps y (v.covers y (rw e at k))
            | inr (inl m) ↦ w.keeps y (v.closed x y m k)
            | inr (inr m) ↦ w.closed x y m k
          ];
          fresh = λ x h. elim (found_cases x child below later h) [
            | inl e ↦ rw e young
            | inr (inl m) ↦ ground (arith, v.fresh x m)
            | inr (inr m) ↦ elim (Bool-cases (contains x seen)) [
              | inr out ↦ out
              | inl old ↦ absurd (new x m (v.keeps x (ground arith)))
            ]
          ];
          once = (
            elim (Bool-cases (contains child (below ++ later))) [
              | inr out ↦ out
              | inl twice ↦ elim (Bool-cases (contains child below)) [
                | inl m ↦ absurd (ground (arith, v.fresh child m, beq_refl child))
                | inr out ↦
                    absurd (new child (ground (arith, contains-append child below later)) entered)
              ]
            ],
            Distinct-append below later v.once w.once (λ x m. elim (Bool-cases (contains x later)) [
              | inr out ↦ out
              | inl n ↦ absurd (new x n (v.finds x m))
            ]),
          );
          ordered = λ placed h. (
            h child (ground (arith, beq_refl child)),
            ParentsFirst-append children (child ∷ placed) below later
                (v.ordered (child ∷ placed) (λ x m. (child, ground (arith, beq_refl child), m)))
                (w.ordered (child ∷ placed)
                  (λ x m. let (p, n, c) = h x (ground arith) in (p, ground arith, c))),
          );
        }

    module _ (nodes : List A) (sized : (x : A) → length (children x) ≤ times x nodes) where
      walk-Walked :
          (fuel : ℕ) (pending seen : List A)
          → length pending + load seen nodes ≤ fuel
          → let (found, after) = walk children fuel pending seen in
            Walked children pending seen found after
      unfolding walk
      walk-Walked zero [] seen h = Walked-nothing children seen
      walk-Walked zero (child ∷ rest) seen h = absurd (omega arith)
      walk-Walked (suc fuel) [] seen h = Walked-nothing children seen
      walk-Walked (suc fuel) (child ∷ rest) seen h = elim (Bool-cases (contains child seen)) [
        | inl old ↦
            let (found, after) = walk children fuel rest seen in
            rw (walk, old)
              (Walked-skip children child rest seen found after old
                (walk-Walked fuel rest seen (omega (arith, h))))
        | inr young ↦
            let (below, within) = walk children fuel (children child) (child ∷ seen) in
            let (later, after) = walk children fuel rest within in
            let room = load_enter child seen nodes young in
            let v =
              walk-Walked fuel (children child) (child ∷ seen)
                (omega (arith, h, sized child, room)) in
            let lighter = load_le seen within nodes (λ x m. v.keeps x (ground (arith, m))) in
            rw (walk, young)
              (Walked-enter child rest seen below within later after young v
                (walk-Walked fuel rest within (omega (arith, h, lighter))))
      ]

      -- What is collected after placed nodes that are the root or below it is below it.
      ParentsFirst-Below :
          (root : A) (placed xs : List A)
          → ((x : A) → contains x placed ≡ true → (x ≡ root) ⊎ Below children root x)
          → ParentsFirst children placed xs
          → (x : A) → contains x xs ≡ true
          → Below children root x
      ParentsFirst-Below root placed [] h k x m = absurd (ground arith)
      ParentsFirst-Below root placed (y ∷ xs) h ((p, n, c), k) x m =
          let first : Below children root y = elim (h p n) [
            | inl e ↦ child_of (rw e at c)
            | inr b ↦ then_child b c
          ] in
          elim (Bool-cases (x == y)) [
            | inl here ↦ rw (beq→eq x y here) first
            | inr there ↦
                ParentsFirst-Below root (y ∷ placed) xs
                  (λ z l. elim (Bool-cases (z == y)) [
                    | inl same_one ↦ inr (rw (beq→eq z y same_one) first)
                    | inr other ↦ h z (ground arith)
                  ])
                  k x (ground arith)
          ]

      Below-after :
          (root : A) (found after : List A)
          → Walked children (children root) (root ∷ []) found after
          → (x : A) → Below children root x
          → contains x after ≡ true
      Below-after root found after w x (child_of c) = w.covers x c
      Below-after root found after w x (then_child {y = y} b c) =
          elim (w.origin y (Below-after root found after w y b)) [
            | inl top ↦ elim (Bool-cases (y == root)) [
              | inl e ↦ w.covers x (rw (beq→eq y root e) at c)
              | inr other ↦ absurd (ground arith)
            ]
            | inr m ↦ w.closed y x m c
          ]

      -- With fuel for each link the walk collects exactly the nodes below the root, other than the
      -- root, each of them once and after a node that it is a child of.
      pub descend-Below :
          (fuel : ℕ) (root : A)
          → length nodes ≤ fuel
          → let found = descend children fuel root in
            Distinct found
            × ParentsFirst children (root ∷ []) found
            × ((x : A) → (contains x found ≡ true) ↔ (Below children root x × (x ≢ root)))
      unfolding descend
      descend-Below fuel root h =
          let (found, after) = walk children fuel (children root) (root ∷ []) in
          let w =
            walk-Walked fuel (children root) (root ∷ [])
              (omega (arith, h, sized root, load_enter root [] nodes refl, load_all nodes)) in
          let ordered = w.ordered (root ∷ []) (λ x m. (root, ground (arith, beq_refl root), m)) in
          (
            w.once,
            ordered,
            λ x. (
              λ m. (
                ParentsFirst-Below root (root ∷ []) found
                    (λ z l. elim (Bool-cases (z == root)) [
                      | inl e ↦ inl (beq→eq z root e)
                      | inr other ↦ absurd (ground arith)
                    ])
                    ordered x m,
                beq_differ x root (ground (arith, w.fresh x m)),
              ),
              λ (b, other). elim (w.origin x (Below-after root found after w x b)) [
                | inr m ↦ m
                | inl top ↦ elim (Bool-cases (x == root)) [
                  | inl e ↦ absurd (other (beq→eq x root e))
                  | inr differ ↦ absurd (ground arith)
                ]
              ],
            ),
          )
