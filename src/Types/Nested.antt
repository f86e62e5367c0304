-- ===== src/Types/Nested.antt =====
-- How types nest: get_descendant_types, src/pwms/models/workflows.py.
use pwms_project.Prelude.{
  ℕ, zero, suc, ◌≤◌, ◌≡◌, ◌≢◌, ◌↔◌, refl, ap, true, Option, none, some, List, [], ◌∷◌, ◌++◌, nat_eq,
  ◌==◌, arith, contains, length, filter, map, none-some, Bool-cases, Option-cases, inl, inr,
}
use pwms_project.Schema.{WorkflowType}
use pwms_project.Hierarchy.{is_child_type}
use pwms_project.Descent.Visits.{Distinct, times, Below, ParentsFirst, load, load_enter}
use pwms_project.Descent.Complete.{descend-Below, load_all}
use pwms_project.Types.{
  parent_type_of, climb_types, get_ancestor_types, allowed_child_types, get_descendant_types,
}

-- The parents that the types name, one for each type that has one.
parents : List WorkflowType → List ℕ
parents [] = []
parents (w ∷ types) = elim w.parent_type [ none ↦ parents types | some p ↦ p ∷ parents types ]

length-parents : (types : List WorkflowType) → length (parents types) ≤ length types
unfolding parents
length-parents [] = omega arith
length-parents (w ∷ types) = elim (Option-cases w.parent_type) [
  | inl root ↦ ground (arith, root, length-parents types)
  | inr (p, e) ↦ ground (arith, e, length-parents types)
]

count-parents :
    (pk : ℕ) (types : List WorkflowType)
    → length (map {B = ℕ} (λ w. w.pk) (filter (is_child_type pk) types)) ≡ times pk (parents types)
unfolding parents is_child_type
count-parents pk [] = refl
count-parents pk (w ∷ types) = elim (Option-cases w.parent_type) [
  | inl root ↦ ground (arith, root, count-parents pk types)
  | inr (p, e) ↦ ground (arith, e, count-parents pk types)
]

-- Whatever types name as their parents, cycles included: get_descendant_types ends with every type
-- that nests under the given one at any depth, the type itself left out, each once and after a
-- type that it is a child of.
pub get_descendant_types-Below :
    (types : List WorkflowType) (pk : ℕ)
    → let found = get_descendant_types types pk in
      Distinct found
      × ParentsFirst (allowed_child_types types) (pk ∷ []) found
      × ((x : ℕ) → (contains x found ≡ true) ↔ (Below (allowed_child_types types) pk x × (x ≢ pk)))
unfolding get_descendant_types allowed_child_types
get_descendant_types-Below types pk =
    descend-Below (allowed_child_types types) (parents types) sized (length types) pk
      (length-parents types)
  where
    sized : (k : ℕ) → length (allowed_child_types types k) ≤ times k (parents types)
    sized k = omega (arith, count-parents k types)

named_once :
    (types : List WorkflowType) (pk p : ℕ)
    → parent_type_of types pk ≡ some p
    → 1 ≤ times pk (map (λ w. w.pk) types)
unfolding parent_type_of
named_once [] pk p h = absurd (none-some h)
named_once (w ∷ types) pk p h = elim (Bool-cases (w.pk == pk)) [
  | inl here ↦ ground (arith, here)
  | inr other ↦ ground (arith, other, named_once types pk p (rw (parent_type_of, other) at h))
]

-- The loop of get_ancestor_types has gone round once for each type at most when it ends: more
-- rounds change nothing.
pub climb_types_enough :
    (types : List WorkflowType) (fuel more : ℕ) (seen : List ℕ) (node : Option ℕ)
    → suc (load seen (map (λ w. w.pk) types)) ≤ fuel
    → fuel ≤ more
    → climb_types more types seen node ≡ climb_types fuel types seen node
unfolding climb_types
climb_types_enough types fuel more seen none h le = refl
climb_types_enough types zero more seen (some pk) h le = absurd (omega (arith, h))
climb_types_enough types (suc fuel) zero seen (some pk) h le = absurd (omega (arith, le))
climb_types_enough types (suc fuel) (suc more) seen (some pk) h le =
    elim (Bool-cases (contains pk seen)) [
      | inl old ↦ rw (climb_types, old) refl
      | inr young ↦ elim (Option-cases (parent_type_of types pk)) [
        | inl root ↦ rw (climb_types, young, root) refl
        | inr (p, e) ↦
            let pks = map (λ w. w.pk) types in
            let lighter = load_enter pk seen pks young in
            rw (climb_types, young)
              (ap (λ above. above ++ (pk ∷ []))
                (climb_types_enough types fuel more (pk ∷ seen) (parent_type_of types pk)
                  (omega (arith, h, lighter, named_once types pk p e)) (omega (arith, le))))
      ]
    ]

length-pks : (types : List WorkflowType) → length (map {B = ℕ} (λ w. w.pk) types) ≡ length types
length-pks [] = refl
length-pks (w ∷ types) = ap suc (length-pks types)

-- get_ancestor_types ends by itself, on cycles too: any number of rounds above the one for each
-- type returns the same chain.
pub get_ancestor_types_enough :
    (types : List WorkflowType) (pk rounds : ℕ)
    → suc (length types) ≤ rounds
    → climb_types rounds types [] (parent_type_of types pk) ≡ get_ancestor_types types pk
unfolding get_ancestor_types
get_ancestor_types_enough types pk rounds h =
    let pks = map (λ w. w.pk) types in
    climb_types_enough types (suc (length types)) rounds [] (parent_type_of types pk)
      (omega (arith, load_all pks, length-pks types)) h
