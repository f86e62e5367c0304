-- ===== src/Types/Creatable.antt =====
-- creatable_by and can_create agree.
use mathlib.Core.List.{Memᴰ}
use pwms_project.Prelude.{
  ℕ, ◌≡◌, ◌↔◌, refl, Bool, true, false, ◌&&◌, not, Option, none, some, List, [], ◌∷◌, if◌then◌else◌,
  ◌==◌, nat_eq, filter, contains, map, arith, Bool-cases, inl, inr, subst, sym, ap, beq→eq,
  beq_refl, mem-filter, filter-mem, true-false,
}
use pwms_project.Schema.{User, WorkflowType}
use pwms_project.Types.{of_its_group, can_create, allowed_ids, creatable_by}

-- Primary keys are unique.
unfoldable pub IsKeyed : List WorkflowType → Type 0
IsKeyed types = (v w : WorkflowType) → Memᴰ v types → Memᴰ w types → v.pk ≡ w.pk → v ≡ w

both : {a b : Bool} → (a && b) ≡ true → (a ≡ true) × (b ≡ true)
both h = (ground arith, ground arith)

contains-pk :
    (n : ℕ) (types : List WorkflowType)
    → contains n (map (λ w. w.pk) types) ≡ true
    → (w : WorkflowType) × Memᴰ w types × (w.pk ≡ n)
contains-pk n [] h = absurd (ground arith)
contains-pk n (w ∷ rest) h = elim (Bool-cases (n == w.pk)) [
  | inl here ↦ (w, Memᴰ.head refl, sym (beq→eq n w.pk here))
  | inr there ↦ let (v, m, e) = contains-pk n rest (ground arith) in (v, Memᴰ.tail m, e)
]

pk-contains :
    (w : WorkflowType) (types : List WorkflowType)
    → Memᴰ w types
    → contains w.pk (map (λ w. w.pk) types) ≡ true
pk-contains w [] m = elim m [ ]
pk-contains w (v ∷ rest) (Memᴰ.head e) =
    let same : (w.pk == v.pk) ≡ true =
      subst (λ x. (w.pk == x) ≡ true) (ap (λ (x : WorkflowType). x.pk) e) (beq_refl w.pk) in
    ground arith
pk-contains w (v ∷ rest) (Memᴰ.tail m) = ground (arith, pk-contains w rest m)

abbrev asked : Bool → Bool → Bool → Bool
asked c known super = if not known then false else if super then true else c

module _ (w : WorkflowType) {A B : Type 0} (xs ys : List WorkflowType) (c : Bool) where
  by_user :
      (known super : Bool)
      → (Memᴰ w xs ↔ A × B)
      → (Memᴰ w ys ↔ A × B × (asked c known super ≡ true))
      → Memᴰ w (if not known then [] else if super then xs else ys)
        ↔ A × B × (asked c known super ≡ true)
  by_user false super all some_of = ((λ m. elim m [ ]), (λ (a, b, h). absurd (true-false h refl)))
  by_user true true all some_of =
      ((λ m. let (a, b) = all.0 m in (a, b, refl)), (λ (a, b, h). all.1 (a, b)))
  by_user true false all some_of = some_of

module _ (types : List WorkflowType) (keyed : IsKeyed types) where
  abbrev is_enabled : WorkflowType → Bool
  is_enabled w = w.enabled

  listed→allowed :
      (u : User) (w : WorkflowType)
      → Memᴰ w types
      → contains w.pk (allowed_ids u types) ≡ true
      → can_create (some u) w ≡ true
  unfolding allowed_ids IsKeyed
  listed→allowed u w m h =
      let (v, n, e) =
        contains-pk w.pk (filter (λ w. can_create (some u) w) (filter is_enabled types)) h in
      let (k, c) = mem-filter (λ w. can_create (some u) w) (filter is_enabled types) n in
      subst (λ x. can_create (some u) x ≡ true) (keyed v w (mem-filter is_enabled types k).0 m e) c

  allowed→listed :
      (u : User) (w : WorkflowType)
      → Memᴰ w types
      → w.enabled ≡ true
      → can_create (some u) w ≡ true
      → contains w.pk (allowed_ids u types) ≡ true
  unfolding allowed_ids
  allowed→listed u w m e c =
      pk-contains w (filter (λ w. can_create (some u) w) (filter is_enabled types)) (
        filter-mem (λ w. can_create (some u) w) (filter is_enabled types)
          (filter-mem is_enabled types m e) c)

  -- Where primary keys are unique, creatable_by lists, for every user or none, exactly the enabled
  -- types for which can_create answers True.
  pub creatable_by_iff :
      (user : Option User) (w : WorkflowType)
      → Memᴰ w (creatable_by user types)
        ↔ Memᴰ w types × (w.enabled ≡ true) × (can_create user w ≡ true)
  unfolding creatable_by can_create
  creatable_by_iff none w = ((λ m. elim m [ ]), (λ (m, e, c). absurd (ground arith)))
  creatable_by_iff (some u) w =
      let ys = filter (λ w. w.enabled && contains w.pk (allowed_ids u types)) types in
      by_user w (filter is_enabled types) ys (of_its_group u w) u.is_authenticated u.is_superuser
        (mem-filter is_enabled types, (λ (m, e). filter-mem is_enabled types m e))
        (
          (λ m.
              let (n, h) =
                mem-filter (λ w. w.enabled && contains w.pk (allowed_ids u types)) types m in
              let (e, l) = both h in (n, e, listed→allowed u w n l)),
          (λ (m, e, c).
              filter-mem (λ w. w.enabled && contains w.pk (allowed_ids u types)) types m
                (ground (arith, allowed→listed u w m e c))),
        )
