-- ===== src/Hierarchy/Descendants.antt =====
-- The descendants of an instance, on a forest: get_all_descendants against get_ancestors.
use mathlib.Core.List.{Memᴰ}
use pwms_project.Prelude.{
  ℕ, zero, suc, ◌≤◌, ◌<◌, ◌≡◌, refl, sym, ap, ◌∙◌, subst, Bool, true, false, some, List, [], ◌∷◌,
  Key, arith, ◌==◌, key_eq, ltb, contains, length, filter, map, exists, All, All→mem, sort-mem,
  mem-sort, length-sort_where, mem-filter, filter-mem, find→mem, Bool-cases, Option-cases, inl, inr,
  beq→eq, beq_refl, some_inj, none-some,
}
use pwms_project.Descent.{descend}
use pwms_project.Descent.Visits.{
  contains-append, Distinct, times, Below, child_of, then_child, ParentsFirst,
}
use pwms_project.Descent.Complete.{descend-Below}
use pwms_project.Hierarchy.{
  Relationship, Tree, parent_link, parent_workflow, child_links, sub_workflows, all_there,
  get_all_descendants, get_ancestors, get_workflow_hierarchy_path,
}
use pwms_project.Hierarchy.Climb.{IsForest, Height, Height-unique, AncestorsOf}
use pwms_project.Hierarchy.Links.{IsUnique}
use pwms_project.Hierarchy.Ancestors.{get_ancestors-AncestorsOf, get_ancestors_under}
use pwms_project.Hierarchy.Forest.{WellFormed}

-- The rows that the links name are there.
abbrev pub IsPresent : Tree → Relationship → Type 0
IsPresent t l =
    (exists (λ i. i.key == l.parent) t.instances ≡ true)
    × (exists (λ i. i.key == l.child) t.instances ≡ true)

count-parent :
    (k : Key) (links : List Relationship)
    → length (filter (λ l. l.parent == k) links) ≡ times k (map (λ l. l.parent) links)
count-parent k [] = refl
count-parent k (l ∷ links) = ground (arith, count-parent k links)

length-map :
    (f : Relationship → Key) (links : List Relationship) → length (map f links) ≡ length links
length-map f [] = refl
length-map f (l ∷ links) = ap suc (length-map f links)

contains-child :
    (x : Key) (links : List Relationship)
    → contains x (map (λ l. l.child) links) ≡ true
    → (l : Relationship) × Memᴰ l links × (x ≡ l.child)
contains-child x [] h = absurd (ground arith)
contains-child x (l ∷ links) h = elim (Bool-cases (x == l.child)) [
  | inl here ↦ (l, Memᴰ.head refl, beq→eq x l.child here)
  | inr there ↦ let (m, i, e) = contains-child x links (ground arith) in (m, Memᴰ.tail i, e)
]

child-contains :
    (links : List Relationship) (l : Relationship)
    → Memᴰ l links
    → contains l.child (map (λ l. l.child) links) ≡ true
child-contains [] l m = elim m [ ]
child-contains (x ∷ links) l (Memᴰ.head e) = ground (arith, ap (λ r. r.child) e, beq_refl x.child)
child-contains (x ∷ links) l (Memᴰ.tail m) = ground (arith, child-contains links l m)

IsUnique-parent_link :
    (links : List Relationship) (l : Relationship)
    → IsUnique links
    → Memᴰ l links
    → parent_link l.child links ≡ some l
unfolding parent_link
IsUnique-parent_link [] l u m = elim m [ ]
IsUnique-parent_link (x ∷ links) l u (Memᴰ.head e) = rw (e, beq_refl x.child) refl
IsUnique-parent_link (x ∷ links) l (absent, u) (Memᴰ.tail m) =
    elim (Bool-cases (x.child == l.child)) [
      | inr other ↦ rw other (IsUnique-parent_link links l u m)
      | inl same ↦ absurd (
          none-some (
            sym absent
            ∙ ap (λ k. parent_link k links) (beq→eq x.child l.child same)
            ∙ IsUnique-parent_link links l u m))
    ]

link_found :
    (y : Key) (l : Relationship) (links : List Relationship)
    → parent_link y links ≡ some l
    → Memᴰ l links × ((l.child == y) ≡ true)
unfolding parent_link
link_found y l links e = find→mem (λ r. r.child == y) links e

all_present :
    (t : Tree) (found : List Key)
    → ((x : Key) → contains x found ≡ true → exists (λ i. i.key == x) t.instances ≡ true)
    → all_there t found ≡ true
unfolding all_there
all_present t [] h = refl
all_present t (k ∷ rest) h =
    ground (arith, h k (ground (arith, beq_refl k)), all_present t rest (λ x m. h x (ground arith)))

module _ (t : Tree) (unique : IsUnique t.links) (there : All (IsPresent t) t.links) where
  child-parent : (k x : Key) → contains x (sub_workflows t k) ≡ true → parent_workflow t x ≡ some k
  unfolding sub_workflows child_links parent_workflow
  child-parent k x h =
      let (l, m, e) = contains-child x (child_links t k) h in
      let (i, p) =
        mem-filter (λ r. r.parent == k) t.links
          (sort-mem (λ a b. ltb a.order b.order) (filter (λ r. r.parent == k) t.links) m) in
      let found = IsUnique-parent_link t.links l unique i in
      let (present, _) = All→mem (IsPresent t) t.links there i in
      subst (λ y. parent_workflow t y ≡ some k) (sym e)
        (rw (parent_workflow, found, present) (ap some (beq→eq l.parent k p)))

  parent-child : (k x : Key) → parent_workflow t x ≡ some k → contains x (sub_workflows t k) ≡ true
  unfolding sub_workflows child_links parent_workflow
  parent-child k x h = elim (Option-cases (parent_link x t.links)) [
    | inl missing ↦ absurd (none-some (rw (parent_workflow, missing) at h))
    | inr (l, found) ↦
        let (m, c) = link_found x l t.links found in
        let (present, _) = All→mem (IsPresent t) t.links there m in
        let same : l.parent ≡ k = some_inj (rw (parent_workflow, found, present) at h) in
        subst (λ y. contains y (sub_workflows t k) ≡ true) (beq→eq l.child x c)
          (child-contains (child_links t k) l (
            mem-sort (λ a b. ltb a.order b.order) (filter (λ r. r.parent == k) t.links)
              (filter-mem (λ r. r.parent == k) t.links m (rw same (beq_refl k)))))
  ]

  sub_workflows_sized :
      (k : Key) → length (sub_workflows t k) ≤ times k (map (λ l. l.parent) t.links)
  unfolding sub_workflows child_links
  sub_workflows_sized k = omega (
    arith,
    length-map (λ l. l.child) (child_links t k),
    length-sort_where (λ a b. ltb a.order b.order) (filter (λ l. l.parent == k) t.links),
    count-parent k t.links,
  )

  module _ (forest : IsForest (parent_workflow t)) where
    ancestor-Below :
        (k x : Key) (n : ℕ) (xs : List Key)
        → AncestorsOf (parent_workflow t) x n xs
        → contains k xs ≡ true
        → Below (sub_workflows t) k x
    ancestor-Below k x zero xs (top, e) h = absurd (ground (arith, e, h))
    ancestor-Below k x (suc n) xs (p, ys, e, f, a) h = elim (Bool-cases (contains k ys)) [
      | inl above ↦ then_child (ancestor-Below k p n ys a above) (parent-child p x e)
      | inr last ↦ child_of (
          parent-child k x (
            e
            ∙ ap some
                (sym (beq→eq k p (ground (arith, rw f at h, contains-append k ys (p ∷ [])))))))
    ]

    Below-ancestor :
        (k x : Key) → Below (sub_workflows t) k x → contains k (get_ancestors t x) ≡ true
    unfolding get_workflow_hierarchy_path
    Below-ancestor k x (child_of c) =
        rw (get_ancestors_under t x k forest (child-parent k x c))
          (ground (arith, contains-append k (get_ancestors t k) (k ∷ []), beq_refl k))
    Below-ancestor k x (then_child {y = y} b c) =
        rw (get_ancestors_under t x y forest (child-parent y x c))
          (ground (arith, contains-append k (get_ancestors t y) (y ∷ []), Below-ancestor k y b))

    Below-Height :
        (k x : Key) (n : ℕ)
        → Below (sub_workflows t) k x
        → Height (parent_workflow t) x n
        → (m : ℕ) × Height (parent_workflow t) k m × (m < n)
    Below-Height k x zero (child_of c) h = absurd (none-some (sym h ∙ child-parent k x c))
    Below-Height k x zero (then_child {y = y} b c) h =
        absurd (none-some (sym h ∙ child-parent y x c))
    Below-Height k x (suc n) (child_of c) (p, e, h) = (
      n,
      subst (λ q. Height (parent_workflow t) q n) (some_inj (sym e ∙ child-parent k x c)) h,
      omega arith,
    )
    Below-Height k x (suc n) (then_child {y = y} b c) (p, e, h) =
        let (m, g, lt) =
          Below-Height k y n b (
            subst (λ q. Height (parent_workflow t) q n) (some_inj (sym e ∙ child-parent y x c))
              h) in
        (m, g, omega (arith, lt))

    not-Below : (k : Key) → ¬ Below (sub_workflows t) k k
    not-Below k b =
        let (n, h) = forest k in
        let (m, g, lt) = Below-Height k k n b h in
        omega (arith, lt, Height-unique (parent_workflow t) k n m h g)

  child_present :
      (k x : Key) → Below (sub_workflows t) k x → exists (λ i. i.key == x) t.instances ≡ true
  unfolding sub_workflows child_links
  child_present k x b =
      let (y, c) = last_step b in
      let (l, m, e) = contains-child x (child_links t y) c in
      let (i, p) =
        mem-filter (λ r. r.parent == y) t.links
          (sort-mem (λ a b. ltb a.order b.order) (filter (λ r. r.parent == y) t.links) m) in
      let (_, present) = All→mem (IsPresent t) t.links there i in
      subst (λ z. exists (λ i. i.key == z) t.instances ≡ true) (sym e) present
    where
      last_step :
          {z : Key}
          → Below (sub_workflows t) k z
          → (y : Key) × (contains z (sub_workflows t y) ≡ true)
      last_step (child_of c) = (k, c)
      last_step (then_child {y = y} q c) = (y, c)

both : (a b : Bool) → (a ≡ true → b ≡ true) → (b ≡ true → a ≡ true) → a ≡ b
both true b h k = sym (h refl)
both false true h k = k refl
both false false h k = refl

-- Where the links are a forest in which every child has one parent and all rows that links name
-- are there: get_all_descendants ends without an error, and what it returns has every descendant
-- once, each after its parent; an instance is a descendant of another exactly when that one is
-- among its ancestors, as get_ancestors returns them.
pub get_all_descendants_inverse :
    (t : Tree) (k : Key)
    → WellFormed t
    → All (IsPresent t) t.links
    → (found : List Key) × (get_all_descendants t k ≡ some found)
      × Distinct found
      × ParentsFirst (sub_workflows t) (k ∷ []) found
      × ((x : Key) → contains x found ≡ contains k (get_ancestors t x))
unfolding get_all_descendants
get_all_descendants_inverse t k w there =
    let nodes = map (λ l. l.parent) t.links in
    let found = descend (sub_workflows t) (length t.links) k in
    let (once, ordered, exact) =
      descend-Below (sub_workflows t) nodes (sub_workflows_sized t w.unique there) (length t.links)
        k (omega (arith, length-map (λ l. l.parent) t.links)) in
    let present =
      all_present t found (λ x m. child_present t w.unique there k x ((exact x).0 m).0) in
    (
      found,
      rw present refl,
      once,
      ordered,
      λ x.
          let (n, a) = get_ancestors-AncestorsOf t w.forest x in
          both (contains x found) (contains k (get_ancestors t x))
            (λ m. Below-ancestor t w.unique there w.forest k x ((exact x).0 m).0)
            (λ m.
              let b = ancestor-Below t w.unique there w.forest k x n (get_ancestors t x) a m in
              (exact x).1 (
                b,
                λ e.
                    not-Below t w.unique there w.forest k
                      (subst (λ z. Below (sub_workflows t) k z) e b),
              )),
    )
