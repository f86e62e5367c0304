-- ===== src/Hierarchy/Links.antt =====
-- The parent of a node, as the table of links gives it.
use pwms_project.Prelude.{
  ℕ, zero, suc, ◌≤◌, ◌<◌, ◌≡◌, refl, false, none, some, List, [], ◌∷◌, ◌++◌, Key, arith,
  if◌then◌else◌, ◌==◌, key_eq, contains, length, exists, Bool-cases, Option-cases, inl, inr, All,
  beq→eq, beq_refl,
}
use pwms_project.Hierarchy.{Relationship, Tree, parent_link, parent_workflow, remove_link}
use pwms_project.Hierarchy.Climb.{Height, Higher, Higher-weaken, not-contains}

-- How many links have a child that was not seen.
unseen : List Key → List Relationship → ℕ
unseen seen [] = 0
unseen seen (l ∷ links) =
    let rest = unseen seen links in if contains l.child seen then rest else suc rest

unseen-le : (seen : List Key) (links : List Relationship) → unseen seen links ≤ length links
unfolding unseen
unseen-le seen [] = omega arith
unseen-le seen (l ∷ links) = ground (arith, unseen-le seen links)

unseen_mono :
    (k : Key) (seen : List Key) (links : List Relationship)
    → unseen (k ∷ seen) links ≤ unseen seen links
unfolding unseen
unseen_mono k seen [] = omega arith
unseen_mono k seen (l ∷ links) = ground (arith, unseen_mono k seen links)

unseen_lt :
    (k : Key) (seen : List Key) (links : List Relationship) (l : Relationship)
    → parent_link k links ≡ some l
    → contains k seen ≡ false
    → unseen (k ∷ seen) links < unseen seen links
unfolding unseen parent_link
unseen_lt k seen [] l h new = cc
unseen_lt k seen (x ∷ links) l h new = elim (Bool-cases (x.child == k)) [
  | inl here ↦
      let e = beq→eq x.child k here in
      rw (e, new, beq_refl k) (ground (arith, unseen_mono k seen links))
  | inr there ↦ ground (arith, unseen_lt k seen links l, unseen_mono k seen links)
]

module _ (t : Tree) where
  link_of_parent :
      (k p : Key)
      → parent_workflow t k ≡ some p
      → (l : Relationship) × (parent_link k t.links ≡ some l)
  unfolding parent_workflow
  link_of_parent k p h = elim (Option-cases (parent_link k t.links)) [
    | inl absent ↦ absurd (ground arith)
    | inr found ↦ found
  ]

  Height-le-unseen :
      (k : Key) (n : ℕ) (seen : List Key)
      → Height (parent_workflow t) k n
      → All (Higher (parent_workflow t) n) seen
      → n ≤ unseen seen t.links
  Height-le-unseen k zero seen h a = omega arith
  Height-le-unseen k (suc n) seen (p, e, h) a =
      let (l, found) = link_of_parent k p e in
      let new = not-contains (parent_workflow t) k (suc n) seen (p, e, h) a in
      let seen' : All (Higher (parent_workflow t) n) (k ∷ seen) =
        ((suc n, (p, e, h), omega arith), Higher-weaken (parent_workflow t) n seen a) in
      omega (arith, Height-le-unseen p n (k ∷ seen) h seen', unseen_lt k seen t.links l found new)

  -- No node is further below a root than there are links.
  pub Height-le-length : (k : Key) (n : ℕ) → Height (parent_workflow t) k n → n ≤ length t.links
  Height-le-length k n h = omega (arith, Height-le-unseen k n [] h tt, unseen-le [] t.links)

-- A child has one link at most.
abbrev pub IsUnique : List Relationship → Type 0
IsUnique [] = Unit
IsUnique (l ∷ links) = (parent_link l.child links ≡ none) × IsUnique links

pub parent_link-append :
    (k : Key) (links : List Relationship) (l : Relationship)
    → parent_link l.child links ≡ none
    → parent_link k (links ++ l ∷ []) ≡ (if k == l.child then some l else parent_link k links)
unfolding parent_link
parent_link-append k [] l absent = ground arith
parent_link-append k (x ∷ links) l absent = ground (arith, parent_link-append k links l)

pub parent_link-remove :
    (k c : Key) (links : List Relationship)
    → IsUnique links
    → parent_link k (remove_link c links) ≡ (if k == c then none else parent_link k links)
unfolding parent_link remove_link
parent_link-remove k c [] u = ground arith
parent_link-remove k c (x ∷ links) u = elim (Bool-cases (x.child == c)) [
  | inl here ↦ let e = beq→eq x.child c here in rw here (ground (arith, u.0))
  | inr there ↦ ground (arith, parent_link-remove k c links u.1)
]

pub parent_link-exists :
    (k : Key) (links : List Relationship)
    → parent_link k links ≡ none
    → exists (λ l. l.child == k) links ≡ false
unfolding parent_link
parent_link-exists k [] h = refl
parent_link-exists k (x ∷ links) h = ground (arith, parent_link-exists k links)

pub exists-parent_link :
    (k : Key) (links : List Relationship)
    → exists (λ l. l.child == k) links ≡ false
    → parent_link k links ≡ none
unfolding parent_link
exists-parent_link k [] h = refl
exists-parent_link k (x ∷ links) h = ground (arith, exists-parent_link k links)

pub remove_link-IsUnique :
    (c : Key) (links : List Relationship) → IsUnique links → IsUnique (remove_link c links)
unfolding remove_link
remove_link-IsUnique c [] u = tt
remove_link-IsUnique c (x ∷ links) u = elim (Bool-cases (x.child == c)) [
  | inl here ↦ rw here (u.1)
  | inr there ↦
      let gone = parent_link-remove x.child c links u.1 in
      rw there (ground (arith, gone, u.0), remove_link-IsUnique c links u.1)
]

pub append-IsUnique :
    (links : List Relationship) (l : Relationship)
    → IsUnique links
    → parent_link l.child links ≡ none
    → IsUnique (links ++ l ∷ [])
unfolding parent_link
append-IsUnique [] l u absent = (refl, tt)
append-IsUnique (x ∷ links) l u absent =
    let after = parent_link-append x.child links l in
    (ground (arith, after, u.0), append-IsUnique links l u.1 (ground arith))
