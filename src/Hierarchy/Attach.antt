-- ===== src/Hierarchy/Attach.antt =====
-- set_parent_workflow and add_sub_workflow on a well-formed tree.
use pwms_project.Prelude.{
  ap, ℕ, suc, ◌≡◌, refl, true, Option, none, some, List, [], ◌∷◌, ◌++◌, Key, arith, if◌then◌else◌,
  ◌==◌, key_eq, exists, find→mem, Bool-cases, Option-cases, inl, inr, ◌⊎◌, beq→eq, beq_refl, sym,
  ◌∙◌, subst, fun_ext,
}
use pwms_project.Hierarchy.{
  LinkCache, fresh, outdated, drop_existing, duplicate_child, Relationship, RelationshipType, Tree,
  Error, parent_link, parent_workflow, clean, save_link, detach, set_parent_workflow, update_link,
  add_sub_workflow,
}
use pwms_project.Hierarchy.Climb.{attached, Height-attached, Clears-attached, Clears-Height}
use pwms_project.Hierarchy.Links.{
  append-IsUnique, parent_link-append, parent_link-remove, parent_link-exists, exists-parent_link,
}
use pwms_project.Hierarchy.Forest.{
  WellFormed, Passed, instance_of-key, clean→Passed, Passed→clean, Passed-Clears, Passed-detach,
  detach-WellFormed, parent_workflow-detach,
}

abbrev appended : Relationship → Tree → Tree
appended link t = record t { links = t.links ++ link ∷ [] }

parent_workflow-appended :
    (link : Relationship) (t : Tree)
    → parent_link link.child t.links ≡ none
    → exists (λ i. i.key == link.parent) t.instances ≡ true
    → parent_workflow (appended link t) ≡ attached (parent_workflow t) link.child (some link.parent)
unfolding parent_workflow
parent_workflow-appended link t absent there =
    fun_ext (λ k. ground (arith, parent_link-append k t.links link absent))

module _ (link : Relationship) (t : Tree) (w : WellFormed t) (p : Passed link t)
    (absent : parent_link link.child t.links ≡ none) where
  parent_there : exists (λ i. i.key == link.parent) t.instances ≡ true
  parent_there = (instance_of-key link.parent t p.parent p.parent_found).1

  appended-WellFormed : WellFormed (appended link t)
  appended-WellFormed =
      let up = parent_workflow t in
      let (n, clear) = Passed-Clears link t p in
      let below =
        Clears-Height (attached up link.child (some link.parent)) link.child link.parent n
          (Clears-attached up link.child (some link.parent) link.parent n clear) in
      record {
        unique = append-IsUnique t.links link w.unique absent;
        forest = rw (parent_workflow-appended link t absent parent_there) (λ k.
            Height-attached up link.child (some link.parent)
              (suc n, (link.parent, rw (beq_refl link.child), below)) k _ ((w.forest k).1));
      }

  save_link_fresh : save_link link t ≡ (appended link t, none)
  unfolding save_link
  save_link_fresh =
      rw (Passed→clean link t p, save_link) (rw (parent_link-exists link.child t.links absent))

-- What an attachment leaves, by the verdict of its first validation, by what the object holds of
-- its old link and by whether the table has one.
abbrev pub attach_outcome : LinkCache → Relationship → Tree → Tree × Option Error
attach_outcome cache link t = elim (clean link t) [
  | some e ↦ (t, some e)
  | none ↦ elim cache [
    | fresh ↦ (appended link (detach link.child t), none)
    | outdated ↦
        if exists (λ l. l.child == link.child) t.links
        then (t, some duplicate_child)
        else (appended link t, none)
  ]
]

abbrev pub link_to : Key → Key → RelationshipType → ℕ → Relationship
link_to k parent kind order = record {
  parent = parent;
  child = k;
  relationship_type = kind;
  order = order;
}

module _ (cache : LinkCache) (k parent : Key) (kind : RelationshipType) (order : ℕ) (t : Tree)
    (w : WellFormed t) where
  abbrev link : Relationship
  link = link_to k parent kind order

  detached_absent : parent_link k (detach k t).links ≡ none
  unfolding detach
  detached_absent = parent_link-remove k k t.links w.unique ∙ rw (beq_refl k)

  passed_outcome :
      (c : LinkCache)
      → clean link t ≡ none
      → save_link link (drop_existing c k t) ≡ attach_outcome c link t
  unfolding drop_existing save_link
  passed_outcome fresh passes =
      let p = Passed-detach link t w (clean→Passed link t passes) in
      rw (passes, attach_outcome)
        (save_link_fresh link (detach k t) (detach-WellFormed k t w) p detached_absent)
  passed_outcome outdated passes = rw (passes, attach_outcome) (rw (passes, save_link) refl)

  -- Where the links are a forest in which every child has one parent, an attachment is decided by
  -- the validation that runs before the old link is removed and, after it, by the link that the
  -- object holds. If the validation fails, nothing has changed. If it passes and the object's link
  -- is the table's, the old link is replaced: the second validation and the insert cannot fail. If
  -- it passes and the object's link is outdated, the insert is refused, with nothing changed, where
  -- the table has a link of the child, and adds the link where it has none.
  pub set_parent_workflow_atomic :
      set_parent_workflow cache k (some parent) kind order t ≡ attach_outcome cache link t
  unfolding set_parent_workflow
  set_parent_workflow_atomic = elim (Option-cases (clean link t)) [
    | inl passes ↦ rw (passes, set_parent_workflow) (passed_outcome cache passes)
    | inr (e, fails) ↦ rw (fails, set_parent_workflow) (rw (fails, attach_outcome))
  ]

  passed-WellFormed : (c : LinkCache) → clean link t ≡ none → WellFormed (attach_outcome c link t).0
  passed-WellFormed fresh passes =
      let p = Passed-detach link t w (clean→Passed link t passes) in
      rw (passes, attach_outcome)
        (appended-WellFormed link (detach k t) (detach-WellFormed k t w) p detached_absent)
  passed-WellFormed outdated passes = elim (Bool-cases (exists (λ l. l.child == k) t.links)) [
    | inl there ↦ rw (passes, attach_outcome) (rw there w)
    | inr gone ↦
        rw (passes, attach_outcome)
          (rw gone (
            appended-WellFormed link t w (clean→Passed link t passes)
              (exists-parent_link k t.links gone)))
  ]

  attach_outcome-WellFormed : WellFormed (attach_outcome cache link t).0
  attach_outcome-WellFormed = elim (Option-cases (clean link t)) [
    | inl passes ↦ passed-WellFormed cache passes
    | inr (e, fails) ↦ rw (fails, attach_outcome) w
  ]

  -- If the links are a forest in which every child has one parent, they are one after an instance
  -- is attached under a new parent, whether that succeeds or is refused, and whatever the object
  -- holds of its old link.
  pub set_parent_workflow-WellFormed :
      WellFormed (set_parent_workflow cache k (some parent) kind order t).0
  set_parent_workflow-WellFormed = rw set_parent_workflow_atomic attach_outcome-WellFormed

  passed_moves :
      (c : LinkCache)
      → clean link t ≡ none
      → (attach_outcome c link t).1 ≡ none
      → parent_workflow (attach_outcome c link t).0 ≡ attached (parent_workflow t) k (some parent)
  passed_moves fresh passes h =
      let p = Passed-detach link t w (clean→Passed link t passes) in
      rw (passes, attach_outcome)
        (parent_workflow-appended link (detach k t) detached_absent
            ((instance_of-key parent (detach k t) p.parent p.parent_found).1)
          ∙ rw (parent_workflow-detach k t w.unique) (fun_ext (λ j. ground arith)))
  passed_moves outdated passes h = elim (Bool-cases (exists (λ l. l.child == k) t.links)) [
    | inl there ↦ absurd (ground (arith, passes, there, h))
    | inr gone ↦
        let p = clean→Passed link t passes in
        rw (passes, attach_outcome)
          (rw gone (
            parent_workflow-appended link t (exists-parent_link k t.links gone)
              ((instance_of-key parent t p.parent p.parent_found).1)))
  ]

  attach_outcome_moves :
      (attach_outcome cache link t).1 ≡ none
      → parent_workflow (attach_outcome cache link t).0
        ≡ attached (parent_workflow t) k (some parent)
  attach_outcome_moves h = elim (Option-cases (clean link t)) [
    | inl passes ↦ passed_moves cache passes h
    | inr (e, fails) ↦ absurd (ground arith)
  ]

  -- Where the links are a forest in which every child has one parent, after an attachment that
  -- succeeds the instance has the given parent, and the parent of every other instance is what it
  -- was.
  pub set_parent_workflow_moves :
      (set_parent_workflow cache k (some parent) kind order t).1 ≡ none
      → parent_workflow (set_parent_workflow cache k (some parent) kind order t).0
        ≡ attached (parent_workflow t) k (some parent)
  set_parent_workflow_moves = rw set_parent_workflow_atomic attach_outcome_moves

parent_link-update :
    (l' l : Relationship) (links : List Relationship) (j : Key)
    → parent_link l'.child links ≡ some l
    → (parent_link j (update_link l' links) ≡ parent_link j links)
      ⊎ ((parent_link j (update_link l' links) ≡ some l') × (parent_link j links ≡ some l))
unfolding parent_link update_link
parent_link-update l' l [] j found = cc
parent_link-update l' l (x ∷ links) j found = elim (Bool-cases (x.child == l'.child)) [
  | inl here ↦ elim (Bool-cases (x.child == j)) [
    | inl at_j ↦ inr (ground arith, ground arith)
    | inr off_j ↦ inl (ground arith)
  ]
  | inr there ↦ ground (arith, parent_link-update l' l links j)
]

found_child :
    (k : Key) (links : List Relationship) (l : Relationship)
    → parent_link k links ≡ some l
    → l.child ≡ k
unfolding parent_link
found_child k links l found = beq→eq l.child k ((find→mem (λ x. x.child == k) links found).1)

same_parent :
    (l' l : Relationship) (j : Key) (t : Tree)
    → l'.parent ≡ l.parent
    → (parent_link j (update_link l' t.links) ≡ parent_link j t.links)
      ⊎ ((parent_link j (update_link l' t.links) ≡ some l') × (parent_link j t.links ≡ some l))
    → parent_workflow (record t { links = update_link l' t.links }) j ≡ parent_workflow t j
unfolding parent_workflow
same_parent l' l j t e (inl same) = rw (same, parent_workflow)
same_parent l' l j t e (inr (after, before)) =
    rw (after, parent_workflow)
      (rw (before, parent_workflow)
        (ap (λ p. if exists (λ i. i.key == p) t.instances then some p else none) e))

-- A child that has a link keeps its parent: adding it under any instance changes no instance's
-- parent, whether the call succeeds or not.
pub add_sub_workflow_keeps_parent :
    (k child j : Key) (kind : RelationshipType) (order : ℕ) (t : Tree) (l : Relationship)
    → parent_link child t.links ≡ some l
    → parent_workflow (add_sub_workflow k child kind order t).0 j ≡ parent_workflow t j
unfolding add_sub_workflow parent_workflow
add_sub_workflow_keeps_parent k child j kind order t l found =
    let l' = record l { relationship_type = kind; order = order } in
    let same = found_child child t.links l found in
    elim (Option-cases (clean l' t)) [
      | inr (e, fails) ↦ rw (found, add_sub_workflow) (rw fails)
      | inl passes ↦
          rw (found, add_sub_workflow)
            (rw passes (
              same_parent l' l j t refl (
                parent_link-update l' l t.links j
                  (subst (λ c. parent_link c t.links ≡ some l) (sym same) found))))
    ]
