-- ===== src/Hierarchy/Forest.antt =====
-- Attaching and detaching keep the links a forest in which a child has one parent.
use pwms_project.Prelude.{
  ℕ, suc, ◌≡◌, ◌↔◌, true, false, none, some, [], Key, arith, ◌==◌, key_eq, exists, find→mem,
  mem→exists, Bool-cases, Option-cases, inl, inr, beq→eq, beq_refl, subst, fun_ext,
}
use pwms_project.Schema.{Instance}
use pwms_project.Hierarchy.{
  Relationship, Tree, instance_of, parent_workflow, creates_cycle, rounds, type_refused,
  clean_workflows, clean, detach,
}
use pwms_project.Hierarchy.Climb.{
  IsForest, Above, Clears, attached, Height-attached, Clears-attached, Clears-not-Above,
  cycle_from-Clears, cycle_from-Above,
}
use pwms_project.Hierarchy.Links.{
  remove_link-IsUnique, IsUnique, Height-le-length, parent_link-remove,
}

pub record WellFormed (t : Tree) : Type 0 where
  pub unique : IsUnique t.links
  pub forest : IsForest (parent_workflow t)

-- On a forest the check is exact: it refuses a link exactly when the child is the parent or above
-- it.
pub creates_cycle_iff :
    (t : Tree) (parent child : Key)
    → IsForest (parent_workflow t)
    → (creates_cycle t parent child ≡ true) ↔ ((n : ℕ) × Above (parent_workflow t) child parent n)
unfolding creates_cycle
creates_cycle_iff t parent child forest =
    let up = parent_workflow t in
    let (n, h) = forest parent in
    (
      λ e.
          cycle_from-Above up child (suc (rounds t)) [] parent n h
            (omega (arith, Height-le-length t parent n h)) tt e,
      λ (m, a). elim (Bool-cases (creates_cycle t parent child)) [
        | inl e ↦ e
        | inr e ↦
            let (k, c) = cycle_from-Clears up child (suc (rounds t)) [] parent e in
            absurd (Clears-not-Above up child parent k m c a)
      ],
    )

pub instance_of-key :
    (k : Key) (t : Tree) (i : Instance)
    → instance_of k t ≡ some i
    → (i.key ≡ k) × (exists (λ j. j.key == k) t.instances ≡ true)
unfolding instance_of
instance_of-key k t i h =
    let (m, e) = find→mem (λ j. j.key == k) t.instances h in
    (beq→eq i.key k e, mem→exists (λ j. j.key == k) t.instances m e)

-- What the checks leave of a link.
pub record Passed (link : Relationship) (t : Tree) : Type 0 where
  pub parent : Instance
  pub child : Instance
  pub parent_found : instance_of link.parent t ≡ some parent
  pub child_found : instance_of link.child t ≡ some child
  pub two : (parent.key == child.key) ≡ false
  pub no_cycle : creates_cycle t parent.key child.key ≡ false
  pub type_fits : type_refused t parent child ≡ false

workflows_pass :
    (link : Relationship) (t : Tree) (parent child : Instance)
    → instance_of link.parent t ≡ some parent
    → instance_of link.child t ≡ some child
    → clean_workflows parent child t ≡ none
    → Passed link t
unfolding clean_workflows
workflows_pass link t parent child fp fc h = record {
  parent = parent;
  child = child;
  parent_found = fp;
  child_found = fc;
  two = ground arith;
  no_cycle = ground arith;
  type_fits = ground arith;
}

pub clean→Passed : (link : Relationship) (t : Tree) → clean link t ≡ none → Passed link t
unfolding clean
clean→Passed link t h = elim (Option-cases (instance_of link.parent t)) [
  | inl absent ↦ absurd (ground arith)
  | inr (parent, fp) ↦ elim (Option-cases (instance_of link.child t)) [
    | inl absent ↦ absurd (ground arith)
    | inr (child, fc) ↦ workflows_pass link t parent child fp fc (ground arith)
  ]
]

pub Passed→clean : (link : Relationship) (t : Tree) → Passed link t → clean link t ≡ none
unfolding clean clean_workflows
Passed→clean link t p =
    rw (p.parent_found, clean)
      (rw (p.child_found, clean) (rw p.two (rw p.no_cycle (rw p.type_fits))))

-- The climb from the parent of a link that passed misses the child.
pub Passed-Clears :
    (link : Relationship) (t : Tree)
    → Passed link t
    → (n : ℕ) × Clears (parent_workflow t) link.child link.parent n
unfolding creates_cycle
Passed-Clears link t p =
    let ep = (instance_of-key link.parent t p.parent p.parent_found).0 in
    let ec = (instance_of-key link.child t p.child p.child_found).0 in
    let (n, c) =
      cycle_from-Clears (parent_workflow t) p.child.key (suc (rounds t)) [] p.parent.key
        p.no_cycle in
    (
      n,
      subst (λ k. Clears (parent_workflow t) link.child k n) ep
          (subst (λ k. Clears (parent_workflow t) k p.parent.key n) ec c),
    )

pub parent_workflow-detach :
    (c : Key) (t : Tree)
    → IsUnique t.links
    → parent_workflow (detach c t) ≡ attached (parent_workflow t) c none
unfolding parent_workflow detach
parent_workflow-detach c t u = fun_ext (λ k. ground (arith, parent_link-remove k c t.links u))

pub detach-WellFormed : (c : Key) (t : Tree) → WellFormed t → WellFormed (detach c t)
detach-WellFormed c t w = record {
  unique = unfold detach in remove_link-IsUnique c t.links w.unique;
  forest =
      rw (parent_workflow-detach c t w.unique)
        (λ k. Height-attached (parent_workflow t) c none (0, rw (beq_refl c)) k _ ((w.forest k).1));
}

creates_cycle-detach :
    (t : Tree) (p c : Key)
    → WellFormed t
    → creates_cycle t p c ≡ false
    → creates_cycle (detach c t) p c ≡ false
creates_cycle-detach t p c w h =
    let (n, clear) =
      cycle_from-Clears (parent_workflow t) c (suc (rounds t)) [] p (unfold creates_cycle in h) in
    let clear' = Clears-attached (parent_workflow t) c none p n clear in
    elim (Bool-cases (creates_cycle (detach c t) p c)) [
      | inr e ↦ e
      | inl e ↦
          let (m, above) =
            (creates_cycle_iff (detach c t) p c ((detach-WellFormed c t w).forest)).0 e in
          absurd (
            Clears-not-Above (attached (parent_workflow t) c none) c p n m clear'
              (subst (λ up. Above up c p m) (parent_workflow-detach c t w.unique) above))
    ]

pub Passed-detach :
    (link : Relationship) (t : Tree)
    → WellFormed t
    → Passed link t
    → Passed link (detach link.child t)
unfolding instance_of type_refused
Passed-detach link t w p =
    let ec = (instance_of-key link.child t p.child p.child_found).0 in
    record {
      parent = p.parent;
      child = p.child;
      parent_found = unfold detach in p.parent_found;
      child_found = unfold detach in p.child_found;
      two = p.two;
      no_cycle =
          subst (λ c. creates_cycle (detach c t) p.parent.key p.child.key ≡ false) ec
            (creates_cycle-detach t p.parent.key p.child.key w p.no_cycle);
      type_fits = unfold detach in p.type_fits;
    }
