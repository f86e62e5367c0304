-- ===== src/Resolver/Laws.antt =====
-- Who may do what, for every user, resource and action.
use pwms_project.Prelude.{
  ◌≡◌, ◌≢◌, subst, ◌∙◌, ap, fun_ext, refl, Bool, true, false, ◌||◌, Option, none, some, List, [],
  ◌∷◌, Key, arith, nat_eq, exists, exists-append, Option-cases, inl, inr,
}
use pwms_project.Schema.{Capability, view, Action, on, create, User, Instance}
use pwms_project.Rbac.{can}
use pwms_project.Rbac.Referred.{can-ignore_le}
use pwms_project.Hierarchy.{
  Tree, instance_of, parent_workflow, get_ancestors, get_workflow_hierarchy_path,
}
use pwms_project.Hierarchy.Climb.{IsForest}
use pwms_project.Hierarchy.Ancestors.{get_ancestors_under}
use pwms_project.Resolver.{
  World, Resource, workflow, attendance, other, has_direct_view_grant, named_on, ancestor_grants,
  inherits, resolve_workflow_instance, guarded, resolve,
}

guarded_le :
    (user : Option User) (action : Action) (f g : User → Bool)
    → ((u : User) → f u ≡ true → g u ≡ true)
    → guarded user action f ≡ true
    → guarded user action g ≡ true
unfolding guarded
guarded_le none action f g le h = h
guarded_le (some u) action f g le h = ground (arith, le u)

exists_le :
    (p q : Key → Bool) (ks : List Key)
    → ((k : Key) → p k ≡ true → q k ≡ true)
    → exists p ks ≡ true
    → exists q ks ≡ true
exists_le p q [] le h = h
exists_le p q (k ∷ ks) le h = ground (arith, le k, exists_le p q ks le)

module _ (w : World) (u : User) where
  ancestor_grants_le :
      (k : Key) → ancestor_grants true w u k ≡ true → ancestor_grants false w u k ≡ true
  unfolding ancestor_grants
  ancestor_grants_le k h = elim (Option-cases (instance_of k w.tree)) [
    | inl absent ↦ absurd (ground arith)
    | inr (a, found) ↦ ground (arith, can-ignore_le w.accesses a u view)
  ]

  inherits_le :
      (i : Instance) (what : Capability)
      → inherits true w u i what ≡ true
      → inherits false w u i what ≡ true
  unfolding inherits
  inherits_le i view h =
      exists_le (ancestor_grants true w u) (ancestor_grants false w u) (get_ancestors w.tree i.key)
        ancestor_grants_le h
  inherits_le i _ h = h

  instance_le :
      (i : Instance) (action : Action)
      → resolve_workflow_instance true w u i action ≡ true
      → resolve_workflow_instance false w u i action ≡ true
  unfolding resolve_workflow_instance
  instance_le i create h = h
  instance_le i (on what) h = ground (arith, can-ignore_le w.accesses i u what, inherits_le i what)

-- For every user, resource and action: what is granted while the grants of referrals are ignored
-- is granted when they count.
pub resolve-ignore_le :
    (w : World) (user : Option User) (resource : Resource) (action : Action)
    → resolve true w user resource action ≡ true
    → resolve false w user resource action ≡ true
unfolding resolve
resolve-ignore_le w user (workflow i) action h =
    guarded_le user action _ _ (λ u. instance_le w u i action) h
resolve-ignore_le w user (attendance meeting) action h = h
resolve-ignore_le w user other action h = h

-- An attendance row answers exactly as its meeting does, for every user and action.
pub resolve-attendance :
    (ignore : Bool) (w : World) (user : Option User) (meeting : Instance) (action : Action)
    → resolve ignore w user (attendance meeting) action
      ≡ resolve false w user (workflow meeting) action
unfolding resolve guarded
resolve-attendance ignore w none meeting action = refl
resolve-attendance ignore w (some u) meeting action = ground arith

instance_tree_irrelevant :
    (ignore : Bool) (w : World) (tree : Tree) (u : User) (i : Instance) (action : Action)
    → action ≢ on view
    → resolve_workflow_instance ignore w u i action
      ≡ resolve_workflow_instance ignore (record w { tree = tree }) u i action
unfolding resolve_workflow_instance inherits
instance_tree_irrelevant ignore w tree u i create ne = refl
instance_tree_irrelevant ignore w tree u i (on view) ne = absurd (ne refl)
instance_tree_irrelevant ignore w tree u i (on _) ne = refl

-- Only view is inherited: for any other action the answer does not depend on the hierarchy.
pub resolve-tree_irrelevant :
    (ignore : Bool) (w : World) (tree : Tree) (user : Option User) (i : Instance) (action : Action)
    → action ≢ on view
    → resolve ignore w user (workflow i) action
      ≡ resolve ignore (record w { tree = tree }) user (workflow i) action
unfolding resolve
resolve-tree_irrelevant ignore w tree user i action ne =
    ap (guarded user action) (fun_ext (λ u. instance_tree_irrelevant ignore w tree u i action ne))

or_true : (a b c : Bool) → c ≡ true → (a || b || c) ≡ true
or_true a b c h = ground arith

module _ (ignore : Bool) (w : World) (parent child : Instance) (p : Key) where
  at_parent :
      (u : User)
      → instance_of p w.tree ≡ some parent
      → ancestor_grants ignore w u p
        ≡ (has_direct_view_grant u parent || can ignore w.accesses parent u view)
  unfolding ancestor_grants
  at_parent u found = rw (found, ancestor_grants)

  -- Who may view the parent is found by the loop over the child's ancestors.
  parent_grants :
      (u : User)
      → instance_of p w.tree ≡ some parent
      → parent.key ≡ p
      → parent.attendees ≡ none
      → resolve_workflow_instance ignore w u parent (on view) ≡ true
      → (exists (ancestor_grants ignore w u) (get_ancestors w.tree p)
          || exists (ancestor_grants ignore w u) (p ∷ []))
        ≡ true
  unfolding resolve_workflow_instance inherits has_direct_view_grant named_on
  parent_grants u found key no_register h =
      let h' : (named_on u parent view
            || can ignore w.accesses parent u view
            || exists (ancestor_grants ignore w u) (get_ancestors w.tree p))
          ≡ true =
        subst
          (λ k.
            (named_on u parent view
              || can ignore w.accesses parent u view
              || exists (ancestor_grants ignore w u) (get_ancestors w.tree k))
            ≡ true)
          key h in
      ground (arith, at_parent u found)

  child_views :
      (u : User)
      → IsForest (parent_workflow w.tree)
      → parent_workflow w.tree child.key ≡ some p
      → (exists (ancestor_grants ignore w u) (get_ancestors w.tree p)
          || exists (ancestor_grants ignore w u) (p ∷ []))
        ≡ true
      → resolve_workflow_instance ignore w u child (on view) ≡ true
  unfolding resolve_workflow_instance inherits get_workflow_hierarchy_path
  child_views u forest under h =
      let grants = ancestor_grants ignore w u in
      or_true (named_on u child view) (can ignore w.accesses child u view)
        (inherits ignore w u child view)
        (rw (get_ancestors_under w.tree child.key p forest under)
          (exists-append grants (get_ancestors w.tree p) (p ∷ []) ∙ h))

  -- View cascades down a forest: a user who may view an instance that is no meeting may view each
  -- instance whose parent it is.
  pub resolve-view_inherited :
      (user : Option User)
      → IsForest (parent_workflow w.tree)
      → parent_workflow w.tree child.key ≡ some p
      → instance_of p w.tree ≡ some parent
      → parent.key ≡ p
      → parent.attendees ≡ none
      → resolve ignore w user (workflow parent) (on view) ≡ true
      → resolve ignore w user (workflow child) (on view) ≡ true
  unfolding resolve
  resolve-view_inherited user forest under found key no_register h =
      guarded_le user (on view) _ _
        (λ u granted. child_views u forest under (parent_grants u found key no_register granted)) h
