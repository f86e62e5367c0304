-- ===== src/Hierarchy/Ancestors.antt =====
-- The traversals on a forest.
use pwms_project.Prelude.{ℕ, suc, ◌≡◌, refl, some, [], ◌∷◌, Key, arith, length, All}
use pwms_project.Hierarchy.{
  Tree, parent_workflow, rounds, get_ancestors, hierarchy_level, get_workflow_hierarchy_path,
}
use pwms_project.Hierarchy.Climb.{
  IsForest, AtLeast, AncestorsOf, AncestorsOf-unique, climb-AncestorsOf, level_from-climb,
}
use pwms_project.Hierarchy.Links.{Height-le-length}

module _ (t : Tree) where
  -- On a forest get_ancestors returns exactly the keys above the instance, from the root down to
  -- its parent: the fuel never runs out and no key is left out or repeated.
  pub get_ancestors-AncestorsOf :
      IsForest (parent_workflow t)
      → (k : Key) → (n : ℕ) × AncestorsOf (parent_workflow t) k n (get_ancestors t k)
  unfolding get_ancestors
  get_ancestors-AncestorsOf forest k =
      let (n, h) = forest k in
      let seen : All (AtLeast (parent_workflow t) n) (k ∷ []) = ((n, h, omega arith), tt) in
      (
        n,
        climb-AncestorsOf (parent_workflow t) (rounds t) (k ∷ []) k n h
            (omega (arith, Height-le-length t k n h)) seen,
      )

  -- The level is the number of ancestors.
  pub hierarchy_level-length : (k : Key) → hierarchy_level t k ≡ length (get_ancestors t k)
  unfolding hierarchy_level get_ancestors
  hierarchy_level-length k =
      level_from-climb (parent_workflow t) (rounds t) (k ∷ []) (parent_workflow t k)

  -- On a forest the ancestors of a child are those of its parent and the parent, so its path is the
  -- parent's path and itself.
  pub get_ancestors_under :
      (k p : Key)
      → IsForest (parent_workflow t)
      → parent_workflow t k ≡ some p
      → get_ancestors t k ≡ get_workflow_hierarchy_path t p
  unfolding get_workflow_hierarchy_path
  get_ancestors_under k p forest e =
      let (n, a) = get_ancestors-AncestorsOf forest k in
      let (m, b) = get_ancestors-AncestorsOf forest p in
      AncestorsOf-unique (parent_workflow t) k n (suc m) _ _ a (p, get_ancestors t p, e, refl, b)
