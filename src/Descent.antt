-- ===== src/Descent.antt =====
-- The walk that get_all_descendants and get_descendant_types share, src/pwms/models/workflows.py:
-- a set of what was seen, which all levels of the recursion share.
pub mod Visits
pub mod Complete
use pwms_project.Prelude.{
  ℕ, zero, suc, true, false, List, [], ◌∷◌, ◌++◌, Eq, ◌==◌, contains, length,
}

module _ {ℓ} {A : Type ℓ} ⦃same : Eq A⦄ (children : A → List A) where
  -- The loop over the children of a node: what is collected, and what is seen after it.
  unfoldable pub walk : ℕ → List A → List A → List A × List A
  walk zero pending seen = ([], seen)
  walk (suc fuel) [] seen = ([], seen)
  walk (suc fuel) (child ∷ rest) seen = elim (contains child seen) [
    | true ↦ walk fuel rest seen
    | false ↦
        let (below, within) = walk fuel (children child) (child ∷ seen) in
        let (later, after) = walk fuel rest within in (child ∷ below ++ later, after)
  ]

  unfoldable pub descend : ℕ → A → List A
  descend fuel root = (walk fuel (children root) (root ∷ [])).0
