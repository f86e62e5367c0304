-- ===== src/Progress/Visits.antt =====
-- The loop over the neighbours of one state.
use pwms_project.Prelude.{
  append-nil, append_assoc, ℕ, suc, ◌+◌, ◌≤◌, ◌≡◌, true, false, List, [], ◌∷◌, ◌++◌, ◌==◌, nat_eq,
  refl, arith, contains, Bool-cases, inl, inr, ◌⊎◌, beq→eq, beq_refl, ◌∙◌, ap, sym, length,
}
use pwms_project.Progress.{Entry, arrived, going, visit}

unfoldable pub entries : ℕ → List ℕ → List Entry
entries distance [] = []
entries distance (v ∷ rest) = record { state_id = v; distance = distance } ∷ entries distance rest

-- How many of the targets have not been seen.
unfoldable pub unseen : List ℕ → List ℕ → ℕ
unseen seen [] = 0
unseen seen (x ∷ rest) = elim (contains x seen) [
  | true ↦ unseen seen rest
  | false ↦ suc (unseen seen rest)
]

unseen_le : (n : ℕ) (seen targets : List ℕ) → unseen (n ∷ seen) targets ≤ unseen seen targets
unfolding unseen
unseen_le n seen [] = omega arith
unseen_le n seen (x ∷ rest) = ground (arith, unseen_le n seen rest)

unseen_lt :
    (n : ℕ) (seen targets : List ℕ)
    → contains n seen ≡ false
    → contains n targets ≡ true
    → suc (unseen (n ∷ seen) targets) ≤ unseen seen targets
unfolding unseen
unseen_lt n seen [] out h = absurd (ground arith)
unseen_lt n seen (x ∷ rest) out h = elim (Bool-cases (n == x)) [
  | inl same ↦ rw (← beq→eq n x same) (ground (arith, unseen_le n seen rest, beq_refl n))
  | inr other ↦ ground (arith, unseen_lt n seen rest out (ground arith))
]

-- What a visit that misses the goal does: it queues new states, each once.
pub record Visited (goal distance : ℕ) (neighbours seen : List ℕ) (queue : List Entry)
    : Type 0 where
  pub more : List ℕ
  pub new : List ℕ
  pub result :
      visit goal distance neighbours seen queue ≡ going more (queue ++ entries (distance + 1) new)
  pub misses : contains goal neighbours ≡ false
  pub covers : (x : ℕ) → contains x neighbours ≡ true → contains x more ≡ true
  pub keeps : (x : ℕ) → contains x seen ≡ true → contains x more ≡ true
  pub origin : (x : ℕ) → contains x more ≡ true → (contains x seen ≡ true) ⊎ (contains x new ≡ true)
  pub fresh :
      (x : ℕ)
      → contains x new ≡ true
      → (contains x more ≡ true) × (contains x neighbours ≡ true) × (contains x seen ≡ false)
  pub counted :
      (targets : List ℕ)
      → ((x : ℕ) → contains x neighbours ≡ true → contains x targets ≡ true)
      → length new + unseen more targets ≤ unseen seen targets

-- Whether a visit finds the goal among the neighbours.
pub visit_cases :
    (goal distance : ℕ) (neighbours seen : List ℕ) (queue : List Entry)
    → ((contains goal neighbours ≡ true) × (visit goal distance neighbours seen queue ≡ arrived))
      ⊎ Visited goal distance neighbours seen queue
unfolding visit entries
visit_cases goal distance [] seen queue = inr (record {
  more = seen;
  new = [];
  result = ap (going seen) (sym (append-nil queue));
  misses = refl;
  covers = λ x h. absurd (ground arith);
  keeps = λ x h. h;
  origin = λ x h. inl h;
  fresh = λ x h. absurd (ground arith);
  counted = λ targets known. omega arith;
})
visit_cases goal distance (n ∷ rest) seen queue = elim (Bool-cases (n == goal)) [
  | inl same ↦ inl (ground (arith, beq→eq n goal same, beq_refl goal), rw (visit, same) refl)
  | inr other ↦ elim (Bool-cases (contains n seen)) [
    | inl old ↦ elim (visit_cases goal distance rest seen queue) [
      | inl (found, hit) ↦ inl (ground arith, rw (visit, other, old) hit)
      | inr v ↦ inr (record {
        more = v.more;
        new = v.new;
        result = rw (visit, other, old) v.result;
        misses = ground (arith, v.misses);
        covers = λ x h. elim (Bool-cases (x == n)) [
          | inl here ↦ v.keeps x (rw (beq→eq x n here) old)
          | inr there ↦ v.covers x (ground arith)
        ];
        keeps = v.keeps;
        origin = v.origin;
        fresh = λ x h. let (m, i, o) = v.fresh x h in (m, ground arith, o);
        counted = λ targets known. v.counted targets (λ x h. known x (ground arith));
      })
    ]
    | inr young ↦
        elim (visit_cases goal distance rest (n ∷ seen)
          (queue ++ record { state_id = n; distance = distance + 1 } ∷ [])) [
            | inl (found, hit) ↦ inl (ground arith, rw (visit, other, young) hit)
            | inr v ↦ inr (record {
              more = v.more;
              new = n ∷ v.new;
              result =
                  rw (visit, other, young) (v.result ∙ ap (going v.more) (append_assoc queue _ _));
              misses = ground (arith, v.misses);
              covers = λ x h. elim (Bool-cases (x == n)) [
                | inl here ↦ v.keeps x (ground arith)
                | inr there ↦ v.covers x (ground arith)
              ];
              keeps = λ x h. v.keeps x (ground arith);
              origin = λ x h. elim (v.origin x h) [
                | inl was ↦ elim (Bool-cases (x == n)) [
                  | inl here ↦ inr (ground arith)
                  | inr there ↦ inl (ground arith)
                ]
                | inr made ↦ inr (ground arith)
              ];
              fresh = λ x h. elim (Bool-cases (x == n)) [
                | inl here ↦ (v.keeps x (ground arith), ground arith, rw (beq→eq x n here) young)
                | inr there ↦
                    let (m, i, o) = v.fresh x (ground arith) in (m, ground arith, ground arith)
              ];
              counted = λ targets known. omega (
                arith,
                v.counted targets (λ x h. known x (ground arith)),
                unseen_lt n seen targets young (known n (ground (arith, beq_refl n))),
              );
            })
          ]
  ]
]
