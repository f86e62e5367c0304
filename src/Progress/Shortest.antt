-- ===== src/Progress/Shortest.antt =====
-- The search finds a shortest walk, or there is none: _shortest_path.
use pwms_project.Prelude.{
  true-false, ℕ, zero, suc, ◌+◌, ◌≤◌, ◌≡◌, true, List, [], ◌∷◌, ◌++◌, ◌==◌, nat_eq, map, refl,
  arith, contains, Bool-cases, inl, inr, ◌⊎◌, beq→eq, beq_refl, ◌∙◌, ap, sym, subst, length, Option,
  none, some, append_assoc, append-nil, length-append, leb,
}
use pwms_project.Progress.{Edge, adjacent, search, shortest_path}
use pwms_project.Progress.Walks.{Walk, stay, step, IsDistance, IsCut, Walk-closed}
use pwms_project.Progress.Visits.{visit_cases, entries, unseen}
use pwms_project.Progress.Frontier.{Frontier, Frontier-level, Frontier-start, Frontier-visit}

next_level : (k : ℕ) → suc k ≡ k + 1
next_level k = omega arith

entries-append : (d : ℕ) (xs ys : List ℕ) → entries d (xs ++ ys) ≡ entries d xs ++ entries d ys
unfolding entries
entries-append d [] ys = refl
entries-append d (x ∷ xs) ys =
    ap (λ r. record { state_id = x; distance = d } ∷ r) (entries-append d xs ys)

targets : List Edge → List ℕ
targets edges = map (λ e. e.to) edges

adjacent-targets :
    (edges : List Edge) (u x : ℕ)
    → contains x (adjacent edges u) ≡ true
    → contains x (targets edges) ≡ true
unfolding adjacent targets
adjacent-targets [] u x h = h
adjacent-targets (e ∷ edges) u x h = elim (Bool-cases (e.from == u)) [
  | inl ours ↦ ground (arith, adjacent-targets edges u x)
  | inr theirs ↦ ground (arith, adjacent-targets edges u x)
]

unseen_le_length : (seen : List ℕ) (edges : List Edge) → unseen seen (targets edges) ≤ length edges
unfolding unseen targets
unseen_le_length seen [] = omega arith
unseen_le_length seen (e ∷ edges) = elim (Bool-cases (contains e.to seen)) [
  | inl old ↦ ground (arith, unseen_le_length seen edges)
  | inr young ↦ ground (arith, unseen_le_length seen edges)
]

-- The answer of a search, with what it says of the walks.
unfoldable pub Answers : List Edge → ℕ → ℕ → Option ℕ → Type 0
Answers edges start goal answer =
    ((answer ≡ none) × IsCut edges start goal)
    ⊎ ((n : ℕ) × (answer ≡ some n) × IsDistance edges start goal n)

module _ (edges : List Edge) (start goal : ℕ) where
  abbrev Searches : ℕ → Type 0
  Searches fuel =
      (k : ℕ) (cur nxt seen : List ℕ)
      → Frontier edges start goal k cur nxt seen
      → length cur + length nxt + unseen seen (targets edges) ≤ fuel
      → Answers edges start goal
          (search fuel goal edges seen (entries k cur ++ entries (k + 1) nxt))

  found_Distance :
      (k u : ℕ) (cur nxt seen : List ℕ)
      → Frontier edges start goal k (u ∷ cur) nxt seen
      → contains goal (adjacent edges u) ≡ true
      → IsDistance edges start goal (k + 1)
  found_Distance k u cur nxt seen f h = record {
    walk =
        subst (λ n. Walk edges start n goal) (next_level k)
          (step (f.at u (ground (arith, beq_refl u))) h);
    least = λ m w. elim (Bool-cases (leb m k)) [
      | inl near ↦ absurd (true-false (f.reached m goal (ground arith) w) f.away)
      | inr far ↦ ground arith
    ];
  }

  pop :
      (fuel : ℕ)
      → Searches fuel
      → (k u : ℕ) (cur nxt seen : List ℕ) → Frontier edges start goal k (u ∷ cur) nxt seen
      → length cur + length nxt + unseen seen (targets edges) ≤ fuel
      → Answers edges start goal
          (search (suc fuel) goal edges seen (entries k (u ∷ cur) ++ entries (k + 1) nxt))
  unfolding search entries Answers
  pop fuel ih k u cur nxt seen f le =
      let queue = entries k cur ++ entries (k + 1) nxt in
      elim (visit_cases goal k (adjacent edges u) seen queue) [
        | inl (found, hit) ↦
            rw (search, hit) (inr (k + 1, refl, found_Distance k u cur nxt seen f found))
        | inr v ↦
            let split =
              ap (λ r. entries k cur ++ r) (entries-append (k + 1) nxt v.new)
              ∙ sym (append_assoc (entries k cur) (entries (k + 1) nxt) (entries (k + 1) v.new)) in
            rw (search, v.result)
              (subst (λ q. Answers edges start goal (search fuel goal edges v.more q)) split
                (ih k cur (nxt ++ v.new) v.more
                  (Frontier-visit edges start goal k u cur nxt seen queue f v)
                  (omega (
                    arith,
                    le,
                    length-append nxt v.new,
                    v.counted (targets edges) (adjacent-targets edges u),
                  ))))
      ]

  searched : (fuel : ℕ) → Searches fuel
  unfolding Answers entries search
  searched fuel k [] [] seen f le = inl (
    refl,
    λ m w.
        true-false
          (Walk-closed edges start seen f.started (λ u v s j. f.closed u v s refl refl j) m goal w)
          f.away,
  )
  searched zero k (u ∷ cur) nxt seen f le = absurd (omega arith)
  searched zero k [] (u ∷ nxt) seen f le = absurd (omega arith)
  searched (suc fuel) k (u ∷ cur) nxt seen f le =
      pop fuel (searched fuel) k u cur nxt seen f (omega arith)
  searched (suc fuel) k [] (u ∷ nxt) seen f le =
      let same =
        append-nil (entries (suc k) (u ∷ nxt)) ∙ ap (λ d. entries d (u ∷ nxt)) (next_level k) in
      subst (λ q. Answers edges start goal (search (suc fuel) goal edges seen q)) same
        (pop fuel (searched fuel) (suc k) u nxt [] seen
          (Frontier-level edges start goal k (u ∷ nxt) seen f) (omega arith))

  -- The search always comes to an answer: the number of transitions of a shortest walk from the
  -- one state to the other, or None where there is no walk.
  pub shortest_path-Answers : Answers edges start goal (shortest_path edges start goal)
  unfolding Answers shortest_path entries
  shortest_path-Answers = elim (Bool-cases (start == goal)) [
    | inl same ↦
        rw (shortest_path, same)
          (inr (
            0,
            refl,
            record {
              walk = subst (Walk edges start 0) (beq→eq start goal same) stay;
              least = λ m w. omega arith;
            },
          ))
    | inr apart ↦
        rw (shortest_path, apart)
          (searched (suc (length edges)) 0 (start ∷ []) [] (start ∷ [])
            (Frontier-start edges start goal 0 apart)
            (omega (arith, unseen_le_length (start ∷ []) edges)))
  ]
