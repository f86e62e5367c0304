-- ===== src/OrgHierarchy/Votes.antt =====
-- The votes of a unit's people, counted from the list of people: the loop over the members in
-- infer_unit_parents, src/pwms/membership/org_hierarchy.py.
use mathlib.Core.List.{Memᴰ}
use pwms_project.Prelude.{
  ℕ, ◌+◌, max, ◌≡◌, ◌≢◌, refl, sym, ap, ◌∙◌, Bool, true, false, not, ◌&&◌, Option, none, some, List,
  [], ◌∷◌, ◌++◌, ◌⊎◌, subst, List-cases, String, if◌then◌else◌, ◌==◌, nat_eq, string_eq, arith, All,
  All→mem, filter, find, find_last, map, length, Bool-cases, Option-cases, inl, inr, beq→eq,
  beq_refl, beq_differ,
}
use pwms_project.OrgHierarchy.{
  Person, Candidate, add_vote, unit_of, span_of, vote_of, count_member, count_members, is_member_of,
}

abbrev pub largest : List ℕ → ℕ
largest [] = 0
largest (n ∷ rest) = max n (largest rest)

-- The first candidate of a name.
abbrev pub lookup : String → List Candidate → Option Candidate
lookup name cs = find (λ c. c.name == name) cs

cons-nil {ℓ} : {A : Type ℓ} {x : A} {xs : List A} → x ∷ xs ≢ []
cons-nil h = ground arith

-- No two candidates have one name.
abbrev IsDistinct : List Candidate → Type 0
IsDistinct [] = Unit
IsDistinct (c ∷ cs) = All (λ x. x.name ≢ c.name) cs × IsDistinct cs

add_vote-All :
    (other name : String) (span : ℕ) (employee : String) (cs : List Candidate)
    → name ≢ other
    → All (λ c. c.name ≢ other) cs
    → All (λ c. c.name ≢ other) (add_vote name span employee cs)
unfolding add_vote
add_vote-All other name span employee [] n h = (n, tt)
add_vote-All other name span employee (c ∷ cs) n (q, h) = elim (Bool-cases (c.name == name)) [
  | inl same ↦ rw same (q, h)
  | inr differ ↦ rw differ (q, add_vote-All other name span employee cs n h)
]

add_vote-IsDistinct :
    (name : String) (span : ℕ) (employee : String) (cs : List Candidate)
    → IsDistinct cs
    → IsDistinct (add_vote name span employee cs)
unfolding add_vote
add_vote-IsDistinct name span employee [] h = (tt, tt)
add_vote-IsDistinct name span employee (c ∷ cs) (a, h) = elim (Bool-cases (c.name == name)) [
  | inl same ↦ rw same (a, h)
  | inr differ ↦ rw differ (
    add_vote-All c.name name span employee cs (λ e. beq_differ c.name name differ (sym e)) a,
    add_vote-IsDistinct name span employee cs h,
  )
]

distinct_lookup :
    (cs : List Candidate) (c : Candidate) → IsDistinct cs → Memᴰ c cs → lookup c.name cs ≡ some c
distinct_lookup [] c h m = elim m [ ]
distinct_lookup (x ∷ cs) c h (Memᴰ.head e) = rw (← e, beq_refl c.name) refl
distinct_lookup (x ∷ cs) c (a, h) (Memᴰ.tail m) = elim (Bool-cases (x.name == c.name)) [
  | inl same ↦ absurd (All→mem (λ y. y.name ≢ x.name) cs a m (sym (beq→eq x.name c.name same)))
  | inr differ ↦ rw differ (distinct_lookup cs c h m)
]

module _ (normalize : String → String) (people : List Person) where
  -- The last row of the employee puts them into the unit.
  abbrev pub sits_in : String → String → Bool
  sits_in id unit = not (id == "") && elim (find_last (λ p. p.employee_id == id) people) [
    | none ↦ false
    | some p ↦ normalize p.parent_org == unit
  ]

  -- A person of the unit whose supervisor sits in another one, of this name.
  abbrev pub votes_for : String → String → Person → Bool
  votes_for unit name m =
      sits_in m.employee_id unit
      && (sits_in m.supervisor_id name && (not (name == "") && not (name == unit)))

  abbrev pub voters : String → String → List Person → List Person
  voters unit name ms = filter (votes_for unit name) ms

  -- How many people report to the supervisor of a person.
  abbrev pub reach : Person → ℕ
  reach m = length (filter (λ p. p.supervisor_id == m.supervisor_id) people)

  abbrev bump : String → Person → Option Candidate → Candidate
  bump name m none = record { name = name; votes = 1; span = reach m; reports = m.employee_id ∷ [] }
  bump name m (some c) = record c {
    votes = c.votes + 1;
    span = max c.span (reach m);
    reports = c.reports ++ (m.employee_id ∷ []);
  }

  abbrev grow : String → List Person → Option Candidate → Option Candidate
  grow name [] o = o
  grow name (m ∷ ms) o = grow name ms (some (bump name m o))

  pub is_member_of-sits_in :
      (unit : String) (m : Person)
      → is_member_of normalize people unit m ≡ sits_in m.employee_id unit
  unfolding is_member_of unit_of
  is_member_of-sits_in unit m = ground arith

  lookup-add_vote :
      (j name : String) (m : Person) (cs : List Candidate)
      → lookup j (add_vote name (reach m) m.employee_id cs)
        ≡ (if name == j then some (bump name m (lookup name cs)) else lookup j cs)
  unfolding add_vote
  lookup-add_vote j name m [] = ground arith
  lookup-add_vote j name m (c ∷ cs) = elim (Bool-cases (c.name == name)) [
    | inl same ↦ elim (Bool-cases (name == j)) [
      | inl asked ↦
          let e : (c.name == j) ≡ true = rw (beq→eq c.name name same) asked in
          rw (same, add_vote) (rw (e, asked) refl)
      | inr other ↦
          let e : (c.name == j) ≡ false = rw (beq→eq c.name name same) other in
          rw (same, add_vote) (rw (e, other) refl)
    ]
    | inr differ ↦ elim (Bool-cases (c.name == j)) [
      | inl asked ↦
          let other : (name == j) ≡ false = elim (Bool-cases (name == j)) [
            | inl both ↦
                absurd
                  (beq_differ c.name name differ (beq→eq c.name j asked ∙ sym (beq→eq name j both)))
            | inr apart ↦ apart
          ] in
          rw (differ, add_vote) (rw (asked, other) refl)
      | inr apart ↦ ground (arith, differ, apart, lookup-add_vote j name m cs)
    ]
  ]

  voted : Option String → String → Bool
  voted none j = false
  voted (some name) j = name == j

  voted-sits_in :
      (unit j : String) (m : Person)
      → voted (vote_of normalize people unit m) j
        ≡ (sits_in m.supervisor_id j && (not (j == "") && not (j == unit)))
  unfolding voted vote_of unit_of
  voted-sits_in unit j m = elim (Bool-cases (m.supervisor_id == "")) [
    | inl alone ↦ rw (alone, vote_of) refl
    | inr led ↦ elim (Option-cases (find_last (λ p. p.employee_id == m.supervisor_id) people)) [
      | inl unknown ↦ ground (arith, led, unknown)
      | inr (p, found) ↦ elim (Bool-cases (normalize p.parent_org == j)) [
        | inl same ↦
            let e = beq→eq (normalize p.parent_org) j same in
            ground (arith, led, found, same, e, beq_refl j)
        | inr apart ↦ ground (arith, led, found, apart)
      ]
    ]
  ]

  lookup-count_member :
      (unit j : String) (m : Person) (cs : List Candidate)
      → lookup j (count_member normalize people unit m cs) ≡ (
          if voted (vote_of normalize people unit m) j
          then some (bump j m (lookup j cs))
          else lookup j cs)
  unfolding count_member voted span_of
  lookup-count_member unit j m cs = elim (Option-cases (vote_of normalize people unit m)) [
    | inl quiet ↦ rw (quiet, count_member) refl
    | inr (name, e) ↦ elim (Bool-cases (name == j)) [
      | inl same ↦
          rw (e, count_member) (lookup-add_vote j name m cs ∙ rw (same, beq→eq name j same) refl)
      | inr apart ↦ rw (e, count_member) (lookup-add_vote j name m cs ∙ rw apart refl)
    ]
  ]

  pub lookup-count_members :
      (unit j : String) (ms : List Person) (cs : List Candidate)
      → lookup j
          (count_members normalize people unit (filter (is_member_of normalize people unit) ms) cs)
        ≡ grow j (voters unit j ms) (lookup j cs)
  unfolding count_members
  lookup-count_members unit j [] cs = refl
  lookup-count_members unit j (m ∷ ms) cs =
      let inside = is_member_of-sits_in unit m in
      let one = lookup-count_member unit j m cs in
      let vote = voted-sits_in unit j m in
      let next = count_member normalize people unit m cs in
      let ih = lookup-count_members unit j ms in
      elim (Bool-cases (sits_in m.employee_id unit)) [
        | inr outside ↦
            let quiet : votes_for unit j m ≡ false = rw outside refl in
            rw (inside ∙ outside) (rw quiet (ih cs))
        | inl member ↦ elim (Bool-cases (voted (vote_of normalize people unit m) j)) [
          | inl yes_vote ↦
              let loud : votes_for unit j m ≡ true = rw member (sym vote ∙ yes_vote) in
              let grown : lookup j next ≡ some (bump j m (lookup j cs)) = one ∙ rw yes_vote refl in
              rw (inside ∙ member) (rw loud (ih next ∙ ap (λ o. grow j (voters unit j ms) o) grown))
          | inr no_vote ↦
              let quiet : votes_for unit j m ≡ false = rw member (sym vote ∙ no_vote) in
              let same : lookup j next ≡ lookup j cs = one ∙ rw no_vote refl in
              rw (inside ∙ member) (rw quiet (ih next ∙ ap (λ o. grow j (voters unit j ms) o) same))
        ]
      ]

  max_assoc : (a b c : ℕ) → max (max a b) c ≡ max a (max b c)
  max_assoc a b c = grind arith

  abbrev Tallied : String → List Person → Candidate → Type 0
  Tallied name ms c = (c.name ≡ name) × (c.votes ≡ length ms) × (c.span ≡ largest (map reach ms))

  grow-some :
      (name : String) (ms : List Person) (c : Candidate)
      → (q : Candidate) × (grow name ms (some c) ≡ some q)
        × (q.name ≡ c.name)
        × (q.votes ≡ c.votes + length ms)
        × (q.span ≡ max c.span (largest (map reach ms)))
  grow-some name [] c = (c, refl, refl, omega arith, grind arith)
  grow-some name (m ∷ ms) c =
      let (q, e, n, v, sp) = grow-some name ms (bump name m (some c)) in
      (q, e, n, omega (arith, v), sp ∙ max_assoc c.span (reach m) (largest (map reach ms)))

  grow-none :
      (name : String) (m : Person) (ms : List Person)
      → (q : Candidate) × (grow name (m ∷ ms) none ≡ some q) × Tallied name (m ∷ ms) q
  grow-none name m ms =
      let (q, e, n, v, sp) = grow-some name ms (bump name m none) in
      (q, e, (n, omega (arith, v), sp))

  -- What is counted for a name: no candidate where nobody votes for it, and else one with as many
  -- votes as there are voters and the longest of their supervisors' reach.
  pub counted :
      (unit j : String) (ms : List Person)
      → let found = lookup j (
          count_members normalize people unit
            (filter (is_member_of normalize people unit) ms)
            []) in
        ((voters unit j ms ≡ []) × (found ≡ none))
        ⊎ ((q : Candidate) × (found ≡ some q)
            × (voters unit j ms ≢ [])
            × Tallied j (voters unit j ms) q)
  counted unit j ms =
      let e = lookup-count_members unit j ms [] in
      elim (List-cases (voters unit j ms)) [
        | inl empty ↦ inl (empty, e ∙ rw empty refl)
        | inr (m, rest, k) ↦
            let (q, f, t) = grow-none j m rest in
            inr (q, e ∙ rw k f, λ h. cons-nil (sym k ∙ h), subst (λ vs. Tallied j vs q) (sym k) t)
      ]

  count_members-IsDistinct :
      (unit : String) (ms : List Person) (cs : List Candidate)
      → IsDistinct cs
      → IsDistinct (count_members normalize people unit ms cs)
  unfolding count_members count_member
  count_members-IsDistinct unit [] cs h = h
  count_members-IsDistinct unit (m ∷ ms) cs h =
      count_members-IsDistinct unit ms (count_member normalize people unit m cs)
        (elim (Option-cases (vote_of normalize people unit m)) [
          | inl quiet ↦ rw (quiet, count_member) h
          | inr (name, e) ↦
              rw (e, count_member)
                (add_vote-IsDistinct name (span_of normalize people m.supervisor_id) m.employee_id
                  cs h)
        ])

  -- A candidate of the count is the one that is found by its name.
  pub lookup_counted :
      (unit : String) (ms : List Person) (c : Candidate)
      → Memᴰ c (count_members normalize people unit ms [])
      → lookup c.name (count_members normalize people unit ms []) ≡ some c
  lookup_counted unit ms c m =
      distinct_lookup (count_members normalize people unit ms []) c
        (count_members-IsDistinct unit ms [] tt) m
