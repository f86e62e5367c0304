-- ===== src/OrgHierarchy/Best.antt =====
-- Which parent is inferred: infer_unit_parents, src/pwms/membership/org_hierarchy.py.
use mathlib.Core.List.{Memᴰ}
use pwms_project.Prelude.{
  ℕ, ◌<◌, ◌∙◌, map, fun_ext, length, mem-filter, find→mem, beq_refl, some_inj, ◌≡◌, ◌≢◌, ◌⊎◌, refl,
  sym, ap, subst, true, false, none, some, List, [], ◌∷◌, String, ◌==◌, nat_eq, string_eq, arith,
  All, All→mem, mem→All, filter, sort_where, insert_where, sort-mem, mem-sort, Bool-cases,
  List-cases, inl, inr, none-some,
}
use pwms_project.OrgHierarchy.Votes.{
  largest, lookup, sits_in, votes_for, voters, reach, is_member_of-sits_in, counted, lookup_counted,
}
use pwms_project.OrgHierarchy.{
  Person, Candidate, has_more, ranks_before, first_name, UnitInference, count_members, is_member_of,
  infer_unit,
}

-- No candidate of the list has more votes than this one, or as many and a longer span.
abbrev pub IsBest : Candidate → List Candidate → Type 0
IsBest c candidates = All (λ q. has_more q c ≡ false) candidates

abbrev HasBestFirst : List Candidate → Type 0
HasBestFirst [] = Unit
HasBestFirst (c ∷ rest) = IsBest c rest

has_more_trans :
    (a b c : Candidate) → has_more a b ≡ false → has_more b c ≡ false → has_more a c ≡ false
unfolding has_more
has_more_trans a b c h k = ground arith

has_more_irrefl : (a : Candidate) → has_more a a ≡ false
unfolding has_more
has_more_irrefl a = ground arith

before_not : (a b : Candidate) → ranks_before a b ≡ true → has_more b a ≡ false
unfolding ranks_before has_more
before_not a b h = ground arith

not_before : (a b : Candidate) → ranks_before a b ≡ false → has_more a b ≡ false
unfolding ranks_before has_more
not_before a b h = ground arith

weaken : (a b : Candidate) (cs : List Candidate) → has_more b a ≡ false → IsBest b cs → IsBest a cs
weaken a b [] h k = tt
weaken a b (q ∷ cs) h (k, r) = (has_more_trans q b a k h, weaken a b cs h r)

insert_where-IsBest :
    (a c : Candidate) (cs : List Candidate)
    → has_more a c ≡ false
    → IsBest c cs
    → IsBest c (insert_where ranks_before a cs)
unfolding insert_where
insert_where-IsBest a c [] h k = (h, tt)
insert_where-IsBest a c (x ∷ cs) h (k, r) = elim (Bool-cases (ranks_before x a)) [
  | inl goes ↦ rw goes (k, insert_where-IsBest a c cs h r)
  | inr stays ↦ rw stays (h, (k, r))
]

insert_where-HasBestFirst :
    (a : Candidate) (cs : List Candidate)
    → HasBestFirst cs
    → HasBestFirst (insert_where ranks_before a cs)
unfolding insert_where
insert_where-HasBestFirst a [] h = tt
insert_where-HasBestFirst a (x ∷ cs) h = elim (Bool-cases (ranks_before x a)) [
  | inl goes ↦ rw goes (insert_where-IsBest a x cs (before_not x a goes) h)
  | inr stays ↦ rw stays (not_before x a stays, weaken a x cs (not_before x a stays) h)
]

sort_where-HasBestFirst : (cs : List Candidate) → HasBestFirst (sort_where ranks_before cs)
unfolding sort_where
sort_where-HasBestFirst [] = tt
sort_where-HasBestFirst (c ∷ cs) =
    insert_where-HasBestFirst c (sort_where ranks_before cs) (sort_where-HasBestFirst cs)

IsBest-first_name :
    (cs : List Candidate) (c : Candidate) (rest : List Candidate)
    → sort_where ranks_before cs ≡ c ∷ rest
    → Memᴰ c cs × IsBest c cs
IsBest-first_name cs c rest e = (
  sort-mem ranks_before cs (subst (Memᴰ c) (sym e) (Memᴰ.head refl)),
  mem→All _ cs (λ q m. under (subst (Memᴰ q) e (mem-sort ranks_before cs m))),
)
  where
    under : {q : Candidate} → Memᴰ q (c ∷ rest) → has_more q c ≡ false
    under {q} (Memᴰ.head same) = subst (λ x. has_more x c ≡ false) (sym same) (has_more_irrefl c)
    under {q} (Memᴰ.tail m) =
        All→mem (λ x. has_more x c ≡ false) rest (subst HasBestFirst e (sort_where-HasBestFirst cs))
          m

sort_empty : (cs : List Candidate) → sort_where ranks_before cs ≡ [] → cs ≡ []
sort_empty cs e = elim (List-cases cs) [
  | inl empty ↦ empty
  | inr (x, rest, k) ↦
      elim (subst (Memᴰ x) e
        (mem-sort ranks_before cs (subst (Memᴰ x) (sym k) (Memᴰ.head refl)))) [ ]
]

module _ (normalize : String → String) (people : List Person) (unit : String) where
  abbrev voting : String → List Person
  voting name = voters normalize people unit name people

  abbrev longest : String → ℕ
  longest name = largest (map (reach normalize people) (voting name))

  -- One name has more votes than another, or as many and a supervisor with a longer reach.
  abbrev pub Beats : String → String → Type 0
  Beats other name =
      (length (voting name) < length (voting other))
      ⊎ ((length (voting other) ≡ length (voting name)) × (longest name < longest other))

  -- What can be said of the parent of the unit, from the people alone.
  abbrev pub Inferred : UnitInference → Type 0
  Inferred i =
      (i.members ≡ length (filter (λ m. sits_in normalize people m.employee_id unit) people))
      × (((i.parent ≡ none) × ((name : String) → voting name ≡ []))
          ⊎ ((name : String) × (i.parent ≡ some name)
              × (name ≢ unit)
              × (voting name ≢ [])
              × ((other : String) → ¬ Beats other name)))

  voter_elsewhere : (name : String) → voting name ≢ [] → name ≢ unit
  voter_elsewhere name some_vote same = elim (List-cases (voting name)) [
    | inl empty ↦ some_vote empty
    | inr (m, rest, e) ↦
        let (_, test) =
          mem-filter (votes_for normalize people unit name) people {x = m}
            (subst (Memᴰ m) (sym e) (Memᴰ.head refl)) in
        let eq : (name == unit) ≡ true = rw same (beq_refl unit) in
        absurd (ground (arith, test, eq))
  ]

  not_more :
      (a b : Candidate)
      → has_more a b ≡ false
      → ¬ ((b.votes < a.votes) ⊎ ((a.votes ≡ b.votes) × (b.span < a.span)))
  unfolding has_more
  not_more a b h (inl more) = absurd (ground arith)
  not_more a b h (inr (same, longer)) = absurd (ground arith)

  nobody-Beats : (other name : String) → voting other ≡ [] → ¬ Beats other name
  nobody-Beats other name quiet (inl more) = let e = ap length quiet in absurd (omega arith)
  nobody-Beats other name quiet (inr (same, longer)) =
      let e = ap (λ ms. largest (map (reach normalize people) ms)) quiet in absurd (omega arith)

  more_of :
      (other name : String) (q r : Candidate)
      → q.votes ≡ length (voting name)
      → r.votes ≡ length (voting other)
      → q.span ≡ longest name
      → r.span ≡ longest other
      → Beats other name
      → (q.votes < r.votes) ⊎ ((r.votes ≡ q.votes) × (q.span < r.span))
  more_of other name q r v w sp sq (inl more) = inl (omega arith)
  more_of other name q r v w sp sq (inr (same, longer)) = inr (omega arith, omega arith)

  -- The parent that is inferred for a unit is a name other than the unit's for which one of its
  -- people votes, that is, whose supervisor the last row of that employee puts into the unit of
  -- that name; and no other name has the votes of more people, or of as many and a supervisor among
  -- theirs to whom more people report. A unit has no parent exactly when nobody in it votes for any
  -- name. The members are the people whom the last row of their employee number puts into the unit.
  pub infer_unit-IsBest : Inferred (infer_unit normalize people unit)
  unfolding infer_unit first_name
  infer_unit-IsBest =
      let members = filter (is_member_of normalize people unit) people in
      let cs = count_members normalize people unit members [] in
      (
        ap (λ p. length (filter p people))
            (fun_ext (λ m. is_member_of-sits_in normalize people unit m)),
        elim (List-cases (sort_where ranks_before cs)) [
          | inl empty ↦ inl (
            ap first_name empty,
            λ name. elim (counted normalize people unit name people) [
              | inl (quiet, _) ↦ quiet
              | inr (q, found, _, _) ↦
                  absurd (none-some (sym (ap (lookup name) (sort_empty cs empty)) ∙ found))
            ],
          )
          | inr (c, rest, e) ↦
              let (m, best) = IsBest-first_name cs c rest e in
              let here = lookup_counted normalize people unit members c m in
              elim (counted normalize people unit c.name people) [
                | inl (quiet, found) ↦ absurd (none-some (sym found ∙ here))
                | inr (q, found, some_vote, (n, v, sp)) ↦
                    let same : q ≡ c = some_inj (sym found ∙ here) in
                    inr (
                      c.name,
                      ap first_name e,
                      voter_elsewhere c.name some_vote,
                      some_vote,
                      λ other beats. elim (counted normalize people unit other people) [
                        | inl (quiet, _) ↦ nobody-Beats other c.name quiet beats
                        | inr (r, there, _, (n', v', sp')) ↦
                            let (k, _) = find→mem (λ x. x.name == other) cs {x = r} there in
                            not_more r q (rw same (All→mem (λ x. has_more x c ≡ false) cs best k)) (
                              more_of other c.name q r (omega (arith, v)) (omega (arith, v'))
                                (omega (arith, sp)) (omega (arith, sp')) beats)
                      ],
                    )
              ]
        ],
      )
