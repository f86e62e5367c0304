-- ===== src/OrgHierarchy.antt =====
-- The parents of organisational units by the supervisors of their people:
-- src/pwms/membership/org_hierarchy.py. The order of two names is that of their code points.
pub mod Votes
pub mod Best
use Prim.Native.String.{compare}
use Prim.Native.Nat.{Ordering}
use pwms_project.Prelude.{
  ℕ, ◌+◌, max, Bool, true, false, not, ◌&&◌, ◌||◌, Option, none, some, List, [], ◌∷◌, ◌++◌, String,
  if◌then◌else◌, ◌==◌, nat_eq, string_eq, ltb, leb, length, filter, find_last, map, contains,
  sort_where,
}

pub record Person : Type 0 where
  pub employee_id : String
  pub supervisor_id : String
  pub child_org : String
  pub parent_org : String

-- The entries under one name of the dictionaries votes, spans and reports.
pub record Candidate : Type 0 where
  pub name : String
  pub votes : ℕ
  pub span : ℕ
  pub reports : List String

pub record UnitInference : Type 0 where
  pub unit : String
  pub parent : Option String
  pub members : ℕ
  pub candidates : List Candidate

unfoldable pub add_vote : String → ℕ → String → List Candidate → List Candidate
add_vote name span employee [] =
    record { name = name; votes = 1; span = span; reports = employee ∷ [] } ∷ []
add_vote name span employee (c ∷ rest) =
    let later = c ∷ add_vote name span employee rest in
    if c.name == name
    then record c {
      votes = c.votes + 1;
      span = max c.span span;
      reports = c.reports ++ (employee ∷ []);
    }
      ∷ rest
    else later

unfoldable pub has_more : Candidate → Candidate → Bool
has_more a b = ltb b.votes a.votes || a.votes == b.votes && ltb b.span a.span

unfoldable pub is_lt : Ordering → Bool
is_lt Ordering.lt = true
is_lt Ordering.eq = false
is_lt Ordering.gt = false

-- The key (-votes[name], -spans[name], name).
unfoldable pub ranks_before : Candidate → Candidate → Bool
ranks_before a b =
    has_more a b || a.votes == b.votes && a.span == b.span && is_lt (compare a.name b.name)

unfoldable pub first_name : List Candidate → Option String
first_name [] = none
first_name (c ∷ rest) = some c.name

module _ (normalize : String → String) (people : List Person) where
  -- unit_of.get(id): the last row of an employee counts, an empty id has none.
  unfoldable pub unit_of : String → Option String
  unit_of id = if id == "" then none else elim (find_last (λ p. p.employee_id == id) people) [
    | none ↦ none
    | some p ↦ some (normalize p.parent_org)
  ]

  unfoldable pub span_of : String → ℕ
  span_of supervisor = length (filter (λ p. p.supervisor_id == supervisor) people)

  unfoldable pub vote_of : String → Person → Option String
  vote_of unit member =
      if member.supervisor_id == "" then none else elim (unit_of member.supervisor_id) [
        | none ↦ none
        | some parent ↦ if parent == "" || parent == unit then none else some parent
      ]

  -- One round of the loop over the members.
  unfoldable pub count_member : String → Person → List Candidate → List Candidate
  count_member unit member candidates = elim (vote_of unit member) [
    | none ↦ candidates
    | some parent ↦ add_vote parent (span_of member.supervisor_id) member.employee_id candidates
  ]

  unfoldable pub count_members : String → List Person → List Candidate → List Candidate
  count_members unit [] candidates = candidates
  count_members unit (member ∷ rest) candidates =
      count_members unit rest (count_member unit member candidates)

  unfoldable pub is_member_of : String → Person → Bool
  is_member_of unit p = elim (unit_of p.employee_id) [ none ↦ false | some u ↦ u == unit ]

  unfoldable pub infer_unit : String → UnitInference
  infer_unit unit =
      let members = filter (is_member_of unit) people in
      let candidates = count_members unit members [] in
      record {
        unit = unit;
        parent = first_name (sort_where ranks_before candidates);
        members = length members;
        candidates = candidates;
      }

  -- The keys of members_of, in the order in which they are first seen.
  unfoldable pub units_of : List String → List Person → List String
  units_of seen [] = []
  units_of seen (p ∷ rest) = elim (unit_of p.employee_id) [
    | none ↦ units_of seen rest
    | some u ↦
        let here = u ∷ units_of (u ∷ seen) rest in
        let later = units_of seen rest in if u == "" || contains u seen then later else here
  ]

  unfoldable pub infer_unit_parents : List UnitInference
  infer_unit_parents = map infer_unit (units_of [] people)

unfoldable pub most_votes : List Candidate → ℕ
most_votes [] = 0
most_votes (c ∷ rest) = max c.votes (most_votes rest)

unfoldable pub low_confidence : UnitInference → Bool
low_confidence i = ltb 0 (length i.candidates) && ltb (most_votes i.candidates) 2

unfoldable pub unit_parent_map : ℕ → List UnitInference → List (String × String)
unit_parent_map min_votes [] = []
unit_parent_map min_votes (i ∷ rest) =
    let later = unit_parent_map min_votes rest in
    elim i.parent [
      | none ↦ later
      | some parent ↦
          if not (parent == "") && leb min_votes (most_votes i.candidates)
          then (i.unit, parent) ∷ later
          else later
    ]
