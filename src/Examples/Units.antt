-- ===== src/Examples/Units.antt =====
-- Three people of one section who report into two others: src/pwms/membership/org_hierarchy.py.
use pwms_project.OrgHierarchy.{
  has_more, ranks_before, add_vote, vote_of, count_member, unit_of, is_member_of, count_members,
  first_name, Person, infer_unit,
}
use pwms_project.Prelude.{insert_where, sort_where, ◌≡◌, refl, some, List, [], ◌∷◌, String}
use pwms_project.OrgHierarchy.Best.{Inferred, infer_unit-IsBest}

abbrev person : String → String → String → Person
person id supervisor unit = record {
  employee_id = id;
  supervisor_id = supervisor;
  child_org = "";
  parent_org = unit;
}

abbrev people : List Person
people =
    person "1" "8" "Bills"
    ∷ person "2" "8" "Bills"
    ∷ person "3" "9" "Bills"
    ∷ person "8" "" "Legal"
    ∷ person "9" "" "Research"
    ∷ []

infer_unit-IsBest_example : Inferred (λ s. s) people "Bills" (infer_unit (λ s. s) people "Bills")
infer_unit-IsBest_example = infer_unit-IsBest (λ s. s) people "Bills"

parent_of_bills : (infer_unit (λ s. s) people "Bills").parent ≡ some "Legal"
unfolding infer_unit first_name sort_where count_members is_member_of unit_of count_member vote_of
    add_vote insert_where ranks_before has_more
parent_of_bills = refl
