-- ===== src/Hierarchy.antt =====
-- The parent/child hierarchy of workflow instances: WorkflowRelationship and the traversal and
-- attachment methods of AbstractLegislativeWorkflow, src/pwms/models/workflows.py. The per-object
-- cache of the parent link is not modelled: a link is always read from the table.
pub mod Climb
pub mod Links
pub mod Forest
pub mod Attach
pub mod Ancestors
pub mod Descendants
use pwms_project.Prelude.{
  ℕ, zero, suc, Bool, true, false, ◌&&◌, ◌||◌, not, Option, none, some, List, [], ◌∷◌, ◌++◌, Key,
  if◌then◌else◌, ◌==◌, key_eq, nat_eq, find, exists, contains, length, ltb, filter, map, sort_where,
}
use pwms_project.Descent.{descend}
use pwms_project.Schema.{Instance, WorkflowType}

pub data RelationshipType : Type 0 where
  holds follows_up supersedes relates_to : RelationshipType

pub record Relationship : Type 0 where
  pub parent : Key
  pub child : Key
  pub relationship_type : RelationshipType
  pub order : ℕ

-- `others` are rows of models that are no workflows; a generic foreign key may name one.
pub record Tree : Type 0 where
  pub types : List WorkflowType
  pub instances : List Instance
  pub others : List Key
  pub links : List Relationship

pub data Error : Type 0 where
  missing_endpoint not_workflow own_parent would_cycle type_not_allowed duplicate_child : Error

unfoldable pub instance_of : Key → Tree → Option Instance
instance_of k t = find (λ i. i.key == k) t.instances

-- _parent_link(): the relationship row in which the instance is the child.
unfoldable pub parent_link : Key → List Relationship → Option Relationship
parent_link k = find (λ l. l.child == k)

-- parent_workflow: a generic foreign key reads as None if its row is gone.
unfoldable pub parent_workflow : Tree → Key → Option Key
unfolding parent_link
parent_workflow t k = elim (parent_link k t.links) [
  | none ↦ none
  | some l ↦ if exists (λ i. i.key == l.parent) t.instances then some l.parent else none
]

-- The `while` loop of get_ancestors: the chain is appended to, and reversed at the end.
unfoldable pub climb : ℕ → (Key → Option Key) → List Key → Option Key → List Key
climb fuel up seen none = []
climb zero up seen (some k) = []
climb (suc fuel) up seen (some k) = elim (contains k seen) [
  | true ↦ []
  | false ↦ climb fuel up (k ∷ seen) (up k) ++ k ∷ []
]

-- One more round than there are links: a round that goes on uses up the link of a node that was
-- not seen before.
abbrev pub rounds : Tree → ℕ
rounds t = suc (length t.links)

unfoldable pub get_ancestors : Tree → Key → List Key
get_ancestors t k = climb (rounds t) (parent_workflow t) (k ∷ []) (parent_workflow t k)

unfoldable pub level_from : ℕ → (Key → Option Key) → List Key → Option Key → ℕ
level_from fuel up seen none = 0
level_from zero up seen (some k) = 0
level_from (suc fuel) up seen (some k) = elim (contains k seen) [
  | true ↦ 0
  | false ↦ suc (level_from fuel up (k ∷ seen) (up k))
]

unfoldable pub hierarchy_level : Tree → Key → ℕ
hierarchy_level t k = level_from (rounds t) (parent_workflow t) (k ∷ []) (parent_workflow t k)

unfoldable pub get_workflow_hierarchy_path : Tree → Key → List Key
get_workflow_hierarchy_path t k = get_ancestors t k ++ k ∷ []

-- _child_links(): the table is in the order of its primary key, and the sort is stable.
unfoldable pub child_links : Tree → Key → List Relationship
child_links t k = sort_where (λ a b. ltb a.order b.order) (filter (λ l. l.parent == k) t.links)

unfoldable pub sub_workflows : Tree → Key → List Key
sub_workflows t k = map (λ l. l.child) (child_links t k)

unfoldable pub has_sub_workflows : Tree → Key → Bool
has_sub_workflows t k = exists (λ l. l.parent == k) t.links

unfoldable pub all_there : Tree → List Key → Bool
all_there t [] = true
all_there t (k ∷ rest) = exists (λ i. i.key == k) t.instances && all_there t rest

-- `none` is the AttributeError at a link whose child's row is gone. One round for each link.
unfoldable pub get_all_descendants : Tree → Key → Option (List Key)
get_all_descendants t k =
    let found = descend (sub_workflows t) (length t.links) k in
    if all_there t found then some found else none

-- The loop of _creates_cycle. Out of fuel it refuses the link.
unfoldable pub cycle_from : ℕ → (Key → Option Key) → Key → List Key → Option Key → Bool
cycle_from fuel up child seen none = false
cycle_from zero up child seen (some k) = true
cycle_from (suc fuel) up child seen (some k) = elim (k == child || contains k seen) [
  | true ↦ true
  | false ↦ cycle_from fuel up child (k ∷ seen) (up k)
]

unfoldable pub creates_cycle : Tree → Key → Key → Bool
creates_cycle t parent child =
    cycle_from (suc (rounds t)) (parent_workflow t) child [] (some parent)

-- workflow_type.allowed_child_types()
unfoldable pub is_child_type : ℕ → WorkflowType → Bool
is_child_type parent_type w = elim w.parent_type [ none ↦ false | some p ↦ p == parent_type ]

-- allowed.exists() and not allowed.filter(pk=child.workflow_type_id).exists()
unfoldable pub type_refused : Tree → Instance → Instance → Bool
unfolding is_child_type
type_refused t parent child =
    exists (is_child_type parent.workflow_type) t.types
    && not
        (exists (λ w. is_child_type parent.workflow_type w && w.pk == child.workflow_type) t.types)

unfoldable pub clean_workflows : Instance → Instance → Tree → Option Error
clean_workflows parent child t =
    if parent.key == child.key
    then some own_parent
    else if creates_cycle t parent.key child.key
    then some would_cycle
    else if type_refused t parent child
    then some type_not_allowed
    else none

-- Where an endpoint is no workflow instance.
unfoldable pub not_an_instance : Key → Key → Tree → Error
not_an_instance parent child t =
    let known = λ (k : Key). exists (λ i. i.key == k) t.instances || contains k t.others in
    if known parent && known child then not_workflow else missing_endpoint

-- clean() of a relationship row.
unfoldable pub clean : Relationship → Tree → Option Error
clean link t = elim (instance_of link.parent t) [
  | none ↦ some (not_an_instance link.parent link.child t)
  | some parent ↦ elim (instance_of link.child t) [
    | none ↦ some (not_an_instance link.parent link.child t)
    | some child ↦ clean_workflows parent child t
  ]
]

-- save() of a new row: clean(), then the insert under the unique constraint on the child.
unfoldable pub save_link : Relationship → Tree → Tree × Option Error
save_link link t = elim (clean link t) [
  | some e ↦ (t, some e)
  | none ↦
      if exists (λ l. l.child == link.child) t.links
      then (t, some duplicate_child)
      else (record t { links = t.links ++ link ∷ [] }, none)
]

unfoldable pub remove_link : Key → List Relationship → List Relationship
remove_link k [] = []
remove_link k (l ∷ rest) =
    let later = l ∷ remove_link k rest in if l.child == k then rest else later

-- The delete of the row by which the table gives the instance a parent, if there is one.
unfoldable pub detach : Key → Tree → Tree
detach k t = record t { links = remove_link k t.links }

-- What _parent_link of the object in hand returns: the row that the table has, or, where the object
-- has kept an earlier answer, that there is none or a row that has been deleted since.
pub data LinkCache : Type 0 where
  fresh outdated : LinkCache

-- existing = self._parent_link(), and existing.delete() if there is one: an outdated answer deletes
-- no row.
unfoldable pub drop_existing : LinkCache → Key → Tree → Tree
drop_existing fresh k t = detach k t
drop_existing outdated k t = t

-- set_parent_workflow(parent, relationship_type=…, order=…)
unfoldable pub set_parent_workflow :
    LinkCache → Key → Option Key → RelationshipType → ℕ → Tree → Tree × Option Error
set_parent_workflow cache k none kind order t = (drop_existing cache k t, none)
set_parent_workflow cache k (some parent) kind order t =
    let link : Relationship = record {
      parent = parent;
      child = k;
      relationship_type = kind;
      order = order;
    } in
    elim (clean link t) [ some e ↦ (t, some e) | none ↦ save_link link (drop_existing cache k t) ]

unfoldable pub update_link : Relationship → List Relationship → List Relationship
update_link link [] = []
update_link link (l ∷ rest) =
    let later = l ∷ update_link link rest in if l.child == link.child then link ∷ rest else later

-- add_sub_workflow(child, …): an existing link of the child keeps its parent.
unfoldable pub add_sub_workflow : Key → Key → RelationshipType → ℕ → Tree → Tree × Option Error
add_sub_workflow k child kind order t = elim (parent_link child t.links) [
  | none ↦
      save_link (record { parent = k; child = child; relationship_type = kind; order = order }) t
  | some l ↦
      let l' = record l { relationship_type = kind; order = order } in
      elim (clean l' t) [
        | some e ↦ (t, some e)
        | none ↦ (record t { links = update_link l' t.links }, none)
      ]
]

-- remove_sub_workflow(child)
unfoldable pub remove_sub_workflow : Key → Key → Tree → Tree × Bool
remove_sub_workflow k child t = elim (parent_link child t.links) [
  | none ↦ (t, false)
  | some l ↦ if l.parent == k then (detach child t, true) else (t, false)
]
