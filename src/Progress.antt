-- ===== src/Progress.antt =====
-- How far an instance has come: WorkflowMachine and the functions it is built with,
-- src/pwms/services/progress.py. A state is its primary key; `states` come in their Meta order.
pub mod Walks
pub mod Visits
pub mod Frontier
pub mod Shortest
pub mod Percent
pub mod Nearest
pub mod Order
pub mod Furthest
use pwms_project.Prelude.{
  ℕ, zero, suc, ◌+◌, ◌-◌, ◌*◌, ◌/◌, ◌%◌, min, Bool, true, false, ◌&&◌, ◌||◌, not, Option, none,
  some, List, [], ◌∷◌, ◌++◌, if◌then◌else◌, ◌==◌, nat_eq, ltb, leb, find, filter, exists, contains,
  length, map, String,
}
use pwms_project.Schema.{State}

-- The pairs of `transitions.values_list("from_state_id", "to_state_id")`.
pub record Edge : Type 0 where
  pub from : ℕ
  pub to : ℕ

-- adjacency.get(state_id, ()); the pairs of a type are unique, so each neighbour comes once.
unfoldable pub adjacent : List Edge → ℕ → List ℕ
adjacent edges v = map (λ e. e.to) (filter (λ e. e.from == v) edges)

pub record Entry : Type 0 where
  pub state_id : ℕ
  pub distance : ℕ

-- What the loop over the neighbours of one entry comes to.
pub data Visit : Type 0 where
  arrived : Visit
  going : List ℕ → List Entry → Visit

unfoldable pub visit : ℕ → ℕ → List ℕ → List ℕ → List Entry → Visit
visit goal distance [] seen queue = going seen queue
visit goal distance (n ∷ rest) seen queue = elim (n == goal) [
  | true ↦ arrived
  | false ↦ elim (contains n seen) [
    | true ↦ visit goal distance rest seen queue
    | false ↦
        visit goal distance rest (n ∷ seen)
          (queue ++ record { state_id = n; distance = distance + 1 } ∷ [])
  ]
]

-- `while queue`, on fuel.
unfoldable pub search : ℕ → ℕ → List Edge → List ℕ → List Entry → Option ℕ
search fuel goal edges seen [] = none
search zero goal edges seen (e ∷ queue) = none
search (suc fuel) goal edges seen (e ∷ queue) =
    elim (visit goal e.distance (adjacent edges e.state_id) seen queue) [
      | arrived ↦ some (e.distance + 1)
      | going more later ↦ search fuel goal edges more later
    ]

-- One round for the start, and at most one for each transition.
unfoldable pub shortest_path : List Edge → ℕ → ℕ → Option ℕ
shortest_path edges start goal =
    if start == goal
    then some 0
    else search (suc (length edges)) goal edges (start ∷ [])
        (record { state_id = start; distance = 0 } ∷ [])

-- min(…, default=None) of the distances that were found
unfoldable pub nearest : List Edge → List ℕ → ℕ → Option ℕ
nearest edges [] goal = none
nearest edges (initial ∷ rest) goal = elim (shortest_path edges initial goal) [
  | none ↦ nearest edges rest goal
  | some d ↦ elim (nearest edges rest goal) [ none ↦ some d | some least ↦ some (min d least) ]
]

-- The two variables of the loop of _target_terminal, which are None together.
pub record Target : Type 0 where
  pub target_id : ℕ
  pub span : ℕ

unfoldable pub is_further : ℕ → Option Target → Bool
is_further distance none = true
is_further distance (some best) = leb best.span distance

unfoldable pub furthest : List Edge → List ℕ → List ℕ → Option Target → Option Target
furthest edges initials [] best = best
furthest edges initials (s ∷ rest) best = elim (nearest edges initials s) [
  | none ↦ furthest edges initials rest best
  | some d ↦ elim (is_further d best) [
    | true ↦ furthest edges initials rest (some (record { target_id = s; span = d }))
    | false ↦ furthest edges initials rest best
  ]
]

-- sorted(terminals, key=order), which is stable
unfoldable pub insert_by_order : State → List State → List State
insert_by_order s [] = s ∷ []
insert_by_order s (x ∷ rest) =
    let later = x ∷ insert_by_order s rest in if ltb x.order s.order then later else s ∷ x ∷ rest

unfoldable pub sort_by_order : List State → List State
sort_by_order [] = []
sort_by_order (s ∷ rest) = insert_by_order s (sort_by_order rest)

unfoldable pub target_terminal : List Edge → List ℕ → List State → Option Target
target_terminal edges initials terminals =
    furthest edges initials (map (λ s. s.pk) (sort_by_order terminals)) none

pub record WorkflowMachine : Type 0 where
  pub states : List State
  pub adjacency : List Edge
  pub target : Option Target

-- tuple(state.pk for state in states if state.is_initial) or (states[0].pk,)
unfoldable pub initial_ids : List State → List ℕ
initial_ids states = elim (filter (λ s. s.is_initial) states) [
  | s ∷ rest ↦ map (λ s. s.pk) (s ∷ rest)
  | [] ↦ elim states [ [] ↦ [] | s ∷ rest ↦ s.pk ∷ [] ]
]

unfoldable pub build : List State → List Edge → WorkflowMachine
build [] edges = record { states = []; adjacency = []; target = none }
build (s ∷ rest) edges = record {
  states = s ∷ rest;
  adjacency = edges;
  target = target_terminal edges (initial_ids (s ∷ rest)) (filter (λ s. s.is_terminal) (s ∷ rest));
}

unfoldable pub is_terminal : WorkflowMachine → ℕ → Bool
is_terminal m state_id = exists (λ s. s.is_terminal && s.pk == state_id) m.states

unfoldable pub steps_left : WorkflowMachine → ℕ → Option ℕ
steps_left m state_id = elim m.target [
  | none ↦ none
  | some t ↦ shortest_path m.adjacency state_id t.target_id
]

-- round(a / b), which rounds a half to the even neighbour. The quotient is a float in the source,
-- which is exact at a half and on the right side of it otherwise for numbers of states.
unfoldable pub round : ℕ → ℕ → ℕ
round a b =
    if ltb (2 * (a % b)) b
    then a / b
    else if ltb b (2 * (a % b))
    then a / b + 1
    else if a / b % 2 == 0
    then a / b
    else a / b + 1

-- next((i for i, state in enumerate(self.states) if state.pk == state_id), 0)
unfoldable pub index_of : ℕ → List State → Option ℕ
index_of state_id [] = none
index_of state_id (s ∷ rest) =
    let later = index_of state_id rest in
    if s.pk == state_id then some 0 else elim later [ none ↦ none | some i ↦ some (i + 1) ]

unfoldable pub position_percent : WorkflowMachine → ℕ → ℕ
position_percent m state_id =
    let index : ℕ = elim (index_of state_id m.states) [ none ↦ 0 | some i ↦ i ] in
    if ltb (length m.states) 2 then 0 else round (100 * index) (length m.states - 1)

-- `span` is None or 0 where there is no route to measure along.
unfoldable pub route_percent : ℕ → ℕ → ℕ
route_percent span left = min 100 (round (100 * (span - left)) span)

unfoldable pub percent : WorkflowMachine → ℕ → ℕ
percent m state_id = if is_terminal m state_id then 100 else elim m.target [
  | none ↦ position_percent m state_id
  | some t ↦ elim (steps_left m state_id) [
    | none ↦ position_percent m state_id
    | some left ↦ if t.span == 0 then position_percent m state_id else route_percent t.span left
  ]
]
