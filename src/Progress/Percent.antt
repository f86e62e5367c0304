-- ===== src/Progress/Percent.antt =====
-- The percentage: its bounds, and that it grows as the way that is left shrinks.
use native.Mathlib.Nat.{div-le_of_le-mul, div-add-mod, le-div_iff_mul-le, div-mul-le_self}
use pwms_project.Prelude.{
  ℕ, ◌+◌, ◌-◌, ◌*◌, ◌/◌, ◌%◌, ◌≤◌, ◌<◌, ◌≡◌, true, false, List, [], ◌∷◌, ◌==◌, nat_eq, refl, arith,
  Bool-cases, inl, inr, subst, length, ltb, some, Option-cases,
}
use pwms_project.Schema.{State}
use pwms_project.Progress.{
  WorkflowMachine, Target, round, index_of, position_percent, route_percent, percent, is_terminal,
  steps_left,
}

-- Rounding lands on one of the two neighbours, and is exact where nothing is left over.
round_bounds : (a b : ℕ) → (a / b ≤ round a b) × (round a b ≤ a / b + 1)
unfolding round
round_bounds a b = (ground arith, ground arith)

round_exact : (a b : ℕ) → 0 < b → a % b ≡ 0 → round a b ≡ a / b
unfolding round
round_exact a b pos h = ground arith

round_le : (a b c : ℕ) → 0 < b → a ≤ b * c → round a b ≤ c
round_le a b c pos h = elim (Bool-cases (ltb (a / b) c)) [
  | inl below ↦ ground (arith, (round_bounds a b).1)
  | inr above ↦
      let top : a / b ≡ c = ground (arith, div-le_of_le-mul b h) in
      let whole : b * c + a % b ≡ a = subst (λ q. b * q + a % b ≡ a) top (div-add-mod a b) in
      omega (arith, round_exact a b pos (omega arith), top)
]

div_mono : (a c b : ℕ) → 0 < b → a ≤ c → a / b ≤ c / b
div_mono a c b pos h = (le-div_iff_mul-le pos).1 (omega (arith, div-mul-le_self a b))

mod_mono : (a c b : ℕ) → a / b ≡ c / b → a ≤ c → a % b ≤ c % b
mod_mono a c b same h =
    let low : b * (c / b) + a % b ≡ a = subst (λ q. b * q + a % b ≡ a) same (div-add-mod a b) in
    omega (arith, div-add-mod c b)

round_same : (a c b : ℕ) → a / b ≡ c / b → a % b ≤ c % b → round a b ≤ round c b
unfolding round
round_same a c b same le = rw same (ground arith)

round_mono : (a c b : ℕ) → 0 < b → a ≤ c → round a b ≤ round c b
round_mono a c b pos h = elim (Bool-cases (ltb (a / b) (c / b))) [
  | inl below ↦ ground (arith, (round_bounds a b).1, (round_bounds c b).0)
  | inr above ↦
      let same : a / b ≡ c / b = ground (arith, div_mono a c b pos h) in
      round_same a c b same (mod_mono a c b same h)
]

index_lt :
    (state_id : ℕ) (states : List State) (i : ℕ)
    → index_of state_id states ≡ some i
    → i < length states
unfolding index_of
index_lt state_id [] i h = absurd (ground arith)
index_lt state_id (s ∷ rest) i h = elim (Option-cases (index_of state_id rest)) [
  | inl absent ↦ ground arith
  | inr (j, found) ↦ ground (arith, index_lt state_id rest j found)
]

position_percent_le : (m : WorkflowMachine) (state_id : ℕ) → position_percent m state_id ≤ 100
unfolding position_percent
position_percent_le m state_id = elim (Bool-cases (ltb (length m.states) 2)) [
  | inl short ↦ ground arith
  | inr long ↦ elim (Option-cases (index_of state_id m.states)) [
    | inl absent ↦
        rw (position_percent, long, absent)
          (round_le 0 (length m.states - 1) 100 (ground arith) (omega arith))
    | inr (i, found) ↦
        rw (position_percent, long, found)
          (round_le (100 * i) (length m.states - 1) 100 (ground arith)
            (ground (arith, index_lt state_id m.states i found)))
  ]
]

percent_cases :
    (m : WorkflowMachine) (state_id : ℕ)
    → (percent m state_id ≤ 100) × (is_terminal m state_id ≡ true → percent m state_id ≡ 100)
unfolding percent route_percent
percent_cases m state_id =
    let fallback = position_percent_le m state_id in
    elim (Bool-cases (is_terminal m state_id)) [
      | inl shut ↦ (ground arith, λ h. ground arith)
      | inr going ↦ elim (Option-cases m.target) [
        | inl untargeted ↦ (ground arith, λ h. absurd (ground arith))
        | inr (t, found) ↦ elim (Option-cases (steps_left m state_id)) [
          | inl cut ↦ (ground arith, λ h. absurd (ground arith))
          | inr (left, reached) ↦ elim (Bool-cases (t.span == 0)) [
            | inl flat ↦ (ground arith, λ h. absurd (ground arith))
            | inr long ↦ (ground arith, λ h. absurd (ground arith))
          ]
        ]
      ]
    ]

-- The percentage is at most 100 for every machine and state.
pub percent_bounds : (m : WorkflowMachine) (state_id : ℕ) → percent m state_id ≤ 100
percent_bounds m state_id = (percent_cases m state_id).0

route_percent_mono :
    (span left right : ℕ)
    → 0 < span
    → right ≤ left
    → route_percent span left ≤ route_percent span right
unfolding route_percent
route_percent_mono span left right pos le =
    let rounded = round_mono (100 * (span - left)) (100 * (span - right)) span pos (omega arith) in
    omega (arith, rounded)

percent_route :
    (m : WorkflowMachine) (t : Target) (state_id left : ℕ)
    → m.target ≡ some t
    → 0 < t.span
    → is_terminal m state_id ≡ false
    → steps_left m state_id ≡ some left
    → percent m state_id ≡ route_percent t.span left
unfolding percent
percent_route m t state_id left found pos going reached =
    let long : (t.span == 0) ≡ false = ground arith in
    rw (percent, going, found, reached, long) refl

-- In a machine whose target is a positive number of steps from the start, of a state that is not
-- terminal and another one, from both of which the target can be reached, the other has at least
-- the percentage of the first if it has no more steps left.
pub percent_mono :
    (m : WorkflowMachine) (t : Target) (here there left right : ℕ)
    → m.target ≡ some t
    → 0 < t.span
    → is_terminal m here ≡ false
    → steps_left m here ≡ some left
    → steps_left m there ≡ some right
    → right ≤ left
    → percent m here ≤ percent m there
percent_mono m t here there left right found pos going l r le =
    elim (Bool-cases (is_terminal m there)) [
      | inl shut ↦ omega (arith, (percent_cases m here).0, (percent_cases m there).1 shut)
      | inr further ↦ omega (
        arith,
        percent_route m t here left found pos going l,
        percent_route m t there right found pos further r,
        route_percent_mono t.span left right pos le,
      )
    ]
