-- ===== src/Api/Clients.antt =====
-- ApiClient and its scopes: src/pwms/api/models.py, scopes.py and auth.py.
use pwms_project.Prelude.{
  none-some, ℕ, ◌≡◌, refl, Bool, true, false, ◌&&◌, ◌||◌, not, Option, none, some, List, [], ◌∷◌,
  String, arith, if◌then◌else◌, ◌==◌, string_eq, filter, exists, contains, Bool-cases, inl, inr,
  beq→eq, beq_refl, ap, sym, ◌∙◌,
}

pub record Client : Type 0 where
  pub client_id : String
  pub scopes : List String
  pub is_active : Bool
  pub rate_limit_per_minute : ℕ

-- ALL_SCOPES, the values of Scope in their order.
abbrev pub all_scopes : List String
all_scopes = "users:read" ∷ "groups:read" ∷ "memberships:read" ∷ "bills:read" ∷ []

-- [scope for scope in ALL_SCOPES if scope in configured]
unfoldable pub enabled_scopes : Client → List String
enabled_scopes c = filter (λ s. contains s c.scopes) all_scopes

unfoldable pub has_scope : String → Client → Bool
has_scope scope c = contains scope (enabled_scopes c)

-- set(self.scopes) - set(ALL_SCOPES)
unfoldable pub has_unknown_scope : Client → Bool
has_unknown_scope c = exists (λ s. not (contains s all_scopes)) c.scopes

-- save(): unknown scopes are refused (`none` is the ValidationError), then the list is normalised.
unfoldable pub save : Client → Option Client
save c = if has_unknown_scope c then none else some (record c { scopes = enabled_scopes c })

pub contains-filter :
    (p : String → Bool) (s : String) (xs : List String)
    → contains s (filter p xs) ≡ (contains s xs && p s)
contains-filter p s [] = refl
contains-filter p s (x ∷ xs) = elim (Bool-cases (s == x)) [
  | inl same ↦
      let e = beq→eq s x same in
      rw e (elim (Bool-cases (p x)) [
        | inl keep ↦ ground (arith, contains-filter p x xs, beq_refl x)
        | inr drop ↦ ground (arith, contains-filter p x xs, beq_refl x)
      ])
  | inr other ↦ ground (arith, contains-filter p s xs)
]

or_right : {a b : Bool} → a ≡ false → (a || b) ≡ true → b ≡ true
or_right h m = ground arith

or_false : (a b : Bool) → (a || b) ≡ false → (a ≡ false) × (b ≡ false)
or_false a b h = (ground arith, ground arith)

not-false : (a : Bool) → not a ≡ false → a ≡ true
not-false a h = ground arith

-- Where no scope is unknown, each scope of the list is known.
known_of_mem :
    (s : String) (xs : List String)
    → exists (λ x. not (contains x all_scopes)) xs ≡ false
    → contains s xs ≡ true
    → contains s all_scopes ≡ true
known_of_mem s [] h m = absurd (ground arith)
known_of_mem s (x ∷ xs) h m =
    let (k, r) =
      or_false (not (contains x all_scopes)) (exists (λ x. not (contains x all_scopes)) xs) h in
    elim (Bool-cases (s == x)) [
      | inl same ↦ rw (beq→eq s x same) (not-false (contains x all_scopes) k)
      | inr other ↦ known_of_mem s xs r (or_right other m)
    ]

and_absorb : {a b : Bool} → (b ≡ true → a ≡ true) → (a && b) ≡ b
and_absorb {a} {b} h = elim (Bool-cases b) [
  | inl on ↦ let k = h on in ground arith
  | inr off ↦ ground arith
]

contains-enabled_scopes :
    (c : Client) (s : String)
    → has_unknown_scope c ≡ false
    → contains s (enabled_scopes c) ≡ contains s c.scopes
unfolding enabled_scopes has_unknown_scope
contains-enabled_scopes c s h =
    contains-filter (λ x. contains x c.scopes) s all_scopes ∙ and_absorb (known_of_mem s c.scopes h)

enabled_scopes-same : (c d : Client) → c.scopes ≡ d.scopes → enabled_scopes c ≡ enabled_scopes d
unfolding enabled_scopes
enabled_scopes-same c d h = rw h refl

unknown_none :
    (xs : List String)
    → ((s : String) → contains s xs ≡ true → contains s all_scopes ≡ true)
    → exists (λ x. not (contains x all_scopes)) xs ≡ false
unknown_none [] h = refl
unknown_none (x ∷ xs) h =
    let here = h x (ground (arith, beq_refl x)) in
    ground (arith, unknown_none xs (λ s m. h s (ground arith)))

unfoldable scopes_of : Option Client → List String
scopes_of none = []
scopes_of (some c) = c.scopes

save_cases :
    (c saved : Client)
    → save c ≡ some saved
    → (has_unknown_scope c ≡ false) × (saved.scopes ≡ enabled_scopes c)
unfolding save scopes_of
save_cases c saved h = elim (Bool-cases (has_unknown_scope c)) [
  | inl bad ↦ absurd (none-some (rw bad at h))
  | inr good ↦ (good, ap scopes_of (sym (rw good at h)))
]

saved_known : (c saved : Client) → save c ≡ some saved → has_unknown_scope saved ≡ false
unfolding has_unknown_scope
saved_known c saved h =
    let (known, same) = save_cases c saved h in
    unknown_none saved.scopes (λ s m.
      known_of_mem s c.scopes known
        (sym (contains-enabled_scopes c s known) ∙ sym (ap (contains s) same) ∙ m))

-- A client that save() accepts has, as its scopes, the very set it was given: each scope is in
-- the one list iff it is in the other, and has_scope answers for that set.
pub save_keeps_scopes :
    (c saved : Client) (s : String)
    → save c ≡ some saved
    → (contains s saved.scopes ≡ contains s c.scopes) × (has_scope s saved ≡ contains s c.scopes)
unfolding has_scope
save_keeps_scopes c saved s h =
    let (known, same) = save_cases c saved h in
    let e = ap (contains s) same ∙ contains-enabled_scopes c s known in
    (e, contains-enabled_scopes saved s (saved_known c saved h) ∙ e)
