-- ===== src/Api/Throttle.antt =====
-- ClientRateThrottle and `_hit`, src/pwms/api/throttling.py. The cache is Django's, a parameter:
-- the state that a call leaves stands beside its answer. A bucket's key outlives the bucket, so
-- that nothing expires between the requests of one bucket.
use pwms_project.Prelude.{
  ℕ, zero, suc, ◌+◌, ◌≡◌, ◌⊎◌, refl, Bool, true, false, ◌||◌, Option, none, some, List, [], ◌∷◌,
  String, arith, if◌then◌else◌, ◌==◌, string_eq, nat_eq, leb, Bool-cases, inl, inr, ap, ◌∙◌, beq→eq,
  ◌/◌,
}
use pwms_project.Api.Clients.{Client}

-- What cache.incr answers: the new count, a ValueError for an unknown key, or another exception.
pub data Incr : Type 0 where
  counted : ℕ → Incr
  no_key incr_fails : Incr

-- `none` is an exception of cache.add.
pub record Cache (C : Type 0) : Type 0 where
  pub add : String → C → Option Bool × C
  pub incr : String → C → Incr × C

-- Documented of a reachable cache, of which `value` reads a count, 0 where the key is absent: add
-- starts a count at 1 only where there is none, and incr adds one where there is.
pub record Counts {C : Type 0} (cache : Cache C) (value : C → String → ℕ) : Type 0 where
  pub add_absent :
      (k : String) (c : C)
      → value c k ≡ 0
      → ((cache.add k c).0 ≡ some true)
        × ((j : String) → value (cache.add k c).1 j ≡ (if j == k then 1 else value c j))
  pub add_present :
      (k : String) (c : C) (n : ℕ)
      → value c k ≡ suc n
      → ((cache.add k c).0 ≡ some false) × ((j : String) → value (cache.add k c).1 j ≡ value c j)
  pub incr_present :
      (k : String) (c : C) (n : ℕ)
      → value c k ≡ suc n
      → ((cache.incr k c).0 ≡ counted (n + 2))
        × ((j : String) → value (cache.incr k c).1 j ≡ (if j == k then n + 2 else value c j))

module _ {C : Type 0} (cache : Cache C) where
  -- The retry for a key that is gone between add and incr.
  unfoldable pub retry : String → C → Option ℕ × C
  retry k c =
      let (added, d) = cache.add k c in
      elim added [
        | none ↦ (none, d)
        | some true ↦ (some 1, d)
        | some false ↦
            let (answer, e) = cache.incr k d in
            elim answer [ counted n ↦ (some n, e) | no_key ↦ (none, e) | incr_fails ↦ (none, e) ]
      ]

  -- `none` where the cache cannot be reached.
  unfoldable pub hit : String → C → Option ℕ × C
  hit k c =
      let (added, d) = cache.add k c in
      elim added [
        | none ↦ (none, d)
        | some true ↦ (some 1, d)
        | some false ↦
            let (answer, e) = cache.incr k d in
            elim answer [ counted n ↦ (some n, e) | no_key ↦ retry k e | incr_fails ↦ (none, e) ]
      ]

  -- True if count is None else count <= limit
  unfoldable pub within : ℕ → Option ℕ → Bool
  within limit none = true
  within limit (some count) = leb count limit

  -- The key of a client's bucket is a parameter: api:throttle:<client_id>:<bucket>.
  unfoldable pub allow_request : (String → ℕ → String) → ℕ → Option Client → C → Bool × C
  allow_request key now none c = (true, c)
  allow_request key now (some client) c =
      if client.rate_limit_per_minute == 0
      then (true, c)
      else let (count, d) = hit (key client.client_id (now / 60)) c in
        (within client.rate_limit_per_minute count, d)

  -- Requests on a list of keys, one after the other.
  unfoldable pub hits : List String → C → C
  hits [] c = c
  hits (k ∷ rest) c = hits rest (hit k c).1

unfoldable pub occurrences : String → List String → ℕ
occurrences k [] = 0
occurrences k (j ∷ rest) = let more = occurrences k rest in if k == j then suc more else more

zero_or_suc : (n : ℕ) → (n ≡ 0) ⊎ ((m : ℕ) × (n ≡ suc m))
zero_or_suc zero = inl refl
zero_or_suc (suc m) = inr (m, refl)

module _ {C : Type 0} (cache : Cache C) (value : C → String → ℕ) (counts : Counts cache value) where
  raised :
      (j k : String) (n : ℕ) {x y z : ℕ}
      → x ≡ (if j == k then n + 2 else y)
      → y ≡ z
      → x ≡ (if j == k then suc n + 1 else z)
  raised j k n h g = elim (Bool-cases (j == k)) [
    | inl here ↦ rw here (omega (arith, rw here at h))
    | inr there ↦ rw there (omega (arith, rw there at h, g))
  ]

  hit-counts :
      (k : String) (c : C)
      → ((hit cache k c).0 ≡ some (value c k + 1))
        × ((j : String) → value (hit cache k c).1 j ≡ (if j == k then value c k + 1 else value c j))
  unfolding hit
  hit-counts k c = elim (zero_or_suc (value c k)) [
    | inl fresh ↦
        let (answer, after) = counts.add_absent k c fresh in
        (rw (hit, answer, fresh) refl, λ j. rw (hit, answer, fresh) (after j))
    | inr (n, old) ↦
        let (answer, same) = counts.add_present k c n old in
        let (bumped, after) = counts.incr_present k (cache.add k c).1 n (same k ∙ old) in
        (
          rw (hit, answer, bumped, old) (ap some (omega arith)),
          λ j. rw (hit, answer, bumped, old) (raised j k n (after j) (same j)),
        )
  ]

  hits-counts :
      (ks : List String) (c : C) (j : String)
      → value (hits cache ks c) j ≡ value c j + occurrences j ks
  unfolding hits occurrences
  hits-counts [] c j = omega arith
  hits-counts (k ∷ rest) c j =
      let later = hits-counts rest (hit cache k c).1 j in
      let first = (hit-counts k c).1 j in
      elim (Bool-cases (j == k)) [
        | inl here ↦ ground (arith, later, first, ap (value c) (beq→eq j k here))
        | inr there ↦ ground (arith, later, first)
      ]

  -- With a cache that behaves as documented, a client's request in a bucket that started empty is
  -- allowed exactly while the requests in that bucket, this one included, are no more than the
  -- client's limit, whatever other requests come in between; a limit of 0 is no limit.
  pub allow_request-limit :
      (key : String → ℕ → String) (now : ℕ) (client : Client) (ks : List String) (c : C)
      → value c (key client.client_id (now / 60)) ≡ 0
      → (allow_request cache key now (some client) (hits cache ks c)).0 ≡ (
          client.rate_limit_per_minute == 0
          || leb
              (occurrences (key client.client_id (now / 60)) ks + 1)
              client.rate_limit_per_minute)
  unfolding allow_request within
  allow_request-limit key now client ks c fresh =
      let k = key client.client_id (now / 60) in
      let count = hits-counts ks c k in
      let (answer, _) = hit-counts k (hits cache ks c) in
      elim (Bool-cases (client.rate_limit_per_minute == 0)) [
        | inl unlimited ↦ rw (allow_request, unlimited) refl
        | inr limited ↦
            let total : value (hits cache ks c) k ≡ occurrences k ks =
              omega (arith, count, fresh) in
            rw (allow_request, limited, answer)
              (ap (λ n. leb (n + 1) client.rate_limit_per_minute) total)
      ]
