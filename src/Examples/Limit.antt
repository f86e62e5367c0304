-- ===== src/Examples/Limit.antt =====
-- A parking system asks too often: the theorem on src/pwms/api/throttling.py.
use pwms_project.Prelude.{
  ℕ, zero, suc, ◌+◌, ◌≡◌, ◌||◌, refl, true, false, some, [], ◌∷◌, String, if◌then◌else◌, ◌==◌,
  string_eq, nat_eq, leb,
}
use pwms_project.Api.Clients.{Client}
use pwms_project.Api.Throttle.{
  Cache, Counts, counted, no_key, allow_request, hits, occurrences, allow_request-limit,
}

abbrev parking : Client
parking = record { client_id = "parking"; scopes = []; is_active = true; rate_limit_per_minute = 2 }

abbrev put : String → ℕ → (String → ℕ) → String → ℕ
put k n c = λ j. if j == k then n else c j

-- A cache that holds the count of each key.
abbrev cache : Cache (String → ℕ)
cache = record {
  add = λ k c. elim (c k) [ zero ↦ (some true, put k 1 c) | suc n ↦ (some false, c) ];
  incr = λ k c. elim (c k) [ zero ↦ (no_key, c) | suc n ↦ (counted (n + 2), put k (n + 2) c) ];
}

cache-Counts : Counts cache (λ c k. c k)
cache-Counts = record {
  add_absent = λ k c e. (rw e refl, λ j. rw e refl);
  add_present = λ k c n e. (rw e refl, λ j. rw e refl);
  incr_present = λ k c n e. (rw e refl, λ j. rw e refl);
}

allow_request-limit_example :
    (allow_request cache
      (λ id bucket. id)
      120
      (some parking)
      (hits cache ("parking" ∷ "archive" ∷ "parking" ∷ []) (λ k. 0))).0
    ≡ (parking.rate_limit_per_minute == 0
        || leb (occurrences "parking" ("parking" ∷ "archive" ∷ "parking" ∷ []) + 1) 2)
allow_request-limit_example =
    allow_request-limit cache (λ c k. c k) cache-Counts (λ id bucket. id) 120 parking
      ("parking" ∷ "archive" ∷ "parking" ∷ []) (λ k. 0) refl
