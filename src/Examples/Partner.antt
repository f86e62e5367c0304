-- ===== src/Examples/Partner.antt =====
-- A parking system calls the partner API: the theorems on src/pwms/api.
use pwms_project.Api.AccessToken.{
  effective_scopes, accept_payload, Signer, Payload, Signs, decode_access_token, issue_access_token,
  with_scopes, active_client, Presented, decode-issue,
}
use pwms_project.Api.Refresh.{
  redeemed, refused, revoke_row, issue_refresh_token, is_none, is_usable, Store,
  redeem_refresh_token,
}
use pwms_project.Api.Clients.{has_unknown_scope, Client, enabled_scopes, save}
use pwms_project.Prelude.{
  ◌≢◌, sym, ◌∙◌, ℕ, ◌≡◌, refl, true, none, some, [], ◌∷◌, arith, string_eq, if◌then◌else◌, ltb, ◌-◌,
  ◌≤◌, Bool-cases, inl, inr,
}
use pwms_project.Api.SingleUse.{store_after, calls, revokes, redeem_once}

abbrev parking : Client
parking = record {
  client_id = "parking";
  scopes = "groups:read" ∷ "users:read" ∷ "users:read" ∷ [];
  is_active = true;
  rate_limit_per_minute = 60;
}

abbrev saved : Client
saved = record parking { scopes = "users:read" ∷ "groups:read" ∷ [] }

saving : save parking ≡ some saved
unfolding save has_unknown_scope enabled_scopes
saving = refl

-- A signer that keeps the stamp beside the payload.
abbrev signer : Signer (ℕ × Payload)
signer = record {
  dumps = λ now p. (now, p);
  loads = λ later max_age (now, p). if ltb max_age (later - now) then none else some p;
}

signer-Signs : Signs signer
signer-Signs = record {
  reads_back = λ now later max_age p h. elim (Bool-cases (ltb max_age (later - now))) [
    | inl old ↦ absurd (ground arith)
    | inr young ↦ rw young refl
  ];
  refuses_old = λ now later max_age p h. elim (Bool-cases (ltb max_age (later - now))) [
    | inl old ↦ rw old refl
    | inr young ↦ absurd (ground arith)
  ];
}

early : 100 ≤ 700
early = omega arith

decode-issue_example :
    Presented 100 700 saved
      (saved ∷ [])
      (decode_access_token signer 700 (saved ∷ []) (issue_access_token signer 100 saved).0)
decode-issue_example = decode-issue signer signer-Signs 100 700 saved (saved ∷ []) early

decoding :
    decode_access_token signer 700 (saved ∷ []) (issue_access_token signer 100 saved).0
    ≡ some (saved, saved.scopes)
unfolding decode_access_token issue_access_token accept_payload with_scopes active_client
    effective_scopes enabled_scopes
decoding = refl

abbrev start : Store
start = record {
  tokens = record { client = 1; token_hash = "first"; expires_at = 500; revoked_at = none } ∷ [];
  active = λ c. true;
}

abbrev redeemed_store : Store
redeemed_store = record start {
  tokens =
      record { client = 1; token_hash = "first"; expires_at = 500; revoked_at = some 100 }
      ∷ record { client = 1; token_hash = "second"; expires_at = 86500; revoked_at = none }
      ∷ [];
}

redeeming : redeem_refresh_token (λ raw. raw) 100 "first" "second" start ≡ redeemed 1 redeemed_store
unfolding redeem_refresh_token is_usable is_none issue_refresh_token revoke_row
redeeming = refl

not_refused : redeem_refresh_token (λ raw. raw) 100 "first" "second" start ≢ refused
not_refused h = let e : redeemed 1 redeemed_store ≡ refused = sym redeeming ∙ h in cc

redeem_once_example :
    redeem_refresh_token
      (λ raw. raw)
      300
      "first"
      "third"
      (calls
        (λ raw. raw)
        (revokes 200 "second" ∷ [])
        (store_after start (redeem_refresh_token (λ raw. raw) 100 "first" "second" start)))
    ≡ refused
redeem_once_example =
    redeem_once (λ raw. raw) 100 "first" "second" start not_refused (revokes 200 "second" ∷ []) 300
      "third"
