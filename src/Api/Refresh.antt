-- ===== src/Api/Refresh.antt =====
-- Refresh tokens: `issue_refresh_token`, `redeem_refresh_token` and `revoke_refresh_token` of
-- src/pwms/api/tokens.py over the table ApiRefreshToken of src/pwms/api/models.py. The digest is
-- a parameter, and so is the random string that a new token gets.
use pwms_project.Prelude.{
  ℕ, ◌+◌, ◌*◌, Bool, true, false, ◌&&◌, not, Option, none, some, List, [], ◌∷◌, ◌++◌, String,
  if◌then◌else◌, ◌==◌, nat_eq, string_eq, leb, find, exists, map,
}

-- `client_is_active` is the column of the client that the row names.
pub record Token : Type 0 where
  pub client : ℕ
  pub token_hash : String
  pub expires_at : ℕ
  pub revoked_at : Option ℕ

unfoldable pub is_none : Option ℕ → Bool
is_none none = true
is_none (some x) = false

-- The table, and the clients that are active.
pub record Store : Type 0 where
  pub tokens : List Token
  pub active : ℕ → Bool

unfoldable pub is_expired : ℕ → Token → Bool
is_expired now t = leb t.expires_at now

unfoldable pub is_usable : ℕ → Store → Token → Bool
unfolding is_expired
is_usable now s t = is_none t.revoked_at && not (is_expired now t) && s.active t.client

-- .filter(token_hash=…).first()
unfoldable pub token_of : String → List Token → Option Token
token_of h = find (λ t. t.token_hash == h)

-- token.revoked_at = now; token.save()
unfoldable pub revoke_row : ℕ → String → List Token → List Token
revoke_row now h [] = []
revoke_row now h (t ∷ rest) =
    let later = t ∷ revoke_row now h rest in
    if t.token_hash == h then record t { revoked_at = some now } ∷ rest else later

-- What redeeming comes to: None, an IntegrityError of the new token once the old one has been
-- revoked (the two writes are no one transaction), or the client with the table after both.
pub data Redeemed : Type 0 where
  refused : Redeemed
  collided : Store → Redeemed
  redeemed : ℕ → Store → Redeemed

-- refresh_token_ttl() in seconds: EXTERNAL_API_REFRESH_TOKEN_TTL_MINUTES defaults to 1440.
abbrev pub refresh_token_ttl : ℕ
refresh_token_ttl = 1440 * 60

module _ (hash_token : String → String) where
  -- `raw` is what secrets.token_urlsafe returned; `none` is the IntegrityError of a digest that
  -- the table holds already.
  unfoldable pub issue_refresh_token : ℕ → String → ℕ → Store → Option Store
  issue_refresh_token now raw client s =
      if exists (λ t. t.token_hash == hash_token raw) s.tokens
      then none
      else some (record s {
        tokens =
            s.tokens
            ++ record {
              client = client;
              token_hash = hash_token raw;
              expires_at = now + refresh_token_ttl;
              revoked_at = none;
            }
              ∷ [];
      })

  unfoldable pub redeem_refresh_token : ℕ → String → String → Store → Redeemed
  unfolding token_of
  redeem_refresh_token now raw fresh s = elim (token_of (hash_token raw) s.tokens) [
    | none ↦ refused
    | some t ↦
        let spent = record s { tokens = revoke_row now (hash_token raw) s.tokens } in
        if is_usable now s t
        then elim (issue_refresh_token now fresh t.client spent) [
          | none ↦ collided spent
          | some issued ↦ redeemed t.client issued
        ]
        else refused
  ]

  -- .filter(token_hash=…, revoked_at__isnull=True).update(revoked_at=now)
  unfoldable pub revoke_refresh_token : ℕ → String → Store → Store
  revoke_refresh_token now raw s = record s {
    tokens =
        map
          (λ t.
            if t.token_hash == hash_token raw && is_none t.revoked_at
            then record t { revoked_at = some now }
            else t)
          s.tokens;
  }
