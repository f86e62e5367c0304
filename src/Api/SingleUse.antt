-- ===== src/Api/SingleUse.antt =====
-- A refresh token is used once: redeem_refresh_token of src/pwms/api/tokens.py.
use pwms_project.Prelude.{
  ◌≢◌, refl, ◌⊎◌, inl, inr, ℕ, ◌≡◌, Bool, true, false, ◌&&◌, not, Option, none, some, List, [], ◌∷◌,
  ◌++◌, String, arith, ◌==◌, nat_eq, string_eq, exists, find-append, Bool-cases, Option-cases, inl,
  inr, sym, ap,
}
use pwms_project.Api.Refresh.{
  Redeemed, refused, collided, redeemed, Token, Store, is_usable, is_none, token_of, revoke_row,
  issue_refresh_token, redeem_refresh_token, revoke_refresh_token,
}

-- The first row under a digest, if there is one, is revoked.
unfoldable spent : String → List Token → Bool
spent h tokens = elim (token_of h tokens) [ none ↦ false | some t ↦ not (is_none t.revoked_at) ]

-- What a caller can do with the table.
pub data Call : Type 0 where
  issues : ℕ → String → ℕ → Call
  redeems : ℕ → String → String → Call
  revokes : ℕ → String → Call

revoke_row-spent :
    (now : ℕ) (h : String) (tokens : List Token) (t : Token)
    → token_of h tokens ≡ some t
    → spent h (revoke_row now h tokens) ≡ true
unfolding token_of revoke_row spent is_none
revoke_row-spent now h [] t e = absurd (ground arith)
revoke_row-spent now h (x ∷ rest) t e = elim (Bool-cases (x.token_hash == h)) [
  | inl here ↦ ground arith
  | inr there ↦ ground (arith, revoke_row-spent now h rest t (ground arith))
]

spent-revoke_row :
    (now : ℕ) (h g : String) (tokens : List Token)
    → spent h tokens ≡ true
    → spent h (revoke_row now g tokens) ≡ true
unfolding token_of revoke_row spent is_none
spent-revoke_row now h g [] e = e
spent-revoke_row now h g (x ∷ rest) e = elim (Bool-cases (x.token_hash == h)) [
  | inl here ↦ elim (Bool-cases (x.token_hash == g)) [
    | inl too ↦ ground arith
    | inr apart ↦ ground arith
  ]
  | inr there ↦ elim (Bool-cases (x.token_hash == g)) [
    | inl too ↦ ground arith
    | inr apart ↦ ground (arith, spent-revoke_row now h g rest (ground arith))
  ]
]

spent-append : (h : String) (xs ys : List Token) → spent h xs ≡ true → spent h (xs ++ ys) ≡ true
unfolding token_of spent
spent-append h xs ys e = ground (arith, find-append (λ t. t.token_hash == h) xs ys)

unfoldable rows_of : Option Store → List Token
rows_of none = []
rows_of (some s) = s.tokens

-- The table once a token has been presented.
unfoldable pub store_after : Store → Redeemed → Store
store_after s refused = s
store_after s (collided next) = next
store_after s (redeemed client next) = next

module _ (hash_token : String → String) where
  unfoldable pub call : Call → Store → Store
  call (issues now raw client) s = elim (issue_refresh_token hash_token now raw client s) [
    | none ↦ s
    | some next ↦ next
  ]
  call (redeems now raw fresh) s = store_after s (redeem_refresh_token hash_token now raw fresh s)
  call (revokes now raw) s = revoke_refresh_token hash_token now raw s

  unfoldable pub calls : List Call → Store → Store
  calls [] s = s
  calls (c ∷ rest) s = calls rest (call c s)

  spent-issue :
      (h : String) (now : ℕ) (raw : String) (client : ℕ) (s next : Store)
      → spent h s.tokens ≡ true
      → issue_refresh_token hash_token now raw client s ≡ some next
      → spent h next.tokens ≡ true
  unfolding issue_refresh_token rows_of
  spent-issue h now raw client s next e i =
      elim (Bool-cases (exists (λ t. t.token_hash == hash_token raw) s.tokens)) [
        | inl taken ↦ absurd (ground arith)
        | inr free ↦ rw (ap rows_of (sym (rw free at i))) (spent-append h s.tokens _ e)
      ]

  abbrev revoked : ℕ → String → Store → Store
  revoked now raw s = record s { tokens = revoke_row now (hash_token raw) s.tokens }

  -- A property of the table that the revocation and the issue bring about holds once a token has
  -- been presented and not refused.
  presented :
      (h : String) (now : ℕ) (raw fresh : String) (s : Store)
      → ((t : Token)
          → token_of (hash_token raw) s.tokens ≡ some t
          → spent h (revoked now raw s).tokens ≡ true)
      → (redeem_refresh_token hash_token now raw fresh s ≡ refused)
        ⊎ (spent h (store_after s (redeem_refresh_token hash_token now raw fresh s)).tokens ≡ true)
  unfolding redeem_refresh_token store_after
  presented h now raw fresh s gone = elim (Option-cases (token_of (hash_token raw) s.tokens)) [
    | inl missing ↦ inl (rw (redeem_refresh_token, missing) refl)
    | inr (t, found) ↦ elim (Bool-cases (is_usable now s t)) [
      | inr stale ↦ inl (rw (redeem_refresh_token, found, stale) refl)
      | inl usable ↦
          elim (Option-cases
            (issue_refresh_token hash_token now fresh t.client (revoked now raw s))) [
              | inl taken ↦ inr (rw (redeem_refresh_token, found, usable, taken) (gone t found))
              | inr (made, m) ↦ inr (
                  rw (redeem_refresh_token, found, usable, m)
                    (spent-issue h now fresh t.client (revoked now raw s) made (gone t found) m))
            ]
    ]
  ]

  spent-redeem :
      (h : String) (now : ℕ) (raw fresh : String) (s : Store)
      → spent h s.tokens ≡ true
      → spent h (store_after s (redeem_refresh_token hash_token now raw fresh s)).tokens ≡ true
  unfolding store_after
  spent-redeem h now raw fresh s e =
      elim (presented h now raw fresh s
        (λ t found. spent-revoke_row now h (hash_token raw) s.tokens e)) [
          | inl no_token ↦ rw (store_after, no_token) e
          | inr next ↦ next
        ]

  spent-revoke :
      (h : String) (now : ℕ) (raw : String) (active : ℕ → Bool) (tokens : List Token)
      → spent h tokens ≡ true
      → spent h
          (revoke_refresh_token hash_token now raw
            (record { tokens = tokens; active = active })).tokens
        ≡ true
  unfolding revoke_refresh_token spent token_of is_none
  spent-revoke h now raw active [] e = e
  spent-revoke h now raw active (x ∷ rest) e =
      let ih = spent-revoke h now raw active rest in
      elim (Bool-cases (x.token_hash == h)) [
        | inl here ↦ elim (Bool-cases (x.token_hash == hash_token raw)) [
          | inl too ↦ ground arith
          | inr apart ↦ ground arith
        ]
        | inr there ↦ elim (Bool-cases (x.token_hash == hash_token raw && is_none x.revoked_at)) [
          | inl too ↦ ground (arith, ih (ground arith))
          | inr apart ↦ ground (arith, ih (ground arith))
        ]
      ]

  spent-call :
      (h : String) (c : Call) (s : Store)
      → spent h s.tokens ≡ true
      → spent h (call c s).tokens ≡ true
  unfolding call
  spent-call h (issues now raw client) s e =
      elim (Option-cases (issue_refresh_token hash_token now raw client s)) [
        | inl taken ↦ rw (call, taken) e
        | inr (next, m) ↦ rw (call, m) (spent-issue h now raw client s next e m)
      ]
  spent-call h (redeems now raw fresh) s e = spent-redeem h now raw fresh s e
  spent-call h (revokes now raw) s e = spent-revoke h now raw s.active s.tokens e

  spent-calls :
      (h : String) (cs : List Call) (s : Store)
      → spent h s.tokens ≡ true
      → spent h (calls cs s).tokens ≡ true
  unfolding calls
  spent-calls h [] s e = e
  spent-calls h (c ∷ rest) s e = spent-calls h rest (call c s) (spent-call h c s e)

  spent-refused :
      (now : ℕ) (raw fresh : String) (s : Store)
      → spent (hash_token raw) s.tokens ≡ true
      → redeem_refresh_token hash_token now raw fresh s ≡ refused
  unfolding redeem_refresh_token spent is_usable
  spent-refused now raw fresh s e = elim (Option-cases (token_of (hash_token raw) s.tokens)) [
    | inl missing ↦ ground arith
    | inr (t, found) ↦ ground arith
  ]

  -- Once a token has been presented and not refused, whatever is issued, redeemed or revoked next,
  -- in any number and at any times, presenting the same token again is refused.
  pub redeem_once :
      (now : ℕ) (raw fresh : String) (s : Store)
      → redeem_refresh_token hash_token now raw fresh s ≢ refused
      → (cs : List Call) (later : ℕ) (again : String)
      → redeem_refresh_token hash_token later raw again
          (calls cs (store_after s (redeem_refresh_token hash_token now raw fresh s)))
        ≡ refused
  redeem_once now raw fresh s taken cs later again =
      elim (presented (hash_token raw) now raw fresh s
        (λ t found. revoke_row-spent now (hash_token raw) s.tokens t found)) [
          | inl no_token ↦ absurd (taken no_token)
          | inr gone ↦
              spent-refused later raw again (calls cs _) (spent-calls (hash_token raw) cs _ gone)
        ]
