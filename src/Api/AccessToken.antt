-- ===== src/Api/AccessToken.antt =====
-- Access tokens: `issue_access_token` and `decode_access_token` of src/pwms/api/tokens.py. The
-- signer is django.core.signing, a parameter: `dumps` stamps the second at which it signs and
-- `loads` refuses a stamp that is older than `max_age`. Times are whole seconds.
use pwms_project.Prelude.{
  none-some, ℕ, ◌+◌, ◌*◌, ◌-◌, ◌≤◌, ◌<◌, ◌≡◌, refl, true, false, ◌&&◌, not, Option, none, some,
  List, [], String, arith, if◌then◌else◌, ◌==◌, string_eq, ltb, leb, find, filter, contains, Bool,
  ◌∷◌, ◌⊎◌, beq→eq, beq_refl, Bool-cases, Option-cases, inl, inr, ap, sym, find→mem, ◌∙◌,
}
use mathlib.Core.List.{Memᴰ}
use pwms_project.Api.Clients.{Client, enabled_scopes, has_scope, contains-filter}

pub record Payload : Type 0 where
  pub sub : String
  pub scopes : List String
  pub typ : String
  pub iat : ℕ
  pub exp : ℕ

-- `T` is what a signed string is taken for. `loads` answers `none` where it raises BadSignature, ValueError or TypeError.
pub record Signer (T : Type 0) : Type 0 where
  pub dumps : ℕ → Payload → T
  pub loads : ℕ → ℕ → T → Option Payload

-- Documented of django.core.signing: what dumps() signed is read back, and is refused as soon as
-- it is older than max_age.
pub record Signs {T : Type 0} (g : Signer T) : Type 0 where
  pub reads_back :
      (now later max_age : ℕ) (p : Payload)
      → later - now ≤ max_age
      → g.loads later max_age (g.dumps now p) ≡ some p
  pub refuses_old :
      (now later max_age : ℕ) (p : Payload)
      → max_age < later - now
      → g.loads later max_age (g.dumps now p) ≡ none

-- EXTERNAL_API_ACCESS_TOKEN_TTL_MINUTES defaults to 15.
abbrev pub access_token_ttl : ℕ
access_token_ttl = 15 * 60

-- ApiClient.objects.filter(client_id=…, is_active=True).first()
unfoldable pub active_client : String → List Client → Option Client
active_client sub = find (λ c. c.client_id == sub && c.is_active)

-- [scope for scope in client.enabled_scopes if scope in granted]
unfoldable pub effective_scopes : Client → List String → List String
effective_scopes c granted = filter (λ s. contains s granted) (enabled_scopes c)

unfoldable pub with_scopes : List String → Option Client → Option (Client × List String)
with_scopes granted none = none
with_scopes granted (some c) = some (c, effective_scopes c granted)

-- What is left to do once the signature and the age are good.
unfoldable pub accept_payload : ℕ → List Client → Payload → Option (Client × List String)
accept_payload now clients p =
    if not (p.typ == "access")
    then none
    else if leb p.exp now
    then none
    else with_scopes p.scopes (active_client p.sub clients)

accept_payload-fresh :
    (now : ℕ) (clients : List Client) (p : Payload)
    → (p.typ == "access") ≡ true
    → leb p.exp now ≡ false
    → accept_payload now clients p ≡ with_scopes p.scopes (active_client p.sub clients)
unfolding accept_payload
accept_payload-fresh now clients p typ early = rw (typ, early) refl

accept_payload-late :
    (now : ℕ) (clients : List Client) (p : Payload)
    → leb p.exp now ≡ true
    → accept_payload now clients p ≡ none
unfolding accept_payload
accept_payload-late now clients p late = elim (Bool-cases (p.typ == "access")) [
  | inl typ ↦ rw (typ, late) refl
  | inr other ↦ rw other refl
]

unfoldable client_or : Client → Option (Client × List String) → Client
client_or d none = d
client_or d (some (c, scopes)) = c

unfoldable scopes_or : Option (Client × List String) → List String
scopes_or none = []
scopes_or (some (c, scopes)) = scopes

with_scopes_inv :
    (granted : List String) (found : Option Client) (c : Client) (scopes : List String)
    → with_scopes granted found ≡ some (c, scopes)
    → (found ≡ some c) × (scopes ≡ effective_scopes c granted)
unfolding with_scopes client_or scopes_or
with_scopes_inv granted none c scopes h = absurd (none-some h)
with_scopes_inv granted (some d) c scopes h =
    let e : d ≡ c = ap (client_or d) h in
    let f : effective_scopes d granted ≡ scopes = ap scopes_or h in
    (ap some e, sym f ∙ ap (λ x. effective_scopes x granted) e)

accept_payload-bounded :
    (now : ℕ) (clients : List Client) (p : Payload) (c : Client) (scopes : List String)
    → accept_payload now clients p ≡ some (c, scopes)
    → (active_client p.sub clients ≡ some c) × (scopes ≡ effective_scopes c p.scopes)
unfolding accept_payload
accept_payload-bounded now clients p c scopes e = elim (Bool-cases (p.typ == "access")) [
  | inl typ ↦ elim (Bool-cases (leb p.exp now)) [
    | inl late ↦ absurd (none-some (sym (accept_payload-late now clients p late) ∙ e))
    | inr early ↦
        with_scopes_inv p.scopes (active_client p.sub clients) c scopes
          (sym (accept_payload-fresh now clients p typ early) ∙ e)
  ]
  | inr other ↦ absurd (ground arith)
]

missed :
    (p : Client → Bool) (clients : List Client) (d : Client)
    → find p clients ≡ none
    → Memᴰ d clients
    → p d ≡ false
missed p [] d h m = elim m [ ]
missed p (x ∷ rest) d h (Memᴰ.head e) = ground (arith, ap p e)
missed p (x ∷ rest) d h (Memᴰ.tail m) = elim (Bool-cases (p x)) [
  | inl here ↦ absurd (ground (arith, here))
  | inr there ↦ missed p rest d (ground (arith, there)) m
]

no_active :
    (sub : String) (clients : List Client) (d : Client)
    → active_client sub clients ≡ none
    → Memᴰ d clients
    → d.client_id ≡ sub
    → d.is_active ≡ false
unfolding active_client
no_active sub clients d h m e =
    let off = missed (λ c. c.client_id == sub && c.is_active) clients d h m in
    let same : (d.client_id == sub) ≡ true = rw e (beq_refl sub) in ground (arith, off, same)

active_row :
    (sub : String) (clients : List Client) (d : Client)
    → active_client sub clients ≡ some d
    → Memᴰ d clients × (d.client_id ≡ sub) × (d.is_active ≡ true)
unfolding active_client
active_row sub clients d found =
    let (m, test) = find→mem (λ x. x.client_id == sub && x.is_active) clients {x = d} found in
    (m, beq→eq d.client_id sub (ground (arith, test)), ground (arith, test))

-- What presenting a token of `c` at `later` gives, the token being issued at `now`: nothing, for it
-- is 900 seconds old or every client of that id in the table is inactive; or an active client of
-- that id in the table, with the scopes that both it and `c` have enabled.
abbrev pub Presented : ℕ → ℕ → Client → List Client → Option (Client × List String) → Type 0
Presented now later c clients answer =
    ((answer ≡ none)
      × ((now + 900 ≤ later)
          ⊎ ((d : Client) → Memᴰ d clients → d.client_id ≡ c.client_id → d.is_active ≡ false)))
    ⊎ ((d : Client) × (scopes : List String) × (answer ≡ some (d, scopes))
        × (later < now + 900)
        × Memᴰ d clients
        × (d.client_id ≡ c.client_id)
        × (d.is_active ≡ true)
        × ((s : String) → contains s scopes ≡ (has_scope s d && has_scope s c)))

with_scopes-Presented :
    (now later : ℕ) (c : Client) (clients : List Client)
    → later < now + 900
    → Presented now later c clients
        (with_scopes (enabled_scopes c) (active_client c.client_id clients))
unfolding with_scopes effective_scopes has_scope
with_scopes-Presented now later c clients early =
    elim (Option-cases (active_client c.client_id clients)) [
      | inl gone ↦ rw gone (inl (refl, inr (λ d m e. no_active c.client_id clients d gone m e)))
      | inr (d, found) ↦
          let (m, same, active) = active_row c.client_id clients d found in
          rw found (
            inr (
              d,
              _,
              refl,
              early,
              m,
              same,
              active,
              λ s. contains-filter (λ x. contains x (enabled_scopes c)) s (enabled_scopes d),
            ))
    ]

module _ {T : Type 0} (g : Signer T) where
  unfoldable pub issue_access_token : ℕ → Client → T × ℕ
  issue_access_token now c = (
    g.dumps now (record {
      sub = c.client_id;
      scopes = enabled_scopes c;
      typ = "access";
      iat = now;
      exp = now + access_token_ttl;
    }),
    access_token_ttl,
  )

  unfoldable pub decode_access_token : ℕ → List Client → T → Option (Client × List String)
  decode_access_token now clients token = elim (g.loads now access_token_ttl token) [
    | none ↦ none
    | some p ↦ accept_payload now clients p
  ]

  decode_issued :
      Signs g
      → (now later : ℕ) (c : Client) (clients : List Client) → now ≤ later
      → decode_access_token later clients (issue_access_token now c).0 ≡ (
          if ltb later (now + access_token_ttl)
          then with_scopes (enabled_scopes c) (active_client c.client_id clients)
          else none)
  unfolding decode_access_token issue_access_token
  decode_issued signs now later c clients h =
      let p : Payload = record {
        sub = c.client_id;
        scopes = enabled_scopes c;
        typ = "access";
        iat = now;
        exp = now + access_token_ttl;
      } in
      elim (Bool-cases (ltb later (now + access_token_ttl))) [
        | inl early ↦
            rw
              (
                decode_access_token,
                issue_access_token,
                early,
                signs.reads_back now later access_token_ttl p (ground arith),
              )
              (accept_payload-fresh later clients p refl (ground arith))
        | inr late ↦ elim (Bool-cases (ltb access_token_ttl (later - now))) [
          | inl old ↦
              rw
                (
                  decode_access_token,
                  issue_access_token,
                  late,
                  signs.refuses_old now later access_token_ttl p (ground arith),
                )
                refl
          | inr just ↦
              rw
                (
                  decode_access_token,
                  issue_access_token,
                  late,
                  signs.reads_back now later access_token_ttl p (ground arith),
                )
                (accept_payload-late later clients p (ground arith))
        ]
      ]

  -- With a signer that behaves as documented, a token issued to a client at `now` and presented
  -- then or later is accepted exactly while fewer than 900 seconds have passed and the table has an
  -- active client of that id. The answer is then such a client of the table, and its scopes are
  -- those that it has enabled now and that the token was issued with.
  pub decode-issue :
      Signs g
      → (now later : ℕ) (c : Client) (clients : List Client) → now ≤ later
      → Presented now later c clients
          (decode_access_token later clients (issue_access_token now c).0)
  decode-issue signs now later c clients h =
      rw (decode_issued signs now later c clients h)
        (elim (Bool-cases (ltb later (now + access_token_ttl))) [
          | inl early ↦ rw early (with_scopes-Presented now later c clients (ground arith))
          | inr late ↦ rw late (inl (refl, inl (ground arith)))
        ])

  -- Whatever token is accepted, for each scope that it gives: the client is an active row of the
  -- table and has that scope enabled now.
  pub decode-bounded :
      (now : ℕ) (clients : List Client) (token : T) (c : Client) (scopes : List String)
      → decode_access_token now clients token ≡ some (c, scopes)
      → (s : String) → contains s scopes ≡ true
      → Memᴰ c clients × (c.is_active ≡ true) × (has_scope s c ≡ true)
  unfolding decode_access_token active_client effective_scopes has_scope
  decode-bounded now clients token c scopes e s m =
      elim (Option-cases (g.loads now access_token_ttl token)) [
        | inl forged ↦ absurd (none-some (rw (decode_access_token, forged) at e))
        | inr (p, read) ↦
            let (row, same) =
              accept_payload-bounded now clients p c scopes (rw (decode_access_token, read) at e) in
            let (here, test) = find→mem _ clients row in
            let both =
              sym (contains-filter (λ x. contains x p.scopes) s (enabled_scopes c))
              ∙ ap (contains s) (sym same)
              ∙ m in
            (here, ground arith, ground arith)
      ]
