-- ===== src/Oidc/Exchange.antt =====
-- The exchange of an authorization code: what it demands, and how its last step can end.
use oid.Shared.{
  ℕ, ◌<◌, String, ◌==◌, eq_iff, ◌≡◌, refl, ◌⊎◌, inl, inr, true, Option, none, some, Bool-cases,
  Option-cases, find_one, save, leb, leb→lt, List,
}
use oid.Platform.{Platform, hash_secret, hash_base64url}
use oid.Store.{
  Store, Action, Result, ok, err, HttpException, unauthorized, Client, is_active_client, is_public,
  User, is_active_user, AuthorizationCode, lift, require, gets, or_throw, ◌>>=◌, ◌>>◌, Result-cases,
  SigningKey, is_active_key,
}
use oid.Audit.{record_event}
use oid.Tokens.{Fresh, issue_token, active_user}
use oid.Tokens.Authorized.{secret_cases, active_user_cases}
use oid.Oidc.Jwt.{new_signing_key, FreshKey, get_or_create_active_signing_key, sign_jwt}
use oid.Oidc.Token.{
  TokenRequest, TokenResponse, CodeRequest, FreshTokens, save_code, check_code, active_client,
  issue_refresh, lifetimes_to_issue, id_token_claims, access_token_claims, issue_tokens, find_code,
  client_of_code, verify_s256_pkce, exchange_checked,
}

-- Not used, before its expiry, and issued for this redirect URI.
pub record IsRedeemable (code : AuthorizationCode) (redirect_uri : String) (now : ℕ) : Type 0 where
  pub unused : code.consumed_at ≡ none
  pub in_time : now < code.expires_at
  pub same_redirect : code.redirect_uri ≡ redirect_uri

code_cases :
    (code : AuthorizationCode) (redirect_uri : String) (now : ℕ)
    → ((e : HttpException) × (check_code code redirect_uri now ≡ err e))
      ⊎ (IsRedeemable code redirect_uri now × (check_code code redirect_uri now ≡ ok tt))
unfolding check_code
code_cases code redirect_uri now = elim (Option-cases code.consumed_at) [
  | inr (at, e) ↦ inl (unauthorized "Authorization code already used.", rw e)
  | inl unused ↦ elim (Bool-cases (leb code.expires_at now)) [
    | inl e ↦ inl (unauthorized "Authorization code expired.", rw (unused, e))
    | inr e ↦ elim (Bool-cases (code.redirect_uri == redirect_uri)) [
      | inr e' ↦ inl (unauthorized "redirect_uri does not match code.", rw (unused, e, e'))
      | inl e' ↦ inr (
        record { unused = unused; in_time = leb→lt _ _ e; same_redirect = (eq_iff _ _).0 e' },
        rw (unused, e, e'),
      )
    ]
  ]
]

pub active_client_cases :
    (o : Option Client)
    → (active_client o ≡ none)
      ⊎ ((c : Client) × (o ≡ some c)
          × (is_active_client c.status ≡ true)
          × (active_client o ≡ some c))
active_client_cases none = inl refl
active_client_cases (some c) = elim (Bool-cases (is_active_client c.status)) [
  | inl a ↦ inr (c, refl, a, rw a)
  | inr a ↦ inl (rw a)
]

-- What an exchange demands of the request, the code, the client and the user.
pub record IsExchangeable (p : Platform) (request : TokenRequest) (wanted : CodeRequest) (now : ℕ)
    (s : Store) (code : AuthorizationCode) (client : Client) (user : User) : Type 0 where
  pub found : find_code p wanted.code s.codes ≡ some code
  pub redeemable : IsRedeemable code wanted.redirect_uri now
  pub registered : find_one (client_of_code p code wanted.client_identifier) s.clients ≡ some client
  pub enabled : is_active_client client.status ≡ true
  pub authenticated :
      (is_public client.type ≡ true)
      ⊎ ((secret : String) × (request.client_secret ≡ some secret)
          × (client.client_secret_hash ≡ some (hash_secret p secret)))
  pub proof_of_possession : hash_base64url p wanted.code_verifier ≡ code.code_challenge
  pub known : find_one (λ u. u.id == code.user_id) s.users ≡ some user
  pub allowed : is_active_user user.status ≡ true

module _ (p : Platform) (request : TokenRequest) (wanted : CodeRequest) (fresh : FreshTokens)
    (now : ℕ) (s : Store) (P : Result TokenResponse × Store → Type 0)
    (refused : (e : HttpException) → P (err e, s))
    (issued : (code : AuthorizationCode) (client : Client) (user : User)
      → IsExchangeable p request wanted now s code client user
      → P (issue_tokens p request code client user fresh now s)) where
  module _ (code : AuthorizationCode) (found : find_code p wanted.code s.codes ≡ some code)
      (redeemable : IsRedeemable code wanted.redirect_uri now) (client : Client)
      (registered : find_one (client_of_code p code wanted.client_identifier) s.clients
        ≡ some client)
      (enabled : is_active_client client.status ≡ true)
      (authenticated : (is_public client.type ≡ true)
        ⊎ ((secret : String) × (request.client_secret ≡ some secret)
            × (client.client_secret_hash ≡ some (hash_secret p secret)))) where
    -- The last two guards.
    abbrev finish : Action TokenResponse
    finish = do
      lift (
          require (verify_s256_pkce p wanted.code_verifier code.code_challenge)
            (unauthorized "Invalid code_verifier."))
      found_user ← gets (λ s. find_one (λ u. u.id == code.user_id) s.users)
      user ← lift (or_throw (active_user found_user) (unauthorized "Invalid user."))
      issue_tokens p request code client user fresh now

    possessed : P (finish s)
    possessed = elim (Bool-cases (verify_s256_pkce p wanted.code_verifier code.code_challenge)) [
      | inr e ↦ rw e (refused (unauthorized "Invalid code_verifier."))
      | inl e ↦ rw e (elim (active_user_cases (find_one (λ u. u.id == code.user_id) s.users)) [
        | inl e' ↦ rw e' (refused (unauthorized "Invalid user."))
        | inr (user, known, allowed, e') ↦ rw e' (
            issued code client user (record {
              found = found;
              redeemable = redeemable;
              registered = registered;
              enabled = enabled;
              authenticated = authenticated;
              proof_of_possession = (eq_iff _ _).0 e;
              known = known;
              allowed = allowed;
            }))
      ])
    ]

  pub checked_cases : P (exchange_checked p request wanted fresh now s)
  unfolding exchange_checked
  checked_cases = elim (Option-cases (find_code p wanted.code s.codes)) [
    | inl e ↦ rw e (refused (unauthorized "Invalid authorization code."))
    | inr (code, found) ↦ rw found (elim (code_cases code wanted.redirect_uri now) [
      | inl (x, e) ↦ rw e (refused x)
      | inr (redeemable, e) ↦
          rw e
            (elim (active_client_cases
              (find_one (client_of_code p code wanted.client_identifier) s.clients)) [
                | inl e' ↦ rw e' (refused (unauthorized "Invalid client."))
                | inr (client, registered, enabled, e') ↦
                    rw e' (elim (secret_cases p client request.client_secret) [
                      | inl (x, e'') ↦ rw e'' (refused x)
                      | inr (authenticated, e'') ↦
                          rw e'' (
                            possessed code found redeemable client registered enabled authenticated)
                    ])
              ])
    ])
  ]

pub key_made :
    (p : Platform) (fresh : FreshKey) (s : Store)
    → (key : SigningKey) × (keys : List SigningKey) × (get_or_create_active_signing_key p fresh s
        ≡ (ok key, record s { signing_keys = keys }))
unfolding get_or_create_active_signing_key
key_made p fresh s = elim (Option-cases (find_one (λ k. is_active_key k.status) s.signing_keys)) [
  | inl e ↦ (
    new_signing_key p fresh,
    save (λ k. k.id) (new_signing_key p fresh) s.signing_keys,
    rw e refl,
  )
  | inr (key, e) ↦ (key, s.signing_keys, rw e refl)
]

pub refresh_issued :
    (p : Platform) (code : AuthorizationCode) (client : Client) (user : User) (fresh : Fresh)
    (now : ℕ) (lifetimes : Option (ℕ × ℕ)) (s : Store)
    → (r : Option String) × (t : Store) × (issue_refresh p code client user fresh now lifetimes s
        ≡ (ok r, t))
      × (t.codes ≡ s.codes)
unfolding issue_refresh issue_token record_event
refresh_issued p code client user fresh now none s = (none, s, refl, refl)
refresh_issued p code client user fresh now (some (idle, absolute)) s = (_, _, refl, refl)

abbrev pub used : AuthorizationCode → ℕ → AuthorizationCode
used code now = record code { consumed_at = some now }

module _ (p : Platform) (request : TokenRequest) (code : AuthorizationCode) (client : Client)
    (user : User) (fresh : FreshTokens) (now : ℕ) (s : Store) where
  -- A refusal leaves the refresh tokens alone, a success saves the code as used.
  pub issue_cases :
      ((e : HttpException) × (t : Store) × (issue_tokens p request code client user fresh now s
          ≡ (err e, t))
        × (t.refresh_tokens ≡ s.refresh_tokens))
      ⊎ ((r : TokenResponse) × (t : Store) × (issue_tokens p request code client user fresh now s
            ≡ (ok r, t))
          × (t.codes ≡ save (λ c. c.id) (used code now) s.codes))
  unfolding issue_tokens record_event
  issue_cases =
      let (key, keys, e) = key_made p fresh.key (save_code (used code now) s) in
      elim (Result-cases (sign_jwt p (id_token_claims p code client user now) key)) [
        | inl (x, e') ↦
            inl (
              x,
              record (save_code (used code now) s) { signing_keys = keys },
              rw (e, e') refl,
              refl,
            )
        | inr (id_token, e') ↦
            elim (Result-cases (
              sign_jwt p
                (access_token_claims p client.client_id user.id code.scope
                  client.access_token_ttl_seconds now)
                key)) [
                  | inl (x, e'') ↦ inl (
                    x,
                    record (save_code (used code now) s) { signing_keys = keys },
                    rw (e, e', e'') refl,
                    refl,
                  )
                  | inr (access_token, e'') ↦
                      let (refresh_token, t, f, g) =
                        refresh_issued p code client user fresh.refresh now
                          (lifetimes_to_issue client code.scope)
                          (record (save_code (used code now) s) { signing_keys = keys }) in
                      rw (e, e', e'', f) (inr (_, _, refl, g))
                ]
      ]
