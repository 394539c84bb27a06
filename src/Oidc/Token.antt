-- ===== src/Oidc/Token.antt =====
-- `exchangeAuthorizationCode` of oidc/oidc-token.service.ts, for the grant authorization_code.
use oid.Shared.{
  ℕ, ◌+◌, ◌/◌, String, ◌==◌, Bool, ◌&&◌, List, Option, none, some, is_some, truthy, find_one, save,
  leb, if◌then◌else◌,
}
use oid.Json.{str, num, obj, Fields, end, field}
use oid.Platform.{Platform, hash_secret, hash_base64url}
use oid.Store.{
  Store, Action, Result, ok, err, pure, gets, modify, lift, or_throw, require, transaction, ◌>>=◌,
  ◌>>◌, unauthorized, Client, is_active_client, User, AuthorizationCode,
}
use oid.Audit.{record_event, no_event}
use oid.Tokens.{Fresh, issue_token, assert_client_secret, active_user}
use oid.Oidc.Input.{normalize_required}
use oid.Oidc.Jwt.{FreshKey, get_or_create_active_signing_key, sign_jwt}
use oid.Oidc.Claims.{build_user_claims, has_scope}

pub record TokenRequest : Type 0 where
  pub grant_type : Option String
  pub code : Option String
  pub redirect_uri : Option String
  pub client_id : Option String
  pub client_secret : Option String
  pub code_verifier : Option String
  pub refresh_token : Option String
  pub ip_address : Option String
  pub user_agent : Option String

-- The key `token_type` is always 'Bearer'.
pub record TokenResponse : Type 0 where
  pub access_token : String
  pub expires_in : ℕ
  pub id_token : Option String
  pub refresh_token : Option String
  pub scope : String

-- The fields of a code exchange, trimmed and not empty.
pub record CodeRequest : Type 0 where
  pub code : String
  pub redirect_uri : String
  pub client_identifier : String
  pub code_verifier : String

-- What a request draws: a signing key, if none is active, and a refresh token.
pub record FreshTokens : Type 0 where
  pub key : FreshKey
  pub refresh : Fresh

abbrev pub restore_codes : Store → Store → Store
restore_codes before after = record after { codes = before.codes }

abbrev pub save_code : AuthorizationCode → Store → Store
save_code c s = record s { codes = save (λ r. r.id) c s.codes }

-- The guards on the code itself.
unfoldable pub check_code : AuthorizationCode → String → ℕ → Result (Unit {0})
check_code code redirect_uri now =
    if is_some code.consumed_at
    then err (unauthorized "Authorization code already used.")
    else if leb code.expires_at now
    then err (unauthorized "Authorization code expired.")
    else if code.redirect_uri == redirect_uri
    then ok tt
    else err (unauthorized "redirect_uri does not match code.")

abbrev pub active_client : Option Client → Option Client
active_client none = none
active_client (some c) = if is_active_client c.status then some c else none

abbrev pub both_present : Option ℕ → Option ℕ → Option (ℕ × ℕ)
both_present (some idle) (some absolute) = some (idle, absolute)
both_present _ _ = none

-- The lifetimes of a refresh token, if `shouldIssueRefreshToken`.
unfoldable pub lifetimes_to_issue : Client → String → Option (ℕ × ℕ)
lifetimes_to_issue client scope =
    if has_scope "offline_access" scope && client.allow_refresh_tokens
    then both_present client.refresh_token_idle_ttl_seconds
        client.refresh_token_absolute_ttl_seconds
    else none

module _ (p : Platform) where
  abbrev common_claims : Client → User → ℕ → Fields → Fields
  common_claims client user now rest = field "iss" (str p.base_url) (
      field "aud" (str client.client_id)
        (field "sub" (str user.id) (field "iat" (num (now / 1000)) rest)))

  abbrev nonce_claim : Option String → Fields → Fields
  nonce_claim none rest = rest
  nonce_claim (some n) rest = if truthy (some n) then field "nonce" (str n) rest else rest

  abbrev pub id_token_claims : AuthorizationCode → Client → User → ℕ → Fields
  id_token_claims code client user now = common_claims client user now (
      field "exp" (num (now / 1000 + client.id_token_ttl_seconds)) (
        field "auth_time" (num (code.auth_time / 1000))
          (nonce_claim code.nonce (build_user_claims user code.scope client.allowed_claims))))

  abbrev pub access_token_claims : String → String → String → ℕ → ℕ → Fields
  access_token_claims audience subject scope ttl now = field "iss" (str p.base_url) (
      field "aud" (str audience) (
        field "sub" (str subject) (
          field "iat" (num (now / 1000)) (
            field "exp" (num (now / 1000 + ttl))
              (field "scope" (str scope) (field "token_use" (str "access") end))))))

  unfoldable pub issue_refresh :
      AuthorizationCode → Client → User → Fresh → ℕ → Option (ℕ × ℕ) → Action (Option String)
  issue_refresh code client user fresh now none = pure none
  issue_refresh code client user fresh now (some (idle, absolute)) = do
    issued ←
        issue_token p
          (record {
            user_id = user.id;
            client_id = client.id;
            provider_session_id = some code.provider_session_id;
            idle_ttl_seconds = idle;
            absolute_ttl_seconds = absolute;
            upstream_refresh_token = none;
          })
          fresh now
    pure (some issued.refresh_token)

  -- What follows once every guard has passed.
  unfoldable pub issue_tokens :
      TokenRequest → AuthorizationCode → Client → User → FreshTokens → ℕ → Action TokenResponse
  unfolding issue_refresh
  issue_tokens request code client user fresh now = do
    modify (save_code (record code { consumed_at = some now }))
    signing_key ← get_or_create_active_signing_key p fresh.key
    id_token ← lift (sign_jwt p (id_token_claims code client user now) signing_key)
    access_token ← lift (
        sign_jwt p
          (access_token_claims client.client_id user.id code.scope client.access_token_ttl_seconds
            now)
          signing_key)
    refresh_token ←
        issue_refresh code client user fresh.refresh now (lifetimes_to_issue client code.scope)
    record_event (record no_event {
      event_type = "oidc.token.issued";
      actor_user_id = some user.id;
      target_user_id = some user.id;
      client_id = some client.id;
      provider_session_id = some code.provider_session_id;
      ip_address = request.ip_address;
      user_agent = request.user_agent;
      metadata_json = some (
          obj (
            field "authorizationCodeId" (str code.id)
              (field "scope" (str code.scope) (field "tokenType" (str "authorization_code") end))));
    })
    pure (record {
      access_token = access_token;
      expires_in = client.access_token_ttl_seconds;
      id_token = some id_token;
      refresh_token = refresh_token;
      scope = code.scope;
    })

  abbrev pub find_code : String → List AuthorizationCode → Option AuthorizationCode
  find_code raw = find_one (λ c. c.code_hash == hash_secret p raw)

  abbrev pub client_of_code : AuthorizationCode → String → Client → Bool
  client_of_code code identifier c = c.id == code.client_id && c.client_id == identifier

  -- `verifyS256Pkce`
  abbrev pub verify_s256_pkce : String → String → Bool
  verify_s256_pkce verifier challenge = hash_base64url p verifier == challenge

  -- The callback of the transaction.
  unfoldable pub exchange_checked :
      TokenRequest → CodeRequest → FreshTokens → ℕ → Action TokenResponse
  exchange_checked request wanted fresh now = do
    found ← gets (λ s. find_code wanted.code s.codes)
    code ← lift (or_throw found (unauthorized "Invalid authorization code."))
    lift (check_code code wanted.redirect_uri now)
    found_client ← gets (λ s. find_one (client_of_code code wanted.client_identifier) s.clients)
    client ← lift (or_throw (active_client found_client) (unauthorized "Invalid client."))
    lift (assert_client_secret p client request.client_secret)
    lift (
        require (verify_s256_pkce wanted.code_verifier code.code_challenge)
          (unauthorized "Invalid code_verifier."))
    found_user ← gets (λ s. find_one (λ u. u.id == code.user_id) s.users)
    user ← lift (or_throw (active_user found_user) (unauthorized "Invalid user."))
    issue_tokens request code client user fresh now

  unfoldable pub exchange_code : TokenRequest → FreshTokens → ℕ → Action TokenResponse
  exchange_code request fresh now = do
    code ← lift (normalize_required request.code "code")
    redirect_uri ← lift (normalize_required request.redirect_uri "redirect_uri")
    client_identifier ← lift (normalize_required request.client_id "client_id")
    code_verifier ← lift (normalize_required request.code_verifier "code_verifier")
    transaction restore_codes (
        exchange_checked request
          (record {
            code = code;
            redirect_uri = redirect_uri;
            client_identifier = client_identifier;
            code_verifier = code_verifier;
          })
          fresh now)
