-- ===== src/Oidc/Endpoints.antt =====
-- The other methods of `OidcTokenService`: refreshing, revoking, userinfo, id token hints.
use oid.Shared.{
  ℕ, String, ◌==◌, Bool, false, ◌&&◌, List, [], ◌∷◌, Option, none, some, is_empty, find_one, split,
  not, if◌then◌else◌,
}
use oid.Json.{Json, str, Fields, field, member}
use oid.Platform.{Platform}
use oid.Store.{
  Action, Result, ok, err, pure, throw, gets, lift, or_throw, ◌>>=◌, unauthorized, bad_request,
  Client, is_active_client,
}
use oid.Tokens.{rotate_token_for_client, revoke_presented_token, active_user}
use oid.Oidc.Input.{normalize_required}
use oid.Oidc.Jwt.{
  FreshKey, get_or_create_active_signing_key, sign_jwt, verify_jwt, verify_jwt_signature,
}
use oid.Oidc.Claims.{build_user_claims}
use oid.Oidc.Token.{TokenRequest, TokenResponse, FreshTokens, access_token_claims, exchange_code}

-- `payload.name === text`
abbrev pub is_text : String → Option Json → Bool
is_text text (some (str s)) = s == text
is_text text _ = false

-- authorizationHeader.split(' ', 2): the scheme and what stands before a second blank.
abbrev bearer_of : List String → Option String
bearer_of (scheme ∷ token ∷ _) =
    if scheme == "Bearer" && not (is_empty token) then some token else none
bearer_of _ = none

unfoldable pub extract_bearer_token : Option String → Option String
extract_bearer_token none = none
extract_bearer_token (some header) = bearer_of (split b' ' header)

abbrev pub refresh_scope : String
refresh_scope = "openid offline_access"

module _ (p : Platform) where
  unfoldable pub refresh_access_token : TokenRequest → FreshTokens → ℕ → Action TokenResponse
  refresh_access_token request fresh now = do
    refresh_token ← lift (normalize_required request.refresh_token "refresh_token")
    client_identifier ← lift (normalize_required request.client_id "client_id")
    rotated ←
        rotate_token_for_client p
          (record {
            refresh_token = refresh_token;
            client_identifier = client_identifier;
            client_secret = request.client_secret;
          })
          fresh.refresh now
    signing_key ← get_or_create_active_signing_key p fresh.key
    access_token ← lift (
        sign_jwt p
          (access_token_claims p rotated.client.client_id rotated.token.user_id refresh_scope
            rotated.client.access_token_ttl_seconds now)
          signing_key)
    pure (record {
      access_token = access_token;
      expires_in = rotated.client.access_token_ttl_seconds;
      id_token = none;
      refresh_token = some rotated.issued.refresh_token;
      scope = refresh_scope;
    })

  by_grant_type : Option String → TokenRequest → FreshTokens → ℕ → Action TokenResponse
  by_grant_type none request fresh now = throw (bad_request "Unsupported grant_type.")
  by_grant_type (some grant) request fresh now =
      if grant == "refresh_token"
      then refresh_access_token request fresh now
      else if grant == "authorization_code"
      then exchange_code p request fresh now
      else throw (bad_request "Unsupported grant_type.")

  -- The dispatch on `grantType` that `exchangeAuthorizationCode` begins with.
  unfoldable pub exchange_authorization_code : TokenRequest → FreshTokens → ℕ → Action TokenResponse
  unfolding by_grant_type
  exchange_authorization_code request fresh now = by_grant_type request.grant_type request fresh now

  unfoldable pub revoke_token : Option String → ℕ → Action (Unit {0})
  revoke_token token now = do
    presented ← lift (normalize_required token "token")
    revoke_presented_token p presented "client_revocation" now

  -- String(payload.name)
  abbrev pub text_of : Option Json → String
  text_of none = "undefined"
  text_of (some (str s)) = s
  text_of (some v) = p.string_of v

  access_payload : Result Fields → Result Fields
  access_payload (err e) = err e
  access_payload (ok payload) =
      if is_text p.base_url (member "iss" payload) && is_text "access" (member "token_use" payload)
      then ok payload
      else err (unauthorized "Invalid access token.")

  unfoldable pub verify_access_token : String → FreshKey → ℕ → Action Fields
  unfolding access_payload
  verify_access_token token fresh now = do
    signing_key ← get_or_create_active_signing_key p fresh
    lift (access_payload (verify_jwt p token signing_key.public_jwk now))

  abbrev pub client_of_audience : Option Json → Client → Bool
  client_of_audience audience c = c.client_id == text_of audience && is_active_client c.status

  unfoldable pub user_info : Option String → FreshKey → ℕ → Action Fields
  user_info authorization_header fresh now = do
    access_token ← lift (
        or_throw (extract_bearer_token authorization_header)
          (unauthorized "Bearer access token required."))
    payload ← verify_access_token access_token fresh now
    found_user ← gets (λ s. find_one (λ u. u.id == text_of (member "sub" payload)) s.users)
    found_client ← gets (λ s. find_one (client_of_audience (member "aud" payload)) s.clients)
    user ← lift (or_throw (active_user found_user) (unauthorized "Invalid access token."))
    client ← lift (or_throw found_client (unauthorized "Invalid access token."))
    pure (
        field "sub" (str user.id)
          (build_user_claims user (text_of (member "scope" payload)) client.allowed_claims))

  -- `null` for any payload but one with this issuer and textual sub and aud.
  abbrev hint_of : Option Json → Option Json → Option (String × String)
  hint_of (some (str sub)) (some (str aud)) = some (sub, aud)
  hint_of _ _ = none

  checked_hint : Result Fields → Option (String × String)
  checked_hint (err e) = none
  checked_hint (ok payload) =
      if is_text p.base_url (member "iss" payload)
      then hint_of (member "sub" payload) (member "aud" payload)
      else none

  -- The pair of `sub` and `aud`. The `catch` makes every failure a null.
  unfoldable pub verify_id_token_hint : String → FreshKey → Action (Option (String × String))
  unfolding checked_hint
  verify_id_token_hint id_token fresh = do
    signing_key ← get_or_create_active_signing_key p fresh
    pure (checked_hint (verify_jwt_signature p id_token signing_key.public_jwk))

  -- The document of the endpoint jwks.json lists the one active key.
  unfoldable pub jwks : FreshKey → Action (List Fields)
  jwks fresh = do
    signing_key ← get_or_create_active_signing_key p fresh
    pure (signing_key.public_jwk ∷ [])
