-- ===== src/Oidc/Progress.antt =====
-- When the exchange of a code returns tokens, and which.
use oid.Shared.{
  ℕ, String, ◌==◌, ◌&&◌, eq_iff, ◌≡◌, refl, true, false, some, find_one, lt→leb, is_empty,
}
use oid.Platform.{Platform, hash_secret, hash_base64url}
use oid.Json.{member}
use oid.Store.{
  Store, Result, ok, AuthorizationCode, Client, ClientStatus, User, UserStatus, SigningKey,
  is_active_client, is_active_user,
}
use oid.Audit.{record_event}
use oid.Oidc.Issued.{CanSign, IsIssued, sign_jwt-IsSigned, refresh_made, nonce_said}
use oid.Tokens.{active_user}
use oid.Tokens.Progress.{IsAuthentic, assert_client_secret-ok}
use oid.Oidc.Input.{normalize_required, trimmed}
use oid.Oidc.Jwt.{get_or_create_active_signing_key}
use oid.Oidc.Token.{
  TokenRequest, TokenResponse, FreshTokens, check_code, issue_tokens, exchange_checked,
  exchange_code, save_code, access_token_claims, id_token_claims,
}
use oid.Oidc.Exchange.{IsRedeemable, used}

-- A code that is presented as it was issued, by its enabled and authenticated client, with the
-- verifier of its challenge, for an active user.
pub record IsPresentable (p : Platform) (request : TokenRequest) (now : ℕ) (s : Store)
    (code : AuthorizationCode) (client : Client) (user : User) : Type 0 where
  pub has_code : is_empty (trimmed request.code) ≡ false
  pub has_redirect_uri : is_empty (trimmed request.redirect_uri) ≡ false
  pub has_client_id : is_empty (trimmed request.client_id) ≡ false
  pub has_verifier : is_empty (trimmed request.code_verifier) ≡ false
  pub found :
      find_one (λ c. c.code_hash == hash_secret p (trimmed request.code)) s.codes ≡ some code
  pub redeemable : IsRedeemable code (trimmed request.redirect_uri) now
  pub registered :
      find_one (λ c. c.id == code.client_id && c.client_id == trimmed request.client_id) s.clients
      ≡ some client
  pub enabled : client.status ≡ ClientStatus.active
  pub authenticated : IsAuthentic p client request.client_secret
  pub proof_of_possession : hash_base64url p (trimmed request.code_verifier) ≡ code.code_challenge
  pub known : find_one (λ u. u.id == code.user_id) s.users ≡ some user
  pub allowed : user.status ≡ UserStatus.active

check_code-ok :
    (code : AuthorizationCode) (redirect_uri : String) (now : ℕ)
    → IsRedeemable code redirect_uri now
    → check_code code redirect_uri now ≡ ok tt
unfolding check_code
check_code-ok code redirect_uri now z =
    rw (z.unused, lt→leb _ _ z.in_time, (eq_iff _ _).1 z.same_redirect) refl

module _ (p : Platform) (request : TokenRequest) (fresh : FreshTokens) (now : ℕ) (s : Store)
    (code : AuthorizationCode) (client : Client) (user : User) (key : SigningKey)
    (pem : String) where
  abbrev pub Returns : Result TokenResponse → Type 0
  Returns r =
      (response : TokenResponse) × (r ≡ ok response)
      × IsIssued p key pem fresh.refresh code client user now response

  issue_tokens-ok :
      CanSign p s key pem → Returns (issue_tokens p request code client user fresh now s).0
  unfolding issue_tokens record_event get_or_create_active_signing_key member
  issue_tokens-ok z =
      let (id_token, e, identity) =
        sign_jwt-IsSigned p s key pem (id_token_claims p code client user now) z in
      let (access_token, e', access) =
        sign_jwt-IsSigned p s key pem
          (access_token_claims p client.client_id user.id code.scope client.access_token_ttl_seconds
            now)
          z in
      let (refresh_token, t, f, refreshed) =
        refresh_made p code client user fresh.refresh now (save_code (used code now) s) in
      rw (z.active, e, e', f)
        (
          _,
          refl,
          record {
            scope = refl;
            lifetime = refl;
            access = access;
            id_token = id_token;
            has_id_token = refl;
            id_payload = id_token_claims p code client user now;
            says = record {
              issuer = refl;
              audience = refl;
              subject = refl;
              issued = refl;
              expires = refl;
              authenticated = refl;
              nonce = nonce_said p code client user now;
            };
            identity = identity;
            refresh = refreshed;
          },
        )

  -- A code that its enabled, authenticated client presents as it was issued, unused and before its
  -- expiry, with the verifier of its challenge and for an active user, is exchanged, if the service has
  -- an active key that it can sign with. The endpoint returns the code's scope and the client's
  -- lifetime; an access token and an id token that are signed with that key, for that client and user
  -- and with the client's lifetimes; and the drawn refresh token, exactly if the scope has offline_access
  -- and the client may have refresh tokens and has both their lifetimes.
  pub exchange_code-ok :
      IsPresentable p request now s code client user
      → CanSign p s key pem
      → Returns (exchange_code p request fresh now s).0
  unfolding exchange_code normalize_required exchange_checked active_user
  exchange_code-ok z sign =
      let (response, e, issued) = issue_tokens-ok sign in
      let enabled : is_active_client client.status ≡ true = rw z.enabled refl in
      let allowed : is_active_user user.status ≡ true = rw z.allowed refl in
      rw
        (
          z.has_code,
          z.has_redirect_uri,
          z.has_client_id,
          z.has_verifier,
          z.found,
          check_code-ok code (trimmed request.redirect_uri) now z.redeemable,
          z.registered,
          enabled,
          assert_client_secret-ok p client request.client_secret z.authenticated,
          (eq_iff _ _).1 z.proof_of_possession,
          z.known,
          allowed,
        )
        (rw e (response, refl, issued))
