-- ===== src/Oidc/Authorization.antt =====
-- oidc/oidc-authorization.service.ts: the authorization endpoint.
use oid.Shared.{
  ℕ, String, ◌==◌, Bool, false, ◌&&◌, List, [], ◌∷◌, Option, none, some, concat, find_one, save,
  includes, if◌then◌else◌,
}
use oid.Json.{str, obj, end, field}
use oid.Platform.{Platform, hash_secret, prefixed_ulid, add_seconds}
use oid.Store.{
  Store, Action, Result, ok, err, pure, throw, gets, modify, lift, or_throw, require, ◌>>=◌, ◌>>◌,
  unauthorized, bad_request, unexpected, Client, User, RedirectUri, ProviderSession,
  AuthorizationCode,
}
use oid.Audit.{record_event, no_event}
use oid.Tokens.{active_user}
use oid.Oidc.Input.{normalize_required, normalize_optional}
use oid.Oidc.Token.{active_client, save_code}
use oid.Oidc.SessionLookup.{resolve_provider_session}
use oid.Oidc.Scopes.{words_of, validate_scopes}

pub record AuthorizeRequest : Type 0 where
  pub response_type : Option String
  pub client_id : Option String
  pub redirect_uri : Option String
  pub scope : Option String
  pub state : Option String
  pub code_challenge : Option String
  pub code_challenge_method : Option String
  pub nonce : Option String
  pub prompt : Option String
  pub provider_session_token : Option String
  pub original_url : String
  pub ip_address : Option String
  pub user_agent : Option String

-- What randomBytes(32) and ulid draw for a code.
pub record FreshCode : Type 0 where
  pub raw_bytes : List ℕ
  pub code_ulid : String

-- The fields of the request, trimmed and not empty.
pub record Wanted : Type 0 where
  pub state : String
  pub client_identifier : String
  pub redirect_uri : String
  pub code_challenge : String

abbrev authorization_code_ttl_seconds : ℕ
authorization_code_ttl_seconds = 300

-- `value !== text`, where the value may be undefined.
abbrev pub is_value : String → Option String → Bool
is_value text none = false
is_value text (some v) = v == text

abbrev or_unexpected : {A : Type 0} → Option A → Result A
or_unexpected none = err unexpected
or_unexpected (some a) = ok a

abbrev pub save_session : ProviderSession → Store → Store
save_session session s = record s { sessions = save (λ r. r.id) session s.sessions }

abbrev pub uri_of : String → String → RedirectUri → Bool
uri_of client_id uri r = r.client_id == client_id && r.uri == uri

module _ (p : Platform) where
  -- buildLoginRedirect
  abbrev login_redirect : String → String
  login_redirect return_to =
      concat p.login_path (concat "?" (p.search_params (("returnTo", return_to) ∷ [])))

  -- buildErrorRedirect with login_required
  abbrev login_required : Wanted → Action String
  login_required wanted = lift (
      or_unexpected (
        p.set_params wanted.redirect_uri
          (("error", "login_required") ∷ ("state", wanted.state) ∷ [])))

  abbrev pub new_code :
      AuthorizeRequest
      → Wanted
      → String
      → Client
      → User
      → ProviderSession
      → FreshCode
      → ℕ
      → AuthorizationCode
  new_code request wanted scope client user session fresh now = record {
    id = prefixed_ulid p "cod" fresh.code_ulid;
    code_hash = hash_secret p (p.base64url fresh.raw_bytes);
    client_id = client.id;
    user_id = user.id;
    provider_session_id = session.id;
    redirect_uri = wanted.redirect_uri;
    scope = scope;
    code_challenge = wanted.code_challenge;
    nonce = normalize_optional request.nonce;
    auth_time = session.auth_time;
    expires_at = add_seconds now authorization_code_ttl_seconds;
    consumed_at = none;
  }

  -- What follows once every guard has passed.
  unfoldable pub grant_code :
      AuthorizeRequest
      → Wanted
      → String
      → Client
      → ProviderSession
      → User
      → FreshCode
      → ℕ
      → Action String
  grant_code request wanted scope client session user fresh now = do
    modify (save_session (record session { last_seen_at = now }))
    let code = new_code request wanted scope client user session fresh now
    modify (save_code code)
    record_event (record no_event {
      event_type = "oidc.authorization_code.issued";
      actor_user_id = some user.id;
      target_user_id = some user.id;
      client_id = some client.id;
      provider_session_id = some session.id;
      ip_address = request.ip_address;
      user_agent = request.user_agent;
      metadata_json = some (
          obj (
            field "authorizationCodeId" (str code.id) (
              field "clientIdentifier" (str client.client_id) (
                field "redirectUri" (str wanted.redirect_uri) (
                  field "scope" (str scope)
                    (field "expiresAt" (str (p.iso_string code.expires_at)) end))))));
    })
    lift (
        or_unexpected (
          p.set_params wanted.redirect_uri
            (("code", p.base64url fresh.raw_bytes) ∷ ("state", wanted.state) ∷ [])))

  with_user :
      AuthorizeRequest
      → Wanted
      → List String
      → String
      → Client
      → FreshCode
      → ℕ
      → ProviderSession
      → Option User
      → Action String
  with_user request wanted prompts scope client fresh now session (some user) =
      grant_code request wanted scope client session user fresh now
  with_user request wanted prompts scope client fresh now session none =
      if includes "none" prompts
      then login_required wanted
      else throw (unauthorized "Active user session required.")

  with_session :
      AuthorizeRequest
      → Wanted
      → List String
      → String
      → Client
      → FreshCode
      → ℕ
      → Option ProviderSession
      → Action String
  unfolding with_user
  with_session request wanted prompts scope client fresh now none =
      if includes "none" prompts
      then login_required wanted
      else pure (login_redirect request.original_url)
  with_session request wanted prompts scope client fresh now (some session) = do
    found_user ← gets (λ s. find_one (λ u. u.id == session.user_id) s.users)
    with_user request wanted prompts scope client fresh now session (active_user found_user)

  login_again : AuthorizeRequest → Action String
  login_again request = do
    return_to ← lift (or_unexpected (p.delete_param request.original_url "prompt"))
    pure (login_redirect return_to)

  unfoldable pub resume_session :
      AuthorizeRequest → Wanted → String → Client → FreshCode → ℕ → Action String
  unfolding with_session
  resume_session request wanted scope client fresh now = do
    session ← resolve_provider_session p request.provider_session_token now
    with_session request wanted (words_of request.prompt) scope client fresh now session

  -- The prompt, then the session.
  unfoldable pub authorize_client :
      AuthorizeRequest → Wanted → String → Client → FreshCode → ℕ → Action String
  unfolding login_again
  authorize_client request wanted scope client fresh now =
      let prompts = words_of request.prompt in
      if includes "none" prompts && includes "login" prompts
      then throw (bad_request "prompt cannot include both none and login.")
      else if includes "login" prompts
      then login_again request
      else resume_session request wanted scope client fresh now

  unfoldable pub authorize_wanted : AuthorizeRequest → Wanted → FreshCode → ℕ → Action String
  authorize_wanted request wanted fresh now = do
    found_client ← gets (λ s. find_one (λ c. c.client_id == wanted.client_identifier) s.clients)
    client ←
        lift (or_throw (active_client found_client) (bad_request "Unknown or disabled client."))
    registered ← gets (λ s. find_one (uri_of client.id wanted.redirect_uri) s.redirect_uris)
    lift (or_throw registered (bad_request "redirect_uri is not registered."))
    scope ← lift (validate_scopes request.scope client.allowed_scopes)
    authorize_client request wanted scope client fresh now

  -- `OidcAuthorizationService.authorize`: the result is `redirectTo`.
  unfoldable pub authorize : AuthorizeRequest → FreshCode → ℕ → Action String
  authorize request fresh now = do
    lift (
        require (is_value "code" request.response_type)
          (bad_request "Only response_type=code is supported."))
    state ← lift (normalize_required request.state "state")
    client_identifier ← lift (normalize_required request.client_id "client_id")
    redirect_uri ← lift (normalize_required request.redirect_uri "redirect_uri")
    code_challenge ← lift (normalize_required request.code_challenge "code_challenge")
    lift (
        require (is_value "S256" request.code_challenge_method)
          (bad_request "Only code_challenge_method=S256 is supported."))
    authorize_wanted request
        (record {
          state = state;
          client_identifier = client_identifier;
          redirect_uri = redirect_uri;
          code_challenge = code_challenge;
        })
        fresh now
