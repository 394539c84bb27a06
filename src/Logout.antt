-- ===== src/Logout.antt =====
-- oidc/oidc-logout.service.ts: the end of a session at the wish of a client.
pub mod Redirect
use oid.Shared.{
  String, ◌==◌, ◌&&◌, Bool, truthy, ℕ, Option, none, some, is_some, find_one, if◌then◌else◌, [],
  ◌∷◌, List,
}
use oid.Json.{str, bool, obj, end, field, nullable_str}
use oid.Platform.{Platform}
use oid.Store.{
  Store, Action, Result, ok, err, pure, gets, lift, or_throw, ◌>>=◌, ◌>>◌, unexpected, Client,
  PostLogoutUri,
}
use oid.Audit.{record_event, no_event}
use oid.Admin.Common.{normalize_optional}
use oid.Login.{AuthenticationRequestContext, logout}
use oid.Oidc.Jwt.{FreshKey}
use oid.Oidc.Endpoints.{verify_id_token_hint}

pub record EndSessionInput : Type 0 where
  pub context : AuthenticationRequestContext
  pub id_token_hint : Option String
  pub client_id : Option String
  pub post_logout_redirect_uri : Option String
  pub state : Option String

-- The pair of `sub` and `aud` of a hint that verifies.
abbrev pub Hint : Type 0
Hint = Option (String × String)

abbrev pub sub_of : Hint → Option String
sub_of none = none
sub_of (some (sub, aud)) = some sub

-- `normalizeOptional(input.clientId) ?? hint?.aud ?? null`
abbrev pub client_identifier_of : Option String → Hint → Option String
client_identifier_of (some id) hint = some id
client_identifier_of none none = none
client_identifier_of none (some (sub, aud)) = some aud

abbrev pub is_registered : String → String → PostLogoutUri → Bool
is_registered client_id uri r = r.client_id == client_id && r.uri == uri

module _ (p : Platform) where
  -- The URI with the state as a parameter.
  abbrev pub stated : String → String → Action String
  stated uri state = lift (or_throw (p.set_params uri (("state", state) ∷ [])) unexpected)

  abbrev pub with_state : String → Option String → Action String
  with_state uri none = pure uri
  with_state uri (some state) = if truthy (some state) then stated uri state else pure uri

  abbrev pub if_registered : String → Option String → Option PostLogoutUri → Action String
  if_registered uri state none = pure p.login_path
  if_registered uri state (some r) = with_state uri state

  abbrev pub for_client : String → Option String → Option Client → Action String
  for_client uri state none = pure p.login_path
  for_client uri state (some client) = do
    registered ← gets (λ s. find_one (is_registered client.id uri) s.post_logout_uris)
    if_registered uri state registered

  abbrev pub look_up : String → String → Option String → Action String
  look_up identifier uri state = do
    client ← gets (λ s. find_one (λ c. c.client_id == identifier) s.clients)
    for_client uri state client

  -- `resolveRedirectTo`
  unfoldable pub resolve_redirect_to : Option String → Option String → Option String → Action String
  resolve_redirect_to (some identifier) (some uri) state =
      if truthy (some uri) && truthy (some identifier)
      then look_up identifier uri state
      else pure p.login_path
  resolve_redirect_to _ _ state = pure p.login_path

  abbrev pub hint_of : Option String → FreshKey → Action Hint
  hint_of none fresh = pure none
  hint_of (some token) fresh =
      if truthy (some token) then verify_id_token_hint p token fresh else pure none

  -- `endSession`: the redirect.
  unfoldable pub end_session : String → EndSessionInput → FreshKey → ℕ → Action String
  end_session cookie_name input fresh now = do
    hint ← hint_of input.id_token_hint fresh
    let identifier = client_identifier_of (normalize_optional input.client_id) hint
    redirect_to ←
        resolve_redirect_to identifier (normalize_optional input.post_logout_redirect_uri)
          (normalize_optional input.state)
    logout p cookie_name input.context now
    record_event (record no_event {
      event_type = "oidc.end_session.succeeded";
      target_user_id = sub_of hint;
      ip_address = input.context.ip_address;
      user_agent = input.context.user_agent;
      metadata_json = some (
          obj (
            field "clientIdentifier" (nullable_str identifier) (
              field "hadIdTokenHint" (bool (truthy input.id_token_hint))
                (field "redirectTo" (str redirect_to) end))));
    })
    pure redirect_to
