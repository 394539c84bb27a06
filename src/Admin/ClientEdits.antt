-- ===== src/Admin/ClientEdits.antt =====
-- The operations of admin/admin-client.service.ts that change clients and redirect URIs.
use oid.Shared.{
  ℕ, String, ◌==◌, Bool, true, false, not, ◌&&◌, ◌||◌, is_empty, is_some, concat, if◌then◌else◌,
  List, [], ◌∷◌, Option, none, some, find_one, remove_rows, save,
}
use oid.Json.{str, bool, arr, end, field}
use oid.Platform.{Platform, hash_secret, prefixed_ulid}
use oid.Store.{
  Action, Result, ok, err, pure, gets, lift, modify, or_throw, require, ◌>>=◌, ◌>>◌, bad_request,
  not_found, conflict, Client, ClientType, ClientStatus, is_public, RedirectUri, AuditSeverity,
}
use oid.Admin.Common.{AdminMutationContext, normalize_required, normalize_optional}
use oid.Admin.Clients.{
  GivenNumber, natural, AdminCreateClientInput, AdminUpdateClientInput, default_to,
  normalize_string_list, normalize_positive_integer, RefreshTokenPolicy, build_refresh_token_policy,
  existing_client, assert_client_id_available, save_client, audit_client_mutation,
  client_status_name, type_name, changed, texts,
}

-- A stored number as an input.
abbrev stored : Option ℕ → Option GivenNumber
stored none = none
stored (some n) = some (natural n)

-- `input.field ?? client.field`, where null and undefined are alike.
abbrev given_or_stored : Option (Option GivenNumber) → Option ℕ → Option GivenNumber
given_or_stored (some (some n)) old = some n
given_or_stored (some none) old = stored old
given_or_stored none old = stored old

abbrev pub policy_of : Client → RefreshTokenPolicy
policy_of c = record {
  allow_refresh_tokens = c.allow_refresh_tokens;
  refresh_token_idle_ttl_seconds = c.refresh_token_idle_ttl_seconds;
  refresh_token_absolute_ttl_seconds = c.refresh_token_absolute_ttl_seconds;
}

-- The policy changes only if one of its three fields is there.
unfoldable pub update_policy : AdminUpdateClientInput → Client → Result RefreshTokenPolicy
update_policy input c =
    if is_some input.allow_refresh_tokens
      || is_some input.refresh_token_idle_ttl_seconds
      || is_some input.refresh_token_absolute_ttl_seconds
    then build_refresh_token_policy
        (given_or_stored input.refresh_token_idle_ttl_seconds c.refresh_token_idle_ttl_seconds)
        (given_or_stored input.refresh_token_absolute_ttl_seconds
          c.refresh_token_absolute_ttl_seconds)
        (default_to c.allow_refresh_tokens input.allow_refresh_tokens)
    else ok (policy_of c)

abbrev owner_or : Option (Option String) → Option String → Option String
owner_or none old = old
owner_or (some value) old = normalize_optional value

abbrev pub update_found_client :
    AdminUpdateClientInput → AdminMutationContext → Client → Action Client
update_found_client input context c = do
  name ← lift (changed input.name (λ v. normalize_required v "name") c.name)
  scopes ← lift (changed input.allowed_scopes normalize_string_list c.allowed_scopes)
  claims ← lift (changed input.allowed_claims normalize_string_list c.allowed_claims)
  access ← lift (
      changed input.access_token_ttl_seconds (normalize_positive_integer "accessTokenTtlSeconds")
        c.access_token_ttl_seconds)
  id ← lift (
      changed input.id_token_ttl_seconds (normalize_positive_integer "idTokenTtlSeconds")
        c.id_token_ttl_seconds)
  policy ← lift (update_policy input c)
  let client = record c {
    name = name;
    allowed_scopes = scopes;
    allowed_claims = claims;
    require_pkce = default_to c.require_pkce input.require_pkce;
    access_token_ttl_seconds = access;
    id_token_ttl_seconds = id;
    allow_refresh_tokens = policy.allow_refresh_tokens;
    refresh_token_idle_ttl_seconds = policy.refresh_token_idle_ttl_seconds;
    refresh_token_absolute_ttl_seconds = policy.refresh_token_absolute_ttl_seconds;
    owner_team = owner_or input.owner_team c.owner_team;
  }
  modify (save_client client)
  audit_client_mutation "admin.client.updated" AuditSeverity.info client context (
      field "clientId" (str client.client_id) (
        field "allowedScopes" (arr (texts client.allowed_scopes)) (
          field "allowedClaims" (arr (texts client.allowed_claims))
            (field "allowRefreshTokens" (bool client.allow_refresh_tokens) end))))
  pure client

unfoldable pub update_client :
    String → AdminUpdateClientInput → AdminMutationContext → Action Client
update_client id input context = do
  clients ← gets (λ s. s.clients)
  client ← lift (existing_client id clients)
  update_found_client input context client

unfoldable pub set_client_status : String → ClientStatus → AdminMutationContext → Action Client
set_client_status id status context = do
  clients ← gets (λ s. s.clients)
  found ← lift (existing_client id clients)
  let client = record found { status = status }
  modify (save_client client)
  audit_client_mutation "admin.client.status_changed" AuditSeverity.info client context (
      field "clientId" (str client.client_id)
        (field "status" (str (client_status_name status)) end))
  pure client

module _ (p : Platform) where
  unfoldable pub create_client :
      AdminCreateClientInput → AdminMutationContext → String → Action Client
  create_client input context ulid = do
    client_id ← lift (normalize_required input.client_id "clientId")
    clients ← gets (λ s. s.clients)
    lift (assert_client_id_available client_id clients)
    name ← lift (normalize_required input.name "name")
    scopes ← lift (normalize_string_list (default_to ("openid" ∷ []) input.allowed_scopes))
    claims ← lift (normalize_string_list (default_to ("sub" ∷ []) input.allowed_claims))
    access ← lift (
        normalize_positive_integer "accessTokenTtlSeconds"
          (default_to (natural 900) input.access_token_ttl_seconds))
    id ← lift (
        normalize_positive_integer "idTokenTtlSeconds"
          (default_to (natural 900) input.id_token_ttl_seconds))
    policy ← lift (
        build_refresh_token_policy input.refresh_token_idle_ttl_seconds
          input.refresh_token_absolute_ttl_seconds (default_to false input.allow_refresh_tokens))
    let client : Client = record {
      id = prefixed_ulid p "cli" ulid;
      client_id = client_id;
      client_secret_hash = none;
      name = name;
      type = default_to ClientType.confidential input.type;
      status = ClientStatus.active;
      allowed_scopes = scopes;
      allowed_claims = claims;
      require_pkce = default_to true input.require_pkce;
      allow_refresh_tokens = policy.allow_refresh_tokens;
      access_token_ttl_seconds = access;
      id_token_ttl_seconds = id;
      refresh_token_idle_ttl_seconds = policy.refresh_token_idle_ttl_seconds;
      refresh_token_absolute_ttl_seconds = policy.refresh_token_absolute_ttl_seconds;
      owner_team = normalize_optional input.owner_team;
    }
    modify (save_client client)
    audit_client_mutation "admin.client.created" AuditSeverity.info client context (
        field "clientId" (str client.client_id) (
          field "type" (str (type_name client.type))
            (field "status" (str (client_status_name client.status)) end)))
    pure client

  -- `generateClientSecret`
  abbrev pub new_secret : List ℕ → String
  new_secret raw_bytes = concat "oidc_secret_" (p.base64url raw_bytes)

  -- `rotateClientSecret`: the new secret, which is stored as its hash.
  unfoldable pub rotate_client_secret :
      String → AdminMutationContext → List ℕ → Action (String × String)
  rotate_client_secret id context raw_bytes = do
    clients ← gets (λ s. s.clients)
    found ← lift (existing_client id clients)
    lift (
        require (not (is_public found.type))
          (bad_request "Only confidential clients can have client secrets."))
    let client = record found { client_secret_hash = some (hash_secret p (new_secret raw_bytes)) }
    modify (save_client client)
    audit_client_mutation "client.secret.rotated" AuditSeverity.warning client context
        (field "clientId" (str client.client_id) end)
    pure (client.client_id, new_secret raw_bytes)

  abbrev assert_web_url : Option (String × String) → Result (Unit {0})
  assert_web_url none = err (bad_request "Redirect URI must be an absolute URL.")
  assert_web_url (some (protocol, hash)) =
      if not (protocol == "https:") && not (protocol == "http:")
      then err (bad_request "Redirect URI must use http or https.")
      else if not (is_empty hash)
      then err (bad_request "Redirect URI must not include a fragment.")
      else ok tt

  unfoldable pub normalize_redirect_uri : String → Action String
  normalize_redirect_uri uri = do
    normalized ← lift (normalize_required uri "uri")
    lift (assert_web_url (p.url_parts normalized))
    pure normalized

  abbrev pub has_uri : String → String → RedirectUri → Bool
  has_uri client_id uri r = r.client_id == client_id && r.uri == uri

  unfoldable pub add_redirect_uri :
      String → String → AdminMutationContext → String → Action RedirectUri
  add_redirect_uri id input context ulid = do
    clients ← gets (λ s. s.clients)
    client ← lift (existing_client id clients)
    uri ← normalize_redirect_uri input
    existing ← gets (λ s. find_one (has_uri client.id uri) s.redirect_uris)
    lift (require (not (is_some existing)) (conflict "Redirect URI is already registered."))
    let redirect : RedirectUri = record {
      id = prefixed_ulid p "rdu" ulid;
      client_id = client.id;
      uri = uri;
    }
    modify (λ s. record s { redirect_uris = save (λ r. r.id) redirect s.redirect_uris })
    audit_client_mutation "admin.client.redirect_uri_added" AuditSeverity.info client context (
        field "clientId" (str client.client_id)
          (field "redirectUriId" (str redirect.id) (field "uri" (str redirect.uri) end)))
    pure redirect

unfoldable pub remove_redirect_uri : String → String → AdminMutationContext → Action (Unit {0})
remove_redirect_uri id redirect_uri_id context = do
  clients ← gets (λ s. s.clients)
  client ← lift (existing_client id clients)
  found ←
      gets
        (λ s. find_one (λ r. r.id == redirect_uri_id && r.client_id == client.id) s.redirect_uris)
  redirect ← lift (or_throw found (not_found "Redirect URI not found."))
  modify (λ s. record s { redirect_uris = remove_rows (λ r. r.id == redirect.id) s.redirect_uris })
  audit_client_mutation "admin.client.redirect_uri_removed" AuditSeverity.info client context (
      field "clientId" (str client.client_id)
        (field "redirectUriId" (str redirect_uri_id) (field "uri" (str redirect.uri) end)))
