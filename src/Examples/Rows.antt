-- ===== src/Examples/Rows.antt =====
-- A user, a client, codes and tokens for the runs.
use oid.Shared.{[], ◌∷◌, none, some, true}
use oid.Json.{end}
use oid.Store.{
  Store, User, employee, UserStatus, Client, ClientType, ClientStatus, AuthorizationCode,
  RefreshToken, SigningKey, SigningKeyStatus,
}
use oid.Platform.{hash_secret, hash_base64url}
use oid.Sealing.{seal}
use oid.Tokens.{Fresh}
use oid.Oidc.Jwt.{FreshKey}
use oid.Oidc.Token.{FreshTokens}
use oid.Examples.Host.{host}

abbrev pub user : User
user = record {
  id = "usr_1";
  email = "a";
  normalized_email = "a";
  email_verified_at = none;
  username = none;
  normalized_username = none;
  display_name = "b";
  given_name = none;
  family_name = none;
  profile_type = employee;
  status = UserStatus.active;
  deactivated_at = none;
}

abbrev pub client : Client
client = record {
  id = "cli_1";
  client_id = "app";
  client_secret_hash = some (hash_secret host "abc");
  name = "App";
  type = ClientType.confidential;
  status = ClientStatus.active;
  allowed_scopes = "openid" ∷ "email" ∷ "offline_access" ∷ [];
  allowed_claims = "email" ∷ [];
  require_pkce = true;
  allow_refresh_tokens = true;
  access_token_ttl_seconds = 60;
  id_token_ttl_seconds = 60;
  refresh_token_idle_ttl_seconds = some 10;
  refresh_token_absolute_ttl_seconds = some 20;
  owner_team = none;
}

abbrev pub code : AuthorizationCode
code = record {
  id = "cod_1";
  code_hash = hash_secret host "bca";
  client_id = "cli_1";
  user_id = "usr_1";
  provider_session_id = "ses_1";
  redirect_uri = "https://app";
  scope = "openid email offline_access";
  code_challenge = hash_base64url host "acb";
  nonce = some "n";
  auth_time = 1000;
  expires_at = 9000;
  consumed_at = none;
}

abbrev pub token : RefreshToken
token = record {
  id = "rtk_1";
  token_hash = hash_secret host "abc";
  upstream_refresh_token_ciphertext = none;
  user_id = "usr_1";
  client_id = "cli_1";
  provider_session_id = some "ses_1";
  parent_token_id = none;
  rotated_to_token_id = none;
  family_id = "rtf_1";
  issued_at = 1000;
  last_used_at = none;
  idle_expires_at = 11000;
  absolute_expires_at = 21000;
  revoked_at = none;
  revocation_reason = none;
}

-- A token that was rotated away, of the same family.
abbrev pub old_token : RefreshToken
old_token = record token {
  id = "rtk_0";
  token_hash = hash_secret host "bbb";
  rotated_to_token_id = some "rtk_1";
  revoked_at = some 1000;
  revocation_reason = some "rotated";
}

abbrev pub key : SigningKey
key = record {
  id = "sig_1";
  kid = "kid_1";
  algorithm = "RS256";
  public_jwk = end;
  encrypted_private_key = seal host (1 ∷ []) "abc";
  status = SigningKeyStatus.active;
  activated_at = some 1;
  retired_at = none;
}

abbrev pub rows : Store
rows = record {
  users = user ∷ [];
  clients = client ∷ [];
  redirect_uris = [];
  sessions = [];
  codes = code ∷ [];
  refresh_tokens = token ∷ old_token ∷ [];
  signing_keys = key ∷ [];
  audit_events = [];
  groups = [];
  memberships = [];
  post_logout_uris = [];
  invites = [];
  resets = [];
  auth_users = [];
  auth_accounts = [];
}

abbrev pub fresh : Fresh
fresh = record { raw_bytes = 1 ∷ 5 ∷ []; iv = 3 ∷ []; token_ulid = "2"; family_ulid = "2" }

-- What a second rotation draws.
abbrev pub fresh' : Fresh
fresh' = record { raw_bytes = 1 ∷ 6 ∷ []; iv = 3 ∷ []; token_ulid = "3"; family_ulid = "3" }

abbrev pub fresh_key : FreshKey
fresh_key = record {
  public_jwk = end;
  private_key_pem = "abc";
  kid_ulid = "2";
  id_ulid = "2";
  iv = 3 ∷ [];
  made_at = 5000;
}

abbrev pub fresh_tokens : FreshTokens
fresh_tokens = record { key = fresh_key; refresh = fresh }
