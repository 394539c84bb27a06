-- ===== src/Store/Entities.antt =====
-- src/database/entities: the rows that the services read and write. The columns `createdAt` and
-- `updatedAt`, which no modelled service reads, and the entity relations, which repeat the id
-- columns, are left out. A nullable column is an `Option`, a Date its number of milliseconds.
use oid.Shared.{ℕ, String, Bool, true, false, List, Option}
use oid.Json.{Json, Fields}

pub data UserProfileType : Type 0 where
  employee contractor service : UserProfileType

pub data UserStatus : Type 0 where
  pending active suspended deactivated : UserStatus

abbrev pub is_active_user : UserStatus → Bool
is_active_user UserStatus.active = true
is_active_user _ = false

-- user.entity.ts
pub record User : Type 0 where
  pub id : String
  pub email : String
  pub normalized_email : String
  pub email_verified_at : Option ℕ
  pub username : Option String
  pub normalized_username : Option String
  pub display_name : String
  pub given_name : Option String
  pub family_name : Option String
  pub profile_type : UserProfileType
  pub status : UserStatus
  pub deactivated_at : Option ℕ

pub data ClientType : Type 0 where
  confidential public : ClientType

pub data ClientStatus : Type 0 where
  active disabled : ClientStatus

abbrev pub is_active_client : ClientStatus → Bool
is_active_client ClientStatus.active = true
is_active_client _ = false

abbrev pub is_public : ClientType → Bool
is_public public = true
is_public confidential = false

-- oidc-client.entity.ts
pub record Client : Type 0 where
  pub id : String
  pub client_id : String
  pub client_secret_hash : Option String
  pub name : String
  pub type : ClientType
  pub status : ClientStatus
  pub allowed_scopes : List String
  pub allowed_claims : List String
  pub require_pkce : Bool
  pub allow_refresh_tokens : Bool
  pub access_token_ttl_seconds : ℕ
  pub id_token_ttl_seconds : ℕ
  pub refresh_token_idle_ttl_seconds : Option ℕ
  pub refresh_token_absolute_ttl_seconds : Option ℕ
  pub owner_team : Option String

-- oidc-redirect-uri.entity.ts
pub record RedirectUri : Type 0 where
  pub id : String
  pub client_id : String
  pub uri : String

-- oidc-provider-session.entity.ts
pub record ProviderSession : Type 0 where
  pub id : String
  pub user_id : String
  pub session_hash : String
  pub last_seen_at : ℕ
  pub auth_time : ℕ
  pub idle_expires_at : ℕ
  pub absolute_expires_at : ℕ
  pub revoked_at : Option ℕ
  pub revocation_reason : Option String
  pub ip_address : Option String
  pub user_agent : Option String

-- oidc-authorization-code.entity.ts. The challenge method has the one value S256.
pub record AuthorizationCode : Type 0 where
  pub id : String
  pub code_hash : String
  pub client_id : String
  pub user_id : String
  pub provider_session_id : String
  pub redirect_uri : String
  pub scope : String
  pub code_challenge : String
  pub nonce : Option String
  pub auth_time : ℕ
  pub expires_at : ℕ
  pub consumed_at : Option ℕ

-- oidc-refresh-token.entity.ts
pub record RefreshToken : Type 0 where
  pub id : String
  pub token_hash : String
  pub upstream_refresh_token_ciphertext : Option String
  pub user_id : String
  pub client_id : String
  pub provider_session_id : Option String
  pub parent_token_id : Option String
  pub rotated_to_token_id : Option String
  pub family_id : String
  pub issued_at : ℕ
  pub last_used_at : Option ℕ
  pub idle_expires_at : ℕ
  pub absolute_expires_at : ℕ
  pub revoked_at : Option ℕ
  pub revocation_reason : Option String

pub data SigningKeyStatus : Type 0 where
  pending active retiring retired compromised : SigningKeyStatus

abbrev pub is_active_key : SigningKeyStatus → Bool
is_active_key SigningKeyStatus.active = true
is_active_key _ = false

-- signing-key.entity.ts
pub record SigningKey : Type 0 where
  pub id : String
  pub kid : String
  pub algorithm : String
  pub public_jwk : Fields
  pub encrypted_private_key : String
  pub status : SigningKeyStatus
  pub activated_at : Option ℕ
  pub retired_at : Option ℕ

pub data AuditSeverity : Type 0 where
  info warning critical : AuditSeverity

-- audit-event.entity.ts, less the generated `id`.
pub record AuditEvent : Type 0 where
  pub event_type : String
  pub severity : AuditSeverity
  pub actor_user_id : Option String
  pub target_user_id : Option String
  pub client_id : Option String
  pub provider_session_id : Option String
  pub ip_address : Option String
  pub user_agent : Option String
  pub metadata_json : Option Json

-- group.entity.ts
pub record Group : Type 0 where
  pub id : String
  pub slug : String
  pub display_name : String
  pub description : Option String

-- group-membership.entity.ts. The primary key is the pair of the ids.
pub record Membership : Type 0 where
  pub user_id : String
  pub group_id : String
  pub created_by_id : Option String

-- oidc-post-logout-redirect-uri.entity.ts
pub record PostLogoutUri : Type 0 where
  pub id : String
  pub client_id : String
  pub uri : String

-- user-invite.entity.ts
pub record UserInvite : Type 0 where
  pub id : String
  pub user_id : String
  pub token_hash : String
  pub invited_by_user_id : String
  pub expires_at : ℕ
  pub consumed_at : Option ℕ
  pub revoked_at : Option ℕ

-- password-reset.entity.ts
pub record PasswordReset : Type 0 where
  pub id : String
  pub user_id : String
  pub token_hash : String
  pub expires_at : ℕ
  pub consumed_at : Option ℕ
  pub revoked_at : Option ℕ

-- A row of better-auth's table "user": the columns that the services write and look up.
pub record AuthUser : Type 0 where
  pub id : String
  pub name : String
  pub email : String
  pub email_verified : Bool

-- A row of better-auth's table "account".
pub record AuthAccount : Type 0 where
  pub id : String
  pub account_id : String
  pub provider_id : String
  pub user_id : String
  pub password : Option String
