-- ===== src/Resets.antt =====
-- authentication/password-reset.service.ts: links by mail that set a new password once.
-- Whether the mail was sent is an argument, as is what randomBytes(32) and ulid draw.
pub mod Completion
pub mod Newest
use oid.Shared.{
  ℕ, ◌*◌, ◌+◌, String, ◌==◌, Bool, not, ◌&&◌, ◌||◌, leb, ltb, is_some, is_empty, trim, utf16_length,
  List, Option, none, some, find_one, update_rows, save, if◌then◌else◌,
}
use oid.Json.{str, obj, end, field}
use oid.Platform.{Platform, hash_secret, prefixed_ulid}
use oid.Store.{
  Store, Action, Result, ok, err, pure, gets, lift, modify, require, or_throw, ◌>>=◌, ◌>>◌,
  bad_request, not_found, unexpected, HttpException, User, is_active_user, PasswordReset,
  AuditEvent,
}
use oid.Audit.{record_event, no_event}
use oid.Closing.{close_all}
use oid.Credentials.{UpsertBetterAuthCredentialInput, CredentialDraw, upsert_credential}

pub record PasswordResetRequestContext : Type 0 where
  pub ip_address : Option String
  pub user_agent : Option String

-- What a request draws, and whether the mail was sent.
pub record ResetDraw : Type 0 where
  pub raw_bytes : List ℕ
  pub ulid : String
  pub mail_sent : Bool

abbrev pub generic_reset_error : HttpException
generic_reset_error = not_found "This reset link is invalid or has expired."

-- The columns of an event about the user's own account.
abbrev pub own_event : String → User → PasswordResetRequestContext → AuditEvent
own_event event_type user context = record no_event {
  event_type = event_type;
  actor_user_id = some user.id;
  target_user_id = some user.id;
  ip_address = context.ip_address;
  user_agent = context.user_agent;
}

-- `{ userId, consumedAt: IsNull(), revokedAt: IsNull() }`
abbrev pub is_open_reset : String → PasswordReset → Bool
is_open_reset user_id r =
    r.user_id == user_id && not (is_some r.consumed_at) && not (is_some r.revoked_at)

abbrev pub supersede_reset : ℕ → PasswordReset → PasswordReset
supersede_reset now r = record r { revoked_at = some now }

abbrev pub save_reset : PasswordReset → Store → Store
save_reset r s = record s { resets = save (λ x. x.id) r s.resets }

-- new Date(now.getTime() + hours * 60 * 60 * 1000)
abbrev pub add_hours : ℕ → ℕ → ℕ
add_hours now hours = now + hours * 60 * 60 * 1000

abbrev pub assert_valid_reset : PasswordReset → ℕ → Result (Unit {0})
assert_valid_reset r now =
    if is_some r.revoked_at || is_some r.consumed_at || leb r.expires_at now
    then err generic_reset_error
    else ok tt

abbrev pub assert_long : String → Result (Unit {0})
assert_long password =
    if ltb (utf16_length password) 8
    then err (bad_request "Password must be at least 8 characters.")
    else ok tt

module _ (p : Platform) (reset_ttl_hours : ℕ) where
  abbrev pub new_reset : User → ResetDraw → ℕ → PasswordReset
  new_reset user draw now = record {
    id = prefixed_ulid p "pwr" draw.ulid;
    user_id = user.id;
    token_hash = hash_secret p (p.base64url draw.raw_bytes);
    expires_at = add_hours now reset_ttl_hours;
    consumed_at = none;
    revoked_at = none;
  }

  store_reset : User → PasswordResetRequestContext → ResetDraw → ℕ → Action (Unit {0})
  store_reset user context draw now = do
    modify (λ s. record s {
      resets = update_rows (is_open_reset user.id) (supersede_reset now) s.resets;
    })
    modify (save_reset (new_reset user draw now))
    record_event (record (own_event "user.password_reset.requested" user context) {
      metadata_json =
          some (obj (field "expiresAt" (str (p.iso_string (add_hours now reset_ttl_hours))) end));
    })

  request_for : Option User → PasswordResetRequestContext → ResetDraw → ℕ → Action (Unit {0})
  request_for none context draw now = pure tt
  request_for (some user) context draw now =
      if is_active_user user.status && draw.mail_sent
      then store_reset user context draw now
      else pure tt

  -- `requestReset`: the caller learns nothing of how it went.
  unfoldable pub request_reset :
      String → PasswordResetRequestContext → ResetDraw → ℕ → Action (Unit {0})
  unfolding store_reset request_for
  request_reset email context draw now = do
    user ← gets (λ s. find_one (λ u. u.normalized_email == p.to_lower_case (trim email)) s.users)
    request_for user context draw now

module _ (p : Platform) where
  abbrev pub reset_of : String → List PasswordReset → Option PasswordReset
  reset_of token resets =
      if is_empty token then none else find_one (λ r. r.token_hash == hash_secret p token) resets

  unfoldable pub resolve_valid_reset : String → ℕ → Action (PasswordReset × User)
  resolve_valid_reset token now = do
    found ← gets (λ s. reset_of token s.resets)
    reset ← lift (or_throw found generic_reset_error)
    lift (assert_valid_reset reset now)
    found_user ← gets (λ s. find_one (λ u. u.id == reset.user_id) s.users)
    user ← lift (or_throw found_user unexpected)
    lift (require (is_active_user user.status) generic_reset_error)
    pure (reset, user)

  -- `getReset`: the e-mail address that the link is for.
  unfoldable pub get_reset : String → ℕ → Action String
  get_reset token now = do valid ← resolve_valid_reset token now; pure valid.1.email

  abbrev pub credential_of : User → String → UpsertBetterAuthCredentialInput
  credential_of user password = record {
    user_id = user.id;
    email = user.email;
    display_name = user.display_name;
    password = password;
  }

  abbrev pub finish_reset :
      PasswordReset
      → User
      → String
      → PasswordResetRequestContext
      → CredentialDraw
      → ℕ
      → Action (Unit {0})
  finish_reset reset user password context draw now = do
    upsert_credential p (credential_of user password) draw
    modify (save_reset (record reset { consumed_at = some now }))
    close_all user.id now "password_reset"
    record_event (record (own_event "user.password_reset.completed" user context) {
      metadata_json = some (obj end);
    })

  unfoldable pub reset_password :
      String → String → PasswordResetRequestContext → CredentialDraw → ℕ → Action (Unit {0})
  reset_password token password context draw now = do
    valid ← resolve_valid_reset token now
    lift (assert_long password)
    finish_reset valid.0 valid.1 password context draw now
