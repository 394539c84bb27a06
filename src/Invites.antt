-- ===== src/Invites.antt =====
-- admin/admin-invite.service.ts and authentication/invite-accept.service.ts: links by mail with which a
-- user sets the first password. How the mail went is an argument, as is what randomBytes(32) and ulid
-- draw.
pub mod Acceptance
use oid.Shared.{
  ℕ, String, ◌==◌, Bool, true, false, not, ◌&&◌, ◌||◌, leb, is_some, is_empty, concat, List, Option,
  none, some, find_one, update_rows, save, if◌then◌else◌,
}
use oid.Json.{str, obj, end, field}
use oid.Platform.{Platform, hash_secret, prefixed_ulid}
use oid.Store.{
  Store, Action, Result, ok, err, pure, gets, lift, modify, require, or_throw, ◌>>=◌, ◌>>◌,
  bad_request, not_found, unexpected, HttpException, User, UserStatus, UserInvite,
}
use oid.Audit.{record_event, no_event}
use oid.Credentials.{CredentialDraw, upsert_credential}
use oid.Resets.{PasswordResetRequestContext, own_event, add_hours, assert_long, credential_of}
use oid.Admin.Common.{AdminMutationContext}

-- The mail was sent, or it failed, perhaps with a message.
pub data MailOutcome : Type 0 where
  sent : MailOutcome
  failed : Option String → MailOutcome

pub record InviteDraw : Type 0 where
  pub raw_bytes : List ℕ
  pub ulid : String
  pub mail : MailOutcome

abbrev pub is_deactivated : UserStatus → Bool
is_deactivated UserStatus.deactivated = true
is_deactivated _ = false

abbrev pub assert_sent : MailOutcome → Result (Unit {0})
assert_sent sent = ok tt
assert_sent (failed (some message)) =
    err (bad_request (concat "Could not send the invite email: " message))
assert_sent (failed none) = err (bad_request "Could not send the invite email.")

-- `{ userId, consumedAt: IsNull(), revokedAt: IsNull() }`
abbrev pub is_open_invite : String → UserInvite → Bool
is_open_invite user_id r =
    r.user_id == user_id && not (is_some r.consumed_at) && not (is_some r.revoked_at)

abbrev pub supersede_invite : ℕ → UserInvite → UserInvite
supersede_invite now r = record r { revoked_at = some now }

abbrev pub save_invite : UserInvite → Store → Store
save_invite r s = record s { invites = save (λ x. x.id) r s.invites }

module _ (p : Platform) (invite_ttl_hours : ℕ) where
  abbrev pub new_invite : User → AdminMutationContext → InviteDraw → ℕ → UserInvite
  new_invite user context draw now = record {
    id = prefixed_ulid p "inv" draw.ulid;
    user_id = user.id;
    token_hash = hash_secret p (p.base64url draw.raw_bytes);
    invited_by_user_id = context.principal.user.id;
    expires_at = add_hours now invite_ttl_hours;
    consumed_at = none;
    revoked_at = none;
  }

  unfoldable pub create_invite : String → AdminMutationContext → InviteDraw → ℕ → Action (Unit {0})
  create_invite user_id context draw now = do
    found ← gets (λ s. find_one (λ u. u.id == user_id) s.users)
    user ← lift (or_throw found (not_found "User not found."))
    lift (
        require (not (user.id == context.principal.user.id))
          (bad_request "You cannot send yourself an invite."))
    lift (
        require (not (is_deactivated user.status))
          (bad_request "Cannot invite a deactivated user."))
    lift (assert_sent draw.mail)
    modify (λ s. record s {
      invites = update_rows (is_open_invite user.id) (supersede_invite now) s.invites;
    })
    modify (save_invite (new_invite user context draw now))
    record_event (record no_event {
      event_type = "admin.user.invited";
      actor_user_id = some context.principal.user.id;
      target_user_id = some user.id;
      ip_address = context.ip_address;
      user_agent = context.user_agent;
      metadata_json =
          some (obj (field "expiresAt" (str (p.iso_string (add_hours now invite_ttl_hours))) end));
    })

abbrev pub invalid_invite : HttpException
invalid_invite = not_found "This invite link is invalid or has expired."

abbrev pub assert_valid_invite : UserInvite → ℕ → Result (Unit {0})
assert_valid_invite r now =
    if is_some r.revoked_at || is_some r.consumed_at || leb r.expires_at now
    then err invalid_invite
    else ok tt

abbrev pub is_pending : UserStatus → Bool
is_pending UserStatus.pending = true
is_pending _ = false

-- The user after the link is accepted: active, if the account was waiting for that, and with a verified
-- address.
unfoldable pub accepted_user : User → ℕ → User
accepted_user u now = record u {
  status = if is_pending u.status then UserStatus.active else u.status;
  email_verified_at = if is_some u.email_verified_at then u.email_verified_at else some now;
}

module _ (p : Platform) where
  abbrev pub invite_of : String → List UserInvite → Option UserInvite
  invite_of token invites =
      if is_empty token then none else find_one (λ r. r.token_hash == hash_secret p token) invites

  -- `resolveValidInvite`, with the relation `user`, which the callers read.
  unfoldable pub resolve_valid_invite : String → ℕ → Action (UserInvite × User)
  resolve_valid_invite token now = do
    found ← gets (λ s. invite_of token s.invites)
    invite ← lift (or_throw found invalid_invite)
    lift (assert_valid_invite invite now)
    found_user ← gets (λ s. find_one (λ u. u.id == invite.user_id) s.users)
    user ← lift (or_throw found_user unexpected)
    pure (invite, user)

  -- `getInvite`: the e-mail address and the name of the invited user.
  unfoldable pub get_invite : String → ℕ → Action (String × String)
  get_invite token now = do
    valid ← resolve_valid_invite token now
    pure (valid.1.email, valid.1.display_name)

  -- The user is saved if a column changed.
  abbrev pub save_if_changed : User → ℕ → Action (Unit {0})
  save_if_changed user now =
      if is_pending user.status || not (is_some user.email_verified_at)
      then modify (λ s. record s { users = save (λ u. u.id) (accepted_user user now) s.users })
      else pure tt

  abbrev pub finish_accept :
      UserInvite
      → User
      → String
      → PasswordResetRequestContext
      → CredentialDraw
      → ℕ
      → Action (Unit {0})
  finish_accept invite user password context draw now = do
    upsert_credential p (credential_of p user password) draw
    modify (save_invite (record invite { consumed_at = some now }))
    save_if_changed user now
    record_event
        (record (own_event "user.invite.accepted" user context) { metadata_json = some (obj end) })

  unfoldable pub accept_invite :
      String → String → PasswordResetRequestContext → CredentialDraw → ℕ → Action (Unit {0})
  accept_invite token password context draw now = do
    valid ← resolve_valid_invite token now
    lift (assert_long password)
    finish_accept valid.0 valid.1 password context draw now
