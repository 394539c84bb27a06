-- ===== src/Sessions.antt =====
-- authentication/provider-session.service.ts: the sessions that the authorization endpoint resumes.
pub mod Resumption
use oid.Shared.{ℕ, String, ◌==◌, List, Option, none, some, is_some, find_one, save, if◌then◌else◌}
use oid.Platform.{Platform, hash_secret, prefixed_ulid, add_seconds}
use oid.Store.{Store, Action, ok, pure, gets, modify, ◌>>=◌, ◌>>◌, ProviderSession}
use oid.Oidc.Authorization.{save_session}

pub record SessionLifetimes : Type 0 where
  pub idle_ttl_seconds : ℕ
  pub absolute_ttl_seconds : ℕ

pub record IssueSessionInput : Type 0 where
  pub user_id : String
  pub auth_time : ℕ
  pub ip_address : Option String
  pub user_agent : Option String

-- What randomBytes(32) and ulid draw for a session.
pub record FreshSession : Type 0 where
  pub raw_bytes : List ℕ
  pub session_ulid : String

pub record IssuedSession : Type 0 where
  pub session : ProviderSession
  pub token : String

module _ (p : Platform) where
  abbrev pub new_session : SessionLifetimes → IssueSessionInput → FreshSession → ℕ → ProviderSession
  new_session lifetimes input fresh now = record {
    id = prefixed_ulid p "psn" fresh.session_ulid;
    user_id = input.user_id;
    session_hash = hash_secret p (p.base64url fresh.raw_bytes);
    last_seen_at = now;
    auth_time = input.auth_time;
    idle_expires_at = add_seconds now lifetimes.idle_ttl_seconds;
    absolute_expires_at = add_seconds now lifetimes.absolute_ttl_seconds;
    revoked_at = none;
    revocation_reason = none;
    ip_address = input.ip_address;
    user_agent = input.user_agent;
  }

  -- `ProviderSessionService.issue`
  unfoldable pub issue_session :
      SessionLifetimes → IssueSessionInput → FreshSession → ℕ → Action IssuedSession
  issue_session lifetimes input fresh now = do
    let session = new_session lifetimes input fresh now
    modify (save_session session)
    pure (record { session = session; token = p.base64url fresh.raw_bytes })

  abbrev pub revoked_session : ProviderSession → String → ℕ → ProviderSession
  revoked_session session reason now = record session {
    revoked_at = some now;
    revocation_reason = some reason;
  }

  store_revoked : ProviderSession → String → ℕ → Action (Option ProviderSession)
  store_revoked session reason now = do
    modify (save_session (revoked_session session reason now))
    pure (some (revoked_session session reason now))

  revoke_stored : Option ProviderSession → String → ℕ → Action (Option ProviderSession)
  unfolding store_revoked
  revoke_stored none reason now = pure none
  revoke_stored (some session) reason now =
      if is_some session.revoked_at then pure none else store_revoked session reason now

  -- `ProviderSessionService.revoke`
  unfoldable pub revoke_session : String → String → ℕ → Action (Option ProviderSession)
  unfolding revoke_stored
  revoke_session token reason now = do
    found ← gets (λ s. find_one (λ r. r.session_hash == hash_secret p token) s.sessions)
    revoke_stored found reason now
