-- ===== src/Sessions/Resumption.antt =====
-- Which sessions the authorization endpoint resumes, after they are issued and after they are revoked.
use oid.Shared.{
  ℕ, ◌<◌, String, ◌==◌, eq_refl, ◌≡◌, ◌≢◌, refl, inl, inr, true, none, some, truthy, find_one,
  find_one-save_last, find_one-save_self, find_one-passes, IsFresh, HasUniqueKeys, All, All-imp,
  lt→leb, ==-eq-false, Bool-cases, Option-cases,
}
use oid.Platform.{Platform, hash_secret, add_seconds}
use oid.Store.{Store, ok, ProviderSession}
use oid.Oidc.SessionLookup.{live_session, resolve_provider_session}
use oid.Sessions.{
  SessionLifetimes, IssueSessionInput, FreshSession, new_session, issue_session, revoked_session,
  revoke_session,
}

-- The drawn id and hash are new to the table, and the drawn text is not empty.
pub record IsNewSession (p : Platform) (fresh : FreshSession) (s : Store)
    (session : ProviderSession) : Type 0 where
  pub new_id : IsFresh (λ r. r.id) session.id s.sessions
  pub new_hash : All (λ r. r.session_hash ≢ session.session_hash) s.sessions
  pub full : truthy (some (p.base64url fresh.raw_bytes)) ≡ true

-- The token of an issued session, whose id and hash are new, stands for that session until the
-- earlier of its expiries.
pub resolve_provider_session-issue_session :
    (p : Platform) (lifetimes : SessionLifetimes) (input : IssueSessionInput) (fresh : FreshSession)
    (now later : ℕ) (s : Store)
    → IsNewSession p fresh s (new_session p lifetimes input fresh now)
    → later < add_seconds now lifetimes.idle_ttl_seconds
    → later < add_seconds now lifetimes.absolute_ttl_seconds
    → let t = (issue_session p lifetimes input fresh now s).1 in
      resolve_provider_session p (some (p.base64url fresh.raw_bytes)) later t
      ≡ (ok (some (new_session p lifetimes input fresh now)), t)
unfolding resolve_provider_session live_session issue_session
resolve_provider_session-issue_session p lifetimes input fresh now later s new idle absolute =
    let session = new_session p lifetimes input fresh now in
    rw
      (
        new.full,
        find_one-save_last (λ r. r.id) (λ r. r.session_hash == session.session_hash) session
            s.sessions new.new_id
            (All-imp _ _ (λ r h. ==-eq-false r.session_hash session.session_hash h) s.sessions
              new.new_hash)
            (eq_refl session.session_hash),
        lt→leb _ _ idle,
        lt→leb _ _ absolute,
      )
      refl

-- Where ids are unique, a token that was revoked stands for no session, at any time.
pub resolve_provider_session-revoke_session :
    (p : Platform) (raw reason : String) (now later : ℕ) (s : Store)
    → HasUniqueKeys (λ r. r.id) s.sessions
    → let t = (revoke_session p raw reason now s).1 in
      resolve_provider_session p (some raw) later t ≡ (ok none, t)
unfolding resolve_provider_session live_session revoke_session
resolve_provider_session-revoke_session p raw reason now later s unique =
    elim (Bool-cases (truthy (some raw))) [
      | inr e ↦ rw e refl
      | inl e ↦
          elim (Option-cases (find_one (λ r. r.session_hash == hash_secret p raw) s.sessions)) [
            | inl f ↦ rw (e, f, f) refl
            | inr (session, f) ↦ elim (Option-cases session.revoked_at) [
              | inr (at, g) ↦ rw (e, f, g) (rw (f, g) refl)
              | inl g ↦
                  rw
                    (
                      e,
                      f,
                      g,
                      find_one-save_self (λ r. r.id) (λ r. r.session_hash == hash_secret p raw)
                          session (revoked_session p session reason now) s.sessions unique f refl
                          (find_one-passes (λ r. r.session_hash == hash_secret p raw) s.sessions f),
                    )
                    refl
            ]
          ]
    ]
