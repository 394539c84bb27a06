-- ===== src/Examples/SessionRuns.antt =====
-- A session that is issued, and one that is revoked.
use oid.Shared.{[], ◌∷◌, none, some, ◌≡◌, refl, arith}
use oid.Store.{Store, ok}
use oid.Oidc.SessionLookup.{resolve_provider_session}
use oid.Sessions.{
  SessionLifetimes, IssueSessionInput, FreshSession, new_session, issue_session, revoke_session,
}
use oid.Sessions.Resumption
use oid.Sessions.Resumption.{IsNewSession}
use oid.Examples.Host.{host}
use oid.Examples.Rows.{rows}

abbrev pub lifetimes : SessionLifetimes
lifetimes = record { idle_ttl_seconds = 10; absolute_ttl_seconds = 20 }

abbrev input : IssueSessionInput
input = record { user_id = "usr_1"; auth_time = 1000; ip_address = none; user_agent = none }

abbrev pub fresh : FreshSession
fresh = record { raw_bytes = 1 ∷ 2 ∷ []; session_ulid = "1" }

session-IsNewSession : IsNewSession host fresh rows (new_session host lifetimes input fresh 1000)
session-IsNewSession = record { new_id = tt; new_hash = tt; full = refl }

resolve_provider_session-issue_session_example :
    let t = (issue_session host lifetimes input fresh 1000 rows).1 in
    resolve_provider_session host (some "ABAAB") 5000 t
    ≡ (ok (some (new_session host lifetimes input fresh 1000)), t)
resolve_provider_session-issue_session_example =
    Resumption.resolve_provider_session-issue_session host lifetimes input fresh 1000 5000 rows
      session-IsNewSession (omega arith) (omega arith)

abbrev signed_in : Store
signed_in = record rows { sessions = new_session host lifetimes input fresh 1000 ∷ [] }

resolve_provider_session-revoke_session_example :
    let t = (revoke_session host "ABAAB" "logout" 2000 signed_in).1 in
    resolve_provider_session host (some "ABAAB") 3000 t ≡ (ok none, t)
resolve_provider_session-revoke_session_example =
    Resumption.resolve_provider_session-revoke_session host "ABAAB" "logout" 2000 3000 signed_in
      (tt, tt)
