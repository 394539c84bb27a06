-- ===== src/Examples/LimitRuns.antt =====
-- Requests and failed logins that run into their limits, and an authorization request.
use oid.Shared.{
  ℕ, ◌≤◌, String, List, [], ◌∷◌, Option, none, some, ◌≡◌, refl, arith, All, includes, true, split,
  join, trim, find_one, save,
}
use oid.Platform.{hash_secret}
use oid.Store.{ok, err, too_many_requests, RedirectUri, ProviderSession, Store}
use oid.RateLimit.{
  TokenLimits, LoginLimits, LoginBuckets, get, assert_login_allowed, record_success,
}
use oid.RateLimit.TokenWindow
use oid.RateLimit.TokenWindow.{passed}
use oid.RateLimit.LoginWindow
use oid.RateLimit.LoginWindow.{record_failures}
use oid.Oidc.Claims.{has_scope}
use oid.Oidc.Scopes.{validate_scopes, words_of, keep_full, trim_each, find_disallowed, distinct}
use oid.Oidc.ScopeRoundTrip
use oid.Oidc.SessionLookup.{resolve_provider_session, live_session}
use oid.Oidc.Authorization.{
  AuthorizeRequest, FreshCode, authorize, authorize_wanted, authorize_client, resume_session,
  grant_code,
}
use oid.Oidc.Input.{normalize_required}
use oid.Tokens.{active_user}
use oid.Audit.{record_event}
use oid.Oidc.Grant
use oid.Oidc.Grant.{IsEntitled}
use oid.Examples.Host.{host}
use oid.Examples.Rows.{rows}

abbrev limits : TokenLimits
limits = record { window_ms = 1000; ip_max_attempts = 2 }

abbrev requests : List (Option String × ℕ)
requests = (some "a", 10) ∷ (some "b", 11) ∷ (none, 12) ∷ (some "a", 13) ∷ []

closed : TokenWindow.IsClosed limits "a" refl 5 []
unfolding get
closed b e = absurd (none-≢-some e)
  where
    none-≢-some : none ≡ some b → ⊥
    none-≢-some e = cc

passed-window_lem_example : passed limits "a" ((some "a", 5) ∷ requests) [] ≤ 2
passed-window_lem_example =
    TokenWindow.passed-window_lem limits "a" refl 5 requests [] closed (omega arith)
      (omega arith, (omega arith, (omega arith, (omega arith, tt))))

abbrev login_limits : LoginLimits
login_limits = record { window_ms = 1000; ip_max_attempts = 5; account_max_attempts = 2 }

abbrev no_buckets : LoginBuckets
no_buckets = record { accounts = []; ips = [] }

assert_login_allowed-record_failures_example :
    let locked =
      record_failures login_limits "a"
        ((some "x", 5) ∷ (none, 10) ∷ [])
        (record_success (some "x") "a" no_buckets) in
    assert_login_allowed login_limits (some "y") "a" 900 locked
    ≡ (err (too_many_requests "Too many login attempts. Try again later."), locked)
unfolding LoginWindow.length
assert_login_allowed-record_failures_example =
    LoginWindow.assert_login_allowed-record_failures login_limits "a" (some "x") 5 ((none, 10) ∷ [])
      no_buckets (some "y") 900 (omega arith, tt) (omega arith) (omega arith)

assert_login_allowed-record_success_example :
    assert_login_allowed login_limits (some "x") "a" 900 (record_success (some "x") "a" no_buckets)
    ≡ (ok tt, record_success (some "x") "a" no_buckets)
assert_login_allowed-record_success_example =
    LoginWindow.assert_login_allowed-record_success login_limits "a" (some "x") 900 no_buckets

scopes-ok :
    validate_scopes (some "openid  email openid") ("openid" ∷ "email" ∷ []) ≡ ok "openid email"
unfolding validate_scopes includes words_of keep_full trim_each split trim find_disallowed join
    distinct
scopes-ok = refl

validate_scopes-split_example :
    All (λ w. includes w ("openid" ∷ "email" ∷ []) ≡ true) (split b' ' "openid email")
    × (has_scope "openid" "openid email" ≡ true)
validate_scopes-split_example =
    ScopeRoundTrip.validate_scopes-split (some "openid  email openid") ("openid" ∷ "email" ∷ [])
      "openid email" scopes-ok

abbrev redirect : RedirectUri
redirect = record { id = "uri_1"; client_id = "cli_1"; uri = "https://app" }

abbrev session : ProviderSession
session = record {
  id = "ses_1";
  user_id = "usr_1";
  session_hash = hash_secret host "bac";
  last_seen_at = 1000;
  auth_time = 1000;
  idle_expires_at = 9000;
  absolute_expires_at = 9000;
  revoked_at = none;
  revocation_reason = none;
  ip_address = none;
  user_agent = none;
}

abbrev signed_in : Store
signed_in = record rows { redirect_uris = redirect ∷ []; sessions = session ∷ [] }

abbrev authorization : AuthorizeRequest
authorization = record {
  response_type = some "code";
  client_id = some "app";
  redirect_uri = some "https://app";
  scope = some "openid email";
  state = some "s";
  code_challenge = some "acb";
  code_challenge_method = some "S256";
  nonce = none;
  prompt = none;
  provider_session_token = some "bac";
  original_url = "/authorize";
  ip_address = none;
  user_agent = none;
}

abbrev fresh_code : FreshCode
fresh_code = record { raw_bytes = 1 ∷ 2 ∷ []; code_ulid = "2" }

authorize-IsEntitled_example :
    IsEntitled host authorization fresh_code 2000 signed_in
      (authorize host authorization fresh_code 2000 signed_in)
authorize-IsEntitled_example =
    Grant.authorize-IsEntitled host authorization fresh_code 2000 signed_in

-- The request is granted.
granted : (authorize host authorization fresh_code 2000 signed_in).0 ≡ ok "https://app"
unfolding authorize normalize_required trim authorize_wanted find_one validate_scopes includes
    words_of keep_full trim_each split find_disallowed authorize_client resume_session
    resolve_provider_session live_session hash_secret active_user grant_code record_event save
granted = refl
