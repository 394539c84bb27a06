-- ===== src/Examples/LoginRuns.antt =====
-- A login, and the end of a session.
use oid.Shared.{split, concat, String, [], ◌∷◌, none, some, ◌≡◌, refl, find_one, trim}
use oid.Store.{Store, ok, PostLogoutUri}
use oid.Audit.{record_event}
use oid.Platform.{Platform, hash_secret}
use oid.Csrf.{same_bytes, generate_csrf_token}
use oid.RateLimit.{assert_login_allowed}
use oid.Cookies.{cookie}
use oid.Sessions.{issue_session, revoke_session}
use oid.Login.{
  Site, AuthenticationRequestContext, LoginSubmission, LoginSettings, accepted, build_return_to,
  login, logout, assert_login_csrf,
}
use oid.Login.Outcome
use oid.Login.Outcome.{Ends, IsLoggedIn, session_of}
use oid.Logout.{EndSessionInput, end_session, resolve_redirect_to}
use oid.Logout.Redirect
use oid.Logout.Redirect.{IsEnded}
use oid.Admin.Common.{normalize_optional}
use oid.Examples.Host.{host}
use oid.Examples.Rows.{rows, fresh_key}
use oid.Examples.AdminRuns.{office}
use oid.Examples.SessionRuns.{lifetimes, fresh}

abbrev settings : LoginSettings
settings = record {
  csrf_cookie_name = "csrf";
  limits = record { window_ms = 1000; ip_max_attempts = 10; account_max_attempts = 5 };
  lifetimes = lifetimes;
  sign_in = λ email password. accepted (some "usr_1");
}

abbrev form_token : String
form_token = generate_csrf_token host (1 ∷ 2 ∷ [])

abbrev context : AuthenticationRequestContext
context = record {
  ip_address = none;
  user_agent = none;
  cookies = ("csrf", form_token) ∷ ("session", "cab") ∷ [];
}

abbrev submission : LoginSubmission
submission = record { email = " a "; password = "abc"; csrf_token = form_token; return_to = none }

abbrev site : Site
site = record { store = rows; buckets = record { accounts = []; ips = [] } }

login-Ends_example :
    Ends host settings submission context fresh 1000 site
      (login host settings submission context fresh 1000 site)
login-Ends_example = Outcome.login-Ends host settings submission context fresh 1000 site

-- This login returns.
login_test :
    (login host settings submission context fresh 1000 site).0
    ≡ ok (record { redirect_to = "/"; session_token = host.base64url fresh.raw_bytes })
unfolding login assert_login_csrf generate_csrf_token same_bytes hash_secret cookie split trim
    find_one assert_login_allowed issue_session record_event build_return_to
    oid.RateLimit.is_blocked oid.RateLimit.get
login_test = refl

-- The path of another host, as a browser reads it, is kept.
return_to_test : build_return_to host (some "//evil.example") ≡ "//evil.example"
unfolding build_return_to
return_to_test = refl

abbrev after_uri : PostLogoutUri
after_uri = record { id = "plu_1"; client_id = "cli_1"; uri = "https://app/bye" }

abbrev signed_in_rows : Store
signed_in_rows = record office { post_logout_uris = after_uri ∷ [] }

abbrev end_input : EndSessionInput
end_input = record {
  context = context;
  id_token_hint = none;
  client_id = some "app";
  post_logout_redirect_uri = some "https://app/bye";
  state = some " c ";
}

-- A host that writes the parameter down.
abbrev stating_host : Platform
stating_host = record host { set_params = λ url params. some (concat url "?state=c") }

end-ok :
    (end_session stating_host "session" end_input fresh_key 2000 signed_in_rows).0
    ≡ ok "https://app/bye?state=c"
unfolding end_session resolve_redirect_to normalize_optional trim find_one logout cookie
    revoke_session record_event hash_secret
end-ok = refl

end_session-IsEnded_example :
    IsEnded stating_host "session" end_input signed_in_rows
      (end_session stating_host "session" end_input fresh_key 2000 signed_in_rows).1
      "https://app/bye?state=c"
end_session-IsEnded_example =
    Redirect.end_session-IsEnded stating_host "session" end_input fresh_key 2000 signed_in_rows
      "https://app/bye?state=c" (tt, tt) end-ok
