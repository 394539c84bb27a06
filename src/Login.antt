-- ===== src/Login.antt =====
-- authentication/authentication.service.ts: login and logout.
-- The texts of the response headers are left out, but for the session token that one of them carries.
pub mod Outcome
pub mod Guards
use oid.Shared.{
  ℕ, String, ◌==◌, Bool, true, false, ◌&&◌, leb, split, is_empty, trim, concat, truthy,
  if◌then◌else◌, List, Option, none, some, find_one,
}
use Prim.Native.Char.{Char, code}
use oid.Json.{str, null, obj, end, field, nullable_str}
use oid.Platform.{Platform}
use oid.Store.{
  Store, Action, Result, ok, err, pure, gets, lift, ◌>>=◌, ◌>>◌, HttpException, unauthorized,
  forbidden, User, UserStatus, is_active_user, ProviderSession, AuditEvent, AuditSeverity,
}
use oid.Audit.{record_event, no_event}
use oid.Csrf.{assert_parts, parts_of, invalid_csrf}
use oid.Cookies.{cookie}
use oid.RateLimit.{LoginLimits, LoginBuckets, assert_login_allowed, record_failure, record_success}
use oid.Sessions.{
  SessionLifetimes, FreshSession, IssueSessionInput, IssuedSession, issue_session, revoke_session,
}
use oid.Admin.Common.{status_name}

-- Where the service keeps its state: the tables, and the counts of failed logins in memory.
pub record Site : Type 0 where
  pub store : Store
  pub buckets : LoginBuckets

pub record AuthenticationRequestContext : Type 0 where
  pub ip_address : Option String
  pub user_agent : Option String
  pub cookies : List (String × String)

pub record LoginSubmission : Type 0 where
  pub email : String
  pub password : String
  pub csrf_token : String
  pub return_to : Option String

pub record LoginResult : Type 0 where
  pub redirect_to : String
  pub session_token : String

-- What better-auth answers to an address and a password: it rejects them, or it names its user.
pub data SignIn : Type 0 where
  rejected : SignIn
  accepted : Option String → SignIn

pub record LoginSettings : Type 0 where
  pub csrf_cookie_name : String
  pub limits : LoginLimits
  pub lifetimes : SessionLifetimes
  pub sign_in : String → String → SignIn

abbrev pub generic_login_error : String
generic_login_error = "We could not sign you in with those credentials."

abbrev pub starts_with_slash : String → Bool
starts_with_slash String.[] = false
starts_with_slash (String.◌∷◌ c s) = leb (code c) b'/' && leb b'/' (code c)

abbrev or_root : Option String → String
or_root none = "/"
or_root (some path) = path

abbrev pub names : Option String → String → Bool
names none id = false
names (some given) id = given == id

module _ (p : Platform) where
  unfoldable pub build_return_to : Option String → String
  build_return_to none = "/"
  build_return_to (some target) =
      if is_empty target
      then "/"
      else if starts_with_slash target
      then target
      else or_root (p.url_path target)

  -- `assertCsrf`
  unfoldable pub assert_login_csrf : String → Option String → Result (Unit {0})
  assert_login_csrf submitted none = err invalid_csrf
  assert_login_csrf submitted (some token) =
      if is_empty token
      then err invalid_csrf
      else assert_parts p submitted token (parts_of p (split b'.' token))

module _ (p : Platform) (settings : LoginSettings) (submission : LoginSubmission)
    (context : AuthenticationRequestContext) (fresh : FreshSession) (now : ℕ) where
  abbrev pub login_address : String
  login_address = p.to_lower_case (trim submission.email)

  -- The event of a login, less its columns of users.
  abbrev pub login_event : String → AuditEvent
  login_event event_type = record no_event {
    event_type = event_type;
    ip_address = context.ip_address;
    user_agent = context.user_agent;
  }

  -- `recordLoginFailure`
  abbrev pub record_login_failure : Option String → String → Site → Site
  record_login_failure target reason site = record {
    store =
        (record_event
          (record (login_event "user.login.rejected") {
            severity = AuditSeverity.warning;
            target_user_id = target;
            metadata_json = some (
                obj
                  (field "normalizedEmail" (str login_address) (field "reason" (str reason) end)));
          })
          site.store).1;
    buckets = record_failure settings.limits context.ip_address login_address now site.buckets;
  }

  abbrev pub mismatch : User → Option String → Action LoginResult
  mismatch user id = do
    record_event (record (login_event "user.login.rejected") {
      severity = AuditSeverity.critical;
      actor_user_id = some user.id;
      target_user_id = some user.id;
      metadata_json = some (
          obj (
            field "reason" (str "better_auth_user_mismatch") (
              field "betterAuthUserId" (nullable_str id)
                (field "normalizedEmail" (str login_address) end))));
    })
    lift (err (unauthorized generic_login_error))

  abbrev pub session_input : User → IssueSessionInput
  session_input user = record {
    user_id = user.id;
    auth_time = now;
    ip_address = context.ip_address;
    user_agent = context.user_agent;
  }

  abbrev pub start_session : User → Action LoginResult
  start_session user = do
    issued ← issue_session p settings.lifetimes (session_input user) fresh now
    record_event (record (login_event "provider.session.issued") {
      actor_user_id = some user.id;
      target_user_id = some user.id;
      provider_session_id = some issued.session.id;
      metadata_json = some (
          obj (
            field "normalizedEmail" (str login_address)
              (field "authTime" (str (p.iso_string issued.session.auth_time)) end)));
    })
    pure (record {
      redirect_to = build_return_to p submission.return_to;
      session_token = issued.token;
    })

  -- A call on the tables alone.
  abbrev pub on_store : Action LoginResult → Site → Result LoginResult × Site
  on_store call site = ((call site.store).0, record site { store = (call site.store).1 })

  -- What follows the answer of better-auth.
  abbrev pub on_answer : User → SignIn → Site → Result LoginResult × Site
  on_answer user rejected site = (
    err (unauthorized generic_login_error),
    record_login_failure (some user.id) "invalid_credentials" site,
  )
  on_answer user (accepted id) site =
      if names id user.id
      then on_store (start_session user)
          (record site { buckets = record_success context.ip_address login_address site.buckets })
      else on_store (mismatch user id) site

  abbrev pub for_user : Option User → Site → Result LoginResult × Site
  for_user none site =
      (err (unauthorized generic_login_error), record_login_failure none "user_not_found" site)
  for_user (some user) site =
      if is_active_user user.status
      then on_answer user (settings.sign_in login_address submission.password) site
      else (
        err (forbidden generic_login_error),
        record_login_failure (some user.id) (concat "user_status_" (status_name user.status)) site,
      )

  abbrev pub unless_blocked : Result (Unit {0}) → Site → Result LoginResult × Site
  unless_blocked (err e) site = (err e, site)
  unless_blocked (ok _) site =
      for_user (find_one (λ u. u.normalized_email == login_address) site.store.users) site

  abbrev pub if_genuine : Result (Unit {0}) → Site → Result LoginResult × Site
  if_genuine (err e) site = (err e, site)
  if_genuine (ok _) site =
      let (allowed, buckets) =
        assert_login_allowed settings.limits context.ip_address login_address now site.buckets in
      unless_blocked allowed (record site { buckets = buckets })

  unfoldable pub login : Site → Result LoginResult × Site
  login site =
      if_genuine
        (assert_login_csrf p submission.csrf_token
          (cookie settings.csrf_cookie_name context.cookies))
        site

-- The event of a logout that ended a session.
abbrev pub record_logout : AuthenticationRequestContext → Option ProviderSession → Action (Unit {0})
record_logout context none = pure tt
record_logout context (some session) = record_event (record no_event {
  event_type = "user.logout.succeeded";
  actor_user_id = some session.user_id;
  target_user_id = some session.user_id;
  provider_session_id = some session.id;
  ip_address = context.ip_address;
  user_agent = context.user_agent;
  metadata_json = some (obj (field "reason" (str "user_logout") end));
})

module _ (p : Platform) where
  abbrev pub end_session_of : Option String → AuthenticationRequestContext → ℕ → Action (Unit {0})
  end_session_of none context now = pure tt
  end_session_of (some token) context now = do
    revoked ← revoke_session p token "user_logout" now
    record_logout context revoked

  -- `logout`: the cookies that it clears, and better-auth's own sign-out, are left out.
  unfoldable pub logout : String → AuthenticationRequestContext → ℕ → Action (Unit {0})
  logout cookie_name context now =
      let token = cookie cookie_name context.cookies in
      if truthy token then end_session_of token context now else pure tt
