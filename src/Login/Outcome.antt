-- ===== src/Login/Outcome.antt =====
-- How a login can end.
use oid.Shared.{
  ℕ, ◌+◌, ◌*◌, ◌<◌, trim, save, String, ◌==◌, eq_iff, true, Option, none, some, ◌≡◌, refl, ap, ◌⊎◌,
  inl, inr, find_one, Bool-cases, Option-cases,
}
use oid.Platform.{Platform, hash_secret, add_seconds}
use oid.Store.{
  Result, ok, err, HttpException, Result-cases, unauthorized, forbidden, User, UserStatus,
  is_active_user, ProviderSession,
}
use oid.Store.Statuses.{is_active_user-eq}
use oid.Audit.{record_event}
use oid.Cookies.{cookie}
use oid.RateLimit.{get, assert_login_allowed, record_success}
use oid.Csrf.Acceptance.{IsAccepted}
use oid.Login.Guards.{
  IsOpen, IsOpenAddress, IsClearedAddress, assert_login_csrf-IsAccepted,
  assert_login_allowed-IsOpen, record_success-cleared,
}
use oid.Sessions.{FreshSession, new_session, issue_session}
use oid.Sessions.Resumption.{IsNewSession, resolve_provider_session-issue_session}
use oid.Oidc.SessionLookup.{resolve_provider_session}
use oid.Login.{
  Site, AuthenticationRequestContext, LoginSubmission, LoginResult, LoginSettings, SignIn, rejected,
  accepted, names, session_input, build_return_to, assert_login_csrf, record_login_failure,
  for_user, login, generic_login_error,
}

module _ (p : Platform) (settings : LoginSettings) (submission : LoginSubmission)
    (context : AuthenticationRequestContext) (fresh : FreshSession) (now : ℕ) (site : Site) where
  abbrev pub address : String
  address = p.to_lower_case (trim submission.email)

  abbrev pub session_of : User → ProviderSession
  session_of user =
      new_session p settings.lifetimes (session_input p settings submission context fresh now user)
        fresh now

  -- A session of the user that was authenticated now, is not revoked, lives for the two lifetimes, and has
  -- the digest of the token.
  pub record IsSessionOf (user : User) (token : String) (session : ProviderSession) : Type 0 where
    pub of_user : session.user_id ≡ user.id
    pub hashed : session.session_hash ≡ hash_secret p token
    pub authenticated : session.auth_time ≡ now
    pub idle : session.idle_expires_at ≡ now + settings.lifetimes.idle_ttl_seconds * 1000
    pub absolute :
        session.absolute_expires_at ≡ now + settings.lifetimes.absolute_ttl_seconds * 1000
    pub unrevoked : session.revoked_at ≡ none

  -- The request came from the login form, is not blocked, and names an active user whose password
  -- better-auth accepts as that user's; a session of the user is stored, its token handed out, and no
  -- failures are counted any more.
  pub record IsLoggedIn (r : LoginResult) (after : Site) : Type 0 where
    pub form_token : String
    pub has_cookie : cookie settings.csrf_cookie_name context.cookies ≡ some form_token
    pub genuine : IsAccepted p submission.csrf_token form_token
    pub open_account : IsOpen address settings.limits.account_max_attempts now site.buckets.accounts
    pub open_address :
        IsOpenAddress context.ip_address settings.limits.ip_max_attempts now site.buckets.ips
    pub user : User
    pub found : find_one (λ u. u.normalized_email == address) site.store.users ≡ some user
    pub is_active : user.status ≡ UserStatus.active
    pub password : settings.sign_in address submission.password ≡ accepted (some user.id)
    pub token : r.session_token ≡ p.base64url fresh.raw_bytes
    pub session : IsSessionOf user r.session_token (session_of user)
    pub sessions : after.store.sessions ≡ save (λ s. s.id) (session_of user) site.store.sessions
    pub cleared_account : get address after.buckets.accounts ≡ none
    pub cleared_address : IsClearedAddress context.ip_address after.buckets.ips

  -- Nobody is logged in: the call throws, and the sessions are as they were.
  pub record IsRefused (r : Result LoginResult) (after : Site) : Type 0 where
    pub reason : HttpException
    pub thrown : r ≡ err reason
    pub sessions : after.store.sessions ≡ site.store.sessions

  abbrev pub Ends : Result LoginResult × Site → Type 0
  Ends (r, after) =
      IsRefused r after ⊎ ((result : LoginResult) × (r ≡ ok result) × IsLoggedIn result after)

  names-eq : (given : Option String) (id : String) → names given id ≡ true → given ≡ some id
  names-eq none id e = cc
  names-eq (some given) id e = rw ((eq_iff _ _).0 e) refl

  sign_in_cases : (a : SignIn) → (a ≡ rejected) ⊎ ((id : Option String) × (a ≡ accepted id))
  sign_in_cases rejected = inl refl
  sign_in_cases (accepted id) = inr (id, refl)

  module _
      (genuine : assert_login_csrf p submission.csrf_token
          (cookie settings.csrf_cookie_name context.cookies)
        ≡ ok tt)
      (allowed : (assert_login_allowed settings.limits context.ip_address address now
          site.buckets).0
        ≡ ok tt) where
    abbrev counted : Site
    counted = record site {
      buckets =
          (assert_login_allowed settings.limits context.ip_address address now site.buckets).1;
    }

    abbrev handed_out : LoginResult
    handed_out = record {
      redirect_to = build_return_to p submission.return_to;
      session_token = p.base64url fresh.raw_bytes;
    }

    logged_in :
        (user : User) (after : Site)
        → find_one (λ u. u.normalized_email == address) site.store.users ≡ some user
        → is_active_user user.status ≡ true
        → settings.sign_in address submission.password ≡ accepted (some user.id)
        → after.store.sessions ≡ save (λ s. s.id) (session_of user) site.store.sessions
        → after.buckets ≡ record_success context.ip_address address counted.buckets
        → IsLoggedIn handed_out after
    logged_in user after found active password sessions buckets =
        let (form_token, has_cookie, accepts) =
          assert_login_csrf-IsAccepted p submission.csrf_token
            (cookie settings.csrf_cookie_name context.cookies) genuine in
        let (open_account, open_address) =
          assert_login_allowed-IsOpen settings.limits context.ip_address address now site.buckets
            allowed in
        let (cleared_account, cleared_address) =
          record_success-cleared context.ip_address address counted.buckets in
        record {
          form_token = form_token;
          has_cookie = has_cookie;
          genuine = accepts;
          open_account = open_account;
          open_address = open_address;
          user = user;
          found = found;
          is_active = is_active_user-eq user.status active;
          password = password;
          token = refl;
          session = record {
            of_user = refl;
            hashed = refl;
            authenticated = refl;
            idle = refl;
            absolute = refl;
            unrevoked = refl;
          };
          sessions = sessions;
          cleared_account = rw buckets cleared_account;
          cleared_address = rw buckets cleared_address;
        }

    for_user-Ends :
        (user : User)
        → find_one (λ u. u.normalized_email == address) site.store.users ≡ some user
        → Ends (for_user p settings submission context fresh now (some user) counted)
    unfolding record_event issue_session
    for_user-Ends user found = elim (Bool-cases (is_active_user user.status)) [
      | inr e ↦
          rw e (
            inl (record { reason = forbidden generic_login_error; thrown = refl; sessions = refl }))
      | inl e ↦ elim (sign_in_cases (settings.sign_in address submission.password)) [
        | inl e' ↦
            rw (e, e')
              (inl (record {
                reason = unauthorized generic_login_error;
                thrown = refl;
                sessions = refl;
              }))
        | inr (id, e') ↦ elim (Bool-cases (names id user.id)) [
          | inr m ↦
              rw (e, e', m)
                (inl (record {
                  reason = unauthorized generic_login_error;
                  thrown = refl;
                  sessions = refl;
                }))
          | inl m ↦
              rw (e, e', m)
                (inr (
                  handed_out,
                  refl,
                  logged_in user _ found e (rw (e', names-eq id user.id m) refl) refl refl,
                ))
        ]
      ]
    ]

  refused-Ends :
      (e : HttpException) (after : Site)
      → after.store.sessions ≡ site.store.sessions
      → Ends (err e, after)
  refused-Ends e after same = inl (record { reason = e; thrown = refl; sessions = same })

  -- Every login ends in one of two ways. Either it throws, and the sessions are as they were. Or it
  -- returns, and then: the form repeats a signed cookie, neither the address nor the account had as many
  -- failures as are allowed in its window, the e-mail address is that of an active user, better-auth
  -- accepted the password and named that very user; a session of that user is stored, unrevoked, with
  -- the set lifetimes and the digest of the token that is handed out; and no failed logins of the address
  -- and the account are counted any more.
  pub login-Ends : Ends (login p settings submission context fresh now site)
  unfolding login record_event
  login-Ends =
      elim (Result-cases (
        assert_login_csrf p submission.csrf_token
          (cookie settings.csrf_cookie_name context.cookies))) [
            | inl (x, e) ↦ rw e (refused-Ends x site refl)
            | inr (fine, e) ↦
                elim (Result-cases
                  (assert_login_allowed settings.limits context.ip_address address now
                    site.buckets).0) [
                      | inl (x, e') ↦ rw (e, e') (refused-Ends x (counted_site) refl)
                      | inr (fine', e') ↦
                          elim (Option-cases
                            (find_one (λ u. u.normalized_email == address) site.store.users)) [
                              | inl f ↦
                                  rw (e, e', f)
                                    (refused-Ends (unauthorized generic_login_error)
                                      (record_login_failure p settings submission context fresh now
                                        none "user_not_found" counted_site)
                                      refl)
                              | inr (user, f) ↦ rw (e, e', f) (for_user-Ends e e' user f)
                            ]
                    ]
          ]
    where
      counted_site : Site
      counted_site = record site {
        buckets =
            (assert_login_allowed settings.limits context.ip_address address now site.buckets).1;
      }

  -- The token that a login handed out stands, before the earlier expiry of its session, for the new
  -- session of the user whose password was accepted, where the drawn id and hash are new.
  pub logged_in-resumed :
      (r : LoginResult) (after : Site) (later : ℕ)
      → (v : IsLoggedIn r after) → IsNewSession p fresh site.store (session_of v.user)
      → later < add_seconds now settings.lifetimes.idle_ttl_seconds
      → later < add_seconds now settings.lifetimes.absolute_ttl_seconds
      → (resolve_provider_session p (some r.session_token) later after.store).0
        ≡ ok (some (session_of v.user))
  unfolding resolve_provider_session issue_session
  logged_in-resumed r after later v new idle absolute =
      rw (v.token, v.sessions)
        (ap (λ o. o.0)
          (resolve_provider_session-issue_session p settings.lifetimes
            (session_input p settings submission context fresh now v.user) fresh now later
            site.store new idle absolute))
