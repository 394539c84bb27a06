-- ===== src/Admin/Access.antt =====
-- admin/admin-access.service.ts and the guards before the back office: admin.guard.ts,
-- admin-recent-auth.guard.ts, admin-csrf.guard.ts.
use oid.Shared.{
  List, ℕ, ◌*◌, ◌-◌, String, ◌==◌, Bool, ◌&&◌, ◌||◌, leb, ltb, is_some, truthy, if◌then◌else◌,
  Option, none, some, find_one,
}
use oid.Platform.{Platform, hash_secret}
use oid.Store.{
  Action, Result, ok, err, pure, gets, lift, or_throw, ◌>>=◌, ◌>>◌, unauthorized, forbidden,
  HttpException, User, is_active_user, ProviderSession, Membership,
}
use oid.Cookies.{parse_cookies, cookie}
use oid.Csrf.{assert_csrf_token}
use oid.Admin.Common.{AdminPrincipal}

abbrev pub no_admin : HttpException
no_admin = unauthorized "Admin authentication required."

abbrev pub denied : HttpException
denied = forbidden "Admin access denied."

abbrev pub not_revoked : Option ProviderSession → Option ProviderSession
not_revoked none = none
not_revoked (some session) = if is_some session.revoked_at then none else some session

abbrev pub assert_not_expired : ProviderSession → ℕ → Result (Unit {0})
assert_not_expired session now =
    if leb session.idle_expires_at now || leb session.absolute_expires_at now
    then err (unauthorized "Admin session expired.")
    else ok tt

abbrev pub only_active : Option User → Option User
only_active none = none
only_active (some user) = if is_active_user user.status then some user else none

abbrev pub is_membership : String → String → Membership → Bool
is_membership user_id group_id m = m.user_id == user_id && m.group_id == group_id

-- What `requireAdminAccess` does with a token that is there.
module _ (p : Platform) (admin_group_slug : String) where
  abbrev pub admit : String → ℕ → Action AdminPrincipal
  admit token now = do
    found ← gets (λ s. find_one (λ r. r.session_hash == hash_secret p token) s.sessions)
    session ← lift (or_throw (not_revoked found) no_admin)
    lift (assert_not_expired session now)
    found_user ← gets (λ s. find_one (λ u. u.id == session.user_id) s.users)
    user ← lift (or_throw (only_active found_user) denied)
    found_group ← gets (λ s. find_one (λ g. g.slug == admin_group_slug) s.groups)
    group ← lift (or_throw found_group denied)
    found_membership ← gets (λ s. find_one (is_membership user.id group.id) s.memberships)
    lift (or_throw found_membership denied)
    pure (record { user = user; provider_session = session })

  unfoldable pub require_admin_access : Option String → ℕ → Action AdminPrincipal
  require_admin_access none now = lift (err no_admin)
  require_admin_access (some token) now =
      if truthy (some token) then admit token now else lift (err no_admin)

  -- `AdminGuard.canActivate`: the principal that it sets on the request.
  unfoldable pub admin_guard : String → Option String → ℕ → Action AdminPrincipal
  admin_guard cookie_name header now = do
    cookies ← lift (parse_cookies p header)
    require_admin_access (cookie cookie_name cookies) now

-- `AdminRecentAuthGuard.canActivate`. A session from the future has age 0 here and a negative age in the source, and passes in both.
unfoldable pub recent_auth_guard : ℕ → Option AdminPrincipal → ℕ → Result (Unit {0})
recent_auth_guard window_seconds none now = err (forbidden "Recent admin authentication required.")
recent_auth_guard window_seconds (some principal) now =
    if ltb (window_seconds * 1000) (now - principal.provider_session.auth_time)
    then err (forbidden "Recent admin authentication required.")
    else ok tt

abbrev or_else : Option String → Option String → Option String
or_else (some a) b = some a
or_else none b = b

-- `AdminCsrfGuard.canActivate`: the first value of the header, or else the text in the body.
unfoldable pub csrf_guard :
    Platform → String → Option String → Option String → Option String → Result (Unit {0})
csrf_guard p cookie_name header_token body_token header = with_cookies (parse_cookies p header)
  where
    with_cookies : Result (List (String × String)) → Result (Unit {0})
    with_cookies (err e) = err e
    with_cookies (ok cookies) =
        assert_csrf_token p (or_else header_token body_token) (cookie cookie_name cookies)
