-- ===== src/Admin/AccessRule.antt =====
-- Who may use the back office.
use oid.Shared.{
  ℕ, ◌≤◌, ◌<◌, String, ◌==◌, ◌≡◌, refl, subst, ◌⊎◌, ◌↔◌, inl, inr, true, false, truthy, none, some,
  leb, leb→lt, lt→leb, count, find_one, find_one-passes, count-none, count-found, bit, Bool,
  Bool-cases, Option-cases, arith, Option,
}
use oid.Platform.{Platform, hash_secret}
use oid.Store.{
  Store, Result, ok, err, HttpException, unauthorized, is_active_user, Group, User, ProviderSession,
}
use oid.Admin.Common.{AdminPrincipal}
use oid.Admin.Access.{is_membership, admit, denied, no_admin, require_admin_access}

-- The user of a session that the token stands for, which is neither revoked nor expired, is active
-- and is a member of the group of administrators.
pub record IsAdmin (p : Platform) (slug token : String) (now : ℕ) (s : Store)
    (principal : AdminPrincipal) : Type 0 where
  pub session :
      find_one (λ r. r.session_hash == hash_secret p token) s.sessions
      ≡ some principal.provider_session
  pub unrevoked : principal.provider_session.revoked_at ≡ none
  pub before_idle : now < principal.provider_session.idle_expires_at
  pub before_absolute : now < principal.provider_session.absolute_expires_at
  pub user :
      find_one (λ u. u.id == principal.provider_session.user_id) s.users ≡ some principal.user
  pub is_active : is_active_user principal.user.status ≡ true
  pub group : Group
  pub group_found : find_one (λ g. g.slug == slug) s.groups ≡ some group
  pub member : 1 ≤ count (is_membership principal.user.id group.id) s.memberships

module _ (p : Platform) (slug token : String) (now : ℕ) (s : Store) where
  counted : {n : ℕ} (b : Bool) → b ≡ true → bit b ≤ n → 1 ≤ n
  counted b t h = rw t at h

  abbrev Outcome : Type 0
  Outcome =
      ((e : HttpException) × (admit p slug token now s ≡ (err e, s)))
      ⊎ ((principal : AdminPrincipal) × IsAdmin p slug token now s principal
          × (admit p slug token now s ≡ (ok principal, s)))

  module _ (session : ProviderSession)
      (found : find_one (λ r. r.session_hash == hash_secret p token) s.sessions ≡ some session)
      (unrevoked : session.revoked_at ≡ none) (idle : leb session.idle_expires_at now ≡ false)
      (absolute : leb session.absolute_expires_at now ≡ false) where
    user_outcome :
        (user : User)
        → find_one (λ u. u.id == session.user_id) s.users ≡ some user
        → is_active_user user.status ≡ true
        → Outcome
    user_outcome user found_user lively =
        elim (Option-cases (find_one (λ g. g.slug == slug) s.groups)) [
          | inl e ↦ inl (denied, rw (found, unrevoked, idle, absolute, found_user, lively, e) refl)
          | inr (g, e) ↦ elim (Option-cases (find_one (is_membership user.id g.id) s.memberships)) [
            | inl e' ↦
                inl (denied, rw (found, unrevoked, idle, absolute, found_user, lively, e, e') refl)
            | inr (m, e') ↦ inr (
              record { user = user; provider_session = session },
              record {
                session = found;
                unrevoked = unrevoked;
                before_idle = leb→lt _ _ idle;
                before_absolute = leb→lt _ _ absolute;
                user = found_user;
                is_active = lively;
                group = g;
                group_found = e;
                member =
                    counted _ (find_one-passes _ s.memberships e')
                      (count-found _ _ s.memberships e');
              },
              rw (found, unrevoked, idle, absolute, found_user, lively, e, e') refl,
            )
          ]
        ]

    live_outcome : Outcome
    live_outcome = elim (Option-cases (find_one (λ u. u.id == session.user_id) s.users)) [
      | inl e ↦ inl (denied, rw (found, unrevoked, idle, absolute, e) refl)
      | inr (user, e) ↦ elim (Bool-cases (is_active_user user.status)) [
        | inl e' ↦ user_outcome user e e'
        | inr e' ↦ inl (denied, rw (found, unrevoked, idle, absolute, e, e') refl)
      ]
    ]

  admit_outcome : Outcome
  admit_outcome =
      elim (Option-cases (find_one (λ r. r.session_hash == hash_secret p token) s.sessions)) [
        | inl e ↦ inl (no_admin, rw e refl)
        | inr (session, e) ↦ elim (Option-cases session.revoked_at) [
          | inr (at, e') ↦ inl (no_admin, rw (e, e') refl)
          | inl e' ↦ elim (Bool-cases (leb session.idle_expires_at now)) [
            | inl i ↦ inl (unauthorized "Admin session expired.", rw (e, e', i) refl)
            | inr i ↦ elim (Bool-cases (leb session.absolute_expires_at now)) [
              | inl a ↦ inl (unauthorized "Admin session expired.", rw (e, e', i, a) refl)
              | inr a ↦ live_outcome session e e' i a
            ]
          ]
        ]
      ]

  admit-IsAdmin :
      (principal : AdminPrincipal)
      → (admit p slug token now s ≡ (ok principal, s)) ↔ IsAdmin p slug token now s principal
  admit-IsAdmin principal = (entitled, admitted)
    where
      ok-ok :
          {a b : AdminPrincipal}
          → ◌≡◌ {A = Result AdminPrincipal × Store} (ok a, s) (ok b, s)
          → a ≡ b
      ok-ok e = cc

      err-≢-ok :
          {x : HttpException} {a : AdminPrincipal}
          → ◌≡◌ {A = Result AdminPrincipal × Store} (err x, s) (ok a, s)
          → ⊥
      err-≢-ok e = cc

      entitled : admit p slug token now s ≡ (ok principal, s) → IsAdmin p slug token now s principal
      entitled h = elim admit_outcome [
        | inl (x, e) ↦ absurd (err-≢-ok (rw e at h))
        | inr (other, v, e) ↦ subst (IsAdmin p slug token now s) (ok-ok (rw e at h)) v
      ]

      admitted : IsAdmin p slug token now s principal → admit p slug token now s ≡ (ok principal, s)
      admitted v =
          elim (Option-cases
            (find_one (is_membership principal.user.id v.group.id) s.memberships)) [
              | inl none_found ↦
                  absurd (omega (arith, count-none _ s.memberships none_found, v.member))
              | inr (m, found) ↦
                  rw
                    (
                      v.session,
                      v.unrevoked,
                      lt→leb _ _ v.before_idle,
                      lt→leb _ _ v.before_absolute,
                      v.user,
                      v.is_active,
                      v.group_found,
                      found,
                    )
                    refl
            ]

refused-≢-let_in :
    (s : Store) (principal : AdminPrincipal)
    → ◌≡◌ {A = Result AdminPrincipal × Store} (err no_admin, s) (ok principal, s)
    → ⊥
refused-≢-let_in s principal e = cc

-- A request is let into the back office, with a principal, exactly if it has a session token that is
-- not empty, the token stands for the principal's session, which is neither revoked nor expired, and
-- the session's user, who is the principal's, is active and a member of the group of administrators.
-- The tables are not changed.
pub require_admin_access-IsAdmin :
    (p : Platform) (slug : String) (token : Option String) (now : ℕ) (s : Store)
    (principal : AdminPrincipal)
    → (require_admin_access p slug token now s ≡ (ok principal, s)) ↔ (
        (raw : String) × (token ≡ some raw)
        × (truthy token ≡ true)
        × IsAdmin p slug raw now s principal)
unfolding require_admin_access
require_admin_access-IsAdmin p slug none now s principal = (
  (λ h. absurd (refused-≢-let_in s principal h)),
  (λ (raw, given, full, v). absurd (none-≢-some given)),
)
  where
    none-≢-some : {raw : String} → none ≡ some raw → ⊥
    none-≢-some e = cc
require_admin_access-IsAdmin p slug (some raw) now s principal =
    elim (Bool-cases (truthy (some raw))) [
      | inl full ↦ rw full (
        (λ h. (raw, refl, refl, (admit-IsAdmin p slug raw now s principal).0 h)),
        (λ (raw', given, full', v).
            (admit-IsAdmin p slug raw now s principal).1 (rw (← some_lem given) at v)),
      )
      | inr empty ↦ rw empty (
        (λ h. absurd (refused-≢-let_in s principal h)),
        (λ (raw', given, full, v). absurd (false-≢-true full)),
      )
    ]
  where
    some_lem : {a b : String} → some a ≡ some b → a ≡ b
    some_lem e = cc

    false-≢-true : false ≡ true → ⊥
    false-≢-true e = cc
