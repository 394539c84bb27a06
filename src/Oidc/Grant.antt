-- ===== src/Oidc/Grant.antt =====
-- Who gets an authorization code, and which.
use oid.Shared.{
  ℕ, ◌+◌, ◌*◌, ◌<◌, String, ◌==◌, ◌&&◌, eq_iff, Option, true, false, none, some, find_one, save,
  includes, ◌≡◌, refl, sym, subst, ◌⊎◌, inl, inr, Bool-cases, Option-cases,
}
use oid.Platform.{Platform, hash_secret}
use oid.Store.{
  Store, Result, ok, Client, ClientStatus, User, UserStatus, RedirectUri, ProviderSession,
  AuthorizationCode, is_active_client, Result-cases,
}
use oid.Store.Statuses.{is_active_user-eq, is_active_client-eq}
use oid.Audit.{record_event}
use oid.Tokens.Authorized.{active_user_cases}
use oid.Oidc.Input.{trimmed}
use oid.Oidc.Exchange.{active_client_cases}
use oid.Oidc.SingleUse.{required_cases}
use oid.Oidc.SessionLookup.{session_cases}
use oid.Oidc.Scopes.{words_of, validate_scopes}
use oid.Oidc.Authorization.{
  AuthorizeRequest, FreshCode, Wanted, is_value, new_code, grant_code, resume_session,
  authorize_client, authorize_wanted, authorize, uri_of,
}

-- What a code demands of the request, the client, the session and the user.
pub record IsGrantable (p : Platform) (request : AuthorizeRequest) (wanted : Wanted) (now : ℕ)
    (s : Store) (scope : String) (client : Client) (session : ProviderSession) (user : User)
    : Type 0 where
  pub found : find_one (λ c. c.client_id == wanted.client_identifier) s.clients ≡ some client
  pub enabled : client.status ≡ ClientStatus.active
  pub redirect : RedirectUri
  pub registered :
      find_one (λ r. r.client_id == client.id && r.uri == wanted.redirect_uri) s.redirect_uris
      ≡ some redirect
  pub scoped : validate_scopes request.scope client.allowed_scopes ≡ ok scope
  pub no_login : includes "login" (words_of request.prompt) ≡ false
  pub token : String
  pub presented : request.provider_session_token ≡ some token
  pub known_session :
      find_one (λ r. r.session_hash == hash_secret p token) s.sessions ≡ some session
  pub unrevoked : session.revoked_at ≡ none
  pub before_idle : now < session.idle_expires_at
  pub before_absolute : now < session.absolute_expires_at
  pub known_user : find_one (λ u. u.id == session.user_id) s.users ≡ some user
  pub active : user.status ≡ UserStatus.active

module _ (p : Platform) (request : AuthorizeRequest) (wanted : Wanted) (fresh : FreshCode) (now : ℕ)
    (s : Store) (P : Result String × Store → Type 0) (unchanged : (r : Result String) → P (r, s))
    (granted : (scope : String) (client : Client) (session : ProviderSession) (user : User)
      → IsGrantable p request wanted now s scope client session user
      → P (grant_code p request wanted scope client session user fresh now s)) where
  module _ (client : Client)
      (found : find_one (λ c. c.client_id == wanted.client_identifier) s.clients ≡ some client)
      (enabled : is_active_client client.status ≡ true) (redirect : RedirectUri)
      (registered : find_one (uri_of client.id wanted.redirect_uri) s.redirect_uris ≡ some redirect)
      (scope : String)
      (scoped : validate_scopes request.scope client.allowed_scopes ≡ ok scope) where
    resumed :
        includes "login" (words_of request.prompt) ≡ false
        → P (resume_session p request wanted scope client fresh now s)
    unfolding resume_session
    resumed no_login = elim (session_cases p request.provider_session_token now s) [
      | inl e ↦ elim (Bool-cases (includes "none" (words_of request.prompt))) [
        | inl e' ↦ rw (e, e') (unchanged _)
        | inr e' ↦ rw (e, e') (unchanged _)
      ]
      | inr (r, raw, presented, f, a, b, c, e) ↦
          elim (active_user_cases (find_one (λ u. u.id == r.user_id) s.users)) [
            | inr (user, known, active, e') ↦
                rw (e, e')
                  (granted scope client r user (record {
                    found = found;
                    enabled = is_active_client-eq client.status enabled;
                    redirect = redirect;
                    registered = registered;
                    scoped = scoped;
                    no_login = no_login;
                    token = raw;
                    presented = presented;
                    known_session = f;
                    unrevoked = a;
                    before_idle = b;
                    before_absolute = c;
                    known_user = known;
                    active = is_active_user-eq user.status active;
                  }))
            | inl e' ↦ elim (Bool-cases (includes "none" (words_of request.prompt))) [
              | inl e'' ↦ rw (e, e', e'') (unchanged _)
              | inr e'' ↦ rw (e, e', e'') (unchanged _)
            ]
          ]
    ]

    prompted : P (authorize_client p request wanted scope client fresh now s)
    unfolding authorize_client
    prompted = elim (Bool-cases (includes "login" (words_of request.prompt))) [
      | inr e ↦ elim (Bool-cases (includes "none" (words_of request.prompt))) [
        | inl e' ↦ rw (e, e') (resumed e)
        | inr e' ↦ rw (e, e') (resumed e)
      ]
      | inl e ↦ elim (Bool-cases (includes "none" (words_of request.prompt))) [
        | inl e' ↦ rw (e, e') (unchanged _)
        | inr e' ↦ elim (Option-cases (p.delete_param request.original_url "prompt")) [
          | inl f ↦ rw (e, e', f) (unchanged _)
          | inr (url, f) ↦ rw (e, e', f) (unchanged _)
        ]
      ]
    ]

  wanted_cases : P (authorize_wanted p request wanted fresh now s)
  unfolding authorize_wanted
  wanted_cases =
      elim (active_client_cases
        (find_one (λ c. c.client_id == wanted.client_identifier) s.clients)) [
          | inl e ↦ rw e (unchanged _)
          | inr (client, found, enabled, e) ↦
              elim (Option-cases
                (find_one (uri_of client.id wanted.redirect_uri) s.redirect_uris)) [
                  | inl e' ↦ rw (e, e') (unchanged _)
                  | inr (redirect, registered) ↦
                      elim (Result-cases (validate_scopes request.scope client.allowed_scopes)) [
                        | inl (x, e'') ↦ rw (e, registered, e'') (unchanged _)
                        | inr (scope, scoped) ↦
                            rw (e, registered, scoped)
                              (prompted client found enabled redirect registered scope scoped)
                      ]
                ]
        ]

-- The fields of the request, trimmed.
abbrev pub wanted_by : AuthorizeRequest → Wanted
wanted_by request = record {
  state = trimmed request.state;
  client_identifier = trimmed request.client_id;
  redirect_uri = trimmed request.redirect_uri;
  code_challenge = trimmed request.code_challenge;
}

-- The stored code is for that client, user, session, redirect URI, scope and challenge, is unused, is kept
-- as the hash of the drawn text, and expires in five minutes.
pub record IsCodeFor (p : Platform) (request : AuthorizeRequest) (fresh : FreshCode) (now : ℕ)
    (scope : String) (client : Client) (session : ProviderSession) (user : User)
    (code : AuthorizationCode) : Type 0 where
  pub of_client : code.client_id ≡ client.id
  pub of_user : code.user_id ≡ user.id
  pub of_session : code.provider_session_id ≡ session.id
  pub redirect_uri : code.redirect_uri ≡ trimmed request.redirect_uri
  pub of_scope : code.scope ≡ scope
  pub challenge : code.code_challenge ≡ trimmed request.code_challenge
  pub authenticated : code.auth_time ≡ session.auth_time
  pub unused : code.consumed_at ≡ none
  pub hashed : code.code_hash ≡ hash_secret p (p.base64url fresh.raw_bytes)
  pub expires : code.expires_at ≡ now + 300 * 1000

-- Nothing is stored, or one code, to which the request, the client, the session and the user entitle.
abbrev pub IsEntitled :
    Platform → AuthorizeRequest → FreshCode → ℕ → Store → Result String × Store → Type 0
IsEntitled p request fresh now s (r, t) =
    (t ≡ s)
    ⊎ ((scope : String) × (client : Client) × (session : ProviderSession) × (user : User)
        × (request.response_type ≡ some "code")
        × (request.code_challenge_method ≡ some "S256")
        × IsGrantable p request (wanted_by request) now s scope client session user
        × (code : AuthorizationCode) × IsCodeFor p request fresh now scope client session user code
        × (t.codes ≡ save (λ c. c.id) code s.codes))

is_value-eq :
    (text : String) (value : Option String) → is_value text value ≡ true → value ≡ some text
is_value-eq text none e = cc
is_value-eq text (some value) e = rw ((eq_iff _ _).0 e) refl

grant_code-codes :
    (p : Platform) (request : AuthorizeRequest) (wanted : Wanted) (scope : String) (client : Client)
    (session : ProviderSession) (user : User) (fresh : FreshCode) (now : ℕ) (s : Store)
    → (grant_code p request wanted scope client session user fresh now s).1.codes
      ≡ save (λ c. c.id) (new_code p request wanted scope client user session fresh now) s.codes
unfolding grant_code record_event
grant_code-codes p request wanted scope client session user fresh now s = refl

entitled :
    (p : Platform) (request : AuthorizeRequest) (fresh : FreshCode) (now : ℕ) (s : Store)
    → is_value "code" request.response_type ≡ true
    → is_value "S256" request.code_challenge_method ≡ true
    → IsEntitled p request fresh now s (authorize_wanted p request (wanted_by request) fresh now s)
entitled p request fresh now s t m =
    wanted_cases p request (wanted_by request) fresh now s (IsEntitled p request fresh now s)
      (λ r. inl refl)
      λ scope client session user demands. inr (
        scope,
        client,
        session,
        user,
        is_value-eq "code" request.response_type t,
        is_value-eq "S256" request.code_challenge_method m,
        demands,
        new_code p request (wanted_by request) scope client user session fresh now,
        record {
          of_client = refl;
          of_user = refl;
          of_session = refl;
          redirect_uri = refl;
          of_scope = refl;
          challenge = refl;
          authenticated = refl;
          unused = refl;
          hashed = refl;
          expires = refl;
        },
        grant_code-codes p request (wanted_by request) scope client session user fresh now s,
      )

-- An authorization request at the time `now` stores nothing, or it stores one code, and then it asks for
-- response_type "code" and the challenge method S256; its client is enabled and has registered its
-- redirect URI; its scope is valid for the client; its prompt does not demand a login; its session
-- is neither revoked nor expired, and the session's user is active. The code is for that client, user,
-- session, redirect URI, scope and challenge, is unused, is stored as the hash of the drawn text, and
-- expires after five minutes.
pub authorize-IsEntitled :
    (p : Platform) (request : AuthorizeRequest) (fresh : FreshCode) (now : ℕ) (s : Store)
    → IsEntitled p request fresh now s (authorize p request fresh now s)
unfolding authorize
authorize-IsEntitled p request fresh now s =
    elim (Bool-cases (is_value "code" request.response_type)) [
      | inr e ↦ rw e (inl refl)
      | inl t ↦ elim (required_cases request.state "state") [
        | inl (x, e) ↦ rw (t, e) (inl refl)
        | inr a ↦ elim (required_cases request.client_id "client_id") [
          | inl (x, e) ↦ rw (t, a, e) (inl refl)
          | inr b ↦ elim (required_cases request.redirect_uri "redirect_uri") [
            | inl (x, e) ↦ rw (t, a, b, e) (inl refl)
            | inr c ↦ elim (required_cases request.code_challenge "code_challenge") [
              | inl (x, e) ↦ rw (t, a, b, c, e) (inl refl)
              | inr d ↦ elim (Bool-cases (is_value "S256" request.code_challenge_method)) [
                | inr e ↦ rw (t, a, b, c, d, e) (inl refl)
                | inl m ↦
                    let same : authorize p request fresh now s
                        ≡ authorize_wanted p request (wanted_by request) fresh now s =
                      rw (t, a, b, c, d, m) refl in
                    subst (IsEntitled p request fresh now s) (sym same)
                      (entitled p request fresh now s t m)
              ]
            ]
          ]
        ]
      ]
    ]
