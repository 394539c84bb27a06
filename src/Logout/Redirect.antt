-- ===== src/Logout/Redirect.antt =====
-- Where the end of a session may lead, and that the session is over.
use oid.Shared.{
  ℕ, String, ◌==◌, ◌&&◌, truthy, is_empty, trim, if◌then◌else◌, true, Option, none, some, List, [],
  ◌∷◌, find_one, ◌≡◌, refl, ap, subst, ◌⊎◌, inl, inr, HasUniqueKeys, Bool-cases, Option-cases,
}
use oid.Platform.{Platform, hash_secret}
use oid.Store.{
  Store, Result, ok, err, HttpException, Client, PostLogoutUri, ProviderSession, SigningKey,
  unexpected,
}
use oid.Audit.{record_event}
use oid.Admin.Common.{normalize_optional}
use oid.Cookies.{cookie}
use oid.Sessions.{revoke_session}
use oid.Sessions.Resumption.{resolve_provider_session-revoke_session}
use oid.Oidc.SessionLookup.{resolve_provider_session}
use oid.Oidc.Jwt.{FreshKey}
use oid.Oidc.Exchange.{key_made}
use oid.Oidc.Endpoints.{verify_id_token_hint}
use oid.Login.{AuthenticationRequestContext, end_session_of, logout, record_logout}
use oid.Logout.{
  EndSessionInput, Hint, client_identifier_of, is_registered, with_state, resolve_redirect_to,
  hint_of, end_session,
}

-- A field of the request: its text without the blanks around it, if any text is left.
abbrev pub text_given : Option String → Option String
text_given none = none
text_given (some text) = if is_empty (trim text) then none else some (trim text)

normalize_optional-text_given :
    (field : Option String) → normalize_optional field ≡ text_given field
unfolding normalize_optional
normalize_optional-text_given none = refl
normalize_optional-text_given (some text) = refl

-- A text that is given is not empty.
text_given-full :
    (field : Option String) (text : String)
    → text_given field ≡ some text
    → truthy (some text) ≡ true
text_given-full none text e = cc
text_given-full (some t) text e = elim (Bool-cases (is_empty (trim t))) [
  | inl f ↦ absurd (none-≢ (rw f at e))
  | inr f ↦ rw (← some-eq (rw f at e)) (rw f refl)
]
  where
    none-≢ : {t : String} → none ≡ some t → ⊥
    none-≢ e = cc

    some-eq : {a b : String} → some a ≡ some b → a ≡ b
    some-eq e = cc

module _ (p : Platform) where
  -- The URI itself, if no state is given, and otherwise the URI with the state as a parameter.
  pub data IsWithState (to : String) : Option String → String → Type 0 where
    stateless : IsWithState to none to
    stated :
        (value target : String)
        → p.set_params to (("state", value) ∷ []) ≡ some target
        → IsWithState to (some value) target

module _ (p : Platform) (s : Store) where
  hint_made :
      (token : Option String) (fresh : FreshKey)
      → (hint : Hint) × (keys : List SigningKey) × (hint_of p token fresh s
          ≡ (ok hint, record s { signing_keys = keys }))
  unfolding verify_id_token_hint
  hint_made none fresh = (none, s.signing_keys, refl)
  hint_made (some token) fresh = elim (Bool-cases (truthy (some token))) [
    | inr e ↦ rw e (none, s.signing_keys, refl)
    | inl e ↦ let (key, keys, made) = key_made p fresh s in rw (e, made) (_, keys, refl)
  ]

  -- The login page, or a URI that is registered for a client, with the state.
  pub data IsAllowed (uri state : Option String) (target : String) : Type 0 where
    login_page : target ≡ p.login_path → IsAllowed uri state target
    registered :
        (identifier to : String) (client : Client) (r : PostLogoutUri)
        → uri ≡ some to
        → find_one (λ c. c.client_id == identifier) s.clients ≡ some client
        → find_one (λ x. x.client_id == client.id && x.uri == to) s.post_logout_uris ≡ some r
        → IsWithState p to state target
        → IsAllowed uri state target

  abbrev Outcome : Option String → Option String → Result String × Store → Type 0
  Outcome uri state o =
      ((e : HttpException) × (o ≡ (err e, s)))
      ⊎ ((target : String) × IsAllowed uri state target × (o ≡ (ok target, s)))

  state_outcome :
      (identifier to : String) (client : Client) (r : PostLogoutUri) (state : Option String)
      → find_one (λ c. c.client_id == identifier) s.clients ≡ some client
      → find_one (is_registered client.id to) s.post_logout_uris ≡ some r
      → ((value : String) → state ≡ some value → truthy (some value) ≡ true)
      → Outcome (some to) state (with_state p to state s)
  state_outcome identifier to client r none c u full =
      inr (to, registered identifier to client r refl c u stateless, refl)
  state_outcome identifier to client r (some value) c u full =
      elim (Option-cases (p.set_params to (("state", value) ∷ []))) [
        | inl f ↦ rw (full value refl, f) (inl (unexpected, refl))
        | inr (target, f) ↦
            rw (full value refl, f)
              (inr
                (target, registered identifier to client r refl c u (stated value target f), refl))
      ]

  redirect_outcome :
      (identifier uri state : Option String)
      → ((value : String) → state ≡ some value → truthy (some value) ≡ true)
      → Outcome uri state (resolve_redirect_to p identifier uri state s)
  unfolding resolve_redirect_to
  redirect_outcome none uri state full = inr (p.login_path, login_page refl, refl)
  redirect_outcome (some identifier) none state full = inr (p.login_path, login_page refl, refl)
  redirect_outcome (some identifier) (some to) state full =
      elim (Bool-cases (truthy (some to) && truthy (some identifier))) [
        | inr e ↦ rw e (inr (p.login_path, login_page refl, refl))
        | inl e ↦ elim (Option-cases (find_one (λ c. c.client_id == identifier) s.clients)) [
          | inl f ↦ rw (e, f) (inr (p.login_path, login_page refl, refl))
          | inr (client, f) ↦
              elim (Option-cases (find_one (is_registered client.id to) s.post_logout_uris)) [
                | inl g ↦ rw (e, f, g) (inr (p.login_path, login_page refl, refl))
                | inr (r, g) ↦ rw (e, f, g) (state_outcome identifier to client r state f g full)
              ]
        ]
      ]

revoke_returns :
    (p : Platform) (token reason : String) (now : ℕ) (s : Store)
    → (o : Option ProviderSession) × ((revoke_session p token reason now s).0 ≡ ok o)
unfolding revoke_session
revoke_returns p token reason now s =
    elim (Option-cases (find_one (λ r. r.session_hash == hash_secret p token) s.sessions)) [
      | inl e ↦ rw e (_, refl)
      | inr (r, e) ↦ elim (Option-cases r.revoked_at) [
        | inl e' ↦ rw (e, e') (_, refl)
        | inr (at, e') ↦ rw (e, e') (_, refl)
      ]
    ]

logged_sessions :
    (context : AuthenticationRequestContext) (o : Option ProviderSession) (s : Store)
    → ((record_logout context o s).0 ≡ ok tt)
      × ((record_logout context o s).1.sessions ≡ s.sessions)
unfolding record_event
logged_sessions context none s = (refl, refl)
logged_sessions context (some r) s = (refl, refl)

module _ (p : Platform) (name : String) (context : AuthenticationRequestContext) (now later : ℕ)
    (s : Store) (unique : HasUniqueKeys (λ r. r.id) s.sessions) where
  ended_for :
      (token : String)
      → ((end_session_of p (some token) context now s).0 ≡ ok tt)
        × ((resolve_provider_session p
              (some token)
              later
              (end_session_of p (some token) context now s).1).0
            ≡ ok none)
  unfolding resolve_provider_session
  ended_for token =
      let (o, returned) = revoke_returns p token "user_logout" now s in
      let (fine, same) = logged_sessions context o (revoke_session p token "user_logout" now s).1 in
      rw (returned, fine, same)
        (
          refl,
          ap (λ x. x.0)
              (resolve_provider_session-revoke_session p token "user_logout" now later s unique),
        )

  logout_ends :
      ((logout p name context now s).0 ≡ ok tt)
      × ((resolve_provider_session p
            (cookie name context.cookies)
            later
            (logout p name context now s).1).0
          ≡ ok none)
  unfolding logout resolve_provider_session
  logout_ends = elim (Option-cases (cookie name context.cookies)) [
    | inl e ↦ rw e (refl, refl)
    | inr (token, e) ↦ elim (Bool-cases (truthy (some token))) [
      | inr e' ↦ rw (e, e') (refl, refl)
      | inl e' ↦ rw (e, e') (let ended = ended_for token in rw e' at ended)
    ]
  ]

-- What an end of a session that returned has done.
pub record IsEnded (p : Platform) (name : String) (input : EndSessionInput) (s after : Store)
    (target : String) : Type 0 where
  pub allowed :
      IsAllowed p s (text_given input.post_logout_redirect_uri) (text_given input.state) target
  pub ended :
      (later : ℕ)
      → (resolve_provider_session p (cookie name input.context.cookies) later after).0 ≡ ok none

err-≢-ok : {x : HttpException} {target : String} → ◌≡◌ {A = Result String} (err x) (ok target) → ⊥
err-≢-ok e = cc

ok-ok : {a b : String} → ◌≡◌ {A = Result String} (ok a) (ok b) → a ≡ b
ok-ok e = cc

-- The signing keys play no part.
with_keys-IsAllowed :
    (p : Platform) (s : Store) (keys : List SigningKey) (uri state : Option String)
    (target : String)
    → IsAllowed p (record s { signing_keys = keys }) uri state target
    → IsAllowed p s uri state target
with_keys-IsAllowed p s keys uri state target (login_page e) = login_page e
with_keys-IsAllowed p s keys uri state target
      (registered identifier to client r same found known led) =
    registered identifier to client r same found known led

-- Where ids of sessions are unique, an end of a session that returned leads to the login page, or to the
-- URI that was asked for, with the state as a parameter exactly if one was given, and then that URI is registered as one for
-- after the logout, for a client; and the session of the request's cookie is over, at any later time.
pub end_session-IsEnded :
    (p : Platform) (name : String) (input : EndSessionInput) (fresh : FreshKey) (now : ℕ)
    (s : Store) (target : String)
    → HasUniqueKeys (λ r. r.id) s.sessions
    → (end_session p name input fresh now s).0 ≡ ok target
    → IsEnded p name input s (end_session p name input fresh now s).1 target
unfolding end_session record_event resolve_provider_session
end_session-IsEnded p name input fresh now s target unique h =
    let (hint, keys, made) = hint_made p s input.id_token_hint fresh in
    let t = record s { signing_keys = keys } in
    let same_uri = normalize_optional-text_given input.post_logout_redirect_uri in
    let same_state = normalize_optional-text_given input.state in
    elim (redirect_outcome p t (client_identifier_of (normalize_optional input.client_id) hint)
      (text_given input.post_logout_redirect_uri) (text_given input.state)
      (text_given-full input.state)) [
        | inl (x, e) ↦ absurd (err-≢-ok (rw (made, same_uri, same_state, e) at h))
        | inr (to, allowed, e) ↦
            let (fine, _) = logout_ends p name input.context now 0 t unique in
            let same = ok-ok (rw (made, same_uri, same_state, e, fine) at h) in
            rw (made, same_uri, same_state, e, fine)
              (record {
                allowed =
                    subst (IsAllowed p s _ _) same (with_keys-IsAllowed p s keys _ _ to allowed);
                ended = λ later. (logout_ends p name input.context now later t unique).1;
              })
      ]
