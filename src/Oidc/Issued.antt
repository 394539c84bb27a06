-- ===== src/Oidc/Issued.antt =====
-- The tokens of an exchange: what they say, and that they are signed.
use oid.Shared.{
  ℕ, ◌+◌, ◌/◌, String, ◌≡◌, refl, true, false, concat, Option, none, some, find_one, is_empty, ◌⊎◌,
  inl, inr, Bool-cases, Option-cases,
}
use oid.Platform.{Platform}
use oid.Json.{Fields, str, num, obj, end, field, member}
use oid.Sealing.{unseal}
use oid.Store.{Store, ok, unauthorized, AuthorizationCode, Client, User, SigningKey, is_active_key}
use oid.Audit.{record_event}
use oid.Tokens.{Fresh}
use oid.Oidc.Jwt.{sign_jwt}
use oid.Oidc.Claims.{has_scope}
use oid.Oidc.Token.{TokenResponse, lifetimes_to_issue, id_token_claims, issue_refresh}
use oid.Tokens.{issue_token}

-- The service has an active key, whose private part it can read and signs any text.
pub record CanSign (p : Platform) (s : Store) (key : SigningKey) (pem : String) : Type 0 where
  pub active : find_one (λ k. is_active_key k.status) s.signing_keys ≡ some key
  pub opened : unseal p (unauthorized "Invalid signing key.") key.encrypted_private_key ≡ ok pem
  pub signs : (input : String) → (signature : String) × (p.rsa_sign input pem ≡ some signature)

-- `header.payload.signature`, where the signature is that of the first two parts by the private key, and
-- these are the header RS256 with the id of the key, and the payload.
pub record IsSigned (p : Platform) (key : SigningKey) (pem : String) (payload : Fields)
    (token : String) : Type 0 where
  pub header : String
  pub of_header :
      header
      ≡ p.base64url (
          p.utf8 (
            p.json_stringify (
              obj (
                field "alg"
                  (str "RS256")
                  (field "typ" (str "JWT") (field "kid" (str key.kid) end))))))
  pub body : String
  pub of_body : body ≡ p.base64url (p.utf8 (p.json_stringify (obj payload)))
  pub signature : String
  pub of_signature : p.rsa_sign (concat header (concat "." body)) pem ≡ some signature
  pub parts : token ≡ concat (concat header (concat "." body)) (concat "." signature)

-- What the access token says.
abbrev pub access_payload : Platform → AuthorizationCode → Client → User → ℕ → Fields
access_payload p code client user now = field "iss" (str p.base_url) (
    field "aud" (str client.client_id) (
      field "sub" (str user.id) (
        field "iat" (num (now / 1000)) (
          field "exp" (num (now / 1000 + client.access_token_ttl_seconds))
            (field "scope" (str code.scope) (field "token_use" (str "access") end))))))

-- The nonce of the authorization request is said, if it is not empty.
abbrev pub IsNonce : Option String → Fields → Type 0
IsNonce none payload = Unit
IsNonce (some n) payload = (is_empty n ≡ true) ⊎ (member "nonce" payload ≡ some (str n))

-- What the id token says of the issuer, the client, the user, its times, and the nonce of the request.
pub record IsIdPayload (p : Platform) (code : AuthorizationCode) (client : Client) (user : User)
    (now : ℕ) (payload : Fields) : Type 0 where
  pub issuer : member "iss" payload ≡ some (str p.base_url)
  pub audience : member "aud" payload ≡ some (str client.client_id)
  pub subject : member "sub" payload ≡ some (str user.id)
  pub issued : member "iat" payload ≡ some (num (now / 1000))
  pub expires : member "exp" payload ≡ some (num (now / 1000 + client.id_token_ttl_seconds))
  pub authenticated : member "auth_time" payload ≡ some (num (code.auth_time / 1000))
  pub nonce : IsNonce code.nonce payload

-- A refresh token is handed out exactly if the scope has offline_access, the client may have refresh tokens,
-- and both lifetimes are set.
pub data IsRefreshed (client : Client) (scope text : String) (given : Option String) : Type 0 where
  with_refresh :
      (idle absolute : ℕ)
      → has_scope "offline_access" scope ≡ true
      → client.allow_refresh_tokens ≡ true
      → client.refresh_token_idle_ttl_seconds ≡ some idle
      → client.refresh_token_absolute_ttl_seconds ≡ some absolute
      → given ≡ some text
      → IsRefreshed client scope text given
  not_asked :
      has_scope "offline_access" scope ≡ false → given ≡ none → IsRefreshed client scope text given
  not_allowed :
      client.allow_refresh_tokens ≡ false → given ≡ none → IsRefreshed client scope text given
  no_idle :
      client.refresh_token_idle_ttl_seconds ≡ none
      → given ≡ none
      → IsRefreshed client scope text given
  no_absolute :
      client.refresh_token_absolute_ttl_seconds ≡ none
      → given ≡ none
      → IsRefreshed client scope text given

-- What is returned.
pub record IsIssued (p : Platform) (key : SigningKey) (pem : String) (fresh : Fresh)
    (code : AuthorizationCode) (client : Client) (user : User) (now : ℕ) (r : TokenResponse)
    : Type 0 where
  pub scope : r.scope ≡ code.scope
  pub lifetime : r.expires_in ≡ client.access_token_ttl_seconds
  pub access : IsSigned p key pem (access_payload p code client user now) r.access_token
  pub id_token : String
  pub has_id_token : r.id_token ≡ some id_token
  pub id_payload : Fields
  pub says : IsIdPayload p code client user now id_payload
  pub identity : IsSigned p key pem id_payload id_token
  pub refresh : IsRefreshed client code.scope (p.base64url fresh.raw_bytes) r.refresh_token

pub sign_jwt-IsSigned :
    (p : Platform) (s : Store) (key : SigningKey) (pem : String) (payload : Fields)
    → CanSign p s key pem
    → (token : String) × (sign_jwt p payload key ≡ ok token) × IsSigned p key pem payload token
unfolding sign_jwt
sign_jwt-IsSigned p s key pem payload z =
    let (signature, e) = z.signs _ in
    (
      _,
      rw (z.opened, e) refl,
      record {
        header = _;
        of_header = refl;
        body = _;
        of_body = refl;
        signature = signature;
        of_signature = e;
        parts = refl;
      },
    )

refresh_stored :
    (p : Platform) (code : AuthorizationCode) (client : Client) (user : User) (fresh : Fresh)
    (now idle absolute : ℕ) (s : Store)
    → (t : Store) × (issue_refresh p code client user fresh now (some (idle, absolute)) s
        ≡ (ok (some (p.base64url fresh.raw_bytes)), t))
unfolding issue_refresh issue_token record_event
refresh_stored p code client user fresh now idle absolute s = (_, refl)

pub refresh_made :
    (p : Platform) (code : AuthorizationCode) (client : Client) (user : User) (fresh : Fresh)
    (now : ℕ) (s : Store)
    → (r : Option String) × (t : Store) × (issue_refresh p code client user fresh now
          (lifetimes_to_issue client code.scope)
          s
        ≡ (ok r, t))
      × IsRefreshed client code.scope (p.base64url fresh.raw_bytes) r
unfolding issue_refresh lifetimes_to_issue
refresh_made p code client user fresh now s =
    elim (Bool-cases (has_scope "offline_access" code.scope)) [
      | inr a ↦ (none, s, rw a refl, IsRefreshed.not_asked a refl)
      | inl a ↦ elim (Bool-cases client.allow_refresh_tokens) [
        | inr b ↦ (none, s, rw (a, b) refl, IsRefreshed.not_allowed b refl)
        | inl b ↦ elim (Option-cases client.refresh_token_idle_ttl_seconds) [
          | inl c ↦ (none, s, rw (a, b, c) refl, IsRefreshed.no_idle c refl)
          | inr (idle, c) ↦ elim (Option-cases client.refresh_token_absolute_ttl_seconds) [
            | inl d ↦ (none, s, rw (a, b, c, d) refl, IsRefreshed.no_absolute d refl)
            | inr (absolute, d) ↦
                let (t, e) = refresh_stored p code client user fresh now idle absolute s in
                let both : lifetimes_to_issue client code.scope ≡ some (idle, absolute) =
                  rw (a, b, c, d) refl in
                (_, t, rw both e, IsRefreshed.with_refresh idle absolute a b c d refl)
          ]
        ]
      ]
    ]

pub nonce_said :
    (p : Platform) (code : AuthorizationCode) (client : Client) (user : User) (now : ℕ)
    → IsNonce code.nonce (id_token_claims p code client user now)
unfolding member
nonce_said p code client user now = elim (Option-cases code.nonce) [
  | inl e ↦ rw e tt
  | inr (n, e) ↦ elim (Bool-cases (is_empty n)) [
    | inl f ↦ rw e (inl f)
    | inr f ↦ rw e (inr (rw f refl))
  ]
]
