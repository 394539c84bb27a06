-- ===== src/Oidc/UserInfo.antt =====
-- Who gets an answer from the userinfo endpoint, and what it says.
use oid.Shared.{
  ℕ, ◌<◌, ◌/◌, String, ◌==◌, eq_iff, ◌≡◌, refl, ap, ◌⊎◌, subst, ◌&&◌, inl, inr, Bool, true, false,
  Option, none, some, arith, Bool-cases, Option-cases, find_one, find_one-passes, leb, leb→lt,
}
use oid.Json.{Json, str, num, Fields, field, member}
use oid.Platform.{Platform}
use oid.Store.{
  Store, Result, ok, err, HttpException, unauthorized, Client, ClientStatus, User, UserStatus,
  SigningKey, SigningKeyStatus,
}
use oid.Store.Statuses.{is_active_user-eq, is_active_client-eq}
use oid.Tokens.Authorized.{active_user_cases}
use oid.Oidc.Claims.{build_user_claims}
use oid.Oidc.Jwt.{FreshKey, get_or_create_active_signing_key, has_expired, verify_jwt}
use oid.Oidc.Endpoints.{verify_access_token, user_info, text_of, client_of_audience, is_text}
use oid.Oidc.Exchange.{key_made}
use oid.Oidc.Signed.{IsSignedBy, IsBearer, parts_cases, header_cases, made_key-active}

-- A signed, unexpired access token of this issuer.
pub record IsAccessToken (p : Platform) (token : String) (key : SigningKey) (now : ℕ)
    (payload : Fields) : Type 0 where
  pub signed : IsSignedBy p token key.public_jwk payload
  pub exp : ℕ
  pub expiry : member "exp" payload ≡ some (num exp)
  pub in_time : now / 1000 < exp
  pub issuer : member "iss" payload ≡ some (str p.base_url)
  pub use_of : member "token_use" payload ≡ some (str "access")

text_cases :
    (text : String) (o : Option Json)
    → (is_text text o ≡ false) ⊎ ((o ≡ some (str text)) × (is_text text o ≡ true))
text_cases text none = inl refl
text_cases text (some (str s)) = elim (Bool-cases (s == text)) [
  | inl e ↦ inr (ap (λ x. some (str x)) ((eq_iff _ _).0 e), e)
  | inr e ↦ inl e
]
text_cases text (some _) = inl refl

expiry_cases :
    (p : Platform) (now_seconds : ℕ) (o : Option Json)
    → (has_expired p now_seconds o ≡ true)
      ⊎ ((exp : ℕ) × (o ≡ some (num exp))
          × (now_seconds < exp)
          × (has_expired p now_seconds o ≡ false))
expiry_cases p now_seconds none = inl refl
expiry_cases p now_seconds (some (num exp)) = elim (Bool-cases (leb exp now_seconds)) [
  | inl e ↦ inl e
  | inr e ↦ inr (exp, refl, leb→lt _ _ e, e)
]
expiry_cases p now_seconds (some _) = inl refl

access_cases :
    (p : Platform) (token : String) (fresh : FreshKey) (now : ℕ) (s : Store)
    → (key : SigningKey) × (t : Store) × (get_or_create_active_signing_key p fresh s ≡ (ok key, t))
      × (t.users ≡ s.users)
      × (t.clients ≡ s.clients)
      × (((e : HttpException) × (verify_access_token p token fresh now s ≡ (err e, t)))
          ⊎ ((payload : Fields) × IsAccessToken p token key now payload
              × (verify_access_token p token fresh now s ≡ (ok payload, t))))
unfolding verify_access_token verify_jwt
access_cases p token fresh now s =
    let (key, keys, made) = key_made p fresh s in
    (
      key,
      record s { signing_keys = keys },
      made,
      refl,
      refl,
      elim (parts_cases p token key.public_jwk _ refl) [
        | inl (x, e) ↦ inl (x, rw (made, e) refl)
        | inr (payload, e, signed_by) ↦ elim (expiry_cases p (now / 1000) (member "exp" payload)) [
          | inl e' ↦ inl (unauthorized "JWT expired.", rw (made, e, e') refl)
          | inr (exp, e', in_time, e'') ↦ elim (text_cases p.base_url (member "iss" payload)) [
            | inl i ↦ inl (unauthorized "Invalid access token.", rw (made, e, e'', i) refl)
            | inr (i, i') ↦ elim (text_cases "access" (member "token_use" payload)) [
              | inl u ↦ inl (unauthorized "Invalid access token.", rw (made, e, e'', i', u) refl)
              | inr (u, u') ↦ inr (
                payload,
                record {
                  signed = signed_by;
                  exp = exp;
                  expiry = e';
                  in_time = in_time;
                  issuer = i;
                  use_of = u;
                },
                rw (made, e, e'', i', u') refl,
              )
            ]
          ]
        ]
      ],
    )

-- The answer of the endpoint: the subject, and what the scope and the client's policy release.
pub record IsAnswer (p : Platform) (header : Option String) (fresh : FreshKey) (now : ℕ) (s : Store)
    (answer : Fields) : Type 0 where
  pub token : String
  pub presented : IsBearer header token
  pub key : SigningKey
  pub made : (get_or_create_active_signing_key p fresh s).0 ≡ ok key
  pub in_use : key.status ≡ SigningKeyStatus.active
  pub payload : Fields
  pub valid : IsAccessToken p token key now payload
  pub user : User
  pub known : find_one (λ u. u.id == text_of p (member "sub" payload)) s.users ≡ some user
  pub active : user.status ≡ UserStatus.active
  pub client : Client
  pub registered : find_one (client_of_audience p (member "aud" payload)) s.clients ≡ some client
  pub enabled : client.status ≡ ClientStatus.active
  pub says :
      answer
      ≡ field "sub"
          (str user.id)
          (build_user_claims user (text_of p (member "scope" payload)) client.allowed_claims)

-- What an answer demands; a refusal demands nothing.
abbrev IsAnswered : Platform → Option String → FreshKey → ℕ → Store → Result Fields × Store → Type 0
IsAnswered p header fresh now s (err e, t) = Unit
IsAnswered p header fresh now s (ok answer, t) = IsAnswer p header fresh now s answer

user_info-IsAnswered :
    (p : Platform) (header : Option String) (fresh : FreshKey) (now : ℕ) (s : Store)
    → IsAnswered p header fresh now s (user_info p header fresh now s)
unfolding user_info
user_info-IsAnswered p header fresh now s = elim (header_cases header) [
  | inl e ↦ rw e tt
  | inr (token, e, presented) ↦
      let (key, t, made, same_users, same_clients, cases) = access_cases p token fresh now s in
      elim cases [
        | inl (x, e') ↦ rw (e, e') tt
        | inr (payload, valid, e') ↦
            rw (e, e', same_users, same_clients)
              (elim (active_user_cases
                (find_one (λ u. u.id == text_of p (member "sub" payload)) s.users)) [
                  | inl a ↦ rw a tt
                  | inr (user, known, active, a) ↦
                      rw a
                        (elim (Option-cases
                          (find_one (client_of_audience p (member "aud" payload)) s.clients)) [
                            | inl b ↦ rw b tt
                            | inr (client, b) ↦ rw b (record {
                              token = token;
                              presented = presented;
                              key = key;
                              made = ap (λ r. r.0) made;
                              in_use = made_key-active p fresh s key (ap (λ r. r.0) made);
                              payload = payload;
                              valid = valid;
                              user = user;
                              known = known;
                              active = is_active_user-eq user.status active;
                              client = client;
                              registered = b;
                              enabled = is_active_client-eq client.status (
                                  and-second (client.client_id == text_of p (member "aud" payload))
                                    _
                                    (find_one-passes (client_of_audience p (member "aud" payload))
                                      s.clients b));
                              says = refl;
                            })
                          ])
                ])
      ]
]
  where
    and-second : (a b : Bool) → a && b ≡ true → b ≡ true
    and-second a b e = ground arith

-- If the userinfo endpoint answers at the time `now`, then the header carries a bearer token that is
-- an unexpired access token for this issuer, signed with the active key; its subject is an active
-- user, its audience an enabled client; and the answer is the subject with the claims that the
-- token's scope and the client's policy release.
pub user_info-IsAnswer :
    (p : Platform) (header : Option String) (fresh : FreshKey) (now : ℕ) (s : Store)
    (answer : Fields)
    → (user_info p header fresh now s).0 ≡ ok answer
    → IsAnswer p header fresh now s answer
user_info-IsAnswer p header fresh now s answer returned =
    subst (λ o. IsAnswered p header fresh now s (o, (user_info p header fresh now s).1)) returned
      (user_info-IsAnswered p header fresh now s)
