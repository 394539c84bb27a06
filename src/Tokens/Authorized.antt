-- ===== src/Tokens/Authorized.antt =====
-- When `rotateTokenForClient` lets a client rotate a usable token.
use oid.Shared.{
  ap, sym, is_empty, ◌==◌, eq_iff, refl, ℕ, String, ◌==◌, eq_iff, ◌≡◌, refl, ◌⊎◌, inl, inr, true,
  Option, none, some, Bool-cases, Option-cases, find_one,
}
use oid.Platform.{Platform, hash_secret}
use oid.Store.{
  Store, Result, ok, err, HttpException, unauthorized, RefreshToken, Client, is_active_client,
  is_public, User, is_active_user,
}
use oid.Audit.{record_event}
use oid.Tokens.Model.{
  not_empty, Fresh, RotateForClientInput, RotateForClientResult, refresh_lifetimes, summary,
  not_empty,
}
use oid.Tokens.Service.{replace_token, successor_of, issue_result}
use oid.Tokens.ForClient.{
  secret_matches, with_lifetimes, client_of, assert_client_secret, refreshing_client, active_user,
  rotate_checked, secret_matches, client_summary,
}

module _ (p : Platform) (input : RotateForClientInput) (t : RefreshToken) (s : Store) where
  -- The client presents itself by its identifier, is the token's, is active and may have refresh
  -- tokens with the given lifetimes; it is public or shows the secret of the stored hash; and the
  -- token's user is active.
  pub record IsAuthorized (c : Client) (idle absolute : ℕ) : Type 0 where
    pub registered : find_one (client_of t input.client_identifier) s.clients ≡ some c
    pub enabled : is_active_client c.status ≡ true
    pub lifetimes : refresh_lifetimes c ≡ some (idle, absolute)
    pub authenticated :
        (is_public c.type ≡ true)
        ⊎ ((secret : String) × (input.client_secret ≡ some secret)
            × (c.client_secret_hash ≡ some (hash_secret p secret)))
    pub user : User
    pub known : find_one (λ u. u.id == t.user_id) s.users ≡ some user
    pub allowed : is_active_user user.status ≡ true

-- How the comparison of secrets can end.
abbrev SecretOutcome : Platform → Option String → Option String → Result (Unit {0}) → Type 0
SecretOutcome p hash given r =
    ((e : HttpException) × (r ≡ err e))
    ⊎ (((secret : String) × (given ≡ some secret) × (hash ≡ some (hash_secret p secret)))
        × (r ≡ ok tt))

required : HttpException
required = unauthorized "Client authentication required."

secret_matches_cases :
    (p : Platform) (hash given : Option String)
    → SecretOutcome p hash given (secret_matches p (not_empty hash) (not_empty given))
unfolding required
secret_matches_cases p none given = inl (required, refl)
secret_matches_cases p (some h) none = elim (Bool-cases (is_empty h)) [
  | inl e ↦ inl (required, rw e)
  | inr e ↦ inl (required, rw e)
]
secret_matches_cases p (some h) (some g) = elim (Bool-cases (is_empty h)) [
  | inl e ↦ inl (required, rw e)
  | inr e ↦ elim (Bool-cases (is_empty g)) [
    | inl e' ↦ inl (required, rw (e, e'))
    | inr e' ↦ elim (Bool-cases (hash_secret p g == h)) [
      | inl same ↦ inr ((g, refl, ap some (sym ((eq_iff _ _).0 same))), rw (e, e', same))
      | inr other ↦ inl (unauthorized "Client authentication failed.", rw (e, e', other))
    ]
  ]
]

pub secret_cases :
    (p : Platform) (c : Client) (given : Option String)
    → ((e : HttpException) × (assert_client_secret p c given ≡ err e))
      ⊎ (((is_public c.type ≡ true)
            ⊎ ((secret : String) × (given ≡ some secret)
                × (c.client_secret_hash ≡ some (hash_secret p secret))))
          × (assert_client_secret p c given ≡ ok tt))
unfolding assert_client_secret
secret_cases p c given = elim (Bool-cases (is_public c.type)) [
  | inl e ↦ inr (inl e, rw e)
  | inr e ↦ elim (secret_matches_cases p c.client_secret_hash given) [
    | inl (x, refused) ↦ inl (x, rw e refused)
    | inr (shown, fine) ↦ inr (inr shown, rw e fine)
  ]
]

refreshing_cases :
    (o : Option Client)
    → (refreshing_client o ≡ none)
      ⊎ ((c : Client) × (idle : ℕ) × (absolute : ℕ) × (o ≡ some c)
          × (is_active_client c.status ≡ true)
          × (refresh_lifetimes c ≡ some (idle, absolute))
          × (refreshing_client o ≡ some (c, idle, absolute)))
unfolding refreshing_client
refreshing_cases none = inl refl
refreshing_cases (some c) = elim (Option-cases (refresh_lifetimes c)) [
  | inl e ↦ inl (rw e)
  | inr ((idle, absolute), e) ↦ elim (Bool-cases (is_active_client c.status)) [
    | inl a ↦ inr (c, idle, absolute, refl, a, e, rw (e, with_lifetimes, a))
    | inr a ↦ inl (rw (e, with_lifetimes, a))
  ]
]

pub active_user_cases :
    (o : Option User)
    → (active_user o ≡ none)
      ⊎ ((u : User) × (o ≡ some u) × (is_active_user u.status ≡ true) × (active_user o ≡ some u))
unfolding active_user
active_user_cases none = inl refl
active_user_cases (some u) = elim (Bool-cases (is_active_user u.status)) [
  | inl a ↦ inr (u, refl, a, rw a)
  | inr a ↦ inl (rw a)
]

pub replace_token-ok :
    (cur next : RefreshToken) (raw : String) (now : ℕ) (s : Store)
    → (replace_token cur next raw now s).0 ≡ ok (issue_result raw next)
unfolding replace_token record_event
replace_token-ok cur next raw now s = refl

module _ (p : Platform) (input : RotateForClientInput) (fresh : Fresh) (now : ℕ) (t : RefreshToken)
    (s : Store) where
  abbrev pub next_token : ℕ → ℕ → RefreshToken
  next_token idle absolute =
      successor_of p t t.upstream_refresh_token_ciphertext idle absolute fresh now

  module _ (P : Result RotateForClientResult × Store → Type 0)
      (refused : (e : HttpException) → P (err e, s))
      (replaced : (c : Client) (idle absolute : ℕ)
        → IsAuthorized p input t s c idle absolute
        → P (
          ok (record {
            issued = issue_result (p.base64url fresh.raw_bytes) (next_token idle absolute);
            token = summary (next_token idle absolute);
            client = client_summary c;
          }),
          (replace_token t (next_token idle absolute) (p.base64url fresh.raw_bytes) now s).1,
        )) where
    pub authorized_cases : P (rotate_checked p input fresh now t s)
    unfolding rotate_checked
    authorized_cases =
        elim (refreshing_cases (find_one (client_of t input.client_identifier) s.clients)) [
          | inl e ↦ rw e (refused (unauthorized "Invalid refresh token client."))
          | inr (c, idle, absolute, registered, enabled, lifetimes, e) ↦
              rw e (elim (secret_cases p c input.client_secret) [
                | inl (x, e') ↦ rw e' (refused x)
                | inr (authenticated, e') ↦
                    rw e' (elim (active_user_cases (find_one (λ u. u.id == t.user_id) s.users)) [
                      | inl e'' ↦ rw e'' (refused (unauthorized "Invalid refresh token user."))
                      | inr (u, known, allowed, e'') ↦ rw e'' (
                          rw
                            (replace_token-ok t (next_token idle absolute)
                              (p.base64url fresh.raw_bytes) now s)
                            (replaced c idle absolute (record {
                              registered = registered;
                              enabled = enabled;
                              lifetimes = lifetimes;
                              authenticated = authenticated;
                              user = u;
                              known = known;
                              allowed = allowed;
                            })))
                    ])
              ])
        ]
