-- ===== src/Tokens/Progress.antt =====
-- When the token endpoint's rotation returns a token.
use oid.Shared.{
  ℕ, ltb, ◌+◌, ◌*◌, ◌&&◌, String, Option, eq_refl, is_empty, false, arith, ◌<◌, ◌==◌, ◌≡◌, refl,
  true, none, some, find_one,
}
use oid.Platform.{Platform, hash_secret}
use oid.Store.{
  Store, ok, RefreshToken, Client, ClientType, ClientStatus, User, UserStatus, is_active_client,
  is_active_user,
}
use oid.Audit.{record_event}
use oid.Tokens.Model.{Fresh, RotateForClientInput, RotateForClientResult, refresh_lifetimes}
use oid.Tokens.Service.{replace_token}
use oid.Tokens.ForClient.{
  refreshing_client, active_user, assert_client_secret, rotate_checked, rotate_token_for_client,
}
use oid.Tokens.Successor.{can_present}

-- The client is public, or the given secret has the stored digest.
pub data IsAuthentic (p : Platform) (c : Client) (given : Option String) : Type 0 where
  public_client : c.type ≡ ClientType.public → IsAuthentic p c given
  with_secret :
      (secret : String)
      → c.type ≡ ClientType.confidential
      → given ≡ some secret
      → is_empty secret ≡ false
      → c.client_secret_hash ≡ some (hash_secret p secret)
      → is_empty (hash_secret p secret) ≡ false
      → IsAuthentic p c given

pub assert_client_secret-ok :
    (p : Platform) (c : Client) (given : Option String)
    → IsAuthentic p c given
    → assert_client_secret p c given ≡ ok tt
unfolding assert_client_secret
assert_client_secret-ok p c given (public_client e) = rw e refl
assert_client_secret-ok p c given (with_secret secret kind same full stored full') =
    rw (kind, same, stored, full, full', eq_refl (hash_secret p secret)) refl

-- A live token, presented by its enabled and authenticated client, which may have refresh tokens, for an
-- active user.
pub record IsRotatable (p : Platform) (input : RotateForClientInput) (now : ℕ) (s : Store)
    (t : RefreshToken) (c : Client) (user : User) (idle absolute : ℕ) : Type 0 where
  pub found :
      find_one (λ r. r.token_hash == hash_secret p input.refresh_token) s.refresh_tokens ≡ some t
  pub unrotated : t.rotated_to_token_id ≡ none
  pub unrevoked : t.revoked_at ≡ none
  pub before_idle : now < t.idle_expires_at
  pub before_absolute : now < t.absolute_expires_at
  pub registered :
      find_one (λ r. r.id == t.client_id && r.client_id == input.client_identifier) s.clients
      ≡ some c
  pub enabled : c.status ≡ ClientStatus.active
  pub allows : c.allow_refresh_tokens ≡ true
  pub idle_positive : 0 < idle
  pub idle_set : c.refresh_token_idle_ttl_seconds ≡ some idle
  pub absolute_positive : 0 < absolute
  pub absolute_set : c.refresh_token_absolute_ttl_seconds ≡ some absolute
  pub authenticated : IsAuthentic p c input.client_secret
  pub known : find_one (λ u. u.id == t.user_id) s.users ≡ some user
  pub allowed : user.status ≡ UserStatus.active

lifetimes_set :
    (c : Client) (idle absolute : ℕ)
    → 0 < idle
    → 0 < absolute
    → c.allow_refresh_tokens ≡ true
    → c.refresh_token_idle_ttl_seconds ≡ some idle
    → c.refresh_token_absolute_ttl_seconds ≡ some absolute
    → refresh_lifetimes c ≡ some (idle, absolute)
unfolding refresh_lifetimes
lifetimes_set c idle absolute i j a b d = rw (a, b, d, positive idle i, positive absolute j) refl
  where
    positive : (n : ℕ) → 0 < n → ltb 0 n ≡ true
    positive n h = ground (arith, h)

-- The answer hands out the drawn text, in the family of the token that was presented and with its client,
-- user and session, with the idle lifetime counted from now and the absolute one from the issue of the presented token.
pub record IsRenewal (p : Platform) (fresh : Fresh) (now : ℕ) (t : RefreshToken) (c : Client)
    (idle absolute : ℕ) (r : RotateForClientResult) : Type 0 where
  pub text : r.issued.refresh_token ≡ p.base64url fresh.raw_bytes
  pub issued_id : r.issued.token_id ≡ r.token.id
  pub issued_family : r.issued.family_id ≡ t.family_id
  pub family : r.token.family_id ≡ t.family_id
  pub of_user : r.token.user_id ≡ t.user_id
  pub of_client : r.token.client_id ≡ t.client_id
  pub of_session : r.token.provider_session_id ≡ t.provider_session_id
  pub client_id : r.client.client_id ≡ c.client_id
  pub access_ttl : r.client.access_token_ttl_seconds ≡ c.access_token_ttl_seconds
  pub issued_idle : r.issued.idle_expires_at ≡ now + idle * 1000
  pub issued_absolute : r.issued.absolute_expires_at ≡ t.issued_at + absolute * 1000

-- A live token that its enabled, authenticated client, which may have refresh tokens, presents for an
-- active user is rotated: the endpoint returns the drawn text as a token of the same family, client,
-- user and session, which expires after the client's idle lifetime from now on, and after its absolute
-- lifetime from the issue of the presented token.
pub rotate_token_for_client-ok :
    (p : Platform) (input : RotateForClientInput) (fresh : Fresh) (now : ℕ) (s : Store)
    (t : RefreshToken) (c : Client) (user : User) (idle absolute : ℕ)
    → IsRotatable p input now s t c user idle absolute
    → (r : RotateForClientResult) × ((rotate_token_for_client p input fresh now s).0 ≡ ok r)
      × IsRenewal p fresh now t c idle absolute r
unfolding rotate_token_for_client rotate_checked refreshing_client active_user replace_token
    record_event
rotate_token_for_client-ok p input fresh now s t c user idle absolute z =
    let enabled : is_active_client c.status ≡ true = rw z.enabled refl in
    let allowed : is_active_user user.status ≡ true = rw z.allowed refl in
    rw
      (
        can_present p input.refresh_token t s z.found z.unrotated z.unrevoked now z.before_idle
            z.before_absolute,
        z.registered,
        lifetimes_set c idle absolute z.idle_positive z.absolute_positive z.allows z.idle_set
            z.absolute_set,
        enabled,
        assert_client_secret-ok p c input.client_secret z.authenticated,
        z.known,
        allowed,
      )
      (
        _,
        refl,
        record {
          text = refl;
          issued_id = refl;
          issued_family = refl;
          family = refl;
          of_user = refl;
          of_client = refl;
          of_session = refl;
          client_id = refl;
          access_ttl = refl;
          issued_idle = refl;
          issued_absolute = refl;
        },
      )
