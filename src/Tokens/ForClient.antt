-- ===== src/Tokens/ForClient.antt =====
-- `rotateTokenForClient`: the rotation of the token endpoint, which authenticates the client.
use oid.Shared.{ℕ, String, ◌==◌, Bool, ◌&&◌, if◌then◌else◌, Option, none, some, find_one}
use oid.Platform.{Platform, hash_secret}
use oid.Store.{
  Action, Result, ok, err, pure, gets, lift, or_throw, ◌>>=◌, ◌>>◌, unauthorized, Client,
  is_active_client, is_public, User, is_active_user, RefreshToken,
}
use oid.Tokens.Model.{
  ClientSummary, Fresh, RotateForClientInput, RotateForClientResult, summary, refresh_lifetimes,
  not_empty,
}
use oid.Tokens.Service.{rotate_with, successor_of, replace_token}

abbrev pub client_summary : Client → ClientSummary
client_summary client = record {
  id = client.id;
  client_id = client.client_id;
  access_token_ttl_seconds = client.access_token_ttl_seconds;
  id_token_ttl_seconds = client.id_token_ttl_seconds;
  allowed_claims = client.allowed_claims;
}

abbrev pub client_of : RefreshToken → String → Client → Bool
client_of current identifier c = c.id == current.client_id && c.client_id == identifier

-- The client with its lifetimes, if it is active and may have refresh tokens.
abbrev pub with_lifetimes : Client → Option (ℕ × ℕ) → Option (Client × ℕ × ℕ)
with_lifetimes c none = none
with_lifetimes c (some (idle, absolute)) =
    if is_active_client c.status then some (c, idle, absolute) else none

unfoldable pub refreshing_client : Option Client → Option (Client × ℕ × ℕ)
refreshing_client none = none
refreshing_client (some c) = with_lifetimes c (refresh_lifetimes c)

unfoldable pub active_user : Option User → Option User
active_user none = none
active_user (some u) = if is_active_user u.status then some u else none

module _ (p : Platform) where
  abbrev pub secret_matches : Option String → Option String → Result (Unit {0})
  secret_matches (some hash) (some secret) =
      if hash_secret p secret == hash
      then ok tt
      else err (unauthorized "Client authentication failed.")
  secret_matches _ _ = err (unauthorized "Client authentication required.")

  -- A public client needs no secret; of any other the secret must have the stored hash.
  unfoldable pub assert_client_secret : Client → Option String → Result (Unit {0})
  assert_client_secret client secret =
      if is_public client.type
      then ok tt
      else secret_matches (not_empty client.client_secret_hash) (not_empty secret)

  unfoldable pub rotate_checked :
      RotateForClientInput → Fresh → ℕ → RefreshToken → Action RotateForClientResult
  rotate_checked input fresh now current = do
    found ← gets (λ s. find_one (client_of current input.client_identifier) s.clients)
    (client, idle, absolute) ←
        lift (or_throw (refreshing_client found) (unauthorized "Invalid refresh token client."))
    lift (assert_client_secret client input.client_secret)
    found_user ← gets (λ s. find_one (λ u. u.id == current.user_id) s.users)
    lift (or_throw (active_user found_user) (unauthorized "Invalid refresh token user."))
    let successor =
        successor_of p current current.upstream_refresh_token_ciphertext idle absolute fresh now
    issued ← replace_token current successor (p.base64url fresh.raw_bytes) now
    pure (record { issued = issued; token = summary successor; client = client_summary client })

  unfoldable pub rotate_token_for_client :
      RotateForClientInput → Fresh → ℕ → Action RotateForClientResult
  rotate_token_for_client input fresh now =
      rotate_with p input.refresh_token now (rotate_checked input fresh now)
