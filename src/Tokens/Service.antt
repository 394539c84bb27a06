-- ===== src/Tokens/Service.antt =====
-- The methods of `RefreshTokenService`. `now` is `input.now ?? new Date()`; what randomBytes and
-- ulid draw is the argument `fresh`. The row locks make two presentations of one token follow one
-- another, as here.
use oid.Shared.{ℕ, String, ◌==◌, ◌&&◌, if◌then◌else◌, List, Option, none, some, truthy, find_one}
use oid.Json.{str, obj, end, field}
use oid.Platform.{Platform, hash_secret, prefixed_ulid, add_seconds}
use oid.Sealing.{seal, unseal}
use oid.Store.{
  Action, Result, ok, err, pure, gets, lift, or_throw, transaction, ◌>>=◌, ◌>>◌, unauthorized,
  not_found, conflict, internal_server_error, Client, is_active_client, RefreshToken, AuditEvent,
  AuditSeverity,
}
use oid.Audit.{record_event, no_event}
use oid.Tokens.Model.{
  Fresh, IssueInput, IssueForClientInput, IssueResult, RotateInput, ResolvedGrant, Checked,
  replay_detected, checked, restore_tokens, save_token, revoke_family, assert_token_is_usable,
  summary, refresh_lifetimes, not_empty,
}

-- The columns that every event about a token shares.
abbrev pub token_event : RefreshToken → AuditEvent
token_event t = record no_event {
  actor_user_id = some t.user_id;
  client_id = some t.client_id;
  provider_session_id = t.provider_session_id;
}

abbrev pub throw_if_replayed : {A : Type 0} → Checked A → Result A
throw_if_replayed replay_detected =
    err (conflict "Refresh token replay detected. Token family revoked.")
throw_if_replayed (checked a) = ok a

abbrev pub on_checked : {A B : Type 0} → Checked A → (A → Action B) → Action (Checked B)
on_checked replay_detected f = pure replay_detected
on_checked (checked a) f = do b ← f a; pure (checked b)

abbrev pub issue_result : String → RefreshToken → IssueResult
issue_result raw t = record {
  refresh_token = raw;
  token_id = t.id;
  family_id = t.family_id;
  idle_expires_at = t.idle_expires_at;
  absolute_expires_at = t.absolute_expires_at;
}

-- The body of `if (currentToken.rotatedToTokenId)`.
unfoldable pub detect_replay : RefreshToken → ℕ → Action (Checked RefreshToken)
detect_replay current now = do
  revoke_family current.family_id now "replay_detected"
  record_event (record (token_event current) {
    event_type = "oidc.refresh_token.replay_detected";
    severity = AuditSeverity.critical;
    metadata_json =
        some
          (obj (field "tokenId" (str current.id) (field "familyId" (str current.family_id) end)));
  })
  pure replay_detected

-- `assertTokenIsUsable(currentToken, now)`, then the token is returned.
abbrev pub usable_token : RefreshToken → ℕ → Action (Checked RefreshToken)
usable_token current now = do lift (assert_token_is_usable current now); pure (checked current)

abbrev pub rotated_away : RefreshToken → String → ℕ → RefreshToken
rotated_away current successor_id now = record current {
  last_used_at = some now;
  rotated_to_token_id = some successor_id;
  revoked_at = some now;
  revocation_reason = some "rotated";
}

-- What `rotateToken` and `rotateTokenForClient` end with.
unfoldable pub replace_token : RefreshToken → RefreshToken → String → ℕ → Action IssueResult
replace_token current successor raw now = do
  save_token successor
  save_token (rotated_away current successor.id now)
  record_event (record (token_event current) {
    event_type = "oidc.refresh_token.rotated";
    metadata_json = some (
        obj (
          field "tokenId" (str current.id) (
            field "successorTokenId" (str successor.id)
              (field "familyId" (str current.family_id) end))));
  })
  pure (issue_result raw successor)

module _ (p : Platform) where
  abbrev pub find_token : String → List RefreshToken → Option RefreshToken
  find_token raw = find_one (λ t. t.token_hash == hash_secret p raw)

  -- `given ? encrypt(given) : otherwise`
  abbrev pub seal_given : List ℕ → Option String → Option String → Option String
  seal_given iv none otherwise = otherwise
  seal_given iv (some text) otherwise =
      if truthy (some text) then some (seal p iv text) else otherwise

  abbrev pub first_token : IssueInput → Fresh → ℕ → RefreshToken
  first_token input fresh now = record {
    id = prefixed_ulid p "rtk" fresh.token_ulid;
    token_hash = hash_secret p (p.base64url fresh.raw_bytes);
    upstream_refresh_token_ciphertext = seal_given fresh.iv input.upstream_refresh_token none;
    user_id = input.user_id;
    client_id = input.client_id;
    provider_session_id = input.provider_session_id;
    parent_token_id = none;
    rotated_to_token_id = none;
    family_id = prefixed_ulid p "rtf" fresh.family_ulid;
    issued_at = now;
    last_used_at = none;
    idle_expires_at = add_seconds now input.idle_ttl_seconds;
    absolute_expires_at = add_seconds now input.absolute_ttl_seconds;
    revoked_at = none;
    revocation_reason = none;
  }

  unfoldable pub issue_token : IssueInput → Fresh → ℕ → Action IssueResult
  issue_token input fresh now = transaction restore_tokens do
    let entity = first_token input fresh now
    save_token entity
    record_event (record (token_event entity) {
      event_type = "oidc.refresh_token.rotated";
      metadata_json = some (
          obj (
            field "tokenId" (str entity.id) (
              field "familyId" (str entity.family_id)
                (field "issuedVia" (str "initial_issue") end))));
    })
    pure (issue_result (p.base64url fresh.raw_bytes) entity)

  -- `issueTokenForClient`; `none` is its result `null`.
  issue_with_lifetimes :
      IssueForClientInput → Fresh → ℕ → Client → Option (ℕ × ℕ) → Action (Option IssueResult)
  issue_with_lifetimes input fresh now client none = pure none
  issue_with_lifetimes input fresh now client (some (idle, absolute)) = do
    issued ←
        issue_token
          (record {
            user_id = input.user_id;
            client_id = client.id;
            provider_session_id = input.provider_session_id;
            idle_ttl_seconds = idle;
            absolute_ttl_seconds = absolute;
            upstream_refresh_token = input.upstream_refresh_token;
          })
          fresh now
    pure (some issued)

  unfoldable pub issue_token_for_client :
      IssueForClientInput → Fresh → ℕ → Action (Option IssueResult)
  unfolding issue_with_lifetimes
  issue_token_for_client input fresh now = do
    found ← gets (λ s.
        find_one (λ c. c.client_id == input.client_identifier && is_active_client c.status)
          s.clients)
    client ← lift (or_throw found (not_found "OIDC client not found."))
    issue_with_lifetimes input fresh now client (refresh_lifetimes client)

  -- What `resolveRefreshGrant`, `rotateToken` and `rotateTokenForClient` begin with.
  unfoldable pub present_token : String → ℕ → Action (Checked RefreshToken)
  present_token raw now = do
    found ← gets (λ s. find_token raw s.refresh_tokens)
    current ← lift (or_throw found (unauthorized "Invalid refresh token."))
    if truthy current.rotated_to_token_id
        then detect_replay current now
        else usable_token current now

  -- What `resolveRefreshGrant` does with the outcome of its transaction.
  abbrev pub open_grant : Checked RefreshToken → Action ResolvedGrant
  open_grant result = do
    token ← lift (throw_if_replayed result)
    ciphertext ← lift (
        or_throw (not_empty token.upstream_refresh_token_ciphertext)
          (internal_server_error "Refresh token is missing upstream mapping."))
    upstream ←
        lift (
          unseal p (internal_server_error "Refresh token mapping ciphertext is invalid.")
            ciphertext)
    pure (record { upstream_refresh_token = upstream; token = summary token })

  unfoldable pub resolve_refresh_grant : String → ℕ → Action ResolvedGrant
  resolve_refresh_grant raw now = do
    result ← transaction restore_tokens (present_token raw now)
    open_grant result

  -- The successor of a token: it keeps the family, the user, the client and the session.
  abbrev pub successor_of : RefreshToken → Option String → ℕ → ℕ → Fresh → ℕ → RefreshToken
  successor_of current ciphertext idle_ttl absolute_ttl fresh now = record {
    id = prefixed_ulid p "rtk" fresh.token_ulid;
    token_hash = hash_secret p (p.base64url fresh.raw_bytes);
    upstream_refresh_token_ciphertext = ciphertext;
    user_id = current.user_id;
    client_id = current.client_id;
    provider_session_id = current.provider_session_id;
    parent_token_id = some current.id;
    rotated_to_token_id = none;
    family_id = current.family_id;
    issued_at = now;
    last_used_at = none;
    idle_expires_at = add_seconds now idle_ttl;
    absolute_expires_at = add_seconds current.issued_at absolute_ttl;
    revoked_at = none;
    revocation_reason = none;
  }

  -- The transaction of a rotation, and what follows it: a usable token is handed to `replace`; a
  -- replay is committed before it is thrown.
  abbrev pub rotate_with : {B : Type 0} → String → ℕ → (RefreshToken → Action B) → Action B
  rotate_with raw now replace = do
    result ←
        transaction restore_tokens
          do presented ← present_token raw now; on_checked presented replace
    lift (throw_if_replayed result)

  unfoldable pub rotate_token : RotateInput → Fresh → ℕ → Action IssueResult
  rotate_token input fresh now = rotate_with input.refresh_token now λ current.
      replace_token current
        (successor_of current
          (seal_given fresh.iv input.upstream_refresh_token
            current.upstream_refresh_token_ciphertext)
          input.idle_ttl_seconds input.absolute_ttl_seconds fresh now)
        (p.base64url fresh.raw_bytes) now
