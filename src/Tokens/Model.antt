-- ===== src/Tokens/Model.antt =====
-- The inputs and results of tokens/refresh-token.service.ts (tokens/refresh-token.types.ts), its
-- private helpers and the functions at its end.
-- `now` is `input.now ?? new Date()`; what randomBytes and ulid draw is the argument `fresh`.
-- The row locks make two presentations of one token follow one another, as here.
use oid.Shared.{
  ℕ, String, ◌==◌, Bool, ◌&&◌, ◌||◌, leb, if◌then◌else◌, List, Option, none, some, is_some, truthy,
  truthy_number, find_rows, update_rows, save,
}
use oid.Store.{
  Store, Action, Result, ok, err, gets, modify, ◌>>◌, unauthorized, Client, RefreshToken,
}

-- What randomBytes(32), randomBytes(12) and two calls of ulid draw for one token.
pub record Fresh : Type 0 where
  pub raw_bytes : List ℕ
  pub iv : List ℕ
  pub token_ulid : String
  pub family_ulid : String

-- tokens/refresh-token.types.ts
pub record IssueInput : Type 0 where
  pub user_id : String
  pub client_id : String
  pub provider_session_id : Option String
  pub idle_ttl_seconds : ℕ
  pub absolute_ttl_seconds : ℕ
  pub upstream_refresh_token : Option String

pub record IssueForClientInput : Type 0 where
  pub user_id : String
  pub client_identifier : String
  pub provider_session_id : Option String
  pub upstream_refresh_token : Option String

pub record IssueResult : Type 0 where
  pub refresh_token : String
  pub token_id : String
  pub family_id : String
  pub idle_expires_at : ℕ
  pub absolute_expires_at : ℕ

pub record RotateInput : Type 0 where
  pub refresh_token : String
  pub idle_ttl_seconds : ℕ
  pub absolute_ttl_seconds : ℕ
  pub upstream_refresh_token : Option String

pub record RotateForClientInput : Type 0 where
  pub refresh_token : String
  pub client_identifier : String
  pub client_secret : Option String

pub record TokenSummary : Type 0 where
  pub id : String
  pub family_id : String
  pub user_id : String
  pub client_id : String
  pub provider_session_id : Option String

pub record ClientSummary : Type 0 where
  pub id : String
  pub client_id : String
  pub access_token_ttl_seconds : ℕ
  pub id_token_ttl_seconds : ℕ
  pub allowed_claims : List String

pub record ResolvedGrant : Type 0 where
  pub upstream_refresh_token : String
  pub token : TokenSummary

pub record RotateForClientResult : Type 0 where
  pub issued : IssueResult
  pub token : TokenSummary
  pub client : ClientSummary

-- `{ replayDetected: true }`, or what the transaction computed.
pub data Checked (A : Type 0) : Type 0 where
  replay_detected : Checked A
  checked : A → Checked A

abbrev pub restore_tokens : Store → Store → Store
restore_tokens before after = record after { refresh_tokens = before.refresh_tokens }

abbrev pub set_tokens : (List RefreshToken → List RefreshToken) → Store → Store
set_tokens f s = record s { refresh_tokens = f s.refresh_tokens }

abbrev pub save_token : RefreshToken → Action (Unit {0})
save_token t = modify (set_tokens (save (λ r. r.id) t))

abbrev pub in_family : String → RefreshToken → Bool
in_family family t = t.family_id == family

-- One round of the loop of `revokeFamily`.
abbrev pub mark_revoked : ℕ → String → RefreshToken → RefreshToken
mark_revoked now reason t = record t {
  revoked_at = if is_some t.revoked_at then t.revoked_at else some now;
  revocation_reason = if truthy t.revocation_reason then t.revocation_reason else some reason;
}

-- The entities that `find` returns are changed and saved under their own ids: the rows of the
-- family are changed in place. The result is the family.
unfoldable pub revoke_family : String → ℕ → String → Action (List RefreshToken)
revoke_family family now reason = do
  modify (set_tokens (update_rows (in_family family) (mark_revoked now reason)))
  gets (λ s. find_rows (in_family family) s.refresh_tokens)

unfoldable pub assert_token_is_usable : RefreshToken → ℕ → Result (Unit {0})
assert_token_is_usable token now =
    if is_some token.revoked_at
    then err (unauthorized "Refresh token has been revoked.")
    else if leb token.idle_expires_at now || leb token.absolute_expires_at now
    then err (unauthorized "Refresh token has expired.")
    else ok tt

abbrev pub summary : RefreshToken → TokenSummary
summary t = record {
  id = t.id;
  family_id = t.family_id;
  user_id = t.user_id;
  client_id = t.client_id;
  provider_session_id = t.provider_session_id;
}

abbrev or_zero : Option ℕ → ℕ
or_zero none = 0
or_zero (some n) = n

-- The idle and the absolute lifetime, if the client may have refresh tokens.
unfoldable pub refresh_lifetimes : Client → Option (ℕ × ℕ)
refresh_lifetimes c =
    if c.allow_refresh_tokens
      && truthy_number c.refresh_token_idle_ttl_seconds
      && truthy_number c.refresh_token_absolute_ttl_seconds
    then some
        (or_zero c.refresh_token_idle_ttl_seconds, or_zero c.refresh_token_absolute_ttl_seconds)
    else none

-- A nullable text that is not empty.
abbrev pub not_empty : Option String → Option String
not_empty t = if truthy t then t else none
