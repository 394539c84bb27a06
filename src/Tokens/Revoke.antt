-- ===== src/Tokens/Revoke.antt =====
-- `revokeTokenFamily` and `revokePresentedToken`.
use oid.Shared.{ℕ, String, List, [], ◌∷◌, Option, none, some, length}
use oid.Json.{num, str, obj, end, field}
use oid.Platform.{Platform}
use oid.Store.{Action, pure, gets, transaction, ◌>>=◌, RefreshToken}
use oid.Audit.{record_event}
use oid.Tokens.Model.{restore_tokens, revoke_family}
use oid.Tokens.Service.{find_token, token_event}

abbrev record_revocation : RefreshToken → String → ℕ → Action (Unit {0})
record_revocation sample reason revoked = record_event (record (token_event sample) {
  event_type = "oidc.refresh_token.revoked";
  metadata_json = some (
      obj (
        field "familyId" (str sample.family_id)
          (field "reason" (str reason) (field "revokedTokenCount" (num revoked) end))));
})

-- The event names the first token of the family; an unknown family leaves no event.
record_first : String → List RefreshToken → Action (Unit {0})
record_first reason [] = pure tt
record_first reason (sample ∷ rest) = record_revocation sample reason (length (sample ∷ rest))

unfoldable pub revoke_token_family : String → String → ℕ → Action (Unit {0})
unfolding record_first
revoke_token_family family reason now =
    transaction restore_tokens
      do tokens ← revoke_family family now reason; record_first reason tokens

module _ (p : Platform) where
  revoke_found : String → ℕ → Option RefreshToken → Action (Unit {0})
  revoke_found reason now none = pure tt
  revoke_found reason now (some token) = do
    tokens ← revoke_family token.family_id now reason
    record_revocation token reason (length tokens)

  unfoldable pub revoke_presented_token : String → String → ℕ → Action (Unit {0})
  unfolding revoke_found
  revoke_presented_token raw reason now =
      transaction restore_tokens
        do found ← gets (λ s. find_token p raw s.refresh_tokens); revoke_found reason now found
