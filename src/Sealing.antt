-- ===== src/Sealing.antt =====
-- Texts encrypted at rest: `encryptUpstreamRefreshToken` and `decryptUpstreamRefreshToken` of
-- tokens/refresh-token.service.ts, `encryptText` and `decryptText` of oidc/oidc-token.service.ts.
pub mod RoundTrip
use oid.Shared.{
  ℕ, String, List, [], ◌∷◌, is_empty, ◌||◌, if◌then◌else◌, split, join, none, some, Option,
}
use oid.Platform.{Platform}
use oid.Store.{Result, ok, err, HttpException, unexpected}

module _ (p : Platform) where
  abbrev pub sealing_key : List ℕ
  sealing_key = p.sha256 (p.utf8 p.secret)

  -- The parts are the iv, the authentication tag and the ciphertext.
  unfoldable pub seal : List ℕ → String → String
  seal iv text =
      let (ciphertext, auth_tag) = p.gcm_encrypt sealing_key iv (p.utf8 text) in
      join "." (p.base64url iv ∷ p.base64url auth_tag ∷ p.base64url ciphertext ∷ [])

  -- The tag did not match.
  abbrev decrypted : Option (List ℕ) → Result String
  decrypted none = err unexpected
  decrypted (some plaintext) = ok (p.from_utf8 plaintext)

  -- A part that is missing or empty is refused with `invalid`; parts after the third are ignored.
  unseal_parts : HttpException → List String → Result String
  unseal_parts invalid (iv ∷ auth_tag ∷ payload ∷ _) =
      if is_empty iv || is_empty auth_tag || is_empty payload
      then err invalid
      else decrypted (
          p.gcm_decrypt sealing_key (p.from_base64url iv) (p.from_base64url auth_tag)
            (p.from_base64url payload))
  unseal_parts invalid _ = err invalid

  unfoldable pub unseal : HttpException → String → Result String
  unfolding unseal_parts
  unseal invalid text = unseal_parts invalid (split b'.' text)
