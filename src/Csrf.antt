-- ===== src/Csrf.antt =====
-- admin/admin-csrf.service.ts: the signed double-submit token of the back office.
pub mod Acceptance
use oid.Shared.{
  ℕ, String, Bool, true, false, not, ◌&&◌, ◌||◌, List, [], ◌∷◌, Option, none, some, truthy,
  is_empty, concat, split, leb, if◌then◌else◌,
}
use oid.Platform.{Platform, hash_secret}
use oid.Store.{Result, ok, err, HttpException, forbidden}

-- Two buffers have the same length and, by timingSafeEqual, the same bytes.
unfoldable pub same_bytes : List ℕ → List ℕ → Bool
same_bytes [] [] = true
same_bytes (a ∷ xs) (b ∷ ys) = leb a b && leb b a && same_bytes xs ys
same_bytes _ _ = false

abbrev pub invalid_csrf : HttpException
invalid_csrf = forbidden "Invalid CSRF token."

module _ (p : Platform) where
  -- The hex digest of `${nonce}:${secret}`.
  abbrev pub csrf_signature : String → String
  csrf_signature nonce = hash_secret p (concat nonce (concat ":" p.secret))

  -- `generateToken`, where randomBytes(16) drew the bytes of the nonce.
  unfoldable pub generate_csrf_token : List ℕ → String
  generate_csrf_token nonce_bytes =
      let nonce = p.hex nonce_bytes in concat nonce (concat "." (csrf_signature nonce))

  -- `const [cookieNonce = '', cookieSignature = ''] = cookieToken.split('.')`
  abbrev pub parts_of : List String → String × String
  parts_of (nonce ∷ signature ∷ _) = (nonce, signature)
  parts_of (nonce ∷ []) = (nonce, "")
  parts_of [] = ("", "")

  abbrev pub assert_parts : String → String → String × String → Result (Unit {0})
  assert_parts submitted cookie (nonce, signature) =
      if not (is_empty nonce)
        && not (is_empty signature)
        && same_bytes (p.utf8 signature) (p.utf8 (csrf_signature nonce))
        && same_bytes (p.utf8 submitted) (p.utf8 cookie)
      then ok tt
      else err invalid_csrf

  -- `assertToken`
  unfoldable pub assert_csrf_token : Option String → Option String → Result (Unit {0})
  assert_csrf_token (some submitted) (some cookie) =
      if truthy (some submitted) && truthy (some cookie)
      then assert_parts submitted cookie (parts_of (split b'.' cookie))
      else err invalid_csrf
  assert_csrf_token _ _ = err invalid_csrf
