-- ===== src/Oidc/Jwt.antt =====
-- The signing key and the signed tokens of oidc/oidc-token.service.ts.
use oid.Shared.{
  ℕ, ◌/◌, String, Bool, true, false, ◌||◌, List, ◌∷◌, Option, none, some, is_empty, concat, split,
  leb, if◌then◌else◌, find_one, save,
}
use oid.Json.{Json, str, num, obj, Fields, end, field, append_fields, member}
use oid.Platform.{Platform, prefixed_ulid}
use oid.Sealing.{seal, unseal}
use oid.Store.{
  Action, Result, ok, err, pure, gets, modify, ◌>>=◌, ◌>>◌, unauthorized, unexpected, SigningKey,
  SigningKeyStatus, is_active_key,
}

-- What generateKeyPairSync, two calls of ulid and randomBytes(12) draw for a signing key, and the
-- time `new Date()` at which it is made.
pub record FreshKey : Type 0 where
  pub public_jwk : Fields
  pub private_key_pem : String
  pub kid_ulid : String
  pub id_ulid : String
  pub iv : List ℕ
  pub made_at : ℕ

module _ (p : Platform) where
  abbrev pub new_signing_key : FreshKey → SigningKey
  new_signing_key fresh = record {
    id = prefixed_ulid p "sig" fresh.id_ulid;
    kid = prefixed_ulid p "kid" fresh.kid_ulid;
    algorithm = "RS256";
    public_jwk = append_fields fresh.public_jwk (
        field "kid" (str (prefixed_ulid p "kid" fresh.kid_ulid))
          (field "alg" (str "RS256") (field "use" (str "sig") end)));
    encrypted_private_key = seal p fresh.iv fresh.private_key_pem;
    status = SigningKeyStatus.active;
    activated_at = some fresh.made_at;
    retired_at = none;
  }

  create_key : FreshKey → Action SigningKey
  create_key fresh = do
    let signing_key = new_signing_key fresh
    modify (λ s. record s { signing_keys = save (λ k. k.id) signing_key s.signing_keys })
    pure signing_key

  use_or_create : FreshKey → Option SigningKey → Action SigningKey
  use_or_create fresh none = create_key fresh
  use_or_create fresh (some key) = pure key

  unfoldable pub get_or_create_active_signing_key : FreshKey → Action SigningKey
  unfolding create_key use_or_create
  get_or_create_active_signing_key fresh = do
    found ← gets (λ s. find_one (λ k. is_active_key k.status) s.signing_keys)
    use_or_create fresh found

  abbrev base64url_json : Fields → String
  base64url_json value = p.base64url (p.utf8 (p.json_stringify (obj value)))

  -- `${encodedHeader}.${encodedPayload}`
  abbrev pub signing_input : Fields → SigningKey → String
  signing_input payload key =
      concat
        (base64url_json
          (field "alg" (str "RS256") (field "typ" (str "JWT") (field "kid" (str key.kid) end))))
        (concat "." (base64url_json payload))

  with_signature : String → Option String → Result String
  with_signature input none = err unexpected
  with_signature input (some signature) = ok (concat input (concat "." signature))

  sign_with : String → Result String → Result String
  unfolding with_signature
  sign_with input (ok pem) = with_signature input (p.rsa_sign input pem)
  sign_with input (err e) = err e

  unfoldable pub sign_jwt : Fields → SigningKey → Result String
  unfolding sign_with
  sign_jwt payload key =
      sign_with (signing_input payload key)
        (unseal p (unauthorized "Invalid signing key.") key.encrypted_private_key)

  -- `JSON.parse(payload) as Record<string, unknown>`: an object. Of any other value the services
  -- would read the fields as undefined, and of null they would throw.
  abbrev as_fields : Option Json → Result Fields
  as_fields none = err unexpected
  as_fields (some (obj fields)) = ok fields
  as_fields (some Json.null) = err unexpected
  as_fields (some other) = ok end

  verified_payload : String → Option Bool → Result Fields
  verified_payload payload none = err unexpected
  verified_payload payload (some false) = err (unauthorized "Invalid JWT signature.")
  verified_payload payload (some true) =
      as_fields (p.json_parse (p.from_utf8 (p.from_base64url payload)))

  verify_parts : Fields → List String → Result Fields
  unfolding verified_payload
  verify_parts public_jwk (header ∷ payload ∷ signature ∷ _) =
      if is_empty header || is_empty payload || is_empty signature
      then err (unauthorized "Invalid JWT.")
      else verified_payload payload
          (p.rsa_verify (concat header (concat "." payload)) public_jwk signature)
  verify_parts public_jwk _ = err (unauthorized "Invalid JWT.")

  unfoldable pub verify_jwt_signature : String → Fields → Result Fields
  unfolding verify_parts
  verify_jwt_signature token public_jwk = verify_parts public_jwk (split b'.' token)

  -- `typeof payload.exp !== 'number' || payload.exp <= nowSeconds`
  abbrev pub has_expired : ℕ → Option Json → Bool
  has_expired now_seconds (some (num exp)) = leb exp now_seconds
  has_expired now_seconds _ = true

  unexpired : ℕ → Result Fields → Result Fields
  unexpired now (err e) = err e
  unexpired now (ok payload) =
      if has_expired (now / 1000) (member "exp" payload)
      then err (unauthorized "JWT expired.")
      else ok payload

  unfoldable pub verify_jwt : String → Fields → ℕ → Result Fields
  unfolding unexpired
  verify_jwt token public_jwk now = unexpired now (verify_jwt_signature token public_jwk)
