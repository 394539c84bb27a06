-- ===== src/Platform.antt =====
-- What the services call and do not implement, as parameters: node:crypto, Buffer, the parts of
-- the language's library that need Unicode tables or a URL parser, and the configuration.
-- A Buffer is the list of its bytes, a Date is its milliseconds since the epoch.
use oid.Shared.{Bool, ℕ, ◌+◌, ◌*◌, String, List, Option, concat}
use oid.Json.{Json, Fields}

pub record Platform : Type 0 where
  -- createHash('sha256').update(bytes).digest()
  pub sha256 : List ℕ → List ℕ
  -- Buffer.from(text, 'utf8') and buffer.toString('utf8')
  pub utf8 : String → List ℕ
  pub from_utf8 : List ℕ → String
  -- buffer.toString('hex'), buffer.toString('base64url') and Buffer.from(text, 'base64url')
  pub hex : List ℕ → String
  pub base64url : List ℕ → String
  pub from_base64url : String → List ℕ
  -- aes-256-gcm: key, iv, plaintext to ciphertext and tag; key, iv, tag, ciphertext back, where
  -- `none` is the exception of a tag that does not match.
  pub gcm_encrypt : List ℕ → List ℕ → List ℕ → List ℕ × List ℕ
  pub gcm_decrypt : List ℕ → List ℕ → List ℕ → List ℕ → Option (List ℕ)
  -- JSON.stringify(value) and JSON.parse(text); `none` is a SyntaxError.
  pub json_stringify : Json → String
  pub json_parse : String → Option Json
  -- String(value) for a value that is not a text.
  pub string_of : Json → String
  -- createSign('RSA-SHA256') over a text with a PEM key, base64url; createVerify over a text with a
  -- public JWK and a signature. `none` is an exception for a bad key.
  pub rsa_sign : String → String → Option String
  pub rsa_verify : String → Fields → String → Option Bool
  -- text.toLowerCase()
  pub to_lower_case : String → String
  -- new URL(text) with searchParams.set for each pair in turn, as a text; new URL(text, base) with
  -- searchParams.delete(name), its path and query. `none` is an exception for a text that is no URL.
  pub set_params : String → List (String × String) → Option String
  pub delete_param : String → String → Option String
  -- new URLSearchParams(pairs).toString() and new Date(ms).toISOString()
  pub search_params : List (String × String) → String
  pub iso_string : ℕ → String
  -- new URL(text): its path, query and fragment in one text; and its protocol and its fragment. `none`
  -- is an exception for a text that is no URL.
  pub url_path : String → Option String
  pub url_parts : String → Option (String × String)
  -- decodeURIComponent(text); `none` is a URIError.
  pub decode_uri_component : String → Option String
  -- configService.get('betterAuth.secret'), ('app.baseUrl') and ('betterAuth.loginPath')
  pub secret : String
  pub base_url : String
  pub login_path : String

module _ (p : Platform) where
  -- createHash('sha256').update(text).digest('hex'), in the source `hashRefreshToken`,
  -- `hashSecret` and `hashToken`.
  unfoldable pub hash_secret : String → String
  hash_secret text = p.hex (p.sha256 (p.utf8 text))

  -- createHash('sha256').update(text).digest('base64url')
  unfoldable pub hash_base64url : String → String
  hash_base64url text = p.base64url (p.sha256 (p.utf8 text))

  -- `prefix_${ulid().toLowerCase()}`
  abbrev pub prefixed_ulid : String → String → String
  prefixed_ulid prefix ulid = concat prefix (concat "_" (p.to_lower_case ulid))

-- new Date(date.getTime() + ttlSeconds * 1000)
abbrev pub add_seconds : ℕ → ℕ → ℕ
add_seconds date ttl_seconds = date + ttl_seconds * 1000
