-- ===== src/Examples/Host.antt =====
-- A toy platform: hashing and encryption change nothing, a letter is its place in the alphabet, and
-- a byte n is written as n letters A and a B.
use Prim.Native.Char.{code}
use Prim.Native.Nat.{zero, suc}
use oid.Shared.{
  ℕ, ◌+◌, ◌-◌, String, List, [], ◌∷◌, some, ◌≡◌, refl, ◌∙◌, is_empty, false, true, arith, ◌≢◌,
  concat, leb, if◌then◌else◌,
}
use oid.Json.{str, num, obj, Fields, end, field}
use oid.Platform.{Platform}
use oid.Sealing.RoundTrip.{IsLawful, IsUndotted}

abbrev run : ℕ → String → String
run zero rest = concat "B" rest
run (suc n) rest = concat "A" (run n rest)

abbrev encode : List ℕ → String
encode [] = ""
encode (n ∷ bytes) = run n (encode bytes)

abbrev decode : ℕ → String → List ℕ
decode k String.[] = []
decode k (String.◌∷◌ c s) = if leb (code c) b'A' then decode (suc k) s else k ∷ decode 0 s

abbrev places : String → List ℕ
places String.[] = []
places (String.◌∷◌ c s) = (code c - 96) ∷ places s

abbrev letter : ℕ → String
letter n = if leb n 1 then "a" else if leb n 2 then "b" else "c"

abbrev letters : List ℕ → String
letters [] = ""
letters (n ∷ bytes) = concat (letter n) (letters bytes)

-- The payload that every signed token of the toy platform carries.
abbrev pub payload : Fields
payload = field "iss" (str "a") (
    field "token_use" (str "access") (
      field "exp" (num 100) (
        field "sub" (str "usr_1")
          (field "aud" (str "app") (field "scope" (str "openid email") end)))))

abbrev pub host : Platform
host = record {
  sha256 = λ bytes. bytes;
  utf8 = places;
  from_utf8 = letters;
  hex = encode;
  base64url = encode;
  from_base64url = decode 0;
  gcm_encrypt = λ key iv plaintext. (plaintext, 1 ∷ []);
  gcm_decrypt = λ key iv tag ciphertext. some ciphertext;
  json_stringify = λ v. "abc";
  json_parse = λ s. some (obj payload);
  string_of = λ v. "b";
  rsa_sign = λ input pem. some "c";
  rsa_verify = λ input jwk signature. some true;
  to_lower_case = λ s. s;
  set_params = λ url params. some url;
  delete_param = λ url name. some url;
  search_params = λ params. "b";
  iso_string = λ ms. "c";
  url_path = λ s. some s;
  url_parts = λ s. some ("https:", "");
  decode_uri_component = λ s. some s;
  secret = "cab";
  base_url = "a";
  login_path = "/login";
}

at_head : {m n : ℕ} (rest : List ℕ) → m ≡ n → m ∷ rest ≡ n ∷ rest
at_head rest e = rw e refl

decode-run : (k n : ℕ) (rest : String) → decode k (run n rest) ≡ (k + n) ∷ decode 0 rest
decode-run k zero rest = at_head (decode 0 rest) (omega arith)
decode-run k (suc n) rest = decode-run (suc k) n rest ∙ at_head (decode 0 rest) (omega arith)

decode-encode : (bytes : List ℕ) → decode 0 (encode bytes) ≡ bytes
decode-encode [] = refl
decode-encode (n ∷ bytes) =
    decode-run 0 n (encode bytes) ∙ at_head {n = n} _ (omega arith) ∙ rw (decode-encode bytes) refl

run-IsUndotted : (n : ℕ) (rest : String) → IsUndotted rest → IsUndotted (run n rest)
run-IsUndotted zero rest h = (refl, h)
run-IsUndotted (suc n) rest h = (refl, run-IsUndotted n rest h)

encode-IsUndotted : (bytes : List ℕ) → IsUndotted (encode bytes)
encode-IsUndotted [] = tt
encode-IsUndotted (n ∷ bytes) = run-IsUndotted n _ (encode-IsUndotted bytes)

run-full : (n : ℕ) (rest : String) → is_empty (run n rest) ≡ false
run-full zero rest = refl
run-full (suc n) rest = refl

encode-full : (bytes : List ℕ) → bytes ≢ [] → is_empty (encode bytes) ≡ false
encode-full [] h = absurd (h refl)
encode-full (n ∷ bytes) h = run-full n (encode bytes)

pub host-IsLawful : IsLawful host
host-IsLawful = record {
  round_trip = λ bytes _. decode-encode bytes;
  undotted = λ bytes _. encode-IsUndotted bytes;
  full = λ bytes _. encode-full bytes;
}
