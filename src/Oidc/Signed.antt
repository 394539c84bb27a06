-- ===== src/Oidc/Signed.antt =====
-- What a bearer token and its signature are, and the key that signs.
use oid.Shared.{
  split, is_empty, concat, List, [], ◌∷◌, String, ◌==◌, eq_iff, ◌≡◌, refl, ◌⊎◌, subst, inl, inr,
  Bool, true, false, Option, none, some, Bool-cases, Option-cases, find_one, find_one-passes,
}
use oid.Json.{Json, bool, arr, obj, end, str, num, Fields}
use oid.Platform.{Platform}
use oid.Store.{
  Store, Result, ok, err, HttpException, unauthorized, is_active_key, unexpected, SigningKey,
  SigningKeyStatus,
}
use oid.Oidc.Jwt.{FreshKey, get_or_create_active_signing_key, verify_jwt_signature}
use oid.Oidc.Endpoints.{extract_bearer_token}

-- The fields of an object; other values have none.
abbrev pub fields_of : Json → Fields
fields_of (obj fields) = fields
fields_of _ = end

-- A token in three parts, or more, of which none of the three is empty; the third is a signature of the
-- first two that verifies with the key, and the second is the encoded text of the payload.
pub record IsSignedBy (p : Platform) (token : String) (jwk : Fields) (payload : Fields)
    : Type 0 where
  pub header : String
  pub body : String
  pub signature : String
  pub others : List String
  pub parts : split b'.' token ≡ header ∷ body ∷ signature ∷ others
  pub full : (is_empty header ≡ false) × (is_empty body ≡ false) × (is_empty signature ≡ false)
  pub verified : p.rsa_verify (concat header (concat "." body)) jwk signature ≡ some true
  pub json : Json
  pub parsed : p.json_parse (p.from_utf8 (p.from_base64url body)) ≡ some json
  pub fields : payload ≡ fields_of json

-- How the check of a signature ends.
abbrev pub Verifies : Platform → String → Fields → Result Fields → Type 0
Verifies p token jwk r =
    ((e : HttpException) × (r ≡ err e))
    ⊎ ((payload : Fields) × (r ≡ ok payload) × IsSignedBy p token jwk payload)

module _ (p : Platform) (token : String) (jwk : Fields) where
  module _ (header body signature : String) (others : List String)
      (parts : split b'.' token ≡ header ∷ body ∷ signature ∷ others)
      (full : (is_empty header ≡ false)
        × (is_empty body ≡ false)
        × (is_empty signature ≡ false)) where
    module _
        (verified : p.rsa_verify (concat header (concat "." body)) jwk signature ≡ some true) where
      signed :
          (json : Json)
          → p.json_parse (p.from_utf8 (p.from_base64url body)) ≡ some json
          → (payload : Fields) → payload ≡ fields_of json
          → IsSignedBy p token jwk payload
      signed json parsed payload fields = record {
        header = header;
        body = body;
        signature = signature;
        others = others;
        parts = parts;
        full = full;
        verified = verified;
        json = json;
        parsed = parsed;
        fields = fields;
      }

      parsed_cases :
          (o : Option Json)
          → p.json_parse (p.from_utf8 (p.from_base64url body)) ≡ o
          → Verifies p token jwk (verify_jwt_signature p token jwk)
      unfolding verify_jwt_signature
      parsed_cases none parsed =
          let (a, b, c) = full in inl (unexpected, rw (parts, a, b, c, verified, parsed) refl)
      parsed_cases (some Json.null) parsed =
          let (a, b, c) = full in inl (unexpected, rw (parts, a, b, c, verified, parsed) refl)
      parsed_cases (some (bool x)) parsed =
          let (a, b, c) = full in
          inr (end, rw (parts, a, b, c, verified, parsed) refl, signed (bool x) parsed end refl)
      parsed_cases (some (num n)) parsed =
          let (a, b, c) = full in
          inr (end, rw (parts, a, b, c, verified, parsed) refl, signed (num n) parsed end refl)
      parsed_cases (some (str t)) parsed =
          let (a, b, c) = full in
          inr (end, rw (parts, a, b, c, verified, parsed) refl, signed (str t) parsed end refl)
      parsed_cases (some (arr items)) parsed =
          let (a, b, c) = full in
          inr (end, rw (parts, a, b, c, verified, parsed) refl, signed (arr items) parsed end refl)
      parsed_cases (some (obj fields)) parsed =
          let (a, b, c) = full in
          inr (
            fields,
            rw (parts, a, b, c, verified, parsed) refl,
            signed (obj fields) parsed fields refl,
          )

    verified_cases :
        (o : Option Bool)
        → p.rsa_verify (concat header (concat "." body)) jwk signature ≡ o
        → Verifies p token jwk (verify_jwt_signature p token jwk)
    unfolding verify_jwt_signature
    verified_cases none e = let (a, b, c) = full in inl (unexpected, rw (parts, a, b, c, e) refl)
    verified_cases (some false) e =
        let (a, b, c) = full in
        inl (unauthorized "Invalid JWT signature.", rw (parts, a, b, c, e) refl)
    verified_cases (some true) e = parsed_cases e _ refl

  pub parts_cases :
      (list : List String)
      → split b'.' token ≡ list
      → Verifies p token jwk (verify_jwt_signature p token jwk)
  unfolding verify_jwt_signature
  parts_cases [] e = inl (unauthorized "Invalid JWT.", rw e refl)
  parts_cases (header ∷ []) e = inl (unauthorized "Invalid JWT.", rw e refl)
  parts_cases (header ∷ body ∷ []) e = inl (unauthorized "Invalid JWT.", rw e refl)
  parts_cases (header ∷ body ∷ signature ∷ others) e = elim (Bool-cases (is_empty header)) [
    | inl a ↦ inl (unauthorized "Invalid JWT.", rw (e, a) refl)
    | inr a ↦ elim (Bool-cases (is_empty body)) [
      | inl b ↦ inl (unauthorized "Invalid JWT.", rw (e, a, b) refl)
      | inr b ↦ elim (Bool-cases (is_empty signature)) [
        | inl c ↦ inl (unauthorized "Invalid JWT.", rw (e, a, b, c) refl)
        | inr c ↦ verified_cases header body signature others e (a, b, c) _ refl
      ]
    ]
  ]

-- The header is the word Bearer, a blank, and the token, up to a second blank.
pub data IsBearer : Option String → String → Type 0 where
  bearer :
      (header token : String) (others : List String)
      → split b' ' header ≡ "Bearer" ∷ token ∷ others
      → is_empty token ≡ false
      → IsBearer (some header) token

header_parts :
    (header : String) (list : List String)
    → split b' ' header ≡ list
    → (extract_bearer_token (some header) ≡ none)
      ⊎ ((token : String) × (extract_bearer_token (some header) ≡ some token)
          × IsBearer (some header) token)
unfolding extract_bearer_token
header_parts header [] e = inl (rw e refl)
header_parts header (scheme ∷ []) e = inl (rw e refl)
header_parts header (scheme ∷ token ∷ others) e = elim (Bool-cases (scheme == "Bearer")) [
  | inr a ↦ inl (rw (e, a) refl)
  | inl a ↦ elim (Bool-cases (is_empty token)) [
    | inl b ↦ inl (rw (e, a, b) refl)
    | inr b ↦ inr (
      token,
      rw (e, a, b) refl,
      IsBearer.bearer header token others
          (subst (λ x. split b' ' header ≡ x ∷ token ∷ others) ((eq_iff _ _).0 a) e) b,
    )
  ]
]

pub header_cases :
    (header : Option String)
    → (extract_bearer_token header ≡ none)
      ⊎ ((token : String) × (extract_bearer_token header ≡ some token) × IsBearer header token)
unfolding extract_bearer_token
header_cases none = inl refl
header_cases (some header) = header_parts header _ refl

active_key :
    (status : SigningKeyStatus) → is_active_key status ≡ true → status ≡ SigningKeyStatus.active
active_key SigningKeyStatus.active e = refl
active_key _ e = cc

pub made_key-active :
    (p : Platform) (fresh : FreshKey) (s : Store) (key : SigningKey)
    → (get_or_create_active_signing_key p fresh s).0 ≡ ok key
    → key.status ≡ SigningKeyStatus.active
unfolding get_or_create_active_signing_key
made_key-active p fresh s key h =
    elim (Option-cases (find_one (λ k. is_active_key k.status) s.signing_keys)) [
      | inl e ↦ rw (← ok-eq (rw e at h)) refl
      | inr (k, e) ↦
          rw (← ok-eq (rw e at h))
            (active_key k.status (find_one-passes (λ k. is_active_key k.status) s.signing_keys e))
    ]
  where
    ok-eq : {a b : SigningKey} → ◌≡◌ {A = Result SigningKey} (ok a) (ok b) → a ≡ b
    ok-eq e = cc
