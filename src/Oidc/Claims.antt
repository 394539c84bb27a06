-- ===== src/Oidc/Claims.antt =====
-- `buildUserClaims` of oidc/oidc-token.service.ts: which claims about a user a client receives.
use oid.Shared.{String, Bool, ◌&&◌, List, is_some, includes, split, if◌then◌else◌}
use oid.Json.{Json, str, bool, Fields, end, field, nullable_str}
use oid.Store.{User, UserProfileType, employee, contractor, service}

abbrev profile_type_name : UserProfileType → String
profile_type_name employee = "employee"
profile_type_name contractor = "contractor"
profile_type_name service = "service"

-- `if (allowed) claims.name = value`
abbrev pub claim_if : Bool → String → Json → Fields → Fields
claim_if allowed name value rest = if allowed then field name value rest else rest

-- The scope, a list of words, holds the word.
abbrev pub has_scope : String → String → Bool
has_scope word scope = includes word (split b' ' scope)

-- `scopes.has('profile') && allowedClaims.includes(name)`
abbrev pub profile_claim : String → List String → String → Bool
profile_claim scope allowed name = has_scope "profile" scope && includes name allowed

abbrev pub email_claim : String → List String → Bool
email_claim scope allowed = has_scope "email" scope && includes "email" allowed

abbrev profile_claims : User → String → List String → Fields
profile_claims user scope allowed =
    claim_if (profile_claim scope allowed "name") "name" (str user.display_name) (
      claim_if (profile_claim scope allowed "given_name") "given_name"
        (nullable_str user.given_name)
        (claim_if (profile_claim scope allowed "family_name") "family_name"
          (nullable_str user.family_name)
          (claim_if (profile_claim scope allowed "preferred_username") "preferred_username"
            (nullable_str user.username)
            (claim_if (profile_claim scope allowed "profile_type") "profile_type"
              (str (profile_type_name user.profile_type)) end))))

unfoldable pub build_user_claims : User → String → List String → Fields
build_user_claims user scope allowed =
    claim_if (email_claim scope allowed) "email" (str user.email) (
      claim_if (email_claim scope allowed) "email_verified" (bool (is_some user.email_verified_at))
        (profile_claims user scope allowed))
