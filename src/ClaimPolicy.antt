-- ===== src/ClaimPolicy.antt =====
-- src/better-auth/userinfo-policy.service.ts and src/better-auth/claim-policy.ts: which claims the
-- endpoints of better-auth may release. The rows that their queries load are arguments.
pub mod Release
use oid.Shared.{
  String, ◌==◌, Bool, true, false, not, ◌&&◌, List, [], ◌∷◌, Option, none, some, is_empty, truthy,
  split, includes, if◌then◌else◌,
}
use oid.Json.{Json, str, arr, Items, nil, cons, Fields, end, field, member}
use oid.Platform.{Platform}

pub record TokenContext : Type 0 where
  pub client_id : String
  pub scopes : List String
  pub allowed_claims : List String

-- `target[name] = source[name]` if it is allowed and there.
abbrev pub put : String → Option Json → Fields → Fields
put name none rest = rest
put name (some v) rest = field name v rest

abbrev pub copy_claim_if_allowed : Fields → String → Bool → Fields → Fields
copy_claim_if_allowed source name allowed rest =
    if allowed then put name (member name source) rest else rest

abbrev pub copy_sub : Option Json → Fields → Fields
copy_sub (some (str sub)) rest = field "sub" (str sub) rest
copy_sub _ rest = rest

abbrev pub allows : TokenContext → String → String → Bool
allows context word name = includes word context.scopes && includes name context.allowed_claims

abbrev copy_claims : Fields → TokenContext → Fields
copy_claims payload context =
    copy_claim_if_allowed payload "email" (allows context "email" "email") (
      copy_claim_if_allowed payload "email_verified" (allows context "email" "email_verified") (
        copy_claim_if_allowed payload "name" (allows context "profile" "name") (
          copy_claim_if_allowed payload "given_name" (allows context "profile" "given_name") (
            copy_claim_if_allowed payload "family_name" (allows context "profile" "family_name") (
              copy_claim_if_allowed payload "preferred_username"
                (allows context "profile" "preferred_username")
                (copy_claim_if_allowed payload "profile_type"
                  (allows context "profile" "profile_type")
                  (copy_claim_if_allowed payload "groups" (allows context "groups" "groups")
                    end)))))))

unfoldable pub filter_user_info_payload : Fields → Option TokenContext → Fields
filter_user_info_payload payload none = copy_sub (member "sub" payload) end
filter_user_info_payload payload (some context) =
    copy_sub (member "sub" payload) (copy_claims payload context)

abbrev bearer_in : Platform → List String → Option String
bearer_in p (scheme ∷ token ∷ _) =
    if p.to_lower_case scheme == "bearer" && not (is_empty token) then some token else none
bearer_in p _ = none

abbrev token_in : Platform → Option String → Option String
token_in p none = none
token_in p (some header) = if truthy (some header) then bearer_in p (split b' ' header) else none

abbrev context_of : (String → Option TokenContext) → Option String → Option TokenContext
context_of load none = none
context_of load (some token) = load token

-- `filterUserInfoClaims`; `load` is what the query finds for an access token.
unfoldable pub filter_user_info_claims :
    Platform → (String → Option TokenContext) → Option String → Fields → Fields
filter_user_info_claims p load header payload =
    filter_user_info_payload payload (context_of load (token_in p header))

pub record InternalUserClaims : Type 0 where
  pub username : Option String
  pub profile_type : String
  pub groups : List String

abbrev texts : List String → Items
texts [] = nil
texts (w ∷ ws) = cons (str w) (texts ws)

abbrev or_empty : Option String → String
or_empty none = ""
or_empty (some s) = s

abbrev is_nil : List String → Bool
is_nil [] = true
is_nil (w ∷ ws) = false

abbrev pub add_claim : Bool → String → Json → Fields → Fields
add_claim allowed name value rest = if allowed then field name value rest else rest

unfoldable pub build_allowed_additional_claims :
    List String → List String → InternalUserClaims → Fields
build_allowed_additional_claims allowed scopes user =
    add_claim
      (includes "profile" scopes && includes "preferred_username" allowed && truthy user.username)
      "preferred_username" (str (or_empty user.username))
      (add_claim
        (includes "profile" scopes
          && includes "profile_type" allowed
          && not (is_empty user.profile_type))
        "profile_type" (str user.profile_type)
        (add_claim
          (includes "groups" scopes && includes "groups" allowed && not (is_nil user.groups))
          "groups" (arr (texts user.groups)) end))
