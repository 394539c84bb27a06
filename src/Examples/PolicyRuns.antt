-- ===== src/Examples/PolicyRuns.antt =====
-- Filtered claims of a payload and of a user.
use oid.Shared.{[], ◌∷◌, none, some, is_some, true, ◌≡◌, refl, includes}
use oid.Json.{str, Fields, end, field, member}
use oid.ClaimPolicy.{
  TokenContext, InternalUserClaims, filter_user_info_payload, build_allowed_additional_claims,
}
use oid.ClaimPolicy.Release
use oid.ClaimPolicy.Release.{IsCovered, IsKept}

abbrev payload : Fields
payload = field "sub" (str "usr_1") (field "email" (str "a") (field "name" (str "b") end))

abbrev context : TokenContext
context = record {
  client_id = "app";
  scopes = "email" ∷ [];
  allowed_claims = "email" ∷ "name" ∷ [];
}

kept : member "email" (filter_user_info_payload payload (some context)) ≡ some (str "a")
unfolding member filter_user_info_payload includes
kept = refl

-- The token has not the scope for the name.
name_dropped : member "name" (filter_user_info_payload payload (some context)) ≡ none
unfolding member filter_user_info_payload includes
name_dropped = refl

filter_user_info_payload-IsCovered_example : IsKept payload context "email" (str "a")
filter_user_info_payload-IsCovered_example =
    Release.filter_user_info_payload-IsCovered payload context "email" (str "a") kept

abbrev user : InternalUserClaims
user = record { username = some "ab"; profile_type = "employee"; groups = "staff" ∷ [] }

group_added :
    is_some (member "groups" (build_allowed_additional_claims ("groups" ∷ []) ("groups" ∷ []) user))
    ≡ true
unfolding member build_allowed_additional_claims includes
group_added = refl

build_allowed_additional_claims-IsCovered_example :
    IsCovered ("groups" ∷ []) ("groups" ∷ []) "groups"
build_allowed_additional_claims-IsCovered_example =
    Release.build_allowed_additional_claims-IsCovered ("groups" ∷ []) ("groups" ∷ []) user "groups"
      group_added
