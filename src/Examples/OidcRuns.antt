-- ===== src/Examples/OidcRuns.antt =====
-- A code that is exchanged, presented again, and a userinfo request.
use oid.Shared.{
  [], ◌∷◌, ◌≡◌, refl, none, some, find_one, save, join, trim, split, includes, is_some, true, false,
}
use oid.Json.{str, bool, Fields, end, field, member}
use oid.Platform.{hash_secret, hash_base64url}
use oid.Store.{ok, err, HttpException}
use oid.Audit.{record_event}
use oid.Sealing.{seal, unseal}
use oid.Tokens.{assert_client_secret, active_user, issue_token}
use oid.Oidc.Input.{normalize_required}
use oid.Oidc.Jwt.{get_or_create_active_signing_key, sign_jwt, verify_jwt, verify_jwt_signature}
use oid.Oidc.Claims.{build_user_claims}
use oid.Oidc.Token.{
  TokenRequest, TokenResponse, check_code, lifetimes_to_issue, issue_refresh, issue_tokens,
  exchange_checked, exchange_code,
}
use oid.Oidc.Endpoints.{extract_bearer_token, verify_access_token, user_info}
use oid.Oidc.SingleUse
use oid.Oidc.SingleUse.{IsSettled}
use oid.Oidc.Disclosure
use oid.Oidc.Disclosure.{IsReleasable}
use oid.Oidc.UserInfo
use oid.Oidc.UserInfo.{IsAnswer}
use oid.Examples.Host.{host}
use oid.Examples.Rows.{rows, user, fresh_tokens, fresh_key}

abbrev request : TokenRequest
request = record {
  grant_type = some "authorization_code";
  code = some " bca ";
  redirect_uri = some "https://app";
  client_id = some "app";
  client_secret = some "abc";
  code_verifier = some "acb";
  refresh_token = none;
  ip_address = none;
  user_agent = none;
}

abbrev response : TokenResponse
response = record {
  access_token = "ABAABAAAB.ABAABAAAB.c";
  expires_in = 60;
  id_token = some "ABAABAAAB.ABAABAAAB.c";
  refresh_token = some "ABAAAAAB";
  scope = "openid email offline_access";
}

exchange-ok : (exchange_code host request fresh_tokens 5000 rows).0 ≡ ok response
unfolding exchange_code normalize_required trim exchange_checked find_one hash_secret check_code
    assert_client_secret hash_base64url active_user issue_tokens get_or_create_active_signing_key
    sign_jwt unseal split seal join lifetimes_to_issue record_event build_user_claims issue_refresh
    save includes issue_token
exchange-ok = refl

exchange_code-IsSettled_example :
    IsSettled host request 5000 rows (exchange_code host request fresh_tokens 5000 rows)
exchange_code-IsSettled_example =
    SingleUse.exchange_code-IsSettled host request fresh_tokens 5000 rows

exchange_code-once_example :
    (e : HttpException) × (exchange_code host request fresh_tokens 6000
        (exchange_code host request fresh_tokens 5000 rows).1
      ≡ (err e, (exchange_code host request fresh_tokens 5000 rows).1))
exchange_code-once_example =
    SingleUse.exchange_code-once host request request fresh_tokens fresh_tokens 5000 6000 rows
      response (tt, tt) exchange-ok refl

released :
    is_some (member "email_verified" (build_user_claims user "openid email" ("email" ∷ []))) ≡ true
unfolding member build_user_claims split includes
released = refl

build_user_claims-IsReleasable_example : IsReleasable "email_verified" "openid email" ("email" ∷ [])
build_user_claims-IsReleasable_example =
    Disclosure.build_user_claims-IsReleasable user "openid email" ("email" ∷ []) "email_verified"
      released

abbrev answer : Fields
answer =
    field "sub" (str "usr_1") (field "email" (str "a") (field "email_verified" (bool false) end))

answered : (user_info host (some "Bearer a.b.c") fresh_key 5000 rows).0 ≡ ok answer
unfolding user_info extract_bearer_token split verify_access_token get_or_create_active_signing_key
    find_one verify_jwt verify_jwt_signature member active_user build_user_claims includes
answered = refl

user_info-IsAnswer_example : IsAnswer host (some "Bearer a.b.c") fresh_key 5000 rows answer
user_info-IsAnswer_example =
    UserInfo.user_info-IsAnswer host (some "Bearer a.b.c") fresh_key 5000 rows answer answered
