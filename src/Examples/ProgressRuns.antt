-- ===== src/Examples/ProgressRuns.antt =====
-- A rotation and an exchange that return.
use oid.Shared.{◌≡◌, refl, none, some, find_one, arith, trim, split, join}
use oid.Platform.{hash_secret, hash_base64url}
use oid.Store.{ok}
use oid.Sealing.{seal, unseal}
use oid.Tokens.{RotateForClientInput, RotateForClientResult, rotate_token_for_client}
use oid.Tokens.Progress.{IsAuthentic, IsRotatable, IsRenewal, rotate_token_for_client-ok}
use oid.Oidc.Token.{TokenRequest, exchange_code}
use oid.Oidc.Issued.{CanSign}
use oid.Oidc.Progress.{IsPresentable, Returns, exchange_code-ok}
use oid.Examples.Host.{host}
use oid.Examples.Rows.{rows, user, client, code, token, key, fresh, fresh_tokens}

abbrev rotation : RotateForClientInput
rotation = record { refresh_token = "abc"; client_identifier = "app"; client_secret = some "abc" }

client-IsAuthentic : IsAuthentic host client (some "abc")
unfolding hash_secret
client-IsAuthentic = IsAuthentic.with_secret "abc" refl refl refl refl refl

token-IsRotatable : IsRotatable host rotation 2000 rows token client user 10 20
unfolding find_one hash_secret
token-IsRotatable = record {
  found = refl;
  unrotated = refl;
  unrevoked = refl;
  before_idle = omega arith;
  before_absolute = omega arith;
  registered = refl;
  enabled = refl;
  allows = refl;
  idle_positive = omega arith;
  idle_set = refl;
  absolute_positive = omega arith;
  absolute_set = refl;
  authenticated = client-IsAuthentic;
  known = refl;
  allowed = refl;
}

rotate_token_for_client-ok_example :
    (r : RotateForClientResult) × ((rotate_token_for_client host rotation fresh 2000 rows).0 ≡ ok r)
    × IsRenewal host fresh 2000 token client 10 20 r
rotate_token_for_client-ok_example =
    rotate_token_for_client-ok host rotation fresh 2000 rows token client user 10 20
      token-IsRotatable

abbrev request : TokenRequest
request = record {
  grant_type = some "authorization_code";
  code = some "bca";
  redirect_uri = some "https://app";
  client_id = some "app";
  client_secret = some "abc";
  code_verifier = some "acb";
  refresh_token = none;
  ip_address = none;
  user_agent = none;
}

code-IsPresentable : IsPresentable host request 5000 rows code client user
unfolding find_one hash_secret hash_base64url trim
code-IsPresentable = record {
  has_code = refl;
  has_redirect_uri = refl;
  has_client_id = refl;
  has_verifier = refl;
  found = refl;
  redeemable = record { unused = refl; in_time = omega arith; same_redirect = refl };
  registered = refl;
  enabled = refl;
  authenticated = client-IsAuthentic;
  proof_of_possession = refl;
  known = refl;
  allowed = refl;
}

key-CanSign : CanSign host rows key "abc"
unfolding find_one unseal split seal join
key-CanSign = record { active = refl; opened = refl; signs = λ input. ("c", refl) }

exchange_code-ok_example :
    Returns host request fresh_tokens 5000 rows code client user key "abc"
      (exchange_code host request fresh_tokens 5000 rows).0
exchange_code-ok_example =
    exchange_code-ok host request fresh_tokens 5000 rows code client user key "abc"
      code-IsPresentable key-CanSign
