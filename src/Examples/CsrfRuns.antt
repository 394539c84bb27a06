-- ===== src/Examples/CsrfRuns.antt =====
-- A token of the back office, submitted with its cookie.
use oid.Shared.{String, [], ◌∷◌, some, ◌≡◌, refl, split}
use oid.Platform.{hash_secret}
use oid.Store.{ok, err}
use oid.Csrf.{same_bytes, generate_csrf_token, assert_csrf_token, invalid_csrf}
use oid.Csrf.Acceptance.{IsAccepted, assert_csrf_token-IsAccepted}
use oid.Examples.Host.{host}

abbrev token : String
unfolding generate_csrf_token hash_secret
token = generate_csrf_token host (1 ∷ [])

accepted : assert_csrf_token host (some token) (some token) ≡ ok tt
unfolding assert_csrf_token generate_csrf_token hash_secret split same_bytes token
accepted = refl

-- A cookie that is signed for another nonce is refused.
forged : assert_csrf_token host (some "AB.AB") (some "AB.AB") ≡ err invalid_csrf
unfolding assert_csrf_token hash_secret split same_bytes
forged = refl

assert_csrf_token-IsAccepted_example :
    (x : String) × (y : String) × (some token ≡ some x)
    × (some token ≡ some y)
    × IsAccepted host x y
assert_csrf_token-IsAccepted_example =
    assert_csrf_token-IsAccepted host (some token) (some token) accepted
