-- ===== src/RateLimit/LoginWindow.antt =====
-- How many failed logins an account may have in a window.
use oid.Shared.{
  ℕ, ◌+◌, ◌≤◌, ◌<◌, String, List, [], ◌∷◌, Option, none, some, truthy, lt→leb, le→leb, ◌≡◌, inl,
  inr, refl, ap, ◌∙◌, arith, Bool-cases, All,
}
use oid.Store.{ok, err, too_many_requests}
use oid.RateLimit.Buckets.{Bucket, Buckets, get, get-set, get-delete}
use oid.RateLimit.LoginLimit.{
  LoginLimits, LoginBuckets, increment, is_blocked, assert_login_allowed, record_failure,
  record_success,
}

-- The failures of one account, each from an address at a time, recorded in this order.
unfoldable pub record_failures :
    LoginLimits → String → List (Option String × ℕ) → LoginBuckets → LoginBuckets
record_failures limits email [] s = s
record_failures limits email ((ip, now) ∷ failures) s =
    record_failures limits email failures (record_failure limits ip email now s)

unfoldable pub length : List (Option String × ℕ) → ℕ
length [] = 0
length (f ∷ failures) = 1 + length failures

module _ (limits : LoginLimits) (email : String) where
  increments :
      (now : ℕ) (m : Buckets) (b : Bucket)
      → get email m ≡ some b
      → now < b.reset_at
      → get email (increment limits email now m) ≡ some (record b { count = b.count + 1 })
  unfolding increment
  increments now m b found within = rw (found, lt→leb _ _ within) (get-set email _ m)

  -- Every failure within the window is counted.
  failures_counted :
      (failures : List (Option String × ℕ)) (s : LoginBuckets) (b : Bucket)
      → get email s.accounts ≡ some b
      → All (λ f. f.1 < b.reset_at) failures
      → get email (record_failures limits email failures s).accounts
        ≡ some (record b { count = b.count + length failures })
  unfolding record_failures length record_failure
  failures_counted [] s b found h = found ∙ ap (λ n. some (record b { count = n })) (omega arith)
  failures_counted ((ip, now) ∷ failures) s b found (within, h) =
      failures_counted failures (record_failure limits ip email now s)
        (record b { count = b.count + 1 }) (increments now s.accounts b found within) h
      ∙ ap (λ n. some (record b { count = n })) (omega arith)

  starts :
      (now : ℕ) (m : Buckets)
      → get email m ≡ none
      → get email (increment limits email now m)
        ≡ some (record { count = 1; reset_at = now + limits.window_ms })
  unfolding increment
  starts now m e = rw e (get-set email _ m)

  blocks :
      (now : ℕ) (s : LoginBuckets) (b : Bucket) (ip : Option String)
      → get email s.accounts ≡ some b
      → now < b.reset_at
      → limits.account_max_attempts ≤ b.count
      → assert_login_allowed limits ip email now s
        ≡ (err (too_many_requests "Too many login attempts. Try again later."), s)
  unfolding assert_login_allowed is_blocked
  blocks now s b ip found within full = rw (found, lt→leb _ _ within, le→leb _ _ full) refl

  -- After a success, then a failure at `start` and further failures before the window ends, if they are
  -- together at least `account_max_attempts`, every login of the account is refused until the window
  -- ends, from whichever address, and the refusal changes nothing.
  pub assert_login_allowed-record_failures :
      (ip : Option String) (start : ℕ) (failures : List (Option String × ℕ)) (s : LoginBuckets)
      (from : Option String) (now : ℕ)
      → All (λ f. f.1 < start + limits.window_ms) failures
      → limits.account_max_attempts ≤ 1 + length failures
      → now < start + limits.window_ms
      → let locked =
          record_failures limits email ((ip, start) ∷ failures) (record_success ip email s) in
        assert_login_allowed limits from email now locked
        ≡ (err (too_many_requests "Too many login attempts. Try again later."), locked)
  unfolding record_failures record_failure record_success
  assert_login_allowed-record_failures ip start failures s from now h full within =
      let first = record_failure limits ip email start (record_success ip email s) in
      blocks now (record_failures limits email failures first)
        (record { count = 1 + length failures; reset_at = start + limits.window_ms }) from
        (failures_counted failures first (record { count = 1; reset_at = start + limits.window_ms })
          (starts start _ (get-delete email s.accounts)) h)
        within full

  -- After a success, the next login of the account from the same address is allowed, whatever came
  -- before, and changes nothing.
  pub assert_login_allowed-record_success :
      (ip : Option String) (now : ℕ) (s : LoginBuckets)
      → assert_login_allowed limits ip email now (record_success ip email s)
        ≡ (ok tt, record_success ip email s)
  unfolding assert_login_allowed is_blocked record_success
  assert_login_allowed-record_success none now s = rw (get-delete email s.accounts) refl
  assert_login_allowed-record_success (some ip) now s = elim (Bool-cases (truthy (some ip))) [
    | inl e ↦ rw (get-delete email s.accounts, e, get-delete ip s.ips) refl
    | inr e ↦ rw (get-delete email s.accounts, e) refl
  ]
