-- ===== src/RateLimit/LoginLimit.antt =====
-- authentication/login-rate-limit.service.ts.
use oid.Shared.{ℕ, ◌+◌, String, Bool, false, Option, none, some, truthy, leb, if◌then◌else◌}
use oid.Store.{Result, ok, err, too_many_requests}
use oid.RateLimit.Buckets.{Bucket, Buckets, get, set, delete}

pub record LoginLimits : Type 0 where
  pub window_ms : ℕ
  pub ip_max_attempts : ℕ
  pub account_max_attempts : ℕ

-- The two maps of the service.
pub record LoginBuckets : Type 0 where
  pub accounts : Buckets
  pub ips : Buckets

abbrev blocked_by : String → ℕ → ℕ → Option Bucket → Buckets → Bool × Buckets
blocked_by key max now none m = (false, m)
blocked_by key max now (some b) m =
    if leb b.reset_at now then (false, delete key m) else (leb max b.count, m)

-- `isBlocked`: a bucket whose window is over is deleted.
unfoldable pub is_blocked : String → ℕ → ℕ → Buckets → Bool × Buckets
is_blocked key max now m = blocked_by key max now (get key m) m

-- `if (ipAddress)`, the map of the addresses changes.
abbrev at_ip : Option String → (String → Buckets → Buckets) → Buckets → Buckets
at_ip none f m = m
at_ip (some ip) f m = if truthy (some ip) then f ip m else m

unfoldable pub record_success : Option String → String → LoginBuckets → LoginBuckets
record_success ip email s = record {
  accounts = delete email s.accounts;
  ips = at_ip ip delete s.ips;
}

module _ (limits : LoginLimits) where
  abbrev started : String → ℕ → Buckets → Buckets
  started key now m = set key (record { count = 1; reset_at = now + limits.window_ms }) m

  abbrev incremented : String → ℕ → Option Bucket → Buckets → Buckets
  incremented key now none m = started key now m
  incremented key now (some b) m =
      if leb b.reset_at now then started key now m else set key (record b { count = b.count + 1 }) m

  -- `increment`
  unfoldable pub increment : String → ℕ → Buckets → Buckets
  increment key now m = incremented key now (get key m) m

  abbrev refusal : Result (Unit {0})
  refusal = err (too_many_requests "Too many login attempts. Try again later.")

  abbrev check_ip : Option String → ℕ → LoginBuckets → Result (Unit {0}) × LoginBuckets
  check_ip none now s = (ok tt, s)
  check_ip (some ip) now s =
      let (blocked, ips) = is_blocked ip limits.ip_max_attempts now s.ips in
      if truthy (some ip)
      then (if blocked then refusal else ok tt, record s { ips = ips })
      else (ok tt, s)

  -- `LoginRateLimitService.assertAllowed` at the time `now`.
  unfoldable pub assert_login_allowed :
      Option String → String → ℕ → LoginBuckets → Result (Unit {0}) × LoginBuckets
  assert_login_allowed ip email now s =
      let (blocked, accounts) = is_blocked email limits.account_max_attempts now s.accounts in
      let kept = record s { accounts = accounts } in
      if blocked then (refusal, kept) else check_ip ip now kept

  unfoldable pub record_failure : Option String → String → ℕ → LoginBuckets → LoginBuckets
  record_failure ip email now s = record {
    accounts = increment email now s.accounts;
    ips = at_ip ip (λ a. increment a now) s.ips;
  }
