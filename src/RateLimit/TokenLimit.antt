-- ===== src/RateLimit/TokenLimit.antt =====
-- oidc/token-rate-limit.service.ts.
use oid.Shared.{ℕ, ◌+◌, String, Option, none, some, truthy, leb, if◌then◌else◌}
use oid.Store.{Result, ok, err, too_many_requests}
use oid.RateLimit.Buckets.{Bucket, Buckets, get, set}

pub record TokenLimits : Type 0 where
  pub window_ms : ℕ
  pub ip_max_attempts : ℕ

module _ (limits : TokenLimits) where
  abbrev opened : String → ℕ → Buckets → Result (Unit {0}) × Buckets
  opened ip now m = (ok tt, set ip (record { count = 1; reset_at = now + limits.window_ms }) m)

  abbrev pub counted : String → ℕ → Option Bucket → Buckets → Result (Unit {0}) × Buckets
  counted ip now none m = opened ip now m
  counted ip now (some b) m =
      if leb b.reset_at now
      then opened ip now m
      else if leb limits.ip_max_attempts b.count
      then (err (too_many_requests "Too many token requests. Try again later."), m)
      else (ok tt, set ip (record b { count = b.count + 1 }) m)

  abbrev counted_address : Option String → ℕ → Buckets → Result (Unit {0}) × Buckets
  counted_address none now m = (ok tt, m)
  counted_address (some ip) now m =
      if truthy (some ip) then counted ip now (get ip m) m else (ok tt, m)

  -- `TokenRateLimitService.assertAllowed` at the time `now`.
  unfoldable pub assert_token_allowed : Option String → ℕ → Buckets → Result (Unit {0}) × Buckets
  assert_token_allowed ip now m = counted_address ip now m
