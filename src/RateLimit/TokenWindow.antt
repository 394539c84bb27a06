-- ===== src/RateLimit/TokenWindow.antt =====
-- How many requests of one address the token endpoint lets through in a window.
use oid.Shared.{
  ℕ, ◌+◌, ◌≤◌, ◌<◌, String, ◌==◌, eq_iff, eq_refl, List, [], ◌∷◌, Option, none, some, truthy, leb,
  leb→le, leb→lt, lt→leb, le→leb, if◌then◌else◌, true, false, ◌≡◌, ◌≢◌, ◌⊎◌, inl, inr, refl, arith,
  Bool-cases, Option-cases, All, ==-eq-false,
}
use oid.Store.{Result, ok, err}
use oid.RateLimit.Buckets.{Bucket, Buckets, get, get-set, get-set_other}
use oid.RateLimit.TokenLimit.{TokenLimits, assert_token_allowed, counted}

-- 1 for a request of this address that was let through.
abbrev let_through : String → Option String → Result (Unit {0}) → ℕ
let_through ip none r = 0
let_through ip (some from) (ok tt) = if from == ip then 1 else 0
let_through ip (some from) (err e) = 0

-- The requests of the address that are let through, of requests that come in this order, each from
-- an address at a time.
unfoldable pub passed : TokenLimits → String → List (Option String × ℕ) → Buckets → ℕ
passed limits ip [] m = 0
passed limits ip ((from, now) ∷ requests) m =
    let (r, m') = assert_token_allowed limits from now m in
    let_through ip from r + passed limits ip requests m'

let_through-other :
    (ip from : String) (r : Result (Unit {0}))
    → (from == ip) ≡ false
    → let_through ip (some from) r ≡ 0
let_through-other ip from (ok tt) e = rw e refl
let_through-other ip from (err x) e = refl

module _ (limits : TokenLimits) (ip : String) (named : truthy (some ip) ≡ true) where
  other_counted :
      (other : String) (now : ℕ) (o : Option Bucket) (m : Buckets)
      → other ≢ ip
      → get ip (counted limits other now o m).1 ≡ get ip m
  other_counted other now none m h = get-set_other ip other _ m h
  other_counted other now (some b) m h = elim (Bool-cases (leb b.reset_at now)) [
    | inl e ↦ rw e (get-set_other ip other _ m h)
    | inr e ↦ elim (Bool-cases (leb limits.ip_max_attempts b.count)) [
      | inl e' ↦ rw (e, e') refl
      | inr e' ↦ rw (e, e') (get-set_other ip other _ m h)
    ]
  ]

  -- Another address, or none, leaves the bucket alone.
  other_asks :
      (from : Option String) (now : ℕ) (m : Buckets)
      → from ≢ some ip
      → (get ip (assert_token_allowed limits from now m).1 ≡ get ip m)
        × (let_through ip from (assert_token_allowed limits from now m).0 ≡ 0)
  unfolding assert_token_allowed
  other_asks none now m h = (refl, refl)
  other_asks (some other) now m h =
      let apart : other ≢ ip = λ e. h (rw e refl) in
      (
        elim (Bool-cases (truthy (some other))) [
          | inl e ↦ rw e (other_counted other now (get other m) m apart)
          | inr e ↦ rw e refl
        ],
        let_through-other ip other _ (==-eq-false other ip apart),
      )

  -- The address itself is let through while the count is below the limit, and counted.
  own_asks :
      (now : ℕ) (m : Buckets) (b : Bucket)
      → get ip m ≡ some b
      → now < b.reset_at
      → let (r, m') = assert_token_allowed limits (some ip) now m in
        ((limits.ip_max_attempts ≤ b.count)
          × (let_through ip (some ip) r ≡ 0)
          × (get ip m' ≡ some b))
        ⊎ ((b.count < limits.ip_max_attempts)
            × (let_through ip (some ip) r ≡ 1)
            × (get ip m' ≡ some (record b { count = b.count + 1 })))
  unfolding assert_token_allowed
  own_asks now m b found within = elim (Bool-cases (leb limits.ip_max_attempts b.count)) [
    | inl e ↦ inl (
      leb→le _ _ e,
      rw (named, found, lt→leb _ _ within, e) refl,
      rw (named, found, lt→leb _ _ within, e) found,
    )
    | inr e ↦ inr (
      leb→lt _ _ e,
      rw (named, found, lt→leb _ _ within, e, eq_refl ip) refl,
      rw (named, found, lt→leb _ _ within, e) (get-set ip _ m),
    )
  ]

  not_same : (other : String) → (other == ip) ≡ false → some other ≡ some ip → ⊥
  not_same other e h = let t : (ip == ip) ≡ true = eq_refl ip in cc

  from_cases : (from : Option String) → (from ≡ some ip) ⊎ (from ≢ some ip)
  from_cases none = inr λ e. cc
  from_cases (some other) = elim (Bool-cases (other == ip)) [
    | inl e ↦ inl (rw ((eq_iff other ip).0 e) refl)
    | inr e ↦ inr λ h. not_same other e h
  ]

  -- The count of an open window and the requests let through in it stay within the limit.
  counted_passed :
      (requests : List (Option String × ℕ)) (m : Buckets) (b : Bucket)
      → get ip m ≡ some b
      → b.count ≤ limits.ip_max_attempts
      → All (λ r. r.1 < b.reset_at) requests
      → b.count + passed limits ip requests m ≤ limits.ip_max_attempts
  unfolding passed
  counted_passed [] m b found low h = omega arith
  counted_passed ((from, now) ∷ requests) m b found low (within, h) = elim (from_cases from) [
    | inl e ↦
        let m' = (assert_token_allowed limits (some ip) now m).1 in
        rw e (elim (own_asks now m b found within) [
          | inl (full, zero, kept) ↦
              rw zero (omega (arith, counted_passed requests m' b kept low h))
          | inr (room, one, more) ↦ rw one (
              omega (
                arith,
                counted_passed requests m' (record b { count = b.count + 1 }) more (omega arith) h,
              ))
        ])
    | inr e ↦
        let (same, none_through) = other_asks from now m e in
        rw none_through (
          omega (
            arith,
            counted_passed requests (assert_token_allowed limits from now m).1 b (rw same found) low
                h,
          ))
  ]

  -- No bucket of the address is open.
  abbrev pub IsClosed : ℕ → Buckets → Type 0
  IsClosed now m = (b : Bucket) → get ip m ≡ some b → b.reset_at ≤ now

  opens :
      (now : ℕ) (m : Buckets)
      → IsClosed now m
      → let (r, m') = assert_token_allowed limits (some ip) now m in
        (let_through ip (some ip) r ≡ 1)
        × (get ip m' ≡ some (record { count = 1; reset_at = now + limits.window_ms }))
  unfolding assert_token_allowed
  opens now m closed = elim (Option-cases (get ip m)) [
    | inl e ↦ (rw (named, e, eq_refl ip) refl, rw (named, e) (get-set ip _ m))
    | inr (b, e) ↦ (
      rw (named, e, le→leb _ _ (closed b e), eq_refl ip) refl,
      rw (named, e, le→leb _ _ (closed b e)) (get-set ip _ m),
    )
  ]

  -- When a request of a named address opens a window, that request and any requests that follow
  -- before the window's end, from whichever addresses, are let through at most `ip_max_attempts`
  -- times for this address, if that is at least 1.
  pub passed-window_lem :
      (start : ℕ) (requests : List (Option String × ℕ)) (m : Buckets)
      → IsClosed start m
      → 1 ≤ limits.ip_max_attempts
      → All (λ r. r.1 < start + limits.window_ms) requests
      → passed limits ip ((some ip, start) ∷ requests) m ≤ limits.ip_max_attempts
  unfolding passed
  passed-window_lem start requests m closed some_allowed h =
      let (one, opened) = opens start m closed in
      rw one (
        counted_passed requests (assert_token_allowed limits (some ip) start m).1
          (record { count = 1; reset_at = start + limits.window_ms }) opened some_allowed h)
